-- ===== src/Fd.antt =====
-- src/core/fd.cpp: objects that own a file descriptor, over the table of those that are open.
pub mod Ownership
use asio_uring.Base.{
  ℕ, ◌==◌, not, if◌then◌else◌, Option, none, some, List, ◌∷◌, has, generic_error, Sys, done, failed,
  blocks, Run, ok, throw, running, ◌>>=◌, ◌>>◌, modify, check_that,
}
use asio_uring.EventfdQueue.Nodes.{update, erase}

-- `handle` is the `handle_` of the object at each place: none for -1, and where there is no object.
-- `opened` lists the descriptors that have been handed to an object and are open.
pub record Table : Type 0 where
  pub handle : ℕ → Option ℕ
  pub opened : List ℕ

abbrev pub M : Type 0 → Type 0
M A = Table → Run Table A

-- `close` returns 0 exactly for a descriptor that is open.
unfoldable pub maybe_close : Option ℕ → M (Unit {0})
maybe_close none t = ok tt t
maybe_close (some fd) t =
    (do check_that (has fd t.opened); modify (λ s. record s { opened = erase fd s.opened })) t

abbrev pub set_handle : ℕ → Option ℕ → M (Unit {0})
set_handle i h = modify (λ t. record t { handle = update t.handle i h })

-- `fd()`
unfoldable pub empty : ℕ → M (Unit {0})
empty i = set_handle i none

-- `fd(handle)`, with the call whose result is the handle
unfoldable pub adopt : ℕ → Sys ℕ → M (Unit {0})
adopt i (done h) t = ok tt (record t { handle = update t.handle i (some h); opened = h ∷ t.opened })
adopt i (failed e) t = throw (generic_error e) t
adopt i blocks t = running t

-- `fd(fd&&)`
unfoldable pub move : ℕ → ℕ → M (Unit {0})
move i other t = (do set_handle i (t.handle other); set_handle other none) t

-- `operator=(fd&&)`
unfoldable pub assign : ℕ → ℕ → M (Unit {0})
assign i other t =
    (do
      check_that (not (other == i))
      maybe_close (t.handle i)
      set_handle i (t.handle other)
      set_handle other none)
      t

-- `~fd()`, after which there is no object at `i`
unfoldable pub destroy : ℕ → M (Unit {0})
destroy i t = (do maybe_close (t.handle i); set_handle i none) t

pub data Op : Type 0 where
  makes : ℕ → Op
  adopts : ℕ → Sys ℕ → Op
  moves assigns : ℕ → ℕ → Op
  destroys : ℕ → Op

unfoldable pub exec : Op → M (Unit {0})
exec (makes i) = empty i
exec (adopts i r) = adopt i r
exec (moves i other) = move i other
exec (assigns i other) = assign i other
exec (destroys i) = destroy i
