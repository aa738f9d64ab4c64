-- ===== src/FileObject.antt =====
-- The descriptor of a file_object, which its completion handlers share: src/asio/file_object.cpp, and
-- file_object.hpp, fd_completion_handler.hpp and fd_completion_token.hpp of
-- src/asio/include/asio_uring/asio.
pub mod Lifetime
use asio_uring.Base.{
  ℕ, ◌+◌, ◌-◌, ◌==◌, Bool, true, false, not, if◌then◌else◌, Option, none, some, List, [], ◌∷◌, has,
  bad_alloc, Run, ok, throw, abort, running, and_then, ◌>>=◌, ◌>>◌, pure, modify, check_that,
  map_state,
}
use asio_uring.EventfdQueue.Nodes.{erase}
use asio_uring.Fd.{Table}
use asio_uring.Fd

-- `block` is the place of the `fd` that the `std::shared_ptr` manages, and `count` its use count.
-- `attached` says whether `fd_` of the file_object points to it, `holding` lists the handlers whose
-- `fd_` does, and `locals` counts the local pointers of invocations that are under way.
pub record File : Type 0 where
  pub table : Table
  pub block : ℕ
  pub count : ℕ
  pub attached : Bool
  pub holding : List ℕ
  pub locals : ℕ

abbrev pub M : Type 0 → Type 0
M A = File → Run File A

abbrev pub in_table : {A : Type 0} → File → Run Table A → Run File A
in_table s r = map_state (λ t. record s { table = t }) r

-- The destructor of a pointer that is not null; the last one destroys the `fd`.
unfoldable pub release : M (Unit {0})
release s =
    if s.count == 1
    then in_table (record s { count = 0 }) (Fd.destroy s.block s.table)
    else ok tt (record s { count = s.count - 1 })

-- `file_object(ctx, file)`, for a `file` at `other`: `std::make_shared` makes the shared `fd`, or
-- has no memory for it.
unfoldable pub construct : Option ℕ → ℕ → Table → Run Table File
construct none other t = throw bad_alloc t
construct (some place) other t =
    (do
      Fd.move place other
      λ d.
          ok
            (record {
              table = d;
              block = place;
              count = 1;
              attached = true;
              holding = [];
              locals = 0;
            })
            d)
      t

unfoldable pub native_handle : M (Option ℕ)
native_handle s = (do check_that s.attached; pure (s.table.handle s.block)) s

-- `fd_completion_handler(h, fd_)`; a token holds a pointer that its handler takes over.
unfoldable pub wrap : ℕ → M (Unit {0})
wrap c = do
  λ s. check_that s.attached s
  modify (λ s. record s { count = s.count + 1; holding = c ∷ s.holding })

-- The destructor of a handler that has not been invoked
unfoldable pub discard : ℕ → M (Unit {0})
discard c s = (do modify (λ t. record t { holding = erase c t.holding }); release) s

-- The local pointer goes whichever way the handler ends.
abbrev pub leave : Run File (Unit {0}) → Run File (Unit {0})
leave (ok a s) = release (record s { locals = s.locals - 1 })
leave (throw e s) = and_then (release (record s { locals = s.locals - 1 })) (λ _ t. throw e t)
leave abort = abort
leave (running s) = running s

-- `fd_completion_handler::operator()`, with `f` for the handler that it wraps
unfoldable pub invoke : ℕ → M (Unit {0}) → M (Unit {0})
invoke c f s =
    (do
      check_that (has c s.holding)
      λ t. leave (f (record t { holding = erase c t.holding; locals = t.locals + 1 })))
      s

unfoldable pub reset : M (Unit {0})
reset s = if s.attached then release (record s { attached = false }) else ok tt s

-- `fd_.use_count()`
abbrev pub use_count : File → ℕ
use_count s = if s.attached then s.count else 0

unfoldable pub outstanding : M ℕ
outstanding s = (do check_that (not (use_count s == 0)); pure (use_count s - 1)) s

pub data Op : Type 0 where
  wraps discards : ℕ → Op
  invokes : ℕ → (File → Run File (Unit {0})) → Op
  resets : Op

unfoldable pub exec : Op → M (Unit {0})
exec (wraps c) = wrap c
exec (discards c) = discard c
exec (invokes c f) = invoke c f
exec resets = reset
