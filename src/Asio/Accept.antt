-- ===== src/Asio/Accept.antt =====
-- src/asio/include/asio_uring/asio/accept_file.hpp and src/asio/accept_file.cpp: an accept_file shares
-- its `impl`, which owns the descriptor, with the invokers of its operations. Whether the service can
-- start a poll, and what `accept` returns, are arguments.
use asio_uring.Base.{
  ℕ, ◌+◌, ◌-◌, ◌==◌, Bool, true, false, if◌then◌else◌, Option, none, some, List, [], ◌∷◌, has,
  Exception, bad_alloc, throw, Run, ok, map_state, ◌>>=◌, ◌>>◌, pure, raise, modify, check_that,
  on_exit, on_throw,
}
use asio_uring.EventfdQueue.Nodes.{erase}
use asio_uring.Fd.{Table}
use asio_uring.Asio.Objects.{Fcntl, construct_poll_file}
use asio_uring.FileObject.{File, native_handle, wrap, discard, release, reset}

-- `file` is that of the `impl`, `owner` says whether `impl_` points to it, `waiting` lists the
-- operations whose invoker has a `self`, and `running` counts the invokers that have been called. `uses`
-- is the use count of the `impl`.
pub record Acceptor : Type 0 where
  pub file : File
  pub owner : Bool
  pub uses : ℕ
  pub waiting : List ℕ
  pub running : ℕ

abbrev pub M : Type 0 → Type 0
M A = Acceptor → Run Acceptor A

abbrev pub in_file : {A : Type 0} → (File → Run File A) → M A
in_file f s = map_state (λ t. record s { file = t }) (f s.file)

-- `accept_file(ctx, file)`, for a `file` at `other`: `std::make_shared` may have no memory for the `impl`,
-- and the constructor of the poll_file may throw.
unfoldable pub construct : Bool → Fcntl → Option ℕ → ℕ → Table → Run Table Acceptor
construct false f place other t = throw bad_alloc t
construct true f place other t =
    (do
      s ← construct_poll_file f place other
      pure (record { file = s; owner = true; uses = 1; waiting = []; running = 0 }))
      t

-- A pointer to the `impl` goes; the last one destroys it, and with it the file_object.
unfoldable pub release_impl : M (Unit {0})
release_impl s =
    if s.uses == 1
    then in_file reset (record s { uses = 0 })
    else ok tt (record s { uses = s.uses - 1 })

abbrev pub started : Option Exception → ℕ → M (Unit {0})
started none h = pure tt
started (some e) h = do in_file (discard h); raise e

-- `async_poll_in`, as far as the descriptor is concerned; `refused` is what the service throws.
unfoldable pub poll_in : Option Exception → ℕ → M (Unit {0})
poll_in refused h = do in_file native_handle; in_file (wrap h); started refused h

-- `self` of an invoker that is not called
unfoldable pub give_up : ℕ → M (Unit {0})
give_up h = do modify (λ s. record s { waiting = erase h s.waiting }); release_impl

-- `impl::async_accept`
unfoldable pub impl_accept : Option Exception → ℕ → M (Unit {0})
impl_accept refused h = do
  modify (λ s. record s { uses = s.uses + 1; waiting = h ∷ s.waiting })
  λ s. on_throw (poll_in refused h s) (give_up h)

-- `async_accept`
unfoldable pub async_accept : Option Exception → ℕ → M (Unit {0})
async_accept refused h s = (do check_that s.owner; impl_accept refused h) s

-- The handler of the user, which gets an error or a descriptor
abbrev pub Callback : Type 0
Callback = Option ℕ → Option ℕ → M (Unit {0})

-- What the invoker does with the error and the descriptor that `accept` has returned
abbrev pub accepted : Callback → Option Exception → ℕ → Option ℕ → Option ℕ → M (Unit {0})
accepted k refused h (some e) fd = k (some e) none
accepted k refused h none (some fd) = k none (some fd)
accepted k refused h none none = impl_accept refused h

-- The invoker, for a poll that has ended with the error `ec`, or none
abbrev pub invoker : Callback → Option Exception → ℕ → Option ℕ → Option ℕ → Option ℕ → M (Unit {0})
invoker k refused h (some ec) sec fd = k (some ec) none
invoker k refused h none sec fd = do in_file native_handle; accepted k refused h sec fd

-- The pointers of an operation whose handler has been called go: that of the fd_completion_handler when
-- the call ends, and that of the invoker with the handler.
unfoldable pub leave : M (Unit {0})
leave = do
  in_file (λ f. release (record f { locals = f.locals - 1 }))
  modify (λ s. record s { running = s.running - 1 })
  release_impl

-- The handler of the operation `h` is called.
unfoldable pub deliver :
    Callback → Option Exception → ℕ → Option ℕ → Option ℕ → Option ℕ → M (Unit {0})
deliver k refused h ec sec fd s =
    (do
      check_that (has h s.file.holding)
      modify (λ t. record t {
        file = record t.file { holding = erase h t.file.holding; locals = t.file.locals + 1 };
        waiting = erase h t.waiting;
        running = t.running + 1;
      })
      λ t. on_exit (invoker k refused h ec sec fd t) leave)
      s

-- The destructor of an accept_file that has its `impl`
unfoldable pub destroy : M (Unit {0})
destroy s = if s.owner then release_impl (record s { owner = false }) else ok tt s

pub data Op : Type 0 where
  accepts : Option Exception → ℕ → Op
  delivers : Callback → Option Exception → ℕ → Option ℕ → Option ℕ → Option ℕ → Op
  destroys : Op

unfoldable pub exec : Op → M (Unit {0})
exec (accepts refused h) = async_accept refused h
exec (delivers k refused h ec sec fd) = deliver k refused h ec sec fd
exec destroys = destroy
