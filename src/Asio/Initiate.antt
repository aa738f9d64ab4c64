-- ===== src/Asio/Initiate.antt =====
-- src/asio/include/asio_uring/asio/service.hpp: the service of the I/O objects, which is the service
-- of the core with a completion_handler in each completion.
use asio_uring.Base.{
  ℕ, Bool, Option, none, some, List, length, ErrorCode, Run, ok, throw, abort, running, and_then,
  Exception,
}
use asio_uring.EventfdQueue.Nodes.{Ptr, Allocation, Built, built, not_built}
use asio_uring.Context.Platform.{Platform}
use asio_uring.Context.Executor.{User}
use asio_uring.Service.Pool.{Service, Iovs, in_context, initiate, initiate_iovs}
use asio_uring.Service.Pool
use asio_uring.Io.Codes.{
  ℤ, to_rw_result, to_poll_add_result, to_poll_remove_result, to_fsync_result,
}
use asio_uring.Asio.Iovec.{Buffer, Iovec, to_iovecs}
use asio_uring.Asio.Handler

-- The functions that liburing has to fill in an entry; the descriptor is none for -1.
pub record Preps (p : Platform) : Type 0 where
  pub readv : p.Sqe → Option ℕ → Iovs → ℕ → ℕ → p.World → p.World
  pub writev : p.Sqe → Option ℕ → Iovs → ℕ → ℕ → p.World → p.World
  pub poll_add : p.Sqe → Option ℕ → ℕ → p.World → p.World
  pub poll_remove : p.Sqe → ℕ → p.World → p.World
  pub fsync : p.Sqe → Option ℕ → Bool → p.World → p.World

-- The kinds of the function objects that are stored in completions
pub data Kind : Type 0 where
  rw_completion poll_add_completion poll_remove_completion fsync_completion : Kind

-- Such a function object, with the handler that its completion_handler has
pub record Wrapper : Type 0 where
  pub kind : Kind
  pub handler : ℕ

-- What an initiation meets outside: the memory that it writes vectors to, what a vector reserves, the
-- addresses of completions, the allocator, and an exception of storing the function object.
pub record Start (p : Platform) : Type 0 where
  pub store : Iovs → ℕ → Iovec → p.World → p.World
  pub capacity_for : ℕ → ℕ
  pub tag : Ptr → p.Completion
  pub allocation : Allocation
  pub not_stored : Option Exception

abbrev pub stored : {H : Type 0} → Option Exception → H → Built H
stored none h = built h
stored (some e) h = not_built e

abbrev pub M : Platform → Type 0 → Type 0
M p A = Pool.M p Wrapper A

-- The arguments that a handler is called with
pub data Args : Type 0 where
  rw_args : ErrorCode → ℕ → Args
  code_args : ErrorCode → Args

unfoldable pub make_rw_completion : ℤ → Args
make_rw_completion res = let r = to_rw_result res in rw_args r.0 r.1

-- The function objects; `aborted` is Boost.Asio's `operation_aborted`.
unfoldable pub args_of : ErrorCode → Kind → ℤ → Args
args_of aborted rw_completion res = make_rw_completion res
args_of aborted poll_add_completion res = code_args (to_poll_add_result aborted res)
args_of aborted poll_remove_completion res = code_args (to_poll_remove_result res)
args_of aborted fsync_completion res = code_args (to_fsync_result res)

module _ {p : Platform} where
  -- The wrapper, a completion_handler, goes on the way out unless it is stored; with it goes its
  -- work. Where the release of the completion destroys it, that is a step earlier.
  abbrev pub dropped : Run (Service p Wrapper) (Unit {0}) → Run (Service p Wrapper) (Unit {0})
  dropped (ok a s) = ok a s
  dropped (throw e s) = and_then (in_context s (Handler.discard s.ctx)) (λ _ t. throw e t)
  dropped abort = abort
  dropped (running s) = running s

  abbrev pub with_wrapper : M p (Unit {0}) → M p (Unit {0})
  with_wrapper f s = dropped (f (record s { ctx = Handler.construct s.ctx }))

  unfoldable pub initiate_rw_some_at :
      Start p
      → ℕ
      → Option ℕ
      → (p.Sqe → Option ℕ → Iovs → ℕ → ℕ → p.World → p.World)
      → ℕ
      → List Buffer
      → ℕ
      → M p (Unit {0})
  initiate_rw_some_at x impl fd prep o bs h =
      let n = length bs in
      with_wrapper (
        initiate_iovs x.tag x.capacity_for impl n
          (λ sqe c iovs w. prep sqe fd iovs n o (to_iovecs (x.store iovs) bs 0 w))
          (stored x.not_stored (record { kind = rw_completion; handler = h })) x.allocation)

  unfoldable pub initiate_read_some_at :
      Preps p → Start p → ℕ → Option ℕ → ℕ → List Buffer → ℕ → M p (Unit {0})
  initiate_read_some_at l x impl fd o mb h = initiate_rw_some_at x impl fd l.readv o mb h

  unfoldable pub initiate_write_some_at :
      Preps p → Start p → ℕ → Option ℕ → ℕ → List Buffer → ℕ → M p (Unit {0})
  initiate_write_some_at l x impl fd o cb h = initiate_rw_some_at x impl fd l.writev o cb h

  -- What the other three do, with the function that fills in the entry
  abbrev pub initiate_plain : Start p → ℕ → (p.Sqe → p.World → p.World) → Kind → ℕ → M p (Unit {0})
  initiate_plain x impl prep k h = with_wrapper (
      initiate x.tag impl (λ sqe c w. prep sqe w)
        (stored x.not_stored (record { kind = k; handler = h })) x.allocation)

  unfoldable pub initiate_poll_add : Preps p → Start p → ℕ → Option ℕ → ℕ → ℕ → M p (Unit {0})
  initiate_poll_add l x impl fd mask h =
      initiate_plain x impl (λ sqe w. l.poll_add sqe fd mask w) poll_add_completion h

  unfoldable pub initiate_poll_remove : Preps p → Start p → ℕ → ℕ → ℕ → M p (Unit {0})
  initiate_poll_remove l x impl user_data h =
      initiate_plain x impl (λ sqe w. l.poll_remove sqe user_data w) poll_remove_completion h

  unfoldable pub initiate_fsync : Preps p → Start p → ℕ → Option ℕ → Bool → ℕ → M p (Unit {0})
  initiate_fsync l x impl fd fdatasync h =
      initiate_plain x impl (λ sqe w. l.fsync sqe fd fdatasync w) fsync_completion h

  -- A stored function object is called for the result `res`; `bind` makes a callable of a handler and
  -- its arguments.
  unfoldable pub deliver :
      User p
      → ℕ
      → (ℕ → Args → p.Handler)
      → ErrorCode
      → Option Exception
      → Wrapper
      → ℤ
      → M p (Unit {0})
  deliver u thread bind aborted bound w res s =
      in_context s
        (Handler.invoke u thread bound (bind w.handler (args_of aborted w.kind res)) s.ctx)
