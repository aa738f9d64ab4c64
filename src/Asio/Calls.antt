-- ===== src/Asio/Calls.antt =====
-- The life of the operations of one I/O object, up to the code that their completion runs: the chain of
-- function objects that `complete` calls, and what `shutdown` destroys with a completion. From
-- src/core/service.cpp, and completion_handler.hpp and fd_completion_handler.hpp of
-- src/asio/include/asio_uring/asio. Moving a handler does not throw here.
use asio_uring.Base.{
  ℕ, ◌+◌, ◌-◌, Option, none, some, List, [], ◌∷◌, ◌||◌, if◌then◌else◌, has, ErrorCode, Run, ok,
  abort, map_state, ◌>>◌, check_that, on_exit,
}
use asio_uring.EventfdQueue.Nodes.{Ptr, erase}
use asio_uring.Context.Platform.{Platform, Cqe}
use asio_uring.Context.State.{Context}
use asio_uring.Context.Startup.{finish}
use asio_uring.Context.Executor.{running_in_this_thread, post, on_work_finished}
use asio_uring.Service.Pool.{Service, in_context}
use asio_uring.Service.Pool
use asio_uring.FileObject.{release, reset, discard}
use asio_uring.Io.Codes.{ℤ}
use asio_uring.Asio.Initiate.{Preps, Start, Wrapper, Args, args_of}
use asio_uring.Asio.Handler
use asio_uring.Asio.Files.{IoFile, M, in_file, Op}
use asio_uring.Asio.Files

-- The thread that completes operations, Boost.Asio's `operation_aborted`, the `int` of a result, the
-- handlers of users, which may use the I/O object, and what a handler becomes with its arguments.
pub record Environment (p : Platform) : Type 0 where
  pub thread : ℕ
  pub aborted : ErrorCode
  pub int_of : ℕ → ℤ
  pub user : ℕ → Args → IoFile p → Run (IoFile p) (Unit {0})
  pub bind : ℕ → Args → p.Handler

-- What happens to an I/O object: an operation begins, a completion is called for its entry, and the
-- object gives up its descriptor.
pub data Event (p : Platform) : Type 0 where
  begins : Start p → Op → ℕ → Event p
  completes : Ptr → Cqe p.Completion → Event p
  resets : Event p

module _ {p : Platform} where
  abbrev pub in_service : {A : Type 0} → (Service p Wrapper → Run (Service p Wrapper) A) → M p A
  in_service f s = map_state (λ t. record s { service = t }) (f s.service)

  abbrev pub in_ctx : {A : Type 0} → (Context p → Run (Context p) A) → M p A
  in_ctx f = in_service (λ t. in_context t (f t.ctx))

  -- The pointer that the call of a handler has taken over goes.
  abbrev pub leave : M p (Unit {0})
  leave = in_file (λ f. release (record f { locals = f.locals - 1 }))

  -- `fd_completion_handler::operator()`
  unfoldable pub invoke : ℕ → M p (Unit {0}) → M p (Unit {0})
  invoke h f s =
      (do
        check_that (has h s.file.holding)
        λ t.
            on_exit
              (f (record t {
                file = record t.file {
                  holding = erase h t.file.holding;
                  locals = t.file.locals + 1;
                };
              }))
              leave)
        s

  -- `completion_handler::operator()`: `g` goes on the way out.
  unfoldable pub call : Environment p → Wrapper → Args → M p (Unit {0})
  call v w args s =
      on_exit
        (if running_in_this_thread v.thread s.service.ctx
          then invoke w.handler (v.user w.handler args) s
          else in_ctx (post (v.bind w.handler args)) s)
        (in_ctx on_work_finished)

  abbrev pub called : Environment p → Option Wrapper → Cqe p.Completion → M p (Unit {0})
  called v none cqe s = abort
  called v (some w) cqe s = call v w (args_of v.aborted w.kind (v.int_of cqe.res)) s

  -- `completion::complete`
  unfoldable pub complete : Environment p → Ptr → Cqe p.Completion → M p (Unit {0})
  complete v c cqe s =
      (do
        check_that (has c s.service.free || has c s.service.in_use)
        λ t. on_exit (called v (t.service.wrapped c) cqe t) (in_service (Pool.release c)))
        s

  -- The destructor of a function object that has not been called: its handler goes first, and then the
  -- work of its completion_handler.
  unfoldable pub destroy : Option Wrapper → M p (Unit {0})
  destroy none s = ok tt s
  destroy (some w) s = (do in_file (discard w.handler); in_ctx Handler.discard) s

  -- `completion::reset`
  unfoldable pub reset_completion : Ptr → M p (Unit {0})
  reset_completion c s = (do destroy (s.service.wrapped c); in_service (Pool.reset c)) s

  unfoldable pub reset_all : List Ptr → M p (Unit {0})
  reset_all [] s = ok tt s
  reset_all (c ∷ cs) s = (do reset_completion c; λ t. reset_all cs t) s

  -- `service::shutdown`
  unfoldable pub shutdown : M p (Unit {0})
  shutdown s = reset_all s.service.in_use s

  -- What the destructor of asio::execution_context does to the service: Boost.Asio shuts it down and then
  -- deletes it.
  unfoldable pub tear_down : M p (Unit {0})
  tear_down s = (do shutdown; in_service Pool.close) s

  -- The destructor of asio::execution_context, with those of its bases: that of Boost.Asio deletes the
  -- service.
  unfoldable pub destroy_context : M p (Unit {0})
  destroy_context s = (do tear_down; in_ctx finish) s

  unfoldable pub exec : Preps p → Environment p → Event p → M p (Unit {0})
  exec l v (begins x k h) s = Files.exec l x k h s
  exec l v (completes c cqe) s = complete v c cqe s
  exec l v resets s = in_file reset s
