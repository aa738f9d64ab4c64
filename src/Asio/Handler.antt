-- ===== src/Asio/Handler.antt =====
-- src/asio/include/asio_uring/asio/completion_handler.hpp, for a handler whose associated executor is
-- that of the context.
use asio_uring.Base.{ℕ, Option, none, some, Exception, throw, ok, ◌>>◌, on_exit}
use asio_uring.Context.Platform.{Platform}
use asio_uring.Context.State.{Context, M}
use asio_uring.Context.Executor.{User, on_work_started, on_work_finished, dispatch}

module _ {p : Platform} where
  -- `completion_handler(h, ex)`: `work_` is outstanding work.
  unfoldable pub construct : Context p → Context p
  construct c = on_work_started c

  abbrev pub bind_throws : Option Exception → M p (Unit {0})
  bind_throws none c = ok tt c
  bind_throws (some e) c = throw e c

  -- `operator()`, with `h` for the handler bound to its arguments, or `bound` for what the binding
  -- throws. The guard `g` goes on the way out.
  unfoldable pub invoke : User p → ℕ → Option Exception → p.Handler → M p (Unit {0})
  invoke u thread bound h c =
      on_exit ((do bind_throws bound; dispatch u thread h) c) on_work_finished

  -- The destructor of one that has not been invoked
  unfoldable pub discard : M p (Unit {0})
  discard = on_work_finished
