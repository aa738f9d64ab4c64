-- ===== src/Context/Loop.antt =====
-- `run`, `run_one`, `poll` and `poll_one` with the functions below them. `fuel` bounds the rounds of
-- the `for (;;)` of `all_impl`; a loop out of fuel is `running`.
use asio_uring.Base.{
  ℕ, zero, suc, ◌==◌, Bool, true, false, not, ◌||◌, if◌then◌else◌, Option, none, some, List, [],
  ◌∷◌, leb, Run, ok, throw, abort, running, ◌>>=◌, ◌>>◌, pure, modify, check_that, finally, add64,
  dec64,
}
use asio_uring.Context.Platform.{
  Platform, Cqe, UserData, internal, external, of_queue, of_stop, of_zero,
}
use asio_uring.Context.State.{
  Context, M, sys_result, eventfd_read, stopped, out_of_work, set_started, restart_poll, restart_if,
  set_stopped,
}
use asio_uring.Context.Executor.{User, is_thread}

pub record HandleCqe : Type 0 where
  pub handlers : ℕ
  pub stopped : Bool

abbrev pub handled : ℕ → Bool → HandleCqe
handled n b = record { handlers = n; stopped = b }

module _ {p : Platform} where
  -- `tid_guard`: its constructor, `m`, its destructor
  abbrev pub leave : {A : Type 0} → ℕ → Run (Context p) A → Run (Context p) A
  leave t (ok a c) = if is_thread c.tid t then ok a (record c { tid = none }) else abort
  leave t (throw e c) = if is_thread c.tid t then throw e (record c { tid = none }) else abort
  leave t abort = abort
  leave t (running c) = running c

  abbrev pub enter : {A : Type 0} → Option ℕ → ℕ → M p A → Context p → Run (Context p) A
  enter none t m c = leave t (m (record c { tid = some t }))
  enter (some _) t m c = abort

  unfoldable pub tid_guard : {A : Type 0} → ℕ → M p A → M p A
  tid_guard t m c = enter c.tid t m c

  -- `eventfd_queue::pop_node`, whose `assert` wants a node.
  abbrev pub popped : List p.Handler → M p p.Handler
  popped [] c = abort
  popped (h ∷ rest) c = ok h (record c { q = rest })

  -- The callback of `service_queue`, on the callable that was taken off the queue.
  unfoldable pub call : User p → p.Handler → Bool → M p Bool
  call u h retr c =
      (do check_that (not (c.work == 0)); u.invoke h; pure (retr || (c.work == 1)))
        (record c { pending = dec64 c.pending; work = dec64 c.work })

  -- `eventfd_queue::consume`
  unfoldable pub consume : User p → ℕ → Bool → M p Bool
  consume u zero retr c = ok retr c
  consume u (suc n) retr c = (do h ← popped c.q; again ← call u h retr; consume u n again) c

  unfoldable pub service_queue : User p → ℕ → M p Bool
  service_queue u max c = (check_that (leb max c.pending) >> consume u max false) c

  after_stop : M p HandleCqe
  after_stop c =
      if c.stopped_flag
      then ok (handled 0 true) c
      else (restart_poll of_stop >> pure (handled 0 false)) c

  after_zero : M p HandleCqe
  after_zero c =
      if c.work == 0
      then ok (handled 0 true) c
      else (do restart_poll of_zero; λ s. check_that (not (stopped s)) s; pure (handled 0 false)) c

  -- The three internal operations, and a completion of the user's.
  unfoldable pub handle_stop : M p HandleCqe
  unfolding after_stop
  handle_stop = do
    modify (set_started of_stop false)
    λ c. check_that (stopped c) c
    eventfd_read of_stop
    after_stop

  unfoldable pub handle_zero : M p HandleCqe
  unfolding after_zero
  handle_zero = do
    modify (set_started of_zero false)
    λ c. check_that (stopped c) c
    eventfd_read of_zero
    after_zero

  unfoldable pub handle_queue : User p → M p HandleCqe
  handle_queue u = do
    modify (set_started of_queue false)
    λ c. check_that (stopped c) c
    n ← eventfd_read of_queue
    check_that (not (n == 0))
    modify (λ c. record c { pending = add64 c.pending n })
    last ← service_queue u 1
    pure (handled 1 last)

  abbrev pub handle : User p → UserData p.Completion → Cqe p.Completion → M p HandleCqe
  handle u (internal of_stop) cqe = handle_stop
  handle u (internal of_zero) cqe = handle_zero
  handle u (internal of_queue) cqe = handle_queue u
  handle u (external x) cqe = u.complete x cqe >> pure (handled 1 false)

  -- The guard marks the completion queue entry as seen on either exit.
  unfoldable pub handle_cqe : User p → Cqe p.Completion → M p HandleCqe
  handle_cqe u cqe c =
      if stopped c
      then abort
      else finally (handle u cqe.user_data cqe c) (λ s. record s { world = p.cqe_seen cqe s.world })

  unfoldable pub await_cqe : Bool → M p (Option (Cqe p.Completion))
  await_cqe true c =
      (do cqe ← λ (s : Context p). sys_result s (p.wait_cqe s.world); pure (some cqe)) c
  await_cqe false c = sys_result c (p.peek_cqe c.world)

  abbrev pub handle_found : User p → Option (Cqe p.Completion) → M p HandleCqe
  handle_found u none = pure (handled 0 true)
  handle_found u (some cqe) = handle_cqe u cqe

  unfoldable pub impl : User p → Bool → M p HandleCqe
  impl u blocking c =
      (do
        check_that (not (stopped c))
        modify u.others
        found ← await_cqe blocking
        handle_found u found)
        c

  abbrev pub finish : ℕ → M p ℕ
  finish n = set_stopped true >> pure n

  unfoldable pub all_loop : User p → Bool → ℕ → ℕ → M p ℕ
  all_loop u blocking zero retr c = running c
  all_loop u blocking (suc fuel) retr c =
      (do
        check_that (not (stopped c))
        last ← service_queue u c.pending
        λ s. check_that (s.pending == 0) s
        if last then finish (add64 retr c.pending) else (do
          λ s. check_that (not (stopped s)) s
          result ← impl u blocking
          let total = add64 (add64 retr c.pending) result.handlers
          if result.stopped
              then finish total
              else (do restart_if of_queue; λ s. all_loop u blocking fuel total s)))
        c

  unfoldable pub all_impl : User p → Bool → ℕ → ℕ → M p ℕ
  all_impl u blocking thread fuel c =
      if stopped c || out_of_work c
      then finish 0 c
      else tid_guard thread (all_loop u blocking fuel 0) c

  -- `one_impl` under its `tid_guard`
  unfoldable pub one_body : User p → Bool → M p ℕ
  one_body u blocking c =
      (if c.pending == 0
          then (do result ← impl u blocking; finish result.handlers)
          else (do service_queue u 1; finish 1))
        c

  unfoldable pub one_impl : User p → Bool → ℕ → M p ℕ
  one_impl u blocking thread c =
      if stopped c || out_of_work c then finish 0 c else tid_guard thread (one_body u blocking) c

  unfoldable pub run : User p → ℕ → ℕ → M p ℕ
  run u = all_impl u true

  unfoldable pub run_one : User p → ℕ → M p ℕ
  run_one u = one_impl u true

  unfoldable pub poll : User p → ℕ → ℕ → M p ℕ
  poll u = all_impl u false

  unfoldable pub poll_one : User p → ℕ → M p ℕ
  poll_one u = one_impl u false
