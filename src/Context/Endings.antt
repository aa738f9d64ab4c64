-- ===== src/Context/Endings.antt =====
-- How `run` ends or goes on after what a callable does: it posts, throws or calls `stop`; and what a
-- post leaves behind when the write to the eventfd fails.
use asio_uring.Base.{
  ℕ, suc, ◌+◌, ◌≤◌, length, ◌<◌, ◌≡◌, refl, subst, ◌∙◌, ◌==◌, Bool, true, false, List, [], ◌∷◌,
  ◌++◌, failed, Exception, Run, ok, throw, abort, word_mod, add64, dec64, arith, Safe, returns,
  throws, waits, Safe-bind, Safe-mono, Safe-finally, Bool-cases, inl, inr,
}
use asio_uring.Context.Platform.{
  Platform, Laws, Cqe, internal, Internal, of_queue, of_stop, of_zero, landed,
}
use asio_uring.Context.State.{
  Context, started, set_started, stopped, restart, restart_if, eventfd_write,
}
use asio_uring.Context.Executor.{User, on_work_started, on_work_finished, emplace, post}
use asio_uring.Context.Loop.{
  call, consume, service_queue, handle_queue, handle_cqe, all_loop, all_impl,
}
use asio_uring.Context.Invariant.{Inv, Contract, Steps, Steps-Inv}
use asio_uring.Context.Servicing.{Exit, service_queue-Thrown, Safe-Exit}
use asio_uring.Context.Polling.{
  Live, stopped-Live, restart_poll-Safe, read_queue-Safe, set_started-Inv, set_started-tid,
  stopped_without, handle_cqe-Safe,
}

q_off-stopped : {p : Platform} (d : Context p) → d.q_started ≡ false → stopped d ≡ true
unfolding stopped
q_off-stopped d e = ground arith

flag-stopped : {p : Platform} (d : Context p) → d.stopped_flag ≡ true → stopped d ≡ true
unfolding stopped
flag-stopped d e = ground arith

module _ {p : Platform} (u : User p) where
  -- One callable is pending, and it is the last unit of work when it is taken.
  service_one :
      (c d : Context p) (h : p.Handler) (rest : List p.Handler)
      → c.q ≡ h ∷ rest
      → c.pending ≡ 1
      → 0 < c.work
      → u.invoke h (record c { q = rest; pending = 0; work = dec64 c.work }) ≡ ok tt d
      → service_queue u c.pending c ≡ ok (c.work == 1) d
  unfolding service_queue consume call
  service_one c d h rest e one pos run = ground arith

  -- A round of `run` or `poll` whose one pending callable holds the last unit of work, and returns
  -- leaving none pending: it ends the call, counted, with the state that the callable left but for
  -- the stopped flag, whatever work the callable has posted.
  pub all_loop-last :
      (blocking : Bool) (fuel retr : ℕ) (c d : Context p) (h : p.Handler) (rest : List p.Handler)
      → Live c
      → c.q ≡ h ∷ rest
      → c.pending ≡ 1
      → c.work ≡ 1
      → u.invoke h (record c { q = rest; pending = 0; work = 0 }) ≡ ok tt d
      → d.pending ≡ 0
      → all_loop u blocking (suc fuel) retr c ≡ ok (add64 retr 1) (record d { stopped_flag = true })
  unfolding all_loop
  all_loop-last blocking fuel retr c d h rest live e one last run z =
      ground (arith, stopped-Live c live, service_one c d h rest e one (omega arith))

  -- A round of `run` or `poll` with one callable pending while there is other work, which leaves
  -- none pending and the stopped flag set: the assertion that the context is not stopped fails.
  pub all_loop-stop :
      (blocking : Bool) (fuel retr : ℕ) (c d : Context p) (h : p.Handler) (rest : List p.Handler)
      → Live c
      → c.q ≡ h ∷ rest
      → c.pending ≡ 1
      → 1 < c.work
      → u.invoke h (record c { q = rest; pending = 0; work = dec64 c.work }) ≡ ok tt d
      → d.pending ≡ 0
      → d.stopped_flag ≡ true
      → all_loop u blocking (suc fuel) retr c ≡ abort
  unfolding all_loop
  all_loop-stop blocking fuel retr c d h rest live e one more run z flag =
      ground
        (arith, stopped-Live c live, flag-stopped d, service_one c d h rest e one (omega arith))

module _ {p : Platform} where
  -- A post for which storage is found and the write to the eventfd fails, while there is work and
  -- its count has room: it returns normally, the callable is at the end of the queue, and the count
  -- of work is what it was.
  pub post-failed_write :
      (h : p.Handler) (c : Context p) (e : ℕ)
      → (p.allocate c.world).0 ≡ true
      → (p.write_eventfd of_queue 1 (p.allocate c.world).1).0 ≡ failed e
      → 0 < c.work
      → c.work + 1 < word_mod
      → let w = (p.write_eventfd of_queue 1 (p.allocate c.world).1).1 in
        post h c ≡ ok tt (record c { q = c.q ++ h ∷ []; world = w })
  unfolding post emplace on_work_started on_work_finished eventfd_write
  post-failed_write h c e a f pos room = ground arith

  started-set :
      (i j : Internal) (c : Context p)
      → (started (set_started i true c) i ≡ true)
        × (started c j ≡ true → started (set_started i true c) j ≡ true)
  started-set of_queue of_queue c = (refl, λ e. refl)
  started-set of_stop of_queue c = (refl, λ e. e)
  started-set of_zero of_queue c = (refl, λ e. e)
  started-set of_queue of_stop c = (refl, λ e. e)
  started-set of_stop of_stop c = (refl, λ e. refl)
  started-set of_zero of_stop c = (refl, λ e. e)
  started-set of_queue of_zero c = (refl, λ e. e)
  started-set of_stop of_zero c = (refl, λ e. e)
  started-set of_zero of_zero c = (refl, λ e. refl)

  started-world :
      (i : Internal) (c : Context p) (w : p.World)
      → started (record c { world = w }) i ≡ started c i
  started-world of_queue c w = refl
  started-world of_stop c w = refl
  started-world of_zero c w = refl

  restart_if-each :
      (l : Laws p) (i : Internal) (c d : Context p)
      → Exit c d
      → Safe
          (λ _ e.
            Exit c e
            × (started e i ≡ true)
            × ((j : Internal) → started d j ≡ true → started e j ≡ true))
          (Exit c)
          (restart_if i d)
  unfolding restart_if
  restart_if-each l i c d (inv, t) = elim (Bool-cases (started d i)) [
    | inl on ↦ rw on (returns ((inv, t), on, λ j e. e))
    | inr off ↦ rw off (
        Safe-mono (Safe-Exit c d t (restart_poll-Safe l i d off inv))
          (λ _ e (j, eq).
            let at = started-set i i (record d { world = e.world }) in
            (
              (j, rw eq (set_started-tid i true (record d { world = e.world }) ∙ t)),
              rw eq at.0,
              λ k on. rw eq (
                  (started-set i k (record d { world = e.world })).1
                    (started-world k d e.world ∙ on)),
            ))
          (λ e x. x))
  ]

  -- `restart` of a context whose account is right, from any state of its flags: no assertion fails;
  -- on return the context is not stopped, and on return or a throw the account is right and the
  -- thread is what it was.
  pub restart-Safe :
      (l : Laws p) (c : Context p)
      → Inv c
      → Safe (λ _ d. Exit c d × (stopped d ≡ false)) (Exit c) (restart c)
  unfolding restart
  restart-Safe l c inv = Safe-bind (restart_if-each l of_queue c c (inv, refl)) λ _ d (x, on, keep).
      Safe-bind (restart_if-each l of_stop c d x) λ _ e (y, on', keep').
        Safe-bind (restart_if-each l of_zero c e y) λ _ f ((i, t), on'', keep'').
          let q_on = keep'' of_queue (keep' of_queue on) in
          let stop_on = keep'' of_stop on' in
          returns ((ground arith, t), stopped-Live _ (ground arith))

module _ {p : Platform} {u : User p} (l : Laws p) (k : Contract u) where
  handle_queue-throws :
      (c : Context p)
      → Live c
      → Inv c
      → Safe (λ _ d. d.q_started ≡ false) (λ d. d.q_started ≡ false) (handle_queue u c)
  unfolding handle_queue
  handle_queue-throws c live inv =
      let c' : Context p = record c { q_started = false } in
      rw (stopped_without of_queue c) (
        Safe-bind
          (Safe-mono (read_queue-Safe l c' (set_started-Inv of_queue false c inv)) (λ n d x. x)
            (λ d (i, m). ground arith))
          λ n d ((inv', eq), pos, fits, none_left).
            let some_read : (n == 0) ≡ false = ground arith in
            let d' : Context p = record d { pending = add64 d.pending n } in
            rw some_read (
              Safe-bind
                (Safe-mono {R = λ _ f. f.q_started ≡ false}
                  (service_queue-Thrown l k 1 d' (ground arith) (ground arith))
                  (λ b e (i, f, _). ground arith) (λ e (i, f). ground arith))
                λ last e off. returns off))

  Safe-throw :
      {A : Type 0} {P : A → Context p → Type 0} {Q : Context p → Type 0} {r : Run (Context p) A}
      {e : Exception} {d : Context p}
      → Safe P Q r
      → r ≡ throw e d
      → Q d
  Safe-throw (returns h) e = cc
  Safe-throw {Q} {d} (throws {s} h) e = let same : s ≡ d = cc in subst Q same h
  Safe-throw waits e = cc

  handle_cqe-throws :
      (cqe : Cqe p.Completion) (c : Context p)
      → cqe.user_data ≡ internal of_queue
      → Live c
      → Inv c
      → Safe (λ _ d. d.q_started ≡ false) (λ d. d.q_started ≡ false) (handle_cqe u cqe c)
  unfolding handle_cqe
  handle_cqe-throws cqe c q live inv =
      simp (stopped-Live c live, q)
        (Safe-finally (λ s. record s { world = p.cqe_seen cqe s.world })
          (handle_queue-throws c live inv) (λ r d x. x) (λ d x. x))

  -- If handling the entry of the queue's eventfd throws, in a context that is not stopped and whose
  -- account is right, on a platform that obeys its laws, where callables, completions and other
  -- threads reach the context only by posts whose write to the eventfd of the queue succeeds,
  -- starts of work, finishes of a unit of work that neither a queued callable nor an operation in
  -- flight holds, and submissions that touch no counter and have a unit of work that no other
  -- holds, all without the count of work wrapping (so that nobody calls `stop` or `restart`): after
  -- any sequence of such posts, starts, finishes and submissions, a call of `run` or `poll` returns
  -- 0 at once and only sets the stopped flag. (A `restart` in between is none of those.)
  pub handle_cqe-throw :
      (cqe : Cqe p.Completion) (c d f : Context p) (e : Exception)
      → cqe.user_data ≡ internal of_queue
      → Live c
      → Inv c
      → handle_cqe u cqe c ≡ throw e d
      → Steps d f
      → (blocking : Bool) (thread fuel : ℕ)
      → all_impl u blocking thread fuel f ≡ ok 0 (record f { stopped_flag = true })
  unfolding all_impl
  handle_cqe-throw cqe c d f e q live inv t later blocking thread fuel =
      let covered : length c.q + p.in_flight c.world + landed cqe.user_data ≤ c.work =
        rw q (omega (arith, inv.held)) in
      let (after, _) = Safe-throw (handle_cqe-Safe l k cqe c live inv covered) t in
      let (_, kept) = Steps-Inv l later after in
      let stays : stopped f ≡ true =
        q_off-stopped f (kept.q_same ∙ Safe-throw (handle_cqe-throws cqe c q live inv) t) in
      rw stays refl
