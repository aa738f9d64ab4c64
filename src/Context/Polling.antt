-- ===== src/Context/Polling.antt =====
-- The reads of the eventfds, the polls of the ring, and the handlers of its entries.
use asio_uring.Base.{
  ℕ, ◌+◌, ◌≤◌, ◌<◌, ◌≡◌, refl, ◌∙◌, ◌==◌, Bool, true, false, Option, none, some, Sys, done, failed,
  blocks, length, arith, add64, Safe, returns, throws, waits, Safe-bind, Safe-mono, Safe-finally,
  Bool-cases, inl, inr,
}
use asio_uring.Context.Platform.{
  Platform, Laws, Same, Cqe, UserData, internal, external, landed, Internal, of_queue, of_stop,
  of_zero, same,
}
use asio_uring.Context.State.{
  Context, sys_result, sqe_result, eventfd_read, get_sqe, submit, prep, stopped, restart_poll,
  started, set_started, index,
}
use asio_uring.Context.Executor.{User}
use asio_uring.Context.Loop.{
  HandleCqe, handle_stop, handle_zero, handle_queue, handle, handle_cqe, await_cqe,
}
use asio_uring.Context.Invariant.{Inv, Contract}
use asio_uring.Context.Servicing.{Exit, Safe-Exit, user_Safe, service_queue-Safe}

-- Only the world differs.
abbrev pub Moved : {p : Platform} → Context p → Context p → Type 0
Moved c d = Inv d × (d ≡ record c { world = d.world })

pub record Live {p : Platform} (c : Context p) : Type 0 where
  pub q_live : c.q_started ≡ true
  pub stop_live : c.stop_started ≡ true
  pub zero_live : c.zero_started ≡ true
  pub flag_clear : c.stopped_flag ≡ false

-- All but the poll of the queue's eventfd are under way, and nobody has called `stop`.
pub record Polling {p : Platform} (c : Context p) : Type 0 where
  pub stop_polled : c.stop_started ≡ true
  pub zero_polled : c.zero_started ≡ true
  pub flag_clear : c.stopped_flag ≡ false

-- What a handled entry leaves behind.
abbrev pub Handled : {p : Platform} → Context p → HandleCqe → Context p → Type 0
Handled c r d = Exit c d × (r.stopped ≡ false → Polling d)

module _ {p : Platform} where
  pub sys_result-Safe :
      {A : Type 0} {P : A → Context p → Type 0} {Q : Context p → Type 0} (c : Context p)
      (x : Sys A × p.World)
      → ((a : A) → x.0 ≡ done a → P a (record c { world = x.1 }))
      → ((e : ℕ) → x.0 ≡ failed e → Q (record c { world = x.1 }))
      → Safe P Q (sys_result c x)
  sys_result-Safe c (done a, w) f g = returns (f a refl)
  sys_result-Safe c (failed e, w) f g = throws (g e refl)
  sys_result-Safe c (blocks, w) f g = waits

  sqe_result-Safe :
      (c : Context p) (x : Option p.Sqe × p.World)
      → Inv (record c { world = x.1 })
      → Safe (λ _ d. Moved c d) (Exit c) (sqe_result c x)
  sqe_result-Safe c (none, w) inv = throws (inv, refl)
  sqe_result-Safe c (some s, w) inv = returns (inv, refl)

  move-Inv : (c : Context p) (w : p.World) → Same p c.world w → Inv c → Inv (record c { world = w })
  move-Inv c w s inv = ground (arith, s.counts of_queue)

  pub set_started-Inv : (i : Internal) (b : Bool) (c : Context p) → Inv c → Inv (set_started i b c)
  set_started-Inv of_queue b c inv = ground arith
  set_started-Inv of_stop b c inv = ground arith
  set_started-Inv of_zero b c inv = ground arith

  pub set_started-tid : (i : Internal) (b : Bool) (c : Context p) → (set_started i b c).tid ≡ c.tid
  set_started-tid of_queue b c = refl
  set_started-tid of_stop b c = refl
  set_started-tid of_zero b c = refl

  set_started_moved :
      (i : Internal) (b : Bool) (c d : Context p)
      → d ≡ record c { world = d.world }
      → set_started i b d ≡ set_started i b (record c { world = (set_started i b d).world })
  set_started_moved of_queue b c d e = ground arith
  set_started_moved of_stop b c d e = ground arith
  set_started_moved of_zero b c d e = ground arith

  pub Live-of : (c : Context p) → stopped c ≡ false → Live c
  unfolding stopped
  Live-of c e = ground arith

  pub stopped-Live : (c : Context p) → Live c → stopped c ≡ false
  unfolding stopped
  stopped-Live c e = ground arith

  pub stopped_without : (i : Internal) (c : Context p) → stopped (set_started i false c) ≡ true
  unfolding stopped
  stopped_without of_queue c = refl
  stopped_without of_stop c = ground arith
  stopped_without of_zero c = ground arith

  module _ (l : Laws p) where
    prep-Same : (i : Internal) (s : p.Sqe) (w : p.World) → Same p w (prep p i s w)
    unfolding prep
    prep-Same i s w =
        let a = l.prep_same s (index i) w in
        let b = l.fixed_same s (p.prep_poll_add s (index i) w) in
        let c = l.data_same s (internal i) (p.set_fixed_file s (p.prep_poll_add s (index i) w)) in
        record {
          counts = λ j. c.counts j ∙ b.counts j ∙ a.counts j;
          flights = c.flights ∙ b.flights ∙ a.flights;
        }

    read_other-Safe :
        (i : Internal) (c : Context p)
        → same i of_queue ≡ false
        → Inv c
        → Safe (λ _ d. Moved c d) (Exit c) (eventfd_read i c)
    unfolding eventfd_read
    read_other-Safe i c e inv =
        sys_result-Safe c (p.read_eventfd i c.world)
          (λ n h.
            (ground (arith, l.read_done i c.world n of_queue, l.read_flights i c.world), refl))
          λ n h.
            (ground (arith, l.read_failed i c.world n of_queue, l.read_flights i c.world), refl)

    -- The counter of the queue becomes the number of callables that are pending.
    pub read_queue-Safe :
        (c : Context p)
        → Inv c
        → Safe
            (λ n d.
              Moved c d × (0 < n) × (n + c.pending ≤ length c.q) × (p.count d.world of_queue ≡ 0))
            (λ d. Moved c d)
            (eventfd_read of_queue c)
    unfolding eventfd_read
    read_queue-Safe c inv =
        sys_result-Safe c (p.read_eventfd of_queue c.world)
          (λ n h.
            let done = l.read_done of_queue c.world n of_queue h in
            let flights = l.read_flights of_queue c.world in
            ((ground arith, refl), omega arith, omega (arith, inv.counted), ground arith))
          λ n h. (
            ground
                (arith, l.read_failed of_queue c.world n of_queue, l.read_flights of_queue c.world),
            refl,
          )

    pub restart_poll-Safe :
        (i : Internal) (c : Context p)
        → started c i ≡ false
        → Inv c
        → Safe
            (λ _ d. Inv d × (d ≡ set_started i true (record c { world = d.world })))
            (Exit c)
            (restart_poll i c)
    unfolding restart_poll get_sqe submit
    restart_poll-Safe i c e inv = rw e (
        Safe-bind
          (sqe_result-Safe c (p.take_sqe c.world) (move-Inv c _ (l.take_sqe_same c.world) inv))
          λ sqe d (inv', eq).
            let w = prep p i sqe d.world in
            let d' : Context p = record d { world = w } in
            let inv'' =
              move-Inv d' _ (l.submit_same w) (move-Inv d w (prep-Same i sqe d.world) inv') in
            Safe-bind
              (sys_result-Safe {P = λ _ s. Moved c s} d' (p.submit w) (λ n h. (inv'', ground arith))
                (λ n h. (inv'', ground arith)))
              λ n s (inv, eq').
                returns (set_started-Inv i true s inv, set_started_moved i true c s eq'))

    pub handle_stop-Safe :
        (c : Context p) → Live c → Inv c → Safe (Handled c) (Exit c) (handle_stop c)
    unfolding handle_stop
    handle_stop-Safe c live inv =
        let c' : Context p = record c { stop_started = false } in
        rw (stopped_without of_stop c) (
          Safe-bind (read_other-Safe of_stop c' refl (set_started-Inv of_stop false c inv))
            λ n d (inv', eq).
              let quiet : d.stopped_flag ≡ false = ground arith in
              simp quiet (
                Safe-bind
                  (Safe-Exit c d (ground arith) (restart_poll-Safe of_stop d (ground arith) inv'))
                  λ _ e (inv'', eq'). returns ((inv'', ground arith), λ _. ground arith)))

    pub handle_zero-Safe :
        (c : Context p) → Live c → Inv c → Safe (Handled c) (Exit c) (handle_zero c)
    unfolding handle_zero
    handle_zero-Safe c live inv =
        let c' : Context p = record c { zero_started = false } in
        rw (stopped_without of_zero c) (
          Safe-bind (read_other-Safe of_zero c' refl (set_started-Inv of_zero false c inv))
            λ n d (inv', eq). elim (Bool-cases (d.work == 0)) [
              | inl idle ↦ rw idle (returns ((inv', ground arith), λ h. cc))
              | inr busy ↦ rw busy (
                  Safe-bind
                    (Safe-Exit c d (ground arith) (restart_poll-Safe of_zero d (ground arith) inv'))
                    λ _ e (inv'', eq').
                      let live' : Live e = ground arith in
                      rw (stopped-Live e live')
                        (returns ((inv'', ground arith), λ _. ground arith)))
            ])

    module _ {u : User p} (k : Contract u) where
      pub handle_queue-Safe :
          (c : Context p) → Live c → Inv c → Safe (Handled c) (Exit c) (handle_queue u c)
      unfolding handle_queue
      handle_queue-Safe c live inv =
          let c' : Context p = record c { q_started = false } in
          rw (stopped_without of_queue c) (
            Safe-bind
              (Safe-mono (read_queue-Safe c' (set_started-Inv of_queue false c inv)) (λ n d x. x)
                (λ d (i, m). (i, ground arith)))
              λ n d ((inv', eq), pos, fits, none_left).
                let some_read : (n == 0) ≡ false = ground arith in
                let d' : Context p = record d { pending = add64 d.pending n } in
                rw some_read (
                  Safe-bind
                    (Safe-Exit c d' (ground arith)
                      (service_queue-Safe l k 1 d' (ground arith) (ground arith)))
                    λ last e (inv'', same, pend).
                      returns ((inv'', ground arith), λ _. ground arith)))

      -- A completion is entitled to the unit of work of its operation.
      handle-Safe :
          (x : UserData p.Completion) (cqe : Cqe p.Completion) (c : Context p)
          → Live c
          → Inv c
          → length c.q + p.in_flight c.world + landed x ≤ c.work
          → Safe (Handled c) (Exit c) (handle u x cqe c)
      handle-Safe (internal of_queue) cqe c live inv le = handle_queue-Safe c live inv
      handle-Safe (internal of_stop) cqe c live inv le = handle_stop-Safe c live inv
      handle-Safe (internal of_zero) cqe c live inv le = handle_zero-Safe c live inv
      handle-Safe (external x) cqe c live inv le =
          Safe-bind
            (Safe-mono {T = Exit c} (user_Safe l k inv (k.complete_Steps x cqe c inv (omega arith)))
              (λ _ d y. y) (λ d (i, f). (i, f.tid_same)))
            λ _ d (inv', same). returns ((inv', ground arith), λ _. ground arith)

      pub handle_cqe-Safe :
          (cqe : Cqe p.Completion) (c : Context p)
          → Live c
          → Inv c
          → length c.q + p.in_flight c.world + landed cqe.user_data ≤ c.work
          → Safe (Handled c) (Exit c) (handle_cqe u cqe c)
      unfolding handle_cqe
      handle_cqe-Safe cqe c live inv le = rw (stopped-Live c live) (
          Safe-finally (λ s. record s { world = p.cqe_seen cqe s.world })
            (handle-Safe cqe.user_data cqe c live inv le)
            (λ r d ((i, t), f).
              ((move-Inv d _ (l.seen_same cqe d.world) i, t), λ e. ground (arith, f e)))
            λ d (i, t). (move-Inv d _ (l.seen_same cqe d.world) i, t))

      -- The entry that was found, or none.
      abbrev pub Found : Context p → Option (Cqe p.Completion) → Context p → Type 0
      Found c none d = Moved c d
      Found c (some cqe) d =
          Moved c d × (length d.q + p.in_flight d.world + landed cqe.user_data ≤ d.work)

      peeked :
          (c : Context p) (found : Option (Cqe p.Completion))
          → Inv c
          → (p.peek_cqe c.world).0 ≡ done found
          → Found c found (record c { world = (p.peek_cqe c.world).1 })
      peeked c none inv h =
          ((ground (arith, l.peek_counts c.world of_queue, l.peek_none c.world h), refl))
      peeked c (some cqe) inv h = (
        (ground (arith, l.peek_counts c.world of_queue, l.peek_flights c.world cqe h), refl),
        omega (arith, l.peek_flights c.world cqe h, inv.held),
      )

      pub await_cqe-Safe :
          (blocking : Bool) (c : Context p)
          → Inv c
          → Safe (λ found d. Found c found d) (Exit c) (await_cqe blocking c)
      unfolding await_cqe
      await_cqe-Safe false c inv =
          sys_result-Safe c (p.peek_cqe c.world) (λ found h. peeked c found inv h)
            λ e h. (ground (arith, l.peek_counts c.world of_queue, l.peek_failed c.world e), refl)
      await_cqe-Safe true c inv =
          Safe-bind {P = λ cqe d. Found c (some cqe) d}
            (sys_result-Safe c (p.wait_cqe c.world)
              (λ cqe h. (
                (
                  ground (arith, l.wait_counts c.world of_queue, l.wait_flights c.world cqe h),
                  refl,
                ),
                omega (arith, l.wait_flights c.world cqe h, inv.held),
              ))
              λ e h.
                (ground (arith, l.wait_counts c.world of_queue, l.wait_failed c.world e), refl))
            λ cqe d h. returns h
