-- ===== src/Asio/Completion.antt =====
-- What is left of an operation whose function object has been called.
use asio_uring.Base.{
  ℕ, ◌+◌, ◌≡◌, refl, ap, ◌≢◌, ◌||◌, true, Option, none, some, [], ◌∷◌, has, arith, Safe,
  Safe-on_exit, Returns, Returns-Safe, Returns-mono, Returns-value, returned,
}
use asio_uring.EventfdQueue.Nodes.{Ptr}
use asio_uring.EventfdQueue.Chains.{times, has-times, times-erase}
use asio_uring.Context.Platform.{Platform, Cqe}
use asio_uring.Context.Executor.{is_thread, running_in_this_thread, on_work_finished}
use asio_uring.Service.Pool.{Service, in_context}
use asio_uring.Service.Pool
use asio_uring.Service.Account.{Writes, unit_of, on_work_finished-Returns}
use asio_uring.Service.Release.{release-Released}
use asio_uring.Asio.Initiate.{Wrapper, Args}
use asio_uring.Asio.Files.{IoFile}
use asio_uring.Asio.Calls
use asio_uring.Asio.Calls.{Environment, in_service, in_ctx, leave, invoke, call, called, complete}
use asio_uring.Asio.Tally.{tally, is_for, tally-units, tally-gone}
use asio_uring.Asio.Accounts.{
  Account, Balanced, Stores, Respects, stored-units, entered-Calling, leave-Account,
}

module _ {p : Platform} where
  -- What is left of a call that has ended: `owed` units of its work have been given back.
  abbrev pub Ending : ℕ → ℕ → Ptr → Wrapper → IoFile p → Type 0
  Ending base owed c w s = Account base owed 0 (w.handler ∷ []) s × Stores c w s

  -- The guard gives back the work of the completion_handler.
  pub finished-Ending :
      (base : ℕ) (c : Ptr) (w : Wrapper) (s : IoFile p)
      → Writes p
      → Ending base 0 c w s
      → Returns
          (λ _ d.
            Ending base 1 c w d
            × (d.service.in_use ≡ s.service.in_use)
            × (d.service.wrapped ≡ s.service.wrapped))
          (in_ctx on_work_finished s)
  finished-Ending base c w s wr (x, y) =
      let some_left = stored-units c w s y in
      let (_, e, r, less) = Returns-value (
        on_work_finished-Returns s.service.ctx wr (omega (arith, x.spent, some_left))
          x.sound.room) in
      rw r (
        returned (
          (
            record {
              sound = record {
                placed = x.sound.placed;
                once = x.sound.once;
                apart = x.sound.apart;
                bare = x.sound.bare;
                paid = omega (arith, less, x.spent, some_left);
                room = omega (arith, less, x.sound.room);
                cleared = x.sound.cleared;
              };
              shared = x.shared;
              pointers = x.pointers;
              held = x.held;
              spent = omega (arith, less, x.spent);
            },
            y,
          ),
          refl,
          refl,
        ))

  -- The release of the completion gives back its own.
  release-Balanced :
      (base : ℕ) (c : Ptr) (w : Wrapper) (s : IoFile p)
      → Writes p
      → Ending base 1 c w s
      → Returns
          (λ _ d. Balanced base d × (times c d.service.in_use ≡ 0))
          (in_service (Pool.release c) s)
  release-Balanced base c w s wr (x, (one, at)) =
      let (_, e, r, (sound, i, l, f, less, upd)) =
        Returns-value (release-Released c s.service wr x.sound one) in
      let fewer : (g : Option Wrapper → ℕ)
          → g none ≡ 0
          → tally g e.wrapped e.in_use + g (s.service.wrapped c)
            ≡ tally g s.service.wrapped s.service.in_use =
        λ g z. rw (upd, i) (tally-gone g s.service.wrapped c s.service.in_use z one) in
      let once : times c s.service.in_use ≢ 0 = omega (arith, one) in
      let out : times c e.in_use ≡ 0 =
        rw i
          (ground (arith, times-erase c c s.service.in_use, has-times c s.service.in_use once)) in
      rw r (
        returned (
          (record {
            sound = sound;
            shared = x.shared;
            pointers = x.pointers;
            held = λ h. omega (arith, fewer (is_for h) refl, ap (is_for h) at, x.held h);
            spent = omega (
              arith,
              less,
              x.spent,
              fewer unit_of refl,
              ap unit_of at,
              tally-units e.wrapped e.in_use,
              tally-units s.service.wrapped s.service.in_use,
            );
          }),
          out,
        ))

  -- A function object is called in the thread of the loop.
  call-Ending :
      (base : ℕ) (v : Environment p) (c : Ptr) (w : Wrapper) (a : Args) (s : IoFile p)
      → Writes p
      → Respects base v
      → is_thread s.service.ctx.tid v.thread ≡ true
      → Balanced base s
      → Stores c w s
      → Safe (λ _ d. Ending base 1 c w d) (Ending base 1 c w) (call v w a s)
  unfolding call invoke running_in_this_thread
  call-Ending base v c w a s wr keeps inside x y =
      let (here, z) = entered-Calling base c w s x y in
      Safe-on_exit {P = Ending base 0 c w}
        (rw inside (rw here (Safe-on_exit (keeps c w a _ z) (λ t q. leave-Account base c w t q))))
        (λ t q. Returns-Safe (Returns-mono (finished-Ending base c w t wr q) (λ _ d z. z.0)))

  called-Ending :
      (base : ℕ) (v : Environment p) (c : Ptr) (w : Wrapper) (cqe : Cqe p.Completion)
      (o : Option Wrapper) (s : IoFile p)
      → Writes p
      → Respects base v
      → is_thread s.service.ctx.tid v.thread ≡ true
      → Balanced base s
      → Stores c w s
      → o ≡ some w
      → Safe (λ _ d. Ending base 1 c w d) (Ending base 1 c w) (Calls.called v o cqe s)
  called-Ending base v c w cqe o s wr keeps inside x y e =
      rw e (call-Ending base v c w _ s wr keeps inside x y)

  pub complete-Balanced :
      (base : ℕ) (v : Environment p) (c : Ptr) (w : Wrapper) (cqe : Cqe p.Completion) (s : IoFile p)
      → Writes p
      → Respects base v
      → is_thread s.service.ctx.tid v.thread ≡ true
      → Balanced base s
      → Stores c w s
      → Safe
          (λ _ d. Balanced base d × (times c d.service.in_use ≡ 0))
          (λ d. Balanced base d × (times c d.service.in_use ≡ 0))
          (complete v c cqe s)
  unfolding complete
  complete-Balanced base v c w cqe s wr keeps here x y =
      let once : times c s.service.in_use ≢ 0 = omega (arith, y.0) in
      let inside : (has c s.service.free || has c s.service.in_use) ≡ true =
        ground (arith, has-times c s.service.in_use once) in
      rw inside (
        Safe-on_exit (called-Ending base v c w cqe _ s wr keeps here x y y.1)
          (λ t q. Returns-Safe (release-Balanced base c w t wr q)))
