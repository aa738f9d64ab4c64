-- ===== src/Asio/Delivery.antt =====
-- `complete` of an operation on the state of its service alone: both units of work are given back.
use asio_uring.Base.{
  ℕ, ◌+◌, ◌≤◌, ◌<◌, ◌≡◌, refl, ◌∙◌, true, ◌||◌, Option, none, some, ◌∷◌, has, Exception, ErrorCode,
  word_mod, arith, Run, ok, throw, on_exit, Safe, returns, throws, waits, Returns-value, ap,
}
use asio_uring.EventfdQueue.Nodes.{Ptr, erase, update}
use asio_uring.EventfdQueue.Chains.{has-times}
use asio_uring.Context.Platform.{Platform, Cqe}
use asio_uring.Context.State.{Context}
use asio_uring.Context.Executor.{
  User, is_thread, running_in_this_thread, dispatch, on_work_finished,
}
use asio_uring.Service.Pool.{Service, in_context, unlink, released, complete}
use asio_uring.Service.Account.{Writes, Sound, units, unit_of, on_work_finished-Returns}
use asio_uring.Service.Release.{Released, release-Released}
use asio_uring.Service.Complete.{after, Holding}
use asio_uring.Io.Codes.{ℤ}
use asio_uring.Asio.Handler.{invoke}
use asio_uring.Asio.Initiate.{Wrapper, Args, args_of, deliver}

module _ {p : Platform} where
  -- A callable that keeps the count of work
  abbrev pub Neutral : User p → p.Handler → Context p → Type 0
  Neutral u h c = Safe (λ _ d. d.work ≡ c.work) (λ d. d.work ≡ c.work) (u.invoke h c)

  finished-Safe :
      {A : Type 0} (n : ℕ) {r : Run (Context p) A}
      → Writes p
      → 0 < n
      → n < word_mod
      → Safe (λ _ d. d.work ≡ n) (λ d. d.work ≡ n) r
      → Safe (λ _ d. d.work + 1 ≡ n) (λ d. d.work + 1 ≡ n) (on_exit r on_work_finished)
  finished-Safe n w pos room (returns {a} {s = c} e) =
      let (_, d, f, less) =
        Returns-value (on_work_finished-Returns c w (omega (arith, e)) (omega (arith, e))) in
      rw f (returns (less ∙ e))
  finished-Safe n w pos room (throws {e = x} {s = c} e) =
      let (_, d, f, less) =
        Returns-value (on_work_finished-Returns c w (omega (arith, e)) (omega (arith, e))) in
      rw f (throws (less ∙ e))
  finished-Safe n w pos room waits = waits

  invoke-Safe :
      (u : User p) (thread : ℕ) (bound : Option Exception) (h : p.Handler) (c : Context p)
      → Writes p
      → is_thread c.tid thread ≡ true
      → 0 < c.work
      → c.work < word_mod
      → Neutral u h c
      → Safe (λ _ d. d.work + 1 ≡ c.work) (λ d. d.work + 1 ≡ c.work) (invoke u thread bound h c)
  unfolding invoke dispatch running_in_this_thread
  invoke-Safe u thread none h c w here pos room k = finished-Safe c.work w pos room (simp here k)
  invoke-Safe u thread (some e) h c w here pos room k =
      finished-Safe c.work w pos room (throws refl)

  in_context-Safe :
      {P : Service p Wrapper → Type 0} {n : ℕ} (s : Service p Wrapper)
      {r : Run (Context p) (Unit {0})}
      → ((c : Context p) → c.work + 1 ≡ n → P (record s { ctx = c }))
      → Safe (λ _ d. d.work + 1 ≡ n) (λ d. d.work + 1 ≡ n) r
      → Safe (λ _ d. P d) P (in_context s r)
  in_context-Safe s k (returns h) = returns (k _ h)
  in_context-Safe s k (throws h) = throws (k _ h)
  in_context-Safe s k waits = waits

  -- The handler has run, in a state where the completion `c` still stores `w` and all else is as before.
  abbrev pub RunBy : Ptr → Wrapper → Service p Wrapper → Service p Wrapper → Type 0
  RunBy c w s d =
      Holding c w d
      × (d.in_use ≡ s.in_use)
      × (d.held ≡ s.held)
      × (d.free ≡ s.free)
      × (d.ctx.work + 1 ≡ s.ctx.work)
      × (d.wrapped ≡ s.wrapped)

  deliver-Safe :
      (u : User p) (thread : ℕ) (bind : ℕ → Args → p.Handler) (aborted : ErrorCode)
      (bound : Option Exception) (c : Ptr) (w : Wrapper) (res : ℤ) (s : Service p Wrapper)
      → Writes p
      → Holding c w s
      → units s.wrapped s.in_use + 1 ≤ s.ctx.work
      → is_thread s.ctx.tid thread ≡ true
      → Neutral u (bind w.handler (args_of aborted w.kind res)) s.ctx
      → Safe (λ _ d. RunBy c w s d) (RunBy c w s) (deliver u thread bind aborted bound w res s)
  unfolding deliver
  deliver-Safe u thread bind aborted bound c w res s wr (sound, one, at) paid here k =
      in_context-Safe s
        (λ x less. (
          (
            record {
              placed = sound.placed;
              once = sound.once;
              apart = sound.apart;
              bare = sound.bare;
              paid = omega (arith, less, paid);
              room = omega (arith, less, sound.room);
              cleared = sound.cleared;
            },
            one,
            at,
          ),
          refl,
          refl,
          refl,
          less,
          refl,
        ))
        (invoke-Safe u thread bound (bind w.handler (args_of aborted w.kind res)) s.ctx wr here
          (omega (arith, paid)) sound.room k)

  -- The completion `c` is off every list but the free one, and both units of work are given back.
  abbrev pub Finished : Ptr → Service p Wrapper → Service p Wrapper → Type 0
  Finished c s d =
      Sound d
      × (d.in_use ≡ erase c s.in_use)
      × (d.held ≡ unlink c s.held)
      × (d.free ≡ c ∷ s.free)
      × (d.ctx.work + 2 ≡ s.ctx.work)
      × (d.wrapped ≡ update s.wrapped c none)

  pub Released-Finished :
      (c : Ptr) (w : Wrapper) (s t d : Service p Wrapper)
      → RunBy c w s t
      → Released c t d
      → Finished c s d
  Released-Finished c w s t d ((sound, one, at), i, h, f, less, same)
        (sound', i', h', f', less', upd') =
      (
        sound',
        i' ∙ ap (erase c) i,
        h' ∙ ap (unlink c) h,
        f' ∙ ap (λ l. c ∷ l) f,
        omega (arith, less, less', ap unit_of at),
        upd' ∙ ap (λ m. update m c none) same,
      )

  released-Finished :
      (c : Ptr) (w : Wrapper) (s : Service p Wrapper) {r : Run (Service p Wrapper) (Unit {0})}
      → Writes p
      → Safe (λ _ d. RunBy c w s d) (RunBy c w s) r
      → Safe (λ _ d. Finished c s d) (Finished c s) (released c r)
  released-Finished c w s wr (returns {a} {s = t} x) =
      after wr (λ d. ok a d) (release-Released c t wr x.0.0 x.0.1)
        λ d y. returns (Released-Finished c w s t d x y)
  released-Finished c w s wr (throws {e} {s = t} x) =
      after wr (λ d. throw e d) (release-Released c t wr x.0.0 x.0.1)
        λ d y. throws (Released-Finished c w s t d x y)
  released-Finished c w s wr waits = waits

  -- `complete` of a completion that is in use and stores the function object of an I/O operation,
  -- in the thread of the loop, on a sound service whose context has, beside the units of work of
  -- its completions, that of the completion_handler, if the callable that is bound to the handler
  -- and to the conversion of the result keeps the count of work, and the write to the eventfd of
  -- `on_work_finished` succeeds: no assertion fails. Whether the callable or the binding throws or
  -- not, afterwards the completion is off the list in use and off the list of its handle and first
  -- on the free list, the service is sound, and two units of work have been given back.
  pub complete-Finished :
      (u : User p) (thread : ℕ) (bind : ℕ → Args → p.Handler) (aborted : ErrorCode)
      (bound : Option Exception) (int_of : ℕ → ℤ) (c : Ptr) (w : Wrapper) (cqe : Cqe p.Completion)
      (s : Service p Wrapper)
      → Writes p
      → Holding c w s
      → units s.wrapped s.in_use + 1 ≤ s.ctx.work
      → is_thread s.ctx.tid thread ≡ true
      → Neutral u (bind w.handler (args_of aborted w.kind (int_of cqe.res))) s.ctx
      → Safe
          (λ _ d. Finished c s d)
          (Finished c s)
          (complete (λ v e. deliver u thread bind aborted bound v (int_of e.res)) c cqe s)
  unfolding complete
  complete-Finished u thread bind aborted bound int_of c w cqe s wr hold paid here k =
      let (sound, one, at) = hold in
      let inside : (has c s.free || has c s.in_use) ≡ true =
        ground (arith, has-times c s.in_use (ground arith)) in
      simp (inside, at)
        (released-Finished c w s wr
          (deliver-Safe u thread bind aborted bound c w (int_of cqe.res) s wr hold paid here k))
