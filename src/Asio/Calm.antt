-- ===== src/Asio/Calm.antt =====
-- A completion whose handler leaves the I/O object and the count of work alone, with all that its function
-- object does: `complete` of Calls.
use asio_uring.Base.{
  ℕ, ◌+◌, ◌-◌, ◌≤◌, ◌<◌, ◌≡◌, refl, ap, sym, subst, ◌||◌, true, Option, some, has, arith, Safe,
  Safe-map_state, map_state, length, Safe-on_exit, Returns, Returns-Safe, Returns-value, returned,
  word_mod,
}
use asio_uring.EventfdQueue.Nodes.{Ptr, erase}
use asio_uring.EventfdQueue.Chains.{times, has-times}
use asio_uring.Context.Platform.{Platform, Cqe}
use asio_uring.Context.State.{Context}
use asio_uring.Context.Executor.{is_thread, running_in_this_thread, on_work_finished}
use asio_uring.Service.Pool.{Service}
use asio_uring.Service.Pool
use asio_uring.Service.Account.{Writes, Sound, units, on_work_finished-Returns}
use asio_uring.Service.Release.{release-Released}
use asio_uring.FileObject.{File, release}
use asio_uring.FileObject.Lifetime.{Shared, Settled, unit, release-Kept, length-erase}
use asio_uring.Asio.Initiate.{Wrapper, Args}
use asio_uring.Asio.Files.{IoFile}
use asio_uring.Asio.Calls
use asio_uring.Asio.Calls.{Environment, in_service, in_ctx, leave, invoke, call, complete}
use asio_uring.Asio.Delivery.{RunBy, Finished, Released-Finished}

module _ {p : Platform} where
  -- Only the context has changed, and its work is as much.
  abbrev pub Untouched : IoFile p → IoFile p → Type 0
  Untouched s d =
      (d.file ≡ s.file)
      × (d.service ≡ record s.service { ctx = d.service.ctx })
      × (d.service.ctx.work ≡ s.service.ctx.work)

  -- A handler that does no more than that.
  abbrev pub Calm : Environment p → ℕ → Type 0
  Calm v h = (a : Args) (s : IoFile p) → Safe (λ _ d. Untouched s d) (Untouched s) (v.user h a s)

  -- The state with a context of enough work is sound.
  recontext :
      (s : Service p Wrapper) (c : Context p)
      → Sound s
      → units s.wrapped s.in_use ≤ c.work
      → c.work < word_mod
      → Sound (record s { ctx = c })
  recontext s c sound paid room = record {
    placed = sound.placed;
    once = sound.once;
    apart = sound.apart;
    bare = sound.bare;
    paid = paid;
    room = room;
    cleared = sound.cleared;
  }

  module _ (wr : Writes p) (c : Ptr) (w : Wrapper) (s : IoFile p) where
    -- The function object `w` that `c` stores can be called.
    pub record Callable : Type 0 where
      pub sound : Sound s.service
      pub one : times c s.service.in_use ≡ 1
      pub at : s.service.wrapped c ≡ some w
      pub shared : Shared s.file
      pub here : has w.handler s.file.holding ≡ true
      pub paid : units s.service.wrapped s.service.in_use + 1 ≤ s.service.ctx.work

    -- The handler has given up its pointer, if `n` is 1 the function object has given back its work, and
    -- only the context differs else.
    abbrev Called : ℕ → IoFile p → Type 0
    Called n d =
        Settled s.file d.file
        × (d.file.holding ≡ erase w.handler s.file.holding)
        × (d.service ≡ record s.service { ctx = d.service.ctx })
        × (d.service.ctx.work + n ≡ s.service.ctx.work)

    abbrev entered : IoFile p
    entered = record s {
      file = record s.file { holding = erase w.handler s.file.holding; locals = s.file.locals + 1 };
    }

    leave-Called :
        (d : IoFile p)
        → Callable
        → Untouched entered d
        → Safe (λ _ f. Called 0 f) (Called 0) (leave d)
    leave-Called d r (same, only, work) =
        let x : File = record entered.file { locals = entered.file.locals - 1 } in
        let all : x.count ≡ unit x.attached + length x.holding + x.locals + 1 =
          ground (arith, r.shared.counted, length-erase w.handler s.file.holding r.here) in
        subst
          (λ f.
            Safe (λ _ e. Called 0 e) (Called 0)
              (map_state (λ y. record d { file = y })
                (release (record f { locals = f.locals - 1 }))))
          (sym same)
          (Safe-map_state (λ y. record d { file = y })
            (release-Kept x r.shared.owned all (r.shared.live (omega (arith, all))))
            (λ _ f ((shared, less), hs, _).
              ((shared, ground (arith, less)), hs, only, omega (arith, work)))
            (λ f. absurd))

    finished-Called :
        (d : IoFile p)
        → Callable
        → Called 0 d
        → Returns (λ _ e. Called 1 e) (in_ctx on_work_finished d)
    finished-Called d r (file, hs, only, work) =
        let (_, e, eq, less) = Returns-value (
          on_work_finished-Returns d.service.ctx wr (omega (arith, work, r.paid))
            (omega (arith, work, r.sound.room))) in
        rw eq (
          returned (
            file,
            hs,
            ap {A = Service p Wrapper} (λ t. record t { ctx = e }) only,
            omega (arith, less, work),
          ))

    called-RunBy : (d : IoFile p) → Callable → Called 1 d → RunBy c w s.service d.service
    called-RunBy d r (file, hs, only, less) = subst (RunBy c w s.service) (sym only) (
      (
        recontext s.service d.service.ctx r.sound (omega (arith, less, r.paid))
            (omega (arith, less, r.sound.room)),
        r.one,
        r.at,
      ),
      refl,
      refl,
      refl,
      less,
      refl,
    )

    -- The completion is off every list but the free one, its handler has the descriptor no longer, and both
    -- units of work are given back.
    abbrev pub Passed : IoFile p → Type 0
    Passed d =
        Settled s.file d.file
        × (d.file.holding ≡ erase w.handler s.file.holding)
        × Finished c s.service d.service

    release-Passed :
        (d : IoFile p)
        → Callable
        → Called 1 d
        → Returns (λ _ e. Passed e) (in_service (Pool.release c) d)
    release-Passed d r x =
        let run = called-RunBy d r x in
        let (_, e, eq, y) = Returns-value (release-Released c d.service wr run.0.0 run.0.1) in
        rw eq (returned (x.0, x.1, Released-Finished c w s.service d.service e run y))

    call-Called :
        (v : Environment p) (a : Args)
        → is_thread s.service.ctx.tid v.thread ≡ true
        → Calm v w.handler
        → Callable
        → Safe (λ _ d. Called 1 d) (Called 1) (call v w a s)
    unfolding call invoke running_in_this_thread
    call-Called v a inside calm r =
        Safe-on_exit {P = Called 0}
          (rw inside (
            rw r.here
              (Safe-on_exit {P = Untouched entered} (calm a entered) (λ d x. leave-Called d r x))))
          (λ d x. Returns-Safe (finished-Called d r x))

    called-Called :
        (v : Environment p) (o : Option Wrapper) (cqe : Cqe p.Completion)
        → is_thread s.service.ctx.tid v.thread ≡ true
        → Calm v w.handler
        → Callable
        → o ≡ some w
        → Safe (λ _ d. Called 1 d) (Called 1) (Calls.called v o cqe s)
    called-Called v o cqe inside calm r e = rw e (call-Called v _ inside calm r)

    pub complete-Passed :
        (v : Environment p) (cqe : Cqe p.Completion)
        → is_thread s.service.ctx.tid v.thread ≡ true
        → Calm v w.handler
        → Callable
        → Safe (λ _ d. Passed d) Passed (complete v c cqe s)
    unfolding complete
    complete-Passed v cqe inside calm r =
        let known : (has c s.service.free || has c s.service.in_use) ≡ true =
          ground (arith, has-times c s.service.in_use (omega (arith, r.one))) in
        rw known (
          Safe-on_exit (called-Called v _ cqe inside calm r r.at)
            (λ d x. Returns-Safe (release-Passed d r x)))
