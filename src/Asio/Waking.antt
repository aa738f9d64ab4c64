-- ===== src/Asio/Waking.antt =====
-- Whoever gives back the last unit of work wakes the loop.
use asio_uring.Base.{
  ◌<◌, ◌≡◌, ◌==◌, Bool-cases, inl, inr, true, false, Bool, Option, none, some, [], Sys, done,
  failed, blocks, Run, ok, throw, abort, running, Leads, Leads-bind, Leads-map_state, Leads-all,
  check-Leads, on_exit-Leads, no_throw, dec64, check_that, word_mod, arith, ap, has, ◌||◌,
}
use asio_uring.EventfdQueue.Nodes.{Ptr}
use asio_uring.Context.Platform.{Platform, Cqe, Laws, of_zero}
use asio_uring.Context.State.{Context, sys_result, eventfd_write}
use asio_uring.Context.Executor.{on_work_finished, is_thread, running_in_this_thread}
use asio_uring.Service.Pool.{Service, finished, swapped}
use asio_uring.Service.Pool
use asio_uring.Service.Account.{Writes, units}
use asio_uring.Asio.Initiate.{Wrapper, Args}
use asio_uring.Asio.Files.{IoFile}
use asio_uring.Asio.Calls.{Environment, in_service, in_ctx, leave, invoke, call, complete}
use asio_uring.Asio.Calls
use asio_uring.Asio.Accounts.{Balanced, Calling, Stores, stored-units, entered-Calling}

module _ {p : Platform} (l : Laws p) (wr : Writes p) where
  -- If there is no work left, then the eventfd for that has been written.
  abbrev pub Awake : Context p → Type 0
  Awake c = (c.work < word_mod) × (c.work ≡ 0 → 0 < p.count c.world of_zero)

  last-Awake :
      (c : Context p) (x : Sys (Unit {0}) × p.World)
      → c.work < word_mod
      → (x.0 ≡ done tt → 0 < p.count x.1 of_zero)
      → x.0 ≡ done tt
      → Leads Awake (sys_result c x)
  last-Awake c (done a, w) room h e = (room, λ z. h e)
  last-Awake c (failed e, w) room h f = absurd cc
  last-Awake c (blocks, w) room h f = tt

  no_throw-Awake : (x : Run (Context p) (Unit {0})) → Leads Awake x → Leads Awake (no_throw x)
  no_throw-Awake (ok a s) h = h
  no_throw-Awake (throw e s) h = tt
  no_throw-Awake abort h = tt
  no_throw-Awake (running s) h = tt

  pub on_work_finished-Awake :
      (c : Context p) → c.work < word_mod → Leads Awake (on_work_finished c)
  unfolding on_work_finished eventfd_write
  on_work_finished-Awake c room = no_throw-Awake _ (elim (Bool-cases (c.work == 0)) [
    | inl z ↦ rw z tt
    | inr z ↦ elim (Bool-cases (c.work == 1)) [
      | inl one ↦
          rw (z, one)
            (last-Awake (record c { work = dec64 c.work }) (p.write_eventfd of_zero 1 c.world)
              (omega arith) (λ e. omega (arith, l.write_done of_zero 1 c.world of_zero e))
              (wr c.world))
      | inr more ↦ rw (z, more) (ground arith, λ e. absurd (ground arith))
    ]
  ])

  abbrev pub AwakeIn : Service p Wrapper → Type 0
  AwakeIn t = Awake t.ctx

  abbrev pub AwakeOf : IoFile p → Type 0
  AwakeOf s = Awake s.service.ctx

  finished-AwakeIn :
      (o : Option Wrapper) (c : Ptr) (t : Service p Wrapper)
      → AwakeIn t
      → Leads AwakeIn (finished o c t)
  finished-AwakeIn none c t h = h
  finished-AwakeIn (some w) c t h =
      Leads-map_state AwakeIn _ (on_work_finished t.ctx) (on_work_finished-Awake t.ctx h.0)

  swapped-AwakeIn :
      (c : Ptr) (t : Service p Wrapper) (x : Bool × p.World)
      → p.count x.1 of_zero ≡ p.count t.ctx.world of_zero
      → AwakeIn t
      → AwakeIn (swapped c t x)
  swapped-AwakeIn c t (true, w) e h = (h.0, λ z. rw e (h.1 z))
  swapped-AwakeIn c t (false, w) e h = (h.0, λ z. rw e (h.1 z))

  release_iovs-AwakeIn :
      (c : Ptr) (t : Service p Wrapper) → AwakeIn t → AwakeIn (Pool.release_iovs c t)
  unfolding Pool.release_iovs
  release_iovs-AwakeIn c t h = elim (Bool-cases ((t.iovs c).capacity == 0)) [
    | inl e ↦ rw e h
    | inr e ↦ rw e (
        swapped-AwakeIn c t (p.allocate t.ctx.world) ((l.allocate_same t.ctx.world).counts of_zero)
          h)
  ]

  release-AwakeIn : (c : Ptr) (t : Service p Wrapper) → AwakeIn t → Leads AwakeIn (Pool.release c t)
  unfolding Pool.release Pool.reset
  release-AwakeIn c t h =
      Leads-bind (check_that (has c t.free || has c t.in_use) t) _
        (check-Leads _ (has c t.free || has c t.in_use) t h)
        λ _ d k.
          Leads-bind (finished (d.wrapped c) c d) _ (finished-AwakeIn (d.wrapped c) c d k)
            λ _ e m. release_iovs-AwakeIn c e m

  -- A handler keeps the loop awake.
  abbrev pub Wakeful : Environment p → Type 0
  Wakeful v =
      (c : Ptr) (w : Wrapper) (a : Args) (s : IoFile p)
      → Calling 0 c w s
      → AwakeOf s
      → Leads AwakeOf (v.user w.handler a s)

  call-AwakeOf :
      (v : Environment p) (c : Ptr) (w : Wrapper) (a : Args) (s : IoFile p)
      → Wakeful v
      → is_thread s.service.ctx.tid v.thread ≡ true
      → Balanced 0 s
      → Stores c w s
      → AwakeOf s
      → Leads AwakeOf (call v w a s)
  unfolding call invoke running_in_this_thread
  call-AwakeOf v c w a s keeps here x y h =
      let (held, z) = entered-Calling 0 c w s x y in
      on_exit-Leads _ (in_ctx on_work_finished)
        (rw here (
          rw held (
            on_exit-Leads _ leave (keeps c w a _ z h)
              λ t m. Leads-map_state AwakeOf _ _ (Leads-all _ (λ f. m)))))
        λ t m.
          Leads-map_state AwakeOf _ _
            (Leads-map_state AwakeIn _ _ (on_work_finished-Awake t.service.ctx m.0))

  called-AwakeOf :
      (v : Environment p) (c : Ptr) (w : Wrapper) (o : Option Wrapper) (cqe : Cqe p.Completion)
      (s : IoFile p)
      → Wakeful v
      → is_thread s.service.ctx.tid v.thread ≡ true
      → Balanced 0 s
      → Stores c w s
      → o ≡ some w
      → AwakeOf s
      → Leads AwakeOf (Calls.called v o cqe s)
  called-AwakeOf v c w o cqe s keeps here x y e h = rw e (call-AwakeOf v c w _ s keeps here x y h)

  complete-AwakeOf :
      (v : Environment p) (c : Ptr) (w : Wrapper) (cqe : Cqe p.Completion) (s : IoFile p)
      → Wakeful v
      → is_thread s.service.ctx.tid v.thread ≡ true
      → Balanced 0 s
      → Stores c w s
      → AwakeOf s
      → Leads AwakeOf (complete v c cqe s)
  unfolding complete
  complete-AwakeOf v c w cqe s keeps here x y h =
      elim (Bool-cases (has c s.service.free || has c s.service.in_use)) [
        | inl e ↦ rw e (
            on_exit-Leads _ (in_service (Pool.release c))
              (called-AwakeOf v c w (s.service.wrapped c) cqe s keeps here x y y.1 h)
              λ t m. Leads-map_state AwakeOf _ _ (release-AwakeIn c t.service m))
        | inr e ↦ rw e tt
      ]

  -- The account is right, and if no operation is left then neither is any work, and the loop is woken.
  abbrev pub Woken : IoFile p → Type 0
  Woken d =
      Balanced 0 d
      × (d.service.in_use ≡ []
          → (d.service.ctx.work ≡ 0) × (0 < p.count d.service.ctx.world of_zero))

  pub Awake-Woken : (d : IoFile p) → Balanced 0 d → AwakeOf d → Woken d
  Awake-Woken d x h = (
    x,
    λ e.
        let idle : d.service.ctx.work ≡ 0 =
          omega (arith, x.spent, ap (units d.service.wrapped) e) in
        (idle, h.1 idle),
  )

  pub complete-Awake :
      (v : Environment p) (c : Ptr) (w : Wrapper) (cqe : Cqe p.Completion) (s : IoFile p)
      → Wakeful v
      → is_thread s.service.ctx.tid v.thread ≡ true
      → Balanced 0 s
      → Stores c w s
      → Leads AwakeOf (complete v c cqe s)
  complete-Awake v c w cqe s awake here x y =
      let start : AwakeOf s =
        (x.sound.room, λ z. absurd (omega (arith, z, x.spent, stored-units c w s y))) in
      complete-AwakeOf v c w cqe s awake here x y start
