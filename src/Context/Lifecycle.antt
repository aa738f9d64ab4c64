-- ===== src/Context/Lifecycle.antt =====
-- The life of a context: what the constructor leaves behind, when it returns and when it throws, and
-- the destructor.
use asio_uring.Base.{
  ℕ, ◌+◌, ◌≡◌, refl, ap, ◌∙◌, [], ◌∷◌, Sys, done, failed, List, length, arith, Run, Safe, returns,
  throws, waits, Safe-bind, Safe-mono, Safe-both, Returns, returned, Returns-bind, Returns-value,
  Returns-mono, on_throw, false, true, none, if◌then◌else◌,
}
use asio_uring.Context.Platform.{Platform, Laws, Internal, of_queue, of_stop, of_zero}
use asio_uring.Context.State.{Context, sys_result, stopped}
use asio_uring.Context.Invariant.{Inv}
use asio_uring.Context.Polling.{sys_result-Safe}
use asio_uring.Context.Endings.{restart-Safe}
use asio_uring.Context.Safety.{Idle}
use asio_uring.Context.Startup.{
  initial, create, close, create_ring, exit_ring, register, from_ring, from_zero, from_stop, start,
  finish,
}
use asio_uring.Context.Resources.{
  Resource, descriptor, ring, Resources, rank, is, Upto, made-Upto, lost-Upto, close-Upto,
  restart-Kept,
}

-- eventfd(2) with an initial value of 0, and io_uring_queue_init(3) and io_uring_register(2), which
-- touch no counter and start no operation.
pub record StartLaws (p : Platform) : Type 0 where
  pub opened :
      (w : p.World)
      → (p.open_eventfd of_queue w).0 ≡ done tt
      → p.count (p.open_eventfd of_queue w).1 of_queue ≡ 0
  pub stop_opened :
      (w : p.World) → p.count (p.open_eventfd of_stop w).1 of_queue ≡ p.count w of_queue
  pub zero_opened :
      (w : p.World) → p.count (p.open_eventfd of_zero w).1 of_queue ≡ p.count w of_queue
  pub queue_init_same :
      (e f : ℕ) (w : p.World) → p.count (p.queue_init e f w).1 of_queue ≡ p.count w of_queue
  pub register_same :
      (fs : List Internal) (w : p.World)
      → p.count (p.register_files fs w).1 of_queue ≡ p.count w of_queue
  pub open_flights :
      (i : Internal) (w : p.World) → p.in_flight (p.open_eventfd i w).1 ≡ p.in_flight w
  pub init_flights : (e f : ℕ) (w : p.World) → p.in_flight (p.queue_init e f w).1 ≡ p.in_flight w
  pub register_flights :
      (fs : List Internal) (w : p.World) → p.in_flight (p.register_files fs w).1 ≡ p.in_flight w

module _ {p : Platform} (r : Resources p) where
  -- No callable, no work, and nothing in flight; the members up to the rank `n` have been made.
  abbrev Blank : ℕ → Context p → Type 0
  Blank n d =
      (d ≡ initial d.world)
      × (p.count d.world of_queue ≡ 0)
      × (p.in_flight d.world ≡ 0)
      × Upto r n d.world

  -- Those up to the rank `n` are left.
  abbrev pub Left : ℕ → Context p → Type 0
  Left n d = (d.tid ≡ none) × Upto r n d.world

  -- A member is made, or the call has failed and there is nothing more than before.
  make-Blank :
      (y : Resource) (n : ℕ) (a : Context p) (x : Sys (Unit {0}) × p.World)
      → rank y ≡ n + 1
      → a ≡ initial a.world
      → Upto r n a.world
      → (x.0 ≡ done tt → p.count x.1 of_queue ≡ 0)
      → p.in_flight x.1 ≡ 0
      → ((z : Resource)
          → x.0 ≡ done tt
          → r.holds x.1 z ≡ (if is y z then true else r.holds a.world z))
      → ((e : ℕ) (z : Resource) → x.0 ≡ failed e → r.holds x.1 z ≡ r.holds a.world z)
      → Safe (λ _ d. Blank (n + 1) d) (Left n) (sys_result a x)
  make-Blank y n a x rk e u count flights made same =
      sys_result-Safe a x
        (λ v f. (
          ap {A = Context p} (λ c. record c { world = x.1 }) e,
          count f,
          flights,
          made-Upto r y n a.world _ rk u (λ z. made z f),
        ))
        λ n f. (ap (λ c. c.tid) e, λ z. same n z f ∙ u z)

  Blank-Inv : (n : ℕ) (d : Context p) → Blank n d → Inv d
  Blank-Inv n d (e, c, m, u) = record {
    counted = ground (arith, ap (λ c. c.pending) e);
    held = ground (arith, ap (λ c. c.work) e, ap (λ c. length c.q) e);
    room = ground (arith, ap (λ c. c.work) e);
  }

  -- The destructor of the member of rank `n + 1` runs when what follows it throws.
  on_throw-Left :
      {P : Unit {0} → Context p → Type 0} (n : ℕ) {x : Run (Context p) (Unit {0})}
      (f : Context p → Run (Context p) (Unit {0}))
      → ((c : Context p) → Left (n + 1) c → Returns (λ _ d. Left n d) (f c))
      → Safe P (Left (n + 1)) x
      → Safe P (Left n) (on_throw x f)
  on_throw-Left n f undo (returns h) = returns h
  on_throw-Left n f undo (throws {s = c} h) =
      let (_, d, e, k) = Returns-value (undo c h) in rw e (throws k)
  on_throw-Left n f undo waits = waits

  close-Left :
      (i : Internal) (n : ℕ) (c : Context p)
      → rank (descriptor i) ≡ n + 1
      → Left (n + 1) c
      → Returns (λ _ d. Left n d) (close i c)
  close-Left i n c e (t, u) =
      let (_, d, f, (same, v)) = Returns-value (close-Upto r i n c e u) in
      rw f (returned (ap (λ c. c.tid) same ∙ t, v))

  exit-Upto : (w : p.World) → Upto r 4 w → Upto r 3 (p.queue_exit w)
  exit-Upto w u = lost-Upto r ring 3 w _ refl u (r.exit_holds w)

  exit-Left : (c : Context p) → Left 4 c → Returns (λ _ d. Left 3 d) (exit_ring c)
  unfolding exit_ring
  exit-Left c (t, u) = returned (t, exit-Upto c.world u)

  -- All four members have been made, the account is right, and no thread is in the loop.
  abbrev pub Standing : Context p → Type 0
  Standing d = Idle d × (stopped d ≡ false) × Upto r 4 d.world

  module _ (l : Laws p) (k : StartLaws p) (entries flags : ℕ) where
    from_ring-Standing :
        (c : Context p) → Blank 3 c → Safe (λ _ d. Standing d) (Left 3) (from_ring entries flags c)
    unfolding from_ring create_ring register
    from_ring-Standing c (e, n, m, u) =
        Safe-bind
          (make-Blank ring 3 c (p.queue_init entries flags c.world) refl e u
            (λ _. k.queue_init_same entries flags c.world ∙ n)
            (k.init_flights entries flags c.world ∙ m)
            (λ z f. r.init_done entries flags c.world z f)
            (λ q z f. r.init_failed entries flags c.world q z f))
          λ _ d (e', n', m', u'). on_throw-Left 3 exit_ring exit-Left (
            let fs = of_queue ∷ of_stop ∷ of_zero ∷ [] in
            let v : Upto r 4 (p.register_files fs d.world).1 =
              λ z. r.register_holds fs d.world z ∙ u' z in
            let same =
              ap {A = Context p} (λ c. record c { world = (p.register_files fs d.world).1 }) e' in
            Safe-bind {P = λ _ f. Blank 4 f}
              (sys_result-Safe d (p.register_files fs d.world)
                (λ _ _.
                  (same, k.register_same fs d.world ∙ n', k.register_flights fs d.world ∙ m', v))
                (λ _ _. (ap (λ c. c.tid) same, v)))
              λ _ f b.
                let no_thread : f.tid ≡ none = ap (λ s. s.tid) (b.0) in
                Safe-mono (Safe-both (restart-Safe l f (Blank-Inv 4 f b)) (restart-Kept r f))
                  (λ _ g (((i, t), s), q). ((i, t ∙ no_thread), s, λ z. q z ∙ b.3 z))
                  (λ g ((i, t), q). (t ∙ no_thread, λ z. q z ∙ b.3 z)))

    from_zero-Standing :
        (c : Context p) → Blank 2 c → Safe (λ _ d. Standing d) (Left 2) (from_zero entries flags c)
    unfolding from_zero create
    from_zero-Standing c (e, n, m, u) =
        Safe-bind
          (make-Blank (descriptor of_zero) 2 c (p.open_eventfd of_zero c.world) refl e u
            (λ _. k.zero_opened c.world ∙ n) (k.open_flights of_zero c.world ∙ m)
            (r.open_done of_zero c.world) (λ q z f. r.open_failed of_zero c.world q z f))
          λ _ d b.
            on_throw-Left 2 (close of_zero) (λ f. close-Left of_zero 2 f refl)
              (from_ring-Standing d b)

    from_stop-Standing :
        (c : Context p) → Blank 1 c → Safe (λ _ d. Standing d) (Left 1) (from_stop entries flags c)
    unfolding from_stop create
    from_stop-Standing c (e, n, m, u) =
        Safe-bind
          (make-Blank (descriptor of_stop) 1 c (p.open_eventfd of_stop c.world) refl e u
            (λ _. k.stop_opened c.world ∙ n) (k.open_flights of_stop c.world ∙ m)
            (r.open_done of_stop c.world) (λ q z f. r.open_failed of_stop c.world q z f))
          λ _ d b.
            on_throw-Left 1 (close of_stop) (λ f. close-Left of_stop 1 f refl)
              (from_zero-Standing d b)

    -- The constructor of a context, on a platform that obeys its laws, where nothing is in flight
    -- and neither an eventfd of the context nor the ring exists: no assertion fails. When it
    -- returns the three eventfds and the ring exist, the account is right, no thread is in the loop
    -- and the context is not stopped; when it throws, wherever that is, none of the three eventfds
    -- exists and the ring does not.
    pub start-Standing :
        (w : p.World)
        → p.in_flight w ≡ 0
        → Upto r 0 w
        → Safe (λ _ d. Standing d) (Left 0) (start entries flags w)
    unfolding start create
    start-Standing w quiet none_held =
        Safe-bind
          (make-Blank (descriptor of_queue) 0 (initial w) (p.open_eventfd of_queue w) refl refl
            none_held (k.opened w) (k.open_flights of_queue w ∙ quiet) (r.open_done of_queue w)
            (λ q z f. r.open_failed of_queue w q z f))
          λ _ d b.
            on_throw-Left 0 (close of_queue) (λ f. close-Left of_queue 0 f refl)
              (from_stop-Standing d b)

  -- The destructor of a context whose three eventfds and ring exist, on a platform that obeys its
  -- laws, returns: none of them exists, the queue is empty and no other field has changed.
  pub finish-Left :
      (c : Context p)
      → Upto r 4 c.world
      → Returns (λ _ d. (d ≡ record c { q = []; world = d.world }) × Upto r 0 d.world) (finish c)
  unfolding finish exit_ring
  finish-Left c u =
      let c3 = record c { world = p.queue_exit c.world } in
      Returns-bind (close-Upto r of_zero 2 c3 refl (exit-Upto c.world u)) λ _ d (e, v).
        Returns-bind (close-Upto r of_stop 1 d refl v) λ _ f (g, x).
          Returns-mono (close-Upto r of_queue 0 (record f { q = [] }) refl x)
            λ _ a (b, y). (ground arith, y)
