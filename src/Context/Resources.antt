-- ===== src/Context/Resources.antt =====
-- What the members of a context hold of the system: the three eventfds and the ring.
use asio_uring.Base.{
  ℕ, ◌+◌, ◌≡◌, refl, ap, ◌∙◌, Bool, true, false, if◌then◌else◌, leb, ◌==◌, Option, none, some, List,
  done, failed, arith, Safe, returns, throws, Safe-bind, Safe-mono, Returns, returned, inl, inr,
  Bool-cases,
}
use asio_uring.Context.Platform.{
  Platform, Internal, of_queue, of_stop, of_zero, UserData, same, internal,
}
use asio_uring.Context.State.{
  Context, sqe_result, index, prep, started, set_started, get_sqe, submit, restart_poll, restart_if,
  restart,
}
use asio_uring.Context.Polling.{sys_result-Safe}
use asio_uring.Context.Startup.{close}

pub data Resource : Type 0 where
  descriptor : Internal → Resource
  ring : Resource

abbrev pub is : Resource → Resource → Bool
is (descriptor i) (descriptor j) = same i j
is ring ring = true
is _ _ = false

-- The documentation of eventfd(2), close(2) and liburing, as to what they make and destroy: a call
-- that fails makes nothing, a descriptor that is open can be closed, and no other call on the ring
-- makes or destroys anything.
pub record Resources (p : Platform) : Type 0 where
  pub holds : p.World → Resource → Bool
  pub open_done :
      (i : Internal) (w : p.World) (x : Resource)
      → (p.open_eventfd i w).0 ≡ done tt
      → holds (p.open_eventfd i w).1 x ≡ (if is (descriptor i) x then true else holds w x)
  pub open_failed :
      (i : Internal) (w : p.World) (e : ℕ) (x : Resource)
      → (p.open_eventfd i w).0 ≡ failed e
      → holds (p.open_eventfd i w).1 x ≡ holds w x
  pub close_open :
      (i : Internal) (w : p.World) → holds w (descriptor i) ≡ true → (p.close_eventfd i w).0 ≡ true
  pub close_holds :
      (i : Internal) (w : p.World) (x : Resource)
      → holds (p.close_eventfd i w).1 x ≡ (if is (descriptor i) x then false else holds w x)
  pub init_done :
      (e f : ℕ) (w : p.World) (x : Resource)
      → (p.queue_init e f w).0 ≡ done tt
      → holds (p.queue_init e f w).1 x ≡ (if is ring x then true else holds w x)
  pub init_failed :
      (e f : ℕ) (w : p.World) (n : ℕ) (x : Resource)
      → (p.queue_init e f w).0 ≡ failed n
      → holds (p.queue_init e f w).1 x ≡ holds w x
  pub exit_holds :
      (w : p.World) (x : Resource)
      → holds (p.queue_exit w) x ≡ (if is ring x then false else holds w x)
  pub register_holds :
      (fs : List Internal) (w : p.World) (x : Resource)
      → holds (p.register_files fs w).1 x ≡ holds w x
  pub take_holds : (w : p.World) (x : Resource) → holds (p.take_sqe w).1 x ≡ holds w x
  pub poll_holds :
      (s : p.Sqe) (i : ℕ) (w : p.World) (x : Resource) → holds (p.prep_poll_add s i w) x ≡ holds w x
  pub fixed_holds :
      (s : p.Sqe) (w : p.World) (x : Resource) → holds (p.set_fixed_file s w) x ≡ holds w x
  pub data_holds :
      (s : p.Sqe) (d : UserData p.Completion) (w : p.World) (x : Resource)
      → holds (p.set_user_data s d w) x ≡ holds w x
  pub submit_holds : (w : p.World) (x : Resource) → holds (p.submit w).1 x ≡ holds w x
  pub write_holds :
      (i : Internal) (n : ℕ) (w : p.World) (x : Resource)
      → holds (p.write_eventfd i n w).1 x ≡ holds w x

-- The members hold theirs in the order of their declaration.
abbrev pub rank : Resource → ℕ
rank (descriptor of_queue) = 1
rank (descriptor of_stop) = 2
rank (descriptor of_zero) = 3
rank ring = 4

is-rank : (x y : Resource) → is x y ≡ (rank x == rank y)
is-rank (descriptor of_queue) (descriptor of_queue) = refl
is-rank (descriptor of_queue) (descriptor of_stop) = refl
is-rank (descriptor of_queue) (descriptor of_zero) = refl
is-rank (descriptor of_queue) ring = refl
is-rank (descriptor of_stop) (descriptor of_queue) = refl
is-rank (descriptor of_stop) (descriptor of_stop) = refl
is-rank (descriptor of_stop) (descriptor of_zero) = refl
is-rank (descriptor of_stop) ring = refl
is-rank (descriptor of_zero) (descriptor of_queue) = refl
is-rank (descriptor of_zero) (descriptor of_stop) = refl
is-rank (descriptor of_zero) (descriptor of_zero) = refl
is-rank (descriptor of_zero) ring = refl
is-rank ring (descriptor of_queue) = refl
is-rank ring (descriptor of_stop) = refl
is-rank ring (descriptor of_zero) = refl
is-rank ring ring = refl

module _ {p : Platform} (r : Resources p) where
  -- The resources up to the rank `n` are held, and no others.
  abbrev pub Upto : ℕ → p.World → Type 0
  Upto n w = (x : Resource) → r.holds w x ≡ leb (rank x) n

  -- The next one has been made, or the last one has been destroyed.
  pub made-Upto :
      (y : Resource) (n : ℕ) (w : p.World) (b : Resource → Bool)
      → rank y ≡ n + 1
      → Upto n w
      → ((x : Resource) → b x ≡ (if is y x then true else r.holds w x))
      → (x : Resource) → b x ≡ leb (rank x) (n + 1)
  made-Upto y n w b e h k x = ground (arith, is-rank y x, h x, k x)

  pub lost-Upto :
      (y : Resource) (n : ℕ) (w : p.World) (b : Resource → Bool)
      → rank y ≡ n + 1
      → Upto (n + 1) w
      → ((x : Resource) → b x ≡ (if is y x then false else r.holds w x))
      → (x : Resource) → b x ≡ leb (rank x) n
  lost-Upto y n w b e h k x = ground (arith, is-rank y x, h x, k x)

  -- Closing the last of the eventfds that are open
  pub close-Upto :
      (i : Internal) (n : ℕ) (c : Context p)
      → rank (descriptor i) ≡ n + 1
      → Upto (n + 1) c.world
      → Returns (λ _ d. (d ≡ record c { world = d.world }) × Upto n d.world) (close i c)
  unfolding close
  close-Upto i n c e h =
      let open_now : r.holds c.world (descriptor i) ≡ true = h (descriptor i) ∙ ground arith in
      rw (r.close_open i c.world open_now)
        (returned (refl, lost-Upto (descriptor i) n c.world _ e h (r.close_holds i c.world)))

  abbrev Kept : p.World → Context p → Type 0
  Kept w d = (x : Resource) → r.holds d.world x ≡ r.holds w x

  set_started-world :
      (i : Internal) (b : Bool) (c : Context p) → (set_started i b c).world ≡ c.world
  set_started-world of_queue b c = refl
  set_started-world of_stop b c = refl
  set_started-world of_zero b c = refl

  sqe_result-Kept :
      (c : Context p) (x : Option p.Sqe × p.World)
      → ((y : Resource) → r.holds x.1 y ≡ r.holds c.world y)
      → Safe (λ _ d. Kept c.world d) (Kept c.world) (sqe_result c x)
  sqe_result-Kept c (none, w) k = throws k
  sqe_result-Kept c (some s, w) k = returns k

  restart_poll-Kept :
      (i : Internal) (c : Context p)
      → started c i ≡ false
      → Safe (λ _ d. Kept c.world d) (Kept c.world) (restart_poll i c)
  unfolding restart_poll get_sqe submit prep
  restart_poll-Kept i c e = rw e (
      Safe-bind (sqe_result-Kept c (p.take_sqe c.world) (r.take_holds c.world)) λ s a k.
        let b = record a { world = prep p i s a.world } in
        let q : Kept c.world b = λ x. ground (
          arith,
          k x,
          r.poll_holds s (index i) a.world x,
          r.fixed_holds s (p.prep_poll_add s (index i) a.world) x,
          r.data_holds s (internal i) (p.set_fixed_file s (p.prep_poll_add s (index i) a.world)) x,
        ) in
        Safe-bind {P = λ _ d. Kept c.world d}
          (sys_result-Safe b (p.submit b.world) (λ _ _ x. r.submit_holds b.world x ∙ q x)
            (λ _ _ x. r.submit_holds b.world x ∙ q x))
          λ _ d m. returns (λ x. ap (λ w. r.holds w x) (set_started-world i true d) ∙ m x))

  restart_if-Kept :
      (i : Internal) (c : Context p) (w : p.World)
      → Kept w c
      → Safe (λ _ d. Kept w d) (Kept w) (restart_if i c)
  unfolding restart_if
  restart_if-Kept i c w k = elim (Bool-cases (started c i)) [
    | inl e ↦ rw e (returns k)
    | inr e ↦ rw e (Safe-mono (restart_poll-Kept i c e) (λ _ d m x. m x ∙ k x) (λ d m x. m x ∙ k x))
  ]

  -- Registering the polls neither makes nor destroys anything.
  pub restart-Kept : (c : Context p) → Safe (λ _ d. Kept c.world d) (Kept c.world) (restart c)
  unfolding restart
  restart-Kept c = Safe-bind (restart_if-Kept of_queue c c.world (λ x. refl)) λ _ d k.
      Safe-bind (restart_if-Kept of_stop d c.world k)
        λ _ e m. Safe-bind (restart_if-Kept of_zero e c.world m) λ _ f n. returns n
