-- ===== src/Asio/Sharing.antt =====
-- Who shares the `impl` of an accept_file, and what each of its functions does to the account of that.
use asio_uring.Base.{
  ℕ, ◌+◌, ◌-◌, ◌<◌, ◌≡◌, refl, ap, ◌∙◌, ◌==◌, ltb, if◌then◌else◌, Bool, true, false, Option, none,
  some, ◌∷◌, length, Exception, arith, Run, ok, on_exit, on_throw, Safe, returns, throws, waits,
  Safe-bind, Safe-mono, Safe-map_state, Bool-cases, inl, inr,
}
use asio_uring.EventfdQueue.Nodes.{erase}
use asio_uring.FileObject.{reset}
use asio_uring.FileObject.Lifetime.{
  Shared, unit, release-Kept, native-attached, wrapped, wrap-attached, wrapped-Shared, discard-Kept,
  held-live,
}
use asio_uring.Asio.Accept.{
  Acceptor, release_impl, poll_in, give_up, impl_accept, Callback, invoker, leave,
}

-- Each pointer to the `impl` is counted, the account of its descriptor is right, and it has its
-- descriptor exactly while it is there.
pub record Alive (s : Acceptor) : Type 0 where
  pub shared : Shared s.file
  pub counted : s.uses ≡ unit s.owner + length s.waiting + s.running
  pub lives : s.file.attached ≡ ltb 0 s.uses

-- As many calls are under way.
abbrev pub Going : Acceptor → Acceptor → Type 0
Going s d = Alive d × (d.running ≡ s.running) × (d.file.locals ≡ s.file.locals)

-- A pointer that has been taken out of the account is released.
pub release_impl-Going :
    (s : Acceptor)
    → Shared s.file
    → s.uses ≡ unit s.owner + length s.waiting + s.running + 1
    → s.file.attached ≡ true
    → Safe (λ _ d. Going s d) (λ d. ⊥) (release_impl s)
unfolding release_impl reset
release_impl-Going s x c a = elim (Bool-cases (s.uses == 1)) [
  | inl last ↦
      rw (last, a)
        (Safe-map_state (λ f. record s { uses = 0; file = f })
          (release-Kept (record s.file { attached = false }) x.owned (ground (arith, x.counted))
            (held-live s.file x (ground arith)))
          (λ _ f (y, _, z). (record { shared = y.0; counted = ground arith; lives = z }, refl, y.1))
          (λ f. absurd))
  | inr more ↦
      rw more
        (returns (record { shared = x; counted = ground arith; lives = ground arith }, refl, refl))
]

-- Only the file differs, and it has its descriptor.
abbrev Polled : Acceptor → Acceptor → Type 0
Polled s d =
    (d.owner ≡ s.owner)
    × (d.uses ≡ s.uses)
    × (d.waiting ≡ s.waiting)
    × (d.running ≡ s.running)
    × Shared d.file
    × (d.file.attached ≡ true)
    × (d.file.locals ≡ s.file.locals)

pub poll_in-Polled :
    (refused : Option Exception) (h : ℕ) (s : Acceptor)
    → Shared s.file
    → s.file.attached ≡ true
    → Safe (λ _ d. Polled s d) (Polled s) (poll_in refused h s)
unfolding poll_in
poll_in-Polled none h s x a = rw (native-attached s.file a) (
    rw (wrap-attached h s.file a)
      (returns (refl, refl, refl, refl, wrapped-Shared h s.file a x, a, refl)))
poll_in-Polled (some e) h s x a = rw (native-attached s.file a) (
    rw (wrap-attached h s.file a) (
      Safe-bind {P = λ _ d. Polled s d}
        (Safe-map_state (λ f. record s { file = f })
          (discard-Kept h (wrapped h s.file) (ground arith) (wrapped-Shared h s.file a x))
          (λ _ f (y, _, z). (refl, refl, refl, refl, y.0, z ∙ a, y.1))
          (λ f (y, _, z). (refl, refl, refl, refl, y.0, z ∙ a, y.1)))
        λ _ d y. throws y))

-- An operation that is begun has its `self`, which goes if the poll cannot be started.
pub begun-Going :
    (h : ℕ) (s : Acceptor) {r : Run Acceptor (Unit {0})}
    → Alive s
    → Safe
        (λ _ d. Polled (record s { uses = s.uses + 1; waiting = h ∷ s.waiting }) d)
        (Polled (record s { uses = s.uses + 1; waiting = h ∷ s.waiting }))
        r
    → Safe (λ _ d. Going s d) (Going s) (on_throw r (give_up h))
unfolding give_up
begun-Going h s x (returns {s = d} (o, u, w, n, y, a, l)) = returns (
  record {
    shared = y;
    counted = ground (arith, x.counted, ap length w, ap unit o);
    lives = ground arith;
  },
  n,
  l,
)
begun-Going h s x (throws {s = d} (o, u, w, n, y, a, l)) =
    let fewer : erase h d.waiting ≡ s.waiting = rw w (ground arith) in
    Safe-bind
      (Safe-mono
        (release_impl-Going (record d { waiting = erase h d.waiting }) y
          (ground (arith, x.counted, ap length fewer, ap unit o)) a)
        (λ _ f (z, m, k). (z, m ∙ n, k ∙ l)) (λ f. absurd))
      λ _ f z. throws z
begun-Going h s x waits = waits

-- An operation is begun while there is a pointer to the `impl`.
pub impl_accept-Going :
    (refused : Option Exception) (h : ℕ) (s : Acceptor)
    → Alive s
    → 0 < s.uses
    → Safe (λ _ d. Going s d) (Going s) (impl_accept refused h s)
unfolding impl_accept
impl_accept-Going refused h s x pos = begun-Going h s x (
    poll_in-Polled refused h (record s { uses = s.uses + 1; waiting = h ∷ s.waiting }) x.shared
      (ground (arith, x.lives)))

-- A handler of the user that keeps the account
abbrev pub Keeping : Callback → Type 0
Keeping k =
    (ec fd : Option ℕ) (s : Acceptor) → Alive s → Safe (λ _ d. Going s d) (Going s) (k ec fd s)

pub invoker-Going :
    (k : Callback) (refused : Option Exception) (h : ℕ) (ec sec fd : Option ℕ) (s : Acceptor)
    → Keeping k
    → Alive s
    → 0 < s.uses
    → Safe (λ _ d. Going s d) (Going s) (invoker k refused h ec sec fd s)
invoker-Going k refused h (some ec) sec fd s keep x pos = keep (some ec) none s x
invoker-Going k refused h none (some e) fd s keep x pos =
    rw (native-attached s.file (ground (arith, x.lives))) (keep (some e) none s x)
invoker-Going k refused h none none (some fd) s keep x pos =
    rw (native-attached s.file (ground (arith, x.lives))) (keep none (some fd) s x)
invoker-Going k refused h none none none s keep x pos =
    rw (native-attached s.file (ground (arith, x.lives))) (impl_accept-Going refused h s x pos)

-- The pointer to the descriptor has gone, and that to the `impl` has not.
abbrev HalfLeft : Acceptor → Acceptor → Type 0
HalfLeft d e =
    (e.owner ≡ d.owner)
    × (e.uses ≡ d.uses)
    × (e.waiting ≡ d.waiting)
    × (e.running ≡ d.running)
    × Shared e.file
    × (e.file.attached ≡ true)
    × (e.file.locals + 1 ≡ d.file.locals)

-- A call that is under way ends: its pointers to the descriptor and to the `impl` go.
pub leave-Going :
    (n m : ℕ) (d : Acceptor)
    → Alive d
    → d.running ≡ n + 1
    → d.file.locals ≡ m + 1
    → Safe (λ _ f. Alive f × (f.running ≡ n) × (f.file.locals ≡ m)) (λ f. ⊥) (leave d)
unfolding leave
leave-Going n m d x e l =
    let a : d.file.attached ≡ true = ground (arith, x.lives, x.counted) in
    Safe-bind {P = λ _ e. HalfLeft d e}
      (Safe-map_state (λ g. record d { file = g })
        (release-Kept (record d.file { locals = d.file.locals - 1 }) x.shared.owned
          (ground (arith, x.shared.counted)) (x.shared.live (ground (arith, x.shared.counted))))
        (λ _ g y. (refl, refl, refl, refl, y.0.0, y.2 ∙ a, ground (arith, y.0.1))) (λ g. absurd))
      λ _ f (o, u, w, r, y, b, k).
        Safe-mono
          (release_impl-Going (record f { running = f.running - 1 }) y
            (ground (arith, x.counted, ap length w, ap unit o)) b)
          (λ _ g (z, i, j). (z, i ∙ ground arith, j ∙ ground arith)) (λ g. absurd)

pub left-Going :
    (s d : Acceptor) {r : Run Acceptor (Unit {0})}
    → d.running ≡ s.running + 1
    → d.file.locals ≡ s.file.locals + 1
    → Safe (λ _ f. Going d f) (Going d) r
    → Safe (λ _ f. Going s f) (Going s) (on_exit r leave)
left-Going s d e l (returns {s = f} (x, n, k)) =
    Safe-bind
      (Safe-mono (leave-Going s.running s.file.locals f x (n ∙ e) (k ∙ l)) (λ _ g y. y)
        (λ g. absurd))
      λ _ g y. returns y
left-Going s d e l (throws {s = f} (x, n, k)) =
    Safe-bind
      (Safe-mono (leave-Going s.running s.file.locals f x (n ∙ e) (k ∙ l)) (λ _ g y. y)
        (λ g. absurd))
      λ _ g y. throws y
left-Going s d e l waits = waits

pub destroyed-Going :
    (s : Acceptor) (b : Bool)
    → s.owner ≡ b
    → Alive s
    → Safe
        (λ _ d. Going s d)
        (Going s)
        (if b then release_impl (record s { owner = false }) else ok tt s)
destroyed-Going s true e x =
    Safe-mono
      (release_impl-Going (record s { owner = false }) x.shared
        (ground (arith, x.counted, ap unit e)) (ground (arith, x.lives, x.counted, ap unit e)))
      (λ _ d y. y) (λ d. absurd)
destroyed-Going s false e x = returns (x, refl, refl)
