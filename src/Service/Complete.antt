-- ===== src/Service/Complete.antt =====
-- `complete`, `shutdown`, and the cache of vectors.
use asio_uring.Base.{
  ℕ, ◌+◌, ◌≤◌, ◌<◌, ◌≡◌, refl, ◌∙◌, ◌==◌, ◌≢◌, true, ◌||◌, Option, none, some, List, [], ◌∷◌, has,
  Safe, returns, throws, waits, Returns, returned, Returns-bind, Returns-mono, Returns-value,
  running, arith, inl, inr, Bool-cases, ap, Run, and_then, ok, throw, abort, sym,
}
use asio_uring.EventfdQueue.Nodes.{Ptr, update}
use asio_uring.EventfdQueue.Chains.{times, has-times}
use asio_uring.Context.Platform.{Platform, Cqe}
use asio_uring.Service.Pool.{
  Service, M, reset, released, complete, reset_all, shutdown, release_iovs, acquire_iovs,
}
use asio_uring.Service.Account.{Writes, unit_of, units, units-take, Sound}
use asio_uring.Service.Release.{Released, release-Released, finished-Reset}

-- The account is right, `c` is in use, once, and stores the handler `h`.
abbrev pub Holding : {p : Platform} {H : Type 0} → Ptr → H → Service p H → Type 0
Holding c h s = Sound s × (times c s.in_use ≡ 1) × (s.wrapped c ≡ some h)

-- How `complete` of `c`, which holds `h`, ends after the call of the handler: in the same way, with `c`
-- released in the state that the handler left, and its unit of work given back.
abbrev pub Ended :
    {p : Platform} {H : Type 0}
    → Ptr
    → H
    → Run (Service p H) (Unit {0})
    → Run (Service p H) (Unit {0})
    → Type 0
Ended {p} {H} c h (ok a t) x =
    (d : Service p H) × (x ≡ ok tt d)
    × Holding c h t
    × Released c t d
    × (d.ctx.work + 1 ≡ t.ctx.work)
Ended {p} {H} c h (throw e t) x =
    (d : Service p H) × (x ≡ throw e d)
    × Holding c h t
    × Released c t d
    × (d.ctx.work + 1 ≡ t.ctx.work)
Ended c h abort x = ⊥
Ended c h (running t) x = x ≡ running t

pub no_units :
    {H : Type 0} (wrapped : Ptr → Option H) (cs : List Ptr)
    → ((x : Ptr) → wrapped x ≡ none)
    → units wrapped cs ≡ 0
no_units wrapped [] none_left = refl
no_units wrapped (c ∷ cs) none_left =
    rw (none_left c) (omega (arith, no_units wrapped cs none_left))

module _ {p : Platform} {H : Type 0} (w : Writes p) where
  pub after :
      {A B : Type 0} {P : A → Service p H → Type 0} {Q R : Service p H → Type 0}
      {r : Run (Service p H) B} (k : Service p H → Run (Service p H) A)
      → Returns (λ _ d. R d) r
      → ((d : Service p H) → R d → Safe P Q (k d))
      → Safe P Q (and_then r (λ _ t. k t))
  after k (returned h) f = f _ h

  released-Ended :
      (c : Ptr) (h : H) {r : Run (Service p H) (Unit {0})}
      → Safe (λ _ d. Holding c h d) (Holding c h) r
      → Ended c h r (released c r)
  released-Ended c h (returns {a} {s} (ok_s, one, at)) =
      let (_, d, e, x) = Returns-value (release-Released c s w ok_s one) in
      let (sound, i, l, f, less, upd) = x in
      (
        d,
        ap (λ r. and_then r (λ _ u. ok a u)) e,
        (ok_s, one, at),
        x,
        omega (arith, less, ap unit_of at),
      )
  released-Ended c h (throws {e = y} {s} (ok_s, one, at)) =
      let (_, d, e, x) = Returns-value (release-Released c s w ok_s one) in
      let (sound, i, l, f, less, upd) = x in
      (
        d,
        ap (λ r. and_then r (λ _ u. throw y u)) e,
        (ok_s, one, at),
        x,
        omega (arith, less, ap unit_of at),
      )
  released-Ended c h waits = refl

  -- `complete` of a completion that is in use with a handler, on a sound service, where the call of
  -- the handler fails no assertion and, whether it returns or throws, leaves the service sound and
  -- that completion in use with the handler stored, if the write to the eventfd of
  -- `on_work_finished` succeeds: `complete` returns if the handler returns, throws its exception if
  -- it throws, and else waits as it does; and then, against the state that the handler left, the
  -- service is sound, the completion is off the list in use and the list of its handle and first on
  -- the free list, it stores no handler, and the count of work is less by its one unit.
  pub complete-Ended :
      (call : H → Cqe p.Completion → M p H (Unit {0})) (c : Ptr) (h : H) (cqe : Cqe p.Completion)
      (s : Service p H)
      → Safe (λ _ d. Holding c h d) (Holding c h) (call h cqe s)
      → Holding c h s
      → Ended c h (call h cqe s) (complete call c cqe s)
  unfolding complete
  complete-Ended call c h cqe s keeps (ok_s, one, at) =
      let here : has c s.in_use ≡ true = has-times c s.in_use (ground arith) in
      let inside : (has c s.free || has c s.in_use) ≡ true = ground (arith, here) in
      simp (inside, at) (released-Ended c h keeps)

  -- What resetting the completions `cs` leaves.
  abbrev pub Silenced : List Ptr → Service p H → Service p H → Type 0
  Silenced cs s d =
      Sound d
      × (d.in_use ≡ s.in_use)
      × (d.held ≡ s.held)
      × (d.ctx.work + units s.wrapped s.in_use ≡ s.ctx.work + units d.wrapped d.in_use)
      × ((x : Ptr) → times x cs ≢ 0 → d.wrapped x ≡ none)
      × ((x : Ptr) → s.wrapped x ≡ none → d.wrapped x ≡ none)
      × (d.free ≡ s.free)

  silent :
      (c x : Ptr) (s d : Service p H)
      → d.wrapped ≡ update s.wrapped c none
      → s.wrapped x ≡ none
      → d.wrapped x ≡ none
  silent c x s d e z = rw e (ground arith)

  -- A reset of one of them; only what it stores differs.
  pub reset-Silenced :
      (c : Ptr) (s : Service p H)
      → Sound s
      → times c s.in_use ≡ 1
      → Returns (λ _ d. Silenced (c ∷ []) s d × (d.wrapped ≡ update s.wrapped c none)) (reset c s)
  unfolding reset
  reset-Silenced c s ok_s one =
      let unit = units-take s.wrapped c s.in_use one in
      Returns-mono
        (finished-Reset (s.wrapped c) c s refl w (omega (arith, unit, ok_s.paid)) ok_s.room)
        λ _ d (less, clear, frame, vecs, upd).
          let count : units d.wrapped d.in_use + unit_of (s.wrapped c) ≡ units s.wrapped s.in_use =
            rw (upd, frame.in_use_same) unit in
          (
            (
              record {
                placed = λ x.
                    rw (frame.allocated_same, frame.free_same, frame.in_use_same) (ok_s.placed x);
                once = λ x. rw frame.allocated_same (ok_s.once x);
                apart = λ x z.
                    rw frame.held_same (ok_s.apart x (ap (times x) (sym frame.in_use_same) ∙ z));
                bare = λ x z.
                    silent c x s d upd (ok_s.bare x (ap (times x) (sym frame.in_use_same) ∙ z));
                paid = omega (arith, count, less, ok_s.paid);
                room = omega (arith, less, ok_s.room);
                cleared = rw vecs ok_s.cleared;
              },
              frame.in_use_same,
              frame.held_same,
              omega (arith, count, less),
              λ x z. rw upd (ground arith),
              λ x z. silent c x s d upd z,
              frame.free_same,
            ),
            upd,
          )

  pub reset_all-Silenced :
      (cs : List Ptr) (s : Service p H)
      → Sound s
      → ((x : Ptr) → times x cs ≤ times x s.in_use)
      → Returns (λ _ d. Silenced cs s d) (reset_all cs s)
  unfolding reset_all
  reset_all-Silenced [] s ok_s sub =
      returned (ok_s, refl, refl, refl, λ x z. absurd (z refl), λ x z. z, refl)
  reset_all-Silenced (c ∷ cs) s ok_s sub =
      let one : times c s.in_use ≡ 1 = ground (arith, sub c, ok_s.once c, ok_s.placed c) in
      Returns-bind (reset-Silenced c s ok_s one) λ _ d ((ok_d, i, l, n, all, keep, f), upd).
        Returns-mono (reset_all-Silenced cs d ok_d (λ x. ground (arith, sub x, ap (times x) i)))
          λ _ e (ok_e, j, m, k, rest, keep', g). (
            ok_e,
            j ∙ i,
            m ∙ l,
            omega (arith, n, k),
            λ x z. elim (Bool-cases (x == c)) [
              | inl y ↦ keep' x (all x (ground arith))
              | inr y ↦ rest x (ground arith)
            ],
            λ x z. keep' x (keep x z),
            g ∙ f,
          )

  -- `shutdown` of a sound service, if the write to the eventfd of `on_work_finished` succeeds,
  -- returns: the service is sound, the same completions are in use for the same handles, none
  -- stores a handler, and the count of work has gone down by the number of handlers that there
  -- were.
  pub shutdown-Silenced :
      (s : Service p H)
      → Sound s
      → Returns
          (λ _ d.
            Sound d
            × (d.in_use ≡ s.in_use)
            × (d.held ≡ s.held)
            × ((x : Ptr) → d.wrapped x ≡ none)
            × (d.ctx.work + units s.wrapped s.in_use ≡ s.ctx.work))
          (shutdown s)
  unfolding shutdown
  shutdown-Silenced s ok_s =
      Returns-mono (reset_all-Silenced s.in_use s ok_s (λ x. omega arith))
        λ _ d (ok_d, i, l, n, all, keep, f).
          let none_left : (x : Ptr) → d.wrapped x ≡ none = λ x.
            elim (Bool-cases (times x s.in_use == 0)) [
              | inl z ↦ keep x (ok_s.bare x (ground arith))
              | inr z ↦ all x (ground arith)
            ] in
          (ok_d, i, l, none_left, omega (arith, n, no_units d.wrapped d.in_use none_left))

  -- After `shutdown` of a sound service, which returns if the write to the eventfd of
  -- `on_work_finished` succeeds, `complete` of any completion fails an assertion.
  pub complete-shutdown :
      (call : H → Cqe p.Completion → M p H (Unit {0})) (c : Ptr) (cqe : Cqe p.Completion)
      (s : Service p H)
      → Sound s
      → Returns (λ _ d. complete call c cqe d ≡ abort) (shutdown s)
  unfolding complete
  complete-shutdown call c cqe s ok_s =
      Returns-mono (shutdown-Silenced s ok_s)
        λ _ d (ok_d, i, l, none_left, n). ground (arith, none_left c)

-- A vector with capacity that is released while storage is to be had is the next one to be
-- acquired, empty and with the capacity that it had, whatever number of buffers is asked for.
pub acquire_iovs-release_iovs :
    {p : Platform} {H : Type 0} (capacity_for : ℕ → ℕ) (n : ℕ) (c : Ptr) (s : Service p H)
    → 0 < (s.iovs c).capacity
    → (p.allocate s.ctx.world).0 ≡ true
    → acquire_iovs capacity_for n (release_iovs c s)
      ≡ ok
          (record { size = 0; capacity = (s.iovs c).capacity })
          (record (release_iovs c s) { cache = s.cache })
unfolding acquire_iovs release_iovs
acquire_iovs-release_iovs capacity_for n c s pos room = ground (arith, room)
