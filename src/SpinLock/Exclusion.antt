-- ===== src/SpinLock/Exclusion.antt =====
-- The spin lock excludes, asserts truly and does not deadlock.
use asio_uring.Base.{
  ℕ, ◌≡◌, refl, ◌≢◌, ◌⊎◌, inl, inr, Bool, true, false, not, if◌then◌else◌, arith, Bool-cases, sym,
  ◌∙◌,
}
use asio_uring.SpinLock.{
  try_lock, Pc, outside, spinning, holding, faulted, lock_round, tried, unlock_check, Move,
  call_lock, spin, call_try_lock, call_unlock, clear, place, System, pick, Reach, start, later,
  critical,
}

-- The flag is clear and nobody is past `lock`, or it is set and exactly one thread is.
data Owner (flag : Bool) (pc : ℕ → Pc) : Type 0 where
  nobody : flag ≡ false → ((i : ℕ) → critical (pc i) ≡ false) → Owner flag pc
  owned :
      (i : ℕ)
      → flag ≡ true
      → critical (pc i) ≡ true
      → ((j : ℕ) → critical (pc j) ≡ true → i ≡ j)
      → Owner flag pc

record Inv (s : System) : Type 0 where
  owner : Owner s.flag s.pc
  sound : (i : ℕ) → s.pc i ≢ faulted

-- A move that changes neither the flag nor whether the thread is past `lock`.
same-Owner :
    (flag f : Bool) (pc : ℕ → Pc) (i : ℕ) (p : Pc)
    → f ≡ flag
    → critical p ≡ critical (pc i)
    → Owner flag pc
    → Owner f (place pc i p)
same-Owner flag f pc i p e c (nobody off none) =
    nobody (ground arith) (λ j. ground (arith, none j, none i))
same-Owner flag f pc i p e c (owned k on here only) =
    owned k (ground arith) (ground arith) (λ j h. ground (arith, only j, only i))

sound_place :
    (pc : ℕ → Pc) (i : ℕ) (p : Pc)
    → ((j : ℕ) → pc j ≢ faulted)
    → p ≢ faulted
    → (j : ℕ) → place pc i p j ≢ faulted
sound_place pc i p h ne j = ground (arith, h j)

-- The round of `lock` or the call of `try_lock` of a thread that is not past `lock`.
attempt-Owner :
    (flag : Bool) (pc : ℕ → Pc) (i : ℕ) (p lost : Pc)
    → critical (pc i) ≡ false
    → critical lost ≡ false
    → p ≡ (if not flag then holding else lost)
    → Owner flag pc
    → Owner true (place pc i p)
attempt-Owner flag pc i p lost out l e (nobody off none) =
    owned i refl (ground arith) (λ j h. ground (arith, none j))
attempt-Owner flag pc i p lost out l e (owned k on here only) =
    same-Owner flag true pc i p (ground arith) (ground arith) (owned k on here only)

unlock-Owner :
    (flag : Bool) (pc : ℕ → Pc) (i : ℕ) → critical (pc i) ≡ true → Owner flag pc → flag ≡ true
unlock-Owner flag pc i c (nobody off none) = ground (arith, none i)
unlock-Owner flag pc i c (owned k on here only) = on

clear-Owner :
    (flag : Bool) (pc : ℕ → Pc) (i : ℕ)
    → critical (pc i) ≡ true
    → Owner flag pc
    → Owner false (place pc i outside)
clear-Owner flag pc i c (nobody off none) = absurd (ground (arith, none i))
clear-Owner flag pc i c (owned k on here only) =
    nobody refl (λ j. ground (arith, only i, only j, Bool-cases (critical (pc j))))

Move-Inv :
    (flag f : Bool) (pc : ℕ → Pc) (i : ℕ) (q p : Pc)
    → pc i ≡ q
    → Move flag q f p
    → Inv (record { flag = flag; pc = pc })
    → Inv (record { flag = f; pc = place pc i p })
unfolding try_lock lock_round tried unlock_check
Move-Inv flag f pc i q p at call_lock v = record {
  owner = same-Owner flag flag pc i spinning refl (ground arith) v.owner;
  sound = sound_place pc i spinning v.sound (λ e. cc);
}
Move-Inv flag f pc i q p at (spin e) v = record {
  owner = attempt-Owner flag pc i p spinning (ground arith) refl e v.owner;
  sound = sound_place pc i p v.sound (ground arith);
}
Move-Inv flag f pc i q p at (call_try_lock e) v = record {
  owner = attempt-Owner flag pc i p outside (ground arith) refl e v.owner;
  sound = sound_place pc i p v.sound (ground arith);
}
Move-Inv flag f pc i q p at (call_unlock e) v =
    let on : flag ≡ true = unlock-Owner flag pc i (ground arith) v.owner in
    record {
      owner = same-Owner flag true pc i p (ground arith) (ground arith) v.owner;
      sound = sound_place pc i p v.sound (ground arith);
    }
Move-Inv flag f pc i q p at clear v = record {
  owner = clear-Owner flag pc i (ground arith) v.owner;
  sound = sound_place pc i outside v.sound (λ e. cc);
}

Reach-Inv : {s : System} → Reach s → Inv s
Reach-Inv start = record { owner = nobody refl (λ i. refl); sound = λ i e. cc }
Reach-Inv (later {s} r (pick i {f} {p} m)) =
    Move-Inv s.flag f s.pc i (s.pc i) p refl m (Reach-Inv r)

-- What an invariant state promises.
abbrev pub Excludes : System → Type 0
Excludes s =
    ((i j : ℕ) → critical (s.pc i) ≡ true → critical (s.pc j) ≡ true → i ≡ j)
    × ((i : ℕ) → s.pc i ≢ faulted)
    × ((i : ℕ)
        → s.pc i ≡ spinning
        → ((j : ℕ) × (critical (s.pc j) ≡ true)) ⊎ (lock_round s.flag ≡ holding))

-- In every state that threads can reach which call `lock`, `try_lock` and `unlock` in any order,
-- each unlocking only what it has locked: at most one thread is between the return of a lock and
-- the clearing of the flag, no assertion of `unlock` has failed, and for a thread in the loop of
-- `lock` either some thread is between those points or the next round acquires the lock.
pub Reach-Excludes : {s : System} → Reach s → Excludes s
unfolding lock_round try_lock
Reach-Excludes {s} r = by_owner (Reach-Inv r).owner
  where
    by_owner : Owner s.flag s.pc → Excludes s
    by_owner (nobody off none) =
        (λ i j a b. ground (arith, none i), (Reach-Inv r).sound, λ i e. inr (ground arith))
    by_owner (owned k on here only) =
        (λ i j a b. sym (only i a) ∙ only j b, (Reach-Inv r).sound, λ i e. inl (k, here))
