-- ===== src/Base/Outcome.antt =====
-- The outcome of a run: no abort, and a postcondition on either exit. `waits` is code that has not
-- returned.
use mathlib.Core.Path.{◌≡◌, refl}
use asio_uring.Base.Effect.{
  Exception, Run, ok, throw, abort, running, and_then, finally, on_exit, check_that, map_state,
}
use mathlib.Core.Bool.{Bool, true, false}

pub data Safe {S A : Type 0} (P : A → S → Type 0) (Q : S → Type 0) : Run S A → Type 0 where
  returns : {a : A} {s : S} → P a s → Safe P Q (ok a s)
  throws : {e : Exception} {s : S} → Q s → Safe P Q (throw e s)
  waits : {s : S} → Safe P Q (running s)

module _ {S A : Type 0} {P : A → S → Type 0} {Q : S → Type 0} where
  pub Safe-bind :
      {B : Type 0} {R : B → S → Type 0} {r : Run S A} {k : A → S → Run S B}
      → Safe P Q r
      → ((a : A) (s : S) → P a s → Safe R Q (k a s))
      → Safe R Q (and_then r k)
  Safe-bind (returns h) next = next _ _ h
  Safe-bind (throws h) next = throws h
  Safe-bind waits next = waits

  pub Safe-mono :
      {R : A → S → Type 0} {T : S → Type 0} {r : Run S A}
      → Safe P Q r
      → ((a : A) (s : S) → P a s → R a s)
      → ((s : S) → Q s → T s)
      → Safe R T r
  Safe-mono (returns h) f g = returns (f _ _ h)
  Safe-mono (throws h) f g = throws (g _ h)
  Safe-mono waits f g = waits

  pub Safe-finally :
      {R : A → S → Type 0} {T : S → Type 0} {r : Run S A} (f : S → S)
      → Safe P Q r
      → ((a : A) (s : S) → P a s → R a (f s))
      → ((s : S) → Q s → T (f s))
      → Safe R T (finally r f)
  Safe-finally f (returns h) g k = returns (g _ _ h)
  Safe-finally f (throws h) g k = throws (k _ h)
  Safe-finally f waits g k = waits

-- Code that runs on the way out of either exit, and may itself throw.
pub Safe-on_exit :
    {S A : Type 0} {P R : S → Type 0} {r : Run S A} {f : S → Run S (Unit {0})}
    → Safe (λ _ s. P s) P r
    → ((s : S) → P s → Safe (λ _ t. R t) R (f s))
    → Safe (λ _ t. R t) R (on_exit r f)
Safe-on_exit (returns {s} h) k = Safe-bind (k s h) λ _ t x. returns x
Safe-on_exit (throws {s} h) k = Safe-bind (k s h) λ _ t x. throws x
Safe-on_exit waits k = waits

pub Safe-map_state :
    {S T A : Type 0} {P : A → S → Type 0} {Q : S → Type 0} {R : A → T → Type 0} {U : T → Type 0}
    {r : Run S A} (f : S → T)
    → Safe P Q r
    → ((a : A) (s : S) → P a s → R a (f s))
    → ((s : S) → Q s → U (f s))
    → Safe R U (map_state f r)
Safe-map_state f (returns h) g k = returns (g _ _ h)
Safe-map_state f (throws h) g k = throws (k _ h)
Safe-map_state f waits g k = waits

-- What holds of a run whose outcome is known.
abbrev pub Post : {S A : Type 0} → (A → S → Type 0) → (S → Type 0) → Run S A → Type 0
Post P Q (ok a s) = P a s
Post P Q (throw e s) = Q s
Post P Q abort = ⊥
Post P Q (running s) = Unit {0}

pub Safe-Post :
    {S A : Type 0} {P : A → S → Type 0} {Q : S → Type 0} {r : Run S A} → Safe P Q r → Post P Q r
Safe-Post (returns h) = h
Safe-Post (throws h) = h
Safe-Post waits = tt

-- What holds of the state that a run ends in, if it does.
abbrev pub Leads : {S A : Type 0} → (S → Type 0) → Run S A → Type 0
Leads P (ok a s) = P s
Leads P (throw e s) = P s
Leads P abort = Unit {0}
Leads P (running s) = Unit {0}

pub Leads-all : {S A : Type 0} {P : S → Type 0} (r : Run S A) → ((s : S) → P s) → Leads P r
Leads-all (ok a s) h = h s
Leads-all (throw e s) h = h s
Leads-all abort h = tt
Leads-all (running s) h = tt

pub Leads-bind :
    {S A B : Type 0} {P : S → Type 0} (r : Run S A) (k : A → S → Run S B)
    → Leads P r
    → ((a : A) (s : S) → P s → Leads P (k a s))
    → Leads P (and_then r k)
Leads-bind (ok a s) k h next = next a s h
Leads-bind (throw e s) k h next = h
Leads-bind abort k h next = tt
Leads-bind (running s) k h next = tt

pub Leads-map_state :
    {S T A : Type 0} (P : T → Type 0) (f : S → T) (r : Run S A)
    → Leads (λ s. P (f s)) r
    → Leads P (map_state f r)
Leads-map_state P f (ok a s) h = h
Leads-map_state P f (throw e s) h = h
Leads-map_state P f abort h = tt
Leads-map_state P f (running s) h = tt

pub check-Leads : {S : Type 0} (P : S → Type 0) (b : Bool) (s : S) → P s → Leads P (check_that b s)
check-Leads P true s h = h
check-Leads P false s h = tt

pub on_exit-Leads :
    {S : Type 0} {P : S → Type 0} (r : Run S (Unit {0})) (f : S → Run S (Unit {0}))
    → Leads P r
    → ((s : S) → P s → Leads P (f s))
    → Leads P (on_exit r f)
on_exit-Leads (ok a s) f h k = Leads-bind (f s) _ (k s h) λ _ t x. x
on_exit-Leads (throw e s) f h k = Leads-bind (f s) _ (k s h) λ _ t x. x
on_exit-Leads abort f h k = tt
on_exit-Leads (running s) f h k = tt

pub Safe-with :
    {S A : Type 0} {P : A → S → Type 0} {Q K : S → Type 0} {r : Run S A}
    → Safe P Q r
    → Leads K r
    → Safe (λ a s. P a s × K s) (λ s. Q s × K s) r
Safe-with (returns h) k = returns (h, k)
Safe-with (throws h) k = throws (h, k)
Safe-with waits k = waits

-- The run returns, and its result meets the postcondition.
pub data Returns {S A : Type 0} (P : A → S → Type 0) : Run S A → Type 0 where
  returned : {a : A} {s : S} → P a s → Returns P (ok a s)

pub Returns-bind :
    {S A B : Type 0} {P : A → S → Type 0} {R : B → S → Type 0} {r : Run S A} {k : A → S → Run S B}
    → Returns P r
    → ((a : A) (s : S) → P a s → Returns R (k a s))
    → Returns R (and_then r k)
Returns-bind (returned h) next = next _ _ h

pub Returns-mono :
    {S A : Type 0} {P R : A → S → Type 0} {r : Run S A}
    → Returns P r
    → ((a : A) (s : S) → P a s → R a s)
    → Returns R r
Returns-mono (returned h) f = returned (f _ _ h)

pub Returns-map_state :
    {S T A : Type 0} {P : A → S → Type 0} {R : A → T → Type 0} {r : Run S A} (f : S → T)
    → Returns P r
    → ((a : A) (s : S) → P a s → R a (f s))
    → Returns R (map_state f r)
Returns-map_state f (returned h) g = returned (g _ _ h)

pub Returns-Safe :
    {S A : Type 0} {P : A → S → Type 0} {Q : S → Type 0} {r : Run S A} → Returns P r → Safe P Q r
Returns-Safe (returned h) = returns h

pub Returns-value :
    {S A : Type 0} {P : A → S → Type 0} {r : Run S A}
    → Returns P r
    → (a : A) × (s : S) × (r ≡ ok a s) × P a s
Returns-value (returned {a} {s} h) = (a, s, refl, h)

-- Two postconditions of one run.
pub Safe-both :
    {S A : Type 0} {P R : A → S → Type 0} {Q U : S → Type 0} {r : Run S A}
    → Safe P Q r
    → Safe R U r
    → Safe (λ a s. P a s × R a s) (λ s. Q s × U s) r
Safe-both (returns h) (returns k) = returns (h, k)
Safe-both (throws h) (throws k) = throws (h, k)
Safe-both waits k = waits
