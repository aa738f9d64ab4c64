-- ===== src/FileObject/Lifetime.antt =====
-- The descriptor is open while anything points to it, and closed by the last that does.
use asio_uring.Base.{
  ℕ, ◌+◌, ◌-◌, ◌<◌, ◌≡◌, refl, ap, ◌∙◌, ◌≢◌, ◌==◌, Bool, true, false, if◌then◌else◌, none, List, [],
  ◌∷◌, has, Safe, returns, throws, waits, Safe-bind, Returns, returned, Returns-Safe,
  Returns-map_state, Safe-mono, Run, ok, length, arith, Bool-cases, inl, inr, and_then, check_that,
  pure, not,
}
use asio_uring.EventfdQueue.Nodes.{erase}
use asio_uring.Fd.Ownership.{Owned, destroy-Owned}
use asio_uring.FileObject.{
  native_handle, File, M, use_count, release, wrap, discard, leave, invoke, reset, outstanding, Op,
  wraps, discards, invokes, resets, exec,
}

abbrev pub unit : Bool → ℕ
unit true = 1
unit false = 0

-- Each pointer is counted; the descriptor is there exactly while there is one.
pub record Shared (s : File) : Type 0 where
  pub owned : Owned s.table
  pub counted : s.count ≡ unit s.attached + length s.holding + s.locals
  pub live : 0 < s.count → s.table.handle s.block ≢ none
  pub gone : s.count ≡ 0 → s.table.handle s.block ≡ none

-- The account is right, and as many invocations are under way.
abbrev pub Settled : File → File → Type 0
Settled s d = Shared d × (d.locals ≡ s.locals)

abbrev pub Keeps : M (Unit {0}) → Type 0
Keeps f = (s : File) → Shared s → Safe (λ _ d. Settled s d) (Settled s) (f s)

-- A handler is made from a file_object that has its descriptor, and is invoked or destroyed once.
abbrev pub Valid : Op → File → Type 0
Valid (wraps c) s = s.attached ≡ true
Valid (discards c) s = has c s.holding ≡ true
Valid (invokes c f) s = (has c s.holding ≡ true) × Keeps f
Valid resets s = Unit {0}

pub length-erase : (c : ℕ) (cs : List ℕ) → has c cs ≡ true → length (erase c cs) + 1 ≡ length cs
length-erase c [] h = cc
length-erase c (x ∷ cs) h = ground (arith, length-erase c cs)

-- Nor do the pointers of handlers and of the file_object differ.
abbrev pub Kept : File → File → Type 0
Kept s d = Settled s d × (d.holding ≡ s.holding) × (d.attached ≡ s.attached)

-- A pointer that has been taken out of the account is released.
pub release-Returns :
    (s : File)
    → Owned s.table
    → s.count ≡ unit s.attached + length s.holding + s.locals + 1
    → s.table.handle s.block ≢ none
    → Returns (λ _ d. Kept s d) (release s)
unfolding release
release-Returns s o c l = elim (Bool-cases (s.count == 1)) [
  | inl last ↦ rw last (
      Returns-map_state (λ t. record s { count = 0; table = t }) (destroy-Owned s.block s.table o)
        (λ _ t (x, z). (
          (
            record { owned = x; counted = ground arith; live = λ h. ground arith; gone = λ _. z },
            refl,
          ),
          refl,
          refl,
        )))
  | inr more ↦ rw more (
      returned (
        (
          record { owned = o; counted = ground arith; live = λ _. l; gone = λ h. ground arith },
          refl,
        ),
        refl,
        refl,
      ))
]

pub release-Kept :
    (s : File)
    → Owned s.table
    → s.count ≡ unit s.attached + length s.holding + s.locals + 1
    → s.table.handle s.block ≢ none
    → Safe (λ _ d. Kept s d) (λ d. ⊥) (release s)
release-Kept s o c l = Returns-Safe (release-Returns s o c l)

release-Shared :
    (s : File)
    → Owned s.table
    → s.count ≡ unit s.attached + length s.holding + s.locals + 1
    → s.table.handle s.block ≢ none
    → Safe (λ _ d. Settled s d) (Settled s) (release s)
release-Shared s o c l = Safe-mono (release-Kept s o c l) (λ _ d x. x.0) (λ d. absurd)

-- An invocation that is under way gives up its local pointer.
close-Shared :
    (s d : File)
    → Settled (record s { locals = s.locals + 1 }) d
    → Safe (λ _ f. Settled s f) (Settled s) (release (record d { locals = d.locals - 1 }))
close-Shared s d (x, e) =
    let same : d.locals - 1 ≡ s.locals = ground arith in
    Safe-mono
      (release-Shared (record d { locals = d.locals - 1 }) x.owned (ground (arith, x.counted))
        (x.live (ground (arith, x.counted))))
      (λ _ f y. (y.0, y.1 ∙ same)) (λ f y. (y.0, y.1 ∙ same))

leave-Shared :
    (s : File) {r : Run File (Unit {0})}
    → Safe
        (λ _ d. Settled (record s { locals = s.locals + 1 }) d)
        (Settled (record s { locals = s.locals + 1 }))
        r
    → Safe (λ _ d. Settled s d) (Settled s) (leave r)
leave-Shared s (returns {s = d} h) = close-Shared s d h
leave-Shared s (throws {s = d} h) = Safe-bind (close-Shared s d h) λ _ f y. throws y
leave-Shared s waits = waits

-- What is held is live.
pub held-live :
    (s : File) → Shared s → 0 < unit s.attached + length s.holding → s.table.handle s.block ≢ none
held-live s x h = x.live (ground (arith, x.counted))

one_less :
    (s : File) (n m : ℕ)
    → n ≡ m + 1
    → and_then (check_that (not (n == 0)) s) (λ _. pure (n - 1)) ≡ ok m s
one_less s n m e =
    let known : (n == 0) ≡ false = ground arith in rw known (ap (λ k. ok k s) (ground arith))

-- What else points to the descriptor of a file_object that has not been reset
pub outstanding-Shared :
    (s : File) → Shared s → s.attached ≡ true → outstanding s ≡ ok (length s.holding + s.locals) s
unfolding outstanding
outstanding-Shared s x a =
    one_less s (use_count s) (length s.holding + s.locals) (ground (arith, x.counted))

reset-Shared :
    (s : File) (b : Bool)
    → s.attached ≡ b
    → Shared s
    → Safe
        (λ _ d. Settled s d)
        (Settled s)
        (if b then release (record s { attached = false }) else ok tt s)
reset-Shared s true a x =
    release-Shared (record s { attached = false }) x.owned (ground (arith, x.counted))
      (held-live s x (ground arith))
reset-Shared s false a x = returns (x, refl)

pub native-attached :
    (s : File) → s.attached ≡ true → native_handle s ≡ ok (s.table.handle s.block) s
unfolding native_handle
native-attached s a = ap (λ b. and_then (check_that b s) (λ _. pure (s.table.handle s.block))) a

-- One more handler holds the descriptor.
abbrev pub wrapped : ℕ → File → File
wrapped c s = record s { count = s.count + 1; holding = c ∷ s.holding }

pub wrap-attached : (c : ℕ) (s : File) → s.attached ≡ true → wrap c s ≡ ok tt (wrapped c s)
unfolding wrap
wrap-attached c s a = ap (λ b. and_then (check_that b s) (λ _ t. ok tt (wrapped c t))) a

pub wrapped-Shared : (c : ℕ) (s : File) → s.attached ≡ true → Shared s → Shared (wrapped c s)
wrapped-Shared c s a x = record {
  owned = x.owned;
  counted = ground (arith, x.counted);
  live = λ _. held-live s x (ground arith);
  gone = λ h. ground arith;
}

pub discard-Returns :
    (c : ℕ) (s : File)
    → has c s.holding ≡ true
    → Shared s
    → Returns (λ _ d. Kept (record s { holding = erase c s.holding }) d) (discard c s)
unfolding discard
discard-Returns c s v x =
    release-Returns (record s { holding = erase c s.holding }) x.owned
      (ground (arith, x.counted, length-erase c s.holding v))
      (held-live s x (ground (arith, length-erase c s.holding v)))

pub discard-Kept :
    (c : ℕ) (s : File)
    → has c s.holding ≡ true
    → Shared s
    → Safe
        (λ _ d. Kept (record s { holding = erase c s.holding }) d)
        (Kept (record s { holding = erase c s.holding }))
        (discard c s)
discard-Kept c s v x = Returns-Safe (discard-Returns c s v x)

-- Each operation on the descriptor of a file_object, while the account of its use count is right
-- (it is the number of pointers, and the descriptor is open exactly while there is one): wrapping a
-- handler of a file_object that has not been reset, discarding or invoking a handler that exists
-- with a function that keeps the account, or a reset. No assertion fails; whether it returns or
-- throws, the account is right and as many invocations are under way as before.
pub exec-Shared :
    (op : Op) (s : File) → Valid op s → Shared s → Safe (λ _ d. Settled s d) (Settled s) (exec op s)
unfolding exec invoke reset
exec-Shared (wraps c) s v x = rw (wrap-attached c s v) (returns (wrapped-Shared c s v x, refl))
exec-Shared (discards c) s v x = Safe-mono (discard-Kept c s v x) (λ _ d y. y.0) (λ d y. y.0)
exec-Shared (invokes c f) s v x = rw v.0 (
    leave-Shared (record s { holding = erase c s.holding })
      (v.1 (record s { holding = erase c s.holding; locals = s.locals + 1 })
        (record {
          owned = x.owned;
          counted = ground (arith, x.counted, length-erase c s.holding v.0);
          live = x.live;
          gone = x.gone;
        })))
exec-Shared resets s v x = reset-Shared s s.attached refl x
