-- ===== src/EventfdQueue/Hands.antt =====
-- What the producers have in hand, all but one of them, and a run that has ended.
use asio_uring.Base.{
  ℕ, ◌+◌, ◌≤◌, ◌≡◌, ◌≢◌, List, [], ◌∷◌, ◌++◌, arith, Exception, Run, ok, throw, Safe, returns,
  throws, subst, ◌∙◌,
}
use asio_uring.EventfdQueue.Nodes.{Ptr, Queue}
use asio_uring.EventfdQueue.Chains.{times, times-append}
use asio_uring.EventfdQueue.Laws.{Among}
use asio_uring.EventfdQueue.Threads.{Producer, idle, got, filled, linked}
use asio_uring.EventfdQueue.Parts.{hand, Fine, owed}

module _ {T : Type 0} where
  abbrev pub hands_of : List (Producer T) → List Ptr
  hands_of [] = []
  hands_of (x ∷ xs) = hand x ++ hands_of xs

  abbrev pub debts : List (Producer T) → ℕ
  debts [] = 0
  debts (x ∷ xs) = owed x + debts xs

  abbrev pub AllFine : Queue T ℕ → List (Producer T) → Type 0
  AllFine q [] = Unit {0}
  AllFine q (x ∷ xs) = Fine q x × AllFine q xs

  pub times-hands :
      (p : Ptr) (before after : List (Producer T)) (x : Producer T)
      → times p (hands_of (before ++ x ∷ after))
        ≡ times p (hand x) + (times p (hands_of before) + times p (hands_of after))
  times-hands p [] after x = times-append p (hand x) (hands_of after) ∙ omega arith
  times-hands p (y ∷ before) after x = omega (
    arith,
    times-append p (hand y) (hands_of (before ++ x ∷ after)),
    times-hands p before after x,
    times-append p (hand y) (hands_of before),
  )

  pub debts-append :
      (before after : List (Producer T)) (x : Producer T)
      → debts (before ++ x ∷ after) ≡ owed x + (debts before + debts after)
  debts-append [] after x = omega arith
  debts-append (y ∷ before) after x = omega (arith, debts-append before after x)

  pub split-Fine :
      (q : Queue T ℕ) (before after : List (Producer T)) (x : Producer T)
      → AllFine q (before ++ x ∷ after)
      → AllFine q before × Fine q x × AllFine q after
  split-Fine q [] after x (f, g) = (tt, f, g)
  split-Fine q (y ∷ before) after x (f, g) =
      let (b, h, a) = split-Fine q before after x g in ((f, b), h, a)

  pub join-Fine :
      (q : Queue T ℕ) (before after : List (Producer T)) (x : Producer T)
      → AllFine q before
      → Fine q x
      → AllFine q after
      → AllFine q (before ++ x ∷ after)
  join-Fine q [] after x b h a = (h, a)
  join-Fine q (y ∷ before) after x (f, b) h a = (f, join-Fine q before after x b h a)

  -- The nodes `rest` are what they were.
  abbrev pub Same : List Ptr → Queue T ℕ → Queue T ℕ → Type 0
  Same rest q d =
      ((z : Ptr) → times z rest ≢ 0 → d.next z ≡ q.next z)
      × ((z : Ptr) → times z rest ≢ 0 → d.storage z ≡ q.storage z)

  kept-Fine :
      (rest : List Ptr) (q d : Queue T ℕ) (x : Producer T)
      → Same rest q d
      → ((z : Ptr) → times z (hand x) ≤ times z rest)
      → Fine q x
      → Fine d x
  kept-Fine rest q d idle k l f = tt
  kept-Fine rest q d (got p) (n, s) l (ne, z) = (ne, n p (ground (arith, l p)) ∙ z)
  kept-Fine rest q d (filled p v) (n, s) l (ne, z, h) =
      (ne, n p (ground (arith, l p)) ∙ z, s p (ground (arith, l p)) ∙ h)
  kept-Fine rest q d linked k l f = tt

  pub all-Fine :
      (rest : List Ptr) (q d : Queue T ℕ) (xs : List (Producer T))
      → Same rest q d
      → ((z : Ptr) → times z (hands_of xs) ≤ times z rest)
      → AllFine q xs
      → AllFine d xs
  all-Fine rest q d [] k l f = tt
  all-Fine rest q d (x ∷ xs) k l (f, g) = (
    kept-Fine rest q d x k (λ z. omega (arith, l z, times-append z (hand x) (hands_of xs))) f,
    all-Fine rest q d xs k (λ z. omega (arith, l z, times-append z (hand x) (hands_of xs))) g,
  )

  pub Among-times :
      (ds es : List Ptr) (q : Queue T ℕ) (vs : List T)
      → ((z : Ptr) → times z ds ≡ times z es)
      → Among ds q vs
      → Among es q vs
  Among-times ds es q vs same (ps, fs, s) = (
    ps,
    fs,
    record {
      queued = s.queued;
      ends = s.ends;
      pool = s.pool;
      holds = s.holds;
      placed = λ z. omega (arith, s.placed z, same z);
      once = s.once;
    },
  )

  pub Safe-ok :
      {A : Type 0} {P : A → Queue T ℕ → Type 0} {Q : Queue T ℕ → Type 0} {r : Run (Queue T ℕ) A}
      {a : A} {d : Queue T ℕ}
      → Safe P Q r
      → r ≡ ok a d
      → P a d
  Safe-ok {A} {P} {Q} {r} {a} {d} s e = unpack (subst (Safe P Q) e s)
    where
      unpack : Safe P Q (ok a d) → P a d
      unpack (returns h) = h

  pub Safe-threw :
      {A : Type 0} {P : A → Queue T ℕ → Type 0} {Q : Queue T ℕ → Type 0} {r : Run (Queue T ℕ) A}
      {x : Exception} {d : Queue T ℕ}
      → Safe P Q r
      → r ≡ throw x d
      → Q d
  Safe-threw {A} {P} {Q} {r} {x} {d} s e = unpack (subst (Safe P Q) e s)
    where
      unpack : Safe P Q (throw x d) → Q d
      unpack (throws h) = h
