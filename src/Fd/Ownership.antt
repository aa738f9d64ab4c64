-- ===== src/Fd/Ownership.antt =====
-- Each open descriptor has one owner, and is closed once.
use asio_uring.Base.{
  ℕ, ◌≡◌, refl, ◌≢◌, ◌⊎◌, ◌==◌, Bool-cases, inl, inr, true, false, Option, none, some, ◌∷◌, has,
  done, failed, blocks, Safe, Safe-bind, Returns, returned, Returns-bind, Returns-mono,
  Returns-Safe, returns, throws, waits, arith,
}
use asio_uring.EventfdQueue.Nodes.{update, erase}
use asio_uring.EventfdQueue.Chains.{times, has-times, times-erase}
use asio_uring.Fd.{
  Table, maybe_close, empty, adopt, move, assign, destroy, Op, makes, adopts, moves, assigns,
  destroys, exec,
}

-- A handle of an object is open, once; no two objects have the same; an open descriptor has its owner.
pub record Owned (t : Table) : Type 0 where
  pub live : (i h : ℕ) → t.handle i ≡ some h → times h t.opened ≡ 1
  pub unique : (i j h : ℕ) → t.handle i ≡ some h → t.handle j ≡ some h → i ≡ j
  pub owner : (h : ℕ) → times h t.opened ≢ 0 → (i : ℕ) × (t.handle i ≡ some h)

-- A constructor runs where no object is; a call that succeeds returns a descriptor that is not open;
-- and an object is not moved to itself.
abbrev pub Valid : Op → Table → Type 0
Valid (makes i) t = t.handle i ≡ none
Valid (adopts i (done h)) t = (t.handle i ≡ none) × (times h t.opened ≡ 0)
Valid (adopts i _) t = t.handle i ≡ none
Valid (moves i other) t = (t.handle i ≡ none) × (i ≢ other)
Valid (assigns i other) t = i ≢ other
Valid (destroys i) t = Unit {0}

blank-Owned :
    (i : ℕ) (t : Table)
    → t.handle i ≡ none
    → Owned t
    → Owned (record t { handle = update t.handle i none })
blank-Owned i t z o = record {
  live = λ j h e. ground (arith, o.live j h);
  unique = λ j k h e f. ground (arith, o.unique j k h);
  owner = λ h ne. let (j, e) = o.owner h ne in (j, ground arith);
}

adopt-Owned :
    (i h : ℕ) (t : Table)
    → t.handle i ≡ none
    → times h t.opened ≡ 0
    → Owned t
    → Owned (record t { handle = update t.handle i (some h); opened = h ∷ t.opened })
adopt-Owned i h t z new o = record {
  live = λ j k e. ground (arith, o.live j k);
  unique = λ j k l e f. ground (arith, o.unique j k l, o.live j l, o.live k l);
  owner = λ k ne. elim (Bool-cases (k == h)) [
    | inl e ↦ (i, ground arith)
    | inr e ↦ let (j, f) = o.owner k (ground arith) in (j, ground arith)
  ];
}

-- The handle of `j` goes to `i`, which has none.
transfer-Owned :
    (i j : ℕ) (t : Table) (g : ℕ → Option ℕ)
    → t.handle i ≡ none
    → i ≢ j
    → g i ≡ t.handle j
    → g j ≡ none
    → ((k : ℕ) → k ≢ i → k ≢ j → g k ≡ t.handle k)
    → Owned t
    → Owned (record t { handle = g })
transfer-Owned i j t g z ne at_i at_j rest o = record {
  live = λ k h e. let (l, f, w) = came_from k h e in o.live l h f;
  unique = λ k l h e f.
      let (m, p, u) = came_from k h e in
      let (n, q, w) = came_from l h f in let same = o.unique m n h p q in ground arith;
  owner = λ h n.
      let (k, e) = o.owner h n in
      elim (Bool-cases (k == j)) [
        | inl s ↦ (i, ground arith)
        | inr s ↦ (k, ground (arith, rest k))
      ];
}
  where
    came_from :
        (k h : ℕ)
        → g k ≡ some h
        → (l : ℕ) × (t.handle l ≡ some h) × (((k ≡ i) × (l ≡ j)) ⊎ ((k ≢ i) × (k ≡ l) × (l ≢ j)))
    came_from k h e = elim (Bool-cases (k == i)) [
      | inl s ↦ (j, ground arith, inl (ground arith))
      | inr s ↦ (k, ground (arith, rest k), inr (ground arith))
    ]

pub move-Owned :
    (i j : ℕ) (t : Table)
    → t.handle i ≡ none
    → i ≢ j
    → Owned t
    → Owned (record t { handle = update (update t.handle i (t.handle j)) j none })
move-Owned i j t z ne =
    transfer-Owned i j t _ z ne (ground arith) (ground arith) (λ k a b. ground arith)

pub closed-Owned :
    (i h : ℕ) (t : Table)
    → t.handle i ≡ some h
    → has h t.opened ≡ true
    → Owned t
    → Owned (record { handle = update t.handle i none; opened = erase h t.opened })
closed-Owned i h t e here o = record {
  live = λ j k f. ground (arith, times-erase h k t.opened, o.live j k, o.unique i j k);
  unique = λ j k l f g. ground (arith, o.unique j k l);
  owner = λ k ne.
      let (j, f) = o.owner k (ground (arith, times-erase h k t.opened)) in
      (j, ground (arith, times-erase h k t.opened, o.live i h e));
}

-- The object at `i` closes what it has.
close-Owned :
    (i : ℕ) (t : Table) (o : Option ℕ)
    → t.handle i ≡ o
    → Owned t
    → Returns
        (λ _ d. Owned (record d { handle = update d.handle i none }) × (d.handle ≡ t.handle))
        (maybe_close o t)
unfolding maybe_close
close-Owned i t none e o = returned (blank-Owned i t e o, refl)
close-Owned i t (some h) e o =
    let here : has h t.opened ≡ true = has-times h t.opened (ground (arith, o.live i h e)) in
    rw here (returned (closed-Owned i h t e here o, refl))

pub destroy-Owned :
    (i : ℕ) (t : Table) → Owned t → Returns (λ _ d. Owned d × (d.handle i ≡ none)) (destroy i t)
unfolding destroy
destroy-Owned i t o =
    Returns-bind (close-Owned i t (t.handle i) refl o) λ _ d x. returned (x.0, ground arith)

-- Each operation on an `fd`, where every handle of an object is open, once, no two objects have the
-- same handle and every open descriptor is the handle of an object: a constructor where no object
-- is, with a descriptor that was not open; a move from another object; the destructor. No assertion
-- fails, and the same holds after it, also when it throws.
pub exec-Owned :
    (op : Op) (t : Table) → Valid op t → Owned t → Safe (λ _ d. Owned d) Owned (exec op t)
unfolding exec empty adopt move assign
exec-Owned (makes i) t v o = returns (blank-Owned i t v o)
exec-Owned (adopts i (done h)) t v o = returns (adopt-Owned i h t v.0 v.1 o)
exec-Owned (adopts i (failed e)) t v o = throws o
exec-Owned (adopts i blocks) t v o = waits
exec-Owned (moves i other) t v o = returns (move-Owned i other t v.0 v.1 o)
exec-Owned (assigns i other) t v o =
    let apart : (other == i) ≡ false = ground arith in
    rw apart (
      Safe-bind (Returns-Safe (close-Owned i t (t.handle i) refl o)) λ _ d (x, same). returns (
        transfer-Owned i other (record d { handle = update d.handle i none }) _ (ground arith) v
          (ground (arith, same)) (ground arith) (λ k a b. ground arith) x))
exec-Owned (destroys i) t v o = Returns-Safe (Returns-mono (destroy-Owned i t o) (λ _ d x. x.0))
