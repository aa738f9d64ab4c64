-- ===== src/EventfdQueue/Parts.antt =====
-- What one part of an operation does, whatever the other threads have in hand.
use asio_uring.Base.{
  ℕ, zero, suc, ◌+◌, ◌≤◌, ◌≡◌, refl, ◌≢◌, ◌==◌, true, some, List, [], ◌∷◌, ◌++◌, has, length, arith,
  Safe, returns, throws, waits, Safe-bind, Safe-mono, Safe-both, Returns-Safe, subst, sym,
  Bool-cases, inl, inr,
}
use asio_uring.EventfdQueue.Nodes.{Ptr, null, Queue, Allocation, Built, built, not_built}
use asio_uring.EventfdQueue.Chains.{times, has-times}
use asio_uring.EventfdQueue.Laws.{Among, Fresh, get_node-Detached, release_node-Holds, link-Holds}
use asio_uring.EventfdQueue.Consume.{pop-Detached, recycle-Holds}
use asio_uring.EventfdQueue.Frames.{
  Beside, Beside-fewer, get_node-Beside, release_node-Beside, link-Beside, pop_node-Beside,
  recycle-Beside, set_storage-Among, set_storage-Beside,
}
use asio_uring.EventfdQueue.Threads.{
  Producer, idle, got, filled, linked, Consumer, ready, busy, advance, proceed, given, taken,
}
use mathlib.Core.List.{append-nil}

-- The node in hand
abbrev pub hand : {T : Type 0} → Producer T → List Ptr
hand (got p) = p ∷ []
hand (filled p v) = p ∷ []
hand _ = []

abbrev pub consumer_hand : {T : Type 0} → Consumer T → List Ptr
consumer_hand (busy n p v) = p ∷ []
consumer_hand (ready n) = []

-- It has no successor; and it holds the value once that has been put there.
abbrev pub Fine : {T W : Type 0} → Queue T W → Producer T → Type 0
Fine q (got p) = (p ≢ null) × (q.next p ≡ null)
Fine q (filled p v) = (p ≢ null) × (q.next p ≡ null) × (q.storage p ≡ some v)
Fine q _ = Unit {0}

abbrev pub ConsumerFine : {T : Type 0} → Consumer T → Type 0
ConsumerFine (busy n p v) = p ≢ null
ConsumerFine (ready n) = Unit {0}

-- A value that has been linked, and that the eventfd does not yet count
abbrev pub owed : {T : Type 0} → Producer T → ℕ
owed linked = 1
owed _ = 0

abbrev pub rounds : {T : Type 0} → Consumer T → ℕ
rounds (ready n) = n
rounds (busy n p v) = n

module _ {T : Type 0} where
  -- The node `rest` of others, the values and the count after a part of `emplace`
  pub record Advanced (rest : List Ptr) (vs : List T) (x : Producer T) (q : Queue T ℕ)
      (y : Producer T) (d : Queue T ℕ) : Type 0 where
    pub among : Among (hand y ++ rest) d (vs ++ given x)
    pub fine : Fine d y
    pub next_same : (z : Ptr) → times z rest ≢ 0 → d.next z ≡ q.next z
    pub storage_same : (z : Ptr) → times z rest ≢ 0 → d.storage z ≡ q.storage z
    pub counted : d.world + owed y ≡ q.world + owed x + length (given x)

  -- And when it throws
  abbrev pub Failed : List Ptr → List T → Queue T ℕ → Queue T ℕ → Type 0
  Failed rest vs q d = Among rest d vs × Beside rest q d

  none_more :
      {rest : List Ptr} {q : Queue T ℕ} {vs : List T} → Among rest q vs → Among rest q (vs ++ [])
  none_more {rest} {q} {vs} m = subst (Among rest q) (sym (append-nil vs)) m

  advance-idle :
      (a : Allocation) (b : Built T) (q : Queue T ℕ) (vs : List T) (rest : List Ptr)
      → Among rest q vs
      → Fresh a q
      → Safe (Advanced rest vs idle q) (Failed rest vs q) (advance a b idle q)
  unfolding advance
  advance-idle a b q vs rest (ps, fs, s) f =
      Safe-bind
        (Safe-mono
          (Safe-both (get_node-Detached a q ps vs fs s f)
            (get_node-Beside rest a q vs (ps, fs, s) f))
          (λ p d x. x) (λ d x. x))
        λ p d ((m, z, ne), k). returns (record {
          among = none_more m;
          fine = (ne, z);
          next_same = k.next_same;
          storage_same = k.storage_same;
          counted = omega (arith, k.world_same);
        })

  advance-filled :
      (a : Allocation) (b : Built T) (p : Ptr) (v : T) (q : Queue T ℕ) (vs : List T)
      (rest : List Ptr)
      → Among (p ∷ rest) q vs
      → Fine q (filled p v)
      → Safe (Advanced rest vs (filled p v) q) (Failed rest vs q) (advance a b (filled p v) q)
  unfolding advance
  advance-filled a b p v q vs rest (ps, fs, s) (ne, z, h) =
      Safe-bind
        (Safe-mono
          (Safe-both (link-Holds p v q ps vs fs s ne z h)
            (link-Beside (p ∷ rest) p q vs (ps, fs, s)))
          (λ _ d x. x) (λ d x. absurd x.0))
        λ _ d (m, more).
          let k = Beside-fewer rest p q d more in
          returns (record {
            among = m;
            fine = tt;
            next_same = k.next_same;
            storage_same = k.storage_same;
            counted = omega (arith, k.world_same);
          })

  advance-got :
      (a : Allocation) (b : Built T) (p : Ptr) (q : Queue T ℕ) (vs : List T) (rest : List Ptr)
      → Among (p ∷ rest) q vs
      → Fine q (got p)
      → Safe (Advanced rest vs (got p) q) (Failed rest vs q) (advance a b (got p) q)
  unfolding advance
  advance-got a (built v) p q vs rest (ps, fs, s) (ne, z) =
      let here : has p q.allocated ≡ true = has-times p q.allocated (ground (arith, s.placed p)) in
      let clear : (q.next p == null) ≡ true = ground arith in
      let k = set_storage-Beside rest p (some v) q vs (ps, fs, s) in
      simp (here, clear)
        (returns (record {
          among = none_more (set_storage-Among rest p (some v) q vs (ps, fs, s));
          fine = (ne, z, ground arith);
          next_same = k.next_same;
          storage_same = k.storage_same;
          counted = omega arith;
        }))
  advance-got a (not_built e) p q vs rest (ps, fs, s) (ne, z) =
      let here : has p q.allocated ≡ true = has-times p q.allocated (ground (arith, s.placed p)) in
      let clear : (q.next p == null) ≡ true = ground arith in
      simp (here, clear)
        (Safe-bind {P = λ _ d. ⊥}
          (Safe-bind
            (Safe-mono
              (Safe-both (release_node-Holds p q vs (ps, fs, s) ne)
                (release_node-Beside rest p q vs (ps, fs, s)))
              (λ _ d x. x) (λ d x. absurd x.0))
            λ _ d x. throws x)
          λ _ d. absurd)

  pub advance-Advanced :
      (a : Allocation) (b : Built T) (x : Producer T) (q : Queue T ℕ) (vs : List T)
      (rest : List Ptr)
      → Among (hand x ++ rest) q vs
      → Fine q x
      → Fresh a q
      → Safe (Advanced rest vs x q) (Failed rest vs q) (advance a b x q)
  unfolding advance
  advance-Advanced a b idle q vs rest m f new = advance-idle a b q vs rest m new
  advance-Advanced a b (got p) q vs rest m f new = advance-got a b p q vs rest m f
  advance-Advanced a b (filled p v) q vs rest m f new = advance-filled a b p v q vs rest m f
  advance-Advanced a b linked q vs rest (ps, fs, s) f new = returns (record {
    among = none_more (
      ps,
      fs,
      record {
        queued = s.queued;
        ends = s.ends;
        pool = s.pool;
        holds = s.holds;
        placed = s.placed;
        once = s.once;
      },
    );
    fine = tt;
    next_same = λ z h. refl;
    storage_same = λ z h. refl;
    counted = omega arith;
  })

  -- The values after a part of `consume`, of which what is taken was the first
  pub record Proceeded (rest : List Ptr) (vs : List T) (c : Consumer T) (q : Queue T ℕ)
      (y : Consumer T) (d : Queue T ℕ) : Type 0 where
    pub left : List T
    pub among : Among (consumer_hand y ++ rest) d left
    pub fine : ConsumerFine y
    pub first : vs ≡ taken y ++ left
    pub next_same : (z : Ptr) → times z rest ≢ 0 → d.next z ≡ q.next z
    pub storage_same : (z : Ptr) → times z rest ≢ 0 → d.storage z ≡ q.storage z
    pub counted : d.world + rounds y + length (taken y) ≡ q.world + rounds c

  pub proceed-Proceeded :
      (c : Consumer T) (q : Queue T ℕ) (vs : List T) (rest : List Ptr)
      → Among (consumer_hand c ++ rest) q vs
      → ConsumerFine c
      → rounds c ≤ length vs
      → Safe (Proceeded rest vs c q) (λ d. ⊥) (proceed c q)
  unfolding proceed
  proceed-Proceeded (ready zero) q vs rest (ps, fs, s) f le = elim (Bool-cases (q.world == 0)) [
    | inl e ↦ rw e waits
    | inr e ↦ rw e (
        returns (record {
          left = vs;
          among = (
            ps,
            fs,
            record {
              queued = s.queued;
              ends = s.ends;
              pool = s.pool;
              holds = s.holds;
              placed = s.placed;
              once = s.once;
            },
          );
          fine = tt;
          first = refl;
          next_same = λ z h. refl;
          storage_same = λ z h. refl;
          counted = omega arith;
        }))
  ]
  proceed-Proceeded (ready (suc n)) q [] rest m f le = absurd (omega arith)
  proceed-Proceeded (ready (suc n)) q (v ∷ vs) rest m f le =
      Safe-bind
        (Safe-mono
          (Safe-both (Returns-Safe {Q = λ d. ⊥} (pop-Detached q v vs m))
            (pop_node-Beside rest q v vs m))
          (λ p d x. x) (λ d x. absurd x.0))
        λ p d ((am, ne, e, same), k). simp e (
          returns (record {
            left = vs;
            among = am;
            fine = ne;
            first = refl;
            next_same = k.next_same;
            storage_same = k.storage_same;
            counted = omega (arith, same);
          }))
  proceed-Proceeded (busy n p v) q vs rest m f le =
      Safe-bind
        (Safe-mono (Safe-both (recycle-Holds p q vs m f) (recycle-Beside rest p q vs m))
          (λ _ d x. x) (λ d x. absurd x.0))
        λ _ d (am, k). returns (record {
          left = vs;
          among = am;
          fine = tt;
          first = refl;
          next_same = k.next_same;
          storage_same = k.storage_same;
          counted = omega (arith, k.world_same);
        })
