-- ===== src/EventfdQueue/Consume.antt =====
-- `consume` takes values from the front of the queue, and aborts where there are none.
use asio_uring.Base.{
  ℕ, zero, suc, ◌≤◌, ◌<◌, ◌≡◌, refl, ◌≢◌, ◌==◌, true, false, none, some, List, [], ◌∷◌, ◌++◌, has,
  arith, Returns, returned, Returns-mono, Returns-Safe, Safe, returns, throws, waits, Safe-bind,
  Safe-mono, ap, subst, sym, ◌∙◌, length, length-append, drop-append, Run, abort, drop,
}
use asio_uring.EventfdQueue.Nodes.{
  Ptr, null, update, Queue, M, pop_node, recycle, recycled, consume_one, consume,
}
use asio_uring.EventfdQueue.Chains.{times, Chain, has-times, Values-update, last-ne-null, tail-pop}
use asio_uring.EventfdQueue.Laws.{Holds, Among, Detached, release_node-Returns}
use mathlib.Core.List.{append_assoc, append-nil}

module _ {T W : Type 0} where
  -- The front node is taken, and still holds its value.
  pub pop-Detached :
      {ds : List Ptr} (q : Queue T W) (v : T) (vs : List T)
      → Among ds q (v ∷ vs)
      → Returns
          (λ p d. Among (p ∷ ds) d vs × (p ≢ null) × (d.storage p ≡ some v) × (d.world ≡ q.world))
          (pop_node q)
  unfolding pop_node
  pop-Detached q v vs ([], fs, s) = absurd s.holds
  pop-Detached q v vs (x ∷ ps, fs, s) =
      let at : q.head ≡ x = s.queued.0 in
      let some_head : (q.head == null) ≡ false = ground (arith, s.queued) in
      let some_tail : (q.tail == null) ≡ false =
        ground (arith, s.ends, last-ne-null q.next q.head x ps s.queued) in
      let here : has q.head q.allocated ≡ true =
        has-times q.head q.allocated (ground (arith, s.placed q.head)) in
      let after : Chain q.next (q.next q.head) ps =
        subst (λ y. Chain q.next (q.next y) ps) (sym at) s.queued.2 in
      simp (some_head, some_tail, here)
        (returned (
          (
            ps,
            fs,
            record {
              queued = after;
              ends = tail-pop q.next (q.next q.head) x q.tail ps after s.ends;
              pool = s.pool;
              holds = s.holds.1;
              placed = λ y. ground (arith, s.placed y);
              once = s.once;
            },
          ),
          ground (arith, s.queued),
          subst (λ y. q.storage y ≡ some v) (sym at) s.holds.0,
          refl,
        ))

  pub recycle-Returns :
      {ds : List Ptr} (p : Ptr) (q : Queue T W) (vs : List T)
      → Among (p ∷ ds) q vs
      → p ≢ null
      → Returns (λ _ d. Among ds d vs × (d.world ≡ q.world)) (recycle p q)
  unfolding recycle
  recycle-Returns p q vs (ps, fs, s) ne =
      let here : has p q.allocated ≡ true = has-times p q.allocated (ground (arith, s.placed p)) in
      let out : times p ps ≡ 0 = ground (arith, s.placed p, s.once p) in
      simp here (
        release_node-Returns p (record q { storage = update q.storage p none }) vs
          (
            ps,
            fs,
            record {
              queued = s.queued;
              ends = s.ends;
              pool = s.pool;
              holds = Values-update q.storage p none ps vs out s.holds;
              placed = s.placed;
              once = s.once;
            },
          )
          ne)

  pub recycle-Holds :
      {ds : List Ptr} (p : Ptr) (q : Queue T W) (vs : List T)
      → Among (p ∷ ds) q vs
      → p ≢ null
      → Safe (λ _ d. Among ds d vs) (λ d. ⊥) (recycle p q)
  recycle-Holds p q vs dt ne =
      Returns-Safe (Returns-mono (recycle-Returns p q vs dt ne) λ _ d x. x.0)

  -- The queue holds what is left of `vs`, with what has been put behind it since.
  abbrev pub Grown : List T → Queue T W → Type 0
  Grown vs d = (ys : List T) × Holds d (vs ++ ys)

  -- The consumer may put values into the queue, and leaves the node in hand alone.
  abbrev pub Appends : (T → M T W (Unit {0})) → Type 0
  Appends f =
      (v : T) (p : Ptr) (s : Queue T W) (vs : List T)
      → Detached p s vs
      → Safe (λ _ d. (ys : List T) × Detached p d (vs ++ ys))
          (λ d. (ys : List T) × Detached p d (vs ++ ys)) (f v s)

  recycled-Grown :
      (p : Ptr) (vs : List T) {r : Run (Queue T W) (Unit {0})}
      → p ≢ null
      → Safe
          (λ _ d. (ys : List T) × Detached p d (vs ++ ys))
          (λ d. (ys : List T) × Detached p d (vs ++ ys))
          r
      → Safe (λ _ d. Grown vs d) (Grown vs) (recycled p r)
  recycled-Grown p vs ne (returns {s} (ys, h)) =
      Safe-mono (recycle-Holds p s (vs ++ ys) h ne) (λ _ d x. (ys, x)) (λ d. absurd)
  recycled-Grown p vs ne (throws {s} (ys, h)) =
      Safe-bind (Safe-mono (recycle-Holds p s (vs ++ ys) h ne) (λ _ d x. x) (λ d. absurd))
        λ _ d x. throws (ys, x)
  recycled-Grown p vs ne waits = waits

  -- `consume_one` hands the front value to the consumer, whichever way that ends, and takes exactly
  -- that value off.
  consume_one-Grown :
      (f : T → M T W (Unit {0})) (q : Queue T W) (v : T) (vs : List T)
      → Appends f
      → Holds q (v ∷ vs)
      → Safe (λ _ d. Grown vs d) (Grown vs) (consume_one f q)
  unfolding consume_one
  consume_one-Grown f q v vs k h =
      Safe-bind (Returns-Safe (pop-Detached q v vs h))
        λ p d (dt, ne, e, _). simp e (recycled-Grown p vs ne (k v p d vs dt))

  Grown-drop :
      (n : ℕ) (vs ys : List T) (d : Queue T W)
      → n ≤ length vs
      → Grown (drop n (vs ++ ys)) d
      → Grown (drop n vs) d
  Grown-drop n vs ys d le (zs, h) = (
    ys ++ zs,
    subst (Holds d) (ap (λ t. t ++ zs) (drop-append n vs ys le) ∙ append_assoc (drop n vs) ys zs) h,
  )

  -- Consuming n of the values vs, n no more than there are, with a consumer that may only append:
  -- nothing aborts; on return the queue holds vs without its first n values, with what was appended
  -- behind; if the consumer throws, it holds vs without the first m values for some m with 0 < m <=
  -- n, with what was appended behind.
  pub consume-Grown :
      (f : T → M T W (Unit {0})) (n : ℕ) (q : Queue T W) (vs : List T)
      → Appends f
      → Holds q vs
      → n ≤ length vs
      → Safe
          (λ _ d. Grown (drop n vs) d)
          (λ d. (m : ℕ) × (0 < m) × (m ≤ n) × Grown (drop m vs) d)
          (consume f n q)
  unfolding consume
  consume-Grown f zero q vs k h le = returns ([], subst (Holds q) (sym (append-nil vs)) h)
  consume-Grown f (suc n) q [] k h le = absurd (omega arith)
  consume-Grown f (suc n) q (v ∷ vs) k h le =
      Safe-bind
        (Safe-mono (consume_one-Grown f q v vs k h) (λ _ d x. x)
          (λ d x. (1, omega arith, omega arith, x)))
        λ _ d (ys, h').
          Safe-mono (consume-Grown f n d (vs ++ ys) k h' (omega (arith, length-append vs ys)))
            (λ _ e g. Grown-drop n vs ys e (omega arith) g)
            λ e (m, pos, le', g).
              (suc m, omega arith, omega arith, Grown-drop m vs ys e (omega arith) g)

  -- Consuming at least one value of a queue that holds none fails the assertion of `pop_node`.
  pub consume-empty :
      (f : T → M T W (Unit {0})) (n : ℕ) (q : Queue T W) → Holds q [] → consume f (suc n) q ≡ abort
  unfolding consume consume_one pop_node
  consume-empty f n q ([], fs, s) =
      let no_head : (q.head == null) ≡ true = ground (arith, s.queued) in rw no_head
  consume-empty f n q (x ∷ ps, fs, s) = absurd s.holds
