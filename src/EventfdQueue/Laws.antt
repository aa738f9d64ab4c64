-- ===== src/EventfdQueue/Laws.antt =====
-- The nodes implement a queue of values: `emplace` puts a value at its end, `consume` takes from its
-- front.
use asio_uring.Base.{
  ◌≡◌, refl, ◌≢◌, ◌==◌, true, false, none, some, List, [], ◌∷◌, ◌++◌, has, arith, Returns, returned,
  Returns-mono, Returns-Safe, Safe, returns, throws, Safe-bind, Safe-mono, subst, sym, ◌>>◌,
}
use asio_uring.EventfdQueue.Nodes.{
  Ptr, null, update, Queue, Allocation, refused, not_constructed, allocated_at, Built, built,
  not_built, allocate, get_node, release_node, fill, link, insert,
}
use asio_uring.EventfdQueue.Chains.{
  times, Chain, last_of, Shape, has-times, times-append, Chain-update, Values-update, Chain-snoc,
  Values-snoc, last-snoc, times-last, last-ne-null,
}

-- The queue holds `vs`, and the nodes `ds` are in the hands of operations.
abbrev pub Among : {T W : Type 0} → List Ptr → Queue T W → List T → Type 0
Among ds q vs = (ps : List Ptr) × (fs : List Ptr) × Shape q ps vs fs ds

-- No operation is under way.
abbrev pub Holds : {T W : Type 0} → Queue T W → List T → Type 0
Holds q vs = Among [] q vs

-- The queue holds `vs`, and the node `p` is in the hands of an operation.
abbrev pub Detached : {T W : Type 0} → Ptr → Queue T W → List T → Type 0
Detached p q vs = Among (p ∷ []) q vs

-- What an allocator returns is no null pointer and not in use.
abbrev pub Fresh : {T W : Type 0} → Allocation → Queue T W → Type 0
Fresh refused q = Unit {0}
Fresh (not_constructed e) q = Unit {0}
Fresh (allocated_at p) q = (p ≢ null) × (times p q.allocated ≡ 0)

-- What `emplace` of a value leaves; one that could not be constructed is not there.
abbrev pub Inserted : {T W : Type 0} → Built T → List T → Queue T W → Type 0
Inserted (built v) vs d = Holds d (vs ++ v ∷ [])
Inserted (not_built e) vs d = ⊥

module _ {T W : Type 0} where
  allocate-Detached :
      {ds : List Ptr} (a : Allocation) (q : Queue T W) (ps : List Ptr) (vs : List T) (fs : List Ptr)
      → Shape q ps vs fs ds
      → Fresh a q
      → Safe
          (λ p d. Among (p ∷ ds) d vs × (d.next p ≡ null) × (p ≢ null))
          (λ d. Among ds d vs)
          (allocate a q)
  allocate-Detached refused q ps vs fs s f = throws (ps, fs, s)
  allocate-Detached (not_constructed e) q ps vs fs s f = throws (ps, fs, s)
  allocate-Detached (allocated_at p) q ps vs fs s f =
      let out_ps : times p ps ≡ 0 = omega (arith, s.placed p) in
      let out_fs : times p fs ≡ 0 = omega (arith, s.placed p) in
      returns (
        (
          ps,
          fs,
          record {
            queued = Chain-update q.next q.head p null ps out_ps s.queued;
            ends = s.ends;
            pool = Chain-update q.next q.free p null fs out_fs s.pool;
            holds = Values-update q.storage p none ps vs out_ps s.holds;
            placed = λ x. ground (arith, s.placed x);
            once = λ x. ground (arith, s.once x);
          },
        ),
        ground arith,
        f.0,
      )

  pub get_node-Detached :
      {ds : List Ptr} (a : Allocation) (q : Queue T W) (ps : List Ptr) (vs : List T) (fs : List Ptr)
      → Shape q ps vs fs ds
      → Fresh a q
      → Safe
          (λ p d. Among (p ∷ ds) d vs × (d.next p ≡ null) × (p ≢ null))
          (λ d. Among ds d vs)
          (get_node a q)
  unfolding get_node
  get_node-Detached a q ps vs [] s f =
      let e : (q.free == null) ≡ true = ground (arith, s.pool) in
      rw e (allocate-Detached a q ps vs [] s f)
  get_node-Detached a q ps vs (x ∷ fs) s f =
      let e : (q.free == null) ≡ false = ground (arith, s.pool) in
      let at : q.free ≡ x = s.pool.0 in
      let here : has q.free q.allocated ≡ true =
        has-times q.free q.allocated (ground (arith, s.placed q.free)) in
      let out_ps : times q.free ps ≡ 0 = ground (arith, s.placed q.free, s.once q.free) in
      let out_fs : times q.free fs ≡ 0 = ground (arith, s.placed q.free, s.once q.free) in
      simp (e, here)
        (returns (
          (
            ps,
            fs,
            record {
              queued = Chain-update q.next q.head q.free null ps out_ps s.queued;
              ends = s.ends;
              pool =
                  subst (λ y. Chain (update q.next y null) (q.next y) fs) (sym at)
                    (Chain-update q.next (q.next x) x null fs
                      (subst (λ y. times y fs ≡ 0) at out_fs) s.pool.2);
              holds = s.holds;
              placed = λ y. ground (arith, s.placed y);
              once = s.once;
            },
          ),
          ground arith,
          ground arith,
        ))

  pub release_node-Returns :
      {ds : List Ptr} (p : Ptr) (q : Queue T W) (vs : List T)
      → Among (p ∷ ds) q vs
      → p ≢ null
      → Returns (λ _ d. Among ds d vs × (d.world ≡ q.world)) (release_node p q)
  unfolding release_node
  release_node-Returns p q vs (ps, fs, s) ne =
      let here : has p q.allocated ≡ true = has-times p q.allocated (ground (arith, s.placed p)) in
      let out_ps : times p ps ≡ 0 = ground (arith, s.placed p, s.once p) in
      let out_fs : times p fs ≡ 0 = ground (arith, s.placed p, s.once p) in
      let same : update q.next p q.free p ≡ q.free = ground arith in
      rw here (
        returned (
          (
            ps,
            p ∷ fs,
            record {
              queued = Chain-update q.next q.head p q.free ps out_ps s.queued;
              ends = s.ends;
              pool = (refl, ne, rw same (Chain-update q.next q.free p q.free fs out_fs s.pool));
              holds = s.holds;
              placed = λ y. ground (arith, s.placed y);
              once = s.once;
            },
          ),
          refl,
        ))

  pub release_node-Holds :
      {ds : List Ptr} (p : Ptr) (q : Queue T W) (vs : List T)
      → Among (p ∷ ds) q vs
      → p ≢ null
      → Safe (λ _ d. Among ds d vs) (λ d. ⊥) (release_node p q)
  release_node-Holds p q vs dt ne =
      Returns-Safe (Returns-mono (release_node-Returns p q vs dt ne) λ _ d x. x.0)

  pub link-Holds :
      {ds : List Ptr} (p : Ptr) (v : T) (q : Queue T W) (ps : List Ptr) (vs : List T)
      (fs : List Ptr)
      → Shape q ps vs fs (p ∷ ds)
      → p ≢ null
      → q.next p ≡ null
      → q.storage p ≡ some v
      → Safe (λ _ d. Among ds d (vs ++ v ∷ [])) (λ d. ⊥) (link p q)
  unfolding link
  link-Holds p v q [] vs fs s ne z h =
      let no_tail : (q.tail == null) ≡ true = ground (arith, s.ends) in
      let no_head : (q.head == null) ≡ true = ground (arith, s.queued) in
      simp (no_tail, no_head)
        (returns (
          p ∷ [],
          fs,
          record {
            queued = (refl, ne, z);
            ends = refl;
            pool = s.pool;
            holds = Values-snoc q.storage p v [] vs s.holds h;
            placed = λ y. ground (arith, s.placed y);
            once = s.once;
          },
        ))
  link-Holds p v q (x ∷ ps) vs fs s ne z h =
      let l = last_of (x ∷ ps) in
      let t : q.tail ≡ l = s.ends in
      let here : times l (x ∷ ps) ≢ 0 = times-last x ps in
      let inside : has q.tail q.allocated ≡ true =
        has-times q.tail q.allocated
          (subst (λ y. times y q.allocated ≢ 0) (sym t) (ground (arith, s.placed l))) in
      let some_tail : (q.tail == null) ≡ false =
        ground (arith, last-ne-null q.next q.head x ps s.queued) in
      let some_head : (q.head == null) ≡ false = ground (arith, s.queued) in
      let out : times p (x ∷ ps) ≡ 0 = ground (arith, s.placed p, s.once p) in
      let out_fs : times l fs ≡ 0 = ground (arith, s.placed l, s.once l) in
      simp (some_tail, some_head, inside)
        (returns (
          x ∷ ps ++ p ∷ [],
          fs,
          record {
            queued =
                subst (λ y. Chain (update q.next y p) q.head (x ∷ ps ++ p ∷ [])) (sym t)
                  (Chain-snoc q.next q.head p x ps s.queued
                    (λ y. ground (arith, s.placed y, s.once y)) ne z out);
            ends = sym (last-snoc (x ∷ ps) p);
            pool =
                subst (λ y. Chain (update q.next y p) q.free fs) (sym t)
                  (Chain-update q.next q.free l p fs out_fs s.pool);
            holds = Values-snoc q.storage p v (x ∷ ps) vs s.holds h;
            placed = λ y. ground (arith, s.placed y, times-append y (x ∷ ps) (p ∷ []));
            once = s.once;
          },
        ))

  fill-link :
      (p : Ptr) (b : Built T) (q : Queue T W) (vs : List T)
      → Detached p q vs
      → q.next p ≡ null
      → p ≢ null
      → Safe (λ _ d. Inserted b vs d) (λ d. Holds d vs) ((fill p b >> link p) q)
  fill-link p (built v) q vs (ps, fs, s) z ne =
      let here : has p q.allocated ≡ true = has-times p q.allocated (ground (arith, s.placed p)) in
      let out : times p ps ≡ 0 = ground (arith, s.placed p, s.once p) in
      simp here (
        Safe-mono
          (link-Holds p v (record q { storage = update q.storage p (some v) }) ps vs fs
            (record {
              queued = s.queued;
              ends = s.ends;
              pool = s.pool;
              holds = Values-update q.storage p (some v) ps vs out s.holds;
              placed = s.placed;
              once = s.once;
            })
            ne z (ground arith))
          (λ _ d h. h) (λ d. absurd))
  fill-link p (not_built e) q vs dt z ne =
      Safe-bind {P = λ _ d. ⊥}
        (Safe-bind (Safe-mono (release_node-Holds p q vs dt ne) (λ _ d h. h) (λ d. absurd))
          λ _ d h. throws h)
        λ _ d. absurd

  -- Inserting into a queue that holds the values vs, with an allocator that returns no null pointer
  -- and none in use: on success the queue holds vs with the value at the end; if the allocation or
  -- the construction throws it holds vs; nothing aborts.
  pub insert-Inserted :
      (a : Allocation) (b : Built T) (q : Queue T W) (vs : List T)
      → Holds q vs
      → Fresh a q
      → Safe (λ _ d. Inserted b vs d) (λ d. Holds d vs) (insert a b q)
  unfolding insert
  insert-Inserted a b q vs (ps, fs, s) f =
      Safe-bind (get_node-Detached a q ps vs fs s f) λ p d (dt, z, ne).
        let here : has p d.allocated ≡ true =
          has-times p d.allocated (ground (arith, dt.2.placed p)) in
        let clear : (d.next p == null) ≡ true = ground arith in
        simp (here, clear) (fill-link p b d vs dt z ne)
