-- ===== src/EventfdQueue/Frames.antt =====
-- No operation changes a node that is in the hands of another.
use asio_uring.Base.{
  ◌≡◌, refl, ◌≢◌, ◌==◌, true, false, none, Option, List, [], ◌∷◌, has, arith, Safe, returns, throws,
  Safe-mono, subst, sym, Run, ◌∙◌,
}
use asio_uring.EventfdQueue.Nodes.{
  Ptr, null, update, Queue, Allocation, refused, not_constructed, allocated_at, allocate, get_node,
  release_node, link, pop_node, recycle,
}
use asio_uring.EventfdQueue.Chains.{
  times, last_of, Values-update, has-times, times-last, last-ne-null,
}
use asio_uring.EventfdQueue.Laws.{Among, Fresh}

-- The nodes `ds` and the eventfd are as they were.
pub record Beside {T W : Type 0} (ds : List Ptr) (q d : Queue T W) : Type 0 where
  pub world_same : d.world ≡ q.world
  pub next_same : (y : Ptr) → times y ds ≢ 0 → d.next y ≡ q.next y
  pub storage_same : (y : Ptr) → times y ds ≢ 0 → d.storage y ≡ q.storage y

abbrev pub Leaves : {T W A : Type 0} → List Ptr → Queue T W → Run (Queue T W) A → Type 0
Leaves ds q r = Safe (λ _ d. Beside ds q d) (λ d. Beside ds q d) r

module _ {T W : Type 0} where
  pub Beside-refl : (ds : List Ptr) (q : Queue T W) → Beside ds q q
  Beside-refl ds q = record {
    world_same = refl;
    next_same = λ y h. refl;
    storage_same = λ y h. refl;
  }

  pub get_node-Beside :
      (ds : List Ptr) (a : Allocation) (q : Queue T W) (vs : List T)
      → Among ds q vs
      → Fresh a q
      → Leaves ds q (get_node a q)
  unfolding get_node
  get_node-Beside ds a q vs (ps, [], s) f =
      let e : (q.free == null) ≡ true = ground (arith, s.pool) in rw e (from_allocator a f)
    where
      from_allocator : (b : Allocation) → Fresh b q → Leaves ds q (allocate b q)
      from_allocator refused g = throws (Beside-refl ds q)
      from_allocator (not_constructed x) g = throws (Beside-refl ds q)
      from_allocator (allocated_at p) g = returns (record {
        world_same = refl;
        next_same = λ y h. ground (arith, s.placed p);
        storage_same = λ y h. ground (arith, s.placed p);
      })
  get_node-Beside ds a q vs (ps, x ∷ fs, s) f =
      let e : (q.free == null) ≡ false = ground (arith, s.pool) in
      let here : has q.free q.allocated ≡ true =
        has-times q.free q.allocated (ground (arith, s.placed q.free, s.pool.0)) in
      simp (e, here)
        (returns (record {
          world_same = refl;
          next_same = λ y h. ground (arith, s.placed q.free, s.once q.free, s.pool.0);
          storage_same = λ y h. refl;
        }))

  pub Beside-fewer :
      (ds : List Ptr) (p : Ptr) (q d : Queue T W) → Beside (p ∷ ds) q d → Beside ds q d
  Beside-fewer ds p q d k = record {
    world_same = k.world_same;
    next_same = λ y h. k.next_same y (ground arith);
    storage_same = λ y h. k.storage_same y (ground arith);
  }

  -- The node in hand is no other's.
  apart :
      (ds : List Ptr) (p y : Ptr) (q : Queue T W) (vs : List T)
      → Among (p ∷ ds) q vs
      → times y ds ≢ 0
      → (p == y) ≡ false
  apart ds p y q vs (ps, fs, s) h = ground (arith, s.placed p, s.once p)

  pub release_node-Beside :
      (ds : List Ptr) (p : Ptr) (q : Queue T W) (vs : List T)
      → Among (p ∷ ds) q vs
      → Leaves ds q (release_node p q)
  unfolding release_node
  release_node-Beside ds p q vs (ps, fs, s) =
      let here : has p q.allocated ≡ true = has-times p q.allocated (ground (arith, s.placed p)) in
      rw here (
        returns (record {
          world_same = refl;
          next_same = λ y h. rw (apart ds p y q vs (ps, fs, s) h) refl;
          storage_same = λ y h. refl;
        }))

  pub link-Beside :
      (ds : List Ptr) (p : Ptr) (q : Queue T W) (vs : List T)
      → Among ds q vs
      → Leaves ds q (link p q)
  unfolding link
  link-Beside ds p q vs ([], fs, s) =
      let no_tail : (q.tail == null) ≡ true = ground (arith, s.ends) in
      let no_head : (q.head == null) ≡ true = ground (arith, s.queued) in
      simp (no_tail, no_head)
        (returns
          (record { world_same = refl; next_same = λ y h. refl; storage_same = λ y h. refl }))
  link-Beside ds p q vs (x ∷ ps, fs, s) =
      let l = last_of (x ∷ ps) in
      let t : q.tail ≡ l = s.ends in
      let here : times l (x ∷ ps) ≢ 0 = times-last x ps in
      let tail_in : times q.tail (x ∷ ps) ≢ 0 = subst (λ y. times y (x ∷ ps) ≢ 0) (sym t) here in
      let inside : has q.tail q.allocated ≡ true =
        has-times q.tail q.allocated (ground (arith, s.placed q.tail)) in
      let some_tail : (q.tail == null) ≡ false =
        ground (arith, last-ne-null q.next q.head x ps s.queued) in
      let some_head : (q.head == null) ≡ false = ground (arith, s.queued) in
      simp (some_tail, some_head, inside)
        (returns (record {
          world_same = refl;
          next_same = λ y h. ground (arith, s.placed q.tail, s.once q.tail);
          storage_same = λ y h. refl;
        }))

  pub pop_node-Beside :
      (ds : List Ptr) (q : Queue T W) (v : T) (vs : List T)
      → Among ds q (v ∷ vs)
      → Leaves ds q (pop_node q)
  unfolding pop_node
  pop_node-Beside ds q v vs ([], fs, s) = absurd s.holds
  pop_node-Beside ds q v vs (x ∷ ps, fs, s) =
      let some_head : (q.head == null) ≡ false = ground (arith, s.queued) in
      let some_tail : (q.tail == null) ≡ false =
        ground (arith, s.ends, last-ne-null q.next q.head x ps s.queued) in
      let here : has q.head q.allocated ≡ true =
        has-times q.head q.allocated (ground (arith, s.placed q.head, s.queued.0)) in
      simp (some_head, some_tail, here)
        (returns
          (record { world_same = refl; next_same = λ y h. refl; storage_same = λ y h. refl }))

  -- A value is put into the node in hand, or taken out of it.
  pub set_storage-Among :
      (ds : List Ptr) (p : Ptr) (o : Option T) (q : Queue T W) (vs : List T)
      → Among (p ∷ ds) q vs
      → Among (p ∷ ds) (record q { storage = update q.storage p o }) vs
  set_storage-Among ds p o q vs (ps, fs, s) =
      let out : times p ps ≡ 0 = ground (arith, s.placed p, s.once p) in
      (
        ps,
        fs,
        record {
          queued = s.queued;
          ends = s.ends;
          pool = s.pool;
          holds = Values-update q.storage p o ps vs out s.holds;
          placed = s.placed;
          once = s.once;
        },
      )

  pub set_storage-Beside :
      (ds : List Ptr) (p : Ptr) (o : Option T) (q : Queue T W) (vs : List T)
      → Among (p ∷ ds) q vs
      → Beside ds q (record q { storage = update q.storage p o })
  set_storage-Beside ds p o q vs m = record {
    world_same = refl;
    next_same = λ y h. refl;
    storage_same = λ y h. rw (apart ds p y q vs m h) refl;
  }

  pub Beside-trans :
      (ds : List Ptr) (q d e : Queue T W) → Beside ds q d → Beside ds d e → Beside ds q e
  Beside-trans ds q d e x y = record {
    world_same = y.world_same ∙ x.world_same;
    next_same = λ z h. y.next_same z h ∙ x.next_same z h;
    storage_same = λ z h. y.storage_same z h ∙ x.storage_same z h;
  }

  pub recycle-Beside :
      (ds : List Ptr) (p : Ptr) (q : Queue T W) (vs : List T)
      → Among (p ∷ ds) q vs
      → Leaves ds q (recycle p q)
  unfolding recycle
  recycle-Beside ds p q vs (ps, fs, s) =
      let here : has p q.allocated ≡ true = has-times p q.allocated (ground (arith, s.placed p)) in
      let d = record q { storage = update q.storage p none } in
      let x = set_storage-Beside ds p none q vs (ps, fs, s) in
      simp here (
        Safe-mono (release_node-Beside ds p d vs (set_storage-Among ds p none q vs (ps, fs, s)))
          (λ _ e y. Beside-trans ds q d e x y) (λ e y. Beside-trans ds q d e x y))
