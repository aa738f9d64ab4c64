-- ===== src/EventfdQueue/Destroy.antt =====
-- The destructor of the queue.
use asio_uring.Base.{
  ℕ, zero, suc, ◌+◌, ◌<◌, ◌≡◌, refl, ◌==◌, true, false, List, [], ◌∷◌, has, arith, Returns,
  returned, Returns-bind, Returns-mono, subst, sym, length,
}
use asio_uring.EventfdQueue.Nodes.{Ptr, null, Queue, destroy_queue, destroy_free, destroy}
use asio_uring.EventfdQueue.Chains.{times, Chain, Shape, has-times, times-erase}

pub nothing : (ps : List Ptr) → ((p : Ptr) → times p ps ≡ 0) → ps ≡ []
nothing [] h = refl
nothing (x ∷ ps) h = absurd (ground (arith, h x))

module _ {T W : Type 0} where
  -- What the loops of the destructor keep; `tail_` is not maintained.
  record Left (q : Queue T W) (ps fs : List Ptr) : Type 0 where
    queued : Chain q.next q.head ps
    pool : Chain q.next q.free fs
    placed : (p : Ptr) → times p q.allocated ≡ times p ps + times p fs

  destroy_queue-Left :
      (fuel : ℕ) (q : Queue T W) (ps fs : List Ptr)
      → Left q ps fs
      → length ps < fuel
      → Returns (λ _ d. Left d [] fs) (destroy_queue fuel q)
  unfolding destroy_queue
  destroy_queue-Left zero q ps fs s h = absurd (omega arith)
  destroy_queue-Left (suc fuel) q [] fs s h =
      let none_left : (q.head == null) ≡ true = ground (arith, s.queued) in
      rw none_left (returned s)
  destroy_queue-Left (suc fuel) q (x ∷ ps) fs s h =
      let at : q.head ≡ x = s.queued.0 in
      let more : (q.head == null) ≡ false = ground (arith, s.queued) in
      let here : has q.head q.allocated ≡ true =
        has-times q.head q.allocated (ground (arith, s.placed q.head)) in
      simp (more, here)
        (destroy_queue-Left fuel _ ps fs
          (record {
            queued = subst (λ y. Chain q.next (q.next y) ps) (sym at) s.queued.2;
            pool = s.pool;
            placed = λ y. ground (arith, s.placed y, times-erase q.head y q.allocated);
          })
          (omega arith))

  destroy_free-Left :
      (fuel : ℕ) (q : Queue T W) (fs : List Ptr)
      → Left q [] fs
      → length fs < fuel
      → Returns (λ _ d. Left d [] []) (destroy_free fuel q)
  unfolding destroy_free
  destroy_free-Left zero q fs s h = absurd (omega arith)
  destroy_free-Left (suc fuel) q [] s h =
      let none_left : (q.free == null) ≡ true = ground (arith, s.pool) in rw none_left (returned s)
  destroy_free-Left (suc fuel) q (x ∷ fs) s h =
      let at : q.free ≡ x = s.pool.0 in
      let more : (q.free == null) ≡ false = ground (arith, s.pool) in
      let here : has q.free q.allocated ≡ true =
        has-times q.free q.allocated (ground (arith, s.placed q.free)) in
      simp (more, here)
        (destroy_free-Left fuel _ fs
          (record {
            queued = s.queued;
            pool = subst (λ y. Chain q.next (q.next y) fs) (sym at) s.pool.2;
            placed = λ y. ground (arith, s.placed y, times-erase q.free y q.allocated);
          })
          (omega arith))

  -- The destructor of a queue of the right shape, with more fuel than there are nodes in either
  -- chain: it returns, every node is destroyed, and it accesses none that has been.
  pub destroy-allocated :
      (fuel : ℕ) (q : Queue T W) (ps : List Ptr) (vs : List T) (fs : List Ptr)
      → Shape q ps vs fs []
      → length ps < fuel
      → length fs < fuel
      → Returns (λ _ d. d.allocated ≡ []) (destroy fuel q)
  unfolding destroy
  destroy-allocated fuel q ps vs fs s h g =
      Returns-bind
        (destroy_queue-Left fuel q ps fs
          (record { queued = s.queued; pool = s.pool; placed = λ p. omega (arith, s.placed p) }) h)
        λ _ d l.
          Returns-mono (destroy_free-Left fuel d fs l g) λ _ e m. nothing e.allocated m.placed
