-- ===== src/EventfdQueue/Order.antt =====
-- The values of a queue come out in the order in which they went in.
use asio_uring.Base.{
  ℕ, zero, suc, ◌≤◌, ◌≡◌, ◌≢◌, refl, ap, ◌∙◌, List, [], ◌∷◌, length, take, arith, Run, ok, throw,
  abort, running, and_then, map_state, Returns-value, pure,
}
use asio_uring.EventfdQueue.Nodes.{
  Ptr, null, Queue, M, in_world, recycled, consume_one, consume, consume_all,
}
use asio_uring.EventfdQueue.Laws.{Holds, Detached}
use asio_uring.EventfdQueue.Consume.{pop-Detached, recycle-Returns}

module _ {T W : Type 0} where
  -- A consumer that does not touch the queue.
  abbrev pub beside : (T → W → Run W (Unit {0})) → T → M T W (Unit {0})
  beside g v q = in_world q (g v q.world)

  -- The consumer on each of the values, as far as it does not throw.
  abbrev pub feed : (T → W → Run W (Unit {0})) → List T → W → Run W (Unit {0})
  feed g [] w = ok tt w
  feed g (v ∷ vs) w = and_then (g v w) (λ _. feed g vs)

  abbrev pub outside : {A : Type 0} → Run (Queue T W) A → Run W A
  outside r = map_state (λ q. q.world) r

  in_world-Detached :
      (p : Ptr) (q : Queue T W) (vs : List T) (w : W)
      → Detached p q vs
      → Detached p (record q { world = w }) vs
  in_world-Detached p q vs w (ps, fs, s) = (
    ps,
    fs,
    record {
      queued = s.queued;
      ends = s.ends;
      pool = s.pool;
      holds = s.holds;
      placed = s.placed;
      once = s.once;
    },
  )

  in_world-Holds :
      (q : Queue T W) (vs : List T) (w : W) → Holds q vs → Holds (record q { world = w }) vs
  in_world-Holds q vs w (ps, fs, s) = (
    ps,
    fs,
    record {
      queued = s.queued;
      ends = s.ends;
      pool = s.pool;
      holds = s.holds;
      placed = s.placed;
      once = s.once;
    },
  )

  -- The end of one round, with the node in hand: `r` is how the consumer has ended.
  round-feed :
      (p : Ptr) (q : Queue T W) (vs : List T) (k : W → Run W (Unit {0})) (l : M T W (Unit {0}))
      (r : Run W (Unit {0}))
      → Detached p q vs
      → p ≢ null
      → ((d : Queue T W) → Holds d vs → outside (l d) ≡ k d.world)
      → outside (and_then (recycled p (in_world q r)) (λ _. l)) ≡ and_then r (λ _. k)
  round-feed p q vs k l (ok a w) dt ne next =
      let (_, d, e, (h, same)) =
        Returns-value
          (recycle-Returns p (record q { world = w }) vs (in_world-Detached p q vs w dt) ne) in
      rw e (next d h ∙ ap k same)
  round-feed p q vs k l (throw x w) dt ne next =
      let (_, d, e, (h, same)) =
        Returns-value
          (recycle-Returns p (record q { world = w }) vs (in_world-Detached p q vs w dt) ne) in
      rw e (ap (throw x) same)
  round-feed p q vs k l abort dt ne next = refl
  round-feed p q vs k l (running w) dt ne next = refl

  consume-feed :
      (g : T → W → Run W (Unit {0})) (n : ℕ) (q : Queue T W) (vs : List T)
      → Holds q vs
      → n ≤ length vs
      → outside (consume (beside g) n q) ≡ feed g (take n vs) q.world
  unfolding consume consume_one
  consume-feed g zero q vs h le = refl
  consume-feed g (suc n) q [] h le = absurd (omega arith)
  consume-feed g (suc n) q (v ∷ vs) h le =
      let (p, d, e, (dt, ne, holds, same)) = Returns-value (pop-Detached q v vs h) in
      rw e (
        simp (holds, same)
          (round-feed p d vs (feed g (take n vs)) (consume (beside g) n) (g v q.world) dt ne
            (λ f x. consume-feed g n f vs x (omega arith))))

  outside-pure :
      (n : ℕ) (r : Run (Queue T W) (Unit {0}))
      → outside (and_then r (λ _. pure n)) ≡ and_then (outside r) (λ _. pure n)
  outside-pure n (ok a q) = refl
  outside-pure n (throw e q) = refl
  outside-pure n abort = refl
  outside-pure n (running q) = refl

  -- `consume_all` on a queue that holds the values vs, when the eventfd reads no more than there
  -- are, with a consumer that does not touch the queue: what comes out, and what has been done to
  -- the rest of the world, is that of reading the count and then handing that many values from the
  -- front of vs to the consumer in order, as far as it does not throw.
  pub consume_all-feed :
      (read : W → Run W ℕ) (g : T → W → Run W (Unit {0})) (q : Queue T W) (vs : List T)
      → Holds q vs
      → ((n : ℕ) (w : W) → read q.world ≡ ok n w → n ≤ length vs)
      → outside (consume_all read (beside g) q)
        ≡ and_then (read q.world) (λ n w. and_then (feed g (take n vs) w) (λ _. pure n))
  unfolding consume_all
  consume_all-feed read g q vs h few = by_read (read q.world) refl
    where
      by_read :
          (r : Run W ℕ)
          → read q.world ≡ r
          → outside
              (and_then (in_world q r) (λ n d. and_then (consume (beside g) n d) (λ _. pure n)))
            ≡ and_then r (λ n w. and_then (feed g (take n vs) w) (λ _. pure n))
      by_read (ok n w) e =
          outside-pure n (consume (beside g) n (record q { world = w }))
          ∙ ap (λ r. and_then r (λ _. pure n))
              (consume-feed g n (record q { world = w }) vs (in_world-Holds q vs w h) (few n w e))
      by_read (throw x w) e = refl
      by_read abort e = refl
      by_read (running w) e = refl
