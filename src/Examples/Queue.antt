-- ===== src/Examples/Queue.antt =====
-- A queue of numbers, with no eventfd.
use asio_uring.Base.{
  ℕ, ◌<◌, ◌≤◌, ◌≡◌, refl, none, some, [], ◌∷◌, ok, arith, Safe, returns, drop, Returns, Run, throw,
  user, if◌then◌else◌, ◌==◌, take, pure, and_then,
}
use asio_uring.EventfdQueue.Nodes.{
  Queue, allocated_at, built, null, M, insert, consume, consume_all, destroy, update,
}
use asio_uring.EventfdQueue.Chains.{Shape}
use asio_uring.EventfdQueue.Laws.{Holds, Inserted, insert-Inserted}
use asio_uring.EventfdQueue.Consume.{Grown, consume-Grown}
use asio_uring.EventfdQueue.Order.{beside, feed, outside, consume_all-feed}
use asio_uring.EventfdQueue.Destroy.{destroy-allocated}
use mathlib.Core.List.{append-nil}

-- Two values in the nodes 1 and 2, and the node 3 on the free list.
abbrev two_values : Queue ℕ (Unit {0})
two_values = record {
  head = 1;
  tail = 2;
  free = 3;
  next = update (λ p. null) 1 2;
  storage = update (update (λ p. none) 1 (some 10)) 2 (some 20);
  allocated = 3 ∷ 2 ∷ 1 ∷ [];
  world = tt;
}

two-Shape : Shape two_values (1 ∷ 2 ∷ []) (10 ∷ 20 ∷ []) (3 ∷ []) []
two-Shape = record {
  queued = (refl, ground arith, (refl, ground arith, refl));
  ends = refl;
  pool = (refl, ground arith, refl);
  holds = (refl, (refl, tt));
  placed = λ p. ground arith;
  once = λ p. ground arith;
}

two-Holds : Holds two_values (10 ∷ 20 ∷ [])
two-Holds = (1 ∷ 2 ∷ [], 3 ∷ [], two-Shape)

abbrev no_values : Queue ℕ (Unit {0})
no_values = record two_values { head = 0; tail = 0; free = 0; allocated = [] }

no-Holds : Holds no_values []
no-Holds = (
  [],
  [],
  record {
    queued = refl;
    ends = refl;
    pool = refl;
    holds = tt;
    placed = λ p. refl;
    once = λ p. omega arith;
  },
)

insert-Inserted_example :
    Safe
      (λ _ d. Inserted (built 30) (10 ∷ 20 ∷ []) d)
      (λ d. Holds d (10 ∷ 20 ∷ []))
      (insert (allocated_at 4) (built 30) two_values)
insert-Inserted_example =
    insert-Inserted (allocated_at 4) (built 30) two_values (10 ∷ 20 ∷ []) two-Holds
      (ground arith, refl)

abbrev ignore : ℕ → M ℕ (Unit {0}) (Unit {0})
ignore v q = ok tt q

consume-Grown_example :
    Safe
      (λ _ d. Grown (20 ∷ []) d)
      (λ d. (m : ℕ) × (0 < m) × (m ≤ 1) × Grown (drop m (10 ∷ 20 ∷ [])) d)
      (consume ignore 1 two_values)
consume-Grown_example =
    consume-Grown ignore 1 two_values (10 ∷ 20 ∷ [])
      (λ v p s vs dt. returns ([], rw (append-nil vs) dt)) two-Holds (omega arith)

-- A consumer that throws at 20
abbrev picky : ℕ → Unit {0} → Run (Unit {0}) (Unit {0})
picky v w = if v == 20 then throw (user 1) w else ok tt w

consume_all-feed_example :
    outside (consume_all (ok 2) (beside picky) two_values)
    ≡ and_then (feed picky (take 2 (10 ∷ 20 ∷ [])) tt) (λ _. pure 2)
consume_all-feed_example =
    consume_all-feed (ok 2) picky two_values (10 ∷ 20 ∷ []) two-Holds (λ n w e. ground arith)

destroy-allocated_example : Returns (λ _ d. d.allocated ≡ []) (destroy 3 two_values)
destroy-allocated_example =
    destroy-allocated 3 two_values (1 ∷ 2 ∷ []) (10 ∷ 20 ∷ []) (3 ∷ []) two-Shape (omega arith)
      (omega arith)
