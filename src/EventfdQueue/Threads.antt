-- ===== src/EventfdQueue/Threads.antt =====
-- Threads on one queue: producers in `emplace` and the consumer in `consume`, a critical section, a
-- change of a node in hand or an access of the eventfd at a time, in any order.
use asio_uring.Base.{
  ℕ, zero, suc, ◌+◌, ◌==◌, ◌≡◌, if◌then◌else◌, List, [], ◌∷◌, ◌++◌, replicate, Exception, ok, throw,
  running, ◌>>=◌, ◌>>◌, pure, modify, check_that,
}
use asio_uring.EventfdQueue.Nodes.{
  Ptr, null, Queue, Allocation, Built, built, not_built, M, construct, get_node, next_of, fill,
  link, pop_node, get, recycle,
}
use asio_uring.EventfdQueue.Laws.{Fresh}

-- Where a producer is in `emplace`: before it, with a node from `get_node`, with a value in that node,
-- or past the critical section.
pub data Producer (T : Type 0) : Type 0 where
  idle : Producer T
  got : Ptr → Producer T
  filled : Ptr → T → Producer T
  linked : Producer T

-- The rounds that `consume` has left, and the node that it has in hand, with its value.
pub data Consumer (T : Type 0) : Type 0 where
  ready : ℕ → Consumer T
  busy : ℕ → Ptr → T → Consumer T

abbrev pub filled_by : {T : Type 0} → Ptr → Built T → Producer T
filled_by p (built v) = filled p v
filled_by p (not_built e) = idle

module _ {T : Type 0} where
  -- The next part of `emplace`; the world is the count of the eventfd, and it is written to last.
  unfoldable pub advance : Allocation → Built T → Producer T → M T ℕ (Producer T)
  advance a b idle = do p ← get_node a; pure (got p)
  advance a b (got p) = do
    n ← next_of p
    λ q. check_that (n == null) q
    fill p b
    pure (filled_by p b)
  advance a b (filled p v) = do link p; pure linked
  advance a b linked = do modify (λ q. record q { world = q.world + 1 }); pure idle

  -- The next part of `consume_one`, or the read of the eventfd that gives the number of rounds.
  unfoldable pub proceed : Consumer T → M T ℕ (Consumer T)
  proceed (ready zero) q =
      if q.world == 0 then running q else ok (ready q.world) (record q { world = 0 })
  proceed (ready (suc n)) q =
      (do p ← pop_node; λ d. (do v ← get (d.storage p); pure (busy n p v)) d) q
  proceed (busy n p v) q = (do recycle p; pure (ready n)) q

-- `pushed` and `popped` are the values that have been linked and that have been taken, in order.
pub record System (T : Type 0) : Type 0 where
  pub queue : Queue T ℕ
  pub producers : List (Producer T)
  pub consumer : Consumer T
  pub pushed : List T
  pub popped : List T

abbrev pub given : {T : Type 0} → Producer T → List T
given (filled p v) = v ∷ []
given _ = []

abbrev pub taken : {T : Type 0} → Consumer T → List T
taken (busy n p v) = v ∷ []
taken (ready n) = []

-- One thread goes on; a producer that throws is before `emplace` again, also when it throws because
-- the write to the eventfd has failed. If the callee of the consumer throws, its node is recycled and
-- the rounds that are left are given up.
pub data Step {T : Type 0} (s : System T) : System T → Type 0 where
  produce :
      (before after : List (Producer T)) (x : Producer T) (a : Allocation) (b : Built T)
      {y : Producer T} {d : Queue T ℕ}
      → s.producers ≡ before ++ x ∷ after
      → Fresh a s.queue
      → advance a b x s.queue ≡ ok y d
      → Step s
          (record s { queue = d; producers = before ++ y ∷ after; pushed = s.pushed ++ given x })
  fail :
      (before after : List (Producer T)) (x : Producer T) (a : Allocation) (b : Built T)
      {e : Exception} {d : Queue T ℕ}
      → s.producers ≡ before ++ x ∷ after
      → Fresh a s.queue
      → advance a b x s.queue ≡ throw e d
      → Step s (record s { queue = d; producers = before ++ idle ∷ after })
  unwritten :
      (before after : List (Producer T))
      → s.producers ≡ before ++ linked ∷ after
      → Step s (record s { producers = before ++ idle ∷ after })
  take :
      {y : Consumer T} {d : Queue T ℕ}
      → proceed s.consumer s.queue ≡ ok y d
      → Step s (record s { queue = d; consumer = y; popped = s.popped ++ taken y })
  escape :
      {n : ℕ} {p : Ptr} {v : T} {d : Queue T ℕ}
      → s.consumer ≡ busy n p v
      → recycle p s.queue ≡ ok tt d
      → Step s (record s { queue = d; consumer = ready 0 })

abbrev pub init : (T : Type 0) → ℕ → System T
init T n = record {
  queue = construct 0;
  producers = replicate n idle;
  consumer = ready 0;
  pushed = [];
  popped = [];
}

pub data Reach {T : Type 0} (n : ℕ) : System T → Type 0 where
  start : Reach n (init T n)
  later : {s t : System T} → Reach n s → Step s t → Reach n t
