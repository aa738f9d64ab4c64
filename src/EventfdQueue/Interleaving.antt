-- ===== src/EventfdQueue/Interleaving.antt =====
-- However the threads interleave, the values come out in the order in which they were linked.
use asio_uring.Base.{ℕ, ◌+◌, ◌≤◌, ◌≡◌, List, ◌∷◌, ◌++◌, length, arith, Run, Safe, Safe-mono}
use asio_uring.EventfdQueue.Nodes.{Queue, Allocation, Built}
use asio_uring.EventfdQueue.Laws.{Among, Fresh}
use asio_uring.EventfdQueue.Threads.{Producer, advance, proceed, System, Reach}
use asio_uring.EventfdQueue.Parts.{consumer_hand, rounds}
use asio_uring.EventfdQueue.Hands.{hands_of}
use asio_uring.EventfdQueue.Invariant.{producer-Safe, consumer-Safe, Reach-Inv}

module _ {T : Type 0} where
  -- The run does not abort.
  abbrev pub Unfailing : {A : Type 0} → Run (Queue T ℕ) A → Type 0
  Unfailing r = Safe (λ a d. Unit {0}) (λ d. Unit {0}) r

  -- What has been linked is what has been taken and then what the queue holds, which is at least what
  -- the consumer and the eventfd count; and the consumer can go on.
  abbrev pub Linear : System T → Type 0
  Linear s =
      (vs : List T) × Among (consumer_hand s.consumer ++ hands_of s.producers) s.queue vs
      × (s.popped ++ vs ≡ s.pushed)
      × (s.queue.world + rounds s.consumer ≤ length vs)
      × Unfailing (proceed s.consumer s.queue)

  -- In every state that producers and the consumer of one queue can reach, a critical section, a
  -- change of a node in hand or an access of the eventfd at a time, in any order, from an empty
  -- queue and with allocators that return no null pointer and none in use, where constructions,
  -- writes to the eventfd and the callees of the consumer may throw: the values that have been
  -- linked are, in order, those that have been taken and then those in the queue; each node is in
  -- the chain of values, on the free list or in the hands of one thread; the rounds that the
  -- consumer has left and what the eventfd counts are no more than the values in the queue; and
  -- neither the next part of any producer nor that of the consumer fails an assertion.
  pub Reach-Linear :
      {n : ℕ} {s : System T} (r : Reach n s) (before after : List (Producer T)) (x : Producer T)
      (a : Allocation) (b : Built T)
      → s.producers ≡ before ++ x ∷ after
      → Fresh a s.queue
      → Linear s × Unfailing (advance a b x s.queue)
  Reach-Linear {n} {s} r before after x a b e new =
      let i = Reach-Inv r in
      (
        (
          i.values,
          i.among,
          i.ordered,
          omega (arith, i.counted),
          Safe-mono (consumer-Safe s i) (λ y d h. tt) (λ d. absurd),
        ),
        Safe-mono (producer-Safe s before after x a b i e new) (λ y d h. tt) (λ d h. tt),
      )
