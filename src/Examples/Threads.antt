-- ===== src/Examples/Threads.antt =====
-- Two producers: the first has linked its value, and the second has a node in hand.
use asio_uring.Base.{ℕ, refl, [], ◌∷◌, ok, arith, Run}
use asio_uring.EventfdQueue.Nodes.{Queue, refused, allocated_at, built, construct, get_node, link}
use asio_uring.EventfdQueue.Threads.{
  Producer, idle, got, filled, linked, advance, System, init, produce, Reach, start, later,
}
use asio_uring.EventfdQueue.Interleaving.{Linear, Unfailing, Reach-Linear}

-- What the queue is after a part of `emplace` that returns
abbrev after : Run (Queue ℕ ℕ) (Producer ℕ) → Queue ℕ ℕ → Queue ℕ ℕ
after (ok y d) q = d
after _ q = q

abbrev first : Queue ℕ ℕ
first = after (advance (allocated_at 1) (built 10) idle (construct 0)) (construct 0)

abbrev second : Queue ℕ ℕ
second = after (advance (allocated_at 2) (built 20) idle first) first

abbrev third : Queue ℕ ℕ
third = after (advance refused (built 10) (got 1) second) second

abbrev fourth : Queue ℕ ℕ
fourth = after (advance refused (built 10) (filled 1 10) third) third

abbrev two_threads : System ℕ
two_threads = record (init ℕ 2) {
  queue = fourth;
  producers = linked ∷ got 2 ∷ [];
  pushed = 10 ∷ [];
}

two-Reach : Reach 2 two_threads
unfolding advance construct get_node link
two-Reach =
    later
      (later
        (later
          (later start (
            produce [] (idle ∷ []) idle (allocated_at 1) (built 10) refl (ground arith, refl) refl))
          (produce (got 1 ∷ []) [] idle (allocated_at 2) (built 20) refl
            (ground arith, ground arith) refl))
        (produce [] (got 2 ∷ []) (got 1) refused (built 10) refl tt refl))
      (produce [] (got 2 ∷ []) (filled 1 10) refused (built 10) refl tt refl)

Reach-Linear_example : Linear two_threads × Unfailing (advance refused (built 20) (got 2) fourth)
Reach-Linear_example = Reach-Linear two-Reach (linked ∷ []) [] (got 2) refused (built 20) refl tt
