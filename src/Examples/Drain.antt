-- ===== src/Examples/Drain.antt =====
-- Three callables that do nothing, on the platform of Context/Simulation.antt.
use asio_uring.Base.{refl, none, [], ◌∷◌, true, ok, arith, Returns, returned}
use asio_uring.Context.Platform.{of_queue}
use asio_uring.Context.Executor.{User}
use asio_uring.Context.Loop.{run}
use asio_uring.Context.Simulation.{Machine, machine, machine-Laws, fresh_machine, bump}
use asio_uring.Context.Drain.{Quiet, Serves, posted, Drained, run-drains}

abbrev idle_users : User machine
idle_users = record { invoke = λ h c. ok tt c; complete = λ x cqe c. ok tt c; others = λ c. c }

idle-Quiet : Quiet idle_users
idle-Quiet h c = returned (c.world, refl)

-- The eventfd counts the three posts.
abbrev three_posts : Machine
three_posts = record fresh_machine { counters = bump (λ i. 0) of_queue 3 }

three-Serves : Serves machine 3 three_posts
three-Serves = record {
  entry = (_, refl, refl);
  readable = (3, refl);
  counted = refl;
  room = λ v. (tt, refl);
  accepted = λ v. (1, refl);
}

run-drains_example :
    Returns
      (Drained 3)
      (run idle_users 1 2 (posted {p = machine} true none (0 ∷ 0 ∷ 0 ∷ []) 0 three_posts))
run-drains_example =
    run-drains machine-Laws idle_users (0 ∷ 0 ∷ 0 ∷ []) 0 1 three_posts idle-Quiet (λ c. refl)
      (omega arith) (omega arith) three-Serves
