-- ===== src/Examples/Loop.antt =====
-- The loop of the context on the platform of Context/Simulation.antt, with three callables posted.
use asio_uring.Base.{◌+◌, ◌≡◌, refl, true, false, [], ◌∷◌, arith, Safe}
use asio_uring.Context.Platform.{of_queue}
use asio_uring.Context.State.{Context, stopped, restart, eventfd_write}
use asio_uring.Context.Executor.{post, emplace, on_work_started}
use asio_uring.Context.Loop.{service_queue}
use asio_uring.Context.Invariant.{Inv, Kept, Step, posts, here, next, Steps-Inv}
use asio_uring.Context.Servicing.{Exit, Fixed, service_queue-Safe}
use asio_uring.Context.Endings.{restart-Safe}
use asio_uring.Context.Simulation.{
  machine, machine-Laws, users, users-Contract, fresh_machine, fresh_context, loaded_context, bump,
}

-- The queue's eventfd has been read, and all three callables are pending.
abbrev read_context : Context machine
read_context = record loaded_context { pending = 3; world = fresh_machine }

read-Inv : Inv read_context
read-Inv = record { counted = omega arith; held = omega arith; room = omega arith }

service_queue-Safe_example :
    Safe
      (λ _ d. Inv d × Fixed read_context d × (d.pending + 2 ≡ 3))
      (Exit read_context)
      (service_queue users 2 read_context)
service_queue-Safe_example =
    service_queue-Safe machine-Laws users-Contract 2 read_context read-Inv (omega arith)

-- A context with no callable, and the same after a post.
fresh-Inv : Inv fresh_context
fresh-Inv = record { counted = omega arith; held = omega arith; room = omega arith }

abbrev posted_context : Context machine
posted_context = record fresh_context {
  q = 4 ∷ [];
  work = 1;
  world = record fresh_machine { counters = bump (λ i. 0) of_queue 1 };
}

post-Step : Step fresh_context posted_context
unfolding post emplace on_work_started eventfd_write
post-Step = posts 4 (omega arith) refl refl

Steps-Inv_example : Inv posted_context × Kept fresh_context posted_context
Steps-Inv_example = Steps-Inv machine-Laws (next here post-Step) fresh-Inv

-- No poll is under way, and `stop` has been called.
abbrev halted : Context machine
halted = record fresh_context {
  q_started = false;
  stop_started = false;
  zero_started = false;
  stopped_flag = true;
}

restart-Safe_example :
    Safe (λ _ d. Exit halted d × (stopped d ≡ false)) (Exit halted) (restart halted)
restart-Safe_example =
    restart-Safe machine-Laws halted
      (record { counted = omega arith; held = omega arith; room = omega arith })
