-- ===== src/Examples/Ends.antt =====
-- How `run` ends, with callables that post, throw or stop; and a post whose write fails.
use asio_uring.Base.{
  ℕ, ◌≡◌, refl, true, false, none, [], ◌∷◌, failed, ok, throw, throws, abort, user, arith,
}
use asio_uring.Context.Platform.{Platform, Cqe, internal, of_queue, of_stop}
use asio_uring.Context.State.{Context, eventfd_read, eventfd_write, stopped}
use asio_uring.Context.Executor.{User, post, emplace, on_work_started, stop}
use asio_uring.Context.Loop.{
  all_loop, all_impl, handle_cqe, handle_queue, service_queue, consume, call,
}
use asio_uring.Context.Invariant.{Contract, here}
use asio_uring.Context.Endings.{all_loop-last, all_loop-stop, post-failed_write, handle_cqe-throw}
use asio_uring.Context.Simulation.{
  machine, machine-Laws, users, users-Contract, fresh_machine, fresh_context, loaded_context, bump,
  set_at,
}

-- One callable is pending, the last unit of work, and it posts another.
abbrev last_context : Context machine
last_context = record fresh_context { q = 1 ∷ []; pending = 1; work = 1 }

abbrev reposted_context : Context machine
reposted_context = record fresh_context {
  q = 0 ∷ [];
  work = 1;
  world = record fresh_machine { counters = bump (λ i. 0) of_queue 1 };
}

all_loop-last_example :
    all_loop users true 3 0 last_context ≡ ok 1 (record reposted_context { stopped_flag = true })
unfolding post emplace on_work_started eventfd_write
all_loop-last_example =
    all_loop-last users true 2 0 last_context reposted_context 1 []
      (record { q_live = refl; stop_live = refl; zero_live = refl; flag_clear = refl }) refl refl
      refl refl refl

-- Each callable calls `stop`.
abbrev stoppers : User machine
stoppers = record users { invoke = λ h c. stop c }

abbrev two_units : Context machine
two_units = record fresh_context { q = 0 ∷ 0 ∷ []; pending = 1; work = 2 }

abbrev stopped_context : Context machine
stopped_context = record fresh_context {
  q = 0 ∷ [];
  work = 1;
  stopped_flag = true;
  world = record fresh_machine { counters = bump (λ i. 0) of_stop 1 };
}

all_loop-stop_example : all_loop stoppers true 3 0 two_units ≡ abort
unfolding stop eventfd_write
all_loop-stop_example =
    all_loop-stop stoppers true 2 0 two_units stopped_context 0 (0 ∷ [])
      (record { q_live = refl; stop_live = refl; zero_live = refl; flag_clear = refl }) refl refl
      (omega arith) refl refl refl

-- The counter of the eventfd is full.
abbrev full : Platform
full = record machine { write_eventfd = λ i n m. (failed 11, m) }

abbrev full_context : Context full
full_context = record {
  q = 5 ∷ [];
  q_started = true;
  pending = 0;
  stop_started = true;
  zero_started = true;
  work = 1;
  stopped_flag = false;
  tid = none;
  world = fresh_machine;
}

post-failed_write_example : post 6 full_context ≡ ok tt (record full_context { q = 5 ∷ 6 ∷ [] })
post-failed_write_example =
    post-failed_write 6 full_context 11 refl refl (omega arith) (omega arith)

-- Each callable throws.
abbrev throwers : User machine
throwers = record users { invoke = λ h c. throw (user 1) c }

throwers-Contract : Contract throwers
throwers-Contract = record {
  invoke_Steps = λ h c inv room. throws here;
  complete_Steps = users-Contract.complete_Steps;
  others_Steps = λ c inv. here;
}

abbrev queue_entry : Cqe ℕ
queue_entry = record { user_data = internal of_queue; res = 1 }

abbrev thrown_context : Context machine
thrown_context = record loaded_context {
  q = 0 ∷ 0 ∷ [];
  q_started = false;
  pending = 2;
  work = 2;
  world = record fresh_machine { counters = set_at (bump (λ i. 0) of_queue 3) of_queue 0 };
}

handle_cqe-throw_example :
    all_impl throwers true 7 9 thrown_context ≡ ok 0 (record thrown_context { stopped_flag = true })
unfolding handle_cqe handle_queue service_queue consume call eventfd_read stopped
handle_cqe-throw_example =
    handle_cqe-throw machine-Laws throwers-Contract queue_entry loaded_context thrown_context
      thrown_context (user 1) refl
      (record { q_live = refl; stop_live = refl; zero_live = refl; flag_clear = refl })
      (record { counted = omega arith; held = omega arith; room = omega arith }) refl here true 7 9
