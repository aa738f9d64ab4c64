-- ===== src/Examples/Lifecycle.antt =====
-- The life of a context on the platform of Context/Simulation.antt.
use asio_uring.Base.{ℕ, ◌≡◌, refl, Bool, true, false, if◌then◌else◌, Safe}
use asio_uring.Context.Platform.{Internal, of_queue, of_stop, of_zero}
use asio_uring.Context.Startup.{start}
use asio_uring.Context.Resources.{Resource, descriptor, ring, is, Resources, Upto}
use asio_uring.Context.Lifecycle.{StartLaws, Left, Standing, start-Standing}
use asio_uring.Context.Simulation.{Machine, machine, machine-Laws, fresh_machine}

machine-StartLaws : StartLaws machine
machine-StartLaws = record {
  opened = λ w e. refl;
  stop_opened = λ w. refl;
  zero_opened = λ w. refl;
  queue_init_same = λ e f w. refl;
  register_same = λ fs w. refl;
  open_flights = λ i w. refl;
  init_flights = λ e f w. refl;
  register_flights = λ fs w. refl;
}

abbrev held_by : Machine → Resource → Bool
held_by m (descriptor i) = m.opened i
held_by m ring = m.ringing

made_by :
    (i : Internal) (m : Machine) (x : Resource)
    → held_by (machine.open_eventfd i m).1 x ≡ (if is (descriptor i) x then true else held_by m x)
made_by i m (descriptor j) = refl
made_by i m ring = refl

closed_by :
    (i : Internal) (m : Machine) (x : Resource)
    → held_by (machine.close_eventfd i m).1 x ≡ (if is (descriptor i) x then false else held_by m x)
closed_by i m (descriptor j) = refl
closed_by i m ring = refl

ringed_by :
    (b : Bool) (m : Machine) (x : Resource)
    → held_by (record m { ringing = b }) x ≡ (if is ring x then b else held_by m x)
ringed_by b m (descriptor j) = refl
ringed_by b m ring = refl

polls_by :
    (i : ℕ) (m : Machine) (x : Resource) → held_by (machine.prep_poll_add tt i m) x ≡ held_by m x
polls_by i m (descriptor j) = refl
polls_by i m ring = refl

written_by :
    (i : Internal) (n : ℕ) (m : Machine) (x : Resource)
    → held_by (machine.write_eventfd i n m).1 x ≡ held_by m x
written_by i n m (descriptor j) = refl
written_by i n m ring = refl

pub machine-Resources : Resources machine
machine-Resources = record {
  holds = λ w x. held_by w x;
  open_done = λ i w x e. made_by i w x;
  open_failed = λ i w n x e. cc;
  close_open = λ i w h. h;
  close_holds = λ i w x. closed_by i w x;
  init_done = λ e f w x h. ringed_by true w x;
  init_failed = λ e f w n x h. cc;
  exit_holds = λ w x. ringed_by false w x;
  register_holds = λ fs w x. refl;
  take_holds = λ w x. refl;
  poll_holds = λ s i w x. polls_by i w x;
  fixed_holds = λ s w x. refl;
  data_holds = λ s d w x. refl;
  submit_holds = λ w x. refl;
  write_holds = λ i n w x. written_by i n w x;
}

-- Nothing is open, and there is no ring.
abbrev bare_machine : Machine
bare_machine = record fresh_machine { opened = λ i. false; ringing = false }

nothing_held : Upto machine-Resources 0 bare_machine
unfolding machine-Resources
nothing_held (descriptor of_queue) = refl
nothing_held (descriptor of_stop) = refl
nothing_held (descriptor of_zero) = refl
nothing_held ring = refl

start-Standing_example :
    Safe
      (λ _ d. Standing machine-Resources d)
      (Left machine-Resources 0)
      (start {p = machine} 16 0 bare_machine)
start-Standing_example =
    start-Standing machine-Resources machine-Laws machine-StartLaws 16 0 bare_machine refl
      nothing_held

-- A machine with the ring and all eventfds has the members of a context.
pub whole_machine :
    (m : Machine)
    → ((i : Internal) → m.opened i ≡ true)
    → m.ringing ≡ true
    → Upto machine-Resources 4 m
unfolding machine-Resources
whole_machine m o r (descriptor of_queue) = o of_queue
whole_machine m o r (descriptor of_stop) = o of_stop
whole_machine m o r (descriptor of_zero) = o of_zero
whole_machine m o r ring = r
