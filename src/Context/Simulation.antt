-- ===== src/Context/Simulation.antt =====
-- A platform and users on which the context runs: counters of eventfds, a ring that always has room,
-- and a list of the completions that operations will have. A handler posts the handlers that it lists.
use asio_uring.Base.{
  ℕ, zero, suc, ◌+◌, ◌≡◌, refl, Bool, true, false, if◌then◌else◌, ltb, Option, none, some, List, [],
  ◌∷◌, Sys, done, failed, blocks, length, arith, ok, ap, ◌<◌, word_mod, Safe, returns, inl, inr,
  Bool-cases, ◌==◌,
}
use asio_uring.Context.Platform.{
  Platform, Laws, Same, Cqe, UserData, internal, external, landed, Internal, of_queue, of_stop,
  of_zero, same,
}
use asio_uring.Context.State.{Context, M, eventfd_write}
use asio_uring.Context.Executor.{User, post, emplace, on_work_started, on_work_finished}
use asio_uring.Context.Invariant.{posts, finishes, Steps, here, next, Contract}

pub record Machine : Type 0 where
  pub counters : Internal → ℕ
  -- Polls that are registered.
  pub polled : Internal → Bool
  -- The completions of users' operations, in order.
  pub completions : List ℕ
  -- The eventfds that are open, and whether there is a ring.
  pub opened : Internal → Bool
  pub ringing : Bool

abbrev pub bump : (Internal → ℕ) → Internal → ℕ → Internal → ℕ
bump f i n j = if same i j then f j + n else f j

abbrev pub set_at {ℓ} : {A : Type ℓ} → (Internal → A) → Internal → A → Internal → A
set_at f i a j = if same i j then a else f j

abbrev pub read_machine : Internal → ℕ → Machine → Sys ℕ × Machine
read_machine i zero m = (blocks, m)
read_machine i (suc n) m = (done (suc n), record m { counters = set_at m.counters i 0 })

abbrev pub ready : Machine → Internal → Bool
ready m i = if m.polled i then ltb 0 (m.counters i) else false

abbrev pub entry : UserData ℕ → Cqe ℕ
entry d = record { user_data = d; res = 1 }

abbrev pub take_completion : List ℕ → Machine → Option (Cqe ℕ) × Machine
take_completion [] m = (none, m)
take_completion (x ∷ xs) m = (some (entry (external x)), record m { completions = xs })

abbrev pub polled_entry : Internal → Machine → Option (Cqe ℕ) × Machine
polled_entry i m = (some (entry (internal i)), record m { polled = set_at m.polled i false })

-- The queue's eventfd first, then `stop_`, then `zero_`, then users' operations.
abbrev pub next_entry : Machine → Option (Cqe ℕ) × Machine
next_entry m =
    if ready m of_queue
    then polled_entry of_queue m
    else if ready m of_stop
    then polled_entry of_stop m
    else if ready m of_zero
    then polled_entry of_zero m
    else take_completion m.completions m

abbrev pub waited : Option (Cqe ℕ) × Machine → Sys (Cqe ℕ) × Machine
waited (none, m) = (blocks, m)
waited (some c, m) = (done c, m)

abbrev pub peeked : Option (Cqe ℕ) × Machine → Sys (Option (Cqe ℕ)) × Machine
peeked (o, m) = (done o, m)

abbrev pub poll_index : ℕ → Internal
poll_index zero = of_queue
poll_index (suc zero) = of_stop
poll_index _ = of_zero

-- Handlers are numbers: `n` posts `n - 1`, and 0 posts nothing.
abbrev pub machine : Platform
machine = record {
  World = Machine;
  Sqe = Unit {0};
  Handler = ℕ;
  Completion = ℕ;
  count = λ m i. m.counters i;
  in_flight = λ m. length m.completions;
  allocate = λ m. (true, m);
  open_eventfd = λ i m.
      (done tt, record m { counters = set_at m.counters i 0; opened = set_at m.opened i true });
  close_eventfd = λ i m. (m.opened i, record m { opened = set_at m.opened i false });
  read_eventfd = λ i m. read_machine i (m.counters i) m;
  write_eventfd = λ i n m. (done tt, record m { counters = bump m.counters i n });
  queue_init = λ e f m. (done tt, record m { ringing = true });
  queue_exit = λ m. record m { ringing = false };
  register_files = λ fs m. (done tt, m);
  take_sqe = λ m. (some tt, m);
  prep_poll_add = λ s i m. record m { polled = set_at m.polled (poll_index i) true };
  set_fixed_file = λ s m. m;
  set_user_data = λ s d m. m;
  submit = λ m. (done 1, m);
  wait_cqe = λ m. waited (next_entry m);
  peek_cqe = λ m. peeked (next_entry m);
  cqe_seen = λ c m. m;
}

Same-refl : (m : Machine) → Same machine m m
Same-refl m = record { counts = λ i. refl; flights = refl }

next_entry-counters : (m : Machine) (i : Internal) → (next_entry m).1.counters i ≡ m.counters i
next_entry-counters m i = ground arith

read_machine_lem :
    (i j : Internal) (n : ℕ) (m : Machine)
    → m.counters i ≡ n
    → ((read_machine i n m).1.completions ≡ m.completions)
      × ((k : ℕ)
          → (read_machine i n m).0 ≡ done k
          → (k ≡ n)
            × (0 < n)
            × ((read_machine i n m).1.counters j ≡ (if same i j then 0 else m.counters j)))
      × ((e : ℕ)
          → (read_machine i n m).0 ≡ failed e
          → (read_machine i n m).1.counters j ≡ m.counters j)
read_machine_lem i j zero m e = (refl, λ k h. cc, λ k h. refl)
read_machine_lem i j (suc n) m e = (refl, λ k h. ground arith, λ k h. cc)

next_entry-completions :
    (m : Machine)
    → ((next_entry m).0 ≡ none → (next_entry m).1.completions ≡ m.completions)
      × ((c : Cqe ℕ)
          → (next_entry m).0 ≡ some c
          → length (next_entry m).1.completions + landed c.user_data ≡ length m.completions)
next_entry-completions m = (ground arith, λ c. ground arith)

pub machine-Laws : Laws machine
machine-Laws = record {
  read_done = λ i m n j h. ground (arith, (read_machine_lem i j (m.counters i) m refl).1 n h);
  read_failed = λ i m n j h. (read_machine_lem i j (m.counters i) m refl).2 n h;
  read_flights = λ i m. ap length (read_machine_lem i i (m.counters i) m refl).0;
  write_done = λ i n m j h. refl;
  write_flights = λ i n m. refl;
  allocate_same = Same-refl;
  take_sqe_same = Same-refl;
  prep_same = λ s i m. record { counts = λ j. refl; flights = refl };
  fixed_same = λ s m. Same-refl m;
  data_same = λ s d m. Same-refl m;
  submit_same = Same-refl;
  seen_same = λ c m. Same-refl m;
  wait_counts = λ m i. ground (arith, next_entry-counters m i);
  peek_counts = λ m i. ground (arith, next_entry-counters m i);
  wait_flights = λ m c h. ground (arith, (next_entry-completions m).1 c);
  wait_failed = λ m e h. ground arith;
  peek_flights = λ m c h. ground (arith, (next_entry-completions m).1 c);
  peek_none = λ m h. ground (arith, (next_entry-completions m).0);
  peek_failed = λ m e h. ground arith;
}

-- A unit of work is there to be had, so that a post does not wrap the count.
abbrev pub invoke_machine : ℕ → M machine (Unit {0})
invoke_machine zero c = ok tt c
invoke_machine (suc n) c = if ltb (c.work + 1) word_mod then post n c else ok tt c

abbrev pub complete_machine : ℕ → Cqe ℕ → M machine (Unit {0})
complete_machine x cqe c = on_work_finished c

abbrev pub users : User machine
users = record { invoke = invoke_machine; complete = complete_machine; others = λ c. c }

invoke-Steps :
    (h : ℕ) (c : Context machine) → Safe (λ _ d. Steps c d) (λ d. Steps c d) (invoke_machine h c)
unfolding post emplace on_work_started eventfd_write
invoke-Steps zero c = returns here
invoke-Steps (suc n) c = elim (Bool-cases (ltb (c.work + 1) word_mod)) [
  | inl room ↦ rw room (returns (next here (posts n (ground arith) refl refl)))
  | inr full ↦ rw full (returns here)
]

complete-Steps :
    (x : ℕ) (cqe : Cqe ℕ) (c : Context machine)
    → length c.q + length c.world.completions < c.work
    → Safe (λ _ d. Steps c d) (λ d. Steps c d) (complete_machine x cqe c)
unfolding on_work_finished eventfd_write
complete-Steps x cqe c less =
    let works : (c.work == 0) ≡ false = ground arith in
    elim (Bool-cases (c.work == 1)) [
      | inl last ↦ rw (works, last) (returns (next here (finishes less (rw (works, last)))))
      | inr more ↦ rw (works, more) (returns (next here (finishes less (rw (works, more)))))
    ]

pub users-Contract : Contract users
users-Contract = record {
  invoke_Steps = λ h c inv room. invoke-Steps h c;
  complete_Steps = λ x cqe c inv less. complete-Steps x cqe c less;
  others_Steps = λ c inv. here;
}

-- A context as the constructor leaves it, with all polls registered.
abbrev pub fresh_machine : Machine
fresh_machine = record {
  counters = λ i. 0;
  polled = λ i. true;
  completions = [];
  opened = λ i. true;
  ringing = true;
}

abbrev pub fresh_context : Context machine
fresh_context = record {
  q = [];
  q_started = true;
  pending = 0;
  stop_started = true;
  zero_started = true;
  work = 0;
  stopped_flag = false;
  tid = none;
  world = fresh_machine;
}

-- The same with three posts, of handlers that post nothing.
abbrev pub loaded_context : Context machine
loaded_context = record fresh_context {
  q = 0 ∷ 0 ∷ 0 ∷ [];
  work = 3;
  world = record fresh_machine { counters = bump (λ i. 0) of_queue 3 };
}
