-- ===== src/Context/Platform.antt =====
-- What execution_context.cpp calls and does not implement: eventfd(2) through `read` and `write`,
-- liburing, and the callables and completions of its users. `Laws` is their documented behaviour.
use asio_uring.Base.{
  ℕ, ◌+◌, ◌<◌, ◌≡◌, Bool, true, false, Option, none, some, List, Sys, done, failed, if◌then◌else◌,
}

-- The three eventfds of a context, and the addresses of their flags as `user_data`.
pub data Internal : Type 0 where
  of_queue of_stop of_zero : Internal

abbrev pub same : Internal → Internal → Bool
same of_queue of_queue = true
same of_stop of_stop = true
same of_zero of_zero = true
same _ _ = false

-- `io_uring_sqe::user_data`: the address of one of the flags, or of a completion.
pub data UserData (C : Type 0) : Type 0 where
  internal : Internal → UserData C
  external : C → UserData C

pub record Cqe (C : Type 0) : Type 0 where
  pub user_data : UserData C
  pub res : ℕ

pub record Platform : Type 1 where
  pub World : Type 0
  pub Sqe : Type 0
  pub Handler : Type 0
  pub Completion : Type 0
  pub count : World → Internal → ℕ
  -- Operations of users that are submitted and whose completions have not been taken off the ring.
  pub in_flight : World → ℕ
  -- Storage for a node of the queue and for the callable in it; `false` is `std::bad_alloc`.
  pub allocate : World → Bool × World
  pub open_eventfd : Internal → World → Sys (Unit {0}) × World
  -- `close` of the descriptor; `false` is a result that is not 0.
  pub close_eventfd : Internal → World → Bool × World
  pub read_eventfd : Internal → World → Sys ℕ × World
  pub write_eventfd : Internal → ℕ → World → Sys (Unit {0}) × World
  pub queue_init : ℕ → ℕ → World → Sys (Unit {0}) × World
  pub queue_exit : World → World
  pub register_files : List Internal → World → Sys (Unit {0}) × World
  pub take_sqe : World → Option Sqe × World
  pub prep_poll_add : Sqe → ℕ → World → World
  pub set_fixed_file : Sqe → World → World
  pub set_user_data : Sqe → UserData Completion → World → World
  pub submit : World → Sys ℕ × World
  pub wait_cqe : World → Sys (Cqe Completion) × World
  pub peek_cqe : World → Sys (Option (Cqe Completion)) × World
  pub cqe_seen : Cqe Completion → World → World

-- Nothing that the context keeps account of differs: no counter, and no operation in flight.
pub record Same (p : Platform) (v w : p.World) : Type 0 where
  pub counts : (i : Internal) → p.count w i ≡ p.count v i
  pub flights : p.in_flight w ≡ p.in_flight v

-- One completion of a user's, or none, has been taken off the ring.
abbrev pub landed : {C : Type 0} → UserData C → ℕ
landed (internal i) = 0
landed (external x) = 1

-- eventfd(2): a read takes the whole counter, which was not 0; a write adds to it; one that fails
-- leaves it. liburing: no call on the ring touches the counters; a completion is handed out once.
pub record Laws (p : Platform) : Type 0 where
  pub read_done :
      (i : Internal) (w : p.World) (n : ℕ) (j : Internal)
      → (p.read_eventfd i w).0 ≡ done n
      → (n ≡ p.count w i)
        × (0 < n)
        × (p.count (p.read_eventfd i w).1 j ≡ (if same i j then 0 else p.count w j))
  pub read_failed :
      (i : Internal) (w : p.World) (e : ℕ) (j : Internal)
      → (p.read_eventfd i w).0 ≡ failed e
      → p.count (p.read_eventfd i w).1 j ≡ p.count w j
  pub read_flights :
      (i : Internal) (w : p.World) → p.in_flight (p.read_eventfd i w).1 ≡ p.in_flight w
  pub write_done :
      (i : Internal) (n : ℕ) (w : p.World) (j : Internal)
      → (p.write_eventfd i n w).0 ≡ done tt
      → p.count (p.write_eventfd i n w).1 j ≡ (if same i j then p.count w j + n else p.count w j)
  pub write_flights :
      (i : Internal) (n : ℕ) (w : p.World) → p.in_flight (p.write_eventfd i n w).1 ≡ p.in_flight w
  pub allocate_same : (w : p.World) → Same p w (p.allocate w).1
  pub take_sqe_same : (w : p.World) → Same p w (p.take_sqe w).1
  pub prep_same : (s : p.Sqe) (i : ℕ) (w : p.World) → Same p w (p.prep_poll_add s i w)
  pub fixed_same : (s : p.Sqe) (w : p.World) → Same p w (p.set_fixed_file s w)
  pub data_same :
      (s : p.Sqe) (d : UserData p.Completion) (w : p.World) → Same p w (p.set_user_data s d w)
  pub submit_same : (w : p.World) → Same p w (p.submit w).1
  pub seen_same : (c : Cqe p.Completion) (w : p.World) → Same p w (p.cqe_seen c w)
  pub wait_counts : (w : p.World) (i : Internal) → p.count (p.wait_cqe w).1 i ≡ p.count w i
  pub peek_counts : (w : p.World) (i : Internal) → p.count (p.peek_cqe w).1 i ≡ p.count w i
  pub wait_flights :
      (w : p.World) (c : Cqe p.Completion)
      → (p.wait_cqe w).0 ≡ done c
      → p.in_flight (p.wait_cqe w).1 + landed c.user_data ≡ p.in_flight w
  pub wait_failed :
      (w : p.World) (e : ℕ)
      → (p.wait_cqe w).0 ≡ failed e
      → p.in_flight (p.wait_cqe w).1 ≡ p.in_flight w
  pub peek_flights :
      (w : p.World) (c : Cqe p.Completion)
      → (p.peek_cqe w).0 ≡ done (some c)
      → p.in_flight (p.peek_cqe w).1 + landed c.user_data ≡ p.in_flight w
  pub peek_none :
      (w : p.World) → (p.peek_cqe w).0 ≡ done none → p.in_flight (p.peek_cqe w).1 ≡ p.in_flight w
  pub peek_failed :
      (w : p.World) (e : ℕ)
      → (p.peek_cqe w).0 ≡ failed e
      → p.in_flight (p.peek_cqe w).1 ≡ p.in_flight w
