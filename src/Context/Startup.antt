-- ===== src/Context/Startup.antt =====
-- The constructor of the context: the members in the order of their declaration, the registration
-- of the three eventfds, and the first `restart`; and the destructors of the members, which run in
-- the reverse order, at the end or when the constructor throws. With src/core/uring.cpp.
use asio_uring.Base.{ℕ, false, none, [], ◌∷◌, Bool, Run, ◌>>◌, check_that, on_throw, modify}
use asio_uring.Context.Platform.{Platform, Internal, of_queue, of_stop, of_zero}
use asio_uring.Context.State.{Context, M, sys_result, restart}

-- The state of the fields that the constructor sets, around a world.
abbrev pub initial : {p : Platform} → p.World → Context p
initial w = record {
  q = [];
  q_started = false;
  pending = 0;
  stop_started = false;
  zero_started = false;
  work = 0;
  stopped_flag = false;
  tid = none;
  world = w;
}

module _ {p : Platform} where
  -- `eventfd(0, 0)`, and the destructor of its base
  unfoldable pub create : Internal → M p (Unit {0})
  create i c = sys_result c (p.open_eventfd i c.world)

  abbrev pub closed : Context p → Bool × p.World → Run (Context p) (Unit {0})
  closed c (r, w) = check_that r (record c { world = w })

  unfoldable pub close : Internal → M p (Unit {0})
  close i c = closed c (p.close_eventfd i c.world)

  -- `uring(entries, flags)` and `~uring`
  unfoldable pub create_ring : ℕ → ℕ → M p (Unit {0})
  create_ring entries flags c = sys_result c (p.queue_init entries flags c.world)

  unfoldable pub exit_ring : M p (Unit {0})
  exit_ring = modify (λ c. record c { world = p.queue_exit c.world })

  -- The body of the constructor
  unfoldable pub register : M p (Unit {0})
  register c = sys_result c (p.register_files (of_queue ∷ of_stop ∷ of_zero ∷ []) c.world)

  -- The members from one on and the body, each member with its destructor if what follows throws
  unfoldable pub from_ring : ℕ → ℕ → M p (Unit {0})
  from_ring entries flags = do
    create_ring entries flags
    λ c. on_throw ((do register; restart) c) exit_ring

  unfoldable pub from_zero : ℕ → ℕ → M p (Unit {0})
  from_zero entries flags = do
    create of_zero
    λ c. on_throw (from_ring entries flags c) (close of_zero)

  unfoldable pub from_stop : ℕ → ℕ → M p (Unit {0})
  from_stop entries flags = do
    create of_stop
    λ c. on_throw (from_zero entries flags c) (close of_stop)

  unfoldable pub start : ℕ → ℕ → p.World → Run (Context p) (Unit {0})
  start entries flags w =
      (do create of_queue; λ c. on_throw (from_stop entries flags c) (close of_queue)) (initial w)

  -- `~execution_context`. The queue destroys the callables that it still has; its eventfd is its own
  -- member.
  unfoldable pub finish : M p (Unit {0})
  finish = do
    exit_ring
    close of_zero
    close of_stop
    modify (λ c. record c { q = [] })
    close of_queue
