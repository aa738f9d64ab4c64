-- ===== src/Examples/Histories.antt =====
-- A handler that begins the next operation from within its call.
use asio_uring.Base.{
  ℕ, ◌+◌, ◌≡◌, refl, ◌&&◌, Bool-cases, inl, inr, if◌then◌else◌, ltb, word_mod, [], ◌∷◌, some, Run,
  ok, throw, abort, running, Safe, returns, Safe-mono, Returns, arith,
}
use asio_uring.EventfdQueue.Nodes.{refused}
use asio_uring.Context.Platform.{external}
use asio_uring.Context.Simulation.{machine, machine-Laws}
use asio_uring.Io.Codes.{pos, success}
use asio_uring.Asio.Initiate.{Start, Args, poll_add_completion}
use asio_uring.Asio.Files.{IoFile, poll_in}
use asio_uring.Asio.Files
use asio_uring.FileObject
use asio_uring.FileObject.{native_handle, wrap}
use asio_uring.Asio.Handler
use asio_uring.Asio.Handler.{construct}
use asio_uring.Asio.Initiate.{initiate_poll_add, args_of}
use asio_uring.Context.State
use asio_uring.Context.State.{get_sqe, eventfd_write}
use asio_uring.Context.Executor.{on_work_started, on_work_finished, running_in_this_thread}
use asio_uring.Service.Pool
use asio_uring.Service.Pool.{
  initiate, acquire, maybe_allocate, launch, emplace, submit, release, release_iovs,
}
use asio_uring.Io.Codes.{to_poll_add_result}
use asio_uring.Asio.Calls.{complete, call, invoke}
use asio_uring.Asio.Calls.{Environment, Event, begins, completes, exec, tear_down, destroy_context}
use asio_uring.Asio.Accounts.{Balanced, Respects}
use asio_uring.Asio.Events.{Valid, begins-Account, exec-Balanced}
use asio_uring.Asio.Teardown.{Silent}
use asio_uring.Asio.Waking.{AwakeOf, Wakeful, Woken}
use asio_uring.Asio.Liveness.{begins-Awake, Reach-Woken}
use asio_uring.Asio.Destruction.{destroy_context-Gone}
use asio_uring.Context.Resources.{Upto}
use asio_uring.Examples.Lifecycle.{machine-Resources, whole_machine}
use asio_uring.Asio.Histories.{here, returning, Reach-Balanced, Reach-Silent}
use asio_uring.Examples.Files.{open_file, usual_start, no_preps, open-Shared}

-- Only a completion of the free list can be had.
abbrev no_memory : Start machine
no_memory = record usual_start { allocation = refused }

-- A handler polls again while the object has its descriptor and the count of work has room.
abbrev polls_again : ℕ → Args → IoFile machine → Run (IoFile machine) (Unit {0})
polls_again h a s =
    if s.file.attached && ltb (s.service.ctx.work + 2) word_mod
    then Files.exec no_preps no_memory poll_in (h + 1) s
    else ok tt s

abbrev looping : Environment machine
looping = record {
  thread = 1;
  aborted = success;
  int_of = pos;
  user = polls_again;
  bind = λ h a. h;
}

looping-Respects : Respects 0 looping
looping-Respects c w a s (x, y) =
    elim (Bool-cases (s.file.attached && ltb (s.service.ctx.work + 2) word_mod)) [
      | inl e ↦ rw e (
          Safe-mono
            (begins-Account no_preps no_memory poll_in 0 1 (w.handler + 1) _ s x
              (record { writes = λ v. refl; sound = x.sound; unused = tt; room = ground arith })
              (ground arith))
            (λ _ d z. (z.0, z.1 c w y)) (λ d z. (z.0, z.1 c w y)))
      | inr e ↦ rw e (returns (x, y))
    ]

looping-Wakeful : Wakeful machine-Laws (λ w. refl) looping
looping-Wakeful c w a s (x, y) m =
    elim (Bool-cases (s.file.attached && ltb (s.service.ctx.work + 2) word_mod)) [
      | inl e ↦ rw e (
          begins-Awake machine-Laws (λ v. refl) no_preps no_memory poll_in 1 (w.handler + 1) _ s x
            (record { writes = λ v. refl; sound = x.sound; unused = tt; room = ground arith })
            (ground arith))
      | inr e ↦ rw e m
    ]

abbrev idle : IoFile machine
idle = record open_file {
  service = record open_file.service {
    ctx = record open_file.service.ctx { tid = some 1 };
    free = 4 ∷ 5 ∷ [];
    allocated = 5 ∷ 4 ∷ [];
  };
}

idle-Balanced : Balanced 0 idle
idle-Balanced = record {
  sound = record {
    placed = λ c. ground arith;
    once = λ c. ground arith;
    apart = λ c z. refl;
    bare = λ c z. refl;
    paid = omega arith;
    room = omega arith;
    cleared = tt;
  };
  shared = open-Shared;
  pointers = refl;
  held = λ h. omega arith;
  spent = refl;
}

abbrev after : IoFile machine → Run (IoFile machine) (Unit {0}) → IoFile machine
after s (ok a t) = t
after s (throw e t) = t
after s abort = s
after s (running t) = t

abbrev polls : Event machine
polls = begins usual_start poll_in 70

abbrev polled : Event machine
polled = completes 4 (record { user_data = external 4; res = 1 })

abbrev polling : IoFile machine
polling = after idle (exec no_preps looping polls idle)

-- The handler has begun a poll with the completion 5.
abbrev polled_once : IoFile machine
polled_once = after polling (exec no_preps looping polled polling)

polls_lem : exec no_preps looping polls idle ≡ ok tt polling
unfolding exec Files.exec Files.async_poll_in native_handle wrap initiate_poll_add initiate acquire
    maybe_allocate launch emplace get_sqe submit State.submit on_work_started construct
polls_lem = refl

polled_lem : exec no_preps looping polled polling ≡ ok tt polled_once
unfolding exec Files.exec Files.async_poll_in native_handle wrap initiate_poll_add initiate acquire
    maybe_allocate launch emplace get_sqe submit State.submit on_work_started construct complete
    call invoke args_of on_work_finished running_in_this_thread eventfd_write release Pool.reset
    release_iovs FileObject.release Handler.discard to_poll_add_result FileObject.discard
polled_lem = refl

polls-Valid : Valid looping polls idle
polls-Valid = (
  record { writes = λ w. refl; sound = idle-Balanced.sound; unused = refl; room = omega arith },
  refl,
)

polling-Balanced : Balanced 0 polling
polling-Balanced =
    Reach-Balanced no_preps looping 0 (λ w. refl) looping-Respects idle-Balanced
      (returning polls here polls-Valid polls_lem)

polled-Valid : Valid looping polled polling
unfolding exec Files.exec Files.async_poll_in native_handle wrap initiate_poll_add initiate acquire
    maybe_allocate launch emplace get_sqe submit State.submit on_work_started construct
polled-Valid = (record { kind = poll_add_completion; handler = 70 }, (refl, refl), refl)

exec-Balanced_example :
    Safe (λ _ d. Balanced 0 d) (Balanced 0) (exec no_preps looping polled polling)
exec-Balanced_example =
    exec-Balanced no_preps looping 0 polled polling (λ w. refl) looping-Respects polled-Valid
      polling-Balanced

Reach-Silent_example :
    Returns (λ _ f. Silent 0 f × (f.service.allocated ≡ [])) (tear_down polled_once)
Reach-Silent_example =
    Reach-Silent no_preps looping 0 idle polled_once (λ w. refl) looping-Respects idle-Balanced
      (returning polled (returning polls here polls-Valid polls_lem) polled-Valid polled_lem)

polling-Upto : Upto machine-Resources 4 polling.service.ctx.world
unfolding exec Files.exec Files.async_poll_in native_handle wrap initiate_poll_add initiate acquire
    maybe_allocate launch emplace get_sqe submit State.submit on_work_started construct
polling-Upto = whole_machine _ (λ i. refl) refl

destroy_context-Gone_example :
    Returns
      (λ _ d.
        Silent 0 d
        × (d.service.allocated ≡ [])
        × (d.service.ctx.q ≡ [])
        × Upto machine-Resources 0 d.service.ctx.world)
      (destroy_context polling)
destroy_context-Gone_example =
    destroy_context-Gone machine-Resources 0 polling (λ w. refl) polling-Balanced polling-Upto

polling-Awake : AwakeOf machine-Laws (λ w. refl) polling
unfolding exec Files.exec Files.async_poll_in native_handle wrap initiate_poll_add initiate acquire
    maybe_allocate launch emplace get_sqe submit State.submit on_work_started construct
polling-Awake = (polling-Balanced.sound.room, λ z. absurd (omega (arith, z)))

Reach-Woken_example : Woken machine-Laws (λ w. refl) polled_once
Reach-Woken_example =
    Reach-Woken machine-Laws (λ w. refl) no_preps looping looping-Respects looping-Wakeful polling
      polled_once polling-Balanced polling-Awake (returning polled here polled-Valid polled_lem)
