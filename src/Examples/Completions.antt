-- ===== src/Examples/Completions.antt =====
-- A service on the platform of Context/Simulation.antt, with one operation under way.
use asio_uring.Base.{
  ℕ, ◌+◌, ◌≡◌, refl, none, some, [], ◌∷◌, ok, abort, user, arith, Safe, Returns, throw, throws,
}
use asio_uring.EventfdQueue.Nodes.{update, refused, allocated_at, built, not_built}
use asio_uring.Context.Platform.{Cqe, external}
use asio_uring.Context.Simulation.{machine, fresh_context}
use asio_uring.Service.Pool.{
  Service, M, no_iovs, initiate, initiate_iovs, complete, shutdown, release_iovs, acquire_iovs,
  close,
}
use asio_uring.Service.Account.{Writes, Sound}
use asio_uring.Service.Initiate.{initiate-Launched, initiate_iovs-Launched}
use asio_uring.Service.Acquire.{Restored, Begun}
use asio_uring.Service.Handles.{close-Returns}
use asio_uring.Service.Complete.{
  Ended, complete-Ended, complete-shutdown, acquire_iovs-release_iovs,
}

machine-Writes : Writes machine
machine-Writes w = refl

-- The completion 1 is in use for the handle 5, with the handler 70; the completion 2 is free, and
-- the cache has a vector for 4 buffers.
abbrev busy_service : Service machine ℕ
busy_service = record {
  ctx = record fresh_context { work = 1 };
  free = 2 ∷ [];
  in_use = 1 ∷ [];
  held = (5, 1) ∷ [];
  wrapped = update (λ c. none) 1 (some 70);
  iovs = update (λ c. no_iovs) 1 (record { size = 3; capacity = 3 });
  cache = (record { size = 0; capacity = 4 }) ∷ [];
  allocated = 2 ∷ 1 ∷ [];
}

busy-Sound : Sound busy_service
busy-Sound = record {
  placed = λ c. ground arith;
  once = λ c. ground arith;
  apart = λ c z. ground arith;
  bare = λ c z. ground arith;
  paid = omega arith;
  room = omega arith;
  cleared = (refl, tt);
}

initiate-Launched_example :
    Safe
      (λ _ d. Begun 5 (built 80) busy_service d)
      (Restored busy_service)
      (initiate (λ c. c) 5 (λ sqe c w. w) (built 80) (allocated_at 3) busy_service)
initiate-Launched_example =
    initiate-Launched (λ c. c) 5 (λ sqe c w. w) (built 80) (allocated_at 3) busy_service
      machine-Writes busy-Sound refl (omega arith)

initiate_iovs-Launched_example :
    Safe
      (λ _ d. Begun 6 (not_built (user 1)) busy_service d)
      (Restored busy_service)
      (initiate_iovs
        (λ c. c)
        (λ n. n)
        6
        9
        (λ sqe c v w. w)
        (not_built (user 1))
        refused
        busy_service)
initiate_iovs-Launched_example =
    initiate_iovs-Launched (λ c. c) (λ n. n) 6 9 (λ sqe c v w. w) (not_built (user 1)) refused
      busy_service machine-Writes busy-Sound tt (omega arith)

abbrev ignore : ℕ → Cqe ℕ → M machine ℕ (Unit {0})
ignore h cqe s = ok tt s

abbrev an_entry : Cqe ℕ
an_entry = record { user_data = external 1; res = 0 }

-- The handler throws.
abbrev fails : ℕ → Cqe ℕ → M machine ℕ (Unit {0})
fails h cqe s = throw (user h) s

complete-Ended_example :
    Ended 1 70 (fails 70 an_entry busy_service) (complete fails 1 an_entry busy_service)
complete-Ended_example =
    complete-Ended machine-Writes fails 1 70 an_entry busy_service (throws (busy-Sound, refl, refl))
      (busy-Sound, refl, refl)

complete-shutdown_example :
    Returns (λ _ d. complete ignore 1 an_entry d ≡ abort) (shutdown busy_service)
complete-shutdown_example =
    complete-shutdown machine-Writes ignore 1 an_entry busy_service busy-Sound

acquire_iovs-release_iovs_example :
    acquire_iovs (λ n. n) 100 (release_iovs 1 busy_service)
    ≡ ok
        (record { size = 0; capacity = 3 })
        (record (release_iovs 1 busy_service) { cache = (record { size = 0; capacity = 4 }) ∷ [] })
acquire_iovs-release_iovs_example =
    acquire_iovs-release_iovs (λ n. n) 100 1 busy_service (omega arith) refl

close-Returns_example :
    Returns (λ _ d. (d.allocated ≡ []) × (d.ctx.work + 1 ≡ 1)) (close busy_service)
close-Returns_example = close-Returns busy_service machine-Writes busy-Sound
