-- ===== src/Examples/Locks.antt =====
-- Two threads and a spin lock: one holds it while the other spins.
use asio_uring.Base.{refl, true}
use asio_uring.SpinLock.{
  outside, spinning, holding, call_lock, spin, place, System, pick, Reach, start, later, lock_round,
}
use asio_uring.SpinLock.Exclusion.{Excludes, Reach-Excludes}

abbrev contended : System
contended = record {
  flag = true;
  pc = place (place (place (place (λ i. outside) 0 spinning) 0 holding) 1 spinning) 1 spinning;
}

contended-Reach : Reach contended
unfolding lock_round
contended-Reach =
    later (later (later (later start (pick 0 call_lock)) (pick 0 (spin refl))) (pick 1 call_lock))
      (pick 1 (spin refl))

Reach-Excludes_example : Excludes contended
Reach-Excludes_example = Reach-Excludes contended-Reach
