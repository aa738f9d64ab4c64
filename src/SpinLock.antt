-- ===== src/SpinLock.antt =====
-- src/core/spin_lock.cpp: the functions on the flag, and threads that call them, an access of the
-- flag at a time, in any order.
pub mod Exclusion
use asio_uring.Base.{ℕ, ◌≡◌, Bool, true, false, not, ◌==◌, if◌then◌else◌}

-- Whether the lock was acquired, and the flag that `test_and_set` leaves.
unfoldable pub try_lock : Bool → Bool × Bool
try_lock flag = (not flag, true)

-- Where a thread stands: in the loop of `lock`, past it, past the assertion of `unlock`, or at an
-- assertion that has failed.
pub data Pc : Type 0 where
  outside spinning holding releasing faulted : Pc

-- One round of `while (!try_lock());`
unfoldable pub lock_round : Bool → Pc
unfolding try_lock
lock_round flag = if (try_lock flag).0 then holding else spinning

-- What a caller of `try_lock` goes on to.
unfoldable pub tried : Bool → Pc
unfolding try_lock
tried flag = if (try_lock flag).0 then holding else outside

-- `assert(!try_lock())`
unfoldable pub unlock_check : Bool → Pc
unfolding try_lock
unlock_check flag = if not (try_lock flag).0 then releasing else faulted

-- A thread unlocks only what it has locked, as `unlock` requires of its callers.
pub data Move (flag : Bool) : Pc → Bool → Pc → Type 0 where
  call_lock : Move flag outside flag spinning
  spin : {p : Pc} → p ≡ lock_round flag → Move flag spinning (try_lock flag).1 p
  call_try_lock : {p : Pc} → p ≡ tried flag → Move flag outside (try_lock flag).1 p
  call_unlock : {p : Pc} → p ≡ unlock_check flag → Move flag holding (try_lock flag).1 p
  clear : Move flag releasing false outside

abbrev pub place : (ℕ → Pc) → ℕ → Pc → ℕ → Pc
place pc i p j = if i == j then p else pc j

pub record System : Type 0 where
  pub flag : Bool
  pub pc : ℕ → Pc

pub data Step (s : System) : System → Type 0 where
  pick :
      (i : ℕ) {f : Bool} {p : Pc}
      → Move s.flag (s.pc i) f p
      → Step s (record { flag = f; pc = place s.pc i p })

-- The constructor leaves the flag clear.
abbrev pub init : System
init = record { flag = false; pc = λ i. outside }

pub data Reach : System → Type 0 where
  start : Reach init
  later : {s t : System} → Reach s → Step s t → Reach t

-- Between the return of `lock` and the clearing of the flag.
abbrev pub critical : Pc → Bool
critical holding = true
critical releasing = true
critical _ = false
