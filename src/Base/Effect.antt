-- ===== src/Base/Effect.antt =====
-- Stateful code that may throw, fail an assertion, or not have returned. The model is that of a
-- build with assertions: a failed `assert`, an exception out of a `noexcept` function and undefined
-- behaviour all are `abort`. `running` is code that has not returned: it waits for ever, or the
-- fuel of its loop is used up.
use Prim.Native.Nat.{ℕ}
use mathlib.Core.Bool.{Bool, true, false}

-- `std::error_category`: the two standard ones, that of execution_context.cpp, and any other.
pub data Category : Type 0 where
  generic system context : Category
  other : ℕ → Category

-- `std::error_code`
pub record ErrorCode : Type 0 where
  pub category : Category
  pub value : ℕ

pub data Exception : Type 0 where
  system_error : ErrorCode → Exception
  runtime_error : Exception
  bad_alloc : Exception
  user : ℕ → Exception

-- What a system call returns: its result, `-1` with `errno`, or nothing, while it blocks.
pub data Sys {ℓ} (A : Type ℓ) : Type ℓ where
  done : A → Sys A
  failed : ℕ → Sys A
  blocks : Sys A

pub data Run {ℓ κ} (S : Type ℓ) (A : Type κ) : Type (ℓ ⊔ κ) where
  ok : A → S → Run S A
  throw : Exception → S → Run S A
  abort : Run S A
  running : S → Run S A

abbrev pub generic_error : ℕ → Exception
generic_error e = system_error (record { category = Category.generic; value = e })

module _ {ℓ} {S : Type ℓ} where
  abbrev pub and_then {κ ι} : {A : Type κ} {B : Type ι} → Run S A → (A → S → Run S B) → Run S B
  and_then (ok a s) k = k a s
  and_then (throw e s) k = throw e s
  and_then abort k = abort
  and_then (running s) k = running s

  infixl 5 ◌>>=◌ ◌>>◌
  abbrev pub ◌>>=◌ {κ ι} :
      {A : Type κ} {B : Type ι} → (S → Run S A) → (A → S → Run S B) → S → Run S B
  ◌>>=◌ m k s = and_then (m s) k

  abbrev pub ◌>>◌ {κ ι} : {A : Type κ} {B : Type ι} → (S → Run S A) → (S → Run S B) → S → Run S B
  ◌>>◌ m n s = and_then (m s) (λ _. n)

  abbrev pub pure {κ} : {A : Type κ} → A → S → Run S A
  pure a s = ok a s

  abbrev pub raise {κ} : {A : Type κ} → Exception → S → Run S A
  raise e s = throw e s

  abbrev pub modify : (S → S) → S → Run S (Unit {0})
  modify f s = ok tt (f s)

  abbrev pub check_that : Bool → S → Run S (Unit {0})
  check_that true s = ok tt s
  check_that false s = abort

  -- An exception that leaves a `noexcept` function terminates the program.
  abbrev pub no_throw {κ} : {A : Type κ} → Run S A → Run S A
  no_throw (throw e s) = abort
  no_throw r = r

  -- A destructor or a `catch (...) { f; throw; }`: `f` runs on the way out of either exit.
  abbrev pub finally {κ} : {A : Type κ} → Run S A → (S → S) → Run S A
  finally (ok a s) f = ok a (f s)
  finally (throw e s) f = throw e (f s)
  finally abort f = abort
  finally (running s) f = running s

  -- A destructor that is code of its own
  abbrev pub on_exit {κ} : {A : Type κ} → Run S A → (S → Run S (Unit {0})) → Run S A
  on_exit (ok a s) f = and_then (f s) (λ _. pure a)
  on_exit (throw e s) f = and_then (f s) (λ _. raise e)
  on_exit abort f = abort
  on_exit (running s) f = running s

  -- The destructors that run when an exception leaves the scope
  abbrev pub on_throw {κ} : {A : Type κ} → Run S A → (S → Run S (Unit {0})) → Run S A
  on_throw (throw e s) f = and_then (f s) (λ _. raise e)
  on_throw r f = r

  -- `try { r } catch (...) { f }`
  abbrev pub catch_all {κ} : {A : Type κ} → Run S A → (S → Run S A) → Run S A
  catch_all (throw e s) f = f s
  catch_all r f = r

-- The same run in a state that is made from its own.
abbrev pub map_state {ℓ κ ι} : {S : Type ℓ} {T : Type κ} {A : Type ι} → (S → T) → Run S A → Run T A
map_state f (ok a s) = ok a (f s)
map_state f (throw e s) = throw e (f s)
map_state f abort = abort
map_state f (running s) = running (f s)
