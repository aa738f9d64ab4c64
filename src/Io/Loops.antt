-- ===== src/Io/Loops.antt =====
-- src/core/read.cpp and src/core/write.cpp. The loops take fuel, and `none` is a loop out of fuel.
-- The bytes that a read puts at the advancing pointer, and those that a write takes there, are a list.
use asio_uring.Base.{
  ℕ, zero, suc, ◌+◌, ◌-◌, ◌%◌, ◌==◌, if◌then◌else◌, ◌||◌, Option, none, some, List, [], ◌∷◌, ◌++◌,
  take, drop, length, Sys, done, failed, blocks, word_mod, add64,
}

abbrev pub eagain : ℕ
eagain = 11

-- On Linux `EWOULDBLOCK` is `EAGAIN`.
abbrev pub ewouldblock : ℕ
ewouldblock = 11

abbrev pub sub64 : ℕ → ℕ → ℕ
sub64 a b = (a + word_mod - b) % word_mod

-- The count that is returned, the bytes that went over, `ec` (its `errno`, or clear), and the world.
pub record Transferred (W : Type 0) : Type 0 where
  pub count : ℕ
  pub bytes : List ℕ
  pub error : Option ℕ
  pub world : W

-- `EAGAIN` is no error: the transfer ends with what it has.
abbrev pub error_of : ℕ → Option ℕ
error_of e = if (e == eagain) || (e == ewouldblock) then none else some e

module _ {W : Type 0} (sys_read : ℕ → W → Sys (List ℕ) × W) where
  -- The cases of the result of `::read`; `again` goes on with the loop.
  abbrev pub read_case :
      (ℕ → List ℕ → ℕ → W → Option (Transferred W))
      → ℕ
      → ℕ
      → List ℕ
      → Sys (List ℕ) × W
      → Option (Transferred W)
  read_case again size retr got (done [], w) =
      some (record { count = retr; bytes = got; error = none; world = w })
  read_case again size retr got (done (b ∷ bs), w) =
      let n : ℕ = length (b ∷ bs) in again (add64 retr n) (got ++ b ∷ bs) (sub64 size n) w
  read_case again size retr got (failed e, w) =
      some (record { count = retr; bytes = got; error = error_of e; world = w })
  read_case again size retr got (blocks, w) = none

  unfoldable pub read_loop : ℕ → ℕ → List ℕ → ℕ → W → Option (Transferred W)
  read_loop zero retr got size w = none
  read_loop (suc fuel) retr got size w =
      let more = read_case (λ r g s v. read_loop fuel r g s v) size retr got (sys_read size w) in
      if size == 0
      then some (record { count = retr; bytes = got; error = none; world = w })
      else more

  unfoldable pub read : ℕ → ℕ → W → Option (Transferred W)
  read fuel size w = read_loop fuel 0 [] size w

-- `sys_write` is given the bytes that are left.
module _ {W : Type 0} (sys_write : List ℕ → W → Sys ℕ × W) where
  abbrev pub write_case :
      (ℕ → List ℕ → List ℕ → W → Option (Transferred W))
      → ℕ
      → List ℕ
      → List ℕ
      → Sys ℕ × W
      → Option (Transferred W)
  write_case again retr sent left (done n, w) =
      again (add64 retr n) (sent ++ take n left) (drop n left) w
  write_case again retr sent left (failed e, w) =
      some (record { count = retr; bytes = sent; error = error_of e; world = w })
  write_case again retr sent left (blocks, w) = none

  unfoldable pub write_loop : ℕ → ℕ → List ℕ → List ℕ → W → Option (Transferred W)
  write_loop zero retr sent left w = none
  write_loop (suc fuel) retr sent left w =
      let more =
        write_case (λ r s l v. write_loop fuel r s l v) retr sent left (sys_write left w) in
      if length left == 0
      then some (record { count = retr; bytes = sent; error = none; world = w })
      else more

  unfoldable pub write : ℕ → List ℕ → W → Option (Transferred W)
  write fuel bytes w = write_loop fuel 0 [] bytes w
