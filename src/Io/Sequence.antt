-- ===== src/Io/Sequence.antt =====
-- src/asio/include/asio_uring/asio/read.hpp and write.hpp of the same directory, with src/asio/read.cpp
-- and write.cpp: transfers over a sequence of buffers. An error is its `errno`; the conversion
-- in those two files is in Io/PollFile.
use asio_uring.Base.{
  ℕ, ◌+◌, ◌≤◌, ◌<◌, ◌≡◌, refl, sym, ◌∙◌, ◌==◌, not, ◌||◌, Bool, true, false, if◌then◌else◌, Option,
  none, some, List, [], ◌∷◌, ◌++◌, length, length-append, Sys, word_mod, add64, arith, ap,
  Bool-cases, inl, inr,
}
use mathlib.Core.List.{append_assoc, append-nil}
use asio_uring.Io.Transfer.{Ends, Sends, ReadLaws, WriteLaws, read-Ends, write-Sends}
use asio_uring.Io.Loops.{Transferred, read, write}

abbrev is_error : Option ℕ → Bool
is_error none = false
is_error (some e) = true

abbrev pub sum : List ℕ → ℕ
sum [] = 0
sum (n ∷ ns) = n + sum ns

abbrev pub concat : List (List ℕ) → List ℕ
concat [] = []
concat (b ∷ bs) = b ++ concat bs

-- After the transfer `t` of a buffer of `size` bytes: stop, or go on with the next buffer.
abbrev pub next_buffer :
    {W : Type 0}
    → (ℕ → List ℕ → W → Option (Transferred W))
    → ℕ
    → ℕ
    → List ℕ
    → Option (Transferred W)
    → Option (Transferred W)
next_buffer again size retr got none = none
next_buffer again size retr got (some t) =
    let total = add64 retr t.count in
    let more = again total (got ++ t.bytes) t.world in
    if is_error t.error || not (t.count == size)
    then some (record { count = total; bytes = got ++ t.bytes; error = t.error; world = t.world })
    else more

-- A buffer to read into is its size.
unfoldable pub read_buffers :
    {W : Type 0} → (ℕ → W → Sys (List ℕ) × W) → ℕ → List ℕ → ℕ → List ℕ → W → Option (Transferred W)
read_buffers sys_read fuel [] retr got w =
    some (record { count = retr; bytes = got; error = none; world = w })
read_buffers sys_read fuel (size ∷ mb) retr got w =
    next_buffer (λ r g v. read_buffers sys_read fuel mb r g v) size retr got
      (read sys_read fuel size w)

-- A buffer to write from is its bytes.
unfoldable pub write_buffers :
    {W : Type 0}
    → (List ℕ → W → Sys ℕ × W)
    → ℕ
    → List (List ℕ)
    → ℕ
    → List ℕ
    → W
    → Option (Transferred W)
write_buffers sys_write fuel [] retr sent w =
    some (record { count = retr; bytes = sent; error = none; world = w })
write_buffers sys_write fuel (buffer ∷ cb) retr sent w =
    next_buffer (λ r g v. write_buffers sys_write fuel cb r g v) (length buffer) retr sent
      (write sys_write fuel buffer w)

module _ {W : Type 0} (sys_read : ℕ → W → Sys (List ℕ) × W) (l : ReadLaws sys_read) where
  next-Ends :
      (again : ℕ → List ℕ → W → Option (Transferred W)) (size retr total : ℕ) (got : List ℕ)
      (o : Option (Transferred W))
      → Ends size o
      → retr ≡ length got
      → retr + size ≤ total
      → total < word_mod
      → ((r : ℕ) (g : List ℕ) (v : W) → r ≡ length g → r ≡ retr + size → Ends total (again r g v))
      → Ends total (next_buffer again size retr got o)
  next-Ends again size retr total got o (t, e, it) c le m k =
      rw e (elim (Bool-cases (is_error t.error || not (t.count == size))) [
        | inl stop ↦ rw stop (
          record {
            count = add64 retr t.count;
            bytes = got ++ t.bytes;
            error = t.error;
            world = t.world;
          },
          refl,
          record {
            counted = omega (arith, it.counted, it.bounded, length-append got t.bytes);
            bounded = omega (arith, it.bounded);
            no_again = it.no_again;
          },
        )
        | inr more ↦ rw more (
            k (add64 retr t.count) (got ++ t.bytes) t.world
              (omega (arith, it.counted, it.bounded, length-append got t.bytes))
              (ground (arith, it.bounded)))
      ])

  read_buffers-total :
      (mb : List ℕ) (fuel retr total : ℕ) (got : List ℕ) (w : W)
      → retr ≡ length got
      → retr + sum mb ≡ total
      → total < word_mod
      → total < fuel
      → Ends total (read_buffers sys_read fuel mb retr got w)
  unfolding read_buffers
  read_buffers-total [] fuel retr total got w c t m f = (
    record { count = retr; bytes = got; error = none; world = w },
    refl,
    record { counted = c; bounded = omega arith; no_again = λ e. cc },
  )
  read_buffers-total (size ∷ mb) fuel retr total got w c t m f =
      next-Ends (λ r g v. read_buffers sys_read fuel mb r g v) size retr total got
        (read sys_read fuel size w) (read-Ends sys_read l size fuel w (omega arith) (omega arith)) c
        (omega arith) m λ r g v e q. read_buffers-total mb fuel r total g v e (omega arith) m f

  -- A read into a sequence of buffers of fewer than 2 ^ 64 bytes in all, with more fuel than bytes
  -- and a descriptor as for `read`: it returns, its count is the number of bytes it got, at most
  -- the sum of the sizes, and the error is not EAGAIN.
  pub read_buffers-Ends :
      (mb : List ℕ) (fuel : ℕ) (w : W)
      → sum mb < word_mod
      → sum mb < fuel
      → Ends (sum mb) (read_buffers sys_read fuel mb 0 [] w)
  read_buffers-Ends mb fuel w m f =
      read_buffers-total mb fuel 0 (sum mb) [] w refl (omega arith) m f

no_length : (xs : List ℕ) → length xs ≡ 0 → xs ≡ []
no_length [] e = refl
no_length (x ∷ xs) e = absurd (omega (arith, e))

module _ {W : Type 0} (sys_write : List ℕ → W → Sys ℕ × W) (l : WriteLaws sys_write) where
  next-Sends :
      (again : ℕ → List ℕ → W → Option (Transferred W)) (buffer later all : List ℕ) (retr : ℕ)
      (sent : List ℕ) (o : Option (Transferred W))
      → Sends buffer o
      → retr ≡ length sent
      → sent ++ (buffer ++ later) ≡ all
      → length all < word_mod
      → ((r : ℕ) (g : List ℕ) (v : W) → r ≡ length g → g ++ later ≡ all → Sends all (again r g v))
      → Sends all (next_buffer again (length buffer) retr sent o)
  next-Sends again buffer later all retr sent o (t, rest, e, pre, it) c whole m k =
      let fits : length sent + length buffer ≤ length all = omega (
        arith,
        ap length whole,
        length-append sent (buffer ++ later),
        length-append buffer later,
      ) in
      let counted : add64 retr t.count ≡ length (sent ++ t.bytes) =
        omega (arith, it.counted, it.bounded, length-append sent t.bytes) in
      rw e (elim (Bool-cases (is_error t.error || not (t.count == length buffer))) [
        | inl stop ↦ rw stop (
          record {
            count = add64 retr t.count;
            bytes = sent ++ t.bytes;
            error = t.error;
            world = t.world;
          },
          rest ++ later,
          refl,
          append_assoc sent t.bytes (rest ++ later)
              ∙ ap (λ z. sent ++ z)
                  (sym (append_assoc t.bytes rest later) ∙ ap (λ z. z ++ later) pre)
              ∙ whole,
          record { counted = counted; bounded = omega (arith, it.bounded); no_again = it.no_again },
        )
        | inr more ↦
            let full : t.count ≡ length buffer = ground (arith, it.bounded) in
            let nothing_left : rest ≡ [] =
              no_length rest
                (omega (arith, full, it.counted, ap length pre, length-append t.bytes rest)) in
            let all_sent : t.bytes ≡ buffer =
              sym (append-nil t.bytes) ∙ ap (λ z. t.bytes ++ z) (sym nothing_left) ∙ pre in
            rw more (
              k (add64 retr t.count) (sent ++ t.bytes) t.world counted
                (append_assoc sent t.bytes later ∙ ap (λ z. sent ++ (z ++ later)) all_sent ∙ whole))
      ])

  write_buffers-all :
      (cb : List (List ℕ)) (fuel retr : ℕ) (sent all : List ℕ) (w : W)
      → retr ≡ length sent
      → sent ++ concat cb ≡ all
      → length all < word_mod
      → length all < fuel
      → Sends all (write_buffers sys_write fuel cb retr sent w)
  unfolding write_buffers
  write_buffers-all [] fuel retr sent all w c whole m f = (
    record { count = retr; bytes = sent; error = none; world = w },
    [],
    refl,
    whole,
    record {
      counted = c;
      bounded = omega (arith, ap length whole, length-append sent []);
      no_again = λ e. cc;
    },
  )
  write_buffers-all (buffer ∷ cb) fuel retr sent all w c whole m f =
      let fits : length buffer ≤ length all = omega (
        arith,
        ap length whole,
        length-append sent (buffer ++ concat cb),
        length-append buffer (concat cb),
      ) in
      next-Sends (λ r g v. write_buffers sys_write fuel cb r g v) buffer (concat cb) all retr sent
        (write sys_write fuel buffer w)
        (write-Sends sys_write l buffer fuel w (omega arith) (omega arith)) c whole m
        λ r g v e q. write_buffers-all cb fuel r g all v e q m f

  -- A write of a sequence of buffers of fewer than 2 ^ 64 bytes in all, with more fuel than bytes
  -- and a descriptor as for `write`: it returns, having sent a prefix of the concatenation of the
  -- buffers, its count is the length of that prefix, and the error is not EAGAIN.
  pub write_buffers-Sends :
      (cb : List (List ℕ)) (fuel : ℕ) (w : W)
      → length (concat cb) < word_mod
      → length (concat cb) < fuel
      → Sends (concat cb) (write_buffers sys_write fuel cb 0 [] w)
  write_buffers-Sends cb fuel w m f = write_buffers-all cb fuel 0 [] (concat cb) w refl refl m f
