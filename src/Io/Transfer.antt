-- ===== src/Io/Transfer.antt =====
-- The transfers of src/core/read.cpp and src/core/write.cpp end, with what they have transferred.
use asio_uring.Base.{
  ℕ, zero, suc, ◌+◌, ◌≤◌, ◌<◌, ◌≡◌, refl, ◌≢◌, ◌==◌, inl, inr, Option, none, some, List, [], ◌∷◌,
  ◌++◌, take, drop, length, length-append, length-drop, length-take, take-append-drop, Sys, done,
  failed, blocks, word_mod, add64, arith, Bool-cases, ap, ◌∙◌,
}
use mathlib.Core.List.{append_assoc}
use asio_uring.Io.Loops.{
  read_case, write_case, eagain, sub64, Transferred, error_of, read_loop, read, write_loop, write,
}

-- A transfer of at most `size` bytes: the count is that of the bytes, which fit, and the error is
-- none that only says to come back.
pub record IsTransfer {W : Type 0} (size : ℕ) (t : Transferred W) : Type 0 where
  pub counted : t.count ≡ length t.bytes
  pub bounded : t.count ≤ size
  pub no_again : t.error ≢ some eagain

abbrev pub Ends : {W : Type 0} → ℕ → Option (Transferred W) → Type 0
Ends {W} size r = (t : Transferred W) × (r ≡ some t) × IsTransfer size t

-- read(2) on a descriptor in non-blocking mode: at most as many bytes as were asked for, at once.
pub record ReadLaws {W : Type 0} (sys_read : ℕ → W → Sys (List ℕ) × W) : Type 0 where
  pub at_most : (n : ℕ) (w : W) (bs : List ℕ) → (sys_read n w).0 ≡ done bs → length bs ≤ n
  pub no_wait : (n : ℕ) (w : W) → (sys_read n w).0 ≢ blocks

-- write(2) in that mode: of a non-empty buffer at least one byte, and no more than there are.
pub record WriteLaws {W : Type 0} (sys_write : List ℕ → W → Sys ℕ × W) : Type 0 where
  pub at_most : (bs : List ℕ) (w : W) (n : ℕ) → (sys_write bs w).0 ≡ done n → n ≤ length bs
  pub some_byte :
      (bs : List ℕ) (w : W) (n : ℕ) → 0 < length bs → (sys_write bs w).0 ≡ done n → 0 < n
  pub no_wait : (bs : List ℕ) (w : W) → (sys_write bs w).0 ≢ blocks

error_of-ne : (e : ℕ) → error_of e ≢ some eagain
error_of-ne e = ground arith

-- What the next round owes: it ends well from any state on the way to `total`.
abbrev Next : {W : Type 0} → ℕ → ℕ → (ℕ → List ℕ → ℕ → W → Option (Transferred W)) → Type 0
Next {W} fuel total again =
    (retr : ℕ) (got : List ℕ) (size : ℕ) (w : W)
    → size < fuel
    → retr ≡ length got
    → retr + size ≡ total
    → Ends total (again retr got size w)

module _ {W : Type 0} (sys_read : ℕ → W → Sys (List ℕ) × W) (l : ReadLaws sys_read) where
  read_case-Ends :
      (again : ℕ → List ℕ → ℕ → W → Option (Transferred W)) (fuel total retr : ℕ) (got : List ℕ)
      (size : ℕ) (x : Sys (List ℕ) × W)
      → Next fuel total again
      → ((bs : List ℕ) → x.0 ≡ done bs → length bs ≤ size)
      → x.0 ≢ blocks
      → size < suc fuel
      → retr ≡ length got
      → retr + size ≡ total
      → total < word_mod
      → Ends total (read_case sys_read again size retr got x)
  read_case-Ends again fuel total retr got size (done [], v) k h b f c t m = (
    record { count = retr; bytes = got; error = none; world = v },
    refl,
    record { counted = c; bounded = omega arith; no_again = λ e. cc },
  )
  read_case-Ends again fuel total retr got size (done (y ∷ ys), v) k h b f c t m =
      let le = h (y ∷ ys) refl in
      k (add64 retr (length (y ∷ ys))) (got ++ y ∷ ys) (sub64 size (length (y ∷ ys))) v
        (omega arith) (omega (arith, length-append got (y ∷ ys))) (omega arith)
  read_case-Ends again fuel total retr got size (failed e, v) k h b f c t m = (
    record { count = retr; bytes = got; error = error_of e; world = v },
    refl,
    record { counted = c; bounded = omega arith; no_again = error_of-ne e },
  )
  read_case-Ends again fuel total retr got size (blocks, v) k h b f c t m = absurd (b refl)

  read_loop-Ends :
      (fuel retr : ℕ) (got : List ℕ) (size : ℕ) (w : W) (total : ℕ)
      → total < word_mod
      → size < fuel
      → retr ≡ length got
      → retr + size ≡ total
      → Ends total (read_loop sys_read fuel retr got size w)
  unfolding read_loop
  read_loop-Ends zero retr got size w total m f c t = absurd (omega arith)
  read_loop-Ends (suc fuel) retr got size w total m f c t = elim (Bool-cases (size == 0)) [
    | inl z ↦ rw z (
      record { count = retr; bytes = got; error = none; world = w },
      refl,
      record { counted = c; bounded = omega arith; no_again = λ e. cc },
    )
    | inr nz ↦ rw nz (
        read_case-Ends (λ r g s v. read_loop sys_read fuel r g s v) fuel total retr got size
          (sys_read size w) (λ r g s v. read_loop-Ends fuel r g s v total m) (l.at_most size w)
          (l.no_wait size w) f c t m)
  ]

  -- `read` into fewer than 2 ^ 64 bytes, with more fuel than bytes and a descriptor that gives at
  -- most as many bytes as asked for or fails: it returns; its count is the number of bytes it got,
  -- at most the size of the buffer, and the error is not EAGAIN.
  pub read-Ends :
      (size fuel : ℕ) (w : W)
      → size < word_mod
      → size < fuel
      → Ends size (read sys_read fuel size w)
  unfolding read
  read-Ends size fuel w m f = read_loop-Ends fuel 0 [] size w size m f refl (omega arith)

-- A write that ends well has sent a prefix of the bytes.
abbrev pub Sends : {W : Type 0} → List ℕ → Option (Transferred W) → Type 0
Sends {W} bytes r =
    (t : Transferred W) × (rest : List ℕ) × (r ≡ some t)
    × (t.bytes ++ rest ≡ bytes)
    × IsTransfer (length bytes) t

module _ {W : Type 0} (sys_write : List ℕ → W → Sys ℕ × W) (l : WriteLaws sys_write) where
  abbrev NextWrite : ℕ → List ℕ → (ℕ → List ℕ → List ℕ → W → Option (Transferred W)) → Type 0
  NextWrite fuel all again =
      (retr : ℕ) (sent left : List ℕ) (w : W)
      → length left < fuel
      → retr ≡ length sent
      → sent ++ left ≡ all
      → Sends all (again retr sent left w)

  stop :
      (retr : ℕ) (sent left all : List ℕ) (e : Option ℕ) (w : W)
      → retr ≡ length sent
      → sent ++ left ≡ all
      → e ≢ some eagain
      → Sends all (some (record { count = retr; bytes = sent; error = e; world = w }))
  stop retr sent left all e w c t n = (
    record { count = retr; bytes = sent; error = e; world = w },
    left,
    refl,
    t,
    record {
      counted = c;
      bounded = omega (arith, ap length t, length-append sent left);
      no_again = n;
    },
  )

  write_case-Sends :
      (again : ℕ → List ℕ → List ℕ → W → Option (Transferred W)) (fuel retr : ℕ)
      (sent left all : List ℕ) (x : Sys ℕ × W)
      → NextWrite fuel all again
      → ((n : ℕ) → x.0 ≡ done n → (0 < n) × (n ≤ length left))
      → x.0 ≢ blocks
      → length left < suc fuel
      → retr ≡ length sent
      → sent ++ left ≡ all
      → length all < word_mod
      → Sends all (write_case sys_write again retr sent left x)
  write_case-Sends again fuel retr sent left all (done n, w) k h b f c t m =
      let (pos, le) = h n refl in
      k (add64 retr n) (sent ++ take n left) (drop n left) w (omega (arith, length-drop n left))
        (omega (
          arith,
          length-append sent (take n left),
          length-take n left,
          length-append sent left,
          ap length t,
        ))
        (append_assoc sent (take n left) (drop n left)
          ∙ ap (◌++◌ sent) (take-append-drop n left)
          ∙ t)
  write_case-Sends again fuel retr sent left all (failed e, w) k h b f c t m =
      stop retr sent left all (error_of e) w c t (error_of-ne e)
  write_case-Sends again fuel retr sent left all (blocks, w) k h b f c t m = absurd (b refl)

  write_loop-Sends :
      (fuel retr : ℕ) (sent left : List ℕ) (w : W) (all : List ℕ)
      → length all < word_mod
      → length left < fuel
      → retr ≡ length sent
      → sent ++ left ≡ all
      → Sends all (write_loop sys_write fuel retr sent left w)
  unfolding write_loop
  write_loop-Sends zero retr sent left w all m f c t = absurd (omega arith)
  write_loop-Sends (suc fuel) retr sent left w all m f c t = elim (Bool-cases (length left == 0)) [
    | inl z ↦ rw z (stop retr sent left all none w c t (λ e. cc))
    | inr nz ↦ rw nz (
        write_case-Sends (λ r s v x. write_loop sys_write fuel r s v x) fuel retr sent left all
          (sys_write left w) (λ r s v x. write_loop-Sends fuel r s v x all m)
          (λ n e. (l.some_byte left w n (ground arith) e, l.at_most left w n e)) (l.no_wait left w)
          f c t m)
  ]

  -- `write` of fewer than 2 ^ 64 bytes, with more fuel than bytes and a descriptor that takes at
  -- least one and at most all of the bytes of a non-empty buffer or fails: it returns, having sent
  -- a prefix of the bytes; its count is the length of that prefix, at most the number of bytes, and
  -- the error is not EAGAIN.
  pub write-Sends :
      (bytes : List ℕ) (fuel : ℕ) (w : W)
      → length bytes < word_mod
      → length bytes < fuel
      → Sends bytes (write sys_write fuel bytes w)
  unfolding write
  write-Sends bytes fuel w m f = write_loop-Sends fuel 0 [] bytes w bytes m f refl refl
