-- ===== src/Io/PollFile.antt =====
-- async_read_some and async_write_some of src/asio/include/asio_uring/asio/poll_file.hpp, with the
-- conversions in src/asio/read.cpp, write.cpp and service.cpp: what their handlers are called with, when
-- the poll of the descriptor, if there is one, completes with a result.
use asio_uring.Base.{
  ℕ, zero, suc, ◌≤◌, ◌<◌, ◌≡◌, refl, ap, ◌==◌, ◌≢◌, ◌⊎◌, if◌then◌else◌, Option, none, some, List,
  [], ◌++◌, length, Sys, false, ErrorCode, Category, word_mod, arith, inl, inr,
}
use asio_uring.Io.Codes.{
  ℤ, pos, negsuc, success, generic_code, to_boost_error_code, to_poll_add_result,
}
use asio_uring.Io.Transfer.{IsTransfer, ReadLaws, WriteLaws}
use asio_uring.Io.Loops.{Transferred, eagain}
use asio_uring.Io.Sequence.{
  sum, concat, read_buffers, write_buffers, read_buffers-Ends, write_buffers-Sends,
}

-- What the handler is called with, and the bytes that have been transferred before
pub record Called (W : Type 0) : Type 0 where
  pub code : ErrorCode
  pub count : ℕ
  pub bytes : List ℕ
  pub world : W

-- No transfer takes place.
abbrev pub ended : {W : Type 0} → ErrorCode → W → Called W
ended ec w = record { code = ec; count = 0; bytes = []; world = w }

-- `ec` of `asio::read` and `asio::write` for one buffer, from that of the core function; none is an
-- exception. An error code of value 0 is no error.
unfoldable pub code_of : Option ℕ → Option ErrorCode
code_of none = some success
code_of (some zero) = some success
code_of (some (suc e)) = to_boost_error_code (generic_code (suc e))

abbrev pub with_code : {W : Type 0} → Transferred W → Option ErrorCode → Option (Called W)
with_code t none = none
with_code t (some ec) =
    some (record { code = ec; count = t.count; bytes = t.bytes; world = t.world })

abbrev pub finished : {W : Type 0} → Option (Transferred W) → Option (Called W)
finished none = none
finished (some t) = with_code t (code_of t.error)

-- The invoker: the transfer is `r`, unless the poll failed.
unfoldable pub polled : {W : Type 0} → ErrorCode → W → Option (Transferred W) → Option (Called W)
polled ec w r = if ec.value == 0 then finished r else some (ended ec w)

-- With no bytes there is no poll; else it completes with the result `res`.
unfoldable pub async_impl :
    {W : Type 0} → ErrorCode → ℕ → ℤ → W → Option (Transferred W) → Option (Called W)
async_impl aborted size res w r =
    if size == 0 then some (ended success w) else polled (to_poll_add_result aborted res) w r

unfoldable pub async_read_some :
    {W : Type 0} → ErrorCode → (ℕ → W → Sys (List ℕ) × W) → ℕ → List ℕ → ℤ → W → Option (Called W)
async_read_some aborted sys_read fuel mb res w =
    async_impl aborted (sum mb) res w (read_buffers sys_read fuel mb 0 [] w)

unfoldable pub async_write_some :
    {W : Type 0}
    → ErrorCode
    → (List ℕ → W → Sys ℕ × W)
    → ℕ
    → List (List ℕ)
    → ℤ
    → W
    → Option (Called W)
async_write_some aborted sys_write fuel cb res w =
    async_impl aborted (length (concat cb)) res w (write_buffers sys_write fuel cb 0 [] w)

-- A code that is success or an error of the generic category, and not EAGAIN
abbrev pub IsResult : ErrorCode → Type 0
IsResult ec = ((ec ≡ success) ⊎ (ec.category ≡ Category.generic)) × (ec.value ≢ eagain)

code_of-IsResult :
    (e : Option ℕ) → e ≢ some eagain → (c : ErrorCode) × (code_of e ≡ some c) × IsResult c
unfolding code_of to_boost_error_code
code_of-IsResult none ne = (success, refl, (inl refl, λ z. ground arith))
code_of-IsResult (some zero) ne = (success, refl, (inl refl, λ z. ground arith))
code_of-IsResult (some (suc e)) ne = (generic_code (suc e), refl, (inr refl, λ z. ne (ap some z)))

module _ {W : Type 0} where
  -- The transfer has taken place, and `P` holds of what was transferred.
  abbrev pub Done : (Called W → Type 0) → Option (Called W) → Type 0
  Done P r = (c : Called W) × (r ≡ some c) × IsResult c.code × P c

  -- What the handler is called with, by the number of bytes and the result of the poll
  abbrev pub Answers : ErrorCode → (Called W → Type 0) → W → ℕ → ℤ → Option (Called W) → Type 0
  Answers aborted P w zero res r = r ≡ some (ended success w)
  Answers aborted P w (suc n) (pos zero) r = r ≡ some (ended aborted w)
  Answers aborted P w (suc n) (pos (suc m)) r = Done P r
  Answers aborted P w (suc n) (negsuc e) r = r ≡ some (ended (generic_code (suc e)) w)

  finished-Done :
      (size : ℕ) (P : Called W → Type 0) (r : Option (Transferred W)) (t : Transferred W)
      → r ≡ some t
      → IsTransfer size t
      → ((ec : ErrorCode)
          → P (record { code = ec; count = t.count; bytes = t.bytes; world = t.world }))
      → Done P (finished r)
  finished-Done size P r t e x k =
      let (c, f, g) = code_of-IsResult t.error x.no_again in
      rw (e, f)
        (record { code = c; count = t.count; bytes = t.bytes; world = t.world }, refl, g, k c)

  impl-Answers :
      (aborted : ErrorCode) (P : Called W → Type 0) (size : ℕ) (res : ℤ) (w : W)
      (r : Option (Transferred W))
      → aborted.value ≢ 0
      → Done P (finished r)
      → Answers aborted P w size res (async_impl aborted size res w r)
  unfolding async_impl polled to_poll_add_result
  impl-Answers aborted P zero res w r ne d = refl
  impl-Answers aborted P (suc n) (pos zero) w r ne d =
      let some_bytes : (suc n == 0) ≡ false = ground arith in
      let failed_poll : (aborted.value == 0) ≡ false = ground arith in
      rw (some_bytes, failed_poll) refl
  impl-Answers aborted P (suc n) (pos (suc m)) w r ne d =
      let some_bytes : (suc n == 0) ≡ false = ground arith in rw some_bytes d
  impl-Answers aborted P (suc n) (negsuc e) w r ne d =
      let some_bytes : (suc n == 0) ≡ false = ground arith in
      let failed_poll : (suc e == 0) ≡ false = ground arith in rw (some_bytes, failed_poll) refl

  -- `async_read_some` into fewer than 2 ^ 64 bytes, with more fuel than bytes and a descriptor as
  -- for `read`: its handler is called, as for `async_write_some`, with a count that is the number of
  -- bytes it got, at most the sum of the sizes.
  pub async_read_some-Ends :
      (aborted : ErrorCode) (sys_read : ℕ → W → Sys (List ℕ) × W) (l : ReadLaws sys_read)
      (mb : List ℕ) (fuel : ℕ) (res : ℤ) (w : W)
      → aborted.value ≢ 0
      → sum mb < word_mod
      → sum mb < fuel
      → Answers aborted
          (λ c. (c.count ≡ length c.bytes) × (c.count ≤ sum mb))
          w
          (sum mb)
          res
          (async_read_some aborted sys_read fuel mb res w)
  unfolding async_read_some
  async_read_some-Ends aborted sys_read l mb fuel res w ne m f =
      let (t, e, x) = read_buffers-Ends sys_read l mb fuel w m f in
      impl-Answers aborted _ (sum mb) res w _ ne
        (finished-Done (sum mb) _ _ t e x (λ ec. (x.counted, x.bounded)))

  -- What the handler of `async_write_some` is called with, for fewer than 2 ^ 64 bytes, with more
  -- fuel than bytes and a descriptor as for `write`, when `operation_aborted` is not 0: success and
  -- 0 if there are no bytes; else by the result of the poll, its error and 0 if that is negative,
  -- `operation_aborted` and 0 if it is 0, with nothing sent; and if it is positive, a code that is
  -- success or of the generic category and not EAGAIN, and the length of the prefix of the
  -- concatenation of the buffers that has been sent.
  pub async_write_some-Sends :
      (aborted : ErrorCode) (sys_write : List ℕ → W → Sys ℕ × W) (l : WriteLaws sys_write)
      (cb : List (List ℕ)) (fuel : ℕ) (res : ℤ) (w : W)
      → aborted.value ≢ 0
      → length (concat cb) < word_mod
      → length (concat cb) < fuel
      → Answers aborted
          (λ c. (c.count ≡ length c.bytes) × ((rest : List ℕ) × (c.bytes ++ rest ≡ concat cb)))
          w
          (length (concat cb))
          res
          (async_write_some aborted sys_write fuel cb res w)
  unfolding async_write_some
  async_write_some-Sends aborted sys_write l cb fuel res w ne m f =
      let (t, rest, e, y, x) = write_buffers-Sends sys_write l cb fuel w m f in
      impl-Answers aborted _ (length (concat cb)) res w _ ne
        (finished-Done (length (concat cb)) _ _ t e x (λ ec. (x.counted, (rest, y))))
