-- ===== src/Asio/Iovec.antt =====
-- src/asio/iovec.cpp and src/asio/include/asio_uring/asio/iovec.hpp
use asio_uring.Base.{
  ℕ, zero, suc, ◌≡◌, refl, ap, ◌∙◌, sym, leb, if◌then◌else◌, Option, none, some, List, [], ◌∷◌,
  ◌++◌, map, length, drop, arith, Bool, true, false,
}
use mathlib.Core.Option

-- A `boost::asio::const_buffer` or `mutable_buffer`; its data is an address.
pub record Buffer : Type 0 where
  pub data_address : ℕ
  pub size : ℕ

-- `::iovec`
pub record Iovec : Type 0 where
  pub iov_base : ℕ
  pub iov_len : ℕ

pub init_iovec : Buffer → Iovec
init_iovec b = record { iov_base = 0; iov_len = b.size }

unfoldable pub to_iovec : Buffer → Iovec
unfolding init_iovec
to_iovec b = record (init_iovec b) { iov_base = b.data_address }

-- The loop, from the place `i`; `store` is `*iovs = x` at a place.
unfoldable pub to_iovecs : {W : Type 0} → (ℕ → Iovec → W → W) → List Buffer → ℕ → W → W
to_iovecs store [] i w = w
to_iovecs store (b ∷ bs) i w = to_iovecs store bs (suc i) (store i (to_iovec b) w)

-- A vector in memory, as long as nothing has been written outside it
abbrev pub Vector : Type 0
Vector = Option (List Iovec)

abbrev pub set : ℕ → Iovec → List Iovec → Vector
set i x [] = none
set zero x (y ∷ ys) = some (x ∷ ys)
set (suc i) x (y ∷ ys) = Option.map (λ zs. y ∷ zs) (set i x ys)

abbrev pub store_in : ℕ → Iovec → Vector → Vector
store_in i x none = none
store_in i x (some v) = set i x v

lost : (bs : List Buffer) (i : ℕ) → to_iovecs store_in bs i none ≡ none
unfolding to_iovecs
lost [] i = refl
lost (b ∷ bs) i = lost bs (suc i)

-- What is written behind the first place does not depend on it.
to_iovecs-behind :
    (bs : List Buffer) (i : ℕ) (y : Iovec) (v : Vector)
    → to_iovecs store_in bs (suc i) (Option.map (λ zs. y ∷ zs) v)
      ≡ Option.map (λ zs. y ∷ zs) (to_iovecs store_in bs i v)
unfolding to_iovecs
to_iovecs-behind bs i y none = lost bs (suc i) ∙ ap (Option.map (λ zs. y ∷ zs)) (sym (lost bs i))
to_iovecs-behind [] i y (some v) = refl
to_iovecs-behind (b ∷ bs) i y (some v) = to_iovecs-behind bs (suc i) y (set i (to_iovec b) v)

-- The address and the size of a buffer as an `::iovec`
abbrev pub iovec_of : Buffer → Iovec
iovec_of b = record { iov_base = b.data_address; iov_len = b.size }

-- `to_iovecs` into a vector in memory: if the vector has at least as many elements as there are
-- buffers, its first elements become the addresses and sizes of the buffers in order and the others
-- stay; else it writes outside.
pub to_iovecs-bounds :
    (bs : List Buffer) (v : List Iovec)
    → to_iovecs store_in bs 0 (some v)
      ≡ (if leb (length bs) (length v) then some (map iovec_of bs ++ drop (length bs) v) else none)
unfolding to_iovecs to_iovec init_iovec
to_iovecs-bounds [] v = ground arith
to_iovecs-bounds (b ∷ bs) [] = lost bs 1 ∙ (ground arith)
to_iovecs-bounds (b ∷ bs) (y ∷ v) =
    to_iovecs-behind bs 0 (iovec_of b) (some v)
    ∙ ap (Option.map (λ zs. iovec_of b ∷ zs)) (to_iovecs-bounds bs v)
    ∙ longer (leb (length bs) (length v)) (ground arith)
  where
    longer :
        (c : Bool)
        → leb (suc (length bs)) (suc (length v)) ≡ c
        → Option.map
            (λ zs. iovec_of b ∷ zs)
            (if c then some (map iovec_of bs ++ drop (length bs) v) else none)
          ≡ (if leb (suc (length bs)) (suc (length v))
              then some (iovec_of b ∷ (map iovec_of bs ++ drop (length bs) v))
              else none)
    longer true e = rw e refl
    longer false e = rw e refl
