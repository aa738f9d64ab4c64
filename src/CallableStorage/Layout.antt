-- ===== src/CallableStorage/Layout.antt =====
-- What is put into the storage fits there.
use asio_uring.Base.{ℕ, ◌≤◌, ◌≡◌, ◌↔◌, ltb, Bool-cases, inl, inr, refl, arith}
use asio_uring.CallableStorage.{Kind, direct, indirect, Sizes, select}

-- The size and the alignment of the selected type, for a `direct` of these
abbrev pub selected : Kind → Sizes → ℕ → ℕ → ℕ × ℕ
selected direct s size align = (size, align)
selected indirect s size align = (s.indirect_size, s.indirect_align)

-- `std::aligned_union_t<Buffer, indirect>` has room for an `indirect`, which is derived from `base`.
abbrev pub Holds : Sizes → Type 0
Holds s =
    (s.indirect_size ≤ s.storage)
    × (s.indirect_align ≤ s.storage_align)
    × (s.base_align ≤ s.indirect_align)

-- If the storage has room for an `indirect`, whose alignment is at least that of `base`: what
-- `select` picks for a `direct` of any size and alignment is no larger than the storage and no more
-- strictly aligned, and it picks the `direct` exactly if that is no larger than the storage and no
-- more strictly aligned than `base`.
pub select-Fits :
    (s : Sizes) (size align : ℕ)
    → Holds s
    → ((selected (select s size align) s size align).0 ≤ s.storage)
      × ((selected (select s size align) s size align).1 ≤ s.storage_align)
      × ((select s size align ≡ direct) ↔ ((size ≤ s.storage) × (align ≤ s.base_align)))
unfolding select
select-Fits s size align (room, aligned, derived) = elim (Bool-cases (ltb s.storage size)) [
  | inl big ↦ rw big (room, aligned, (λ e. cc, λ x. ground arith))
  | inr fits ↦ elim (Bool-cases (ltb s.base_align align)) [
    | inl coarse ↦ rw fits (rw coarse (room, aligned, (λ e. cc, λ x. ground arith)))
    | inr fine ↦
        rw fits
          (rw fine (ground arith, ground arith, (λ e. (ground arith, ground arith), λ x. refl)))
  ]
]
