-- ===== src/Io/Codes.antt =====
-- src/asio/error_code.cpp, and the results of completions in src/asio/service.cpp.
use asio_uring.Base.{
  ℕ, zero, suc, ◌≡◌, refl, sym, ◌≢◌, ◌⊎◌, inl, inr, Option, none, some, ErrorCode, Category, arith,
}

-- `int`; the results of completions are far from its least value, so that `-res` does not overflow.
pub data ℤ : Type 0 where
  pos : ℕ → ℤ
  negsuc : ℕ → ℤ

-- A default constructed `boost::system::error_code`
abbrev pub success : ErrorCode
success = record { category = Category.system; value = 0 }

abbrev pub generic_code : ℕ → ErrorCode
generic_code n = record { category = Category.generic; value = n }

-- `none` is the `std::runtime_error` for a category that Boost.System does not have.
abbrev pub converted : Category → ℕ → Option ErrorCode
converted Category.generic n = some (record { category = Category.generic; value = n })
converted Category.system n = some (record { category = Category.system; value = n })
converted Category.context n = none
converted (Category.other c) n = none

unfoldable pub to_boost_error_code : ErrorCode → Option ErrorCode
to_boost_error_code ec = converted ec.category ec.value

unfoldable pub to_rw_result : ℤ → ErrorCode × ℕ
to_rw_result (negsuc n) = (generic_code (suc n), 0)
to_rw_result (pos n) = (success, n)

-- `aborted` is Boost.Asio's `operation_aborted`.
unfoldable pub to_poll_add_result : ErrorCode → ℤ → ErrorCode
to_poll_add_result aborted (pos zero) = aborted
to_poll_add_result aborted (pos (suc n)) = success
to_poll_add_result aborted (negsuc n) = generic_code (suc n)

unfoldable pub to_poll_remove_result : ℤ → ErrorCode
to_poll_remove_result (pos n) = success
to_poll_remove_result (negsuc n) = generic_code (suc n)

unfoldable pub to_fsync_result : ℤ → ErrorCode
to_fsync_result res = to_poll_remove_result res

-- The result of a completion as the kernel writes it: minus the error, or the count.
abbrev pub of_errno : ℕ → ℕ → ℤ
of_errno zero n = pos n
of_errno (suc e) n = negsuc e

-- The code and the count that `to_rw_result` makes of a result give back that result: minus the
-- code if it is not 0, else the count.
pub to_rw_result-of_errno :
    (res : ℤ) → of_errno (to_rw_result res).0.value (to_rw_result res).1 ≡ res
unfolding to_rw_result
to_rw_result-of_errno (pos n) = refl
to_rw_result-of_errno (negsuc n) = refl

-- If `operation_aborted` is not 0 and the code that `to_poll_add_result` makes of a result is 0,
-- then the result is positive, and `to_poll_remove_result` and `to_fsync_result` make success of it
-- as well.
pub to_poll_add_result-success :
    (aborted : ErrorCode) (res : ℤ)
    → aborted.value ≢ 0
    → (to_poll_add_result aborted res).value ≡ 0
    → (n : ℕ) × (res ≡ pos (suc n))
      × (to_poll_remove_result res ≡ success)
      × (to_fsync_result res ≡ success)
unfolding to_poll_add_result to_poll_remove_result to_fsync_result
to_poll_add_result-success aborted (pos zero) ne e = absurd (ne e)
to_poll_add_result-success aborted (pos (suc n)) ne e = (n, refl, refl, refl)
to_poll_add_result-success aborted (negsuc n) ne e = absurd (ground arith)

converted_lem :
    (c : Category) (n : ℕ) (d : ErrorCode)
    → converted c n ≡ some d
    → (d ≡ record { category = c; value = n }) × ((c ≡ Category.generic) ⊎ (c ≡ Category.system))
converted_lem Category.generic n d e =
    let same : record { category = Category.generic; value = n } ≡ d = cc in (sym same, inl refl)
converted_lem Category.system n d e =
    let same : record { category = Category.system; value = n } ≡ d = cc in (sym same, inr refl)
converted_lem Category.context n d e = absurd cc
converted_lem (Category.other c) n d e = absurd cc

-- If `to_boost_error_code` returns a code then it is the same code, and its category is the generic
-- or the system category.
pub to_boost_error_code-same :
    (ec d : ErrorCode)
    → to_boost_error_code ec ≡ some d
    → (d ≡ ec) × ((ec.category ≡ Category.generic) ⊎ (ec.category ≡ Category.system))
unfolding to_boost_error_code
to_boost_error_code-same ec d e = converted_lem ec.category ec.value d e
