-- ===== src/Examples/Callables.antt =====
-- A callable of 48 bytes, for a storage of 32 bytes, in the block 9.
use asio_uring.Base.{ℕ, ◌+◌, ◌≡◌, none, some, [], ◌∷◌, ok, arith}
use asio_uring.CallableStorage.{indirect, Making, Heap, M, call_once, discard, may_throw}
use asio_uring.CallableStorage.Lifetime.{
  making_failure, call_failure, or_else, ran, call_once-Plain,
}

abbrev block_nine : Making
block_nine = record { passed = none; block = some 9; moved = none }

abbrev one_block : Heap ℕ
one_block = record { blocks = 4 ∷ []; objects = 1; world = 0 }

-- A callable that notes that it was called, and returns what it was given.
abbrev noted : M ℕ ℕ
noted h = ok 7 (record h { world = h.world + 1 })

call_once-Plain_example :
    (call_once indirect block_nine none noted one_block
      ≡ ran
          (or_else (making_failure indirect block_nine) (call_failure indirect none))
          noted
          one_block)
    × (discard indirect block_nine one_block
        ≡ may_throw (making_failure indirect block_nine) one_block)
call_once-Plain_example =
    call_once-Plain indirect block_nine none noted one_block (λ e. ground arith)
