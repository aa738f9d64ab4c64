-- ===== src/Examples/Bytes.antt =====
-- Descriptors that transfer at most two bytes a call.
use asio_uring.Base.{
  ErrorCode, Category, ◌++◌, ℕ, zero, suc, ◌≤◌, ◌<◌, ◌≡◌, ◌≢◌, ltb, if◌then◌else◌, List, [], ◌∷◌,
  length, take, drop, Sys, done, failed, blocks, arith, length-take,
}
use asio_uring.Io.Codes.{ℤ}
use asio_uring.Io.PollFile.{Answers, async_write_some, async_write_some-Sends}
use asio_uring.Io.Transfer.{ReadLaws, WriteLaws, Ends, Sends, read-Ends, write-Sends}
use asio_uring.Io.Loops.{eagain, read, write}

-- The world is the bytes that have come in; with none the descriptor says to come back.
abbrev chunk : ℕ → List ℕ → Sys (List ℕ) × List ℕ
chunk n [] = (failed eagain, [])
chunk n (b ∷ bs) = (done (take n (b ∷ bs)), drop n (b ∷ bs))

abbrev receive : ℕ → List ℕ → Sys (List ℕ) × List ℕ
receive n w = chunk (if ltb n 2 then n else 2) w

chunk_lem :
    (n : ℕ) (w : List ℕ)
    → ((bs : List ℕ) → (chunk n w).0 ≡ done bs → length bs ≤ n) × ((chunk n w).0 ≢ blocks)
chunk_lem n [] = (λ bs e. cc, λ e. cc)
chunk_lem n (b ∷ ws) = (λ bs e. ground (arith, length-take n (b ∷ ws)), λ e. cc)

receive-ReadLaws : ReadLaws receive
receive-ReadLaws = record {
  at_most = λ n w bs e. ground (arith, (chunk_lem (if ltb n 2 then n else 2) w).0 bs e);
  no_wait = λ n w. (chunk_lem (if ltb n 2 then n else 2) w).1;
}

-- The world is the room that is left.
abbrev send : List ℕ → ℕ → Sys ℕ × ℕ
send bs zero = (failed eagain, 0)
send [] (suc room) = (done 0, suc room)
send (b ∷ bs) (suc room) = (done 1, room)

send-WriteLaws : WriteLaws send
send-WriteLaws = record {
  at_most = λ bs w n e. send-most bs w n e;
  some_byte = λ bs w n pos e. send-some bs w n pos e;
  no_wait = λ bs w. send-wait bs w;
}
  where
    send-most : (bs : List ℕ) (w n : ℕ) → (send bs w).0 ≡ done n → n ≤ length bs
    send-most bs zero n e = cc
    send-most [] (suc w) n e = ground arith
    send-most (b ∷ bs) (suc w) n e = ground arith

    send-some : (bs : List ℕ) (w n : ℕ) → 0 < length bs → (send bs w).0 ≡ done n → 0 < n
    send-some bs zero n pos e = cc
    send-some [] (suc w) n pos e = ground arith
    send-some (b ∷ bs) (suc w) n pos e = ground arith

    send-wait : (bs : List ℕ) (w : ℕ) → (send bs w).0 ≢ blocks
    send-wait bs zero e = cc
    send-wait [] (suc w) e = cc
    send-wait (b ∷ bs) (suc w) e = cc

read-Ends_example : Ends 4 (read receive 5 4 (1 ∷ 2 ∷ 3 ∷ []))
read-Ends_example =
    read-Ends receive receive-ReadLaws 4 5 (1 ∷ 2 ∷ 3 ∷ []) (omega arith) (omega arith)

write-Sends_example : Sends (1 ∷ 2 ∷ 3 ∷ []) (write send 4 (1 ∷ 2 ∷ 3 ∷ []) 2)
write-Sends_example =
    write-Sends send send-WriteLaws (1 ∷ 2 ∷ 3 ∷ []) 4 2 (omega arith) (omega arith)

-- `ECANCELED` in the system category
abbrev canceled : ErrorCode
canceled = record { category = Category.system; value = 125 }

abbrev pieces : List (List ℕ)
pieces = (1 ∷ []) ∷ (2 ∷ 3 ∷ []) ∷ []

-- The poll has ended with POLLOUT.
async_write_some-Sends_example :
    Answers canceled
      (λ c. (c.count ≡ length c.bytes) × ((rest : List ℕ) × (c.bytes ++ rest ≡ 1 ∷ 2 ∷ 3 ∷ [])))
      2
      3
      (ℤ.pos 4)
      (async_write_some canceled send 4 pieces (ℤ.pos 4) 2)
async_write_some-Sends_example =
    async_write_some-Sends canceled send send-WriteLaws pieces 4 (ℤ.pos 4) 2 (λ e. cc) (omega arith)
      (omega arith)
