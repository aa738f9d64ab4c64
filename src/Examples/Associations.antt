-- ===== src/Examples/Associations.antt =====
-- A token of a user whose handler 101 has the executor 7 and no allocator of its own.
use asio_uring.Base.{ℕ, ◌+◌, ◌==◌, ◌≡◌, if◌then◌else◌, ok}
use asio_uring.FileObject.{invoke}
use asio_uring.FileObject
use asio_uring.Asio.Associations.{
  Traits, Handler, Token, user_token, fd_completion_token, initiated, polled_then, posted,
  dispatched, handler_of, call, token_call, Goes, dispatched-origin,
}

abbrev traits : Traits ℕ ℕ ℕ ℕ ℕ
traits = record {
  handler = λ t. t + 100;
  result = λ h. h;
  executor = λ h ex. if h == 101 then 7 else ex;
  allocator = λ h alloc. alloc;
}

abbrev token : Token ℕ ℕ ℕ
token = user_token 1

abbrev wrapped : Token ℕ ℕ ℕ
wrapped = fd_completion_token token 4

-- The handler of the user returns, and the invoker calls the handler that it is given with its own number.
abbrev returning : ℕ → ℕ → FileObject.M (Unit {0})
returning h n s = ok tt s

abbrev forwards : ℕ → ℕ → Handler ℕ ℕ → FileObject.M (Unit {0})
forwards i n h s = call returning (λ j m g t. ok tt t) h i s

dispatched-origin_example :
    Goes traits returning forwards 2 0 101
      (invoke 5 (token_call traits returning forwards wrapped 6))
      (dispatched traits (initiated traits 5 0 2 wrapped) 6)
    × Goes traits returning forwards 2 0 101
        (invoke 5 (forwards 9 6 (handler_of traits wrapped)))
        (dispatched traits (polled_then traits 5 0 2 9 wrapped) 6)
    × (call returning forwards (handler_of traits wrapped) 8
        ≡ token_call traits returning forwards wrapped 8)
    × Goes traits returning forwards 2 0 101
        (token_call traits returning forwards wrapped 6)
        (posted traits 0 2 wrapped 6)
dispatched-origin_example = dispatched-origin traits returning forwards 5 0 2 9 wrapped 6 8
