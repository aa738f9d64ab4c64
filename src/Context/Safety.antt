-- ===== src/Context/Safety.antt =====
-- `run`, `run_one`, `poll` and `poll_one` keep the account of the context, with user code as in Contract.
use asio_uring.Base.{◌≡◌, none}
use asio_uring.Context.Platform.{Platform}
use asio_uring.Context.State.{Context}
use asio_uring.Context.Invariant.{Inv}
use asio_uring.Context.Polling.{Polling}

-- Between calls: the account is right, and no thread is in the loop.
abbrev pub Idle : {p : Platform} → Context p → Type 0
Idle c = Inv c × (c.tid ≡ none)
