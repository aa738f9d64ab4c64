-- ===== src/Examples/Sockets.antt =====
-- A listening descriptor and a connecting one.
use asio_uring.Base.{ℕ, zero, suc, ◌≡◌, refl, none, some, [], ◌∷◌, Sys, done, failed}
use asio_uring.Io.Loops.{eagain}
use asio_uring.Io.Sockets.{Accepted, accept, async_accept}

-- The world counts the attempts that are in vain before a connection comes in, as descriptor 8.
abbrev accept4 : ℕ → Sys ℕ × ℕ
accept4 zero = (done 8, 0)
accept4 (suc n) = (failed eagain, n)

abbrev accepted : Accepted ℕ
accepted = record { error = none; descriptor = some 8; world = 0 }

-- Two polls end well before there is a connection.
accepts_third : async_accept accept4 (none ∷ none ∷ none ∷ []) 2 ≡ some accepted
unfolding async_accept accept
accepts_third = refl
