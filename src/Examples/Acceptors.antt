-- ===== src/Examples/Acceptors.antt =====
-- An accept_file has been destroyed while its operation 70 waits, which then gets the descriptor 8.
use asio_uring.Base.{refl, true, false, none, some, [], ◌∷◌, arith, Safe, returns, ok}
use asio_uring.EventfdQueue.Nodes.{update}
use asio_uring.Asio.Accept.{Acceptor, Callback, delivers, exec}
use asio_uring.Asio.Acceptance.{exec-Going}
use asio_uring.Asio.Sharing.{Alive, Going, Keeping}

abbrev orphan : Acceptor
orphan = record {
  file = record {
    table = record { handle = update (λ i. none) 1 (some 7); opened = 7 ∷ [] };
    block = 1;
    count = 2;
    attached = true;
    holding = 70 ∷ [];
    locals = 0;
  };
  owner = false;
  uses = 1;
  waiting = 70 ∷ [];
  running = 0;
}

orphan-Alive : Alive orphan
orphan-Alive = record {
  shared = record {
    owned = record {
      live = λ i h e. ground arith;
      unique = λ i j h e f. ground arith;
      owner = λ h n. (1, ground arith);
    };
    counted = refl;
    live = λ _ e. ground arith;
    gone = λ h. ground arith;
  };
  counted = refl;
  lives = refl;
}

abbrev ignore : Callback
ignore ec fd s = ok tt s

ignore-Keeping : Keeping ignore
ignore-Keeping ec fd s x = returns (x, refl, refl)

exec-Going_example :
    Safe
      (λ _ d. Going orphan d)
      (Going orphan)
      (exec (delivers ignore none 70 none none (some 8)) orphan)
exec-Going_example =
    exec-Going (delivers ignore none 70 none none (some 8)) orphan (refl, refl, ignore-Keeping)
      orphan-Alive
