-- ===== src/Asio/Acceptance.antt =====
-- The `impl` of an accept_file lives as long as an operation needs it.
use asio_uring.Base.{
  ℕ, ◌≢◌, ◌+◌, ◌≡◌, refl, ap, check_that, Bool, true, false, Option, none, some, [], has, arith, ok,
  Safe, returns, throws, Safe-bind, Safe-mono,
}
use asio_uring.EventfdQueue.Nodes.{erase}
use asio_uring.Fd.{Table}
use asio_uring.Fd.Ownership.{Owned}
use asio_uring.Asio.Objects.{Fcntl}
use asio_uring.Asio.Construction.{Unmade-Owned, construct_poll_file-Owned}
use asio_uring.FileObject.Lifetime.{unit, length-erase}
use asio_uring.Asio.Accept.{
  Acceptor, construct, async_accept, deliver, destroy, Op, accepts, delivers, destroys, exec,
}
use asio_uring.Asio.Sharing.{
  Alive, Going, impl_accept-Going, Keeping, invoker-Going, left-Going, destroyed-Going,
}

check_passes : (b : Bool) (s : Acceptor) → b ≡ true → check_that b s ≡ ok tt s
check_passes true s e = refl
check_passes false s e = absurd cc

-- An operation is begun on an accept_file that has its `impl`, and its handler is called once.
abbrev pub Valid : Op → Acceptor → Type 0
Valid (accepts refused h) s = s.owner ≡ true
Valid (delivers k refused h ec sec fd) s =
    (has h s.file.holding ≡ true) × (has h s.waiting ≡ true) × Keeping k
Valid destroys s = Unit {0}

-- Each operation of an accept_file, while the account of its implementation is right (its use count
-- is the number of pointers to it, it has its descriptor exactly while there is one, and the
-- account of the descriptor is right): beginning an async_accept on one that has its
-- implementation, whether or not the poll can be started; a call of the handler of an operation
-- that waits, after whatever the poll and accept have returned, with a handler of the user that
-- keeps the account and may itself begin operations or destroy the accept_file; the destructor. No
-- assertion fails, so that an operation finds its descriptor also after the accept_file has gone;
-- whether it returns or throws, the account is right and as many calls are under way as before.
pub exec-Going :
    (op : Op) (s : Acceptor) → Valid op s → Alive s → Safe (λ _ d. Going s d) (Going s) (exec op s)
unfolding exec async_accept deliver destroy
exec-Going (accepts refused h) s v x =
    rw (check_passes s.owner s v)
      (impl_accept-Going refused h s x (ground (arith, x.counted, ap unit v)))
exec-Going (delivers k refused h ec sec fd) s (held, mine, keep) x =
    let t = record s {
      file = record s.file { holding = erase h s.file.holding; locals = s.file.locals + 1 };
      waiting = erase h s.waiting;
      running = s.running + 1;
    } in
    let y : Alive t = record {
      shared = record {
        owned = x.shared.owned;
        counted = ground (arith, x.shared.counted, length-erase h s.file.holding held);
        live = x.shared.live;
        gone = x.shared.gone;
      };
      counted = ground (arith, x.counted, length-erase h s.waiting mine);
      lives = x.lives;
    } in
    rw held (
      left-Going s t refl refl
        (invoker-Going k refused h ec sec fd t keep y (ground (arith, y.counted))))
exec-Going destroys s v x = destroyed-Going s s.owner refl x

-- The constructor of an accept_file, under the conditions of that of a poll_file
construct-Alive :
    (memory : Bool) (f : Fcntl) (place : Option ℕ) (other h : ℕ) (t : Table)
    → ((i : ℕ) → place ≡ some i → (t.handle i ≡ none) × (i ≢ other))
    → t.handle other ≡ some h
    → Owned t
    → Safe (λ s d. Alive s × (s.file.table ≡ d)) Owned (construct memory f place other t)
unfolding construct
construct-Alive false f place other h t free full o = throws o
construct-Alive true f place other h t free full o =
    Safe-bind
      (Safe-mono (construct_poll_file-Owned f place other h t free full o) (λ s d x. x)
        (λ d x. Unmade-Owned place other h t d o x))
      λ s d (shared, a, bare, idle, e, at).
        returns {a = record { file = s; owner = true; uses = 1; waiting = []; running = 0 }}
          (record { shared = shared; counted = refl; lives = a }, e)
