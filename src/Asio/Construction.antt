-- ===== src/Asio/Construction.antt =====
-- What the constructor of a poll_file does to the descriptor that it is given.
use asio_uring.Base.{
  ℕ, ◌≡◌, refl, ◌≢◌, true, Option, none, some, [], has, Sys, done, failed, blocks, Run, ok, Safe,
  returns, throws, waits, Safe-bind, map_state, arith, sym, subst,
}
use asio_uring.EventfdQueue.Nodes.{update, erase}
use asio_uring.EventfdQueue.Chains.{times, has-times, times-erase}
use asio_uring.Fd.{Table, move, destroy, maybe_close}
use asio_uring.Fd.Ownership.{Owned, move-Owned, closed-Owned}
use asio_uring.FileObject.{File, construct, reset, release}
use asio_uring.FileObject.Lifetime.{Shared, native-attached}
use asio_uring.Asio.Objects.{Fcntl, sys_file, set_nonblocking, unwound, construct_poll_file}

-- A file_object that nothing else shares, over the table `d`, with the descriptor `h`
abbrev pub Constructed : ℕ → File → Table → Type 0
Constructed h s d =
    Shared s
    × (s.attached ≡ true)
    × (s.holding ≡ [])
    × (s.locals ≡ 0)
    × (s.table ≡ d)
    × (s.table.handle s.block ≡ some h)

-- Without memory for the shared `fd` nothing has happened; else the descriptor `h` has been closed, and
-- neither the argument at `other` nor the shared `fd` has it.
abbrev pub Unmade : Option ℕ → ℕ → ℕ → Table → Table → Type 0
Unmade none other h t d = d ≡ t
Unmade (some i) other h t d =
    Owned d
    × (d.opened ≡ erase h t.opened)
    × (times h d.opened ≡ 0)
    × (d.handle i ≡ none)
    × (d.handle other ≡ none)

pub Unmade-Owned :
    (place : Option ℕ) (other h : ℕ) (t d : Table) → Owned t → Unmade place other h t d → Owned d
Unmade-Owned none other h t d o same = subst Owned (sym same) o
Unmade-Owned (some i) other h t d o x = x.0

abbrev moved : ℕ → ℕ → Table → Table
moved i other t = record t { handle = update (update t.handle i (t.handle other)) other none }

-- The file_object, with the shared `fd` at `i`
abbrev fresh : ℕ → ℕ → Table → File
fresh i other t = record {
  table = moved i other t;
  block = i;
  count = 1;
  attached = true;
  holding = [];
  locals = 0;
}

abbrev closed : ℕ → ℕ → ℕ → Table → Table
closed i other h t = record {
  handle = update (moved i other t).handle i none;
  opened = erase h t.opened;
}

construct-fresh :
    (i other : ℕ) (t : Table) → construct (some i) other t ≡ ok (fresh i other t) (moved i other t)
unfolding construct move
construct-fresh i other t = refl

sys_file-same :
    {A : Type 0} (r : Sys A) (s : File) → Safe (λ _ d. d ≡ s) (λ d. d ≡ s) (sys_file r s)
sys_file-same (done a) s = returns refl
sys_file-same (failed e) s = throws refl
sys_file-same blocks s = waits

fresh-Constructed :
    (i other h : ℕ) (t : Table)
    → t.handle i ≡ none
    → i ≢ other
    → t.handle other ≡ some h
    → Owned t
    → Constructed h (fresh i other t) (moved i other t)
fresh-Constructed i other h t z ne full o = (
  record {
    owned = move-Owned i other t z ne o;
    counted = refl;
    live = λ _ e. ground arith;
    gone = λ e. ground arith;
  },
  refl,
  refl,
  refl,
  refl,
  ground arith,
)

set_nonblocking-same :
    (f : Fcntl) (s : File)
    → s.attached ≡ true
    → Safe (λ _ d. d ≡ s) (λ d. d ≡ s) (set_nonblocking f s)
unfolding set_nonblocking
set_nonblocking-same f s a = rw (native-attached s a) (
    Safe-bind (sys_file-same (f.get_flags (s.table.handle s.block)) s)
      λ flags d e. rw e (rw (native-attached s a) (sys_file-same _ s)))

destroy-open :
    (i h : ℕ) (t : Table)
    → t.handle i ≡ some h
    → has h t.opened ≡ true
    → destroy i t ≡ ok tt (record { handle = update t.handle i none; opened = erase h t.opened })
unfolding destroy maybe_close
destroy-open i h t at here = rw (at, here) refl

-- The file_object is destroyed, and with it the last pointer to the descriptor.
reset-closed :
    (i other h : ℕ) (t : Table)
    → i ≢ other
    → t.handle other ≡ some h
    → has h t.opened ≡ true
    → map_state (λ d. d.table) (reset (fresh i other t)) ≡ ok tt (closed i other h t)
unfolding reset release
reset-closed i other h t ne full here =
    let at : (moved i other t).handle i ≡ some h = ground arith in
    rw (destroy-open i h (moved i other t) at here) refl

closed-Unmade :
    (i other h : ℕ) (t : Table)
    → t.handle i ≡ none
    → i ≢ other
    → t.handle other ≡ some h
    → Owned t
    → Unmade (some i) other h t (closed i other h t)
closed-Unmade i other h t z ne full o =
    let one : times h t.opened ≡ 1 = o.live other h full in
    let here : has h t.opened ≡ true = has-times h t.opened (ground arith) in
    let at : (moved i other t).handle i ≡ some h = ground arith in
    (
      closed-Owned i h (moved i other t) at here (move-Owned i other t z ne o),
      refl,
      ground (arith, times-erase h h t.opened),
      ground arith,
      ground arith,
    )

unwound-Constructed :
    (i other h : ℕ) (t : Table) {r : Run File (Unit {0})}
    → t.handle i ≡ none
    → i ≢ other
    → t.handle other ≡ some h
    → Owned t
    → Safe (λ _ d. d ≡ fresh i other t) (λ d. d ≡ fresh i other t) r
    → Safe (Constructed h) (Unmade (some i) other h t) (unwound r)
unwound-Constructed i other h t z ne full o (returns {s = d} e) =
    returns
      (subst (λ x. Constructed h x x.table) (sym e) (fresh-Constructed i other h t z ne full o))
unwound-Constructed i other h t z ne full o (throws {s = d} e) =
    let one : times h t.opened ≡ 1 = o.live other h full in
    let here : has h t.opened ≡ true = has-times h t.opened (ground arith) in
    rw (e, reset-closed i other h t ne full here) (throws (closed-Unmade i other h t z ne full o))
unwound-Constructed i other h t z ne full o waits = waits

pub construct_poll_file-Owned :
    (f : Fcntl) (place : Option ℕ) (other h : ℕ) (t : Table)
    → ((i : ℕ) → place ≡ some i → (t.handle i ≡ none) × (i ≢ other))
    → t.handle other ≡ some h
    → Owned t
    → Safe (Constructed h) (Unmade place other h t) (construct_poll_file f place other t)
unfolding construct_poll_file construct
construct_poll_file-Owned f none other h t free full o = throws refl
construct_poll_file-Owned f (some i) other h t free full o =
    let (z, ne) = free i refl in
    rw (construct-fresh i other t)
      (unwound-Constructed i other h t z ne full o (set_nonblocking-same f (fresh i other t) refl))
