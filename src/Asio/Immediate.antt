-- ===== src/Asio/Immediate.antt =====
-- An operation that may end at once either posts its handler or starts its poll.
use asio_uring.Base.{
  ℕ, zero, suc, ◌+◌, ◌<◌, ◌≡◌, refl, ◌==◌, Bool, true, false, Option, none, some, [], ◌∷◌, ◌++◌,
  Exception, Sys, done, failed, blocks, add64, word_mod, arith, ok, Safe, returns, throws,
}
use asio_uring.Context.Platform.{Platform, of_queue}
use asio_uring.Context.State.{Context, eventfd_write, sys_result}
use asio_uring.Context.Executor.{on_work_started, allocated, emplace}
use asio_uring.Context.Executor
use asio_uring.Service.Account.{Sound}
use asio_uring.FileObject.Lifetime.{Shared}
use asio_uring.Io.Codes.{success, generic_code, to_boost_error_code}
use asio_uring.Asio.Initiate.{Preps, Start, Args, rw_args, code_args, poll_add_completion}
use asio_uring.Asio.Guarantee.{Ready}
use asio_uring.Asio.Files.{IoFile, async_poll_then, poll_then}
use asio_uring.Asio.Files
use asio_uring.Asio.Operations.{Held, Dropped, exec-Held}
use asio_uring.Asio.Posts.{
  post, async_impl, async_read_some, async_write_some, connected_case, async_connect, Op, read_some,
  write_some, connect, exec,
}

abbrev pub connect_answer : Option ℕ → Bool → Option Args
connect_answer (some e) connected = some (code_args (generic_code e))
connect_answer none true = some (code_args success)
connect_answer none false = none

-- What the handler is called with if it is posted; none if the descriptor is polled.
abbrev pub answer : Op → Option Args
answer (read_some zero) = some (rw_args success 0)
answer (read_some (suc n)) = none
answer (write_some zero) = some (rw_args success 0)
answer (write_some (suc n)) = none
answer (connect r) = connect_answer r.error r.connected

-- Storage is to be had, and a write of 1 to the eventfd of the queue succeeds.
pub record Posting (p : Platform) : Type 0 where
  pub allocates : (w : p.World) → (p.allocate w).0 ≡ true
  pub writes : (w : p.World) → (p.write_eventfd of_queue 1 w).0 ≡ done tt

-- The callable is the last one in the queue, with a unit of work, and nothing else has changed.
abbrev pub Posted : {p : Platform} → p.Handler → IoFile p → IoFile p → Type 0
Posted f s d =
    (d.file ≡ s.file)
    × (d.service.in_use ≡ s.service.in_use)
    × (d.service.held ≡ s.service.held)
    × (d.service.wrapped ≡ s.service.wrapped)
    × (d.service.ctx.q ≡ s.service.ctx.q ++ f ∷ [])
    × (d.service.ctx.work ≡ s.service.ctx.work + 1)

abbrev pub Undertaken :
    {p : Platform} → (ℕ → Args → p.Handler) → ℕ → Option Args → IoFile p → IoFile p → Type 0
Undertaken bind h (some args) s d = Posted (bind h args) s d
Undertaken bind h none s d = Held poll_add_completion h s d

module _ {p : Platform} where
  sys_done :
      (c : Context p) (x : Sys (Unit {0}) × p.World)
      → x.0 ≡ done tt
      → sys_result c x ≡ ok tt (record c { world = x.1 })
  sys_done c (done _, w) e = refl
  sys_done c (failed n, w) e = absurd cc
  sys_done c (blocks, w) e = absurd cc

  allocated_true :
      (c : Context p) (x : Bool × p.World)
      → x.0 ≡ true
      → allocated x c ≡ ok tt (record c { world = x.1 })
  allocated_true c (true, w) e = refl
  allocated_true c (false, w) e = absurd cc

  emplace_returns :
      (f : p.Handler) (c : Context p)
      → Posting p
      → (w : p.World) × (emplace f c ≡ ok tt (record c { q = c.q ++ f ∷ []; world = w }))
  unfolding emplace eventfd_write
  emplace_returns f c m =
      let w = (p.allocate c.world).1 in
      let x = p.write_eventfd of_queue 1 w in
      (
        x.1,
        rw (allocated_true c (p.allocate c.world) (m.allocates c.world))
            (sys_done (record c { q = c.q ++ f ∷ []; world = w }) x (m.writes w)),
      )

  post_returns :
      (f : p.Handler) (c : Context p)
      → Posting p
      → c.work + 1 < word_mod
      → (d : Context p) × (Executor.post f c ≡ ok tt d)
        × (d.q ≡ c.q ++ f ∷ [])
        × (d.work ≡ c.work + 1)
  unfolding Executor.post on_work_started
  post_returns f c m room =
      let (w, e) = emplace_returns f (record c { work = add64 c.work 1 }) m in
      (
        record c { work = add64 c.work 1; q = c.q ++ f ∷ []; world = w },
        rw e refl,
        refl,
        omega arith,
      )

  post-Undertaken :
      (bind : ℕ → Args → p.Handler) (bound : Option Exception) (h : ℕ) (args : Args) (s : IoFile p)
      → Posting p
      → Sound s.service
      → s.service.ctx.work + 2 < word_mod
      → Shared s.file
      → Safe (λ _ d. Undertaken bind h (some args) s d) (Dropped s) (post bind bound h args s)
  unfolding post
  post-Undertaken bind (some e) h args s m sound room shared =
      throws ((shared, refl), refl, (sound, refl, refl, refl, λ x. refl))
  post-Undertaken bind none h args s m sound room shared =
      let (d, e, q, w) = post_returns (bind h args) s.service.ctx m (omega arith) in
      rw e (returns (refl, refl, refl, refl, q, w))

  module _ (l : Preps p) (x : Start p) (bind : ℕ → Args → p.Handler) (bound : Option Exception)
      (h : ℕ) (s : IoFile p) (m : Posting p) (ready : Ready x s.service) (shared : Shared s.file)
      (attached : s.file.attached ≡ true) where
    poll-Undertaken :
        (i : Bool)
        → Safe (λ _ d. Undertaken bind h none s d) (Dropped s) (async_poll_then l x i h s)
    unfolding Files.exec
    poll-Undertaken i = exec-Held l x (poll_then i) h s ready shared attached

    impl-Undertaken :
        (i : Bool) (size : ℕ)
        → Safe
            (λ _ d. Undertaken bind h (answer (read_some size)) s d)
            (Dropped s)
            (async_impl l x bind bound i size h s)
    unfolding async_impl
    impl-Undertaken i zero =
        post-Undertaken bind bound h (rw_args success 0) s m ready.sound ready.room shared
    impl-Undertaken i (suc n) =
        let some_bytes : (suc n == 0) ≡ false = ground arith in rw some_bytes (poll-Undertaken i)

    connect-Undertaken :
        (e : Option ℕ) (b : Bool)
        → Safe
            (λ _ d. Undertaken bind h (connect_answer e b) s d)
            (Dropped s)
            (connected_case l x bind bound h e b s)
    unfolding to_boost_error_code
    connect-Undertaken (some e) b =
        post-Undertaken bind bound h (code_args (generic_code e)) s m ready.sound ready.room shared
    connect-Undertaken none true =
        post-Undertaken bind bound h (code_args success) s m ready.sound ready.room shared
    connect-Undertaken none false = poll-Undertaken false

    -- async_read_some and async_write_some of poll_file and async_connect of connect_file, after
    -- whatever its call of connect returns, on an object that has its descriptor with the account
    -- of it right, and a sound service that has room for two units of work, with an allocator that
    -- returns nothing in use, if there is storage to be had and the writes to the eventfds succeed:
    -- no assertion fails. On return, if there are no bytes to transfer, or connect has failed or
    -- succeeded at once, the last callable in the queue is the handler bound to that result, with a
    -- unit of work, and the completions and the descriptor are as before; else a poll has been
    -- started whose handler holds the descriptor. When it throws, the handlers that hold the
    -- descriptor, the completions in use and the count of work are what they were.
    pub exec-Undertaken :
        (op : Op)
        → Safe (λ _ d. Undertaken bind h (answer op) s d) (Dropped s) (exec l x bind bound op h s)
    unfolding exec async_read_some async_write_some async_connect
    exec-Undertaken (read_some n) = impl-Undertaken true n
    exec-Undertaken (write_some zero) = impl-Undertaken false zero
    exec-Undertaken (write_some (suc n)) = impl-Undertaken false (suc n)
    exec-Undertaken (connect r) = connect-Undertaken r.error r.connected
