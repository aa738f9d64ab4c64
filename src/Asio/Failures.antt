-- ===== src/Asio/Failures.antt =====
-- An operation that cannot be started and gives back the last unit of work wakes the loop.
use asio_uring.Base.{
  ℕ, ◌<◌, ◌≡◌, true, false, Option, List, length, Run, ok, throw, abort, running, and_then,
  map_state, Leads, Safe, returns, throws, waits, Safe-mono, word_mod, arith, Exception,
}
use asio_uring.Context.Platform.{Platform, Laws}
use asio_uring.Context.State.{Context}
use asio_uring.Context.Executor.{on_work_finished}
use asio_uring.Service.Pool.{Service, Iovs, in_context}
use asio_uring.Service.Account.{Writes}
use asio_uring.Service.Initiate.{initiate-Launched, initiate_iovs-Launched}
use asio_uring.FileObject.{File}
use asio_uring.FileObject
use asio_uring.FileObject.Lifetime.{native-attached, wrapped, wrap-attached}
use asio_uring.Asio.Iovec.{Buffer}
use asio_uring.Asio.Handler.{construct, discard}
use asio_uring.Asio.Initiate.{
  Preps, Start, Wrapper, Kind, stored, dropped, initiate_rw_some_at, initiate_plain,
  initiate_read_some_at, initiate_write_some_at, initiate_poll_add, initiate_fsync,
}
use asio_uring.Asio.Guarantee.{Ready, worked-Sound, worked-Unused, worked-work}
use asio_uring.Asio.Files.{
  IoFile, in_file, with_token, async_read_some_at, async_write_some_at, async_flush, async_poll_in,
  async_poll_out, async_poll_then, Op, read_at, write_at, flush, flush_all, poll_in, poll_out,
  poll_then, exec,
}
use asio_uring.Asio.Files
use asio_uring.Asio.Waking.{Awake, AwakeIn, AwakeOf, on_work_finished-Awake}

-- What holds of the state that a run throws in, if it does.
abbrev pub Thrown : {S A : Type 0} → (S → Type 0) → Run S A → Type 0
Thrown P (ok a s) = Unit {0}
Thrown P (throw e s) = P s
Thrown P abort = Unit {0}
Thrown P (running s) = Unit {0}

module _ {p : Platform} (l : Laws p) (wr : Writes p) where
  discarded-Thrown :
      (t : Service p Wrapper) (e : Exception) (x : Run (Context p) (Unit {0}))
      → Leads (Awake l wr) x
      → Thrown {A = Unit {0}} (AwakeIn l wr) (and_then (in_context t x) (λ _ d. throw e d))
  discarded-Thrown t e (ok a c) h = h
  discarded-Thrown t e (throw f c) h = h
  discarded-Thrown t e abort h = tt
  discarded-Thrown t e (running c) h = tt

  dropped-Thrown :
      {P : Unit {0} → Service p Wrapper → Type 0} {r : Run (Service p Wrapper) (Unit {0})}
      → Safe P (λ t. t.ctx.work < word_mod) r
      → Thrown (AwakeIn l wr) (dropped r)
  unfolding discard
  dropped-Thrown (returns h) = tt
  dropped-Thrown (throws {e} {s = t} room) =
      discarded-Thrown t e (on_work_finished t.ctx) (on_work_finished-Awake l wr t.ctx room)
  dropped-Thrown waits = tt

  -- An initiating function that throws leaves the loop awake.
  abbrev Failing : Start p → (Service p Wrapper → Run (Service p Wrapper) (Unit {0})) → Type 0
  Failing x f = (s : Service p Wrapper) → Ready x s → Thrown (AwakeIn l wr) (f s)

  rw_some_at-Failing :
      (x : Start p) (impl : ℕ) (fd : Option ℕ)
      (prep : p.Sqe → Option ℕ → Iovs → ℕ → ℕ → p.World → p.World) (o : ℕ) (bs : List Buffer)
      (h : ℕ)
      → Failing x (initiate_rw_some_at x impl fd prep o bs h)
  unfolding initiate_rw_some_at
  rw_some_at-Failing x impl fd prep o bs h s r = dropped-Thrown (
      Safe-mono
        (initiate_iovs-Launched x.tag x.capacity_for impl (length bs) _ (stored x.not_stored _)
          x.allocation (record s { ctx = construct s.ctx }) r.writes (worked-Sound x s r)
          (worked-Unused x.allocation s r.unused) (omega (arith, worked-work s r.room, r.room)))
        (λ _ d z. z) (λ d z. z.0.room))

  plain-Failing :
      (x : Start p) (impl : ℕ) (prep : p.Sqe → p.World → p.World) (k : Kind) (h : ℕ)
      → Failing x (initiate_plain x impl prep k h)
  plain-Failing x impl prep k h s r = dropped-Thrown (
      Safe-mono
        (initiate-Launched x.tag impl _ (stored x.not_stored _) x.allocation
          (record s { ctx = construct s.ctx }) r.writes (worked-Sound x s r)
          (worked-Unused x.allocation s r.unused) (omega (arith, worked-work s r.room, r.room)))
        (λ _ d z. z) (λ d z. z.0.room))

  file-Thrown :
      (s : IoFile p) (e : Exception) (x : Run File (Unit {0}))
      → AwakeOf l wr s
      → Thrown {A = Unit {0}}
          (AwakeOf l wr)
          (and_then (map_state (λ f. record s { file = f }) x) (λ _ d. throw e d))
  file-Thrown s e (ok a f) h = h
  file-Thrown s e (throw g f) h = h
  file-Thrown s e abort h = tt
  file-Thrown s e (running f) h = tt

  token-Thrown :
      (h : ℕ) (s : IoFile p) (r : Run (Service p Wrapper) (Unit {0}))
      → Thrown (AwakeIn l wr) r
      → Thrown (AwakeOf l wr) (Files.dropped h (map_state (λ t. record s { service = t }) r))
  token-Thrown h s (ok a t) k = tt
  token-Thrown h s (throw e t) k =
      file-Thrown (record s { service = t }) e (FileObject.discard h s.file) k
  token-Thrown h s abort k = tt
  token-Thrown h s (running t) k = tt

  with_token-Thrown :
      (x : Start p) (h : ℕ)
      (f : ℕ → Option ℕ → Service p Wrapper → Run (Service p Wrapper) (Unit {0})) (s : IoFile p)
      → ((impl : ℕ) (fd : Option ℕ) → Failing x (f impl fd))
      → Ready x s.service
      → s.file.attached ≡ true
      → Thrown (AwakeOf l wr) (with_token h f s)
  with_token-Thrown x h f s fails ready a = rw (native-attached s.file a) (
      rw (wrap-attached h s.file a) (
        token-Thrown h (record s { file = wrapped h s.file })
          (f s.impl (s.file.table.handle s.file.block) s.service)
          (fails s.impl (s.file.table.handle s.file.block) s.service ready)))

  pub exec-Thrown :
      (q : Preps p) (x : Start p) (k : Op) (h : ℕ) (s : IoFile p)
      → Ready x s.service
      → s.file.attached ≡ true
      → Thrown (AwakeOf l wr) (exec q x k h s)
  unfolding exec async_read_some_at async_write_some_at async_flush async_poll_in async_poll_out
      async_poll_then initiate_read_some_at initiate_write_some_at initiate_poll_add initiate_fsync
  exec-Thrown q x (read_at o mb) h s =
      with_token-Thrown x h _ s (λ impl fd. rw_some_at-Failing x impl fd q.readv o mb h)
  exec-Thrown q x (write_at o cb) h s =
      with_token-Thrown x h _ s (λ impl fd. rw_some_at-Failing x impl fd q.writev o cb h)
  exec-Thrown q x (flush b) h s = with_token-Thrown x h _ s (λ impl fd. plain-Failing x impl _ _ h)
  exec-Thrown q x flush_all h s = with_token-Thrown x h _ s (λ impl fd. plain-Failing x impl _ _ h)
  exec-Thrown q x poll_in h s = with_token-Thrown x h _ s (λ impl fd. plain-Failing x impl _ _ h)
  exec-Thrown q x poll_out h s = with_token-Thrown x h _ s (λ impl fd. plain-Failing x impl _ _ h)
  exec-Thrown q x (poll_then true) h s =
      with_token-Thrown x h _ s (λ impl fd. plain-Failing x impl _ _ h)
  exec-Thrown q x (poll_then false) h s =
      with_token-Thrown x h _ s (λ impl fd. plain-Failing x impl _ _ h)
