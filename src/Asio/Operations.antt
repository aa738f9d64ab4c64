-- ===== src/Asio/Operations.antt =====
-- An operation of an I/O object keeps its descriptor open until its handler has run.
use asio_uring.Base.{
  ℕ, ◌≡◌, refl, true, false, Option, ◌∷◌, Run, Safe, returns, throws, waits, Safe-bind, Safe-mono,
  Safe-map_state, ◌∙◌, arith, throw, and_then, map_state, Exception,
}
use asio_uring.EventfdQueue.Nodes.{erase}
use asio_uring.Context.Platform.{Platform}
use asio_uring.Service.Pool.{Service}
use asio_uring.FileObject.{discard}
use asio_uring.FileObject.Lifetime.{
  Shared, Settled, native-attached, wrapped, wrap-attached, wrapped-Shared, discard-Kept,
}
use asio_uring.Asio.Initiate.{
  Preps, Start, Wrapper, Kind, initiate_read_some_at, initiate_write_some_at, initiate_poll_add,
  initiate_fsync,
}
use asio_uring.Asio.Guarantee.{
  Started, Undone, Ready, Starts, initiate_rw_some_at-Started, initiate_plain-Started,
}
use asio_uring.Asio.Files.{
  IoFile, in_file, dropped, with_token, async_read_some_at, async_write_some_at, async_flush,
  async_poll_in, async_poll_out, Op, read_at, write_at, flush, flush_all, poll_in, poll_out,
  poll_then, async_poll_then, exec, kind_of,
}

-- The operation has been started, and its handler holds the descriptor.
abbrev pub Held : {p : Platform} → Kind → ℕ → IoFile p → IoFile p → Type 0
Held k h s d =
    Settled s.file d.file
    × (d.file.holding ≡ h ∷ s.file.holding)
    × Started s.impl (record { kind = k; handler = h }) s.service d.service

-- It has not, and neither a handler nor the service holds more than before.
abbrev pub Dropped : {p : Platform} → IoFile p → IoFile p → Type 0
Dropped s d = Settled s.file d.file × (d.file.holding ≡ s.file.holding) × Undone s.service d.service

module _ {p : Platform} where
  -- The handler of an operation that could not be started goes.
  discard-Dropped :
      (h : ℕ) (s : IoFile p) (d : Service p Wrapper) (e : Exception)
      → Shared s.file
      → s.file.attached ≡ true
      → Undone s.service d
      → Safe {A = Unit {0}}
          (λ _ f. ⊥)
          (Dropped s)
          (and_then
            (in_file (discard h) (record s { file = wrapped h s.file; service = d }))
            (λ _ f. throw e f))
  discard-Dropped h s d e shared a undone =
      let back : erase h (h ∷ s.file.holding) ≡ s.file.holding = ground arith in
      Safe-bind {P = λ _ f. Dropped s f}
        (Safe-map_state (λ t. record s { file = t; service = d })
          (discard-Kept h (wrapped h s.file) (ground arith) (wrapped-Shared h s.file a shared))
          (λ _ t x. (x.0, x.1 ∙ back, undone)) (λ t x. (x.0, x.1 ∙ back, undone)))
        λ _ f x. throws x

  dropped-Held :
      (k : Kind) (h : ℕ) (s : IoFile p) {r : Run (Service p Wrapper) (Unit {0})}
      → Shared s.file
      → s.file.attached ≡ true
      → Safe
          (λ _ d. Started s.impl (record { kind = k; handler = h }) s.service d)
          (Undone s.service)
          r
      → Safe
          (λ _ d. Held k h s d)
          (Dropped s)
          (dropped h (map_state (λ t. record s { file = wrapped h s.file; service = t }) r))
  dropped-Held k h s shared a (returns x) =
      returns ((wrapped-Shared h s.file a shared, refl), refl, x)
  dropped-Held k h s shared a (throws {s = d} x) =
      Safe-mono (discard-Dropped h s d _ shared a x) (λ _ f. absurd) (λ f y. y)
  dropped-Held k h s shared a waits = waits

  with_token-Held :
      (x : Start p) (k : Kind) (h : ℕ)
      (f : ℕ → Option ℕ → Service p Wrapper → Run (Service p Wrapper) (Unit {0})) (s : IoFile p)
      → ((impl : ℕ) (fd : Option ℕ) → Starts x impl k h (f impl fd))
      → Ready x s.service
      → Shared s.file
      → s.file.attached ≡ true
      → Safe (λ _ d. Held k h s d) (Dropped s) (with_token h f s)
  with_token-Held x k h f s starts ready shared a = rw (native-attached s.file a) (
      rw (wrap-attached h s.file a) (
        dropped-Held k h s shared a
          (starts s.impl (s.file.table.handle s.file.block) s.service ready)))

  -- Each operation of async_file, the two polls of poll_file and the poll of async_poll_then, on an
  -- object that has its descriptor with the account of it right, and a service that is sound and
  -- has room for two units of work, with an allocator that returns nothing in use, if the write to
  -- the eventfd of `on_work_finished` succeeds: no assertion fails. On return one more handler
  -- holds the descriptor, one more completion is in use for the handle of the object and stores
  -- that handler with the conversion of the result that belongs to the operation, the others store
  -- what they did, and there are two more units of work. When it throws, the handlers that hold the
  -- descriptor, the completions in use, what they store, the lists of the handles and the count of
  -- work are what they were, and the service is sound. The account of the descriptor is right and
  -- as many invocations are under way in both cases.
  pub exec-Held :
      (l : Preps p) (x : Start p) (k : Op) (h : ℕ) (s : IoFile p)
      → Ready x s.service
      → Shared s.file
      → s.file.attached ≡ true
      → Safe (λ _ d. Held (kind_of k) h s d) (Dropped s) (exec l x k h s)
  unfolding exec async_read_some_at async_write_some_at async_flush async_poll_in async_poll_out
      async_poll_then initiate_read_some_at initiate_write_some_at initiate_poll_add initiate_fsync
  exec-Held l x (read_at o mb) h s =
      with_token-Held x _ h _ s (λ impl fd. initiate_rw_some_at-Started x impl fd l.readv o mb h)
  exec-Held l x (write_at o cb) h s =
      with_token-Held x _ h _ s (λ impl fd. initiate_rw_some_at-Started x impl fd l.writev o cb h)
  exec-Held l x (flush b) h s =
      with_token-Held x _ h _ s (λ impl fd. initiate_plain-Started x impl _ _ h)
  exec-Held l x flush_all h s =
      with_token-Held x _ h _ s (λ impl fd. initiate_plain-Started x impl _ _ h)
  exec-Held l x poll_in h s =
      with_token-Held x _ h _ s (λ impl fd. initiate_plain-Started x impl _ _ h)
  exec-Held l x poll_out h s =
      with_token-Held x _ h _ s (λ impl fd. initiate_plain-Started x impl _ _ h)
  exec-Held l x (poll_then true) h s =
      with_token-Held x _ h _ s (λ impl fd. initiate_plain-Started x impl _ _ h)
  exec-Held l x (poll_then false) h s =
      with_token-Held x _ h _ s (λ impl fd. initiate_plain-Started x impl _ _ h)
