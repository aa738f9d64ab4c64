-- ===== src/Context/Servicing.antt =====
-- `service_queue`, with callables as in Contract, takes each one from the queue with a unit of work.
use asio_uring.Base.{
  ℕ, zero, suc, ◌+◌, ◌≤◌, ◌<◌, ◌≡◌, refl, ap, ◌∙◌, dec64, ◌==◌, Bool, true, false, List, [], ◌∷◌,
  Run, length, word_mod, arith, Safe, returns, Safe-bind, Safe-mono, leb,
}
use asio_uring.Context.Platform.{Platform, Laws, of_queue}
use asio_uring.Context.State.{Context}
use asio_uring.Context.Executor.{User}
use asio_uring.Context.Loop.{popped, call, consume, service_queue}
use asio_uring.Context.Invariant.{Inv, Kept, Steps, Contract, Steps-Inv}

-- The fields that a run of callables leaves alone.
pub record Fixed {p : Platform} (c d : Context p) : Type 0 where
  pub q_same : d.q_started ≡ c.q_started
  pub stop_same : d.stop_started ≡ c.stop_started
  pub zero_same : d.zero_started ≡ c.zero_started
  pub flag_same : d.stopped_flag ≡ c.stopped_flag
  pub tid_same : d.tid ≡ c.tid

-- What holds when an exception leaves.
abbrev pub Exit : {p : Platform} → Context p → Context p → Type 0
Exit c d = Inv d × (d.tid ≡ c.tid)

-- The state between `pop_node` and the callable that was taken.
record Loaded {p : Platform} (c : Context p) : Type 0 where
  counted : p.count c.world of_queue + c.pending ≤ length c.q + 1
  held : length c.q + 1 + p.in_flight c.world ≤ c.work
  room : c.work < word_mod
  some_pending : 0 < c.pending

-- The same with what a callable leaves alone.
abbrev pub Thrown : {p : Platform} → Context p → Context p → Type 0
Thrown c d = Inv d × Fixed c d

-- An exit that is measured from an earlier state of the same thread.
pub Safe-Exit :
    {p : Platform} {A : Type 0} {P : A → Context p → Type 0} (c d : Context p)
    {r : Run (Context p) A}
    → d.tid ≡ c.tid
    → Safe P (Exit d) r
    → Safe P (Exit c) r
Safe-Exit c d e s = Safe-mono s (λ a f h. h) λ f (i, t). (i, t ∙ e)

module _ {p : Platform} {u : User p} (l : Laws p) (k : Contract u) where
  pub user_Safe :
      {c : Context p} {r : Run (Context p) (Unit {0})}
      → Inv c
      → Safe (λ _ d. Steps c d) (λ d. Steps c d) r
      → Safe (λ _ d. Inv d × Kept c d) (Thrown c) r
  user_Safe {c} inv s =
      Safe-mono s (λ _ d st. Steps-Inv l st inv)
        λ d st. let (i, same) = Steps-Inv l st inv in (i, ground arith)

  pop-Safe :
      (c : Context p) (xs : List p.Handler)
      → Inv c
      → c.q ≡ xs
      → 0 < c.pending
      → Safe (λ h d. Loaded d × Fixed c d × (d.pending ≡ c.pending)) (Thrown c) (popped xs c)
  pop-Safe c [] inv e lt = absurd (omega (arith, inv.counted, ap length e))
  pop-Safe c (h ∷ rest) inv e lt = returns (ground (arith, ap length e))

  call-Safe :
      (h : p.Handler) (retr : Bool) (c : Context p)
      → Loaded c
      → Safe (λ _ d. Inv d × Fixed c d × (d.pending + 1 ≡ c.pending)) (Thrown c) (call u h retr c)
  unfolding call
  call-Safe h retr c ld = rw works (
      Safe-bind
        (Safe-mono (user_Safe inv (k.invoke_Steps h c' inv (ground arith))) (λ a d x. x)
          (λ d (i, f). (i, ground arith)))
        λ _ d (i, same). returns (i, ground arith, ground arith))
    where
      works : (c.work == 0) ≡ false
      works = ground arith

      c' : Context p
      c' = record c { pending = dec64 c.pending; work = dec64 c.work }

      inv : Inv c'
      inv = ground arith

  pub consume-Safe :
      (n : ℕ) (retr : Bool) (c : Context p)
      → Inv c
      → n ≤ c.pending
      → Safe
          (λ _ d. Inv d × Fixed c d × (d.pending + n ≡ c.pending))
          (Thrown c)
          (consume u n retr c)
  unfolding consume
  consume-Safe zero retr c inv le = returns (inv, ground arith, omega arith)
  consume-Safe (suc n) retr c inv le =
      Safe-bind (pop-Safe c c.q inv refl (omega arith)) λ h d (ld, fd, pd).
        Safe-bind (Safe-mono (call-Safe h retr d ld) (λ b e x. x) (λ e (i, t). (i, ground arith)))
          λ b e (i, fe, pe).
            Safe-mono (consume-Safe n b e i (omega arith))
              (λ b' f (j, ff, pf). (j, ground arith, omega arith)) λ f (j, t). (j, ground arith)

  pub service_queue-Thrown :
      (max : ℕ) (c : Context p)
      → Inv c
      → max ≤ c.pending
      → Safe
          (λ _ d. Inv d × Fixed c d × (d.pending + max ≡ c.pending))
          (Thrown c)
          (service_queue u max c)
  unfolding service_queue
  service_queue-Thrown max c inv le =
      let fits : leb max c.pending ≡ true = ground arith in
      rw fits (consume-Safe max false c inv le)

  -- `service_queue` of at most as many callables as are pending, with the account of the context
  -- right, on a platform that obeys its laws, if callables, completions and other threads reach the
  -- context only by posts whose write to the eventfd of the queue succeeds, starts of work,
  -- finishes of a unit of work that neither a queued callable nor an operation in flight holds, and
  -- submissions that touch no counter and have a unit of work that no other holds, all without the
  -- count of work wrapping (so that nobody calls `stop` or `restart`): no assertion fails; on
  -- return that many have been taken off the pending ones, the account is right and the flags and
  -- the thread are what they were; when a callable throws, the account is right and the thread is
  -- what it was.
  pub service_queue-Safe :
      (max : ℕ) (c : Context p)
      → Inv c
      → max ≤ c.pending
      → Safe
          (λ _ d. Inv d × Fixed c d × (d.pending + max ≡ c.pending))
          (Exit c)
          (service_queue u max c)
  service_queue-Safe max c inv le =
      Safe-mono (service_queue-Thrown max c inv le) (λ _ d x. x) (λ d (i, f). (i, f.tid_same))
