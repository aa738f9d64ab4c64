-- ===== src/Asio/Events.antt =====
-- Whatever happens to an I/O object, its operations keep their account.
use asio_uring.Base.{
  ℕ, ◌+◌, ◌≡◌, ◌∙◌, ap, true, false, Option, List, [], arith, Safe, returns, Safe-mono,
  Safe-map_state, sym, Bool-cases, inl, inr,
}
use asio_uring.EventfdQueue.Nodes.{Ptr}
use asio_uring.EventfdQueue.Chains.{times}
use asio_uring.Context.Platform.{Platform}
use asio_uring.Context.Executor.{is_thread}
use asio_uring.Service.Account.{Writes, unit_of}
use asio_uring.FileObject.{reset}
use asio_uring.FileObject.Lifetime.{release-Kept, held-live}
use asio_uring.Asio.Initiate.{Preps, Start, Wrapper}
use asio_uring.Asio.Guarantee.{Ready}
use asio_uring.Asio.Files.{IoFile, Op, in_file, kind_of}
use asio_uring.Asio.Files
use asio_uring.Asio.Operations.{Held, Dropped, exec-Held}
use asio_uring.Asio.Calls.{Environment, Event, begins, completes, resets, exec}
use asio_uring.Asio.Tally.{tally, is_for, tally-units, tally-alike}
use asio_uring.Asio.Accounts.{Account, Balanced, Stores, Respects}
use asio_uring.Asio.Completion.{complete-Balanced}

-- What an event needs: room and an allocator for an operation on an object that has its descriptor, and
-- for an entry a completion that is in use with a function object, in the thread of the loop.
abbrev pub Valid : {p : Platform} → Environment p → Event p → IoFile p → Type 0
Valid v (begins x k h) s = Ready x s.service × (s.file.attached ≡ true)
Valid v (completes c cqe) s =
    (w : Wrapper) × Stores c w s × (is_thread s.service.ctx.tid v.thread ≡ true)
Valid v resets s = Unit {0}

module _ {p : Platform} where
  -- What was stored still is.
  abbrev pub Keeping : IoFile p → IoFile p → Type 0
  Keeping s d = (c : Ptr) (w : Wrapper) → Stores c w s → Stores c w d

  Held-Account :
      (base locals h : ℕ) (running : List ℕ) (k : Op) (s d : IoFile p)
      → Account base 0 locals running s
      → Held (kind_of k) h s d
      → Account base 0 locals running d × Keeping s d
  Held-Account base locals h running k s d x
        ((shared, same), holds, (c, sound, i, l, at, more, others)) =
      let out : times c s.service.in_use ≡ 0 =
        ground (arith, ap (times c) i, sound.placed c, sound.once c) in
      let more_of : (g : Option Wrapper → ℕ)
          → tally g d.service.wrapped d.service.in_use
            ≡ g (d.service.wrapped c) + tally g s.service.wrapped s.service.in_use =
        λ g.
          ap (tally g d.service.wrapped) i
          ∙ ap (λ n. g (d.service.wrapped c) + n)
              (tally-alike g d.service.wrapped s.service.wrapped s.service.in_use
                (λ y ne. others y (ground (arith, ne)))) in
      (
        record {
          sound = sound;
          shared = shared;
          pointers = same ∙ x.pointers;
          held = λ n.
              ground (arith, ap (times n) holds, x.held n, more_of (is_for n), ap (is_for n) at);
          spent = omega (
            arith,
            more,
            x.spent,
            more_of unit_of,
            ap unit_of at,
            tally-units d.service.wrapped d.service.in_use,
            tally-units s.service.wrapped s.service.in_use,
          );
        },
        λ e w (one, st). (ground (arith, ap (times e) i), others e (ground arith) ∙ st),
      )

  Dropped-Account :
      (base locals : ℕ) (running : List ℕ) (s d : IoFile p)
      → Account base 0 locals running s
      → Dropped s d
      → Account base 0 locals running d × Keeping s d
  Dropped-Account base locals running s d x ((shared, same), holds, (sound, i, l, work, alike)) =
      let same_of : (g : Option Wrapper → ℕ)
          → tally g d.service.wrapped d.service.in_use
            ≡ tally g s.service.wrapped s.service.in_use =
        λ g.
          ap (tally g d.service.wrapped) i
          ∙ tally-alike g d.service.wrapped s.service.wrapped s.service.in_use (λ y ne. alike y) in
      (
        record {
          sound = sound;
          shared = shared;
          pointers = same ∙ x.pointers;
          held = λ n.
              ap (λ t. times n t + times n running) holds ∙ x.held n ∙ sym (same_of (is_for n));
          spent = omega (
            arith,
            work,
            x.spent,
            same_of unit_of,
            tally-units d.service.wrapped d.service.in_use,
            tally-units s.service.wrapped s.service.in_use,
          );
        },
        λ e w (one, st). (ap (times e) i ∙ one, alike e ∙ st),
      )

  -- Beginning an operation keeps the account, also within the call of a handler.
  pub begins-Account :
      (l : Preps p) (x : Start p) (k : Op) (base locals h : ℕ) (running : List ℕ) (s : IoFile p)
      → Account base 0 locals running s
      → Ready x s.service
      → s.file.attached ≡ true
      → Safe
          (λ _ d. Account base 0 locals running d × Keeping s d)
          (λ d. Account base 0 locals running d × Keeping s d)
          (Files.exec l x k h s)
  begins-Account l x k base locals h running s y ready a =
      Safe-mono (exec-Held l x k h s ready y.shared a)
        (λ _ d z. Held-Account base locals h running k s d y z)
        (λ d z. Dropped-Account base locals running s d y z)

  -- So does giving up the descriptor of the object.
  pub reset-Account :
      (base locals : ℕ) (running : List ℕ) (s : IoFile p)
      → Account base 0 locals running s
      → Safe
          (λ _ d. Account base 0 locals running d × Keeping s d)
          (λ d. Account base 0 locals running d × Keeping s d)
          (in_file reset s)
  unfolding reset
  reset-Account base locals running s x = elim (Bool-cases s.file.attached) [
    | inl a ↦ rw a (
        Safe-map_state (λ t. record s { file = t })
          (release-Kept (record s.file { attached = false }) x.shared.owned
            (ground (arith, x.shared.counted)) (held-live s.file x.shared (ground arith)))
          (λ _ f ((shared, same), holds, _). (
            record {
              sound = x.sound;
              shared = shared;
              pointers = same ∙ x.pointers;
              held = λ n. ap (λ t. times n t + times n running) holds ∙ x.held n;
              spent = x.spent;
            },
            λ e w z. z,
          ))
          (λ f. absurd))
    | inr a ↦ simp a (returns (x, λ e w z. z))
  ]

  -- What happens to an I/O object that is alone with its service, while its operations keep their
  -- account (the service is sound, the account of the descriptor is right, each handler of a stored
  -- function object holds the descriptor, and the count of work is that of others and two units for
  -- each function object): beginning an operation on an object that has its descriptor, with room
  -- in the count of work and an allocator that returns nothing in use; an entry, in the thread of
  -- the loop, for a completion that is in use with a function object, whose handler keeps the
  -- account, does not end its own operation, and may itself begin others or reset the object; a
  -- reset. If the write to the eventfd of `on_work_finished` succeeds: no assertion fails, and
  -- whether it returns or throws, the account is kept.
  pub exec-Balanced :
      (l : Preps p) (v : Environment p) (base : ℕ) (e : Event p) (s : IoFile p)
      → Writes p
      → Respects base v
      → Valid v e s
      → Balanced base s
      → Safe (λ _ d. Balanced base d) (Balanced base) (exec l v e s)
  unfolding exec
  exec-Balanced l v base (begins x k h) s wr keeps (ready, a) y =
      Safe-mono (begins-Account l x k base 0 h [] s y ready a) (λ _ d z. z.0) (λ d z. z.0)
  exec-Balanced l v base (completes c cqe) s wr keeps (w, st, here) y =
      Safe-mono (complete-Balanced base v c w cqe s wr keeps here y st) (λ _ d z. z.0) (λ d z. z.0)
  exec-Balanced l v base resets s wr keeps valid y =
      Safe-mono (reset-Account base 0 [] s y) (λ _ d z. z.0) (λ d z. z.0)
