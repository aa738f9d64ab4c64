-- ===== src/Asio/RoundTrip.antt =====
-- An operation from its initiation to the end of its handler: `exec` of an I/O object, then `complete` of
-- the service with all that its function object does, as Calls has it. No other operation begins or ends in
-- between.
use asio_uring.Base.{
  ℕ, ◌+◌, ◌≡◌, refl, ◌∙◌, false, ◌==◌, ap, true, Option, none, List, [], ◌∷◌, has, arith, sym,
  subst, ◌≤◌, abort, ◌>>◌, modify, Safe, Safe-bind, Safe-mono,
}
use asio_uring.EventfdQueue.Nodes.{Ptr, erase}
use asio_uring.EventfdQueue.Chains.{times}
use asio_uring.Context.Platform.{Platform, Cqe}
use asio_uring.Context.State.{Context}
use asio_uring.Context.Executor.{is_thread}
use asio_uring.Service.Pool.{Service, unlink}
use asio_uring.Service.Account.{Writes, Sound, unit_of, units, unlink-none}
use asio_uring.Service.Acquire.{Others}
use asio_uring.FileObject.Lifetime.{Shared, Settled}
use asio_uring.Asio.Initiate.{Preps, Start, Wrapper}
use asio_uring.Asio.Guarantee.{Started, Undone, Ready}
use asio_uring.Asio.Delivery.{Finished}
use asio_uring.Asio.Files.{IoFile, M, Op, exec, kind_of}
use asio_uring.Asio.Operations.{Held, exec-Held}
use asio_uring.Asio.Calls.{Environment, complete}
use asio_uring.Asio.Calm.{Calm, Passed, complete-Passed}

-- The entry that the operation ends with, and what becomes of the context in between.
pub record Ending (p : Platform) : Type 0 where
  pub env : Context p → Context p
  pub cqe : Cqe p.Completion

module _ {p : Platform} (v : Environment p) (z : Ending p) where
  -- The completion that was taken last
  abbrev pub complete_first : List Ptr → M p (Unit {0})
  complete_first [] s = abort
  complete_first (c ∷ cs) s = complete v c z.cqe s

  abbrev turned : IoFile p → IoFile p
  turned s = record s { service = record s.service { ctx = z.env s.service.ctx } }

  -- The operation is begun, and later it completes.
  abbrev pub operate : Preps p → Start p → Op → ℕ → M p (Unit {0})
  operate l x op h = do exec l x op h; modify turned; λ s. complete_first s.service.in_use s

  -- As many handlers hold the descriptor, and the service holds what it held.
  abbrev pub Over : IoFile p → IoFile p → Type 0
  Over s d = Settled s.file d.file × (d.file.holding ≡ s.file.holding) × Undone s.service d.service

  -- The context in between has the same work, the handler runs in the loop, and it leaves the object alone.
  pub record Between (w : Wrapper) : Type 0 where
    pub same_work : (c : Context p) → (z.env c).work ≡ c.work
    pub in_loop : (c : Context p) → is_thread (z.env c).tid v.thread ≡ true
    pub calm : Calm v w.handler

  new_one :
      (s d : Service p Wrapper) (c : Ptr) → Sound d → d.in_use ≡ c ∷ s.in_use → times c s.in_use ≡ 0
  new_one s d c sound i =
      let both : times c d.in_use ≡ times c (c ∷ s.in_use) = ap (times c) i in
      ground (arith, both, sound.placed c, sound.once c)

  -- The completion `c`, which `s` did not have in use, has been put to use and completed.
  ended-Undone :
      (impl : ℕ) (w : Wrapper) (s d e : Service p Wrapper) (c : Ptr)
      → Sound s
      → Sound d
      → d.in_use ≡ c ∷ s.in_use
      → d.held ≡ (impl, c) ∷ s.held
      → d.ctx.work ≡ s.ctx.work + 2
      → Others c s d
      → Finished c d e
      → Undone s e
  ended-Undone impl w s d e c sound_s sound_d i h more same (sound_e, i', h', f, less, upd) =
      let out = new_one s d c sound_d i in
      let clear : s.wrapped c ≡ none = sound_s.bare c out in
      let back : erase c (c ∷ s.in_use) ≡ s.in_use = ground arith in
      let off : unlink c ((impl, c) ∷ s.held) ≡ s.held =
        ground (arith, unlink-none c s.held (sound_s.apart c out)) in
      (
        sound_e,
        i' ∙ ap (erase c) i ∙ back,
        h' ∙ ap (unlink c) h ∙ off,
        omega (arith, less, more),
        λ x. rw upd (ground (arith, same x)),
      )

  units-Others :
      (c : Ptr) (v w : Ptr → Option Wrapper) (cs : List Ptr)
      → times c cs ≡ 0
      → ((x : Ptr) → (c == x) ≡ false → v x ≡ w x)
      → units v cs ≡ units w cs
  units-Others c v w [] out same = refl
  units-Others c v w (x ∷ cs) out same =
      let other : (c == x) ≡ false = ground arith in
      rw (same x other) (ap (λ n. unit_of (w x) + n) (units-Others c v w cs (ground arith) same))

  -- The context in between keeps the account of the completions.
  turned-Sound :
      (d : Service p Wrapper) (w : Wrapper)
      → Between w
      → Sound d
      → Sound (record d { ctx = z.env d.ctx })
  turned-Sound d w b sound = record {
    placed = sound.placed;
    once = sound.once;
    apart = sound.apart;
    bare = sound.bare;
    paid = omega (arith, b.same_work d.ctx, sound.paid);
    room = omega (arith, b.same_work d.ctx, sound.room);
    cleared = sound.cleared;
  }

  -- Its work covers the two units of the operation.
  turned-paid :
      (impl : ℕ) (w : Wrapper) (s d : Service p Wrapper)
      → Sound s
      → Between w
      → (x : Started impl w s d) → units d.wrapped d.in_use + 1 ≤ (z.env d.ctx).work
  turned-paid impl w s d sound_s b (c, sound, i, h, at, more, same) =
      let rest = units-Others c d.wrapped s.wrapped s.in_use (new_one s d c sound i) same in
      let all : units d.wrapped d.in_use ≡ unit_of (d.wrapped c) + units d.wrapped s.in_use =
        ap (units d.wrapped) i in
      omega (arith, all, rest, ap unit_of at, sound_s.paid, more, b.same_work d.ctx)

  under_way-Over :
      (w : Wrapper) (s d : IoFile p)
      → Writes p
      → Sound s.service
      → Between w
      → Held w.kind w.handler s d
      → Safe (λ _ e. Over s e) (Over s) (complete_first d.service.in_use (turned d))
  under_way-Over w s d wr sound_s b ((shared, locals), holds, x) =
      let (c, sound, i, h, at, more, same) = x in
      let t : IoFile p = turned d in
      let sound_t : Sound t.service = turned-Sound d.service w b sound in
      let one : times c d.service.in_use ≡ 1 =
        ap (times c) i ∙ ground (arith, new_one s.service d.service c sound i) in
      let held : has w.handler d.file.holding ≡ true = ap (has w.handler) holds ∙ ground arith in
      let back : erase w.handler d.file.holding ≡ s.file.holding =
        ap (erase w.handler) holds ∙ ground arith in
      let over : (e : IoFile p) → Passed wr c w t e → Over s e = λ e ((good, as_many), hs, y). (
        (good, as_many ∙ locals),
        hs ∙ back,
        ended-Undone s.impl w s.service t.service e.service c sound_s sound_t i h
            (omega (arith, more, b.same_work d.service.ctx)) same y,
      ) in
      subst (λ l. Safe (λ _ e. Over s e) (Over s) (complete_first l t)) (sym i)
        (Safe-mono
          (complete-Passed wr c w t v z.cqe (b.in_loop d.service.ctx) b.calm (record {
            sound = sound_t;
            one = one;
            at = at;
            shared = shared;
            here = held;
            paid = turned-paid s.impl w s.service d.service sound_s b x;
          }))
          (λ _ e y. over e y) over)

  -- An operation of an I/O object as `exec-Held` has it, under its conditions, which then completes
  -- in the thread of the loop, with any result, after any change of the context that keeps the
  -- count of work; the function object and the handlers it consists of are called as in Calls, up
  -- to the handler of the user, which leaves the object, its service and the count of work alone,
  -- and returns or throws: no assertion fails. Wherever it throws, in its initiation or in the
  -- handler of the user, and also when it returns, the handlers that hold the descriptor, the
  -- completions in use, what they store, the lists of the handles and the count of work are what
  -- they were before the operation, the service is sound, the account of the descriptor is right,
  -- and as many invocations are under way.
  pub operate-Over :
      (l : Preps p) (x : Start p) (k : Op) (h : ℕ) (s : IoFile p)
      → Ready x s.service
      → Shared s.file
      → s.file.attached ≡ true
      → Between (record { kind = kind_of k; handler = h })
      → Safe (λ _ d. Over s d) (Over s) (operate l x k h s)
  operate-Over l x k h s ready shared a b =
      Safe-bind (Safe-mono (exec-Held l x k h s ready shared a) (λ _ d y. y) (λ d y. y))
        λ _ d y. under_way-Over _ s d ready.writes ready.sound b y
