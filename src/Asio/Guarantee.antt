-- ===== src/Asio/Guarantee.antt =====
-- An initiating function of the service starts its operation, or leaves nothing behind.
use asio_uring.Base.{
  ℕ, ◌+◌, ◌<◌, ◌≡◌, Option, none, some, List, ◌∷◌, length, Safe, returns, throws, waits, Returns,
  returned, ◌∙◌, Returns-mono, ap, word_mod, arith, Run, throw, and_then, Exception,
}
use asio_uring.EventfdQueue.Nodes.{Ptr, Allocation, refused, not_constructed, allocated_at}
use asio_uring.Context.Platform.{Platform}
use asio_uring.Context.State.{Context}
use asio_uring.Context.Executor.{on_work_started}
use asio_uring.Service.Pool.{Service, Iovs, in_context}
use asio_uring.Service.Account.{
  Writes, Sound, unit_of, units, units-alike, on_work_finished-Returns,
}
use asio_uring.Service.Initiate.{initiate-Launched, initiate_iovs-Launched}
use asio_uring.Service.Acquire.{Restored, Begun, Others, Unused}
use asio_uring.Asio.Initiate.{
  Kind, rw_completion, Wrapper, Start, stored, M, dropped, initiate_rw_some_at, initiate_plain,
}
use asio_uring.Asio.Iovec.{Buffer}
use asio_uring.Asio.Handler.{construct, discard}

-- The operation is under way: one more completion is in use, with this function object, and there are
-- two more units of work, its own and that of the completion_handler.
abbrev pub Started : {p : Platform} → ℕ → Wrapper → Service p Wrapper → Service p Wrapper → Type 0
Started impl h s d =
    (c : Ptr) × Sound d
    × (d.in_use ≡ c ∷ s.in_use)
    × (d.held ≡ (impl, c) ∷ s.held)
    × (d.wrapped c ≡ some h)
    × (d.ctx.work ≡ s.ctx.work + 2)
    × Others c s d

-- The service is sound, no completion more is in use, they store what they did, and there is no more work than before.
abbrev pub Undone : {p : Platform} → Service p Wrapper → Service p Wrapper → Type 0
Undone s d =
    Sound d
    × (d.in_use ≡ s.in_use)
    × (d.held ≡ s.held)
    × (d.ctx.work ≡ s.ctx.work)
    × ((x : Ptr) → d.wrapped x ≡ s.wrapped x)

-- What an initiation needs of the service and of the allocator
pub record Ready {p : Platform} (x : Start p) (s : Service p Wrapper) : Type 0 where
  pub writes : Writes p
  pub sound : Sound s
  pub unused : Unused x.allocation s
  pub room : s.ctx.work + 2 < word_mod

module _ {p : Platform} where
  pub worked-work :
      (s : Service p Wrapper) → s.ctx.work + 2 < word_mod → (construct s.ctx).work ≡ s.ctx.work + 1
  unfolding construct on_work_started
  worked-work s room = omega arith

  pub worked-Sound :
      (x : Start p) (s : Service p Wrapper) → Ready x s → Sound (record s { ctx = construct s.ctx })
  worked-Sound x s r =
      let more = worked-work s r.room in
      record {
        placed = r.sound.placed;
        once = r.sound.once;
        apart = r.sound.apart;
        bare = r.sound.bare;
        paid = omega (arith, more, r.sound.paid);
        room = omega (arith, more, r.room);
        cleared = r.sound.cleared;
      }

  pub worked-Unused :
      (a : Allocation) (s : Service p Wrapper)
      → Unused a s
      → Unused a (record s { ctx = construct s.ctx })
  worked-Unused refused s u = u
  worked-Unused (not_constructed e) s u = u
  worked-Unused (allocated_at c) s u = u

  given_back :
      (s d : Service p Wrapper) (e : Exception) (w : Wrapper) (impl : ℕ)
      {r : Run (Context p) (Unit {0})}
      → Sound s
      → Sound d
      → d.in_use ≡ s.in_use
      → d.held ≡ s.held
      → ((x : Ptr) → d.wrapped x ≡ s.wrapped x)
      → Returns (λ _ c. c.work ≡ s.ctx.work) r
      → Safe {A = Unit {0}}
          (λ _ f. Started impl w s f)
          (Undone s)
          (and_then (in_context d r) (λ _ t. throw e t))
  given_back s d e w impl before sound i h same (returned {s = c} less) =
      let units_same : units d.wrapped d.in_use ≡ units s.wrapped s.in_use =
        ap (units d.wrapped) i ∙ units-alike d.wrapped s.wrapped s.in_use same in
      throws (
        record {
          placed = sound.placed;
          once = sound.once;
          apart = sound.apart;
          bare = sound.bare;
          paid = omega (arith, less, units_same, before.paid);
          room = omega (arith, less, before.room);
          cleared = sound.cleared;
        },
        i,
        h,
        less,
        same,
      )

  dropped-Started :
      (x : Start p) (s : Service p Wrapper) (w : Wrapper) (impl : ℕ) (b : Option Exception)
      {r : Run (Service p Wrapper) (Unit {0})}
      → Ready x s
      → Safe
          (λ _ d. Begun impl (stored b w) (record s { ctx = construct s.ctx }) d)
          (Restored (record s { ctx = construct s.ctx }))
          r
      → Safe (λ _ d. Started impl w s d) (Undone s) (dropped r)
  unfolding discard
  dropped-Started x s w impl none r (returns (c, (sound, i, h, n, same), at)) =
      returns (c, sound, i, h, at, omega (arith, n, ap unit_of at, worked-work s r.room), same)
  dropped-Started x s w impl (some e) r (returns h) = absurd h
  dropped-Started x s w impl b r (throws {s = d} (sound, i, h, n, same)) =
      let more = worked-work s r.room in
      given_back s d _ w impl r.sound sound i h same (
        Returns-mono
          (on_work_finished-Returns d.ctx r.writes (omega (arith, n, more))
            (omega (arith, n, more, r.room)))
          (λ _ c e. omega (arith, n, more, e)))
  dropped-Started x s w impl b r waits = waits

  abbrev pub Starts : Start p → ℕ → Kind → ℕ → M p (Unit {0}) → Type 0
  Starts x impl k h f =
      (s : Service p Wrapper)
      → Ready x s
      → Safe (λ _ d. Started impl (record { kind = k; handler = h }) s d) (Undone s) (f s)

  pub initiate_rw_some_at-Started :
      (x : Start p) (impl : ℕ) (fd : Option ℕ)
      (prep : p.Sqe → Option ℕ → Iovs → ℕ → ℕ → p.World → p.World) (o : ℕ) (bs : List Buffer)
      (h : ℕ)
      → Starts x impl rw_completion h (initiate_rw_some_at x impl fd prep o bs h)
  unfolding initiate_rw_some_at
  initiate_rw_some_at-Started x impl fd prep o bs h s r =
      dropped-Started x s _ impl x.not_stored r (
        initiate_iovs-Launched x.tag x.capacity_for impl (length bs) _ (stored x.not_stored _)
          x.allocation (record s { ctx = construct s.ctx }) r.writes (worked-Sound x s r)
          (worked-Unused x.allocation s r.unused) (omega (arith, worked-work s r.room, r.room)))

  pub initiate_plain-Started :
      (x : Start p) (impl : ℕ) (prep : p.Sqe → p.World → p.World) (k : Kind) (h : ℕ)
      → Starts x impl k h (initiate_plain x impl prep k h)
  initiate_plain-Started x impl prep k h s r = dropped-Started x s _ impl x.not_stored r (
      initiate-Launched x.tag impl _ (stored x.not_stored _) x.allocation
        (record s { ctx = construct s.ctx }) r.writes (worked-Sound x s r)
        (worked-Unused x.allocation s r.unused) (omega (arith, worked-work s r.room, r.room)))
