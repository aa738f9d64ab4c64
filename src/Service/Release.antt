-- ===== src/Service/Release.antt =====
-- What `reset` and `release` of a completion leave.
use asio_uring.Base.{
  ◌+◌, ◌≤◌, ◌<◌, ◌≡◌, refl, ◌==◌, ==_iff, Bool, true, false, ◌||◌, Option, none, some, List, [],
  ◌∷◌, has, Returns, returned, Returns-bind, word_mod, arith, inl, inr, Bool-cases, Run, sym, ◌∙◌,
  subst,
}
use asio_uring.EventfdQueue.Nodes.{Ptr, update, erase}
use asio_uring.EventfdQueue.Chains.{times, has-times, times-erase}
use asio_uring.Context.Platform.{Platform}
use asio_uring.Context.State.{Context}
use std.Path.{fun_ext}
use asio_uring.Service.Pool.{
  Service, linked, unlink, in_context, finished, reset, release_iovs, swapped, release,
}
use asio_uring.Service.Account.{
  Writes, unit_of, Cleared, Sound, units-take, units-erase, unlink_self, linked-unlink,
  on_work_finished-Returns,
}

-- Writing what is there.
update-same :
    {H : Type 0} (w : Ptr → Option H) (c : Ptr) (v : Option H) → w c ≡ v → w ≡ update w c v
update-same w c v e = fun_ext λ x. ground arith

-- The lists and the allocations are the same.
pub record Framed {p : Platform} {H : Type 0} (s d : Service p H) : Type 0 where
  pub free_same : d.free ≡ s.free
  pub in_use_same : d.in_use ≡ s.in_use
  pub held_same : d.held ≡ s.held
  pub allocated_same : d.allocated ≡ s.allocated

Framed-refl :
    {p : Platform} {H : Type 0} {s d : Service p H}
    → d.free ≡ s.free
    → d.in_use ≡ s.in_use
    → d.held ≡ s.held
    → d.allocated ≡ s.allocated
    → Framed s d
Framed-refl a b c e = record { free_same = a; in_use_same = b; held_same = c; allocated_same = e }

pub unused : (c : Ptr) (cs : List Ptr) → times c cs ≡ 0 → erase c cs ≡ cs
unused c [] e = refl
unused c (x ∷ cs) e = ground (arith, unused c cs)

module _ {p : Platform} {H : Type 0} where
  -- What a reset of `c` leaves.
  abbrev pub Reset : Ptr → Service p H → Service p H → Type 0
  Reset c s d =
      (d.ctx.work + unit_of (s.wrapped c) ≡ s.ctx.work)
      × (d.wrapped c ≡ none)
      × Framed s d
      × (d.cache ≡ s.cache)
      × (d.wrapped ≡ update s.wrapped c none)

  spent :
      (c : Ptr) (s : Service p H) (h : H) {r : Run (Context p) (Unit {0})}
      → s.wrapped c ≡ some h
      → Returns (λ _ d. d.work + 1 ≡ s.ctx.work) r
      → Returns (λ _ d. Reset c s d) (in_context (record s { wrapped = update s.wrapped c none }) r)
  spent c s h e (returned less) =
      returned (ground arith, ground arith, Framed-refl refl refl refl refl, refl, refl)

  pub finished-Reset :
      (o : Option H) (c : Ptr) (s : Service p H)
      → s.wrapped c ≡ o
      → Writes p
      → unit_of o ≤ s.ctx.work
      → s.ctx.work < word_mod
      → Returns (λ _ d. Reset c s d) (finished o c s)
  finished-Reset none c s e w le room =
      returned
        (ground arith, e, Framed-refl refl refl refl refl, refl, update-same s.wrapped c none e)
  finished-Reset (some h) c s e w le room =
      spent c s h e (on_work_finished-Returns s.ctx w (omega arith) room)

  swapped_lem :
      (c : Ptr) (s : Service p H) (x : Bool × p.World)
      → let d = swapped c s x in
        Framed s d
        × (d.wrapped ≡ s.wrapped)
        × (d.ctx.work ≡ s.ctx.work)
        × (Cleared s.cache → Cleared d.cache)
  swapped_lem c s (true, w) = (Framed-refl refl refl refl refl, refl, refl, λ h. (refl, h))
  swapped_lem c s (false, w) = (Framed-refl refl refl refl refl, refl, refl, λ h. h)

  release_iovs_lem :
      (c : Ptr) (s : Service p H)
      → let d = release_iovs c s in
        Framed s d
        × (d.wrapped ≡ s.wrapped)
        × (d.ctx.work ≡ s.ctx.work)
        × (Cleared s.cache → Cleared d.cache)
  unfolding release_iovs
  release_iovs_lem c s = elim (Bool-cases ((s.iovs c).capacity == 0)) [
    | inl e ↦ rw e (Framed-refl refl refl refl refl, refl, refl, λ h. h)
    | inr e ↦ rw e (swapped_lem c s (p.allocate s.ctx.world))
  ]

  -- What a release of `c` leaves.
  abbrev pub Released : Ptr → Service p H → Service p H → Type 0
  Released c s d =
      Sound d
      × (d.in_use ≡ erase c s.in_use)
      × (d.held ≡ unlink c s.held)
      × (d.free ≡ c ∷ s.free)
      × (d.ctx.work + unit_of (s.wrapped c) ≡ s.ctx.work)
      × (d.wrapped ≡ update s.wrapped c none)

  elsewhere :
      (c : Ptr) (s : Service p H) (x : Ptr)
      → Sound s
      → times c s.in_use ≡ 1
      → (times x s.allocated ≡ times x (c ∷ s.free) + times x (erase c s.in_use))
        × (times x (erase c s.in_use) ≡ 0 → linked x (unlink c s.held) ≡ false)
        × (times x (erase c s.in_use) ≡ 0 → update s.wrapped c none x ≡ none)
  elsewhere c s x ok_s one =
      let here : has c s.in_use ≡ true = has-times c s.in_use (ground arith) in
      let gone = times-erase c x s.in_use in
      elim (Bool-cases (x == c)) [
        | inl e ↦
            let same : x ≡ c = (==_iff x c).0 e in
            (
              ground (arith, ok_s.placed c),
              λ z. ground (arith, unlink_self c s.held),
              λ z. ground arith,
            )
        | inr e ↦ (
          ground (arith, ok_s.placed x),
          λ z. linked-unlink x c s.held (ok_s.apart x (ground arith)),
          λ z. ground (arith, ok_s.bare x),
        )
      ]

  settle :
      (c : Ptr) (s e : Service p H)
      → Sound s
      → times c s.in_use ≡ 1
      → e.free ≡ s.free
      → e.in_use ≡ s.in_use
      → e.held ≡ s.held
      → e.allocated ≡ s.allocated
      → e.wrapped ≡ update s.wrapped c none
      → e.ctx.work + unit_of (s.wrapped c) ≡ s.ctx.work
      → Cleared e.cache
      → Released c s (record e {
        held = unlink c e.held;
        free = c ∷ erase c e.free;
        in_use = erase c e.in_use;
      })
  settle c s e ok_s one f i h l w less vecs =
      let out : times c s.free ≡ 0 = omega (arith, ok_s.placed c, ok_s.once c) in
      let here : has c s.in_use ≡ true = has-times c s.in_use (ground arith) in
      let same : erase c s.free ≡ s.free = unused c s.free out in
      rw (f, i, h, same)
        (
          record {
            placed = λ x. rw l (elsewhere c s x ok_s one).0;
            once = λ x. rw l (ok_s.once x);
            apart = λ x z. (elsewhere c s x ok_s one).1 z;
            bare = λ x z. rw w ((elsewhere c s x ok_s one).2 z);
            paid = rw w (
                omega (
                  arith,
                  ok_s.paid,
                  less,
                  units-take s.wrapped c s.in_use one,
                  units-erase (update s.wrapped c none) c s.in_use (ground arith),
                ));
            room = omega (arith, ok_s.room, less);
            cleared = vecs;
          },
          refl,
          refl,
          refl,
          less,
          w,
        )

  pub release-Released :
      (c : Ptr) (s : Service p H)
      → Writes p
      → Sound s
      → times c s.in_use ≡ 1
      → Returns (λ _ d. Released c s d) (release c s)
  unfolding release reset
  release-Released c s w ok_s one =
      let here : has c s.in_use ≡ true = has-times c s.in_use (ground arith) in
      let some_unit = units-take s.wrapped c s.in_use one in
      let out : times c s.free ≡ 0 = omega (arith, ok_s.placed c, ok_s.once c) in
      let inside : (has c s.free || has c s.in_use) ≡ true = ground (arith, here) in
      rw inside (
        Returns-bind {P = λ _ d. Reset c s d}
          (finished-Reset (s.wrapped c) c s refl w (omega (arith, some_unit, ok_s.paid)) ok_s.room)
          λ _ d (less, clear, frame, vecs, upd).
            let (frame', kept, same, empty') = release_iovs_lem c d in
            returned (
              settle c s (release_iovs c d) ok_s one (frame'.free_same ∙ frame.free_same)
                (frame'.in_use_same ∙ frame.in_use_same) (frame'.held_same ∙ frame.held_same)
                (frame'.allocated_same ∙ frame.allocated_same) (kept ∙ upd)
                (omega (arith, same, less)) (empty' (subst Cleared (sym vecs) ok_s.cleared))))
