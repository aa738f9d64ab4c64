-- ===== src/Service/Initiate.antt =====
-- Both `initiate`: the strong guarantee of the release guard.
use asio_uring.Base.{
  ℕ, ◌+◌, ◌<◌, ◌≡◌, refl, ◌==◌, Bool, true, false, Option, none, some, List, [], ◌∷◌, Safe, returns,
  throws, waits, Safe-bind, Safe-mono, Returns, returned, word_mod, arith, inl, inr, Bool-cases, ap,
  Run, Exception, and_then, throw, subst,
}
use asio_uring.EventfdQueue.Nodes.{Ptr, update, erase, Allocation, Built, built, not_built}
use asio_uring.EventfdQueue.Chains.{times}
use asio_uring.Context.Platform.{Platform, external}
use asio_uring.Context.State.{Context, get_sqe, sqe_result, sys_result}
use asio_uring.Context.State
use asio_uring.Context.Executor.{on_work_started}
use asio_uring.Service.Pool.{
  Service, Iovs, unlink, in_context, emplace, resized, from_cache, acquire_iovs, released_on_throw,
  submit, launch, initiate, initiate_iovs,
}
use asio_uring.Service.Account.{Writes, unit_of, units, units-update, Cleared, Sound, unlink-none}
use asio_uring.Service.Release.{release-Released}
use asio_uring.Service.Acquire.{
  Restored, Busy, Begun, Unused, sqe_result-work, sys_result-work, in_context-Safe, turned,
  acquire-Busy,
}

module _ {p : Platform} {H : Type 0} where
  abbrev Stored : ℕ → Ptr → Built H → Service p H → Service p H → Type 0
  Stored impl c (built h) s e = Busy impl c s e × (e.wrapped c ≡ some h)
  Stored impl c (not_built x) s e = ⊥

  emplace-Busy :
      (impl : ℕ) (c : Ptr) (b : Built H) (s d : Service p H)
      → Busy impl c s d × (d.wrapped c ≡ none)
      → s.ctx.work + 1 < word_mod
      → Safe (λ _ e. Stored impl c b s e) (λ e. Busy impl c s e) (emplace c b d)
  unfolding emplace on_work_started
  emplace-Busy impl c (not_built x) s d (busy, clear) room = rw clear (throws busy)
  emplace-Busy impl c (built h) s d ((ok_d, i, l, w, same), clear) room =
      let at : update d.wrapped c (some h) c ≡ some h = ground arith in
      let out : times c s.in_use ≡ 0 = ground (arith, ok_d.placed c, ok_d.once c, ap (times c) i) in
      let count : units (update d.wrapped c (some h)) d.in_use ≡ 1 + units d.wrapped d.in_use =
        rw (i, at, clear) (omega (arith, units-update d.wrapped c (some h) s.in_use out)) in
      let none_yet : unit_of (d.wrapped c) ≡ 0 = ap unit_of clear in
      rw clear (
        returns (
          (
            record {
              placed = ok_d.placed;
              once = ok_d.once;
              apart = ok_d.apart;
              bare = λ x z. ground (arith, ok_d.bare x z, ap (times x) i);
              paid = omega (arith, count, ok_d.paid, w, none_yet);
              room = omega (arith, w, none_yet);
              cleared = ok_d.cleared;
            },
            i,
            l,
            rw at (omega (arith, w, none_yet)),
            λ x z. ground (arith, same x z),
          ),
          at,
        ))

  context-Busy :
      {A : Type 0} (impl : ℕ) (c : Ptr) (o : Option H) (s d : Service p H) {r : Run (Context p) A}
      → Busy impl c s d × (d.wrapped c ≡ o)
      → Safe (λ _ x. x.work ≡ d.ctx.work) (λ x. x.work ≡ d.ctx.work) r
      → Safe (λ _ e. Busy impl c s e × (e.wrapped c ≡ o)) (λ e. Busy impl c s e) (in_context d r)
  context-Busy impl c o s d y q =
      Safe-mono (in_context-Safe d d.ctx.work (λ x e. turned impl c o s d x e y) q) (λ a e z. z)
        (λ e z. z.0)

  launch-Begun :
      (tag : Ptr → p.Completion) (f : p.Sqe → Ptr → Iovs → p.World → p.World) (impl : ℕ) (c : Ptr)
      (b : Built H) (s d : Service p H)
      → Busy impl c s d × (d.wrapped c ≡ none)
      → s.ctx.work + 1 < word_mod
      → Safe (λ _ e. Begun impl b s e) (λ e. Busy impl c s e) (launch tag f b c d)
  unfolding launch submit get_sqe State.submit
  launch-Begun tag f impl c (not_built x) s d h room =
      Safe-bind (emplace-Busy impl c (not_built x) s d h room) λ _ e. absurd
  launch-Begun tag f impl c (built h) s d x room =
      Safe-bind (emplace-Busy impl c (built h) s d x room) λ _ e y.
        Safe-bind
          (context-Busy impl c (some h) s e y (sqe_result-work e.ctx (p.take_sqe e.ctx.world)))
          λ sqe g z.
            let x' : Context p = record g.ctx { world = f sqe c (g.iovs c) g.ctx.world } in
            let x'' : Context p = record x' {
              world = p.set_user_data sqe (external (tag c)) x'.world;
            } in
            Safe-bind
              (context-Busy impl c (some h) s (record g { ctx = x' })
                (turned impl c (some h) s g x' refl z) (sys_result-work x'' (p.submit x''.world)))
              λ _ k (busy, stored). returns (c, busy, stored)

  rethrown :
      {A : Type 0} {P : A → Service p H → Type 0} {Q R : Service p H → Type 0} (x : Exception)
      {r : Run (Service p H) (Unit {0})}
      → Returns (λ _ d. Q d) r
      → ((d : Service p H) → Q d → R d)
      → Safe P R (and_then r (λ _ t. throw x t))
  rethrown x (returned h) f = throws (f _ h)

  -- The guard puts back what was acquired.
  released-Restored :
      {A : Type 0} {P : A → Service p H → Type 0} (impl : ℕ) (c : Ptr) (s : Service p H)
      {r : Run (Service p H) A}
      → Writes p
      → Sound s
      → Safe P (λ d. Busy impl c s d) r
      → Safe P (Restored s) (released_on_throw c r)
  released-Restored impl c s w ok_s (returns h) = returns h
  released-Restored impl c s w ok_s (throws {s = d} (ok_d, i, l, n, same)) =
      let out : times c s.in_use ≡ 0 = ground (arith, ok_d.placed c, ok_d.once c, ap (times c) i) in
      let clear : s.wrapped c ≡ none = ok_s.bare c out in
      let one : times c d.in_use ≡ 1 = ground (arith, ok_d.placed c, ok_d.once c, ap (times c) i) in
      rethrown _ (release-Released c d w ok_d one) λ e (ok_e, j, m, free, k, upd). (
        ok_e,
        ground (arith, ap (erase c) i),
        ground (arith, ap (unlink c) l, unlink-none c s.held (ok_s.apart c out)),
        omega (arith, n, k),
        λ x. rw upd (ground (arith, same x)),
      )
  released-Restored impl c s w ok_s waits = waits

  -- `initiate` on a sound service, with room in the count of work and an allocator that returns
  -- nothing in use, if the write to the eventfd of `on_work_finished` succeeds: no assertion fails;
  -- on return one more completion is in use, first in the list of its handle, with the handler
  -- stored and one more unit of work, what the others store is the same, and the service is sound;
  -- when it throws, wherever that is, the service is sound and the completions in use, what they
  -- store, the lists of the handles and the count of work are what they were.
  pub initiate-Launched :
      (tag : Ptr → p.Completion) (impl : ℕ) (f : p.Sqe → Ptr → p.World → p.World) (b : Built H)
      (a : Allocation) (s : Service p H)
      → Writes p
      → Sound s
      → Unused a s
      → s.ctx.work + 1 < word_mod
      → Safe (λ _ d. Begun impl b s d) (Restored s) (initiate tag impl f b a s)
  unfolding initiate
  initiate-Launched tag impl f b a s w ok_s new room =
      Safe-bind (acquire-Busy impl a s ok_s new) λ c d (busy, clear).
        released-Restored impl c s w ok_s
          (launch-Begun tag (λ sqe x v. f sqe x) impl c b s d (busy, clear) room)

  resized-Busy :
      (impl : ℕ) (c : Ptr) (s d : Service p H) (v : Iovs) (x : Bool × p.World)
      → Busy impl c s d × (d.wrapped c ≡ none)
      → Safe (λ _ e. Busy impl c s e × (e.wrapped c ≡ none)) (λ e. Busy impl c s e) (resized v d x)
  resized-Busy impl c s d v (true, w) y =
      returns (turned impl c none s d (record d.ctx { world = w }) refl y)
  resized-Busy impl c s d v (false, w) y =
      throws ((turned impl c none s d (record d.ctx { world = w }) refl y).0)

  from_cache-Busy :
      (capacity_for : ℕ → ℕ) (n impl : ℕ) (c : Ptr) (s d : Service p H) (vs : List Iovs)
      → d.cache ≡ vs
      → Busy impl c s d × (d.wrapped c ≡ none)
      → Safe
          (λ _ e. Busy impl c s e × (e.wrapped c ≡ none))
          (λ e. Busy impl c s e)
          (from_cache capacity_for n vs d)
  from_cache-Busy capacity_for n impl c s d [] e y = elim (Bool-cases (n == 0)) [
    | inl z ↦ rw z (returns y)
    | inr z ↦ rw z (
        resized-Busy impl c s d (record { size = n; capacity = capacity_for n })
          (p.allocate d.ctx.world) y)
  ]
  from_cache-Busy capacity_for n impl c s d (v ∷ vs) e ((ok_d, i, l, k, same), clear) =
      let vecs : Cleared (v ∷ vs) = subst Cleared e ok_d.cleared in
      let bare : (v.size == 0) ≡ true = ground (arith, vecs.0) in
      rw bare (
        returns (
          (
            record {
              placed = ok_d.placed;
              once = ok_d.once;
              apart = ok_d.apart;
              bare = ok_d.bare;
              paid = ok_d.paid;
              room = ok_d.room;
              cleared = vecs.1;
            },
            i,
            l,
            k,
            same,
          ),
          clear,
        ))

  -- The same of the `initiate` that also hands out a vector of buffers.
  pub initiate_iovs-Launched :
      (tag : Ptr → p.Completion) (capacity_for : ℕ → ℕ) (impl n : ℕ)
      (f : p.Sqe → Ptr → Iovs → p.World → p.World) (b : Built H) (a : Allocation) (s : Service p H)
      → Writes p
      → Sound s
      → Unused a s
      → s.ctx.work + 1 < word_mod
      → Safe (λ _ d. Begun impl b s d) (Restored s) (initiate_iovs tag capacity_for impl n f b a s)
  unfolding initiate_iovs acquire_iovs
  initiate_iovs-Launched tag capacity_for impl n f b a s w ok_s new room =
      Safe-bind (acquire-Busy impl a s ok_s new) λ c d (busy, clear).
        released-Restored impl c s w ok_s (
          Safe-bind (from_cache-Busy capacity_for n impl c s d d.cache refl (busy, clear))
            λ v e ((ok_e, i, l, k, same), bare).
              launch-Begun tag f impl c b s (record e { iovs = update e.iovs c v })
                (
                  (
                    record {
                      placed = ok_e.placed;
                      once = ok_e.once;
                      apart = ok_e.apart;
                      bare = ok_e.bare;
                      paid = ok_e.paid;
                      room = ok_e.room;
                      cleared = ok_e.cleared;
                    },
                    i,
                    l,
                    k,
                    same,
                  ),
                  bare,
                )
                room)
