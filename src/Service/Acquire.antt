-- ===== src/Service/Acquire.antt =====
-- `acquire` puts a completion to use for a handle, or leaves the service as it was.
use asio_uring.Base.{
  ℕ, ◌+◌, ◌≡◌, refl, ◌==◌, false, ◌||◌, Option, none, some, List, [], ◌∷◌, has, Safe, returns,
  throws, waits, Safe-bind, arith, ap, Run, Sys, done, failed, blocks,
}
use asio_uring.EventfdQueue.Nodes.{
  Ptr, update, Allocation, refused, not_constructed, allocated_at, Built, built, not_built,
}
use asio_uring.EventfdQueue.Chains.{times}
use asio_uring.Context.Platform.{Platform}
use asio_uring.Context.State.{Context, sqe_result, sys_result}
use asio_uring.Service.Pool.{Service, linked, in_context, taken, maybe_allocate, acquire}
use asio_uring.Service.Account.{unit_of, units-update, Sound}

-- The account is right, and neither list, nor what the handles hold, nor what the completions store,
-- nor the count of work differs.
abbrev pub Restored : {p : Platform} {H : Type 0} → Service p H → Service p H → Type 0
Restored s d =
    Sound d
    × (d.in_use ≡ s.in_use)
    × (d.held ≡ s.held)
    × (d.ctx.work ≡ s.ctx.work)
    × ((x : Ptr) → d.wrapped x ≡ s.wrapped x)

-- The other completions store what they did.
abbrev pub Others : {p : Platform} {H : Type 0} → Ptr → Service p H → Service p H → Type 0
Others c s d = (x : Ptr) → (c == x) ≡ false → d.wrapped x ≡ s.wrapped x

-- The completion `c` has been put to use for the handle `impl`, and holds work if it has a handler.
abbrev pub Busy : {p : Platform} {H : Type 0} → ℕ → Ptr → Service p H → Service p H → Type 0
Busy impl c s d =
    Sound d
    × (d.in_use ≡ c ∷ s.in_use)
    × (d.held ≡ (impl, c) ∷ s.held)
    × (d.ctx.work ≡ s.ctx.work + unit_of (d.wrapped c))
    × Others c s d

-- The operation is under way.
abbrev pub Launched : {p : Platform} {H : Type 0} → ℕ → H → Service p H → Service p H → Type 0
Launched impl h s d = (c : Ptr) × Busy impl c s d × (d.wrapped c ≡ some h)

-- What the outcome is when a handler could be stored; one that could not throws.
abbrev pub Begun : {p : Platform} {H : Type 0} → ℕ → Built H → Service p H → Service p H → Type 0
Begun impl (built h) s d = Launched impl h s d
Begun impl (not_built e) s d = ⊥

-- What an allocator returns is not in use.
abbrev pub Unused : {p : Platform} {H : Type 0} → Allocation → Service p H → Type 0
Unused refused s = Unit {0}
Unused (not_constructed e) s = Unit {0}
Unused (allocated_at c) s = times c s.allocated ≡ 0

without : (c : Ptr) (cs : List Ptr) → times c cs ≡ 0 → has c cs ≡ false
without c [] e = refl
without c (x ∷ cs) e = ground (arith, without c cs)

module _ {p : Platform} where
  pub sqe_result-work :
      (c : Context p) (x : Option p.Sqe × p.World)
      → Safe (λ _ d. d.work ≡ c.work) (λ d. d.work ≡ c.work) (sqe_result c x)
  sqe_result-work c (none, w) = throws refl
  sqe_result-work c (some s, w) = returns refl

  pub sys_result-work :
      {A : Type 0} (c : Context p) (x : Sys A × p.World)
      → Safe (λ _ d. d.work ≡ c.work) (λ d. d.work ≡ c.work) (sys_result c x)
  sys_result-work c (done a, w) = returns refl
  sys_result-work c (failed e, w) = throws refl
  sys_result-work c (blocks, w) = waits

module _ {p : Platform} {H : Type 0} where
  pub in_context-Safe :
      {A : Type 0} {P : Service p H → Type 0} (s : Service p H) (n : ℕ) {r : Run (Context p) A}
      → ((c : Context p) → c.work ≡ n → P (record s { ctx = c }))
      → Safe (λ _ d. d.work ≡ n) (λ d. d.work ≡ n) r
      → Safe (λ _ d. P d) P (in_context s r)
  in_context-Safe s n k (returns h) = returns (k _ h)
  in_context-Safe s n k (throws h) = throws (k _ h)
  in_context-Safe s n k waits = waits

  -- A change of the context that leaves the count of work alone.
  pub turned :
      (impl : ℕ) (c : Ptr) (o : Option H) (s d : Service p H) (x : Context p)
      → x.work ≡ d.ctx.work
      → Busy impl c s d × (d.wrapped c ≡ o)
      → Busy impl c s (record d { ctx = x }) × (d.wrapped c ≡ o)
  turned impl c o s d x e ((ok_d, i, h, w, same), b) = (
    (
      record {
        placed = ok_d.placed;
        once = ok_d.once;
        apart = ok_d.apart;
        bare = ok_d.bare;
        paid = omega (arith, e, ok_d.paid);
        room = omega (arith, e, ok_d.room);
        cleared = ok_d.cleared;
      },
      i,
      h,
      omega (arith, e, w),
      same,
    ),
    b,
  )

  taken-Busy :
      (impl : ℕ) (a : Allocation) (xs : List Ptr) (s : Service p H)
      → s.free ≡ xs
      → Sound s
      → Unused a s
      → Safe
          (λ c d.
            (d.in_use ≡ s.in_use)
            × (d.held ≡ s.held)
            × (linked c s.held ≡ false)
            × (times c d.free ≡ 0)
            × (times c d.in_use ≡ 0)
            × Busy impl c s (record d { in_use = c ∷ d.in_use; held = (impl, c) ∷ d.held })
            × (d.wrapped c ≡ none))
          (Restored s)
          (taken a xs s)
  taken-Busy impl a (c ∷ rest) s e ok_s new =
      let shape : (x : Ptr) → times x s.free ≡ times x (c ∷ rest) = λ x. ap (times x) e in
      let out : times c s.in_use ≡ 0 = ground (arith, shape c, ok_s.placed c, ok_s.once c) in
      let clear = ok_s.bare c out in
      returns (
        refl,
        refl,
        ok_s.apart c out,
        ground (arith, shape c, ok_s.placed c, ok_s.once c),
        out,
        (
          record {
            placed = λ x. ground (arith, shape x, ok_s.placed x);
            once = ok_s.once;
            apart = λ x z. ground (arith, ok_s.apart x);
            bare = λ x z. ground (arith, ok_s.bare x);
            paid = rw clear (omega (arith, ok_s.paid));
            room = ok_s.room;
            cleared = ok_s.cleared;
          },
          refl,
          refl,
          rw clear (omega arith),
          λ x z. refl,
        ),
        clear,
      )
  taken-Busy impl refused [] s e ok_s new = throws (ok_s, refl, refl, refl, λ x. refl)
  taken-Busy impl (not_constructed x) [] s e ok_s new = throws (ok_s, refl, refl, refl, λ x. refl)
  taken-Busy impl (allocated_at c) [] s e ok_s new =
      let shape : (x : Ptr) → times x s.free ≡ 0 = λ x. ap (times x) e in
      let out : times c s.in_use ≡ 0 = omega (arith, shape c, ok_s.placed c) in
      let clear : update s.wrapped c none c ≡ none = ground arith in
      returns (
        refl,
        refl,
        ok_s.apart c out,
        shape c,
        out,
        (
          record {
            placed = λ x. ground (arith, shape x, ok_s.placed x);
            once = λ x. ground (arith, ok_s.once x);
            apart = λ x z. ground (arith, ok_s.apart x);
            bare = λ x z. ground (arith, ok_s.bare x);
            paid =
                rw (clear, units-update s.wrapped c none s.in_use out) (omega (arith, ok_s.paid));
            room = ok_s.room;
            cleared = ok_s.cleared;
          },
          refl,
          refl,
          rw clear (omega arith),
          λ x z. ground arith,
        ),
        clear,
      )

  pub acquire-Busy :
      (impl : ℕ) (a : Allocation) (s : Service p H)
      → Sound s
      → Unused a s
      → Safe (λ c d. Busy impl c s d × (d.wrapped c ≡ none)) (Restored s) (acquire impl a s)
  unfolding acquire maybe_allocate
  acquire-Busy impl a s ok_s new =
      Safe-bind (taken-Busy impl a s.free s refl ok_s new)
        λ c d (i, h, apart, off, out, busy, clear).
          let apart' : linked c d.held ≡ false = ground arith in
          let off' : (has c d.free || has c d.in_use) ≡ false =
            ground (arith, without c d.free off, without c d.in_use out) in
          simp (apart', off') (returns (busy, clear))
