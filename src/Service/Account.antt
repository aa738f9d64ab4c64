-- ===== src/Service/Account.antt =====
-- Where each completion is, and the work that those in use hold.
use asio_uring.Base.{
  ℕ, ◌+◌, ◌≤◌, ◌<◌, ◌≡◌, refl, ◌==◌, false, Option, none, some, List, [], ◌∷◌, Returns, returned,
  word_mod, arith, inl, inr, Bool-cases, ap, Sys, done, failed, blocks, dec64, ok,
}
use asio_uring.EventfdQueue.Nodes.{Ptr, update, erase}
use asio_uring.EventfdQueue.Chains.{times}
use asio_uring.Context.Platform.{Platform, of_zero}
use asio_uring.Context.State.{Context, eventfd_write, sys_result}
use asio_uring.Context.Executor.{on_work_finished}
use asio_uring.Service.Pool.{Service, Iovs, linked, unlink}

-- A write of 1 to `zero_`, which is blocking and read whenever it is polled, succeeds.
abbrev pub Writes : Platform → Type 0
Writes p = (w : p.World) → (p.write_eventfd of_zero 1 w).0 ≡ done tt

abbrev pub unit_of {ℓ} : {H : Type ℓ} → Option H → ℕ
unit_of none = 0
unit_of (some h) = 1

abbrev pub units {ℓ} : {H : Type ℓ} → (Ptr → Option H) → List Ptr → ℕ
units wrapped [] = 0
units wrapped (c ∷ cs) = unit_of (wrapped c) + units wrapped cs

-- The vectors of the cache are empty.
abbrev pub Cleared : List Iovs → Type 0
Cleared [] = Unit {0}
Cleared (v ∷ vs) = (v.size ≡ 0) × Cleared vs

-- Each completion is on one of the two lists, once; those on the free list are in the list of no handle
-- and store no handler; each stored handler has its unit of work.
pub record Sound {p : Platform} {H : Type 0} (s : Service p H) : Type 0 where
  pub placed : (c : Ptr) → times c s.allocated ≡ times c s.free + times c s.in_use
  pub once : (c : Ptr) → times c s.allocated ≤ 1
  pub apart : (c : Ptr) → times c s.in_use ≡ 0 → linked c s.held ≡ false
  pub bare : (c : Ptr) → times c s.in_use ≡ 0 → s.wrapped c ≡ none
  pub paid : units s.wrapped s.in_use ≤ s.ctx.work
  pub room : s.ctx.work < word_mod
  pub cleared : Cleared s.cache

pub units-update :
    {H : Type 0} (w : Ptr → Option H) (c : Ptr) (v : Option H) (cs : List Ptr)
    → times c cs ≡ 0
    → units (update w c v) cs ≡ units w cs
units-update w c v [] out = refl
units-update w c v (x ∷ cs) out = ground (arith, units-update w c v cs)

-- A completion that is listed once, and the unit that it holds.
pub units-take :
    {H : Type 0} (w : Ptr → Option H) (c : Ptr) (cs : List Ptr)
    → times c cs ≡ 1
    → units (update w c none) cs + unit_of (w c) ≡ units w cs
units-take w c [] one = absurd (ground arith)
units-take w c (x ∷ cs) one = elim (Bool-cases (c == x)) [
  | inl e ↦ ground (arith, units-update w c none cs)
  | inr e ↦ ground (arith, units-take w c cs)
]

pub units-erase :
    {H : Type 0} (w : Ptr → Option H) (c : Ptr) (cs : List Ptr)
    → w c ≡ none
    → units w (erase c cs) ≡ units w cs
units-erase w c [] e = refl
units-erase w c (x ∷ cs) e = ground (arith, units-erase w c cs e)

pub units-alike :
    {H : Type 0} (v w : Ptr → Option H) (cs : List Ptr)
    → ((x : Ptr) → v x ≡ w x)
    → units v cs ≡ units w cs
units-alike v w [] same = refl
units-alike v w (c ∷ cs) same = rw (same c) (omega (arith, units-alike v w cs same))

pub unlink_self : (c : Ptr) (l : List (ℕ × Ptr)) → linked c (unlink c l) ≡ false
unlink_self c [] = refl
unlink_self c ((i, d) ∷ l) = ground (arith, unlink_self c l)

pub linked-unlink :
    (x c : Ptr) (l : List (ℕ × Ptr)) → linked x l ≡ false → linked x (unlink c l) ≡ false
linked-unlink x c [] e = refl
linked-unlink x c ((i, d) ∷ l) e = ground (arith, linked-unlink x c l)

pub unlink-none : (c : Ptr) (l : List (ℕ × Ptr)) → linked c l ≡ false → unlink c l ≡ l
unlink-none c [] e = refl
unlink-none c ((i, d) ∷ l) e = ground (arith, unlink-none c l)

sys_done :
    {p : Platform} {A : Type 0} (c : Context p) (x : Sys A × p.World) (a : A)
    → x.0 ≡ done a
    → sys_result c x ≡ ok a (record c { world = x.1 })
sys_done c (done b, w) a e = let same : b ≡ a = cc in ap (λ y. ok y (record c { world = w })) same
sys_done c (failed n, w) a e = absurd cc
sys_done c (blocks, w) a e = absurd cc

module _ {p : Platform} where
  pub on_work_finished-Returns :
      (c : Context p)
      → Writes p
      → 0 < c.work
      → c.work < word_mod
      → Returns (λ _ d. d.work + 1 ≡ c.work) (on_work_finished c)
  unfolding on_work_finished eventfd_write
  on_work_finished-Returns c w pos room =
      let works : (c.work == 0) ≡ false = ground arith in
      elim (Bool-cases (c.work == 1)) [
        | inl last ↦
            rw
              (
                works,
                last,
                sys_done (record c { work = dec64 c.work }) (p.write_eventfd of_zero 1 c.world) tt
                    (w c.world),
              )
              (returned (omega arith))
        | inr more ↦ rw (works, more) (returned (omega arith))
      ]
