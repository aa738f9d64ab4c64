-- ===== src/Asio/Tally.antt =====
-- Sums over what the completions of a service store.
use asio_uring.Base.{
  ℕ, ◌+◌, ◌≡◌, refl, ◌==◌, ◌≢◌, if◌then◌else◌, Option, none, some, List, [], ◌∷◌, arith, Bool-cases,
  inl, inr,
}
use asio_uring.EventfdQueue.Nodes.{Ptr, update, erase}
use asio_uring.EventfdQueue.Chains.{times}
use asio_uring.Service.Account.{unit_of, units}
use asio_uring.Asio.Initiate.{Wrapper}

abbrev pub tally : {H : Type 0} → (Option H → ℕ) → (Ptr → Option H) → List Ptr → ℕ
tally g wrapped [] = 0
tally g wrapped (c ∷ cs) = g (wrapped c) + tally g wrapped cs

abbrev pub is_for : ℕ → Option Wrapper → ℕ
is_for h none = 0
is_for h (some w) = if h == w.handler then 1 else 0

-- How many of the completions have a function object with the handler `h`
abbrev pub handlers : ℕ → (Ptr → Option Wrapper) → List Ptr → ℕ
handlers h wrapped cs = tally (is_for h) wrapped cs

module _ {H : Type 0} where
  pub tally-units : (w : Ptr → Option H) (cs : List Ptr) → tally unit_of w cs ≡ units w cs
  tally-units w [] = refl
  tally-units w (c ∷ cs) = omega (arith, tally-units w cs)

  module _ (g : Option H → ℕ) where
    pub tally-alike :
        (v w : Ptr → Option H) (cs : List Ptr)
        → ((x : Ptr) → times x cs ≢ 0 → v x ≡ w x)
        → tally g v cs ≡ tally g w cs
    tally-alike v w [] same = refl
    tally-alike v w (c ∷ cs) same =
        rw (same c (ground arith))
          (omega (arith, tally-alike v w cs (λ x ne. same x (ground (arith, ne)))))

    tally-update :
        (w : Ptr → Option H) (c : Ptr) (v : Option H) (cs : List Ptr)
        → times c cs ≡ 0
        → tally g (update w c v) cs ≡ tally g w cs
    tally-update w c v [] out = refl
    tally-update w c v (x ∷ cs) out = ground (arith, tally-update w c v cs)

    -- A completion that is listed once stores nothing any more.
    pub tally-take :
        (w : Ptr → Option H) (c : Ptr) (cs : List Ptr)
        → g none ≡ 0
        → times c cs ≡ 1
        → tally g (update w c none) cs + g (w c) ≡ tally g w cs
    tally-take w c [] z one = absurd (ground arith)
    tally-take w c (x ∷ cs) z one = elim (Bool-cases (c == x)) [
      | inl e ↦ ground (arith, tally-update w c none cs)
      | inr e ↦ ground (arith, tally-take w c cs z)
    ]

    tally-erase :
        (w : Ptr → Option H) (c : Ptr) (cs : List Ptr)
        → g (w c) ≡ 0
        → tally g w (erase c cs) ≡ tally g w cs
    tally-erase w c [] e = refl
    tally-erase w c (x ∷ cs) e = ground (arith, tally-erase w c cs e)

    -- It is also taken off the list.
    pub tally-gone :
        (w : Ptr → Option H) (c : Ptr) (cs : List Ptr)
        → g none ≡ 0
        → times c cs ≡ 1
        → tally g (update w c none) (erase c cs) + g (w c) ≡ tally g w cs
    tally-gone w c cs z one =
        let clear : g (update w c none c) ≡ 0 = ground (arith, z) in
        omega (arith, tally-erase (update w c none) c cs clear, tally-take w c cs z one)
