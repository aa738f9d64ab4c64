-- ===== src/Asio/Resets.antt =====
-- What a completion gives back that is reset before it is called.
use asio_uring.Base.{
  ℕ, ◌+◌, ◌≡◌, refl, ◌∙◌, ap, sym, ◌≢◌, Option, none, some, List, [], ◌∷◌, arith, Returns,
  Returns-bind, Returns-mono, Returns-map_state, ◌>>◌,
}
use asio_uring.EventfdQueue.Nodes.{Ptr, update}
use asio_uring.EventfdQueue.Chains.{times, has-times, times-erase}
use asio_uring.Context.Platform.{Platform}
use asio_uring.Service.Pool.{Service}
use asio_uring.Service.Pool
use asio_uring.Service.Account.{Writes, unit_of}
use asio_uring.Service.Complete.{reset-Silenced}
use asio_uring.FileObject.{discard}
use asio_uring.FileObject.Lifetime.{discard-Returns}
use asio_uring.Asio.Initiate.{Wrapper}
use asio_uring.Asio.Handler
use asio_uring.Asio.Files.{IoFile, in_file}
use asio_uring.Asio.Calls.{in_service, destroy, reset_completion}
use asio_uring.Asio.Tally.{tally, is_for, handlers, tally-units, tally-take}
use asio_uring.Asio.Accounts.{Account, Balanced, Stores, stored-is_for}
use asio_uring.Asio.Completion.{Ending, finished-Ending}

pub nothing : (l : List ℕ) → ((x : ℕ) → times x l ≡ 0) → l ≡ []
nothing [] none_left = refl
nothing (x ∷ l) none_left = absurd (ground (arith, none_left x))

pub no_handlers :
    (h : ℕ) (w : Ptr → Option Wrapper) (cs : List Ptr)
    → ((x : Ptr) → w x ≡ none)
    → handlers h w cs ≡ 0
no_handlers h w [] none_left = refl
no_handlers h w (c ∷ cs) none_left =
    omega (arith, ap (is_for h) (none_left c), no_handlers h w cs none_left)

module _ {p : Platform} where
  -- The handler of a function object gives up the descriptor.
  discard-Ending :
      (base : ℕ) (c : Ptr) (w : Wrapper) (s : IoFile p)
      → Balanced base s
      → Stores c w s
      → Returns
          (λ _ d. Ending base 0 c w d × (d.service ≡ s.service))
          (in_file (discard w.handler) s)
  discard-Ending base c w s x y =
      let some_one : times w.handler s.file.holding ≢ 0 =
        ground (arith, x.held w.handler, stored-is_for c w s y w.handler) in
      let here = has-times w.handler s.file.holding some_one in
      Returns-map_state (λ t. record s { file = t })
        (discard-Returns w.handler s.file here x.shared)
        λ _ f ((shared, same), holds, _). (
          (
            record {
              sound = x.sound;
              shared = shared;
              pointers = same ∙ x.pointers;
              held = λ h.
                  ground
                    (arith, ap (times h) holds, x.held h, times-erase w.handler h s.file.holding);
              spent = x.spent;
            },
            y,
          ),
          refl,
        )

  -- Only what the completion `c` stores differs.
  abbrev Cleared : Ptr → IoFile p → IoFile p → Type 0
  Cleared c s d =
      (d.service.in_use ≡ s.service.in_use) × (d.service.wrapped ≡ update s.service.wrapped c none)

  abbrev Alike : IoFile p → IoFile p → Type 0
  Alike s e = (e.service.in_use ≡ s.service.in_use) × (e.service.wrapped ≡ s.service.wrapped)

  reset-Balanced :
      (base owed : ℕ) (running : List ℕ) (c : Ptr) (s : IoFile p)
      → Writes p
      → Account base owed 0 running s
      → times c s.service.in_use ≡ 1
      → owed ≡ unit_of (s.service.wrapped c)
      → ((h : ℕ) → times h running ≡ is_for h (s.service.wrapped c))
      → Returns (λ _ d. Balanced base d × Cleared c s d) (in_service (Pool.reset c) s)
  reset-Balanced base owed running c s wr x one mine alone =
      Returns-map_state (λ t. record s { service = t }) (reset-Silenced wr c s.service x.sound one)
        λ _ e ((sound, i, l, n, all, keep, f), upd).
          let fewer : (g : Option Wrapper → ℕ)
              → g none ≡ 0
              → tally g e.wrapped e.in_use + g (s.service.wrapped c)
                ≡ tally g s.service.wrapped s.service.in_use =
            λ g z. rw (upd, i) (tally-take g s.service.wrapped c s.service.in_use z one) in
          (
            (record {
              sound = sound;
              shared = x.shared;
              pointers = x.pointers;
              held = λ h. omega (arith, fewer (is_for h) refl, alone h, x.held h);
              spent = omega (
                arith,
                n,
                x.spent,
                fewer unit_of refl,
                mine,
                tally-units e.wrapped e.in_use,
                tally-units s.service.wrapped s.service.in_use,
              );
            }),
            (i, upd),
          )

  destroyed-Balanced :
      (base : ℕ) (c : Ptr) (o : Option Wrapper) (s : IoFile p)
      → Writes p
      → Balanced base s
      → times c s.service.in_use ≡ 1
      → s.service.wrapped c ≡ o
      → Returns
          (λ _ d. Balanced base d × Cleared c s d)
          ((do destroy o; in_service (Pool.reset c)) s)
  unfolding destroy Handler.discard
  destroyed-Balanced base c none s wr x one at =
      reset-Balanced base 0 [] c s wr x one (ap unit_of (sym at)) (λ h. ap (is_for h) (sym at))
  destroyed-Balanced base c (some w) s wr x one at =
      Returns-bind {P = λ _ e. Ending base 1 c w e × Alike s e}
        (Returns-bind (discard-Ending base c w s x (one, at)) λ _ d (y, same).
          Returns-mono (finished-Ending base c w d wr y)
            λ _ e (z, i, v). (z, (i ∙ ap (λ t. t.in_use) same, v ∙ ap (λ t. t.wrapped) same)))
        λ _ e (z, (i, v)).
          Returns-mono
            (reset-Balanced base 1 (w.handler ∷ []) c e wr z.0 z.1.0 (ap unit_of (sym z.1.1))
              (λ h. omega (arith, ap (is_for h) z.1.1)))
            λ _ f (b, (j, k)). (b, (j ∙ i, k ∙ ap (λ m. update m c none) v))

  pub reset_completion-Balanced :
      (base : ℕ) (c : Ptr) (s : IoFile p)
      → Writes p
      → Balanced base s
      → times c s.service.in_use ≡ 1
      → Returns (λ _ d. Balanced base d × Cleared c s d) (reset_completion c s)
  unfolding reset_completion
  reset_completion-Balanced base c s wr x one =
      destroyed-Balanced base c (s.service.wrapped c) s wr x one refl
