-- ===== src/Asio/Teardown.antt =====
-- What is left when an asio::execution_context shuts its service down and deletes it.
use asio_uring.Base.{
  ℕ, ◌≤◌, ◌≡◌, refl, ◌∙◌, ap, ◌==◌, ◌≢◌, none, List, [], ◌∷◌, arith, Returns, returned,
  Returns-bind, Returns-mono, Returns-map_state, length, Bool-cases, inl, inr,
}
use asio_uring.EventfdQueue.Nodes.{Ptr}
use asio_uring.EventfdQueue.Chains.{times}
use asio_uring.Context.Platform.{Platform}
use asio_uring.Service.Account.{Writes, Sound}
use asio_uring.Service.Complete.{no_units}
use asio_uring.Service.Handles.{close-Returns}
use asio_uring.FileObject.Lifetime.{Shared, unit}
use asio_uring.Asio.Files.{IoFile}
use asio_uring.Asio.Calls.{reset_all, shutdown, tear_down}
use asio_uring.Asio.Accounts.{Balanced}
use asio_uring.Asio.Resets.{nothing, no_handlers, reset_completion-Balanced}

module _ {p : Platform} where
  -- What resetting the completions `cs` leaves.
  abbrev Emptied : ℕ → List Ptr → IoFile p → IoFile p → Type 0
  Emptied base cs s d =
      Balanced base d
      × (d.service.in_use ≡ s.service.in_use)
      × ((x : Ptr) → times x cs ≢ 0 → d.service.wrapped x ≡ none)
      × ((x : Ptr) → s.service.wrapped x ≡ none → d.service.wrapped x ≡ none)

  reset_all-Emptied :
      (base : ℕ) (cs : List Ptr) (s : IoFile p)
      → Writes p
      → Balanced base s
      → ((x : Ptr) → times x cs ≤ times x s.service.in_use)
      → Returns (λ _ d. Emptied base cs s d) (reset_all cs s)
  unfolding reset_all
  reset_all-Emptied base [] s wr x sub = returned (x, refl, λ y z. absurd (z refl), λ y z. z)
  reset_all-Emptied base (c ∷ cs) s wr x sub =
      let one : times c s.service.in_use ≡ 1 =
        ground (arith, sub c, x.sound.once c, x.sound.placed c) in
      Returns-bind (reset_completion-Balanced base c s wr x one) λ _ d (b, (i, upd)).
        Returns-mono (reset_all-Emptied base cs d wr b (λ y. ground (arith, sub y, ap (times y) i)))
          λ _ e (b', j, rest, keep).
            let kept : (y : Ptr) → s.service.wrapped y ≡ none → d.service.wrapped y ≡ none =
              λ y z. rw upd (ground arith) in
            (
              b',
              j ∙ i,
              λ y z. elim (Bool-cases (y == c)) [
                | inl k ↦ keep y (rw upd (ground arith))
                | inr k ↦ rest y (ground arith)
              ],
              λ y z. keep y (kept y z),
            )

  -- No operation holds anything.
  abbrev pub Silent : ℕ → IoFile p → Type 0
  Silent base d =
      Shared d.file
      × (d.file.holding ≡ [])
      × (d.file.count ≡ unit d.file.attached)
      × (d.service.ctx.work ≡ base)

  Balanced-Silent :
      (base : ℕ) (d : IoFile p)
      → Balanced base d
      → ((x : Ptr) → d.service.wrapped x ≡ none)
      → Silent base d
  Balanced-Silent base d b none_left =
      let empty : d.file.holding ≡ [] = nothing d.file.holding (λ h.
        omega (arith, b.held h, no_handlers h d.service.wrapped d.service.in_use none_left)) in
      (
        b.shared,
        empty,
        ground (arith, b.shared.counted, b.pointers, ap length empty),
        omega (arith, b.spent, no_units d.service.wrapped d.service.in_use none_left),
      )

  pub shutdown-Silent :
      (base : ℕ) (s : IoFile p)
      → Writes p
      → Balanced base s
      → Returns
          (λ _ d.
            Silent base d
            × Sound d.service
            × (d.service.in_use ≡ s.service.in_use)
            × ((x : Ptr) → d.service.wrapped x ≡ none))
          (shutdown s)
  unfolding shutdown
  shutdown-Silent base s wr x =
      Returns-mono (reset_all-Emptied base s.service.in_use s wr x (λ y. omega arith))
        λ _ d (b, i, all, keep).
          let none_left : (y : Ptr) → d.service.wrapped y ≡ none = λ y.
            elim (Bool-cases (times y s.service.in_use == 0)) [
              | inl z ↦ keep y (x.sound.bare y (ground arith))
              | inr z ↦ all y (ground arith)
            ] in
          (Balanced-Silent base d b none_left, b.sound, i, none_left)

  -- Shutting the service down and deleting it returns, with nothing held and no completion left.
  pub tear_down-Silent :
      (base : ℕ) (s : IoFile p)
      → Writes p
      → Balanced base s
      → Returns (λ _ d. Silent base d × (d.service.allocated ≡ [])) (tear_down s)
  unfolding tear_down
  tear_down-Silent base s wr x =
      Returns-bind (shutdown-Silent base s wr x)
        λ _ d ((shared, empty, count, work), sound, i, none_left).
          Returns-map_state (λ t. record d { service = t }) (close-Returns d.service wr sound)
            λ _ e (gone, less). (
              (
                shared,
                empty,
                count,
                omega (arith, less, work, no_units d.service.wrapped d.service.in_use none_left),
              ),
              gone,
            )
