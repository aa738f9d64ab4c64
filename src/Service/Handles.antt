-- ===== src/Service/Handles.antt =====
-- The handles of I/O objects, and the destructor of the service.
use asio_uring.Base.{
  ℕ, inl, inr, Bool-cases, ◌+◌, ◌≤◌, ◌≡◌, refl, ◌∙◌, ◌==◌, ◌≢◌, true, false, if◌then◌else◌, none,
  List, [], ◌∷◌, has, Returns, returned, Returns-bind, arith, ap, sym,
}
use asio_uring.EventfdQueue.Nodes.{Ptr, erase}
use asio_uring.EventfdQueue.Chains.{times, has-times, times-erase}
use asio_uring.EventfdQueue.Destroy.{nothing}
use asio_uring.Context.Platform.{Platform}
use asio_uring.Service.Pool.{
  Service, linked, unlink, empty, clear, transfer, destroy, move_construct, move_assign, delete_all,
  close,
}
use asio_uring.Service.Account.{Writes, units, Sound, unlink-none}
use asio_uring.Service.Release.{unused}
use asio_uring.Service.Complete.{reset_all-Silenced, no_units}

-- What there is from `begin()` to `end()` of the handle `i`: its completions, in order.
abbrev pub of : ℕ → List (ℕ × Ptr) → List Ptr
of i [] = []
of i ((j, d) ∷ l) = if i == j then d ∷ of i l else of i l

empty-clear : (i : ℕ) (l : List (ℕ × Ptr)) → empty i (clear i l) ≡ true
empty-clear i [] = refl
empty-clear i ((j, d) ∷ l) = ground (arith, empty-clear i l)

of-clear : (i j : ℕ) (l : List (ℕ × Ptr)) → j ≢ i → of j (clear i l) ≡ of j l
of-clear i j [] ne = refl
of-clear i j ((k, d) ∷ l) ne = ground (arith, of-clear i j l ne)

of-transfer :
    (i src j : ℕ) (l : List (ℕ × Ptr))
    → i ≢ src
    → (empty i l ≡ true → of i (transfer i src l) ≡ of src l)
      × (of src (transfer i src l) ≡ [])
      × (j ≢ i → j ≢ src → of j (transfer i src l) ≡ of j l)
of-transfer i src j [] ne = (λ e. refl, refl, λ a b. refl)
of-transfer i src j ((k, d) ∷ l) ne =
    let (a, b, c) = of-transfer i src j l ne in
    (ground (arith, a), ground (arith, b), ground (arith, c))

module _ {p : Platform} {H : Type 0} where
  -- `move_assign` from another handle of the same service returns: the handle has exactly what the
  -- source had, in order, the source has nothing, and no other handle and no other part of the
  -- service differs.
  pub move_assign-of :
      (impl src : ℕ) (s : Service p H)
      → impl ≢ src
      → Returns
          (λ _ d.
            (of impl d.held ≡ of src s.held)
            × (of src d.held ≡ [])
            × ((j : ℕ) → j ≢ impl → j ≢ src → of j d.held ≡ of j s.held)
            × (d ≡ record s { held = d.held }))
          (move_assign impl true src s)
  unfolding move_assign move_construct destroy
  move_assign-of impl src s ne = rw (empty-clear impl s.held) (
      returned (
        (of-transfer impl src src (clear impl s.held) ne).0 (empty-clear impl s.held)
            ∙ of-clear impl src s.held (λ e. ne (sym e)),
        (of-transfer impl src src (clear impl s.held) ne).1,
        λ j a b. (of-transfer impl src j (clear impl s.held) ne).2 a b ∙ of-clear impl j s.held a,
        refl,
      ))

  -- Deleting completions that are allocated takes them from the allocations.
  delete_all-times :
      (x : Ptr) (cs : List Ptr) (s : Service p H)
      → ((y : Ptr) → times y cs ≤ times y s.allocated)
      → times x (delete_all cs s).allocated + times x cs ≡ times x s.allocated
  unfolding delete_all
  delete_all-times x [] s le = omega arith
  delete_all-times x (c ∷ cs) s le =
      let here : has c s.allocated ≡ true = has-times c s.allocated (ground (arith, le c)) in
      let s' = record s {
        free = erase c s.free;
        in_use = erase c s.in_use;
        held = unlink c s.held;
        allocated = erase c s.allocated;
      } in
      ground (
        arith,
        le x,
        times-erase c x s.allocated,
        delete_all-times x cs s' (λ y. ground (arith, le y, times-erase c y s.allocated)),
      )

  delete_all-frame :
      (cs : List Ptr) (s : Service p H)
      → ((y : Ptr) → times y cs ≢ 0 → (times y s.in_use ≡ 0) × (linked y s.held ≡ false))
      → let d = delete_all cs s in
        (d.in_use ≡ s.in_use)
        × (d.held ≡ s.held)
        × (d.wrapped ≡ s.wrapped)
        × (d.ctx ≡ s.ctx)
        × (d.cache ≡ s.cache)
  unfolding delete_all
  delete_all-frame [] s h = (refl, refl, refl, refl, refl)
  delete_all-frame (c ∷ cs) s h =
      let (out, apart) = h c (ground arith) in
      let (a, b, w, t, v) =
        delete_all-frame cs
          (record s {
            free = erase c s.free;
            in_use = erase c s.in_use;
            held = unlink c s.held;
            allocated = erase c s.allocated;
          })
          (λ y z. rw (unused c s.in_use out, unlink-none c s.held apart) (h y (ground arith))) in
      (a ∙ unused c s.in_use out, b ∙ unlink-none c s.held apart, w, t, v)

  delete_all-ctx : (cs : List Ptr) (s : Service p H) → (delete_all cs s).ctx ≡ s.ctx
  unfolding delete_all
  delete_all-ctx [] s = refl
  delete_all-ctx (c ∷ cs) s = delete_all-ctx cs _

  delete_all-free : (cs : List Ptr) (s : Service p H) → s.free ≡ cs → (delete_all cs s).free ≡ []
  unfolding delete_all
  delete_all-free [] s e = e
  delete_all-free (c ∷ cs) s e = delete_all-free cs _ (rw e (ground arith))

  -- Deleting the completions of the free list leaves the account right. of the free list.
  delete_free-Sound :
      (s : Service p H)
      → Sound s
      → let d = delete_all s.free s in
        Sound d × (d.in_use ≡ s.in_use) × (d.wrapped ≡ s.wrapped) × (d.ctx ≡ s.ctx)
  delete_free-Sound s ok_s =
      let (i, h, w, t, v) = delete_all-frame s.free s (λ y z.
        let out : times y s.in_use ≡ 0 = ground (arith, ok_s.placed y, ok_s.once y) in
        (out, ok_s.apart y out)) in
      let counts : (x : Ptr)
          → times x (delete_all s.free s).allocated + times x s.free ≡ times x s.allocated =
        λ x. delete_all-times x s.free s (λ y. omega (arith, ok_s.placed y)) in
      (
        record {
          placed =
              λ x. rw (delete_all-free s.free s refl, i) (omega (arith, counts x, ok_s.placed x));
          once = λ x. omega (arith, counts x, ok_s.once x);
          apart = λ x z. rw h (ok_s.apart x (ap (times x) (sym i) ∙ z));
          bare = λ x z. rw w (ok_s.bare x (ap (times x) (sym i) ∙ z));
          paid = rw (i, w, t) ok_s.paid;
          room = rw t ok_s.room;
          cleared = rw v ok_s.cleared;
        },
        i,
        w,
        t,
      )

  -- The destructor of a sound service, if the write to the eventfd of `on_work_finished` succeeds,
  -- returns: every completion is deleted, and the work that stored handlers held is given back.
  pub close-Returns :
      (s : Service p H)
      → Writes p
      → Sound s
      → Returns
          (λ _ d. (d.allocated ≡ []) × (d.ctx.work + units s.wrapped s.in_use ≡ s.ctx.work))
          (close s)
  unfolding close
  close-Returns s wr ok_s =
      let t = delete_all s.free s in
      let (ok_t, i, w, x) = delete_free-Sound s ok_s in
      Returns-bind (reset_all-Silenced {p = p} {H = H} wr t.in_use t ok_t (λ y. omega arith))
        λ _ d (ok_d, j, h, n, all, keep, f).
          let none_left : (y : Ptr) → d.wrapped y ≡ none = λ y.
            elim (Bool-cases (times y t.in_use == 0)) [
              | inl z ↦ keep y (ok_t.bare y (ground arith))
              | inr z ↦ all y (ground arith)
            ] in
          let same : units t.wrapped t.in_use ≡ units s.wrapped s.in_use = rw (i, w) refl in
          returned (
            nothing _ (λ y. omega (
              arith,
              delete_all-times y d.in_use d (λ z. omega (arith, ok_d.placed z)),
              ok_d.placed y,
              ap (times y) (f ∙ delete_all-free s.free s refl),
            )),
            omega (
              arith,
              n,
              no_units d.wrapped d.in_use none_left,
              ap (λ c. c.work) x,
              ap (λ c. c.work) (delete_all-ctx d.in_use d),
              same,
            ),
          )
