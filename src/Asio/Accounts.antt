-- ===== src/Asio/Accounts.antt =====
-- What the operations of an I/O object hold: each its descriptor and two units of work.
use asio_uring.Base.{
  ℕ, ◌+◌, ◌-◌, ◌<◌, ◌≤◌, ◌≡◌, refl, ◌∙◌, ap, ◌≢◌, true, some, List, [], ◌∷◌, has, length, arith,
  Safe, Safe-map_state,
}
use asio_uring.EventfdQueue.Nodes.{Ptr, erase}
use asio_uring.EventfdQueue.Chains.{times, has-times, times-erase}
use asio_uring.Context.Platform.{Platform}
use asio_uring.Service.Account.{Sound, unit_of, units}
use asio_uring.FileObject.{File}
use asio_uring.FileObject.Lifetime.{Shared, unit, release-Kept, length-erase}
use asio_uring.Asio.Initiate.{Wrapper, Args}
use asio_uring.Asio.Files.{IoFile}
use asio_uring.Asio.Calls.{Environment, leave}
use asio_uring.Asio.Tally.{is_for, handlers, tally-units, tally-take}

-- `running` lists the handlers that are being called, of which `locals` have a pointer to the
-- descriptor, and `owed` is the work that they have given back. Each stored function object has two
-- units of work, beside the work `base` of others, and unless it is being called its handler holds the
-- descriptor.
pub record Account {p : Platform} (base owed locals : ℕ) (running : List ℕ) (s : IoFile p)
    : Type 0 where
  pub sound : Sound s.service
  pub shared : Shared s.file
  pub pointers : s.file.locals ≡ locals
  pub held :
      (h : ℕ)
      → times h s.file.holding + times h running ≡ handlers h s.service.wrapped s.service.in_use
  pub spent :
      s.service.ctx.work + owed
      ≡ base + units s.service.wrapped s.service.in_use + units s.service.wrapped s.service.in_use

-- No handler is being called.
abbrev pub Balanced : {p : Platform} → ℕ → IoFile p → Type 0
Balanced base s = Account base 0 0 [] s

-- The completion `c` is in use and stores `w`.
abbrev pub Stores : {p : Platform} → Ptr → Wrapper → IoFile p → Type 0
Stores c w s = (times c s.service.in_use ≡ 1) × (s.service.wrapped c ≡ some w)

-- Within the call of the handler `h` for the completion `c`
abbrev pub Calling : {p : Platform} → ℕ → Ptr → Wrapper → IoFile p → Type 0
Calling base c w s = Account base 0 1 (w.handler ∷ []) s × Stores c w s

-- A handler keeps the account, and does not finish the operation that it is the handler of.
abbrev pub Respects : {p : Platform} → ℕ → Environment p → Type 0
Respects {p} base v =
    (c : Ptr) (w : Wrapper) (a : Args) (s : IoFile p)
    → Calling base c w s
    → Safe (λ _ d. Calling base c w d) (Calling base c w) (v.user w.handler a s)

module _ {p : Platform} where
  pub stored-is_for :
      (c : Ptr) (w : Wrapper) (s : IoFile p)
      → Stores c w s
      → (h : ℕ) → is_for h (some w) ≤ handlers h s.service.wrapped s.service.in_use
  stored-is_for c w s (one, at) h =
      omega (
        arith,
        tally-take (is_for h) s.service.wrapped c s.service.in_use refl one,
        ap (is_for h) at,
      )

  pub stored-units :
      (c : Ptr) (w : Wrapper) (s : IoFile p)
      → Stores c w s
      → 0 < units s.service.wrapped s.service.in_use
  stored-units c w s (one, at) = omega (
    arith,
    tally-take unit_of s.service.wrapped c s.service.in_use refl one,
    tally-units s.service.wrapped s.service.in_use,
    ap unit_of at,
  )

  -- The call takes over the pointer of the handler.
  pub entered-Calling :
      (base : ℕ) (c : Ptr) (w : Wrapper) (s : IoFile p)
      → Balanced base s
      → Stores c w s
      → (has w.handler s.file.holding ≡ true)
        × Calling base c w (record s {
          file = record s.file {
            holding = erase w.handler s.file.holding;
            locals = s.file.locals + 1;
          };
        })
  entered-Calling base c w s x y =
      let some_one : times w.handler s.file.holding ≢ 0 =
        ground (arith, x.held w.handler, stored-is_for c w s y w.handler) in
      let here = has-times w.handler s.file.holding some_one in
      (
        here,
        (
          record {
            sound = x.sound;
            shared = record {
              owned = x.shared.owned;
              counted =
                  ground (arith, x.shared.counted, length-erase w.handler s.file.holding here);
              live = x.shared.live;
              gone = x.shared.gone;
            };
            pointers = omega (arith, x.pointers);
            held = λ h. ground (arith, x.held h, times-erase w.handler h s.file.holding);
            spent = x.spent;
          },
          y,
        ),
      )

  pub leave-Account :
      (base : ℕ) (c : Ptr) (w : Wrapper) (s : IoFile p)
      → Calling base c w s
      → Safe
          (λ _ d. Account base 0 0 (w.handler ∷ []) d × Stores c w d)
          (λ d. Account base 0 0 (w.handler ∷ []) d × Stores c w d)
          (leave s)
  leave-Account base c w s (x, y) =
      let d : File = record s.file { locals = s.file.locals - 1 } in
      let all : d.count ≡ unit d.attached + length d.holding + d.locals + 1 =
        omega (arith, x.shared.counted, x.pointers) in
      Safe-map_state (λ t. record s { file = t })
        (release-Kept d x.shared.owned all (x.shared.live (omega (arith, all))))
        (λ _ f ((shared, less), same, _). (
          record {
            sound = x.sound;
            shared = shared;
            pointers = omega (arith, less, x.pointers);
            held = λ h. ap (λ l. times h l + times h (w.handler ∷ [])) same ∙ x.held h;
            spent = x.spent;
          },
          y,
        ))
        (λ f. absurd)
