-- ===== src/Io/Sockets.antt =====
-- src/core/accept.cpp and src/core/connect.cpp, with async_accept of accept_file.hpp and async_connect of
-- connect_file.hpp in src/asio/include/asio_uring/asio. An error code is its `errno`, or none.
use asio_uring.Base.{
  ℕ, ◌≡◌, refl, ◌==◌, ◌≢◌, ◌||◌, Bool, true, false, if◌then◌else◌, Option, none, some, List, [],
  ◌∷◌, Sys, done, failed, blocks, arith, inl, inr, ◌⊎◌,
}
use asio_uring.Io.Loops.{eagain, error_of}

abbrev pub einprogress : ℕ
einprogress = 115

-- `ec` and the descriptor that is returned, or none.
pub record Accepted (W : Type 0) : Type 0 where
  pub error : Option ℕ
  pub descriptor : Option ℕ
  pub world : W

abbrev pub accept_case : {W : Type 0} → Sys ℕ × W → Accepted W
accept_case (done fd, w) = record { error = none; descriptor = some fd; world = w }
accept_case (failed e, w) = record { error = error_of e; descriptor = none; world = w }
accept_case (blocks, w) = record { error = none; descriptor = none; world = w }

-- `accept`; `accept4` is the call on the listening descriptor, which is in non-blocking mode and so
-- never blocks.
unfoldable pub accept : {W : Type 0} → (W → Sys ℕ × W) → W → Accepted W
accept accept4 w = accept_case (accept4 w)

-- After an attempt: call the handler, or poll `again`.
abbrev pub attempted :
    {W : Type 0} → Option ℕ → Option ℕ → W → Option (Accepted W) → Option (Accepted W)
attempted (some e) accepted w again = some (record { error = some e; descriptor = none; world = w })
attempted none (some fd) w again = some (record { error = none; descriptor = some fd; world = w })
attempted none none w again = again

-- What the handler of `async_accept` is called with; `polls` lists how the polls of the descriptor
-- end, none for one that ends well, and `none` is an operation that waits for a further poll.
unfoldable pub async_accept :
    {W : Type 0} → (W → Sys ℕ × W) → List (Option ℕ) → W → Option (Accepted W)
async_accept accept4 [] w = none
async_accept accept4 (some e ∷ polls) w =
    some (record { error = some e; descriptor = none; world = w })
async_accept accept4 (none ∷ polls) w =
    let again = async_accept accept4 polls (accept accept4 w).world in
    attempted (accept accept4 w).error (accept accept4 w).descriptor (accept accept4 w).world again

-- The result of `connect` and its `ec`.
pub record Connected (W : Type 0) : Type 0 where
  pub error : Option ℕ
  pub connected : Bool
  pub world : W

abbrev pub connect_case : {W : Type 0} → Sys (Unit {0}) × W → Connected W
connect_case (done _, w) = record { error = none; connected = true; world = w }
connect_case (failed e, w) = record {
  error = if (e == eagain) || (e == einprogress) then none else some e;
  connected = false;
  world = w;
}
connect_case (blocks, w) = record { error = none; connected = false; world = w }

unfoldable pub connect : {W : Type 0} → (W → Sys (Unit {0}) × W) → W → Connected W
connect sys_connect w = connect_case (sys_connect w)

-- An error code of value 0 is no error.
abbrev pub code : ℕ → Option ℕ
code e = if e == 0 then none else some e

abbrev pub error_case : {W : Type 0} → Sys ℕ × W → Option ℕ × W
error_case (done e, w) = (code e, w)
error_case (failed e, w) = (code e, w)
error_case (blocks, w) = (none, w)

-- `getsockopt` of `SO_ERROR`
unfoldable pub connect_error : {W : Type 0} → (W → Sys ℕ × W) → W → Option ℕ × W
connect_error getsockopt w = error_case (getsockopt w)

abbrev pub settled : Option ℕ → Bool → Option ℕ → Option ℕ → Option ℕ
settled (some e) connected poll later = some e
settled none true poll later = none
settled none false (some e) later = some e
settled none false none later = later

-- What the handler of `async_connect` is called with, when the poll of the descriptor, if there is
-- one, ends as `poll` says.
unfoldable pub async_connect :
    {W : Type 0} → (W → Sys (Unit {0}) × W) → (W → Sys ℕ × W) → Option ℕ → W → Option ℕ
async_connect sys_connect getsockopt poll w =
    let r = connect sys_connect w in
    settled r.error r.connected poll (connect_error getsockopt r.world).0

settled-none :
    (x : Option ℕ) (b : Bool) (poll later : Option ℕ)
    → settled x b poll later ≡ none
    → (x ≡ none) × ((b ≡ true) ⊎ ((poll ≡ none) × (later ≡ none)))
settled-none (some n) b poll later e = absurd cc
settled-none none true poll later e = (refl, inl refl)
settled-none none false (some n) later e = absurd cc
settled-none none false none later e = (refl, inr (refl, e))

connect-connected :
    {W : Type 0} (x : Sys (Unit {0}) × W) → (connect_case x).connected ≡ true → x.0 ≡ done tt
connect-connected (done _, w) e = refl
connect-connected (failed n, w) e = absurd cc
connect-connected (blocks, w) e = absurd cc

module _ {W : Type 0} where
  -- What `async_accept` completes with.
  abbrev pub Outcome : Accepted W → Type 0
  Outcome r = (r.error ≡ none → r.descriptor ≢ none) × (r.error ≢ none → r.descriptor ≡ none)

  attempted-Outcome :
      (x y : Option ℕ) (w : W) (again : Option (Accepted W)) (r : Accepted W)
      → (again ≡ some r → Outcome r)
      → attempted x y w again ≡ some r
      → Outcome r
  attempted-Outcome (some n) y w again r k e = ground arith
  attempted-Outcome none (some fd) w again r k e = ground arith
  attempted-Outcome none none w again r k e = k e

  -- When `async_accept` completes, after however many polls, its handler gets a descriptor if there
  -- is no error, and none if there is one.
  pub async_accept-Outcome :
      (accept4 : W → Sys ℕ × W) (polls : List (Option ℕ)) (w : W) (r : Accepted W)
      → async_accept accept4 polls w ≡ some r
      → Outcome r
  unfolding async_accept
  async_accept-Outcome accept4 [] w r e = absurd cc
  async_accept-Outcome accept4 (some x ∷ polls) w r e = ground arith
  async_accept-Outcome accept4 (none ∷ polls) w r e =
      attempted-Outcome _ _ _ _ r (async_accept-Outcome accept4 polls (accept accept4 w).world r) e

  -- If the handler of `async_connect` is called with no error, then either connect(2) succeeded at
  -- once, or the poll ended well and SO_ERROR was clear after it.
  pub async_connect-none :
      (sys_connect : W → Sys (Unit {0}) × W) (getsockopt : W → Sys ℕ × W) (poll : Option ℕ) (w : W)
      → async_connect sys_connect getsockopt poll w ≡ none
      → ((sys_connect w).0 ≡ done tt)
        ⊎ ((poll ≡ none) × ((connect_error getsockopt (connect sys_connect w).world).0 ≡ none))
  unfolding async_connect connect
  async_connect-none sys_connect getsockopt poll w e =
      let r = connect sys_connect w in
      elim (settled-none r.error r.connected poll (connect_error getsockopt r.world).0 e).1 [
        | inl at_once ↦ inl (connect-connected (sys_connect w) at_once)
        | inr later ↦ inr later
      ]
