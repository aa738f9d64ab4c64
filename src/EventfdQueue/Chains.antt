-- ===== src/EventfdQueue/Chains.antt =====
-- The two chains of nodes, and whose each node is.
use asio_uring.Base.{
  ℕ, ◌+◌, ◌-◌, ◌≤◌, ◌≡◌, refl, ◌≢◌, ◌==◌, true, false, if◌then◌else◌, Option, some, List, [], ◌∷◌,
  ◌++◌, has, arith,
}
use asio_uring.EventfdQueue.Nodes.{Ptr, null, update, erase, Queue}

abbrev pub times : Ptr → List Ptr → ℕ
times p [] = 0
times p (q ∷ qs) = (if p == q then 1 else 0) + times p qs

-- From `a` the `next` pointers lead through `ps` to null.
abbrev pub Chain : (Ptr → Ptr) → Ptr → List Ptr → Type 0
Chain next a [] = a ≡ null
Chain next a (p ∷ ps) = (a ≡ p) × (p ≢ null) × Chain next (next p) ps

abbrev pub last_of : List Ptr → Ptr
last_of [] = null
last_of (p ∷ []) = p
last_of (p ∷ q ∷ ps) = last_of (q ∷ ps)

-- The nodes `ps` hold the values `vs`.
abbrev pub Values : {T : Type 0} → (Ptr → Option T) → List Ptr → List T → Type 0
Values storage [] [] = Unit {0}
Values storage [] (v ∷ vs) = ⊥
Values storage (p ∷ ps) [] = ⊥
Values storage (p ∷ ps) (v ∷ vs) = (storage p ≡ some v) × Values storage ps vs

-- The queue holds `vs` in the nodes `ps`; `fs` are on the free list and `ds` in the hands of an
-- operation; each allocated node is in one of these places, once.
pub record Shape {T W : Type 0} (q : Queue T W) (ps : List Ptr) (vs : List T) (fs ds : List Ptr)
    : Type 0 where
  pub queued : Chain q.next q.head ps
  pub ends : q.tail ≡ last_of ps
  pub pool : Chain q.next q.free fs
  pub holds : Values q.storage ps vs
  pub placed : (p : Ptr) → times p q.allocated ≡ times p ps + times p fs + times p ds
  pub once : (p : Ptr) → times p q.allocated ≤ 1

pub has-times : (p : Ptr) (ps : List Ptr) → times p ps ≢ 0 → has p ps ≡ true
has-times p [] h = absurd (h refl)
has-times p (q ∷ qs) h = ground (arith, has-times p qs)

pub times-append : (p : Ptr) (ps qs : List Ptr) → times p (ps ++ qs) ≡ times p ps + times p qs
times-append p [] qs = omega arith
times-append p (x ∷ ps) qs = omega (arith, times-append p ps qs)

pub Chain-update :
    (next : Ptr → Ptr) (a p n : Ptr) (ps : List Ptr)
    → times p ps ≡ 0
    → Chain next a ps
    → Chain (update next p n) a ps
Chain-update next a p n [] out c = c
Chain-update next a p n (x ∷ ps) out (e, ne, c) =
    let same : update next p n x ≡ next x = ground arith in
    (e, ne, rw same (Chain-update next (next x) p n ps (ground arith) c))

pub Values-update :
    {T : Type 0} (storage : Ptr → Option T) (p : Ptr) (v : Option T) (ps : List Ptr) (vs : List T)
    → times p ps ≡ 0
    → Values storage ps vs
    → Values (update storage p v) ps vs
Values-update storage p v [] [] out h = h
Values-update storage p v [] (w ∷ ws) out h = h
Values-update storage p v (x ∷ ps) [] out h = h
Values-update storage p v (x ∷ ps) (w ∷ ws) out h =
    (ground arith, Values-update storage p v ps ws (ground arith) h.1)

-- The last node of a chain is in it.
pub times-last : (p : Ptr) (ps : List Ptr) → times (last_of (p ∷ ps)) (p ∷ ps) ≢ 0
times-last p [] = ground arith
times-last p (x ∷ ps) = ground (arith, times-last x ps)

-- Writing the link of the last node puts `p` at the end.
pub Chain-snoc :
    (next : Ptr → Ptr) (a p x : Ptr) (ps : List Ptr)
    → Chain next a (x ∷ ps)
    → ((y : Ptr) → times y (x ∷ ps) ≤ 1)
    → p ≢ null
    → next p ≡ null
    → times p (x ∷ ps) ≡ 0
    → Chain (update next (last_of (x ∷ ps)) p) a (x ∷ ps ++ p ∷ [])
Chain-snoc next a p x [] c one ne z out = ground arith
Chain-snoc next a p x (y ∷ ps) (e, nx, c) one ne z out =
    let apart : (last_of (y ∷ ps) == x) ≡ false =
      ground (arith, times-last y ps, one (last_of (y ∷ ps))) in
    (
      e,
      nx,
      rw apart (Chain-snoc next (next x) p y ps c (λ w. ground (arith, one w)) ne z (ground arith)),
    )

pub Values-snoc :
    {T : Type 0} (storage : Ptr → Option T) (p : Ptr) (v : T) (ps : List Ptr) (vs : List T)
    → Values storage ps vs
    → storage p ≡ some v
    → Values storage (ps ++ p ∷ []) (vs ++ v ∷ [])
Values-snoc storage p v [] [] h e = (e, tt)
Values-snoc storage p v [] (w ∷ ws) h e = absurd h
Values-snoc storage p v (x ∷ ps) [] h e = absurd h
Values-snoc storage p v (x ∷ ps) (w ∷ ws) h e = (h.0, Values-snoc storage p v ps ws h.1 e)

pub last-snoc : (ps : List Ptr) (p : Ptr) → last_of (ps ++ p ∷ []) ≡ p
last-snoc [] p = refl
last-snoc (x ∷ []) p = refl
last-snoc (x ∷ y ∷ ps) p = last-snoc (y ∷ ps) p

pub times-erase :
    (p x : Ptr) (ps : List Ptr)
    → times x (erase p ps)
      ≡ (if has p ps then times x ps - (if x == p then 1 else 0) else times x ps)
times-erase p x [] = refl
times-erase p x (y ∷ ps) = ground (arith, times-erase p x ps)

pub last-ne-null :
    (next : Ptr → Ptr) (a x : Ptr) (ps : List Ptr) → Chain next a (x ∷ ps) → last_of (x ∷ ps) ≢ null
last-ne-null next a x [] c = c.1
last-ne-null next a x (y ∷ ps) c = last-ne-null next (next x) y ps c.2

-- The tail after the front node is taken, whose successor is `a`.
pub tail-pop :
    (next : Ptr → Ptr) (a x tail : Ptr) (ps : List Ptr)
    → Chain next a ps
    → tail ≡ last_of (x ∷ ps)
    → (if a == null then null else tail) ≡ last_of ps
tail-pop next a x tail [] c e = ground arith
tail-pop next a x tail (y ∷ ps) c e = ground arith
