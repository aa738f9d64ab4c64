-- ===== src/CallableStorage/Lifetime.antt =====
-- What a storage does to the heap and to the callable that it holds.
use asio_uring.Base.{
  ℕ, ◌+◌, ◌-◌, ◌==◌, ◌≡◌, ◌≢◌, refl, Option, none, some, Exception, bad_alloc, throw, ok, ==_refl,
  ◌∷◌, ap, ◌∙◌, abort, running, finally, arith, Run, true, false,
}
use asio_uring.EventfdQueue.Nodes.{null, Ptr}
use asio_uring.CallableStorage.{
  Kind, direct, indirect, Making, Heap, M, born, died, create, construct, construct_in, may_throw,
  destroy_block, prepare_invoke, invoke_block, call, destroy, call_once, discard, unwind, within,
  in_place, in_block,
}

-- The first exception of the construction, and of the move out of a block
abbrev pub or_else : Option Exception → Option Exception → Option Exception
or_else none e = e
or_else (some d) e = some d

abbrev pub no_memory : Option Ptr → Option Exception
no_memory none = some bad_alloc
no_memory (some p) = none

abbrev pub indirect_failure : Option Exception → Option Ptr → Option Exception → Option Exception
indirect_failure passed block moved = or_else passed (or_else (no_memory block) moved)

abbrev pub making_failure : Kind → Making → Option Exception
making_failure direct m = or_else m.passed m.moved
making_failure indirect m = indirect_failure m.passed m.block m.moved

abbrev pub call_failure : Kind → Option Exception → Option Exception
call_failure direct out = none
call_failure indirect out = out

module _ {W : Type 0} where
  -- An exception leaves the heap alone; without one the callable runs, while there is one more object.
  abbrev pub ran : {A : Type 0} → Option Exception → M W A → M W A
  ran none f h = finally (f (born h)) died
  ran (some e) f h = throw e h

  unwind-in_place : {A : Type 0} (r : Run (Heap W) A) → unwind (within in_place r) ≡ finally r died
  unfolding destroy
  unwind-in_place (ok a h) = refl
  unwind-in_place (throw e h) = refl
  unwind-in_place abort = refl
  unwind-in_place (running h) = refl

  unwind-in_block : {A : Type 0} (r : Run (Heap W) A) → unwind (within (in_block null) r) ≡ r
  unfolding destroy
  unwind-in_block (ok a h) = refl
  unwind-in_block (throw e h) = refl
  unwind-in_block abort = refl
  unwind-in_block (running h) = refl

  call_direct :
      {A : Type 0} (passed moved : Option Exception) (block : Option Ptr) (out : Option Exception)
      (f : M W A) (h : Heap W)
      → call_once direct (record { passed = passed; block = block; moved = moved }) out f h
        ≡ ran (or_else (or_else passed moved) none) f h
  unfolding call_once construct call
  call_direct none none b out f h = unwind-in_place (f (born h))
  call_direct none (some e) b out f h = refl
  call_direct (some e) moved b out f h = refl

  -- The block is the last that was given out.
  destroy_block-new :
      (p : Ptr) (n k : ℕ) (h : Heap W)
      → n - 1 ≡ k
      → destroy_block p (record h { blocks = p ∷ h.blocks; objects = n })
        ≡ ok tt (record h { objects = k })
  unfolding destroy_block
  destroy_block-new p n k h e =
      let same : (p == p) ≡ true = ==_refl p in
      simp same (ap (λ m. ok tt (record h { objects = m })) e)

  invoke_block-new :
      {A : Type 0} (p : Ptr) (out : Option Exception) (f : M W A) (h : Heap W)
      → invoke_block out f p (record h { blocks = p ∷ h.blocks; objects = h.objects + 1 })
        ≡ ran out f h
  unfolding invoke_block prepare_invoke
  invoke_block-new p none f h =
      rw (destroy_block-new p (h.objects + 1 + 1) (h.objects + 1) h (omega arith))
  invoke_block-new p (some e) f h =
      rw (destroy_block-new p (h.objects + 1) h.objects h (omega arith))

  -- The constructor of `allocator_indirect` throws: the block goes back.
  construct_in-failed :
      (p : Ptr) (e : Exception) (h : Heap W)
      → construct_in p (some e) (record h { blocks = p ∷ h.blocks }) ≡ throw e h
  construct_in-failed p e h = let same : (p == p) ≡ true = ==_refl p in simp same

  call_indirect :
      {A : Type 0} (passed moved : Option Exception) (block : Option Ptr) (out : Option Exception)
      (f : M W A) (h : Heap W)
      → block ≢ some null
      → call_once indirect (record { passed = passed; block = block; moved = moved }) out f h
        ≡ ran (or_else (indirect_failure passed block moved) out) f h
  unfolding call_once construct create call
  call_indirect (some e) moved b out f h ne = refl
  call_indirect none moved none out f h ne = refl
  call_indirect none (some e) (some p) out f h ne = rw (construct_in-failed p e h)
  call_indirect none none (some p) out f h ne =
      let live : (p == null) ≡ false = ground arith in
      simp live (unwind-in_block (invoke_block out f p _) ∙ invoke_block-new p out f h)

  discard_direct :
      (passed moved : Option Exception) (block : Option Ptr) (h : Heap W)
      → discard direct (record { passed = passed; block = block; moved = moved }) h
        ≡ may_throw (or_else passed moved) h
  unfolding discard construct destroy
  discard_direct (some e) moved b h = refl
  discard_direct none (some e) b h = refl
  discard_direct none none b h = ap (λ n. ok tt (record h { objects = n })) (omega arith)

  discard_indirect :
      (passed moved : Option Exception) (block : Option Ptr) (h : Heap W)
      → block ≢ some null
      → discard indirect (record { passed = passed; block = block; moved = moved }) h
        ≡ may_throw (indirect_failure passed block moved) h
  unfolding discard construct create destroy
  discard_indirect (some e) moved b h ne = refl
  discard_indirect none moved none h ne = refl
  discard_indirect none (some e) (some p) h ne = rw (construct_in-failed p e h)
  discard_indirect none none (some p) h ne =
      let live : (p == null) ≡ false = ground arith in
      simp live (destroy_block-new p (h.objects + 1) h.objects h (omega arith))

  -- A storage that is made, called once and destroyed, in either kind of storage, with an allocator
  -- that returns no null pointer: if a move or the allocation throws, the exception leaves the heap
  -- as it was; else it is the same as running the callable on the heap with one more object, which
  -- then goes, so that an allocated block has been returned before the callable runs. A storage
  -- that is made and destroyed without a call leaves the heap as it was, whether or not it throws.
  pub call_once-Plain :
      {A : Type 0} (k : Kind) (m : Making) (out : Option Exception) (f : M W A) (h : Heap W)
      → m.block ≢ some null
      → (call_once k m out f h ≡ ran (or_else (making_failure k m) (call_failure k out)) f h)
        × (discard k m h ≡ may_throw (making_failure k m) h)
  call_once-Plain direct m out f h ne =
      (call_direct m.passed m.moved m.block out f h, discard_direct m.passed m.moved m.block h)
  call_once-Plain indirect m out f h ne = (
    call_indirect m.passed m.moved m.block out f h ne,
    discard_indirect m.passed m.moved m.block h ne,
  )
