-- ===== src/CallableStorage.antt =====
-- src/core/include/asio_uring/callable_storage.hpp, for the signature `R()`: `indirect::invoke`
-- passes no argument on.
pub mod Layout
pub mod Lifetime
use asio_uring.Base.{
  ℕ, ◌+◌, ◌-◌, ◌==◌, Bool, true, false, not, if◌then◌else◌, ltb, Option, none, some, List, ◌∷◌, has,
  Exception, bad_alloc, Run, ok, throw, abort, running, and_then, ◌>>=◌, ◌>>◌, pure, raise, modify,
  check_that, finally, map_state,
}
use asio_uring.EventfdQueue.Nodes.{Ptr, null, erase}

pub data Kind : Type 0 where
  direct indirect : Kind

-- The sizes and alignments of `storage_type`, of `base` and of `indirect`
pub record Sizes : Type 0 where
  pub storage : ℕ
  pub storage_align : ℕ
  pub base_align : ℕ
  pub indirect_size : ℕ
  pub indirect_align : ℕ

-- `select`, for a `direct` of this size and alignment
unfoldable pub select : Sizes → ℕ → ℕ → Kind
select s size align =
    if ltb s.storage size then indirect else if ltb s.base_align align then indirect else direct

-- `blocks` is the allocator's account of what it has given out, and `objects` the number of callable
-- objects that are alive in a storage, in a block or as the result of `prepare_invoke`.
pub record Heap (W : Type 0) : Type 0 where
  pub blocks : List Ptr
  pub objects : ℕ
  pub world : W

-- What the constructor of the storage has left in it: a `t_`, or an `inner_`.
pub data Stored : Type 0 where
  nothing : Stored
  in_place : Stored
  in_block : Ptr → Stored

pub record Storage (W : Type 0) : Type 0 where
  pub heap : Heap W
  pub stored : Stored

-- How the construction goes: an exception of the moves into the parameters, what the allocator
-- returns, and an exception of the move into `t_`.
pub record Making : Type 0 where
  pub passed : Option Exception
  pub block : Option Ptr
  pub moved : Option Exception

abbrev pub M : Type 0 → Type 0 → Type 0
M W A = Heap W → Run (Heap W) A

module _ {W : Type 0} where
  abbrev pub may_throw : Option Exception → M W (Unit {0})
  may_throw none h = ok tt h
  may_throw (some e) h = throw e h

  abbrev pub born : Heap W → Heap W
  born h = record h { objects = h.objects + 1 }

  abbrev pub died : Heap W → Heap W
  died h = record h { objects = h.objects - 1 }

  -- `allocate`
  abbrev pub allocate : Option Ptr → M W Ptr
  allocate none h = throw bad_alloc h
  allocate (some p) h = ok p (record h { blocks = p ∷ h.blocks })

  abbrev pub deallocate : Ptr → M W (Unit {0})
  deallocate p h =
      (do check_that (has p h.blocks); modify (λ g. record g { blocks = erase p g.blocks })) h

  -- `construct`, and the `catch` behind it
  abbrev pub construct_in : Ptr → Option Exception → M W Ptr
  construct_in p none h = ok p (born h)
  construct_in p (some e) h = (deallocate p >> raise e) h

  -- `indirect::create`
  unfoldable pub create : Making → M W Ptr
  create m = do may_throw m.passed; p ← allocate m.block; construct_in p m.moved

  -- The constructors of `direct` and `indirect`
  unfoldable pub construct : Kind → Making → Heap W → Run (Heap W) Stored
  construct direct m = do may_throw m.passed; may_throw m.moved; modify born; pure in_place
  construct indirect m = do p ← create m; pure (in_block p)

  -- `allocator_indirect::destroy`
  unfoldable pub destroy_block : Ptr → M W (Unit {0})
  destroy_block p h = (do check_that (has p h.blocks); modify died; deallocate p) h

  -- `allocator_indirect::prepare_invoke`, whose guard destroys the block either way. The object that
  -- it returns is one more.
  unfoldable pub prepare_invoke : Option Exception → Ptr → M W (Unit {0})
  prepare_invoke none p = do modify born; destroy_block p
  prepare_invoke (some e) p = do destroy_block p; raise e

  -- `allocator_indirect::invoke`; the object that it has called goes on the way out.
  unfoldable pub invoke_block : {A : Type 0} → Option Exception → M W A → Ptr → M W A
  invoke_block out f p = do prepare_invoke out p; λ h. finally (f h) died

  abbrev pub within : {A : Type 0} → Stored → Run (Heap W) A → Run (Storage W) A
  within s r = map_state (λ h. record { heap = h; stored = s }) r

  -- `operator()`, with `f` for the callable and `out` for the move out of the block. `get` asserts
  -- that there is a pointer.
  abbrev pub call_stored :
      {A : Type 0} → Option Exception → M W A → Stored → Heap W → Run (Storage W) A
  call_stored out f nothing h = abort
  call_stored out f in_place h = within in_place (f h)
  call_stored out f (in_block p) h =
      and_then
        (map_state (λ g. record { heap = g; stored = in_block p }) (check_that (not (p == null)) h))
        λ _ t. within (in_block null) (invoke_block out f p t.heap)

  unfoldable pub call : {A : Type 0} → Option Exception → M W A → Storage W → Run (Storage W) A
  call out f s = call_stored out f s.stored s.heap

  -- `~callable_storage()`
  unfoldable pub destroy : Stored → M W (Unit {0})
  destroy nothing h = abort
  destroy in_place h = ok tt (died h)
  destroy (in_block p) h = if p == null then ok tt h else destroy_block p h

  -- The storage goes whichever way the call ends.
  abbrev pub unwind : {A : Type 0} → Run (Storage W) A → Run (Heap W) A
  unwind (ok a s) = and_then (destroy s.stored s.heap) (λ _. pure a)
  unwind (throw e s) = and_then (destroy s.stored s.heap) (λ _. raise e)
  unwind abort = abort
  unwind (running s) = running s.heap

  -- A storage is made, called once and destroyed.
  unfoldable pub call_once : {A : Type 0} → Kind → Making → Option Exception → M W A → M W A
  call_once k m out f = do
    s ← construct k m
    λ h. unwind (call out f (record { heap = h; stored = s }))

  -- A storage is made and destroyed.
  unfoldable pub discard : Kind → Making → M W (Unit {0})
  discard k m = do s ← construct k m; destroy s
