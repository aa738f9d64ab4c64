-- ===== src/EventfdQueue/Nodes.antt =====
-- The nodes of an `eventfd_queue` and its operations. A node is a pointer with a `next` and a
-- `storage`, which is `none` while it holds no constructed value. What the critical sections of the
-- two spin locks do is one step each. `allocated` is the allocator's account of the nodes.
use asio_uring.Base.{
  ℕ, zero, suc, ◌==◌, not, if◌then◌else◌, Option, none, some, List, [], ◌∷◌, has, Exception,
  bad_alloc, generic_error, Sys, done, failed, blocks, Run, ok, throw, abort, running, and_then,
  ◌>>=◌, ◌>>◌, pure, modify, check_that, map_state,
}

abbrev pub Ptr : Type 0
Ptr = ℕ

-- `nullptr`
abbrev pub null : Ptr
null = 0

abbrev pub update : {A : Type 0} → (Ptr → A) → Ptr → A → Ptr → A
update f p a q = if p == q then a else f q

abbrev pub erase : Ptr → List Ptr → List Ptr
erase p [] = []
erase p (q ∷ qs) = if p == q then qs else q ∷ erase p qs

pub record Queue (T W : Type 0) : Type 0 where
  pub head : Ptr
  pub tail : Ptr
  pub free : Ptr
  pub next : Ptr → Ptr
  pub storage : Ptr → Option T
  pub allocated : List Ptr
  -- The eventfd.
  pub world : W

-- `allocate` throws, or the construction of the node in what it returns throws, or neither.
pub data Allocation : Type 0 where
  refused : Allocation
  not_constructed : Exception → Allocation
  allocated_at : Ptr → Allocation

-- The construction of a value in the storage of a node.
pub data Built (T : Type 0) : Type 0 where
  built : T → Built T
  not_built : Exception → Built T

abbrev pub M : (T W A : Type 0) → Type 0
M T W A = Queue T W → Run (Queue T W) A

module _ {T W : Type 0} where
  -- An access through a pointer is undefined unless it points to a node.
  abbrev pub deref : Ptr → M T W (Unit {0})
  deref p q = check_that (has p q.allocated) q

  abbrev pub set_next : Ptr → Ptr → M T W (Unit {0})
  set_next p n = do deref p; modify (λ q. record q { next = update q.next p n })

  abbrev pub next_of : Ptr → M T W Ptr
  next_of p q = (do deref p; pure (q.next p)) q

  -- `node_type::emplace` and `node_type::reset`
  abbrev pub set_storage : Ptr → Option T → M T W (Unit {0})
  set_storage p v = do deref p; modify (λ q. record q { storage = update q.storage p v })

  unfoldable pub construct : W → Queue T W
  construct w = record {
    head = null;
    tail = null;
    free = null;
    next = λ p. null;
    storage = λ p. none;
    allocated = [];
    world = w;
  }

  abbrev pub allocate : Allocation → M T W Ptr
  allocate refused q = throw bad_alloc q
  allocate (not_constructed e) q = throw e q
  allocate (allocated_at p) q = ok p (record q {
    next = update q.next p null;
    storage = update q.storage p none;
    allocated = p ∷ q.allocated;
  })

  unfoldable pub get_node : Allocation → M T W Ptr
  get_node a q =
      if q.free == null
      then allocate a q
      else (do
        n ← next_of q.free
        modify (λ s. record s { free = n })
        set_next q.free null
        pure q.free)
          q

  unfoldable pub release_node : Ptr → M T W (Unit {0})
  release_node p q = (do set_next p q.free; modify (λ s. record s { free = p })) q

  -- `node.emplace(...)`, and `release_node` with a second throw if that throws.
  abbrev pub fill : Ptr → Built T → M T W (Unit {0})
  fill p (built v) q = set_storage p (some v) q
  fill p (not_built e) q = (release_node p >> λ s. throw e s) q

  -- The critical section of `emplace`.
  unfoldable pub link : Ptr → M T W (Unit {0})
  link p q =
      if q.tail == null
      then (do check_that (q.head == null); modify (λ s. record s { head = p; tail = p })) q
      else (do
        check_that (not (q.head == null))
        set_next q.tail p
        modify (λ s. record s { tail = p }))
          q

  -- `emplace` up to the write to the eventfd.
  unfoldable pub insert : Allocation → Built T → M T W (Unit {0})
  insert a b = do p ← get_node a; n ← next_of p; check_that (n == null); fill p b; link p

  abbrev pub written : Queue T W → Sys (Unit {0}) × W → Run (Queue T W) (Unit {0})
  written q (done _, w) = ok tt (record q { world = w })
  written q (failed e, w) = throw (generic_error e) (record q { world = w })
  written q (blocks, w) = running (record q { world = w })

  unfoldable pub emplace : (W → Sys (Unit {0}) × W) → Allocation → Built T → M T W (Unit {0})
  emplace write a b = do insert a b; λ q. written q (write q.world)

  unfoldable pub pop_node : M T W Ptr
  pop_node q =
      (do
        check_that (not (q.head == null))
        check_that (not (q.tail == null))
        n ← next_of q.head
        modify (λ s. record s { head = n; tail = if n == null then null else s.tail })
        pure q.head)
        q

  abbrev pub get : Option T → M T W T
  get none q = abort
  get (some v) q = ok v q

  -- `node.reset(); release_node(node);`
  unfoldable pub recycle : Ptr → M T W (Unit {0})
  recycle p = do set_storage p none; release_node p

  -- The exits of the `try` block of `consume_one`.
  abbrev pub recycled : Ptr → Run (Queue T W) (Unit {0}) → Run (Queue T W) (Unit {0})
  recycled p (ok _ q) = recycle p q
  recycled p (throw e q) = and_then (recycle p q) (λ _ s. throw e s)
  recycled p abort = abort
  recycled p (running q) = running q

  unfoldable pub consume_one : (T → M T W (Unit {0})) → M T W (Unit {0})
  consume_one f = do p ← pop_node; λ q. (do v ← get (q.storage p); λ s. recycled p (f v s)) q

  unfoldable pub consume : (T → M T W (Unit {0})) → ℕ → M T W (Unit {0})
  consume f zero q = ok tt q
  consume f (suc n) q = (do consume_one f; λ s. consume f n s) q

  abbrev pub in_world : {A : Type 0} → Queue T W → Run W A → Run (Queue T W) A
  in_world q r = map_state (λ w. record q { world = w }) r

  -- `pending`, with `e_.read()`
  abbrev pub pending : (W → Run W ℕ) → M T W ℕ
  pending read q = in_world q (read q.world)

  unfoldable pub consume_all : (W → Run W ℕ) → (T → M T W (Unit {0})) → M T W ℕ
  consume_all read f = do n ← pending read; consume f n; pure n

  -- `destroy_node`
  abbrev pub destroy_node : Ptr → M T W (Unit {0})
  destroy_node p = do deref p; modify (λ q. record q { allocated = erase p q.allocated })

  -- The two loops of the destructor, with fuel.
  unfoldable pub destroy_queue : ℕ → M T W (Unit {0})
  destroy_queue zero q = running q
  destroy_queue (suc fuel) q =
      let rest = (do
        n ← next_of q.head
        modify (λ s. record s { head = n })
        set_storage q.head none
        destroy_node q.head
        λ s. destroy_queue fuel s) in
      if q.head == null then ok tt q else rest q

  unfoldable pub destroy_free : ℕ → M T W (Unit {0})
  destroy_free zero q = running q
  destroy_free (suc fuel) q =
      let rest = (do
        n ← next_of q.free
        modify (λ s. record s { free = n })
        destroy_node q.free
        λ s. destroy_free fuel s) in
      if q.free == null then ok tt q else rest q

  unfoldable pub destroy : ℕ → M T W (Unit {0})
  destroy fuel = do destroy_queue fuel; destroy_free fuel
