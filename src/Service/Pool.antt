-- ===== src/Service/Pool.antt =====
-- The pool of completions of a `service` and its operations, on the context that the service refers
-- to. A completion is a pointer; `free` and `in_use` list the completions that are linked by their
-- hook `service_`, and `held` those that are linked by `implementation_`, each with the handle whose
-- list it is in: the list of a handle is what `held` has for it, in that order.
use asio_uring.Base.{
  ℕ, ◌==◌, Bool, true, false, not, ◌||◌, if◌then◌else◌, Option, none, some, List, [], ◌∷◌, has,
  bad_alloc, Run, ok, throw, abort, running, and_then, ◌>>=◌, ◌>>◌, pure, modify, check_that,
}
use asio_uring.EventfdQueue.Nodes.{
  Ptr, update, erase, Allocation, refused, not_constructed, allocated_at, Built, built, not_built,
}
use asio_uring.Context.Platform.{Platform, Cqe, external}
use asio_uring.Context.State.{Context, get_sqe}
use asio_uring.Context.State
use asio_uring.Context.Executor.{on_work_started, on_work_finished}

-- A `std::vector<::iovec>`
pub record Iovs : Type 0 where
  pub size : ℕ
  pub capacity : ℕ

abbrev pub no_iovs : Iovs
no_iovs = record { size = 0; capacity = 0 }

-- `cache` lists the vectors of `iovs_cache_`, the last one first.
pub record Service (p : Platform) (H : Type 0) : Type 0 where
  pub ctx : Context p
  pub free : List Ptr
  pub in_use : List Ptr
  pub held : List (ℕ × Ptr)
  pub wrapped : Ptr → Option H
  pub iovs : Ptr → Iovs
  pub cache : List Iovs
  pub allocated : List Ptr

abbrev pub linked : Ptr → List (ℕ × Ptr) → Bool
linked c [] = false
linked c ((i, d) ∷ l) = (c == d) || linked c l

abbrev pub unlink : Ptr → List (ℕ × Ptr) → List (ℕ × Ptr)
unlink c [] = []
unlink c ((i, d) ∷ l) = if c == d then unlink c l else (i, d) ∷ unlink c l

-- `list_.empty()`, `list_.clear()` and the move of a list into an empty one
abbrev pub empty : ℕ → List (ℕ × Ptr) → Bool
empty i [] = true
empty i ((j, d) ∷ l) = if i == j then false else empty i l

abbrev pub clear : ℕ → List (ℕ × Ptr) → List (ℕ × Ptr)
clear i [] = []
clear i ((j, d) ∷ l) = if i == j then clear i l else (j, d) ∷ clear i l

abbrev pub transfer : ℕ → ℕ → List (ℕ × Ptr) → List (ℕ × Ptr)
transfer i src [] = []
transfer i src ((j, d) ∷ l) = ((if j == src then i else j), d) ∷ transfer i src l

abbrev pub is_some {ℓ} : {A : Type ℓ} → Option A → Bool
is_some none = false
is_some (some a) = true

abbrev pub M : Platform → Type 0 → Type 0 → Type 0
M p H A = Service p H → Run (Service p H) A

module _ {p : Platform} {H : Type 0} where
  -- A call of the context.
  abbrev pub in_context : {A : Type 0} → Service p H → Run (Context p) A → Run (Service p H) A
  in_context s (ok a c) = ok a (record s { ctx = c })
  in_context s (throw e c) = throw e (record s { ctx = c })
  in_context s abort = abort
  in_context s (running c) = running (record s { ctx = c })

  -- `completion::emplace`
  unfoldable pub emplace : Ptr → Built H → M p H (Unit {0})
  emplace c (built h) s =
      (do
        check_that (not (is_some (s.wrapped c)))
        modify
            (λ t. record t { wrapped = update t.wrapped c (some h); ctx = on_work_started t.ctx }))
        s
  emplace c (not_built e) s = (do check_that (not (is_some (s.wrapped c))); λ t. throw e t) s

  abbrev pub finished : Option H → Ptr → M p H (Unit {0})
  finished none c s = ok tt s
  finished (some h) c s =
      in_context (record s { wrapped = update s.wrapped c none }) (on_work_finished s.ctx)

  -- `completion::reset`
  unfoldable pub reset : Ptr → M p H (Unit {0})
  reset c s = finished (s.wrapped c) c s

  abbrev pub taken : Allocation → List Ptr → M p H Ptr
  taken a (c ∷ rest) s = ok c (record s { free = rest })
  taken refused [] s = throw bad_alloc s
  taken (not_constructed e) [] s = throw e s
  taken (allocated_at c) [] s = ok c (record s {
    allocated = c ∷ s.allocated;
    wrapped = update s.wrapped c none;
    iovs = update s.iovs c no_iovs;
  })

  unfoldable pub maybe_allocate : Allocation → M p H Ptr
  maybe_allocate a s = taken a s.free s

  -- `acquire(impl)`
  unfoldable pub acquire : ℕ → Allocation → M p H Ptr
  acquire impl a = do
    c ← maybe_allocate a
    λ s. check_that (not (linked c s.held)) s
    λ s. check_that (not (has c s.free || has c s.in_use)) s
    modify (λ s. record s { in_use = c ∷ s.in_use; held = (impl, c) ∷ s.held })
    pure c

  abbrev pub resized : Iovs → Service p H → Bool × p.World → Run (Service p H) Iovs
  resized v s (true, w) = ok v (record s { ctx = record s.ctx { world = w } })
  resized v s (false, w) = throw bad_alloc (record s { ctx = record s.ctx { world = w } })

  abbrev pub from_cache : (ℕ → ℕ) → ℕ → List Iovs → M p H Iovs
  from_cache capacity_for n [] s =
      if n == 0
      then ok no_iovs s
      else resized (record { size = n; capacity = capacity_for n }) s (p.allocate s.ctx.world)
  from_cache capacity_for n (v ∷ rest) s =
      (do check_that (v.size == 0); modify (λ t. record t { cache = rest }); pure v) s

  -- `acquire(s)`; `capacity_for` is the capacity that `resize` gives an empty vector.
  unfoldable pub acquire_iovs : (ℕ → ℕ) → ℕ → M p H Iovs
  acquire_iovs capacity_for n s = from_cache capacity_for n s.cache s

  abbrev pub swapped : Ptr → Service p H → Bool × p.World → Service p H
  swapped c s (true, w) = record s {
    cache = (record { size = 0; capacity = (s.iovs c).capacity }) ∷ s.cache;
    iovs = update s.iovs c no_iovs;
    ctx = record s.ctx { world = w };
  }
  swapped c s (false, w) = record s {
    iovs = update s.iovs c (record { size = 0; capacity = (s.iovs c).capacity });
    ctx = record s.ctx { world = w };
  }

  -- `release(c.iovs_)`
  unfoldable pub release_iovs : Ptr → Service p H → Service p H
  release_iovs c s = if (s.iovs c).capacity == 0 then s else swapped c s (p.allocate s.ctx.world)

  -- `release(c)`
  unfoldable pub release : Ptr → M p H (Unit {0})
  release c s =
      (do
        check_that (has c s.free || has c s.in_use)
        reset c
        modify (release_iovs c)
        modify (λ t. record t { held = unlink c t.held })
        modify (λ t. record t { free = erase c t.free; in_use = erase c t.in_use })
        modify (λ t. record t { free = c ∷ t.free }))
        s

  -- `release_guard` around code that gives it up when it returns, and around code that does not.
  abbrev pub released_on_throw : {A : Type 0} → Ptr → Run (Service p H) A → Run (Service p H) A
  released_on_throw c (ok a s) = ok a s
  released_on_throw c (throw e s) = and_then (release c s) (λ _ t. throw e t)
  released_on_throw c abort = abort
  released_on_throw c (running s) = running s

  abbrev pub released : {A : Type 0} → Ptr → Run (Service p H) A → Run (Service p H) A
  released c (ok a s) = and_then (release c s) (λ _ t. ok a t)
  released c (throw e s) = and_then (release c s) (λ _ t. throw e t)
  released c abort = abort
  released c (running s) = running s

  -- `tag` is the `user_data` of a completion. What `io_uring_submit` returns is not used.
  unfoldable pub submit : (Ptr → p.Completion) → p.Sqe → Ptr → M p H ℕ
  submit tag sqe c s =
      let ctx = s.ctx in
      in_context s
        (State.submit (record ctx { world = p.set_user_data sqe (external (tag c)) ctx.world }))

  -- What both `initiate` do once there is a completion, and perhaps a vector: `f` fills in the entry.
  unfoldable pub launch :
      (Ptr → p.Completion)
      → (p.Sqe → Ptr → Iovs → p.World → p.World)
      → Built H
      → Ptr
      → M p H (Unit {0})
  launch tag f b c = do
    emplace c b
    sqe ← λ s. in_context s (get_sqe s.ctx)
    modify (λ s. record s { ctx = record s.ctx { world = f sqe c (s.iovs c) s.ctx.world } })
    submit tag sqe c
    pure tt

  unfoldable pub initiate :
      (Ptr → p.Completion)
      → ℕ
      → (p.Sqe → Ptr → p.World → p.World)
      → Built H
      → Allocation
      → M p H (Unit {0})
  initiate tag impl f b a = do
    c ← acquire impl a
    λ s. released_on_throw c (launch tag (λ sqe d v. f sqe d) b c s)

  unfoldable pub initiate_iovs :
      (Ptr → p.Completion)
      → (ℕ → ℕ)
      → ℕ
      → ℕ
      → (p.Sqe → Ptr → Iovs → p.World → p.World)
      → Built H
      → Allocation
      → M p H (Unit {0})
  initiate_iovs tag capacity_for impl n f b a = do
    c ← acquire impl a
    λ s. released_on_throw c (
        (do
          v ← acquire_iovs capacity_for n
          modify (λ t. record t { iovs = update t.iovs c v })
          launch tag f b c)
          s)

  abbrev pub invoked :
      (H → Cqe p.Completion → M p H (Unit {0})) → Option H → Cqe p.Completion → M p H (Unit {0})
  invoked call none cqe s = abort
  invoked call (some h) cqe s = call h cqe s

  -- `completion::complete`, with `call` for the invocation of the handler
  unfoldable pub complete :
      (H → Cqe p.Completion → M p H (Unit {0})) → Ptr → Cqe p.Completion → M p H (Unit {0})
  complete call c cqe s =
      (do
        check_that (has c s.free || has c s.in_use)
        λ t. released c (invoked call (t.wrapped c) cqe t))
        s

  unfoldable pub reset_all : List Ptr → M p H (Unit {0})
  reset_all [] s = ok tt s
  reset_all (c ∷ cs) s = (do reset c; λ t. reset_all cs t) s

  unfoldable pub shutdown : M p H (Unit {0})
  shutdown s = reset_all s.in_use s

  unfoldable pub construct : ℕ → M p H (Unit {0})
  construct impl s = check_that (empty impl s.held) s

  unfoldable pub destroy : ℕ → Service p H → Service p H
  destroy impl s = record s { held = clear impl s.held }

  unfoldable pub move_construct : ℕ → ℕ → M p H (Unit {0})
  move_construct impl src s =
      (do
        check_that (empty impl s.held)
        modify (λ t. record t { held = transfer impl src t.held }))
        s

  -- `same_service` is `this == &svc`.
  unfoldable pub move_assign : ℕ → Bool → ℕ → M p H (Unit {0})
  move_assign impl same_service src = do
    check_that same_service
    modify (destroy impl)
    move_construct impl src

  -- `destroy_list` on what is left of `free_` and of `in_use_`; `delete` unlinks from both lists.
  unfoldable pub delete_all : List Ptr → Service p H → Service p H
  delete_all [] s = s
  delete_all (c ∷ cs) s = delete_all cs (record s {
    free = erase c s.free;
    in_use = erase c s.in_use;
    held = unlink c s.held;
    allocated = erase c s.allocated;
  })

  -- `~service`
  unfoldable pub close : M p H (Unit {0})
  close s =
      (do
        modify (λ t. delete_all t.free t)
        λ t. reset_all t.in_use t
        modify (λ t. delete_all t.in_use t))
        s
