-- ===== src/Context/Invariant.antt =====
-- The account that a context keeps: of the callables in its queue against the counter of the
-- eventfd, and of the work that is outstanding.
use asio_uring.Base.{
  ◌+◌, ◌≤◌, ◌<◌, ◌≡◌, refl, [], ◌∷◌, done, ok, length, word_mod, arith, Safe, length-append,
}
use asio_uring.Context.Platform.{Platform, Laws, Cqe, Internal, of_queue, of_zero}
use asio_uring.Context.State.{Context, eventfd_write}
use asio_uring.Context.Executor.{User, on_work_started, on_work_finished, emplace, post}

-- Each callable that the counter or `pending` stands for is in the queue; each callable in the
-- queue and each operation in flight holds a unit of work; and the count of work has not wrapped.
pub record Inv {p : Platform} (c : Context p) : Type 0 where
  pub counted : p.count c.world of_queue + c.pending ≤ length c.q
  pub held : length c.q + p.in_flight c.world ≤ c.work
  pub room : c.work < word_mod

-- What only the loop itself writes.
pub record Kept {p : Platform} (c d : Context p) : Type 0 where
  pub q_same : d.q_started ≡ c.q_started
  pub stop_same : d.stop_started ≡ c.stop_started
  pub zero_same : d.zero_started ≡ c.zero_started
  pub flag_same : d.stopped_flag ≡ c.stopped_flag
  pub tid_same : d.tid ≡ c.tid
  pub pending_same : d.pending ≡ c.pending

-- A call by a callable, a completion or another thread, other than `stop`: the write to the queue's
-- eventfd succeeds, the count of work does not wrap, a unit of work is finished by one who holds it,
-- and an operation is submitted on a unit of work that no other holds.
pub data Step {p : Platform} (c d : Context p) : Type 0 where
  posts :
      (h : p.Handler)
      → c.work + 1 < word_mod
      → (p.write_eventfd of_queue 1 (p.allocate c.world).1).0 ≡ done tt
      → post h c ≡ ok tt d
      → Step c d
  starts : c.work + 1 < word_mod → d ≡ on_work_started c → Step c d
  finishes : length c.q + p.in_flight c.world < c.work → on_work_finished c ≡ ok tt d → Step c d
  submits :
      (w : p.World)
      → ((i : Internal) → p.count w i ≡ p.count c.world i)
      → length c.q + p.in_flight w ≤ c.work
      → d ≡ record c { world = w }
      → Step c d

pub data Steps {p : Platform} (c : Context p) : Context p → Type 0 where
  here : Steps c c
  next : {d e : Context p} → Steps c d → Step d e → Steps c e

-- What user code is trusted with: it reaches the context by those calls alone.
pub record Contract {p : Platform} (u : User p) : Type 0 where
  pub invoke_Steps :
      (h : p.Handler) (c : Context p)
      → Inv c
      → c.work + 1 < word_mod
      → Safe (λ _ d. Steps c d) (λ d. Steps c d) (u.invoke h c)
  pub complete_Steps :
      (x : p.Completion) (cqe : Cqe p.Completion) (c : Context p)
      → Inv c
      → length c.q + p.in_flight c.world < c.work
      → Safe (λ _ d. Steps c d) (λ d. Steps c d) (u.complete x cqe c)
  pub others_Steps : (c : Context p) → Inv c → Steps c (u.others c)

module _ {p : Platform} (l : Laws p) where
  post-Inv :
      (h : p.Handler) {c d : Context p}
      → Inv c
      → c.work + 1 < word_mod
      → (p.write_eventfd of_queue 1 (p.allocate c.world).1).0 ≡ done tt
      → post h c ≡ ok tt d
      → Inv d × Kept c d
  unfolding post emplace on_work_started on_work_finished eventfd_write
  post-Inv h {c} {d} inv room wrote e =
      let w = (p.allocate c.world).1 in
      ground (
        arith,
        (l.allocate_same c.world).counts of_queue,
        (l.allocate_same c.world).flights,
        l.write_done of_queue 1 w of_queue,
        l.write_done of_zero 1 w of_queue,
        l.write_flights of_queue 1 w,
        l.write_flights of_zero 1 w,
        length-append c.q (h ∷ []),
      )

  starts-Inv :
      {c d : Context p} → Inv c → c.work + 1 < word_mod → d ≡ on_work_started c → Inv d × Kept c d
  unfolding on_work_started
  starts-Inv {c} {d} inv room e = ground arith

  finishes-Inv :
      {c d : Context p}
      → Inv c
      → length c.q + p.in_flight c.world < c.work
      → on_work_finished c ≡ ok tt d
      → Inv d × Kept c d
  unfolding on_work_finished eventfd_write
  finishes-Inv {c} {d} inv less e =
      ground (arith, l.write_flights of_zero 1 c.world, l.write_done of_zero 1 c.world of_queue)

  submits-Inv :
      {c d : Context p} (w : p.World)
      → Inv c
      → p.count w of_queue ≡ p.count c.world of_queue
      → length c.q + p.in_flight w ≤ c.work
      → d ≡ record c { world = w }
      → Inv d × Kept c d
  submits-Inv {c} {d} w inv same le e = ground arith

  -- Each call keeps the account, and leaves the loop's own fields alone.
  pub Step-Inv : {c d : Context p} → Step c d → Inv c → Inv d × Kept c d
  Step-Inv (posts h room wrote e) inv = post-Inv h inv room wrote e
  Step-Inv (starts room e) inv = starts-Inv inv room e
  Step-Inv (finishes less e) inv = finishes-Inv inv less e
  Step-Inv (submits w same le e) inv = submits-Inv w inv (same of_queue) le e

  -- On a platform that obeys its laws, any sequence of posts for which the count of work has room
  -- and whose write to the eventfd of the queue succeeds, starts of work for which it has room,
  -- finishes of a unit of work while the count is more than the queued callables and the operations
  -- in flight, and submissions that touch no counter and leave the queued callables and the
  -- operations in flight covered by the count of work: from a state whose account is right (as for
  -- `all_impl-Safe`), the account is right after it, and the flags, the pending count and the
  -- thread of the context are as they were.
  pub Steps-Inv : {c d : Context p} → Steps c d → Inv c → Inv d × Kept c d
  Steps-Inv here inv = (
    inv,
    record {
      q_same = refl;
      stop_same = refl;
      zero_same = refl;
      flag_same = refl;
      tid_same = refl;
      pending_same = refl;
    },
  )
  Steps-Inv (next {d} {e} s st) inv =
      let (i, k) = Steps-Inv s inv in let (j, m) = Step-Inv st i in (j, ground arith)
