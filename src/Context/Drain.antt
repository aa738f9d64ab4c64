-- ===== src/Context/Drain.antt =====
-- How `run` ends where there is no other work and the callables leave the account of the context alone.
use asio_uring.Base.{
  ℕ, suc, ◌+◌, ◌<◌, ◌≡◌, refl, Bool, true, false, not, ◌||◌, ◌==◌, leb, Option, none, some, List,
  [], ◌∷◌, length, Sys, done, Run, ok, Returns, returned, Returns-value, arith, add64, dec64,
  word_mod, ap, sym, subst, ==_refl, ◌∙◌,
}
use asio_uring.Context.Platform.{Platform, Laws, Cqe, internal, of_queue}
use asio_uring.Context.State.{
  Context, stopped, out_of_work, sys_result, sqe_result, get_sqe, submit, prep, restart_if,
  restart_poll, eventfd_read,
}
use asio_uring.Context.Executor.{User, is_thread}
use asio_uring.Context.Loop.{
  handled, call, consume, service_queue, handle_queue, handle_cqe, await_cqe, impl, all_loop,
  all_impl, run, leave, tid_guard,
}

-- A callable that is quiet returns, and changes nothing that the context keeps account of.
abbrev pub Quiet : {p : Platform} → User p → Type 0
Quiet {p} u =
    (h : p.Handler) (c : Context p)
    → Returns (λ _ d. (w : p.World) × (d ≡ record c { world = w })) (u.invoke h c)

-- The ring hands out the entry of the queue, whose eventfd can be read; and it has room for a poll.
pub record Serves (p : Platform) (n : ℕ) (w : p.World) : Type 0 where
  pub entry :
      (cqe : Cqe p.Completion) × ((p.wait_cqe w).0 ≡ done cqe) × (cqe.user_data ≡ internal of_queue)
  pub readable : (m : ℕ) × ((p.read_eventfd of_queue (p.wait_cqe w).1).0 ≡ done m)
  pub counted : p.count w of_queue ≡ n
  pub room : (v : p.World) → (sqe : p.Sqe) × ((p.take_sqe v).0 ≡ some sqe)
  pub accepted : (v : p.World) → (m : ℕ) × ((p.submit v).0 ≡ done m)

module _ {p : Platform} where
  -- `n` callables are pending, and there is no other work.
  abbrev pub loaded : List p.Handler → ℕ → p.World → Context p → Context p
  loaded hs n w c = record c { q = hs; pending = n; work = n; world = w }

  call-Quiet :
      (u : User p) (h : p.Handler) (retr : Bool) (hs : List p.Handler) (n : ℕ) (w : p.World)
      (c : Context p)
      → Quiet u
      → n + 1 < word_mod
      → (v : p.World) × (call u h retr (loaded hs (suc n) w c)
          ≡ ok (retr || (n == 0)) (loaded hs n v c))
  unfolding call
  call-Quiet u h retr hs n w c quiet room =
      let down : dec64 (suc n) ≡ n = omega arith in
      let (_, d, e, (v, same)) = Returns-value (quiet h (loaded hs n w c)) in
      let works : (suc n == 0) ≡ false = ground arith in
      let one : (suc n == 1) ≡ (n == 0) = ground arith in (v, rw (down, works, one, e, same) refl)

  consume-all :
      (u : User p) (hs : List p.Handler) (retr : Bool) (w : p.World) (c : Context p)
      → Quiet u
      → length hs < word_mod
      → (v : p.World) × (consume u (length hs) retr (loaded hs (length hs) w c)
          ≡ ok (retr || not (length hs == 0)) (loaded [] 0 v c))
  unfolding consume
  consume-all u [] retr w c quiet room = (w, ap (λ b. ok b (loaded [] 0 w c)) (ground arith))
  consume-all u (h ∷ hs) retr w c quiet room =
      let (v, e) = call-Quiet u h retr hs (length hs) w c quiet (omega arith) in
      let (x, f) = consume-all u hs (retr || (length hs == 0)) v c quiet (omega arith) in
      (x, rw (e, f) (ap (λ b. ok b (loaded [] 0 x c)) (ground arith)))

  -- A context that is not stopped: `hs` have been posted, `n` of them are pending, and there is
  -- no other work. `b` says whether the poll of the queue is registered.
  abbrev pub posted : Bool → Option ℕ → List p.Handler → ℕ → p.World → Context p
  posted b t hs n w = record {
    q = hs;
    q_started = b;
    pending = n;
    stop_started = true;
    zero_started = true;
    work = length hs;
    stopped_flag = false;
    tid = t;
    world = w;
  }

  done-result :
      {A : Type 0} (c : Context p) (x : Sys A × p.World) (a : A)
      → x.0 ≡ done a
      → sys_result c x ≡ ok a (record c { world = x.1 })
  done-result c (r, w) a e = rw e refl

  took-result :
      (c : Context p) (x : Option p.Sqe × p.World) (a : p.Sqe)
      → x.0 ≡ some a
      → sqe_result c x ≡ ok a (record c { world = x.1 })
  took-result c (r, w) a e = rw e refl

  -- The callable at the front runs.
  service-one :
      (u : User p) (h : p.Handler) (hs : List p.Handler) (t : Option ℕ) (w : p.World)
      → Quiet u
      → suc (length hs) < word_mod
      → (v : p.World) × (service_queue u 1 (posted false t (h ∷ hs) (suc (length hs)) w)
          ≡ ok (length hs == 0) (posted false t hs (length hs) v))
  unfolding service_queue consume
  service-one u h hs t w quiet room =
      let (v, e) =
        call-Quiet u h false hs (length hs) w (posted false t [] 0 w) quiet (omega arith) in
      let fits : leb 1 (suc (length hs)) ≡ true = ground arith in (v, rw (fits, e) refl)

  impl-one :
      (l : Laws p) (u : User p) (h : p.Handler) (hs : List p.Handler) (t : Option ℕ) (w : p.World)
      → Quiet u
      → ((c : Context p) → u.others c ≡ c)
      → suc (length hs) < word_mod
      → Serves p (suc (length hs)) w
      → (v : p.World) × (impl u true (posted true t (h ∷ hs) 0 w)
          ≡ ok (handled 1 (length hs == 0)) (posted false t hs (length hs) v))
  unfolding impl await_cqe handle_cqe handle_queue stopped eventfd_read
  impl-one l u h hs t w quiet alone room s =
      let (cqe, got, of) = s.entry in
      let (m, reads) = s.readable in
      let counts = l.read_done of_queue (p.wait_cqe w).1 m of_queue reads in
      let n : m ≡ suc (length hs) = counts.0 ∙ l.wait_counts w of_queue ∙ s.counted in
      let reads' : (p.read_eventfd of_queue (p.wait_cqe w).1).0 ≡ done (suc (length hs)) =
        reads ∙ ap done n in
      let some_left : (suc (length hs) == 0) ≡ false = ground arith in
      let total : add64 0 (suc (length hs)) ≡ suc (length hs) = omega arith in
      let (v, e) = service-one u h hs t (p.read_eventfd of_queue (p.wait_cqe w).1).1 quiet room in
      (
        p.cqe_seen cqe v,
        rw
            (
              alone (posted true t (h ∷ hs) 0 w),
              done-result (posted true t (h ∷ hs) 0 w) (p.wait_cqe w) cqe got,
              of,
              done-result (posted false t (h ∷ hs) 0 (p.wait_cqe w).1)
                  (p.read_eventfd of_queue (p.wait_cqe w).1) (suc (length hs)) reads',
              some_left,
              total,
              e,
            )
            refl,
      )

  restart-one :
      (hs : List p.Handler) (n k : ℕ) (t : Option ℕ) (v w : p.World)
      → Serves p k v
      → (x : p.World) × (restart_if of_queue (posted false t hs n w) ≡ ok tt (posted true t hs n x))
  unfolding restart_if restart_poll get_sqe submit
  restart-one hs n k t v w s =
      let (sqe, took) = s.room w in
      let x = prep p of_queue sqe (p.take_sqe w).1 in
      let (m, went) = s.accepted x in
      (
        (p.submit x).1,
        rw
            (
              took-result (posted false t hs n w) (p.take_sqe w) sqe took,
              done-result (posted false t hs n x) (p.submit x) m went,
            )
            refl,
      )

  -- A round that finds all that is left pending is the last.
  last-round :
      (u : User p) (hs : List p.Handler) (fuel k : ℕ) (t : Option ℕ) (w : p.World)
      → Quiet u
      → 0 < length hs
      → length hs < word_mod
      → k + length hs < word_mod
      → (v : p.World) × (all_loop u true (suc fuel) k (posted true t hs (length hs) w)
          ≡ ok (k + length hs) (record (posted true t [] 0 v) { stopped_flag = true }))
  unfolding all_loop service_queue stopped
  last-round u hs fuel k t w quiet pos room fits =
      let (v, e) = consume-all u hs false w (posted true t [] 0 w) quiet room in
      let enough : leb (length hs) (length hs) ≡ true = ground arith in
      let some_left : (length hs == 0) ≡ false = ground arith in
      let total : add64 k (length hs) ≡ k + length hs = omega arith in
      (v, rw (enough, e, some_left, total) refl)

  -- Nothing is left of `n` callables, and the loop has ended.
  abbrev pub Drained : ℕ → ℕ → Context p → Type 0
  Drained n handlers d =
      (handlers ≡ n)
      × (d.q ≡ [])
      × (d.pending ≡ 0)
      × (d.work ≡ 0)
      × (d.stopped_flag ≡ true)
      × (d.tid ≡ none)

  loop-drains :
      (l : Laws p) (u : User p) (hs : List p.Handler) (fuel thread : ℕ) (w : p.World)
      → Quiet u
      → ((c : Context p) → u.others c ≡ c)
      → 0 < length hs
      → length hs < word_mod
      → Serves p (length hs) w
      → Returns
          (λ n d. Drained (length hs) n (record d { tid = none }) × (d.tid ≡ some thread))
          (all_loop u true (suc (suc fuel)) 0 (posted true (some thread) hs 0 w))
  unfolding all_loop service_queue stopped consume
  loop-drains l u [] fuel thread w quiet alone pos room s = absurd (omega arith)
  loop-drains l u (h ∷ []) fuel thread w quiet alone pos room s =
      let (v, e) = impl-one l u h [] (some thread) w quiet alone (omega arith) s in
      rw e (returned ((refl, refl, refl, refl, refl, refl), refl))
  loop-drains l u (h ∷ i ∷ hs) fuel thread w quiet alone pos room s =
      let (v, e) = impl-one l u h (i ∷ hs) (some thread) w quiet alone (omega arith) s in
      let (x, f) = restart-one (i ∷ hs) (suc (length hs)) _ (some thread) w v s in
      let (y, g) =
        last-round u (i ∷ hs) fuel 1 (some thread) x quiet (omega arith) (omega arith)
          (omega arith) in
      let more : (suc (length hs) == 0) ≡ false = ground arith in
      rw (e, more, f)
        (subst (Returns _) (sym g) (returned ((omega arith, refl, refl, refl, refl, refl), refl)))

  -- `run` in a context that is not stopped, on whose queue callables have been posted, at least one
  -- and fewer than 2 ^ 64, with no other work and no other thread, where every callable returns
  -- without changing the account of the context, and the ring hands out the entry of the queue,
  -- whose eventfd can be read and counts the callables, and takes a poll: with fuel for two rounds
  -- it returns their number, the queue is empty, no work is left, the context is stopped and no
  -- thread is in it.
  pub run-drains :
      (l : Laws p) (u : User p) (hs : List p.Handler) (fuel thread : ℕ) (w : p.World)
      → Quiet u
      → ((c : Context p) → u.others c ≡ c)
      → 0 < length hs
      → length hs < word_mod
      → Serves p (length hs) w
      → Returns (Drained (length hs)) (run u thread (suc (suc fuel)) (posted true none hs 0 w))
  unfolding run all_impl tid_guard stopped out_of_work
  run-drains l u hs fuel thread w quiet alone pos room s =
      let works : (length hs == 0) ≡ false = ground arith in
      rw works (left (loop-drains l u hs fuel thread w quiet alone pos room s))
    where
      left :
          {r : Run (Context p) ℕ}
          → Returns
              (λ n d. Drained (length hs) n (record d { tid = none }) × (d.tid ≡ some thread))
              r
          → Returns (Drained (length hs)) (leave thread r)
      left (returned {s = d} (x, e)) =
          let same : is_thread d.tid thread ≡ true =
            ap (λ o. is_thread o thread) e ∙ ==_refl thread in
          simp same (returned x)
