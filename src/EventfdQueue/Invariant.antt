-- ===== src/EventfdQueue/Invariant.antt =====
-- The account of a queue between the parts that its threads do, whatever they do next.
use asio_uring.Base.{
  ℕ, zero, suc, ◌+◌, ◌≤◌, ◌≡◌, refl, List, [], ◌∷◌, ◌++◌, length, length-append, replicate, arith,
  Exception, ok, throw, Safe, subst, sym, ap, ◌∙◌,
}
use asio_uring.EventfdQueue.Nodes.{Ptr, Queue, Allocation, Built, construct, recycle}
use asio_uring.EventfdQueue.Chains.{times, times-append}
use asio_uring.EventfdQueue.Laws.{Among, Fresh}
use asio_uring.EventfdQueue.Threads.{
  Producer, Consumer, ready, busy, idle, got, filled, linked, advance, proceed, System, given,
  taken, Step, produce, fail, take, unwritten, escape, init, Reach, start, later,
}
use asio_uring.EventfdQueue.Parts.{
  hand, consumer_hand, Fine, ConsumerFine, owed, rounds, Advanced, Failed, Proceeded,
  advance-Advanced, proceed-Proceeded,
}
use mathlib.Core.List.{append_assoc, append-nil}
use asio_uring.EventfdQueue.Hands.{
  hands_of, debts, AllFine, times-hands, debts-append, split-Fine, join-Fine, Same, all-Fine,
  Among-times, Safe-ok, Safe-threw,
}

no_more : (k : ℕ) → k ≡ 0 → 0 ≡ 0 + 0 + k
no_more k e = omega arith

-- The values that are in the queue, the nodes, and the account of the eventfd
pub record Inv {T : Type 0} (s : System T) : Type 0 where
  pub values : List T
  pub among : Among (consumer_hand s.consumer ++ hands_of s.producers) s.queue values
  pub fine : AllFine s.queue s.producers
  pub consumer_fine : ConsumerFine s.consumer
  pub ordered : s.popped ++ values ≡ s.pushed
  pub counted : s.queue.world + rounds s.consumer + debts s.producers ≤ length values

module _ {T : Type 0} where
  idle-all :
      (q : Queue T ℕ) (n : ℕ)
      → ((z : Ptr) → times z (hands_of {T = T} (replicate n idle)) ≡ 0)
        × AllFine q (replicate n idle)
        × (debts {T = T} (replicate n idle) ≡ 0)
  idle-all q zero = (λ z. refl, tt, refl)
  idle-all q (suc n) = let (a, b, c) = idle-all q n in (a, (tt, b), omega (arith, c))

  init-Inv : (n : ℕ) → Inv (init T n)
  unfolding construct
  init-Inv n =
      let (no_hands, all_fine, no_debts) = idle-all (construct 0) n in
      record {
        values = [];
        among = (
          [],
          [],
          record {
            queued = refl;
            ends = refl;
            pool = refl;
            holds = tt;
            placed = λ z. no_more (times z (hands_of {T = T} (replicate n idle))) (no_hands z);
            once = λ z. omega arith;
          },
        );
        fine = all_fine;
        consumer_fine = tt;
        ordered = refl;
        counted = omega (arith, no_debts);
      }

  -- The hands of all but one producer
  abbrev pub others : System T → List (Producer T) → List (Producer T) → List Ptr
  others s before after = consumer_hand s.consumer ++ (hands_of before ++ hands_of after)

  regroup :
      (z : Ptr) (s : System T) (before after : List (Producer T)) (x : Producer T)
      → times z (consumer_hand s.consumer ++ hands_of (before ++ x ∷ after))
        ≡ times z (hand x ++ others s before after)
  regroup z s before after x = omega (
    arith,
    times-append z (consumer_hand s.consumer) (hands_of (before ++ x ∷ after)),
    times-hands z before after x,
    times-append z (hand x) (others s before after),
    times-append z (consumer_hand s.consumer) (hands_of before ++ hands_of after),
    times-append z (hands_of before) (hands_of after),
  )

  in_others :
      (z : Ptr) (s : System T) (before after : List (Producer T))
      → (times z (hands_of before) ≤ times z (others s before after))
        × (times z (hands_of after) ≤ times z (others s before after))
  in_others z s before after =
      let e = times-append z (consumer_hand s.consumer) (hands_of before ++ hands_of after) in
      let f = times-append z (hands_of before) (hands_of after) in
      (omega (arith, e, f), omega (arith, e, f))

  pub producer-Safe :
      (s : System T) (before after : List (Producer T)) (x : Producer T) (a : Allocation)
      (b : Built T) (i : Inv s)
      → s.producers ≡ before ++ x ∷ after
      → Fresh a s.queue
      → Safe
          (Advanced (others s before after) i.values x s.queue)
          (Failed (others s before after) i.values s.queue)
          (advance a b x s.queue)
  producer-Safe s before after x a b i e new =
      let (_, f, _) = split-Fine s.queue before after x (subst (AllFine s.queue) e i.fine) in
      advance-Advanced a b x s.queue i.values (others s before after)
        (Among-times _ _ s.queue i.values
          (λ z.
            ap (λ l. times z (consumer_hand s.consumer ++ hands_of l)) e
            ∙ regroup z s before after x)
          i.among)
        f new

  pub consumer-Safe :
      (s : System T) (i : Inv s)
      → Safe
          (Proceeded (hands_of s.producers) i.values s.consumer s.queue)
          (λ d. ⊥)
          (proceed s.consumer s.queue)
  consumer-Safe s i =
      proceed-Proceeded s.consumer s.queue i.values (hands_of s.producers) i.among i.consumer_fine
        (omega (arith, i.counted))

  -- Another state of one producer, with the nodes of the others as they were
  rejoin :
      (s : System T) (before after : List (Producer T)) (x y : Producer T) (d : Queue T ℕ)
      → s.producers ≡ before ++ x ∷ after
      → AllFine s.queue s.producers
      → Same (others s before after) s.queue d
      → Fine d y
      → AllFine d (before ++ y ∷ after)
  rejoin s before after x y d e f k g =
      let (b, _, a) = split-Fine s.queue before after x (subst (AllFine s.queue) e f) in
      join-Fine d before after y
        (all-Fine (others s before after) s.queue d before k (λ z. (in_others z s before after).0)
          b)
        g
        (all-Fine (others s before after) s.queue d after k (λ z. (in_others z s before after).1) a)

  threw-owed :
      (a : Allocation) (b : Built T) (x : Producer T) (q d : Queue T ℕ) (e : Exception)
      → advance a b x q ≡ throw e d
      → owed x ≡ 0
  unfolding advance
  threw-owed a b idle q d e h = refl
  threw-owed a b (got p) q d e h = refl
  threw-owed a b (filled p v) q d e h = refl
  threw-owed a b linked q d e h = absurd cc

  take-Inv :
      {s : System T} {y : Consumer T} {d : Queue T ℕ}
      → Inv s
      → proceed s.consumer s.queue ≡ ok y d
      → Inv (record s { queue = d; consumer = y; popped = s.popped ++ taken y })
  take-Inv {s} {y} {d} i h =
      let r = Safe-ok (consumer-Safe s i) h in
      record {
        values = r.left;
        among = r.among;
        fine =
            all-Fine (hands_of s.producers) s.queue d s.producers (r.next_same, r.storage_same)
              (λ z. omega arith) i.fine;
        consumer_fine = r.fine;
        ordered =
            append_assoc s.popped (taken y) r.left
            ∙ ap (λ l. s.popped ++ l) (sym r.first)
            ∙ i.ordered;
        counted =
            omega (arith, i.counted, r.counted, ap length r.first, length-append (taken y) r.left);
      }

  proceed-recycle :
      (s : System T) (n : ℕ) (p : Ptr) (v : T) (d : Queue T ℕ)
      → s.consumer ≡ busy n p v
      → recycle p s.queue ≡ ok tt d
      → proceed s.consumer s.queue ≡ ok (ready n) d
  unfolding proceed
  proceed-recycle s n p v d e h = rw e (rw h refl)

  Step-Inv : {s t : System T} → Inv s → Step s t → Inv t
  Step-Inv {s} i (produce before after x a b {y} {d} e new h) =
      let r = Safe-ok (producer-Safe s before after x a b i e new) h in
      record {
        values = i.values ++ given x;
        among =
            Among-times _ _ d (i.values ++ given x) (λ z. sym (regroup z s before after y)) r.among;
        fine = rejoin s before after x y d e i.fine (r.next_same, r.storage_same) r.fine;
        consumer_fine = i.consumer_fine;
        ordered = sym (append_assoc s.popped i.values (given x)) ∙ ap (λ l. l ++ given x) i.ordered;
        counted = omega (
          arith,
          i.counted,
          r.counted,
          ap debts e,
          debts-append before after x,
          debts-append before after y,
          length-append i.values (given x),
        );
      }
  Step-Inv {s} i (fail before after x a b {e = ex} {d} e new h) =
      let (m, k) = Safe-threw (producer-Safe s before after x a b i e new) h in
      record {
        values = i.values;
        among = Among-times _ _ d i.values (λ z. sym (regroup z s before after idle)) m;
        fine = rejoin s before after x idle d e i.fine (k.next_same, k.storage_same) tt;
        consumer_fine = i.consumer_fine;
        ordered = i.ordered;
        counted = omega (
          arith,
          i.counted,
          k.world_same,
          ap debts e,
          debts-append before after x,
          debts-append before after idle,
          threw-owed a b x s.queue d ex h,
        );
      }
  Step-Inv {s} i (unwritten before after e) =
      let same : AllFine s.queue (before ++ linked ∷ after) = subst (AllFine s.queue) e i.fine in
      let (b, _, a) = split-Fine s.queue before after linked same in
      record {
        values = i.values;
        among =
            Among-times _ _ s.queue i.values
              (λ z.
                ap (λ l. times z (consumer_hand s.consumer ++ hands_of l)) e
                ∙ regroup z s before after linked
                ∙ sym (regroup z s before after idle))
              i.among;
        fine = join-Fine s.queue before after idle b tt a;
        consumer_fine = i.consumer_fine;
        ordered = i.ordered;
        counted = omega (
          arith,
          i.counted,
          ap debts e,
          debts-append before after linked,
          debts-append before after idle,
        );
      }
  Step-Inv {s} i (escape {n} {p} {v} {d} e h) =
      let j = take-Inv i (proceed-recycle s n p v d e h) in
      record {
        values = j.values;
        among = j.among;
        fine = j.fine;
        consumer_fine = tt;
        ordered = ap (λ l. l ++ j.values) (sym (append-nil s.popped)) ∙ j.ordered;
        counted = omega (arith, j.counted);
      }
  Step-Inv i (take h) = take-Inv i h

  pub Reach-Inv : {n : ℕ} {s : System T} → Reach n s → Inv s
  Reach-Inv {n} start = init-Inv n
  Reach-Inv (later r st) = Step-Inv (Reach-Inv r) st
