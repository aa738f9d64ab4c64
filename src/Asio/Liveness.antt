-- ===== src/Asio/Liveness.antt =====
-- The loop is woken when the last operation of an I/O object is over, whatever has happened before.
use asio_uring.Base.{
  ℕ, ◌≡◌, true, subst, arith, List, Run, Leads, Leads-all, Leads-map_state, Safe, returns, throws,
  waits,
}
use asio_uring.Context.Platform.{Platform, Laws}
use asio_uring.Service.Account.{Writes}
use asio_uring.FileObject.{reset}
use asio_uring.Asio.Initiate.{Preps, Start}
use asio_uring.Asio.Guarantee.{Ready}
use asio_uring.Asio.Files.{IoFile, Op, in_file, kind_of}
use asio_uring.Asio.Files
use asio_uring.Asio.Operations.{exec-Held}
use asio_uring.Asio.Calls.{Environment, Event, begins, completes, resets, exec}
use asio_uring.Asio.Accounts.{Account, Balanced, Respects}
use asio_uring.Asio.Events.{Valid}
use asio_uring.Asio.Histories.{Reach, here, returning, throwing, Reach-Balanced}
use asio_uring.Asio.Waking.{AwakeOf, Wakeful, Woken, Awake-Woken, complete-Awake}
use asio_uring.Asio.Failures.{Thrown, exec-Thrown}

Thrown-Leads :
    {S A : Type 0} {P : A → S → Type 0} {Q K : S → Type 0} {r : Run S A}
    → Safe P Q r
    → ((a : A) (s : S) → P a s → K s)
    → Thrown K r
    → Leads K r
Thrown-Leads (returns {a} {s} h) k t = k a s h
Thrown-Leads (throws h) k t = t
Thrown-Leads waits k t = t

module _ {p : Platform} (l : Laws p) (wr : Writes p) where
  -- An operation that is begun has work, and one that is not has given it back.
  pub begins-Awake :
      (q : Preps p) (x : Start p) (k : Op) (locals h : ℕ) (running : List ℕ) (s : IoFile p)
      → Account 0 0 locals running s
      → Ready x s.service
      → s.file.attached ≡ true
      → Leads (AwakeOf l wr) (Files.exec q x k h s)
  begins-Awake q x k locals h running s y ready a =
      Thrown-Leads (exec-Held q x k h s ready y.shared a)
        (λ _ d (file, holds, (c, sound, i, e, at, more, others)).
          (sound.room, λ z. absurd (omega (arith, z, more))))
        (exec-Thrown l wr q x k h s ready a)

  exec-Awake :
      (q : Preps p) (v : Environment p) (e : Event p) (s : IoFile p)
      → Wakeful l wr v
      → Valid v e s
      → Balanced 0 s
      → AwakeOf l wr s
      → Leads (AwakeOf l wr) (exec q v e s)
  unfolding exec
  exec-Awake q v (begins x k h) s keeps (ready, a) y m = begins-Awake q x k 0 h _ s y ready a
  exec-Awake q v (completes c cqe) s keeps (w, st, inside) y m =
      complete-Awake l wr v c w cqe s keeps inside y st
  exec-Awake q v resets s keeps valid y m =
      Leads-map_state (AwakeOf l wr) _ (reset s.file) (Leads-all (reset s.file) (λ f. m))

  module _ (q : Preps p) (v : Environment p) (keeps : Respects 0 v) (awake : Wakeful l wr v) where
    Reach-Awake : {s d : IoFile p} → Balanced 0 s → AwakeOf l wr s → Reach q v s d → AwakeOf l wr d
    Reach-Awake x m here = m
    Reach-Awake x m (returning {t} e r valid eq) =
        subst (Leads (AwakeOf l wr)) eq
          (exec-Awake q v e t awake valid (Reach-Balanced q v 0 wr keeps x r) (Reach-Awake x m r))
    Reach-Awake x m (throwing {t} e y r valid eq) =
        subst (Leads (AwakeOf l wr)) eq
          (exec-Awake q v e t awake valid (Reach-Balanced q v 0 wr keeps x r) (Reach-Awake x m r))

    -- After any sequence of the events of `exec-Balanced`, each of which may return or throw, on a
    -- platform that obeys its laws, where the write to the eventfd of `on_work_finished` succeeds
    -- and no one else has work, with handlers that keep the account and that do not, whether they
    -- return or throw, leave the count of work at 0 without that eventfd having been written, from
    -- a state that keeps the account and is not left so itself: the account is kept, and if then no
    -- operation is left, there is no work left, and the eventfd whose poll ends the loop can be
    -- read.
    pub Reach-Woken :
        (s d : IoFile p) → Balanced 0 s → AwakeOf l wr s → Reach q v s d → Woken l wr d
    Reach-Woken s d x m r =
        Awake-Woken l wr d (Reach-Balanced q v 0 wr keeps x r) (Reach-Awake x m r)
