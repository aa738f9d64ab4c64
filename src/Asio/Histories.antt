-- ===== src/Asio/Histories.antt =====
-- Any sequence of events of an I/O object, and the end of its execution context.
use asio_uring.Base.{◌≡◌, subst, ℕ, Exception, [], ok, throw, Returns, Post, Safe-Post}
use asio_uring.Context.Platform.{Platform}
use asio_uring.Service.Account.{Writes}
use asio_uring.Asio.Initiate.{Preps}
use asio_uring.Asio.Files.{IoFile}
use asio_uring.Asio.Calls.{Environment, Event, exec, tear_down}
use asio_uring.Asio.Accounts.{Balanced, Respects}
use asio_uring.Asio.Events.{Valid, exec-Balanced}
use asio_uring.Asio.Teardown.{Silent, tear_down-Silent}

-- The states that events lead to, each of which may return or throw
pub data Reach {p : Platform} (l : Preps p) (v : Environment p) (s : IoFile p)
    : IoFile p → Type 0 where
  here : Reach l v s s
  returning :
      {t u : IoFile p} (e : Event p)
      → Reach l v s t
      → Valid v e t
      → exec l v e t ≡ ok tt u
      → Reach l v s u
  throwing :
      {t u : IoFile p} (e : Event p) (x : Exception)
      → Reach l v s t
      → Valid v e t
      → exec l v e t ≡ throw x u
      → Reach l v s u

module _ {p : Platform} (l : Preps p) (v : Environment p) (base : ℕ) where
  pub Reach-Balanced :
      {s d : IoFile p}
      → Writes p
      → Respects base v
      → Balanced base s
      → Reach l v s d
      → Balanced base d
  Reach-Balanced wr keeps x here = x
  Reach-Balanced wr keeps x (returning {t} e r valid eq) =
      subst (Post (λ _ d. Balanced base d) (Balanced base)) eq
        (Safe-Post (exec-Balanced l v base e t wr keeps valid (Reach-Balanced wr keeps x r)))
  Reach-Balanced wr keeps x (throwing {t} e y r valid eq) =
      subst (Post (λ _ d. Balanced base d) (Balanced base)) eq
        (Safe-Post (exec-Balanced l v base e t wr keeps valid (Reach-Balanced wr keeps x r)))

  -- After any sequence of the events of `exec-Balanced`, each of which may return or throw, from a
  -- state where the operations of an I/O object keep their account: when the service is shut down
  -- and deleted, with operations outstanding or not, this returns; no handler holds the descriptor,
  -- which is open exactly if the object itself has it, every completion is deleted, and the count
  -- of work is that of others alone.
  pub Reach-Silent :
      (s d : IoFile p)
      → Writes p
      → Respects base v
      → Balanced base s
      → Reach l v s d
      → Returns (λ _ f. Silent base f × (f.service.allocated ≡ [])) (tear_down d)
  Reach-Silent s d wr keeps x r = tear_down-Silent base d wr (Reach-Balanced wr keeps x r)
