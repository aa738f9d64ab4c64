-- ===== src/Asio/Destruction.antt =====
-- The destructor of an asio::execution_context whose service has operations outstanding.
use asio_uring.Base.{
  ℕ, ◌≡◌, refl, ◌∙◌, sym, subst, ◌==◌, Bool-cases, inl, inr, Option, none, some, List, [], ◌∷◌, Sys,
  done, failed, blocks, Run, ok, throw, abort, running, Leads, ap, Leads-all, Leads-bind,
  Leads-map_state, Returns, Returns-value, returned, dec64, no_throw,
}
use asio_uring.EventfdQueue.Nodes.{Ptr}
use asio_uring.Context.Platform.{Platform, of_zero}
use asio_uring.Context.State.{Context, sys_result, eventfd_write}
use asio_uring.Context.Executor.{on_work_finished}
use asio_uring.Context.Resources.{Resources, Upto}
use asio_uring.Context.Lifecycle.{finish-Left}
use asio_uring.Service.Pool.{Service, in_context, finished}
use asio_uring.Service.Pool
use asio_uring.Service.Account.{Writes}
use asio_uring.FileObject
use asio_uring.Asio.Initiate.{Wrapper}
use asio_uring.Asio.Handler
use asio_uring.Asio.Files.{IoFile, in_file}
use asio_uring.Asio.Calls.{
  in_service, destroy, reset_completion, reset_all, shutdown, tear_down, destroy_context,
}
use asio_uring.Asio.Accounts.{Balanced}
use asio_uring.Asio.Teardown.{Silent, tear_down-Silent}

module _ {p : Platform} (r : Resources p) where
  -- The eventfds and the ring of the context exist.
  abbrev Whole : Context p → Type 0
  Whole c = Upto r 4 c.world

  written-Whole :
      (c : Context p) (x : Sys (Unit {0}) × p.World) → Upto r 4 x.1 → Leads Whole (sys_result c x)
  written-Whole c (done a, w) h = h
  written-Whole c (failed e, w) h = h
  written-Whole c (blocks, w) h = tt

  no_throw-Leads : (x : Run (Context p) (Unit {0})) → Leads Whole x → Leads Whole (no_throw x)
  no_throw-Leads (ok a s) h = h
  no_throw-Leads (throw e s) h = tt
  no_throw-Leads abort h = tt
  no_throw-Leads (running s) h = tt

  on_work_finished-Whole : (c : Context p) → Whole c → Leads Whole (on_work_finished c)
  unfolding on_work_finished eventfd_write
  on_work_finished-Whole c h = no_throw-Leads _ (elim (Bool-cases (c.work == 0)) [
    | inl z ↦ rw z tt
    | inr z ↦ elim (Bool-cases (c.work == 1)) [
      | inl one ↦
          rw (z, one)
            (written-Whole (record c { work = dec64 c.work }) (p.write_eventfd of_zero 1 c.world)
              (λ x. r.write_holds of_zero 1 c.world x ∙ h x))
      | inr more ↦ rw (z, more) h
    ]
  ])

  -- So it is with the service and with the object.
  abbrev WholeIn : Service p Wrapper → Type 0
  WholeIn t = Whole t.ctx

  abbrev WholeOf : IoFile p → Type 0
  WholeOf s = Whole s.service.ctx

  finished-WholeIn :
      (o : Option Wrapper) (c : Ptr) (t : Service p Wrapper)
      → WholeIn t
      → Leads WholeIn (finished o c t)
  finished-WholeIn none c t h = h
  finished-WholeIn (some w) c t h =
      Leads-map_state WholeIn _ (on_work_finished t.ctx) (on_work_finished-Whole t.ctx h)

  reset-WholeIn : (c : Ptr) (t : Service p Wrapper) → WholeIn t → Leads WholeIn (Pool.reset c t)
  unfolding Pool.reset
  reset-WholeIn c t h = finished-WholeIn (t.wrapped c) c t h

  delete_all-ctx : (cs : List Ptr) (t : Service p Wrapper) → (Pool.delete_all cs t).ctx ≡ t.ctx
  unfolding Pool.delete_all
  delete_all-ctx [] t = refl
  delete_all-ctx (c ∷ cs) t = delete_all-ctx cs _

  deleted-WholeIn :
      (cs : List Ptr) (t : Service p Wrapper) → WholeIn t → WholeIn (Pool.delete_all cs t)
  deleted-WholeIn cs t h = subst Whole (sym (delete_all-ctx cs t)) h

  reset_all-WholeIn :
      (cs : List Ptr) (t : Service p Wrapper) → WholeIn t → Leads WholeIn (Pool.reset_all cs t)
  unfolding Pool.reset_all
  reset_all-WholeIn [] t h = h
  reset_all-WholeIn (c ∷ cs) t h =
      Leads-bind (Pool.reset c t) _ (reset-WholeIn c t h) λ _ d k. reset_all-WholeIn cs d k

  close-WholeIn : (t : Service p Wrapper) → WholeIn t → Leads WholeIn (Pool.close t)
  unfolding Pool.close
  close-WholeIn t h =
      let d = Pool.delete_all t.free t in
      Leads-bind (Pool.reset_all d.in_use d) _
        (reset_all-WholeIn d.in_use d (deleted-WholeIn t.free t h))
        λ _ e k. deleted-WholeIn e.in_use e k

  service-WholeOf :
      (s : IoFile p) (f : Service p Wrapper → Run (Service p Wrapper) (Unit {0}))
      → Leads WholeIn (f s.service)
      → Leads WholeOf (in_service f s)
  service-WholeOf s f h = Leads-map_state WholeOf _ (f s.service) h

  file-WholeOf :
      (s : IoFile p) (f : FileObject.File → Run FileObject.File (Unit {0}))
      → WholeOf s
      → Leads WholeOf (in_file f s)
  file-WholeOf s f h = Leads-map_state WholeOf _ (f s.file) (Leads-all (f s.file) (λ t. h))

  destroy-WholeOf : (o : Option Wrapper) (s : IoFile p) → WholeOf s → Leads WholeOf (destroy o s)
  unfolding destroy Handler.discard
  destroy-WholeOf none s h = h
  destroy-WholeOf (some w) s h =
      Leads-bind (in_file (FileObject.discard w.handler) s) _
        (file-WholeOf s (FileObject.discard w.handler) h)
        λ _ d k.
          service-WholeOf d (λ t. in_context t (on_work_finished t.ctx))
            (Leads-map_state WholeIn _ (on_work_finished d.service.ctx)
              (on_work_finished-Whole d.service.ctx k))

  reset_completion-WholeOf :
      (c : Ptr) (s : IoFile p) → WholeOf s → Leads WholeOf (reset_completion c s)
  unfolding reset_completion
  reset_completion-WholeOf c s h =
      Leads-bind (destroy (s.service.wrapped c) s) _ (destroy-WholeOf (s.service.wrapped c) s h)
        λ _ d k. service-WholeOf d (Pool.reset c) (reset-WholeIn c d.service k)

  dropped_all-WholeOf : (cs : List Ptr) (s : IoFile p) → WholeOf s → Leads WholeOf (reset_all cs s)
  unfolding reset_all
  dropped_all-WholeOf [] s h = h
  dropped_all-WholeOf (c ∷ cs) s h =
      Leads-bind (reset_completion c s) _ (reset_completion-WholeOf c s h)
        λ _ d k. dropped_all-WholeOf cs d k

  tear_down-WholeOf : (s : IoFile p) → WholeOf s → Leads WholeOf (tear_down s)
  unfolding tear_down shutdown
  tear_down-WholeOf s h =
      Leads-bind (shutdown s) _ (dropped_all-WholeOf s.service.in_use s h)
        λ _ d k. service-WholeOf d Pool.close (close-WholeIn d.service k)

  -- The destructor of an asio::execution_context whose three eventfds and ring exist, on a platform
  -- that obeys its laws, where the operations of an I/O object keep their account, whether or not
  -- any are outstanding, if the write to the eventfd of `on_work_finished` succeeds: it returns; no
  -- handler holds the descriptor, which is open exactly if the object itself has it, every
  -- completion is deleted, the count of work is that of others, the queue is empty, and each of the
  -- eventfds and the ring has been closed.
  pub destroy_context-Gone :
      (base : ℕ) (s : IoFile p)
      → Writes p
      → Balanced base s
      → Upto r 4 s.service.ctx.world
      → Returns
          (λ _ d.
            Silent base d
            × (d.service.allocated ≡ [])
            × (d.service.ctx.q ≡ [])
            × Upto r 0 d.service.ctx.world)
          (destroy_context s)
  unfolding destroy_context
  destroy_context-Gone base s wr x whole =
      let (_, d, e, (silent, gone)) = Returns-value (tear_down-Silent base s wr x) in
      let left : Leads WholeOf (ok tt d) = subst (Leads WholeOf) e (tear_down-WholeOf s whole) in
      let (shared, empty, count, work) = silent in
      let (_, c, f, (same, none_left)) = Returns-value (finish-Left r d.service.ctx left) in
      rw e (
        rw f (
          returned (
            (shared, empty, count, ap (λ a. a.work) same ∙ work),
            gone,
            ap (λ a. a.q) same,
            none_left,
          )))
