-- ===== src/Context/Executor.antt =====
-- `executor_type`, `stop`, and what a callable or another thread may do through them.
use asio_uring.Base.{
  ℕ, ◌==◌, Bool, true, false, not, if◌then◌else◌, Option, none, some, [], ◌∷◌, ◌++◌, bad_alloc, ok,
  throw, ◌>>◌, pure, modify, check_that, no_throw, catch_all, add64, dec64,
}
use asio_uring.Context.Platform.{Platform, Cqe, of_queue, of_stop, of_zero}
use asio_uring.Context.State.{Context, M, eventfd_write}

-- The code that the context runs: posted callables, and the virtual `complete` of a completion.
-- `others` is what other threads do while the loop waits for the ring, before it has an entry.
pub record User (p : Platform) : Type 0 where
  pub invoke : p.Handler → M p (Unit {0})
  pub complete : p.Completion → Cqe p.Completion → M p (Unit {0})
  pub others : Context p → Context p

-- `tid_.load() == t`
abbrev pub is_thread : Option ℕ → ℕ → Bool
is_thread none t = false
is_thread (some s) t = s == t

module _ {p : Platform} where
  unfoldable pub on_work_started : Context p → Context p
  on_work_started c = record c { work = add64 c.work 1 }

  -- `noexcept`
  unfoldable pub on_work_finished : M p (Unit {0})
  on_work_finished c = no_throw (
      (do check_that (not (c.work == 0)); if c.work == 1 then eventfd_write of_zero 1 else pure tt)
        (record c { work = dec64 c.work }))

  -- `eventfd_queue::emplace`: what it does to the list of callables is EventfdQueue's.
  abbrev pub allocated : Bool × p.World → M p (Unit {0})
  allocated (true, w) c = ok tt (record c { world = w })
  allocated (false, w) c = throw bad_alloc (record c { world = w })

  unfoldable pub emplace : p.Handler → M p (Unit {0})
  emplace h c =
      (do
        allocated (p.allocate c.world)
        modify (λ s. record s { q = s.q ++ h ∷ [] })
        eventfd_write of_queue 1)
        c

  unfoldable pub post : p.Handler → M p (Unit {0})
  post h c = catch_all (emplace h (on_work_started c)) on_work_finished

  unfoldable pub defer : p.Handler → M p (Unit {0})
  defer h = post h

  -- `thread` is `std::this_thread::get_id()`.
  unfoldable pub running_in_this_thread : ℕ → Context p → Bool
  running_in_this_thread thread c = is_thread c.tid thread

  unfoldable pub dispatch : User p → ℕ → p.Handler → M p (Unit {0})
  dispatch u thread h c = if running_in_this_thread thread c then u.invoke h c else post h c

  -- `noexcept`
  unfoldable pub stop : M p (Unit {0})
  stop c = no_throw (eventfd_write of_stop 1 (record c { stopped_flag = true }))
