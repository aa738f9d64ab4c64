-- ===== src/Context/State.antt =====
-- The fields of `execution_context`, and its accesses to the eventfds and the ring.
use asio_uring.Base.{
  ℕ, suc, zero, Bool, true, false, not, ◌&&◌, ◌||◌, Option, none, some, List, ErrorCode, Category,
  system_error, generic_error, Sys, done, failed, blocks, Run, ok, throw, running, ◌>>=◌, ◌>>◌,
  modify, check_that, ◌==◌, if◌then◌else◌,
}
use asio_uring.Context.Platform.{Platform, Internal, of_queue, of_stop, of_zero, internal}

-- `enum class error`
pub data Error : Type 0 where
  success no_sqe_for_eventfd no_sqe : Error

-- `static_cast<int>(err)`
abbrev pub to_int : Error → ℕ
to_int success = 0
to_int no_sqe_for_eventfd = 1
to_int no_sqe = 2

pub make_error_code : Error → ErrorCode
make_error_code err = record { category = Category.context; value = to_int err }

-- `EBUSY`
abbrev pub ebusy : ℕ
ebusy = 16

-- `default_error_condition` of the category: a condition of the generic category, by its value, or
-- one of this category.
unfoldable pub default_error_condition : ℕ → ErrorCode
default_error_condition zero = record { category = Category.generic; value = 0 }
default_error_condition (suc zero) = record { category = Category.generic; value = ebusy }
default_error_condition (suc (suc zero)) = record { category = Category.generic; value = ebusy }
default_error_condition code = record { category = Category.context; value = code }

-- `tid_` is `none` for a default constructed `std::thread::id`. `q` lists the callables in the
-- nodes of `q_`, oldest first; the world holds the eventfds and the ring.
pub record Context (p : Platform) : Type 0 where
  pub q : List p.Handler
  pub q_started : Bool
  pub pending : ℕ
  pub stop_started : Bool
  pub zero_started : Bool
  pub work : ℕ
  pub stopped_flag : Bool
  pub tid : Option ℕ
  pub world : p.World

abbrev pub M : Platform → Type 0 → Type 0
M p A = Context p → Run (Context p) A

-- The exception of `throw std::system_error(ec)` with `errno`.
abbrev pub sys_result :
    {p : Platform} {A : Type 0} → Context p → Sys A × p.World → Run (Context p) A
sys_result c (done a, w) = ok a (record c { world = w })
sys_result c (failed e, w) = throw (generic_error e) (record c { world = w })
sys_result c (blocks, w) = running (record c { world = w })

abbrev pub index : Internal → ℕ
index of_queue = 0
index of_stop = 1
index of_zero = 2

-- The writes of `restart` to the submission queue entry.
unfoldable pub prep : (p : Platform) → Internal → p.Sqe → p.World → p.World
prep p i s w = p.set_user_data s (internal i) (p.set_fixed_file s (p.prep_poll_add s (index i) w))

module _ {p : Platform} where
  -- `eventfd::read` and `eventfd::write`
  unfoldable pub eventfd_read : Internal → M p ℕ
  eventfd_read i c = sys_result c (p.read_eventfd i c.world)

  unfoldable pub eventfd_write : Internal → ℕ → M p (Unit {0})
  eventfd_write i n c = sys_result c (p.write_eventfd i n c.world)

  abbrev pub sqe_result : Context p → Option p.Sqe × p.World → Run (Context p) p.Sqe
  sqe_result c (none, w) =
      throw (system_error (make_error_code no_sqe_for_eventfd)) (record c { world = w })
  sqe_result c (some s, w) = ok s (record c { world = w })

  unfoldable pub get_sqe : M p p.Sqe
  get_sqe c = sqe_result c (p.take_sqe c.world)

  unfoldable pub submit : M p ℕ
  submit c = sys_result c (p.submit c.world)

  -- The flag that `restart` is handed by reference, and its index among the registered files.
  abbrev pub started : Context p → Internal → Bool
  started c of_queue = c.q_started
  started c of_stop = c.stop_started
  started c of_zero = c.zero_started

  abbrev pub set_started : Internal → Bool → Context p → Context p
  set_started of_queue b c = record c { q_started = b }
  set_started of_stop b c = record c { stop_started = b }
  set_started of_zero b c = record c { zero_started = b }

  unfoldable pub stopped : Context p → Bool
  stopped c = not (c.q_started && c.stop_started && c.zero_started) || c.stopped_flag

  unfoldable pub out_of_work : Context p → Bool
  out_of_work c = c.work == 0

  -- `restart(i, b)`
  unfoldable pub restart_poll : Internal → M p (Unit {0})
  restart_poll i c =
      (do
        check_that (not (started c i))
        sqe ← get_sqe
        modify (λ s. record s { world = prep p i sqe s.world })
        submit
        modify (set_started i true))
        c

  unfoldable pub restart_if : Internal → M p (Unit {0})
  restart_if i c = if started c i then ok tt c else restart_poll i c

  abbrev pub set_stopped : Bool → M p (Unit {0})
  set_stopped b = modify (λ c. record c { stopped_flag = b })

  unfoldable pub restart : M p (Unit {0})
  restart = do restart_if of_queue; restart_if of_stop; restart_if of_zero; set_stopped false
