-- ===== src/Asio/Objects.antt =====
-- src/asio/include/asio_uring/asio/basic_io_object.hpp, and the constructor in src/asio/poll_file.cpp.
use asio_uring.Base.{
  ℕ, ◌==◌, Bool, not, Option, generic_error, Sys, done, failed, blocks, Run, ok, throw, abort,
  running, and_then, ◌>>=◌, ◌>>◌, check_that, map_state,
}
use asio_uring.Context.Platform.{Platform}
use asio_uring.Service.Pool.{Service, move_construct, move_assign}
use asio_uring.Service.Pool
use asio_uring.FileObject.{File, native_handle, reset}
use asio_uring.FileObject
use asio_uring.Fd.{Table}

-- A `basic_io_object` at `impl`, on a service `svc_` that outlives it
module _ {p : Platform} {H : Type 0} where
  unfoldable pub construct : ℕ → Pool.M p H (Unit {0})
  construct impl = Pool.construct impl

  unfoldable pub move : ℕ → ℕ → Pool.M p H (Unit {0})
  move impl other = move_construct impl other

  -- `same_service` compares the services of the two.
  unfoldable pub assign : ℕ → Bool → ℕ → Pool.M p H (Unit {0})
  assign impl same_service rhs s =
      (do check_that (not (impl == rhs)); move_assign impl same_service rhs) s

  unfoldable pub destroy : ℕ → Service p H → Service p H
  destroy impl s = Pool.destroy impl s

-- `fcntl` with `F_GETFL` and with `F_SETFL`, on a handle that is none for -1; and `flags | O_NONBLOCK`
pub record Fcntl : Type 0 where
  pub get_flags : Option ℕ → Sys ℕ
  pub set_flags : Option ℕ → ℕ → Sys (Unit {0})
  pub nonblocking : ℕ → ℕ

abbrev pub sys_file : {A : Type 0} → Sys A → File → Run File A
sys_file (done a) s = ok a s
sys_file (failed e) s = throw (generic_error e) s
sys_file blocks s = running s

-- The body of the constructor
unfoldable pub set_nonblocking : Fcntl → File → Run File (Unit {0})
set_nonblocking f = do
  fd ← native_handle
  flags ← sys_file (f.get_flags fd)
  again ← native_handle
  sys_file (f.set_flags again (f.nonblocking flags))

-- An exception destroys the file_object that has been constructed.
abbrev pub unwound : Run File (Unit {0}) → Run Table File
unwound (ok _ s) = ok s s.table
unwound (throw e s) = and_then (map_state (λ d. d.table) (reset s)) (λ _ t. throw e t)
unwound abort = abort
unwound (running s) = running s.table

unfoldable pub construct_poll_file : Fcntl → Option ℕ → ℕ → Table → Run Table File
construct_poll_file f place other = do
  s ← FileObject.construct place other
  λ t. unwound (set_nonblocking f s)
