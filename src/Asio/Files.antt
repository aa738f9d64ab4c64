-- ===== src/Asio/Files.antt =====
-- The operations of src/asio/include/asio_uring/asio/async_file.hpp, and the polls of poll_file.hpp
-- beside it, on an I/O object whose service they use.
use asio_uring.Base.{
  ℕ, Bool, true, false, Option, List, Run, ok, throw, abort, running, and_then, map_state, ◌>>=◌,
  ◌>>◌,
}
use asio_uring.Context.Platform.{Platform}
use asio_uring.Service.Pool.{Service}
use asio_uring.FileObject.{File, native_handle, wrap, discard}
use asio_uring.FileObject
use asio_uring.Asio.Iovec.{Buffer}
use asio_uring.Asio.Initiate.{
  Preps, Wrapper, Start, Kind, rw_completion, poll_add_completion, fsync_completion,
  initiate_read_some_at, initiate_write_some_at, initiate_poll_add, initiate_fsync,
}

-- `file` is the descriptor of the object; `impl` is the handle that its base has from the service.
pub record IoFile (p : Platform) : Type 0 where
  pub file : File
  pub impl : ℕ
  pub service : Service p Wrapper

-- `POLLIN` and `POLLOUT`
abbrev pub pollin : ℕ
pollin = 1

abbrev pub pollout : ℕ
pollout = 4

abbrev pub M : Platform → Type 0 → Type 0
M p A = IoFile p → Run (IoFile p) A

module _ {p : Platform} where
  abbrev pub in_file : {A : Type 0} → (File → Run File A) → M p A
  in_file f s = map_state (λ t. record s { file = t }) (f s.file)

  -- The handler of the operation goes when that could not be started.
  abbrev pub dropped : ℕ → Run (IoFile p) (Unit {0}) → Run (IoFile p) (Unit {0})
  dropped h (ok a s) = ok a s
  dropped h (throw e s) = and_then (in_file (FileObject.discard h) s) (λ _ t. throw e t)
  dropped h abort = abort
  dropped h (running s) = running s

  -- `f(get_implementation(), native_handle(), ...)` of the service, with `wrap_token(token)`: the
  -- handler `h` of the token holds the descriptor.
  abbrev pub with_token :
      ℕ → (ℕ → Option ℕ → Service p Wrapper → Run (Service p Wrapper) (Unit {0})) → M p (Unit {0})
  with_token h f = do
    fd ← in_file native_handle
    in_file (wrap h)
    λ s. dropped h (map_state (λ t. record s { service = t }) (f s.impl fd s.service))

  unfoldable pub async_read_some_at : Preps p → Start p → ℕ → List Buffer → ℕ → M p (Unit {0})
  async_read_some_at l x o mb h = with_token h (λ impl fd. initiate_read_some_at l x impl fd o mb h)

  unfoldable pub async_write_some_at : Preps p → Start p → ℕ → List Buffer → ℕ → M p (Unit {0})
  async_write_some_at l x o cb h =
      with_token h (λ impl fd. initiate_write_some_at l x impl fd o cb h)

  unfoldable pub async_flush : Preps p → Start p → Bool → ℕ → M p (Unit {0})
  async_flush l x data_only h = with_token h (λ impl fd. initiate_fsync l x impl fd data_only h)

  unfoldable pub async_poll_in : Preps p → Start p → ℕ → M p (Unit {0})
  async_poll_in l x h = with_token h (λ impl fd. initiate_poll_add l x impl fd pollin h)

  unfoldable pub async_poll_out : Preps p → Start p → ℕ → M p (Unit {0})
  async_poll_out l x h = with_token h (λ impl fd. initiate_poll_add l x impl fd pollout h)

-- The poll that precedes what the invoker does; the Boolean is the template argument `In`.
unfoldable pub async_poll_then : {p : Platform} → Preps p → Start p → Bool → ℕ → M p (Unit {0})
async_poll_then l x true h = async_poll_in l x h
async_poll_then l x false h = async_poll_out l x h

-- The operations; `flush_all` is `async_flush(token)`.
pub data Op : Type 0 where
  read_at write_at : ℕ → List Buffer → Op
  flush poll_then : Bool → Op
  flush_all poll_in poll_out : Op

unfoldable pub exec : {p : Platform} → Preps p → Start p → Op → ℕ → M p (Unit {0})
exec l x (read_at o mb) h = async_read_some_at l x o mb h
exec l x (write_at o cb) h = async_write_some_at l x o cb h
exec l x (flush data_only) h = async_flush l x data_only h
exec l x flush_all h = async_flush l x false h
exec l x poll_in h = async_poll_in l x h
exec l x poll_out h = async_poll_out l x h
exec l x (poll_then i) h = async_poll_then l x i h

-- The function object that an operation stores
abbrev pub kind_of : Op → Kind
kind_of (read_at o mb) = rw_completion
kind_of (write_at o cb) = rw_completion
kind_of (flush data_only) = fsync_completion
kind_of flush_all = fsync_completion
kind_of poll_in = poll_add_completion
kind_of poll_out = poll_add_completion
kind_of (poll_then i) = poll_add_completion
