-- ===== src/Asio/Posts.antt =====
-- The operations of poll_file.hpp and connect_file.hpp of src/asio/include/asio_uring/asio that may
-- end at once: they post the handler in place of polling the descriptor. The handler's associated
-- executor is that of the context.
use asio_uring.Base.{
  ℕ, ◌==◌, if◌then◌else◌, Bool, true, false, Option, none, some, Exception, ErrorCode,
  runtime_error, throw, map_state, ◌>>◌,
}
use asio_uring.Context.Platform.{Platform}
use asio_uring.Context.Executor
use asio_uring.Service.Pool.{in_context}
use asio_uring.Io.Codes.{success, generic_code, to_boost_error_code}
use asio_uring.Io.Sockets.{Connected}
use asio_uring.Asio.Handler.{bind_throws}
use asio_uring.Asio.Initiate.{Preps, Start, Args, rw_args, code_args}
use asio_uring.Asio.Files.{M, async_poll_then}

module _ {p : Platform} where
  -- `post(token, args...)`, with `bind` for the binding of the arguments to the handler, and `bound`
  -- for what that throws
  unfoldable pub post : (ℕ → Args → p.Handler) → Option Exception → ℕ → Args → M p (Unit {0})
  post bind bound h args s =
      map_state (λ t. record s { service = t })
        (in_context s.service ((do bind_throws bound; Executor.post (bind h args)) s.service.ctx))

  -- `async_impl`, with `size` for the sum of the sizes of the buffers
  unfoldable pub async_impl :
      Preps p → Start p → (ℕ → Args → p.Handler) → Option Exception → Bool → ℕ → ℕ → M p (Unit {0})
  async_impl l x bind bound i size h =
      if size == 0 then post bind bound h (rw_args success 0) else async_poll_then l x i h

  unfoldable pub async_read_some :
      Preps p → Start p → (ℕ → Args → p.Handler) → Option Exception → ℕ → ℕ → M p (Unit {0})
  async_read_some l x bind bound size h = async_impl l x bind bound true size h

  unfoldable pub async_write_some :
      Preps p → Start p → (ℕ → Args → p.Handler) → Option Exception → ℕ → ℕ → M p (Unit {0})
  async_write_some l x bind bound size h = async_impl l x bind bound false size h

  abbrev pub post_code :
      (ℕ → Args → p.Handler) → Option Exception → ℕ → Option ErrorCode → M p (Unit {0})
  post_code bind bound h (some ec) = post bind bound h (code_args ec)
  post_code bind bound h none = λ s. throw runtime_error s

  -- What `async_connect` does after its call of `connect`
  abbrev pub connected_case :
      Preps p
      → Start p
      → (ℕ → Args → p.Handler)
      → Option Exception
      → ℕ
      → Option ℕ
      → Bool
      → M p (Unit {0})
  connected_case l x bind bound h (some e) connected =
      post_code bind bound h (to_boost_error_code (generic_code e))
  connected_case l x bind bound h none true = post bind bound h (code_args success)
  connected_case l x bind bound h none false = async_poll_then l x false h

  unfoldable pub async_connect :
      {W : Type 0}
      → Preps p
      → Start p
      → (ℕ → Args → p.Handler)
      → Option Exception
      → Connected W
      → ℕ
      → M p (Unit {0})
  async_connect l x bind bound r h = connected_case l x bind bound h r.error r.connected

-- The three operations; the `Connected` is what `connect` returns.
pub data Op : Type 0 where
  read_some write_some : ℕ → Op
  connect : Connected (Unit {0}) → Op

unfoldable pub exec :
    {p : Platform}
    → Preps p
    → Start p
    → (ℕ → Args → p.Handler)
    → Option Exception
    → Op
    → ℕ
    → M p (Unit {0})
exec l x bind bound (read_some size) h = async_read_some l x bind bound size h
exec l x bind bound (write_some size) h = async_write_some l x bind bound size h
exec l x bind bound (connect r) h = async_connect l x bind bound r h
