-- ===== src/Asio/Associations.antt =====
-- Tokens and handlers that hold other ones: fd_completion_token.hpp, fd_completion_handler.hpp,
-- poll_file_op of poll_file.hpp and completion_handler.hpp in src/asio/include/asio_uring/asio, and the
-- executors and allocators that they are associated with.
use asio_uring.Base.{ℕ, ◌≡◌, refl, ap, ◌∙◌, true, Option, none, some, has, Safe}
use asio_uring.FileObject.{File, invoke, invokes}
use asio_uring.FileObject
use asio_uring.FileObject.Lifetime.{Shared, Settled, Keeps, exec-Shared}
use asio_uring.EventfdQueue.Nodes.{Ptr}

-- What Boost.Asio and its users provide for tokens and handlers of their own: the handler that a token
-- becomes, what `async_result` returns for a handler, and `associated_executor` and
-- `associated_allocator` with a default.
pub record Traits (T H E A R : Type 0) : Type 0 where
  pub handler : T → H
  pub result : H → R
  pub executor : H → E → E
  pub allocator : H → A → A

-- `I` is the type of invokers; the `Ptr` is the shared pointer to the descriptor.
pub data Handler (H I : Type 0) : Type 0 where
  user : H → Handler H I
  fd_completion_handler : Handler H I → Ptr → Handler H I
  poll_file_op : I → Handler H I → Handler H I

-- A handler is a token for itself.
pub data Token (T H I : Type 0) : Type 0 where
  user_token : T → Token T H I
  itself : Handler H I → Token T H I
  fd_completion_token : Token T H I → Ptr → Token T H I

-- `completion_handler`
pub record Completion (H I E A : Type 0) : Type 0 where
  pub alloc : A
  pub work : E
  pub handler : Handler H I

-- What a handler is given to: the executor, the allocator for the callable, and the handler in it with
-- its arguments.
pub record Call (H I E A X : Type 0) : Type 0 where
  pub executor : E
  pub allocator : A
  pub handler : Handler H I
  pub args : X

module _ {T H I E A R : Type 0} (x : Traits T H E A R) where
  -- `async_result<Token, Signature>::completion_handler_type h(token)`
  unfoldable pub handler_of : Token T H I → Handler H I
  handler_of (user_token t) = user (x.handler t)
  handler_of (itself h) = h
  handler_of (fd_completion_token t fd) = fd_completion_handler (handler_of t) fd

  -- `async_result<CompletionToken, Signature> result(h); result.get()`, for the type of that token. A
  -- handler of another type is none.
  unfoldable pub result_of : Token T H I → Handler H I → Option R
  result_of (user_token t) (user h) = some (x.result h)
  result_of (itself (user _)) (user h) = some (x.result h)
  result_of (fd_completion_token t _) (fd_completion_handler h _) = result_of t h
  result_of _ _ = none

  unfoldable pub get_associated_executor : Handler H I → E → E
  get_associated_executor (user h) ex = x.executor h ex
  get_associated_executor (fd_completion_handler h _) ex = get_associated_executor h ex
  get_associated_executor (poll_file_op _ h) ex = get_associated_executor h ex

  unfoldable pub get_associated_allocator : Handler H I → A → A
  get_associated_allocator (user h) alloc = x.allocator h alloc
  get_associated_allocator (fd_completion_handler h _) alloc = get_associated_allocator h alloc
  get_associated_allocator (poll_file_op _ h) alloc = get_associated_allocator h alloc

  -- `completion_handler(h, alloc, ex)`; its `get_allocator` and `get_executor` are the fields.
  unfoldable pub complete_with : Handler H I → A → E → Completion H I E A
  complete_with h alloc ex = record {
    alloc = get_associated_allocator h alloc;
    work = get_associated_executor h ex;
    handler = h;
  }

  -- `operator()`: what is dispatched
  unfoldable pub dispatched : {X : Type 0} → Completion H I E A → X → Call H I E A X
  dispatched c args = record {
    executor = c.work;
    allocator = c.alloc;
    handler = c.handler;
    args = args;
  }

  -- The completion_handler of an operation that is initiated with `wrap_token(token)`, on an object
  -- whose descriptor is at `fd`, in a context with the executor `ex`
  unfoldable pub initiated : Ptr → A → E → Token T H I → Completion H I E A
  initiated fd alloc ex token = complete_with (handler_of (fd_completion_token token fd)) alloc ex

  -- That of `async_poll_then`, whose poll has the poll_file_op for its token
  unfoldable pub polled_then : Ptr → A → E → I → Token T H I → Completion H I E A
  polled_then fd alloc ex i token =
      initiated fd alloc ex (itself (poll_file_op i (handler_of token)))

  -- What `post` of poll_file posts
  unfoldable pub posted : {X : Type 0} → A → E → Token T H I → X → Call H I E A X
  posted alloc ex token args =
      let h = handler_of token in
      record {
        executor = get_associated_executor h ex;
        allocator = get_associated_allocator h alloc;
        handler = h;
        args = args;
      }

  -- The handler of the user inside a handler
  abbrev pub innermost : Handler H I → H
  innermost (user h) = h
  innermost (fd_completion_handler h _) = innermost h
  innermost (poll_file_op _ h) = innermost h

  -- That of a token
  abbrev pub origin : Token T H I → H
  origin (user_token t) = x.handler t
  origin (itself h) = innermost h
  origin (fd_completion_token t _) = origin t

  executor-innermost :
      (h : Handler H I) (ex : E) → get_associated_executor h ex ≡ x.executor (innermost h) ex
  unfolding get_associated_executor
  executor-innermost (user h) ex = refl
  executor-innermost (fd_completion_handler h _) ex = executor-innermost h ex
  executor-innermost (poll_file_op _ h) ex = executor-innermost h ex

  allocator-innermost :
      (h : Handler H I) (alloc : A)
      → get_associated_allocator h alloc ≡ x.allocator (innermost h) alloc
  unfolding get_associated_allocator
  allocator-innermost (user h) alloc = refl
  allocator-innermost (fd_completion_handler h _) alloc = allocator-innermost h alloc
  allocator-innermost (poll_file_op _ h) alloc = allocator-innermost h alloc

  innermost-handler_of : (t : Token T H I) → innermost (handler_of t) ≡ origin t
  unfolding handler_of
  innermost-handler_of (user_token t) = refl
  innermost-handler_of (itself h) = refl
  innermost-handler_of (fd_completion_token t _) = innermost-handler_of t

-- A call of a handler, with `run` for those of users and `invoker` for the invokers, which are given the
-- handler inside. The number of a pointer is that of its holder.
module _ {H I X : Type 0} (run : H → X → FileObject.M (Unit {0}))
    (invoker : I → X → Handler H I → FileObject.M (Unit {0})) where
  unfoldable pub call : Handler H I → X → FileObject.M (Unit {0})
  call (user h) args = run h args
  call (fd_completion_handler h c) args = invoke c (call h args)
  call (poll_file_op i h) args = invoker i args h

  -- No pointer to a descriptor is in the handler.
  abbrev Bare : Handler H I → Type 0
  Bare (user h) = Unit {0}
  Bare (fd_completion_handler h c) = ⊥
  Bare (poll_file_op i h) = Unit {0}

  -- The handler of an operation that holds the descriptor is called: its pointer goes, whichever way the
  -- call ends.
  call-Settled :
      (c : ℕ) (h : Handler H I) (args : X) (s : File)
      → ((g : H) → Keeps (run g args))
      → ((i : I) (g : Handler H I) → Keeps (invoker i args g))
      → Bare h
      → has c s.holding ≡ true
      → Shared s
      → Safe (λ _ d. Settled s d) (Settled s) (call (fd_completion_handler h c) args s)
  unfolding call FileObject.exec
  call-Settled c (user g) args s r v b held shared =
      exec-Shared (invokes c (run g args)) s (held, r g) shared
  call-Settled c (fd_completion_handler g d) args s r v b held shared = absurd b
  call-Settled c (poll_file_op i g) args s r v b held shared =
      exec-Shared (invokes c (invoker i args g)) s (held, v i g) shared

module _ {T H I E A R X : Type 0} (x : Traits T H E A R) (run : H → X → FileObject.M (Unit {0}))
    (invoker : I → X → Handler H I → FileObject.M (Unit {0})) where
  -- What a call of the handler that a token becomes does: each token with a pointer to a descriptor has its
  -- invocation around the call of the handler of the user.
  abbrev pub token_call : Token T H I → X → FileObject.M (Unit {0})
  token_call (user_token t) args = run (x.handler t) args
  token_call (itself h) args = call run invoker h args
  token_call (fd_completion_token t fd) args = invoke fd (token_call t args)

  handler_of-token_call :
      (t : Token T H I) (args : X) → call run invoker (handler_of x t) args ≡ token_call t args
  unfolding call handler_of
  handler_of-token_call (user_token t) args = refl
  handler_of-token_call (itself h) args = refl
  handler_of-token_call (fd_completion_token t fd) args =
      ap (λ f. invoke fd f) (handler_of-token_call t args)

  -- A call goes to what the user's handler `h` is associated with, and does `f`.
  abbrev pub Goes : E → A → H → FileObject.M (Unit {0}) → Call H I E A X → Type 0
  Goes ex alloc h f c =
      (c.executor ≡ x.executor h ex)
      × (c.allocator ≡ x.allocator h alloc)
      × (call run invoker c.handler c.args ≡ f)

  -- Where the call of an operation goes that is initiated with a token, directly or with a poll and
  -- an invoker, and that of a handler that is posted: to the executor that the handler of the user
  -- is associated with, or else that of the context, with the allocator that it is associated with,
  -- or else the default, whatever it is wrapped in. The call of an operation that is initiated
  -- directly takes over the pointer to the descriptor and, within that invocation, does what the
  -- token's handler does, where each token with a pointer has its invocation around the handler of
  -- the user; with a poll and an invoker, it calls within that invocation the invoker, with the
  -- token's handler, whose own call does what the token's handler does; what is posted does that at
  -- once.
  pub dispatched-origin :
      (fd : Ptr) (alloc : A) (ex : E) (i : I) (t : Token T H I) (args later : X)
      → Goes ex alloc
          (origin x t)
          (invoke fd (token_call t args))
          (dispatched x (initiated x fd alloc ex t) args)
        × Goes ex alloc
            (origin x t)
            (invoke fd (invoker i args (handler_of x t)))
            (dispatched x (polled_then x fd alloc ex i t) args)
        × (call run invoker (handler_of x t) later ≡ token_call t later)
        × Goes ex alloc (origin x t) (token_call t args) (posted x alloc ex t args)
  unfolding dispatched initiated polled_then posted complete_with handler_of call
      get_associated_executor get_associated_allocator
  dispatched-origin fd alloc ex i t args later =
      let h = handler_of x t in
      let e = innermost-handler_of x t in
      let a = executor-innermost x h ex ∙ ap (λ g. x.executor g ex) e in
      let b = allocator-innermost x h alloc ∙ ap (λ g. x.allocator g alloc) e in
      let c = handler_of-token_call t args in
      ((a, b, ap (λ f. invoke fd f) c), (a, b, refl), handler_of-token_call t later, (a, b, c))
