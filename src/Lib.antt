-- ===== src/Lib.antt =====
-- AsioUring: a proactor over io_uring with the interface of Boost.Asio, in src/core and src/asio.
--
-- Parts and files:
--   * Context models src/core/execution_context.cpp and include/asio_uring/execution_context.hpp of
--     the same directory: Context/Startup the constructor and the destructor with src/core/uring.cpp,
--     Context/Resources what its members hold and Context/Lifecycle its life, Context/State its
--     fields and polls (restart, restart_if, stopped), Context/Executor the executor (post, dispatch,
--     on_work_started, on_work_finished) and stop, Context/Loop the functions run, run_one, poll and
--     poll_one down to handle_cqe and service_queue. Context/Platform is what that code calls and
--     does not implement: eventfd(2), liburing and the callables and completions of users; the
--     record Laws is their documented behaviour. Context/Invariant is the account that a context
--     keeps; Servicing, Polling, Safety, Endings and Drain are about the loop. Context/Simulation is
--     a platform that obeys the laws.
--   * EventfdQueue models src/core/include/asio_uring/eventfd_queue.hpp: Nodes at the level of
--     pointers, Chains the shape of the two chains, Laws, Consume, Order and Destroy the operations
--     against a list; Threads producers and the consumer that go on a part at a time, in any order,
--     and Frames, Parts, Hands, Invariant and Interleaving are about them.
--   * SpinLock models src/core/spin_lock.cpp, and threads that call it, one access of the flag at a
--     time.
--   * CallableStorage models src/core/include/asio_uring/callable_storage.hpp for the signature
--     R(): the constructors, operator() and the destructor in either kind of storage.
--   * Fd models src/core/fd.cpp over the table of open descriptors. FileObject models
--     src/asio/file_object.cpp, and fd_completion_handler.hpp and fd_completion_token.hpp of
--     src/asio/include/asio_uring/asio: the use count of the shared descriptor is a number, of
--     which the pointers are the account.
--   * Io/Loops models src/core/read.cpp and src/core/write.cpp over read(2) and write(2) as
--     parameters, and Io/Transfer is about them. Io/Sequence models the transfers over buffer
--     sequences of src/asio (read.hpp, write.hpp), Io/Sockets src/core/accept.cpp,
--     src/core/connect.cpp and what the handlers of async_accept and async_connect get, Io/PollFile
--     those of async_read_some and async_write_some of poll_file.hpp with src/asio/read.cpp and
--     write.cpp, Io/Codes src/asio/error_code.cpp and the results in src/asio/service.cpp.
--   * Service models src/core/service.cpp and include/asio_uring/service.hpp of the same directory:
--     Pool the completions, handles and cached vectors and all operations, Account what a sound
--     service is, Acquire and Release what taking and giving back a completion do,
--     Initiate, Complete and Handles the operations.
--   * Asio models the rest of src/asio: Iovec src/asio/iovec.cpp, and of
--     src/asio/include/asio_uring/asio Handler completion_handler.hpp, Initiate service.hpp, Files
--     async_file.hpp and the polls of poll_file.hpp, Posts what else the operations of poll_file.hpp
--     and connect_file.hpp start or post, Associations the tokens and handlers that wrap others
--     (fd_completion_token.hpp, fd_completion_handler.hpp, poll_file_op), Objects basic_io_object.hpp
--     and the constructor of src/asio/poll_file.cpp, Accept accept_file.hpp and
--     src/asio/accept_file.cpp; Guarantee, Operations, Immediate, Construction, Delivery, Sharing
--     and Acceptance are about them. Calls models
--     the life of the operations of one I/O object with all that a completion calls, where handlers
--     may use the object, and src/asio/execution_context.cpp; Tally, Accounts, Completion, Events,
--     Resets, Teardown, Histories, Destruction, Waking, Failures and Liveness are about that,
--     and Calm and RoundTrip about an operation with its completion.
--   * Examples runs the operations on concrete inputs.
--
-- An operation of an I/O object takes its descriptor from a FileObject and starts in a Service with
-- a completion_handler; a service works on a context, whose model its own state holds. The context
-- owns an eventfd_queue, whose state it sees as a list of callables; that the nodes behave as such a
-- list is shown in EventfdQueue. Code is a function from a state to a run: it returns, throws,
-- aborts, or has not returned (Base/Effect). An assertion that fails, an exception that leaves a
-- noexcept function and undefined behaviour abort. Unsigned counts wrap at 2 ^ 64.
--
-- Loops without a bound take fuel: the rounds of all_impl end only as users end their work, so that
-- what is shown of them holds for all fuel, but for Drain, where two rounds are enough; the loops of
-- read, write and the destructor of the queue are shown to end within the bytes or the nodes that
-- there are. What other threads do happens in one place in Context, before the loop waits for the
-- ring. A critical section is one step.
--
-- Calls has the state of an I/O object and its service, in which a handler is a function; Service and
-- Initiate have the service alone, and there a handler is a callable of the context.
--
-- Not modelled: the work guards of executors other than the context's; in Accept, the service, which
-- is an argument that starts a poll or throws; addresses; what Boost.Asio does, but for the shutdown
-- and deletion of the service by its execution_context; the functions of src/asio that only forward;
-- the example, which is a client; and src/test, which counts calls for the tests.
mod Base
pub mod Context
pub mod EventfdQueue
pub mod Fd
pub mod FileObject
pub mod Asio
pub mod CallableStorage
pub mod Io
pub mod Service
pub mod SpinLock
mod Examples
