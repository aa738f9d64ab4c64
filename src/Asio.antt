-- ===== src/Asio.antt =====
-- The I/O objects of src/asio: what an operation of theirs starts, and the handler that it ends in.
pub mod Iovec
pub mod Handler
pub mod Initiate
pub mod Guarantee
pub mod Files
pub mod Objects
pub mod Construction
pub mod Delivery
pub mod Operations
pub mod Posts
pub mod Immediate
pub mod Associations
pub mod Accept
pub mod Sharing
pub mod Acceptance
pub mod Calm
pub mod RoundTrip
pub mod Calls
pub mod Tally
pub mod Accounts
pub mod Completion
pub mod Events
pub mod Resets
pub mod Teardown
pub mod Histories
pub mod Destruction
pub mod Waking
pub mod Failures
pub mod Liveness
