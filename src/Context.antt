-- ===== src/Context.antt =====
-- src/core/execution_context.cpp and include/asio_uring/execution_context.hpp.
pub mod Platform
pub mod State
pub mod Executor
pub mod Loop
pub mod Invariant
pub mod Servicing
pub mod Polling
pub mod Safety
pub mod Simulation
pub mod Endings
pub mod Drain
pub mod Startup
pub mod Resources
pub mod Lifecycle
