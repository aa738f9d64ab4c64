-- ===== src/EventfdQueue.antt =====
-- src/core/include/asio_uring/eventfd_queue.hpp
pub mod Nodes
pub mod Chains
pub mod Laws
pub mod Consume
pub mod Order
pub mod Threads
pub mod Frames
pub mod Parts
pub mod Hands
pub mod Invariant
pub mod Interleaving
pub mod Destroy
