-- ===== src/Service.antt =====
-- src/core/service.cpp and src/core/include/asio_uring/service.hpp.
pub mod Pool
pub mod Account
pub mod Release
pub mod Acquire
pub mod Initiate
pub mod Complete
pub mod Handles
