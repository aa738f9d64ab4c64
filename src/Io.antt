-- ===== src/Io.antt =====
-- Transfers of bytes and connections on descriptors in non-blocking mode.
pub mod Loops
pub mod Transfer
pub mod Sequence
pub mod Sockets
pub mod Codes
pub mod PollFile
