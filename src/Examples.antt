-- ===== src/Examples.antt =====
-- Runs of the operations at concrete inputs.
mod Loop
mod Lifecycle
mod Ends
mod Queue
mod Bytes
mod Completions
mod Sockets
mod Acceptors
mod Associations
mod Locks
mod Threads
mod Drain
mod Files
mod Histories
mod Callables
mod Descriptors
