-- ===== src/Server.antt =====
-- c/src/server.c: the registry of exported functions, the inputs of a connection, the threads that
-- run handlers, and the loop that reads a connection.
pub mod Registry
pub mod Input
pub mod Connection
pub mod Dispatch
pub mod Lifecycle
pub mod Loop
pub mod Interleaving
mod Tests
