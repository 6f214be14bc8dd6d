-- ===== src/Server.antt =====
-- The HTTP side of the bridge, of internal/server.
pub mod MessagesStream
pub mod Execution
mod Tests
