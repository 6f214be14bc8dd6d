-- ===== src/Anthropic.antt =====
-- The Anthropic Messages side of the bridge, of internal/anthropic.
pub mod Stops
pub mod Values
pub mod Stream
pub mod Client
mod Tests
