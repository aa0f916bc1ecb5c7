-- ===== src/Redis.antt =====
-- The Redis client of common/cpp/redis over hiredis.
pub mod Reply
pub mod Client
pub mod Commands
pub mod Pipeline
pub mod Fifo
pub mod Binary
mod Tests
