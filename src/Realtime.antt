-- ===== src/Realtime.antt =====
-- The deterministic battle engine, common/cpp/realtime.
pub mod Fixed
pub mod Lockstep
pub mod Room
pub mod Prng
pub mod Battle
pub mod Entity
pub mod Whole
pub mod Checkpoint
pub mod FrameHash
mod Tests
