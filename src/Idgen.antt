-- ===== src/Idgen.antt =====
-- The identifiers of common/cpp/idgen.
pub mod Snowflake
mod Tests
