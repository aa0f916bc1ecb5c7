-- ===== src/Redis/Commands.antt =====
-- The commands of `Client`, common/cpp/redis/redis_client.cpp, by what they work on.
pub mod Strings
pub mod Hashes
pub mod Lists
pub mod Sets
pub mod SortedSets
pub mod Keys
