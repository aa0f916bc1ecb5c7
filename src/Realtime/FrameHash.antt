-- ===== src/Realtime/FrameHash.antt =====
-- `FrameHasher` of common/cpp/realtime/deterministic/frame_hash.hpp: FNV-1a over bytes. The numbers that are
-- hashed lie in memory with their lowest byte first, as on the machines that the code is built for.
pub mod Changes
use gmaker.Common.{ℕ, zero, suc, ◌*◌, ◌/◌, ◌^◌, bit_xor, List, [], ◌∷◌, u64, length}
use gmaker.Net.Bytes.{low_byte}

abbrev pub fnv_offset : ℕ
fnv_offset = 0xcbf29ce484222325

abbrev pub fnv_prime : ℕ
fnv_prime = 0x100000001b3

-- `update`.
unfoldable pub hash_bytes : ℕ → List ℕ → ℕ
hash_bytes hash [] = hash
hash_bytes hash (b ∷ bs) = hash_bytes (u64 (bit_xor hash b * fnv_prime)) bs

-- The bytes of a number in memory.
unfoldable pub memory_bytes : ℕ → ℕ → List ℕ
memory_bytes zero v = []
memory_bytes (suc n) v = low_byte v ∷ memory_bytes n (v / 2 ^ 8)

-- `update_u64`, `update_i64` (of the bit pattern) and `update_u32`.
unfoldable pub update_u64 : ℕ → ℕ → ℕ
update_u64 hash v = hash_bytes hash (memory_bytes 8 v)

unfoldable pub update_u32 : ℕ → ℕ → ℕ
update_u32 hash v = hash_bytes hash (memory_bytes 4 v)

-- `update_string`.
unfoldable pub update_string : ℕ → List ℕ → ℕ
update_string hash s = hash_bytes (update_u64 hash (length s)) s

-- `fnv1a_hash`.
unfoldable pub fnv1a_hash : List ℕ → ℕ
fnv1a_hash bs = hash_bytes fnv_offset bs
