-- ===== src/Net/Bytes.antt =====
-- Big-endian fields in byte arrays: the readers and writers of common/cpp/net/packet.hpp.
-- A pointer is an array with an index; a byte is a number below 256.
pub mod RoundTrip
use gmaker.Common.{ℕ, ◌+◌, ◌*◌, ◌^◌, bit_and, bit_or, List, get_or, set, u8, u16, u32, u64, ◌>>◌}

-- `static_cast<uint8_t>(x & 0xFF)`.
pub low_byte : ℕ → ℕ
low_byte x = u8 (bit_and x 0xFF)

-- `p[i]`. Undefined past the end, where the model reads 0; every theorem keeps to the array.
abbrev pub at : List ℕ → ℕ → ℕ
at p i = get_or p i 0

-- `WriteU16BE(p + i, v)`.
unfoldable pub write_u16_be : List ℕ → ℕ → ℕ → List ℕ
write_u16_be p i v = set (set p i (low_byte (v >> 8))) (i + 1) (low_byte v)

-- `WriteU32BE(p + i, v)`.
unfoldable pub write_u32_be : List ℕ → ℕ → ℕ → List ℕ
write_u32_be p i v =
    let p1 = set p i (low_byte (v >> 24)) in
    let p2 = set p1 (i + 1) (low_byte (v >> 16)) in
    let p3 = set p2 (i + 2) (low_byte (v >> 8)) in set p3 (i + 3) (low_byte v)

-- `WriteU64BE(p + i, v)`.
unfoldable pub write_u64_be : List ℕ → ℕ → ℕ → List ℕ
write_u64_be p i v =
    let p1 = set p i (low_byte (v >> 56)) in
    let p2 = set p1 (i + 1) (low_byte (v >> 48)) in
    let p3 = set p2 (i + 2) (low_byte (v >> 40)) in
    let p4 = set p3 (i + 3) (low_byte (v >> 32)) in
    let p5 = set p4 (i + 4) (low_byte (v >> 24)) in
    let p6 = set p5 (i + 5) (low_byte (v >> 16)) in
    let p7 = set p6 (i + 6) (low_byte (v >> 8)) in set p7 (i + 7) (low_byte v)

-- `ReadU16BE(p + i)`.
unfoldable pub read_u16_be : List ℕ → ℕ → ℕ
read_u16_be p i = u16 (bit_or (at p i * 2 ^ 8) (at p (i + 1)))

-- `ReadU32BE(p + i)`.
unfoldable pub read_u32_be : List ℕ → ℕ → ℕ
read_u32_be p i =
    let hi = bit_or (u32 (at p i * 2 ^ 24)) (u32 (at p (i + 1) * 2 ^ 16)) in
    bit_or (bit_or hi (u32 (at p (i + 2) * 2 ^ 8))) (at p (i + 3))

-- `ReadU64BE(p + i)`.
unfoldable pub read_u64_be : List ℕ → ℕ → ℕ
read_u64_be p i =
    let w7 = bit_or (u64 (at p i * 2 ^ 56)) (u64 (at p (i + 1) * 2 ^ 48)) in
    let w5 = bit_or w7 (u64 (at p (i + 2) * 2 ^ 40)) in
    let w4 = bit_or w5 (u64 (at p (i + 3) * 2 ^ 32)) in
    let w3 = bit_or w4 (u64 (at p (i + 4) * 2 ^ 24)) in
    let w2 = bit_or w3 (u64 (at p (i + 5) * 2 ^ 16)) in
    bit_or (bit_or w2 (u64 (at p (i + 6) * 2 ^ 8))) (at p (i + 7))
