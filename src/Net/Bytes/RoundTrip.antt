-- ===== src/Net/Bytes/RoundTrip.antt =====
-- What the big-endian readers make of bytes, and of what the writers wrote.
use gmaker.Common.{ℕ, ◌+◌, ◌*◌, ◌%◌, ◌^◌, ◌<◌, ◌≡◌, ◌∙◌, List, arith, u32, u64, ◌>>◌}
use gmaker.Common.Bits.{and_mask, or_disjoint}
use gmaker.Net.Bytes.{low_byte, at, read_u16_be, read_u32_be, read_u64_be}

pub low_byte_lem : (x : ℕ) → low_byte x ≡ x % 256
unfolding low_byte
low_byte_lem x = omega (arith, and_mask 8 x)

-- The readers join bytes by `|`; where every byte is below 256 that is the sum.
pub read_u16_be_sum :
    (p : List ℕ) (i : ℕ)
    → at p i < 256
    → at p (i + 1) < 256
    → read_u16_be p i ≡ at p i * 2 ^ 8 + at p (i + 1)
unfolding read_u16_be
read_u16_be_sum p i h0 h1 =
    omega (arith, or_disjoint 8 (at p i * 2 ^ 8) (at p (i + 1)) (omega arith) h1)

pub read_u32_be_sum :
    (p : List ℕ) (i : ℕ)
    → at p i < 256
    → at p (i + 1) < 256
    → at p (i + 2) < 256
    → at p (i + 3) < 256
    → read_u32_be p i
      ≡ at p i * 2 ^ 24 + at p (i + 1) * 2 ^ 16 + at p (i + 2) * 2 ^ 8 + at p (i + 3)
unfolding read_u32_be
read_u32_be_sum p i h0 h1 h2 h3 =
    let a : u32 (at p i * 2 ^ 24) ≡ at p i * 2 ^ 24 = omega arith in
    let b : u32 (at p (i + 1) * 2 ^ 16) ≡ at p (i + 1) * 2 ^ 16 = omega arith in
    let c : u32 (at p (i + 2) * 2 ^ 8) ≡ at p (i + 2) * 2 ^ 8 = omega arith in
    rw (a, b, c)
      (rw (
        or_disjoint 24 (at p i * 2 ^ 24) (at p (i + 1) * 2 ^ 16) (omega arith) (omega arith),
        or_disjoint 16 (at p i * 2 ^ 24 + at p (i + 1) * 2 ^ 16) (at p (i + 2) * 2 ^ 8)
            (omega arith) (omega arith),
        or_disjoint 8 (at p i * 2 ^ 24 + at p (i + 1) * 2 ^ 16 + at p (i + 2) * 2 ^ 8)
            (at p (i + 3)) (omega arith) h3,
      ))

pub read_u64_be_sum :
    (p : List ℕ) (i : ℕ)
    → at p i < 256
    → at p (i + 1) < 256
    → at p (i + 2) < 256
    → at p (i + 3) < 256
    → at p (i + 4) < 256
    → at p (i + 5) < 256
    → at p (i + 6) < 256
    → at p (i + 7) < 256
    → read_u64_be p i
      ≡ at p i * 2 ^ 56
        + at p (i + 1) * 2 ^ 48
        + at p (i + 2) * 2 ^ 40
        + at p (i + 3) * 2 ^ 32
        + at p (i + 4) * 2 ^ 24
        + at p (i + 5) * 2 ^ 16
        + at p (i + 6) * 2 ^ 8
        + at p (i + 7)
unfolding read_u64_be
read_u64_be_sum p i h0 h1 h2 h3 h4 h5 h6 h7 =
    let a : u64 (at p i * 2 ^ 56) ≡ at p i * 2 ^ 56 = omega arith in
    let b : u64 (at p (i + 1) * 2 ^ 48) ≡ at p (i + 1) * 2 ^ 48 = omega arith in
    let c : u64 (at p (i + 2) * 2 ^ 40) ≡ at p (i + 2) * 2 ^ 40 = omega arith in
    let d : u64 (at p (i + 3) * 2 ^ 32) ≡ at p (i + 3) * 2 ^ 32 = omega arith in
    let e : u64 (at p (i + 4) * 2 ^ 24) ≡ at p (i + 4) * 2 ^ 24 = omega arith in
    let f : u64 (at p (i + 5) * 2 ^ 16) ≡ at p (i + 5) * 2 ^ 16 = omega arith in
    let g : u64 (at p (i + 6) * 2 ^ 8) ≡ at p (i + 6) * 2 ^ 8 = omega arith in
    let s2 = at p i * 2 ^ 56 + at p (i + 1) * 2 ^ 48 in
    let s3 = s2 + at p (i + 2) * 2 ^ 40 in
    let s4 = s3 + at p (i + 3) * 2 ^ 32 in
    let s5 = s4 + at p (i + 4) * 2 ^ 24 in
    let s6 = s5 + at p (i + 5) * 2 ^ 16 in
    let s7 = s6 + at p (i + 6) * 2 ^ 8 in
    rw (a, b, c, d, e, f, g)
      (rw (
        or_disjoint 56 (at p i * 2 ^ 56) (at p (i + 1) * 2 ^ 48) (omega arith) (omega arith),
        or_disjoint 48 s2 (at p (i + 2) * 2 ^ 40) (omega arith) (omega arith),
        or_disjoint 40 s3 (at p (i + 3) * 2 ^ 32) (omega arith) (omega arith),
        or_disjoint 32 s4 (at p (i + 4) * 2 ^ 24) (omega arith) (omega arith),
        or_disjoint 24 s5 (at p (i + 5) * 2 ^ 16) (omega arith) (omega arith),
        or_disjoint 16 s6 (at p (i + 6) * 2 ^ 8) (omega arith) (omega arith),
        or_disjoint 8 s7 (at p (i + 7)) (omega arith) h7,
      ))

-- A reader gives back the number whose bytes, high to low, stand at its place.
pub read_u16_be_of :
    (p : List ℕ) (i v : ℕ)
    → v < 2 ^ 16
    → at p i ≡ low_byte (v >> 8)
    → at p (i + 1) ≡ low_byte v
    → read_u16_be p i ≡ v
read_u16_be_of p i v h e0 e1 =
    let l0 : at p i ≡ v >> 8 % 256 = e0 ∙ low_byte_lem (v >> 8) in
    let l1 : at p (i + 1) ≡ v % 256 = e1 ∙ low_byte_lem v in
    omega (arith, read_u16_be_sum p i (omega arith) (omega arith))

pub read_u32_be_of :
    (p : List ℕ) (i v : ℕ)
    → v < 2 ^ 32
    → at p i ≡ low_byte (v >> 24)
    → at p (i + 1) ≡ low_byte (v >> 16)
    → at p (i + 2) ≡ low_byte (v >> 8)
    → at p (i + 3) ≡ low_byte v
    → read_u32_be p i ≡ v
read_u32_be_of p i v h e0 e1 e2 e3 =
    let l0 : at p i ≡ v >> 24 % 256 = e0 ∙ low_byte_lem (v >> 24) in
    let l1 : at p (i + 1) ≡ v >> 16 % 256 = e1 ∙ low_byte_lem (v >> 16) in
    let l2 : at p (i + 2) ≡ v >> 8 % 256 = e2 ∙ low_byte_lem (v >> 8) in
    let l3 : at p (i + 3) ≡ v % 256 = e3 ∙ low_byte_lem v in
    omega (arith, read_u32_be_sum p i (omega arith) (omega arith) (omega arith) (omega arith))

pub read_u64_be_of :
    (p : List ℕ) (i v : ℕ)
    → v < 2 ^ 64
    → at p i ≡ low_byte (v >> 56)
    → at p (i + 1) ≡ low_byte (v >> 48)
    → at p (i + 2) ≡ low_byte (v >> 40)
    → at p (i + 3) ≡ low_byte (v >> 32)
    → at p (i + 4) ≡ low_byte (v >> 24)
    → at p (i + 5) ≡ low_byte (v >> 16)
    → at p (i + 6) ≡ low_byte (v >> 8)
    → at p (i + 7) ≡ low_byte v
    → read_u64_be p i ≡ v
read_u64_be_of p i v h e0 e1 e2 e3 e4 e5 e6 e7 =
    let l0 : at p i ≡ v >> 56 % 256 = e0 ∙ low_byte_lem (v >> 56) in
    let l1 : at p (i + 1) ≡ v >> 48 % 256 = e1 ∙ low_byte_lem (v >> 48) in
    let l2 : at p (i + 2) ≡ v >> 40 % 256 = e2 ∙ low_byte_lem (v >> 40) in
    let l3 : at p (i + 3) ≡ v >> 32 % 256 = e3 ∙ low_byte_lem (v >> 32) in
    let l4 : at p (i + 4) ≡ v >> 24 % 256 = e4 ∙ low_byte_lem (v >> 24) in
    let l5 : at p (i + 5) ≡ v >> 16 % 256 = e5 ∙ low_byte_lem (v >> 16) in
    let l6 : at p (i + 6) ≡ v >> 8 % 256 = e6 ∙ low_byte_lem (v >> 8) in
    let l7 : at p (i + 7) ≡ v % 256 = e7 ∙ low_byte_lem v in
    omega (
      arith,
      read_u64_be_sum p i (omega arith) (omega arith) (omega arith) (omega arith) (omega arith)
          (omega arith) (omega arith) (omega arith),
    )
