-- ===== src/Net/WsFrame/Lengths.antt =====
-- The length fields of a frame, read back (common/cpp/net/async/ws_frame.cpp).
use gmaker.Common.{
  ℕ, suc, ◌+◌, ◌*◌, ◌/◌, ◌^◌, ◌≤◌, ◌<◌, bit_and, bit_or, ◌≡◌, ap, ◌∙◌, List, ◌∷◌, arith, le→ltb,
  u64, ◌>>◌, length,
}
use gmaker.Common.Bits.{and_clear, or_disjoint}
use gmaker.Net.Bytes.{low_byte}
use gmaker.Net.Bytes.RoundTrip.{low_byte_lem}
use gmaker.Net.WsFrame.{got, length_loop, read_length}

-- The three forms of the length.
pub read_small : (p : List ℕ) (n : ℕ) → n < 126 → read_length p n ≡ got n 2
unfolding read_length
read_small p n h = ground arith

pub read_medium :
    (b0 n : ℕ) (t : List ℕ)
    → 126 ≤ n
    → n ≤ 0xFFFF
    → read_length (b0 ∷ 126 ∷ low_byte (n >> 8) ∷ low_byte n ∷ t) 126 ≡ got n 4
unfolding read_length
read_medium b0 n t lo hi =
    let e : bit_or (u64 (low_byte (n >> 8) * 2 ^ 8)) (low_byte n) ≡ n = omega (
      arith,
      low_byte_lem (n >> 8),
      low_byte_lem n,
      or_disjoint 8 (u64 (low_byte (n >> 8) * 2 ^ 8)) (low_byte n)
          (omega (arith, low_byte_lem (n >> 8))) (omega (arith, low_byte_lem n)),
    ) in
    rw (le→ltb (suc (suc (suc (suc (length t))))) 4 (omega arith), e, le→ltb n 126 lo)

length_step : (acc b : ℕ) → acc < 2 ^ 56 → b < 256 → bit_or (u64 (acc * 2 ^ 8)) b ≡ acc * 256 + b
length_step acc b h l =
    omega (arith, or_disjoint 8 (u64 (acc * 2 ^ 8)) b (omega arith) (omega arith))

-- One round of the loop, from the high bytes of `n` to one byte more.
length_round : (hi x : ℕ) → hi < 2 ^ 56 → x / 256 ≡ hi → bit_or (u64 (hi * 2 ^ 8)) (low_byte x) ≡ x
length_round hi x h e =
    omega (arith, length_step hi (low_byte x) h (omega (arith, low_byte_lem x)), low_byte_lem x)

-- Eight rounds, each put in place of what it computes.
loop_eq :
    (b1 b2 b3 b4 b5 b6 b7 b8 a1 a2 a3 a4 a5 a6 a7 a8 : ℕ) (x y : ℕ) (t : List ℕ)
    → bit_or (u64 (0 * 2 ^ 8)) b1 ≡ a1
    → bit_or (u64 (a1 * 2 ^ 8)) b2 ≡ a2
    → bit_or (u64 (a2 * 2 ^ 8)) b3 ≡ a3
    → bit_or (u64 (a3 * 2 ^ 8)) b4 ≡ a4
    → bit_or (u64 (a4 * 2 ^ 8)) b5 ≡ a5
    → bit_or (u64 (a5 * 2 ^ 8)) b6 ≡ a6
    → bit_or (u64 (a6 * 2 ^ 8)) b7 ≡ a7
    → bit_or (u64 (a7 * 2 ^ 8)) b8 ≡ a8
    → length_loop 8 0 0 (x ∷ y ∷ b1 ∷ b2 ∷ b3 ∷ b4 ∷ b5 ∷ b6 ∷ b7 ∷ b8 ∷ t) ≡ a8
unfolding length_loop
loop_eq b1 b2 b3 b4 b5 b6 b7 b8 a1 a2 a3 a4 a5 a6 a7 a8 x y t e1 e2 e3 e4 e5 e6 e7 e8 =
    let next = λ (a b : ℕ). bit_or (u64 (a * 2 ^ 8)) b in
    ap (λ a. next (next (next (next (next (next (next a b2) b3) b4) b5) b6) b7) b8) e1
    ∙ ap (λ a. next (next (next (next (next (next a b3) b4) b5) b6) b7) b8) e2
    ∙ ap (λ a. next (next (next (next (next a b4) b5) b6) b7) b8) e3
    ∙ ap (λ a. next (next (next (next a b5) b6) b7) b8) e4
    ∙ ap (λ a. next (next (next a b6) b7) b8) e5
    ∙ ap (λ a. next (next a b7) b8) e6
    ∙ ap (λ a. next a b8) e7
    ∙ e8

abbrev pub large_bytes : ℕ → List ℕ → List ℕ
large_bytes n t =
    low_byte (n >> 56)
    ∷ low_byte (n >> 48)
    ∷ low_byte (n >> 40)
    ∷ low_byte (n >> 32)
    ∷ low_byte (n >> 24)
    ∷ low_byte (n >> 16)
    ∷ low_byte (n >> 8)
    ∷ low_byte n
    ∷ t

loop_large :
    (b0 n : ℕ) (t : List ℕ) → n < 2 ^ 63 → length_loop 8 0 0 (b0 ∷ 127 ∷ large_bytes n t) ≡ n
loop_large b0 n t h =
    loop_eq _ _ _ _ _ _ _ _ (n >> 56) (n >> 48) (n >> 40) (n >> 32) (n >> 24) (n >> 16) (n >> 8) n
      b0 127 t (length_round 0 (n >> 56) (omega arith) (omega arith))
      (length_round (n >> 56) (n >> 48) (omega arith) (omega arith))
      (length_round (n >> 48) (n >> 40) (omega arith) (omega arith))
      (length_round (n >> 40) (n >> 32) (omega arith) (omega arith))
      (length_round (n >> 32) (n >> 24) (omega arith) (omega arith))
      (length_round (n >> 24) (n >> 16) (omega arith) (omega arith))
      (length_round (n >> 16) (n >> 8) (omega arith) (omega arith))
      (length_round (n >> 8) n (omega arith) (omega arith))

pub read_large :
    (b0 n : ℕ) (t : List ℕ)
    → 65536 ≤ n
    → n < 2 ^ 63
    → read_length (b0 ∷ 127 ∷ large_bytes n t) 127 ≡ got n 10
unfolding read_length
read_large b0 n t lo hi =
    let top : bit_and (low_byte (n >> 56)) 0x80 ≡ 0 =
      and_clear 7 (low_byte (n >> 56)) (omega (arith, low_byte_lem (n >> 56))) in
    rw (
      le→ltb (length (b0 ∷ 127 ∷ large_bytes n t)) 10 (omega arith),
      top,
      loop_large b0 n t hi,
      le→ltb n 65536 lo,
    )
