-- ===== src/Realtime/Fixed/Mul.antt =====
-- `mul_shift_right32` of common/cpp/realtime/fixed/fixed.hpp is the exact product, shifted.
use native.Mathlib.Nat.{mul-le-mul, div-add-mod', add-mul-div_right}
use gmaker.Common.{
  ℕ, ◌+◌, ◌-◌, ◌*◌, ◌/◌, ◌%◌, ◌^◌, ◌≤◌, ◌<◌, bit_and, bit_or, ◌≡◌, sym, ap, ap₂, ◌∙◌, subst, ◌≢◌,
  ◌⊎◌, inl, inr, arith, ltb, if◌then◌else◌, Bool-cases, u64,
}
use gmaker.Common.Bits.{or_disjoint, and_mask}
use gmaker.Realtime.Fixed.{
  is_negative, neg64, to_unsigned_abs, mul_parts, mul_halves, with_sign, mul_shift_right32,
}

-- The distance of a two's complement number from 0.
abbrev pub magnitude : ℕ → ℕ
magnitude a = if ltb a (2 ^ 63) then a else 2 ^ 64 - a

pub to_unsigned_abs_lem : (a : ℕ) → a < 2 ^ 64 → to_unsigned_abs a ≡ magnitude a
unfolding to_unsigned_abs neg64 is_negative
to_unsigned_abs_lem a h = ground arith

half_lt : (a : ℕ) → a < 2 ^ 64 → a / 2 ^ 32 < 2 ^ 32
half_lt a h = omega arith

product_lt : (a b : ℕ) → a < 2 ^ 32 → b < 2 ^ 32 → a * b < 2 ^ 64 - 2 ^ 33 + 2
product_lt a b h l =
    let p : a * b ≤ 4294967295 * 4294967295 =
      mul-le-mul {n₁ = a} {m₁ = b} {n₂ = 4294967295} {m₂ = 4294967295} (omega arith)
        (omega arith) in
    omega arith

-- The sum of the four products, in halves of 32 bits.
carried :
    (ll lh hl hh : ℕ)
    → ll < 2 ^ 64
    → lh < 2 ^ 64
    → hl < 2 ^ 64
    → (let mid = u64 (ll / 2 ^ 32 + bit_and lh 0xFFFFFFFF + bit_and hl 0xFFFFFFFF) in
        bit_or
          (u64 (u64 (u64 hh + lh / 2 ^ 32 + hl / 2 ^ 32 + mid / 2 ^ 32) * 2 ^ 32))
          (bit_and mid 0xFFFFFFFF))
      ≡ u64 (hh * 2 ^ 32 + lh + hl + ll / 2 ^ 32)
carried ll lh hl hh a b c =
    let x : bit_and lh 0xFFFFFFFF ≡ lh % 2 ^ 32 = and_mask 32 lh in
    let y : bit_and hl 0xFFFFFFFF ≡ hl % 2 ^ 32 = and_mask 32 hl in
    let mid = u64 (ll / 2 ^ 32 + bit_and lh 0xFFFFFFFF + bit_and hl 0xFFFFFFFF) in
    let z : bit_and mid 0xFFFFFFFF ≡ mid % 2 ^ 32 = and_mask 32 mid in
    let hi = u64 (u64 (u64 hh + lh / 2 ^ 32 + hl / 2 ^ 32 + mid / 2 ^ 32) * 2 ^ 32) in
    let joined : bit_or hi (bit_and mid 0xFFFFFFFF) ≡ hi + bit_and mid 0xFFFFFFFF =
      or_disjoint 32 hi (bit_and mid 0xFFFFFFFF) (omega arith) (omega (arith, z)) in
    joined ∙ omega (arith, x, y, z)

-- The product in terms of the halves.
expanded :
    (ah al bh bl : ℕ)
    → (ah * 4294967296 + al) * (bh * 4294967296 + bl)
      ≡ al * bl + (ah * bh * 4294967296 + al * bh + ah * bl) * 4294967296
expanded ah al bh bl = omega arith

mul_parts_lem :
    (ah al bh bl : ℕ)
    → ah < 2 ^ 32
    → al < 2 ^ 32
    → bh < 2 ^ 32
    → bl < 2 ^ 32
    → mul_parts ah al bh bl ≡ u64 (ah * bh * 2 ^ 32 + al * bh + ah * bl + al * bl / 2 ^ 32)
unfolding mul_parts
mul_parts_lem ah al bh bl h l m n =
    let p = product_lt al bl l n in
    let q = product_lt al bh l m in
    let r = product_lt ah bl h n in
    let e : u64 (al * bl) ≡ al * bl = omega arith in
    let f : u64 (al * bh) ≡ al * bh = omega arith in
    let g : u64 (ah * bl) ≡ ah * bl = omega arith in
    rw (e, f, g)
      (carried (al * bl) (al * bh) (ah * bl) (ah * bh) (omega arith) (omega arith) (omega arith))

-- The sum of the products is the product, shifted.
product_shifted :
    (a b ah al bh bl : ℕ)
    → a ≡ ah * 4294967296 + al
    → b ≡ bh * 4294967296 + bl
    → a * b / 4294967296 ≡ ah * bh * 4294967296 + al * bh + ah * bl + al * bl / 4294967296
product_shifted a b ah al bh bl e f =
    let s = ah * bh * 4294967296 + al * bh + ah * bl in
    ap₂ (λ x y. x * y / 4294967296) e f
    ∙ ap (λ x. x / 4294967296) (expanded ah al bh bl)
    ∙ omega (arith, add-mul-div_right (al * bl) s {z = 4294967296} (omega arith))

pub mul_halves_lem : (a b : ℕ) → a < 2 ^ 64 → b < 2 ^ 64 → mul_halves a b ≡ u64 (a * b / 2 ^ 32)
unfolding mul_halves
mul_halves_lem a b h l =
    ap₂ (λ x y. mul_parts (a / 2 ^ 32) x (b / 2 ^ 32) y) (and_mask 32 a) (and_mask 32 b)
    ∙ mul_parts_lem (a / 2 ^ 32) (a % 2 ^ 32) (b / 2 ^ 32) (b % 2 ^ 32) (omega arith) (omega arith)
        (omega arith) (omega arith)
    ∙ ap u64 (
        sym (
          product_shifted a b (a / 2 ^ 32) (a % 2 ^ 32) (b / 2 ^ 32) (b % 2 ^ 32)
            (sym (div-add-mod' a 4294967296)) (sym (div-add-mod' b 4294967296))))

magnitude-lt : (a : ℕ) → a < 2 ^ 64 → magnitude a < 2 ^ 64
magnitude-lt a h = ground arith

-- A result of a distance from 0, negated where just one of the operands is below 0.
abbrev pub Signed : ℕ → ℕ → ℕ → ℕ → Type 0
Signed a b size r =
    ((ltb a (2 ^ 63) ≡ ltb b (2 ^ 63)) × (r ≡ size))
    ⊎ ((ltb a (2 ^ 63) ≢ ltb b (2 ^ 63)) × (r ≡ (2 ^ 64 - size) % 2 ^ 64))

pub with_sign-Signed : (a b size : ℕ) → size < 2 ^ 64 → Signed a b size (with_sign a b size)
unfolding with_sign is_negative neg64
with_sign-Signed a b size h = elim (Bool-cases (ltb a (2 ^ 63))) [
  | inl x ↦ elim (Bool-cases (ltb b (2 ^ 63))) [ inl y ↦ ground arith | inr y ↦ ground arith ]
  | inr x ↦ elim (Bool-cases (ltb b (2 ^ 63))) [ inl y ↦ ground arith | inr y ↦ ground arith ]
]

-- The product of two fixed-point numbers is that of their distances from 0 divided by 2 ^ 32,
-- rounded towards 0 and modulo 2 ^ 64, where both operands are below 0 or neither is, and its
-- negation in two's complement where just one is.
pub mul_shift_right32_lem :
    (a b : ℕ)
    → a < 2 ^ 64
    → b < 2 ^ 64
    → Signed a b (u64 (magnitude a * magnitude b / 2 ^ 32)) (mul_shift_right32 a b)
unfolding mul_shift_right32
mul_shift_right32_lem a b h l =
    let e =
      ap₂ (λ x y. with_sign a b (mul_halves x y)) (to_unsigned_abs_lem a h)
        (to_unsigned_abs_lem b l)
      ∙ ap (with_sign a b)
          (mul_halves_lem (magnitude a) (magnitude b) (magnitude-lt a h) (magnitude-lt b l)) in
    subst (Signed a b (u64 (magnitude a * magnitude b / 2 ^ 32))) (sym e)
      (with_sign-Signed a b (u64 (magnitude a * magnitude b / 2 ^ 32)) (omega arith))
