-- ===== src/Realtime/Fixed/Div.antt =====
-- `div_shift_left32` of common/cpp/realtime/fixed/fixed.hpp is the exact quotient.
use native.Mathlib.Nat.{
  pow-suc, div-eq_of_lt-le, div-add-mod', lt_of_mul-lt-mul_right, mod-lt, mul-le-mul_left,
  mul-le-mul_right, one-le-pow,
}
use gmaker.Common.{
  ℕ, zero, suc, ◌+◌, ◌-◌, ◌*◌, ◌/◌, ◌%◌, ◌^◌, ◌≤◌, ◌<◌, bit_and, bit_or, ◌≡◌, refl, sym, ap, ap₂,
  ◌∙◌, subst, ◌≢◌, ◌⊎◌, inl, inr, none, some, arith, leb, ◌==◌, leb→le, leb→lt, ==→eq, ==→ne, ne→==,
  Bool-cases, u64,
}
use gmaker.Common.Bits.{or_disjoint, or_shifted, and_mask}
use gmaker.Realtime.Fixed.{div_loop, div_q32_32, with_sign, div_shift_left32, divide}
use gmaker.Realtime.Fixed.Mul.{magnitude, to_unsigned_abs_lem, Signed, with_sign-Signed}

-- One round: twice the remainder, less the divisor where it is that large, and a bit.
div_round :
    (n rem frac d : ℕ)
    → rem < d
    → d ≤ 2 ^ 63
    → frac < 2 ^ 63
    → (rem' : ℕ) × (bit : ℕ) × (div_loop (suc n) rem frac d ≡ div_loop n rem' (frac * 2 + bit) d)
      × (rem * 2 ≡ rem' + bit * d)
      × (rem' < d)
      × (bit ≤ 1)
unfolding div_loop
div_round n rem frac d r s f =
    let e : u64 (rem * 2) ≡ rem * 2 = omega arith in
    let g : u64 (frac * 2) ≡ frac * 2 = omega arith in
    elim (Bool-cases (leb d (u64 (rem * 2)))) [
      | inl large ↦ (
        rem * 2 - d,
        1,
        rw large (
            ap₂ (λ x y. div_loop n (x - d) y d) e
              (ap (λ y. bit_or y 1) g ∙ or_shifted 1 frac 1 (omega arith))),
        omega (arith, leb→le d (u64 (rem * 2)) large),
        omega arith,
        omega arith,
      )
      | inr little ↦ (
        rem * 2,
        0,
        rw little (ap₂ (λ x y. div_loop n x y d) e (g ∙ omega arith)),
        omega arith,
        omega (arith, leb→lt d (u64 (rem * 2)) little),
        omega arith,
      )
    ]

doubled :
    (frac d rem rem' bit p : ℕ)
    → rem * 2 ≡ rem' + bit * d
    → (frac * d + rem) * (p * 2) ≡ ((frac * 2 + bit) * d + rem') * p
doubled frac d rem rem' bit p e = omega (arith, ap (λ x. x * p) e)

bit_fits : (frac bit p m : ℕ) → bit ≤ 1 → (frac + 1) * (p * 2) ≤ m → (frac * 2 + bit + 1) * p ≤ m
bit_fits frac bit p m b h =
    let l : (frac * 2 + bit + 1) * p ≤ (frac * 2 + 2) * p =
      mul-le-mul_right {m = frac * 2 + bit + 1} {n = frac * 2 + 2} p (omega arith) in
    omega arith

small_frac : (frac p : ℕ) → 1 ≤ p → (frac + 1) * p ≤ 2 ^ 32 → frac < 2 ^ 32
small_frac frac p l h =
    let m : (frac + 1) * 1 ≤ (frac + 1) * p = mul-le-mul_left {m = 1} {n = p} (frac + 1) l in
    omega arith

-- The loop divides `frac * d + rem`, doubled in each round.
div_loop_lem :
    (n rem frac d : ℕ)
    → rem < d
    → d ≤ 2 ^ 63
    → (frac + 1) * 2 ^ n ≤ 2 ^ 32
    → (rem' : ℕ) × ((frac * d + rem) * 2 ^ n ≡ div_loop n rem frac d * d + rem') × (rem' < d)
unfolding div_loop
div_loop_lem zero rem frac d r s f = (rem, omega arith, r)
div_loop_lem (suc n) rem frac d r s f =
    let p : 2 ^ suc n ≡ 2 ^ n * 2 = pow-suc 2 n in
    let f' : (frac + 1) * (2 ^ n * 2) ≤ 2 ^ 32 = subst (λ k. (frac + 1) * k ≤ 2 ^ 32) p f in
    let small = small_frac frac (2 ^ suc n) (one-le-pow (suc n) 2 (omega arith)) f in
    let (rem1, bit, run, e, r1, b) = div_round n rem frac d r s (omega arith) in
    let (rem', total, r') =
      div_loop_lem n rem1 (frac * 2 + bit) d r1 s (bit_fits frac bit (2 ^ n) (2 ^ 32) b f') in
    (
      rem',
      ap (λ k. (frac * d + rem) * k) p
          ∙ doubled frac d rem rem1 bit (2 ^ n) e
          ∙ total
          ∙ ap (λ k. k * d + rem') (sym run),
      r',
    )

-- A remainder below the divisor gives a fraction of 32 bits.
fraction :
    (rem d : ℕ)
    → rem < d
    → d ≤ 2 ^ 63
    → (div_loop 32 rem 0 d < 2 ^ 32)
      × (rem' : ℕ) × (rem * 2 ^ 32 ≡ div_loop 32 rem 0 d * d + rem')
      × (rem' < d)
fraction rem d r s =
    let (rem', total, r') = div_loop_lem 32 rem 0 d r s (omega arith) in
    let f = div_loop 32 rem 0 d in
    let e : rem * 2 ^ 32 ≡ f * d + rem' = omega (arith, total) in
    (lt_of_mul-lt-mul_right d {m = f} {n = 2 ^ 32} (omega arith), rem', e, r')

pub div_q32_32_lem :
    (numer denom : ℕ)
    → 0 < denom
    → denom ≤ 2 ^ 63
    → div_q32_32 numer denom ≡ u64 (numer * 2 ^ 32 / denom)
unfolding div_q32_32
div_q32_32_lem numer denom pos small =
    let q = numer / denom in
    let r = numer % denom in
    let (fits, rem', e, l) = fraction r denom (mod-lt numer pos) small in
    let f = div_loop 32 r 0 denom in
    let parts : q * denom + r ≡ numer = div-add-mod' numer denom in
    let total : numer * 2 ^ 32 ≡ (q * 2 ^ 32 + f) * denom + rem' =
      omega (arith, ap (λ k. k * 4294967296) parts, e) in
    let exact : numer * 2 ^ 32 / denom ≡ q * 2 ^ 32 + f =
      div-eq_of_lt-le {k = q * 2 ^ 32 + f} denom (omega (arith, total)) (omega (arith, total, l)) in
    let mask : bit_and f 0xFFFFFFFF ≡ f = and_mask 32 f ∙ omega arith in
    let joined : bit_or (u64 (q * 2 ^ 32)) f ≡ u64 (q * 2 ^ 32) + f =
      or_disjoint 32 (u64 (q * 2 ^ 32)) f (omega arith) fits in
    rw (ne→== denom 0 (omega arith))
      (ap (bit_or (u64 (q * 2 ^ 32))) mask ∙ joined ∙ omega (arith, exact))

magnitude_of_divisor : (b : ℕ) → b < 2 ^ 64 → b ≢ 0 → (0 < magnitude b) × (magnitude b ≤ 2 ^ 63)
magnitude_of_divisor b h n = (ground arith, ground arith)

-- Division throws just for the divisor 0; any other quotient is that of the distances from 0 with
-- 32 bits behind the point, rounded towards 0 and modulo 2 ^ 64, where both operands are below 0
-- or neither is, and its negation in two's complement where just one is.
pub divide_lem :
    (a b : ℕ)
    → a < 2 ^ 64
    → b < 2 ^ 64
    → ((b ≡ 0) × (divide a b ≡ none))
      ⊎ ((b ≢ 0)
          × (r : ℕ) × (divide a b ≡ some r)
          × Signed a b (u64 (magnitude a * 2 ^ 32 / magnitude b)) r)
unfolding divide div_shift_left32
divide_lem a b h l = elim (Bool-cases (b == 0)) [
  | inl zero_divisor ↦ inl (==→eq b 0 zero_divisor, rw zero_divisor refl)
  | inr other ↦
      let n = ==→ne b 0 other in
      let (pos, small) = magnitude_of_divisor b l n in
      let q = u64 (magnitude a * 2 ^ 32 / magnitude b) in
      let e = ap some (
        ap₂ (λ x y. with_sign a b (div_q32_32 x y)) (to_unsigned_abs_lem a h)
          (to_unsigned_abs_lem b l)
        ∙ ap (with_sign a b) (div_q32_32_lem (magnitude a) (magnitude b) pos small)) in
      inr (n, with_sign a b q, rw other e, with_sign-Signed a b q (omega arith))
]
