-- ===== src/Realtime/Fixed.antt =====
-- The fixed-point numbers of common/cpp/realtime/fixed/fixed.hpp and fixed_math.hpp: 32 bits before the
-- point and 32 behind it. A raw `int64_t` is its bit pattern, a number below 2 ^ 64.
pub mod Mul
pub mod Div
use gmaker.Common.{
  ℕ, zero, suc, ◌+◌, ◌-◌, ◌*◌, ◌/◌, ◌%◌, ◌^◌, bit_and, bit_or, Bool, ◌||◌, Option, none, some, ltb,
  leb, ◌==◌, if◌then◌else◌, u64,
}

abbrev pub fraction_bits : ℕ
fraction_bits = 32

abbrev pub one : ℕ
one = 4294967296

-- The sign bit, and `-x`.
unfoldable pub is_negative : ℕ → Bool
is_negative a = leb (2 ^ 63) a

unfoldable pub neg64 : ℕ → ℕ
neg64 a = u64 (2 ^ 64 - a)

-- `from_int`, of the bit pattern of an `int32_t`, and `to_int`.
unfoldable pub from_int : ℕ → ℕ
from_int v = u64 (v * 2 ^ fraction_bits)

unfoldable pub to_int : ℕ → ℕ
to_int raw = raw / 2 ^ fraction_bits

-- `operator+` and `operator-`.
unfoldable pub add : ℕ → ℕ → ℕ
add a b = u64 (a + b)

unfoldable pub sub : ℕ → ℕ → ℕ
sub a b = u64 (a + 2 ^ 64 - b)

-- `operator<`, a comparison of signed numbers.
unfoldable pub less : ℕ → ℕ → Bool
less a b = ltb (u64 (a + 2 ^ 63)) (u64 (b + 2 ^ 63))

-- `to_unsigned_abs`.
unfoldable pub to_unsigned_abs : ℕ → ℕ
to_unsigned_abs v = if is_negative v then u64 (neg64 (u64 (v + 1)) + 1) else v

-- The four products of the halves of two magnitudes, and their sum in halves.
unfoldable pub mul_parts : ℕ → ℕ → ℕ → ℕ → ℕ
mul_parts a_hi a_lo b_hi b_lo =
    let ll = u64 (a_lo * b_lo) in
    let lh = u64 (a_lo * b_hi) in
    let hl = u64 (a_hi * b_lo) in
    let hh = u64 (a_hi * b_hi) in
    let mid = u64 (ll / 2 ^ 32 + bit_and lh 0xFFFFFFFF + bit_and hl 0xFFFFFFFF) in
    let res_lo32 = bit_and mid 0xFFFFFFFF in
    let carry = mid / 2 ^ 32 in
    let res_hi32 = u64 (hh + lh / 2 ^ 32 + hl / 2 ^ 32 + carry) in
    bit_or (u64 (res_hi32 * 2 ^ 32)) res_lo32

-- The product of two magnitudes.
unfoldable pub mul_halves : ℕ → ℕ → ℕ
mul_halves ua ub =
    mul_parts (ua / 2 ^ 32) (bit_and ua 0xFFFFFFFF) (ub / 2 ^ 32) (bit_and ub 0xFFFFFFFF)

-- `neg ? -result : result`, where one operand is negative and the other is not.
unfoldable pub with_sign : ℕ → ℕ → ℕ → ℕ
with_sign a b result =
    if is_negative a
    then (if is_negative b then result else neg64 result)
    else if is_negative b
    then neg64 result
    else result

-- `mul_shift_right32`, which is `operator*`.
unfoldable pub mul_shift_right32 : ℕ → ℕ → ℕ
mul_shift_right32 a b = with_sign a b (mul_halves (to_unsigned_abs a) (to_unsigned_abs b))

-- The loop of `div_q32_32`, for the bits of the fraction.
unfoldable pub div_loop : ℕ → ℕ → ℕ → ℕ → ℕ
div_loop zero rem frac_part denom = frac_part
div_loop (suc n) rem frac_part denom =
    let rem2 = u64 (rem * 2) in
    let frac2 = u64 (frac_part * 2) in
    div_loop n (if leb denom rem2 then rem2 - denom else rem2)
      (if leb denom rem2 then bit_or frac2 1 else frac2) denom

-- `div_q32_32`.
unfoldable pub div_q32_32 : ℕ → ℕ → ℕ
div_q32_32 numer denom =
    if denom == 0
    then 0
    else bit_or (u64 (numer / denom * 2 ^ 32))
        (bit_and (div_loop 32 (numer % denom) 0 denom) 0xFFFFFFFF)

-- `div_shift_left32`.
unfoldable pub div_shift_left32 : ℕ → ℕ → ℕ
div_shift_left32 a b = with_sign a b (div_q32_32 (to_unsigned_abs a) (to_unsigned_abs b))

-- `operator/`; `none` is the exception of a division by zero.
unfoldable pub divide : ℕ → ℕ → Option ℕ
divide a b = if b == 0 then none else some (div_shift_left32 a b)

-- `fixed_abs`.
unfoldable pub fixed_abs : ℕ → ℕ
fixed_abs x = if is_negative x then neg64 x else x

-- The loop of `fixed_sqrt`.
unfoldable pub sqrt_loop : ℕ → ℕ → ℕ → ℕ
sqrt_loop zero n guess = guess
sqrt_loop (suc i) n guess =
    let ng = u64 (guess + n / guess) / 2 in
    let rest = sqrt_loop i n ng in
    if guess == 0 then guess else if leb guess ng then guess else rest

-- `fixed_sqrt`.
unfoldable pub fixed_sqrt : ℕ → ℕ
fixed_sqrt raw =
    let guess = sqrt_loop 40 raw raw in
    if is_negative raw || raw == 0 then 0 else u64 (guess * 2 ^ 16)
