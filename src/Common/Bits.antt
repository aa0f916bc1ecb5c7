-- ===== src/Common/Bits.antt =====
-- `&`, `|` and `^` on native numbers as arithmetic on their binary digits.
use Prim.Native.Nat.{
  ℕ, zero, suc, ◌+◌, ◌-◌, ◌*◌, ◌/◌, ◌%◌, ◌^◌, ◌≤◌, ◌<◌, min, max, bit_and, bit_or, bit_xor, digits,
  bitwise, differ, bit_and-bitwise, bit_or-bitwise, bit_xor-bitwise,
}
use mathlib.Core.Path.{◌≡◌, refl, ap, ap₂, sym, ◌∙◌}
use native.Mathlib.Nat.{pow-suc, one-le-pow, le_refl, div-add-mod'}
use native.Mathlib.Omega.{arith}

module _ (z : ℕ → ℕ) (f : ℕ → ℕ → ℕ) where
  -- Fuel beyond the first operand changes nothing.
  digits-fuel : (m n a b : ℕ) → a ≤ m → a ≤ n → digits z f m a b ≡ digits z f n a b
  digits-fuel zero zero zero b p q = refl
  digits-fuel zero (suc n) zero b p q = refl
  digits-fuel (suc m) zero zero b p q = refl
  digits-fuel (suc m) (suc n) zero b p q = refl
  digits-fuel zero n (suc a) b p q = absurd (omega arith)
  digits-fuel (suc m) zero (suc a) b p q = absurd (omega arith)
  digits-fuel (suc m) (suc n) (suc a) b p q =
      ap (λ d. d * 2 + f (suc a % 2) (b % 2))
        (digits-fuel m n (suc a / 2) (b / 2) (omega arith) (omega arith))

  -- The lowest digit of a bitwise operation, where `z` follows the same rule.
  bitwise-halve :
      ((b : ℕ) → z b ≡ z (b / 2) * 2 + f 0 (b % 2))
      → (a b : ℕ) → bitwise z f a b ≡ bitwise z f (a / 2) (b / 2) * 2 + f (a % 2) (b % 2)
  bitwise-halve h zero b = h b
  bitwise-halve h (suc a) b =
      ap (λ d. d * 2 + f (suc a % 2) (b % 2))
        (digits-fuel a (suc a / 2) (suc a / 2) (b / 2) (omega arith) (le_refl _))

pub and-halve : (a b : ℕ) → bit_and a b ≡ bit_and (a / 2) (b / 2) * 2 + min (a % 2) (b % 2)
and-halve a b = simp bit_and-bitwise (bitwise-halve (λ b. zero) min (λ b. omega arith) a b)

pub or-halve : (a b : ℕ) → bit_or a b ≡ bit_or (a / 2) (b / 2) * 2 + max (a % 2) (b % 2)
or-halve a b = simp bit_or-bitwise (bitwise-halve (λ b. b) max (λ b. omega arith) a b)

pub xor-halve : (a b : ℕ) → bit_xor a b ≡ bit_xor (a / 2) (b / 2) * 2 + differ (a % 2) (b % 2)
xor-halve a b = simp bit_xor-bitwise (bitwise-halve (λ b. b) differ (λ b. omega arith) a b)

-- Induction on a bound for the larger operand, which halves in each step.
zero-or : (a : ℕ) → bit_or 0 a ≡ a
zero-or a = bit_or-bitwise 0 a

or-zero_below : (n a : ℕ) → a ≤ n → bit_or a 0 ≡ a
or-zero_below zero a h = let e : a ≡ 0 = omega arith in rw e (zero-or 0)
or-zero_below (suc n) zero h = zero-or 0
or-zero_below (suc n) (suc a) h =
    omega (arith, or-halve (suc a) 0, or-zero_below n (suc a / 2) (omega arith))

pub or-zero : (a : ℕ) → bit_or a 0 ≡ a
or-zero a = or-zero_below a a (le_refl _)

zero-and : (a : ℕ) → bit_and 0 a ≡ 0
zero-and a = bit_and-bitwise 0 a

and-zero_below : (n a : ℕ) → a ≤ n → bit_and a 0 ≡ 0
and-zero_below zero a h = let e : a ≡ 0 = omega arith in rw e (zero-and 0)
and-zero_below (suc n) zero h = zero-and 0
and-zero_below (suc n) (suc a) h =
    omega (arith, and-halve (suc a) 0, and-zero_below n (suc a / 2) (omega arith))

and-zero : (a : ℕ) → bit_and a 0 ≡ 0
and-zero a = and-zero_below a a (le_refl _)

double_pow : (q k : ℕ) → q * 2 ^ suc k ≡ 2 * (q * 2 ^ k)
double_pow q k = omega (arith, ap (λ (t : ℕ). q * t) (pow-suc 2 k))

-- `(q << k) | r` with `r` below the shift is their sum.
pub or_shifted : (k q r : ℕ) → r < 2 ^ k → bit_or (q * 2 ^ k) r ≡ q * 2 ^ k + r
or_shifted zero q r h = let e : r ≡ 0 = omega arith in rw e (omega (arith, or-zero (q * 2 ^ 0)))
or_shifted (suc k) q r h =
    let half : q * 2 ^ suc k / 2 ≡ q * 2 ^ k = omega (arith, double_pow q k) in
    omega (
      arith,
      or-halve (q * 2 ^ suc k) r,
      double_pow q k,
      ap (λ t. bit_or t (r / 2)) half,
      or_shifted k q (r / 2) (omega (arith, pow-suc 2 k)),
    )

mod-double : (p x : ℕ) → 0 < p → x % (2 * p) ≡ 2 * (x / 2 % p) + x % 2
mod-double p x h = grind arith

-- `x & (2^k - 1)` is the remainder by `2 ^ k`.
pub and_mask : (k x : ℕ) → bit_and x (2 ^ k - 1) ≡ x % 2 ^ k
and_mask zero x = omega (arith, and-zero x)
and_mask (suc k) x =
    let p : 2 ^ suc k ≡ 2 * 2 ^ k = omega (arith, pow-suc 2 k) in
    let half : (2 * 2 ^ k - 1) / 2 ≡ 2 ^ k - 1 = omega (arith, one-le-pow k 2) in
    rw p (
      omega (
        arith,
        and-halve x (2 * 2 ^ k - 1),
        one-le-pow k 2,
        ap (bit_and (x / 2)) half,
        and_mask k (x / 2),
        mod-double (2 ^ k) x (one-le-pow k 2 (omega arith)),
      ))

-- `a | r` where `a` has its low `k` bits clear and `r` has only those.
pub or_disjoint : (k a r : ℕ) → a % 2 ^ k ≡ 0 → r < 2 ^ k → bit_or a r ≡ a + r
or_disjoint k a r h l =
    let e : a ≡ a / 2 ^ k * 2 ^ k = omega (arith, div-add-mod' a (2 ^ k)) in
    ap (λ t. bit_or t r) e ∙ or_shifted k (a / 2 ^ k) r l ∙ ap (λ t. t + r) (sym e)

differ-cancel : (a b : ℕ) → a < 2 → b < 2 → differ (differ a b) b ≡ a
differ-cancel zero zero h l = refl
differ-cancel zero (suc zero) h l = refl
differ-cancel (suc zero) zero h l = refl
differ-cancel (suc zero) (suc zero) h l = refl
differ-cancel (suc (suc a)) b h l = absurd (omega arith)
differ-cancel zero (suc (suc b)) h l = absurd (omega arith)
differ-cancel (suc zero) (suc (suc b)) h l = absurd (omega arith)

differ-lt : (a b : ℕ) → a < 2 → b < 2 → differ a b < 2
differ-lt zero b h l = l
differ-lt (suc zero) zero h l = h
differ-lt (suc zero) (suc zero) h l = omega arith
differ-lt (suc (suc a)) b h l = absurd (omega arith)
differ-lt (suc zero) (suc (suc b)) h l = absurd (omega arith)

pub zero-xor : (b : ℕ) → bit_xor 0 b ≡ b
zero-xor b = bit_xor-bitwise 0 b

xor-cancel_below : (n a b : ℕ) → a ≤ n → b ≤ n → bit_xor (bit_xor a b) b ≡ a
xor-cancel_below zero a b h l =
    let p : a ≡ 0 = omega arith in let q : b ≡ 0 = omega arith in rw (p, q, zero-xor 0) (zero-xor 0)
xor-cancel_below (suc n) a b h l =
    let x = bit_xor a b in
    let d = differ (a % 2) (b % 2) in
    let d2 = differ-lt (a % 2) (b % 2) (omega arith) (omega arith) in
    let half : x / 2 ≡ bit_xor (a / 2) (b / 2) = omega (arith, xor-halve a b) in
    let low : x % 2 ≡ d = omega (arith, xor-halve a b) in
    omega (
      arith,
      xor-halve x b,
      ap (λ t. bit_xor t (b / 2)) half,
      xor-cancel_below n (a / 2) (b / 2) (omega arith) (omega arith),
      ap (λ t. differ t (b % 2)) low,
      differ-cancel (a % 2) (b % 2) (omega arith) (omega arith),
    )

-- `(a ^ b) ^ b` is `a`.
pub xor-cancel : (a b : ℕ) → bit_xor (bit_xor a b) b ≡ a
xor-cancel a b = xor-cancel_below (a + b) a b (omega arith) (omega arith)

differ_comm : (a b : ℕ) → a < 2 → b < 2 → differ a b ≡ differ b a
differ_comm zero zero h l = refl
differ_comm zero (suc zero) h l = refl
differ_comm (suc zero) zero h l = refl
differ_comm (suc zero) (suc zero) h l = refl
differ_comm (suc (suc a)) b h l = absurd (omega arith)
differ_comm zero (suc (suc b)) h l = absurd (omega arith)
differ_comm (suc zero) (suc (suc b)) h l = absurd (omega arith)

xor_comm_below : (n a b : ℕ) → a ≤ n → b ≤ n → bit_xor a b ≡ bit_xor b a
xor_comm_below zero a b h l =
    let p : a ≡ 0 = omega arith in let q : b ≡ 0 = omega arith in rw (p, q) refl
xor_comm_below (suc n) a b h l = omega (
  arith,
  xor-halve a b,
  xor-halve b a,
  xor_comm_below n (a / 2) (b / 2) (omega arith) (omega arith),
  differ_comm (a % 2) (b % 2) (omega arith) (omega arith),
)

pub xor_comm : (a b : ℕ) → bit_xor a b ≡ bit_xor b a
xor_comm a b = xor_comm_below (a + b) a b (omega arith) (omega arith)

-- `^` of numbers of `k` bits has `k` bits.
pub xor-lt : (k a b : ℕ) → a < 2 ^ k → b < 2 ^ k → bit_xor a b < 2 ^ k
xor-lt zero a b h l =
    let p : a ≡ 0 = omega arith in
    let q : b ≡ 0 = omega arith in omega (arith, ap₂ bit_xor p q, zero-xor 0)
xor-lt (suc k) a b h l = omega (
  arith,
  pow-suc 2 k,
  xor-halve a b,
  xor-lt k (a / 2) (b / 2) (omega (arith, pow-suc 2 k)) (omega (arith, pow-suc 2 k)),
  differ-lt (a % 2) (b % 2) (omega arith) (omega arith),
)

-- A bit above a number's width is clear.
pub and_clear : (k x : ℕ) → x < 2 ^ k → bit_and x (2 ^ k) ≡ 0
and_clear zero x h = let e : x ≡ 0 = omega arith in ap (λ t. bit_and t (2 ^ 0)) e ∙ zero-and (2 ^ 0)
and_clear (suc k) x h =
    let p : 2 ^ suc k ≡ 2 * 2 ^ k = omega (arith, pow-suc 2 k) in
    let half : 2 * 2 ^ k / 2 ≡ 2 ^ k = omega arith in
    rw p (
      omega (
        arith,
        and-halve x (2 * 2 ^ k),
        ap (bit_and (x / 2)) half,
        and_clear k (x / 2) (omega (arith, p)),
      ))
