-- ===== src/Crypto/Hmac/Verify.antt =====
-- What the comparison of common/cpp/crypto/hmac.cpp accepts.
use gmaker.Common.{
  ℕ, zero, suc, ◌+◌, ◌/◌, ◌%◌, ◌^◌, ◌≤◌, ◌<◌, bit_or, bit_xor, ◌≡◌, refl, sym, ap, ap₂, ◌∙◌, subst₂,
  ◌↔◌, true, List, [], ◌∷◌, arith, u8, length,
}
use native.Mathlib.Nat.{pow-suc}
use gmaker.Common.Bits.{or-halve, xor-cancel, zero-xor, xor-lt}
use gmaker.Crypto.Hmac.{hex_digit, to_hex, hmac_sha256, difference, verify_hmac_sha256}

or-eq_zero_below : (n a b : ℕ) → a ≤ n → b ≤ n → bit_or a b ≡ 0 → (a ≡ 0) × (b ≡ 0)
or-eq_zero_below zero a b h l e = omega arith
or-eq_zero_below (suc n) a b h l e =
    let halves : (a / 2 ≡ 0) × (b / 2 ≡ 0) =
      or-eq_zero_below n (a / 2) (b / 2) (omega arith) (omega arith)
        (omega (arith, or-halve a b)) in
    omega (arith, or-halve a b)

or-eq_zero : (a b : ℕ) → bit_or a b ≡ 0 → (a ≡ 0) × (b ≡ 0)
or-eq_zero a b e = or-eq_zero_below (a + b) a b (omega arith) (omega arith) e

or-lt : (k a b : ℕ) → a < 2 ^ k → b < 2 ^ k → bit_or a b < 2 ^ k
or-lt zero a b h l =
    let p : a ≡ 0 = omega arith in
    let q : b ≡ 0 = omega arith in subst₂ (λ x y. bit_or x y < 2 ^ 0) (sym p) (sym q) (omega arith)
or-lt (suc k) a b h l = omega (
  arith,
  pow-suc 2 k,
  or-halve a b,
  or-lt k (a / 2) (b / 2) (omega (arith, pow-suc 2 k)) (omega (arith, pow-suc 2 k)),
)

xor_self : (a : ℕ) → bit_xor a a ≡ 0
xor_self a = ap (λ t. bit_xor t a) (sym (zero-xor a)) ∙ xor-cancel 0 a

xor-eq_zero : (a b : ℕ) → bit_xor a b ≡ 0 → a ≡ b
xor-eq_zero a b e = sym (xor-cancel a b) ∙ ap (λ t. bit_xor t b) e ∙ zero-xor b

-- Every number of the list fits a byte.
abbrev pub Bytes : List ℕ → Type 0
Bytes [] = Unit {0}
Bytes (b ∷ bs) = (b < 256) × Bytes bs

hex_digit-lt : (d : ℕ) → d < 16 → hex_digit d < 256
unfolding hex_digit
hex_digit-lt d h = ground arith

to_hex-Bytes : (bs : List ℕ) → Bytes bs → Bytes (to_hex bs)
unfolding to_hex
to_hex-Bytes [] h = tt
to_hex-Bytes (b ∷ bs) h =
    let (hb, hs) = h in
    (hex_digit-lt (b / 16) (omega arith), (hex_digit-lt (b % 16) (omega arith), to_hex-Bytes bs hs))

-- One round: the sum of differences stays a byte.
accumulated :
    (r x y : ℕ) → r < 256 → x < 256 → y < 256 → u8 (bit_or r (bit_xor x y)) ≡ bit_or r (bit_xor x y)
accumulated r x y hr hx hy = let l = or-lt 8 r (bit_xor x y) hr (xor-lt 8 x y hx hy) in omega arith

difference_equal : (xs : List ℕ) → Bytes xs → difference 0 xs xs ≡ 0
unfolding difference
difference_equal [] h = refl
difference_equal (x ∷ xs) h =
    let e : u8 (bit_or 0 (bit_xor x x)) ≡ 0 = ap (λ t. u8 (bit_or 0 t)) (xor_self x) in
    rw e (difference_equal xs h.1)

-- A comparison without a difference started without one, and its texts agree.
difference_zero :
    (r : ℕ) (xs ys : List ℕ)
    → r < 256
    → Bytes xs
    → Bytes ys
    → length xs ≡ length ys
    → difference r xs ys ≡ 0
    → (r ≡ 0) × (xs ≡ ys)
unfolding difference
difference_zero r [] [] h p q l e = (e, refl)
difference_zero r [] (y ∷ ys) h p q l e = absurd (omega arith)
difference_zero r (x ∷ xs) [] h p q l e = absurd (omega arith)
difference_zero r (x ∷ xs) (y ∷ ys) h (px, ps) (qy, qs) l e =
    let same = accumulated r x y h px qy in
    let (z, rest) =
      difference_zero (u8 (bit_or r (bit_xor x y))) xs ys (omega arith) ps qs (omega arith) e in
    let (r0, x0) = or-eq_zero r (bit_xor x y) (sym same ∙ z) in
    (r0, ap₂ ◌∷◌ (xor-eq_zero x y x0) rest)

compared :
    (mac : List ℕ → List ℕ → List ℕ) (key message expected : List ℕ)
    → verify_hmac_sha256 mac key message expected ≡ true
    → (length (hmac_sha256 mac key message) ≡ length expected)
      × (difference 0 (hmac_sha256 mac key message) expected ≡ 0)
unfolding verify_hmac_sha256
compared mac key message expected h = ground arith

verified :
    (mac : List ℕ → List ℕ → List ℕ) (key message expected : List ℕ)
    → length (hmac_sha256 mac key message) ≡ length expected
    → difference 0 (hmac_sha256 mac key message) expected ≡ 0
    → verify_hmac_sha256 mac key message expected ≡ true
unfolding verify_hmac_sha256
verified mac key message expected l e = ground arith

-- The comparison, which reads all of both texts whatever they hold, accepts exactly the hexadecimal form
-- of the message code, if the code and the expected text are bytes.
pub verify_hmac_sha256_lem :
    (mac : List ℕ → List ℕ → List ℕ) (key message expected : List ℕ)
    → Bytes (mac key message)
    → Bytes expected
    → (verify_hmac_sha256 mac key message expected ≡ true) ↔ (expected ≡ to_hex (mac key message))
unfolding hmac_sha256
verify_hmac_sha256_lem mac key message expected b be =
    let code = to_hex-Bytes (mac key message) b in
    (
      λ h.
          let (l, e) = compared mac key message expected h in
          sym (difference_zero 0 (to_hex (mac key message)) expected (omega arith) code be l e).1,
      λ e.
          verified mac key message expected (ap length (sym e))
            (ap (difference 0 (to_hex (mac key message))) e ∙ difference_equal _ code),
    )
