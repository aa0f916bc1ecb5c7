-- ===== src/Crypto/Hmac.antt =====
-- common/cpp/crypto/hmac.cpp: the hexadecimal form of a message code, and its comparison.
pub mod Verify
use gmaker.Common.{
  ℕ, ◌+◌, ◌-◌, ◌/◌, ◌%◌, bit_or, bit_xor, Bool, false, not, List, [], ◌∷◌, ltb, ◌==◌, if◌then◌else◌,
  u8, length,
}

-- A digit of `std::hex`.
unfoldable pub hex_digit : ℕ → ℕ
hex_digit d = if ltb d 10 then b'0' + d else b'a' + (d - 10)

-- The loop of `HMACSHA256`: two digits for each byte, the first `0` by `std::setfill`.
unfoldable pub to_hex : List ℕ → List ℕ
to_hex [] = []
to_hex (b ∷ bs) = hex_digit (b / 16) ∷ hex_digit (b % 16) ∷ to_hex bs

-- `HMACSHA256`; `mac` is `HMACSHA256Raw`, which calls OpenSSL.
unfoldable pub hmac_sha256 : (List ℕ → List ℕ → List ℕ) → List ℕ → List ℕ → List ℕ
hmac_sha256 mac key message = to_hex (mac key message)

-- The loop of `VerifyHMACSHA256`: `result |= computed[i] ^ expectedHex[i]`.
unfoldable pub difference : ℕ → List ℕ → List ℕ → ℕ
difference result [] ys = result
difference result (x ∷ xs) [] = result
difference result (x ∷ xs) (y ∷ ys) = difference (u8 (bit_or result (bit_xor x y))) xs ys

-- `VerifyHMACSHA256`.
unfoldable pub verify_hmac_sha256 : (List ℕ → List ℕ → List ℕ) → List ℕ → List ℕ → List ℕ → Bool
verify_hmac_sha256 mac key message expected_hex =
    let computed = hmac_sha256 mac key message in
    if not (length computed == length expected_hex)
    then false
    else difference 0 computed expected_hex == 0
