-- ===== src/Crypto/Tests.antt =====
-- The theorems at concrete inputs.
use gmaker.Common.{ℕ, ◌≡◌, ◌↔◌, true, List, [], ◌∷◌, arith}
use gmaker.Crypto.Hmac.{verify_hmac_sha256, to_hex}
use gmaker.Crypto.Hmac.Verify.{verify_hmac_sha256_lem}

-- A message code of two bytes.
abbrev mac : List ℕ → List ℕ → List ℕ
mac _ _ = 0x0A ∷ 0xF3 ∷ []

verify_hmac_sha256_lem_example :
    (verify_hmac_sha256 mac [] [] (b'0' ∷ b'a' ∷ b'f' ∷ b'3' ∷ []) ≡ true)
    ↔ (b'0' ∷ b'a' ∷ b'f' ∷ b'3' ∷ [] ≡ to_hex (mac [] []))
verify_hmac_sha256_lem_example =
    verify_hmac_sha256_lem mac [] [] (b'0' ∷ b'a' ∷ b'f' ∷ b'3' ∷ []) (omega arith) (omega arith)
