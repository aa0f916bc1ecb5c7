-- ===== src/Crypto/Session.antt =====
-- common/cpp/crypto/session.cpp: session keys, and the checks round the cipher. An exception is `none`.
use gmaker.Common.{ℕ, not, Option, none, some, List, [], ◌∷◌, ◌++◌, ◌==◌, if◌then◌else◌, length}
use gmaker.Crypto.AesGcm.{Gcm, aes_gcm_encrypt, aes_gcm_decrypt}

-- The label `gmaker-session-v1`.
abbrev pub label : List ℕ
label =
    b'g' ∷ b'm' ∷ b'a' ∷ b'k' ∷ b'e' ∷ b'r' ∷ b'-' ∷ b's' ∷ b'e' ∷ b's' ∷ b's' ∷ b'i' ∷ b'o' ∷ b'n'
    ∷ b'-' ∷ b'v' ∷ b'1' ∷ []

-- `DeriveSessionKey` with the client's random bytes; `mac` is HMAC-SHA256 of OpenSSL.
unfoldable pub derive_session_key : (List ℕ → List ℕ → List ℕ) → List ℕ → List ℕ → Option (List ℕ)
derive_session_key mac master_key client_random =
    if not (length master_key == 32) then none else some (mac master_key (label ++ client_random))

-- `DeriveSessionKey` with the random bytes of both sides.
unfoldable pub derive_session_key_both :
    (List ℕ → List ℕ → List ℕ) → List ℕ → List ℕ → List ℕ → Option (List ℕ)
derive_session_key_both mac master_key client_random server_random =
    if not (length master_key == 32)
    then none
    else some (mac master_key ((label ++ client_random) ++ server_random))

-- `EncryptPacketPayload`.
unfoldable pub encrypt_packet_payload : Gcm → Option (List ℕ) → List ℕ → List ℕ → Option (List ℕ)
encrypt_packet_payload g random key payload =
    if not (length key == 32) then none else aes_gcm_encrypt g random key payload

-- `DecryptPacketPayload`.
unfoldable pub decrypt_packet_payload : Gcm → List ℕ → List ℕ → Option (List ℕ)
decrypt_packet_payload g key encrypted_payload =
    if not (length key == 32) then none else aes_gcm_decrypt g key encrypted_payload
