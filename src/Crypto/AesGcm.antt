-- ===== src/Crypto/AesGcm.antt =====
-- common/cpp/crypto/aes_gcm.cpp, the build on OpenSSL: an encrypted message is the nonce, the
-- ciphertext and the tag. An exception is `none`.
use gmaker.Common.{
  ℕ, ◌+◌, ◌-◌, ◌≤◌, ◌≡◌, refl, sym, ap, ap₂, ◌∙◌, subst, not, Option, none, some, List, ◌++◌,
  append_assoc, arith, ltb, ◌==◌, if◌then◌else◌, le→ltb, length, take, drop, length-append,
  take-append, drop-append,
}

-- AES-256-GCM of OpenSSL. `seal` is `none` where one of its calls fails, and `unseal` also where the
-- tag does not fit.
pub record Gcm : Type 0 where
  pub seal : List ℕ → List ℕ → List ℕ → Option (List ℕ × List ℕ)
  pub unseal : List ℕ → List ℕ → List ℕ → List ℕ → Option (List ℕ)

-- What OpenSSL documents: the tag has 16 bytes, the ciphertext is as long as the text, and what was sealed is unsealed with its key, nonce and
-- tag.
pub record IsGcm (g : Gcm) : Type 0 where
  pub tag_length :
      (key nonce plaintext : List ℕ) {sealed : List ℕ × List ℕ}
      → g.seal key nonce plaintext ≡ some sealed
      → length sealed.1 ≡ 16
  pub cipher_length :
      (key nonce plaintext : List ℕ) {sealed : List ℕ × List ℕ}
      → g.seal key nonce plaintext ≡ some sealed
      → length sealed.0 ≡ length plaintext
  pub unseals :
      (key nonce plaintext : List ℕ) {sealed : List ℕ × List ℕ}
      → g.seal key nonce plaintext ≡ some sealed
      → g.unseal key nonce sealed.0 sealed.1 ≡ some plaintext

abbrev pub key_size : ℕ
key_size = 32

abbrev pub nonce_size : ℕ
nonce_size = 12

abbrev pub tag_size : ℕ
tag_size = 16

-- `AESGCMEncrypt`, with what `RAND_bytes` gave for the nonce.
unfoldable pub aes_gcm_encrypt : Gcm → Option (List ℕ) → List ℕ → List ℕ → Option (List ℕ)
aes_gcm_encrypt g random key plaintext =
    let sealed : Option (List ℕ) = elim random [
      | none ↦ none
      | some nonce ↦ elim (g.seal key nonce plaintext) [
        | none ↦ none
        | some (ciphertext, tag) ↦ some (nonce ++ (ciphertext ++ tag))
      ]
    ] in
    if not (length key == key_size) then none else sealed

-- `AESGCMDecrypt`.
unfoldable pub aes_gcm_decrypt : Gcm → List ℕ → List ℕ → Option (List ℕ)
aes_gcm_decrypt g key message =
    let nonce = take nonce_size message in
    let ciphertext = take (length message - nonce_size - tag_size) (drop nonce_size message) in
    let tag = drop (length message - tag_size) message in
    if not (length key == key_size)
    then none
    else if ltb (length message) (nonce_size + tag_size)
    then none
    else g.unseal key nonce ciphertext tag

encrypt_run :
    (g : Gcm) (nonce key plaintext ciphertext tag : List ℕ)
    → length key ≡ 32
    → g.seal key nonce plaintext ≡ some (ciphertext, tag)
    → aes_gcm_encrypt g (some nonce) key plaintext ≡ some (nonce ++ (ciphertext ++ tag))
unfolding aes_gcm_encrypt
encrypt_run g nonce key plaintext ciphertext tag k e = rw k (rw e refl)

take-append_of : {n : ℕ} (xs ys : List ℕ) → length xs ≡ n → take n (xs ++ ys) ≡ xs
take-append_of xs ys h = subst (λ n. take n (xs ++ ys) ≡ xs) h (take-append xs ys)

drop-append_of : {n : ℕ} (xs ys : List ℕ) → length xs ≡ n → drop n (xs ++ ys) ≡ ys
drop-append_of xs ys h = subst (λ n. drop n (xs ++ ys) ≡ ys) h (drop-append xs ys)

-- The message splits into its three parts where it was joined.
message_parts :
    (nonce ciphertext tag : List ℕ)
    → length nonce ≡ 12
    → length tag ≡ 16
    → let m = nonce ++ (ciphertext ++ tag) in
      (take 12 m ≡ nonce)
      × (take (length m - 12 - 16) (drop 12 m) ≡ ciphertext)
      × (drop (length m - 16) m ≡ tag)
      × (length m ≡ length ciphertext + 28)
message_parts nonce ciphertext tag n t =
    let total = length-append nonce (ciphertext ++ tag) in
    let inner = length-append ciphertext tag in
    let all = length-append (nonce ++ ciphertext) tag in
    let front = length-append nonce ciphertext in
    (
      take-append_of nonce (ciphertext ++ tag) n,
      ap (take (length (nonce ++ (ciphertext ++ tag)) - 12 - 16))
            (drop-append_of nonce (ciphertext ++ tag) n)
          ∙ take-append_of ciphertext tag (omega arith),
      ap (drop (length (nonce ++ (ciphertext ++ tag)) - 16))
            (sym (append_assoc nonce ciphertext tag))
          ∙ drop-append_of (nonce ++ ciphertext) tag (omega arith),
      omega arith,
    )

decrypt_run :
    (g : Gcm) (key m nonce ciphertext tag : List ℕ)
    → length key ≡ 32
    → 28 ≤ length m
    → take 12 m ≡ nonce
    → take (length m - 12 - 16) (drop 12 m) ≡ ciphertext
    → drop (length m - 16) m ≡ tag
    → aes_gcm_decrypt g key m ≡ g.unseal key nonce ciphertext tag
unfolding aes_gcm_decrypt
decrypt_run g key m nonce ciphertext tag k l a b c =
    rw k (rw (le→ltb (length m) 28 l) (ap₂ (λ f t. f t) (ap₂ (g.unseal key) a b) c))

-- A message that was encrypted with a nonce of 12 bytes is 28 bytes longer than the plaintext, and is
-- decrypted to it with the same key of 32 bytes, if OpenSSL does what `IsGcm` states.
pub decrypt-encrypt :
    (g : Gcm) (nonce key plaintext ciphertext tag : List ℕ)
    → IsGcm g
    → length key ≡ 32
    → length nonce ≡ 12
    → g.seal key nonce plaintext ≡ some (ciphertext, tag)
    → (m : List ℕ) × (aes_gcm_encrypt g (some nonce) key plaintext ≡ some m)
      × (aes_gcm_decrypt g key m ≡ some plaintext)
      × (length m ≡ length plaintext + 28)
decrypt-encrypt g nonce key plaintext ciphertext tag law k n e =
    let t = law.tag_length key nonce plaintext e in
    let (a, b, c, size) = message_parts nonce ciphertext tag n t in
    (
      nonce ++ (ciphertext ++ tag),
      encrypt_run g nonce key plaintext ciphertext tag k e,
      decrypt_run g key (nonce ++ (ciphertext ++ tag)) nonce ciphertext tag k (omega arith) a b c
          ∙ law.unseals key nonce plaintext e,
      size ∙ ap (λ k. k + 28) (law.cipher_length key nonce plaintext e),
    )
