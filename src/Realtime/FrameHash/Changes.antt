-- ===== src/Realtime/FrameHash/Changes.antt =====
-- What the hash of common/cpp/realtime/deterministic/frame_hash.hpp never misses.
use gmaker.Common.{
  ℕ, ◌*◌, ◌^◌, ◌<◌, bit_xor, ◌≡◌, refl, sym, ap, ◌∙◌, ◌≢◌, List, [], ◌∷◌, ◌++◌, arith, u64,
}
use gmaker.Common.Bits.{xor-cancel, xor-lt, xor_comm}
use gmaker.Realtime.FrameHash.{fnv_offset, fnv_prime, hash_bytes, fnv1a_hash}

-- Bytes.
abbrev pub AreBytes : List ℕ → Type 0
AreBytes [] = Unit {0}
AreBytes (b ∷ bs) = (b < 256) × AreBytes bs

-- The prime is odd, so that multiplying by it loses nothing.
odd_prime : (x y : ℕ) → x < 2 ^ 64 → y < 2 ^ 64 → u64 (x * fnv_prime) ≡ u64 (y * fnv_prime) → x ≡ y
odd_prime x y h l e = omega arith

-- Different hashes stay different under the same bytes.
pub hash_bytes_inj :
    (bs : List ℕ) (h h' : ℕ)
    → AreBytes bs
    → h < 2 ^ 64
    → h' < 2 ^ 64
    → hash_bytes h bs ≡ hash_bytes h' bs
    → h ≡ h'
unfolding hash_bytes
hash_bytes_inj [] h h' bytes l l' e = e
hash_bytes_inj (b ∷ bs) h h' (byte, bytes) l l' e =
    let x = bit_xor h b in
    let y = bit_xor h' b in
    let same : x ≡ y =
      odd_prime x y (xor-lt 64 h b l (omega arith)) (xor-lt 64 h' b l' (omega arith)) (
        hash_bytes_inj bs (u64 (x * fnv_prime)) (u64 (y * fnv_prime)) bytes (omega arith)
          (omega arith) e) in
    sym (xor-cancel h b) ∙ ap (λ k. bit_xor k b) same ∙ xor-cancel h' b

xor_inj_left : (h b c : ℕ) → bit_xor h b ≡ bit_xor h c → b ≡ c
xor_inj_left h b c e =
    sym (xor-cancel b h) ∙ ap (λ k. bit_xor k h) (xor_comm b h ∙ e ∙ xor_comm h c) ∙ xor-cancel c h

pub hash_bytes-append :
    (xs ys : List ℕ) (h : ℕ) → hash_bytes h (xs ++ ys) ≡ hash_bytes (hash_bytes h xs) ys
unfolding hash_bytes
hash_bytes-append [] ys h = refl
hash_bytes-append (x ∷ xs) ys h = hash_bytes-append xs ys (u64 (bit_xor h x * fnv_prime))

hash_bytes-lt : (bs : List ℕ) (h : ℕ) → h < 2 ^ 64 → hash_bytes h bs < 2 ^ 64
unfolding hash_bytes
hash_bytes-lt [] h l = l
hash_bytes-lt (b ∷ bs) h l = hash_bytes-lt bs (u64 (bit_xor h b * fnv_prime)) (omega arith)

-- The byte behind a hash, of which nothing is lost.
hash_byte_inj :
    (b c : ℕ) (bs : List ℕ) (h : ℕ)
    → b < 256
    → c < 256
    → AreBytes bs
    → h < 2 ^ 64
    → hash_bytes h (b ∷ bs) ≡ hash_bytes h (c ∷ bs)
    → b ≡ c
unfolding hash_bytes
hash_byte_inj b c bs h p q bytes l e = xor_inj_left h b c (
    odd_prime (bit_xor h b) (bit_xor h c) (xor-lt 64 h b l (omega arith))
      (xor-lt 64 h c l (omega arith))
      (hash_bytes_inj bs (u64 (bit_xor h b * fnv_prime)) (u64 (bit_xor h c * fnv_prime)) bytes
        (omega arith) (omega arith) e))

-- A change of one byte, wherever it is, changes the hash: byte strings that differ in just one byte have
-- different hashes.
pub fnv1a_hash-change :
    (pre bs : List ℕ) (b c : ℕ)
    → AreBytes bs
    → b < 256
    → c < 256
    → b ≢ c
    → fnv1a_hash (pre ++ b ∷ bs) ≢ fnv1a_hash (pre ++ c ∷ bs)
unfolding fnv1a_hash
fnv1a_hash-change pre bs b c bytes p q differ e = differ (
    hash_byte_inj b c bs (hash_bytes fnv_offset pre) p q bytes
      (hash_bytes-lt pre fnv_offset (omega arith))
      (sym (hash_bytes-append pre (b ∷ bs) fnv_offset)
        ∙ e
        ∙ hash_bytes-append pre (c ∷ bs) fnv_offset))
