-- ===== src/Gateway/Sessions/Handshake.antt =====
-- What the handshake of the gateway, services/gateway-cpp/main.cpp, establishes between it and a client.
use gmaker.Common.{
  ℕ, suc, ◌+◌, ◌≤◌, ◌≡◌, refl, sym, ap, Bool, true, false, some, List, ◌∷◌, ◌++◌, arith, ltb, ◌==◌,
  le→ltb, ==_self, u32, length, get_or, take, drop, length-append,
}
use gmaker.Common.Dict.{Dict, put, find-put}
use gmaker.Net.Packet.{Header, header_size}
use gmaker.Crypto.AesGcm.{Gcm, IsGcm, decrypt-encrypt}
use gmaker.Crypto.Session.{
  label, derive_session_key_both, encrypt_packet_payload, decrypt_packet_payload,
}
use gmaker.Gateway.Sessions.{
  PlainPacket, get_session_key, answer, pass, handshake_answer, handle_handshake, decrypt_client,
}

-- Encryption of a payload and its decryption with the same key of 32 bytes.
pub sealed_payload :
    (g : Gcm) (nonce key plaintext ciphertext tag : List ℕ)
    → IsGcm g
    → length key ≡ 32
    → length nonce ≡ 12
    → g.seal key nonce plaintext ≡ some (ciphertext, tag)
    → (m : List ℕ) × (encrypt_packet_payload g (some nonce) key plaintext ≡ some m)
      × (decrypt_packet_payload g key m ≡ some plaintext)
      × (length m ≡ length plaintext + 28)
unfolding encrypt_packet_payload decrypt_packet_payload
sealed_payload g nonce key plaintext ciphertext tag law k n e =
    let (m, enc, dec, size) = decrypt-encrypt g nonce key plaintext ciphertext tag law k n e in
    (m, rw k enc, rw k dec, size)

pub get_session_key-put :
    (sessions : Dict (List ℕ)) (conn : ℕ) (key : List ℕ)
    → get_session_key (put sessions conn key) conn ≡ key
unfolding get_session_key
get_session_key-put sessions conn key =
    rw (find-put sessions conn key conn, ==_self conn, get_session_key) refl

-- A payload that was encrypted with the connection's key passes as its plaintext.
decrypt_client-pass :
    (g : Gcm) (sessions : Dict (List ℕ)) (conn : ℕ) (pkt : PlainPacket) (key plain : List ℕ)
    → get_session_key sessions conn ≡ key
    → length key ≡ 32
    → 28 ≤ length pkt.payload
    → decrypt_packet_payload g key pkt.payload ≡ some plain
    → decrypt_client g sessions conn pkt ≡ pass (record pkt { payload = plain })
unfolding decrypt_client
decrypt_client-pass g sessions conn pkt key plain found k long dec =
    let z : (length pkt.payload == 0) ≡ false = ground arith in rw (found, k, z, dec) refl

one_more : (xs ys : List ℕ) → suc (length (xs ++ ys)) ≡ 1 + (length xs + length ys)
one_more xs ys = omega (arith, length-append xs ys)

-- A handshake of 33 bytes or more, of version 1 and accepted by the replay checker, stores the key
-- of both random numbers and is answered with the version, the server's number and a challenge
-- that this key decrypts to the client's number, under the client's sequence number and with the
-- length in the header, if master key and key have 32 bytes, the nonces 12 and the sealing
-- succeeds; then a payload that the client encrypts with this key passes the middleware as its
-- plaintext.
pub handle_handshake-decrypt_client :
    (mac : List ℕ → List ℕ → List ℕ) (g : Gcm) (master_key : List ℕ) (cmd : ℕ)
    (check : List ℕ → List ℕ → Bool) (server_random nonce : List ℕ) (sessions : Dict (List ℕ))
    (conn : ℕ) (pkt : PlainPacket) (key ciphertext tag : List ℕ) (h : Header)
    (text nonce' ciphertext' tag' : List ℕ)
    → IsGcm g
    → key ≡ mac master_key ((label ++ take 16 (drop 17 pkt.payload)) ++ server_random)
    → length master_key ≡ 32
    → length key ≡ 32
    → length nonce ≡ 12
    → g.seal key nonce (take 16 (drop 17 pkt.payload)) ≡ some (ciphertext, tag)
    → length nonce' ≡ 12
    → g.seal key nonce' text ≡ some (ciphertext', tag')
    → 33 ≤ length pkt.payload
    → get_or pkt.payload 0 0 ≡ 1
    → check (take 8 (drop 1 pkt.payload)) (take 8 (drop 9 pkt.payload)) ≡ true
    → (reply : PlainPacket) × (challenge m : List ℕ) × (handle_handshake mac g master_key cmd check
          server_random
          (some nonce)
          sessions
          conn
          pkt
        ≡ (put sessions conn key, answer reply))
      × (reply.payload ≡ 1 ∷ (server_random ++ challenge))
      × (reply.header.cmd_id ≡ cmd)
      × (reply.header.seq_id ≡ pkt.header.seq_id)
      × (reply.header.flags ≡ 0)
      × (reply.header.length_field
          ≡ u32 (header_size + u32 (1 + (length server_random + length challenge))))
      × (decrypt_packet_payload g key challenge ≡ some (take 16 (drop 17 pkt.payload)))
      × (encrypt_packet_payload g (some nonce') key text ≡ some m)
      × (decrypt_client g (put sessions conn key) conn (record { header = h; payload = m })
          ≡ pass (record { header = h; payload = text }))
unfolding handle_handshake derive_session_key_both handshake_answer
handle_handshake-decrypt_client mac g master_key cmd check server_random nonce sessions conn pkt key
      ciphertext tag h text nonce' ciphertext' tag' law made m32 k n e n' e' long version fresh =
    let (challenge, enc, dec, size) =
      sealed_payload g nonce key (take 16 (drop 17 pkt.payload)) ciphertext tag law k n e in
    let (m, enc', dec', size') = sealed_payload g nonce' key text ciphertext' tag' law k n' e' in
    let l : ltb (length pkt.payload) 33 ≡ false = le→ltb _ _ long in
    (
      handshake_answer pkt.header cmd server_random challenge,
      challenge,
      m,
      rw (l, version, fresh, m32, sym made, enc) refl,
      refl,
      refl,
      refl,
      refl,
      ap (λ k. u32 (header_size + u32 k)) (one_more server_random challenge),
      dec,
      enc',
      decrypt_client-pass g (put sessions conn key) conn (record { header = h; payload = m }) key
          text (get_session_key-put sessions conn key) k (omega arith) dec',
    )
