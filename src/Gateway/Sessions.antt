-- ===== src/Gateway/Sessions.antt =====
-- The session keys of the gateway, services/gateway-cpp/main.cpp: `HandshakeMiddleware::HandleHandshake` and
-- `EncryptionMiddleware::OnPacket`. Payloads are plain lists of bytes.
pub mod Handshake
use gmaker.Common.{
  ℕ, ◌+◌, Bool, not, Option, none, some, List, [], ◌∷◌, ◌++◌, ltb, ◌==◌, if◌then◌else◌, u32, length,
  get_or, take, drop,
}
use gmaker.Common.Dict.{Dict, find, put}
use gmaker.Net.Packet.{Header, header_size, magic_value}
use gmaker.Crypto.AesGcm.{Gcm}
use gmaker.Crypto.Session.{derive_session_key_both, encrypt_packet_payload, decrypt_packet_payload}

-- A packet with the bytes of its payload.
pub record PlainPacket : Type 0 where
  pub header : Header
  pub payload : List ℕ

-- `GetSessionKey`; an empty key is none.
unfoldable pub get_session_key : Dict (List ℕ) → ℕ → List ℕ
get_session_key sessions conn = elim (find sessions conn) [ none ↦ [] | some key ↦ key ]

-- What a middleware does: it closes the connection, throws, sends an answer, or lets a packet pass.
pub data Outcome : Type 0 where
  closed : Outcome
  thrown : Outcome
  answer : PlainPacket → Outcome
  pass : PlainPacket → Outcome

-- The answer to a handshake.
pub handshake_answer : Header → ℕ → List ℕ → List ℕ → PlainPacket
handshake_answer h cmd_handshake server_random challenge =
    let payload = 1 ∷ (server_random ++ challenge) in
    record {
      header = record {
        length_field = u32 (header_size + u32 (length payload));
        magic = magic_value;
        cmd_id = cmd_handshake;
        seq_id = h.seq_id;
        flags = 0;
        user_id = 0;
        zone_id = 0;
        service_id = 0;
      };
      payload = payload;
    }

-- `HandleHandshake` with HMAC-SHA256, what the replay checker says of the time and the nonce, and what
-- `RandomBytes` gave for the server and for the nonce of the challenge.
pub handle_handshake :
    (List ℕ → List ℕ → List ℕ)
    → Gcm
    → List ℕ
    → ℕ
    → (List ℕ → List ℕ → Bool)
    → List ℕ
    → Option (List ℕ)
    → Dict (List ℕ)
    → ℕ
    → PlainPacket
    → Dict (List ℕ) × Outcome
handle_handshake mac g master_key cmd check server_random random sessions conn pkt =
    let client_random = take 16 (drop 17 pkt.payload) in
    let agreed : Dict (List ℕ) × Outcome =
      elim (derive_session_key_both mac master_key client_random server_random) [
        | none ↦ (sessions, thrown)
        | some key ↦ (
          put sessions conn key,
          elim (encrypt_packet_payload g random key client_random) [
            | none ↦ thrown
            | some challenge ↦ answer (handshake_answer pkt.header cmd server_random challenge)
          ],
        )
      ] in
    if ltb (length pkt.payload) 33
    then (sessions, closed)
    else if not (get_or pkt.payload 0 0 == 1)
    then (sessions, closed)
    else if check (take 8 (drop 1 pkt.payload)) (take 8 (drop 9 pkt.payload))
    then agreed
    else (sessions, closed)

-- `EncryptionMiddleware::OnPacket`.
pub decrypt_client : Gcm → Dict (List ℕ) → ℕ → PlainPacket → Outcome
decrypt_client g sessions conn pkt =
    let opened : Outcome =
      elim (decrypt_packet_payload g (get_session_key sessions conn) pkt.payload) [
        | none ↦ closed
        | some plain ↦ pass (record pkt { payload = plain })
      ] in
    if length (get_session_key sessions conn) == 0
    then closed
    else if length pkt.payload == 0
    then pass pkt
    else opened
