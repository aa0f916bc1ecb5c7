-- ===== src/Net/TcpPacket/RoundTrip.antt =====
-- What `SendPacket` of common/cpp/net/async/tcp_connection.cpp sends is what `ProcessReadBuffer` of the
-- other side hands over.
use gmaker.Common.{
  ℕ, ◌+◌, ◌%◌, ◌^◌, ◌≤◌, ◌<◌, ◌≡◌, refl, sym, ap, ◌∙◌, ◌⊎◌, inl, inr, not, Option, some, List, ◌++◌,
  arith, ◌==◌, if◌then◌else◌, Bool-cases, u32, length, length-append,
}
use gmaker.Crypto.AesGcm.{Gcm}
use gmaker.Net.Buffer.{Store, Buffer, from_vector, size, bytes, IsValid}
use gmaker.Net.Buffer.Views.{length-bytes, from_vector_lem}
use gmaker.Net.Packet.{Packet, header_size, magic_value}
use gmaker.Net.Packet.Encode.{
  header_bytes, header_bytes_length, length-header_bytes, Fits, encode_packet_lem,
}
use gmaker.Net.TcpReader.{Env}
use gmaker.Net.TcpReader.Frames.{next, frame}
use gmaker.Net.TcpPacket.{ready, encrypt, seal_packet, encode_sealed}
use gmaker.Net.TcpPacket.Wire.{frame_wire}
use gmaker.Net.TcpPacket.Opened.{flags_round_trip, opened_plain}

-- Encoding a sealed packet.
encoded :
    (s : Store) (pkt : Packet)
    → IsValid s pkt.payload
    → 34 + pkt.payload.len < 2 ^ 32
    → (s' : Store) × (b : Buffer) × (encode_sealed s pkt ≡ some (s', b))
      × (bytes s' b ≡ header_bytes (34 + pkt.payload.len) pkt.header ++ bytes s pkt.payload)
unfolding encode_sealed
encoded s pkt v l =
    let hd = record pkt.header { length_field = u32 (header_size + u32 (size pkt.payload)) } in
    let x = header_bytes (34 + pkt.payload.len) pkt.header ++ bytes s pkt.payload in
    let len : length x ≡ 34 + pkt.payload.len = omega (
      arith,
      length-append (header_bytes (34 + pkt.payload.len) pkt.header) (bytes s pkt.payload),
      length-header_bytes (34 + pkt.payload.len) pkt.header,
      length-bytes s pkt.payload v,
    ) in
    (
      (from_vector s x).0,
      (from_vector s x).1,
      encode_packet_lem s (record pkt { header = hd }) v l
          ∙ ap (λ y. some (from_vector s (y ++ bytes s pkt.payload)))
              (header_bytes_length (34 + pkt.payload.len) _ pkt.header),
      (from_vector_lem s x (omega arith)).1,
    )

-- The bytes that go on the wire for a packet.
pub record OnWire (g : Gcm) (random : Option (List ℕ)) (key : List ℕ) (s : Store) (pkt : Packet)
    (wire : List ℕ) : Type 0 where
  pub sealed_store : Store
  pub sealed : Packet
  pub seals : seal_packet g random key s pkt ≡ ready sealed_store sealed
  pub sent_store : Store
  pub sent : Buffer
  pub encodes : encode_sealed sealed_store sealed ≡ some (sent_store, sent)
  pub shows : bytes sent_store sent ≡ wire

-- A packet that can be sent to the other side.
pub record Sendable (s : Store) (pkt : Packet) : Type 0 where
  pub valid : IsValid s pkt.payload
  pub fits : Fits pkt.header
  pub magic : pkt.header.magic ≡ magic_value
  pub unmarked : pkt.header.flags % 2 ≡ 0
  pub small : pkt.payload.len ≤ 16777154

plain_seal :
    (g : Gcm) (random : Option (List ℕ)) (key : List ℕ) (s : Store) (pkt : Packet)
    → (length key ≡ 0) ⊎ (pkt.payload.len ≡ 0)
    → seal_packet g random key s pkt ≡ ready s pkt
unfolding seal_packet
plain_seal g random key s pkt (inl e) = rw e refl
plain_seal g random key s pkt (inr e) = elim (Bool-cases (length key == 0)) [
  | inl none_set ↦ rw none_set refl
  | inr some_set ↦ rw some_set (ap_if e)
]
  where
    ap_if :
        pkt.payload.len ≡ 0
        → (if not (pkt.payload.len == 0) then encrypt g random key s pkt else ready s pkt)
          ≡ ready s pkt
    ap_if z = ap (λ k. if not (k == 0) then encrypt g random key s pkt else ready s pkt) z

-- Without a key, or without a payload, the packet is sent as it is.
pub plain-RoundTrip :
    {W : Type 0} (env : Env W) (w : W) (random : Option (List ℕ)) (s : Store) (pkt : Packet)
    (rest : List ℕ)
    → Sendable s pkt
    → (length (env.session_key w) ≡ 0) ⊎ (pkt.payload.len ≡ 0)
    → (wire : List ℕ) × OnWire env.gcm random (env.session_key w) s pkt wire
      × (frame env (wire ++ rest) w
          ≡ next rest (
              env.on_data w (record {
                header = record pkt.header { length_field = length wire };
                payload = bytes s pkt.payload;
              })))
plain-RoundTrip env w random s pkt rest p c =
    let (s', b, run, shows) = encoded s pkt p.valid (omega (arith, p.small)) in
    let n = length-bytes s pkt.payload p.valid in
    let (_, _, clear, _) = flags_round_trip pkt.header.flags p.fits.flags32 p.unmarked in
    let hb = header_bytes (34 + length (bytes s pkt.payload)) pkt.header in
    let wire = hb ++ bytes s pkt.payload in
    let size : length wire ≡ 34 + length (bytes s pkt.payload) = omega (
      arith,
      length-append hb (bytes s pkt.payload),
      length-header_bytes (34 + length (bytes s pkt.payload)) pkt.header,
    ) in
    (
      wire,
      record {
        sealed_store = s;
        sealed = pkt;
        seals = plain_seal env.gcm random (env.session_key w) s pkt c;
        sent_store = s';
        sent = b;
        encodes = run;
        shows = shows ∙ ap (λ k. header_bytes (34 + k) pkt.header ++ bytes s pkt.payload) (sym n);
      },
      frame_wire env w pkt.header (bytes s pkt.payload) rest
            (record {
              header = record pkt.header { length_field = 34 + length (bytes s pkt.payload) };
              payload = bytes s pkt.payload;
            })
            p.fits p.magic (omega (arith, p.small))
            (opened_plain env.gcm (env.session_key w) _ (inr clear))
          ∙ ap
              (λ k. next rest (
                env.on_data w (record {
                  header = record pkt.header { length_field = k };
                  payload = bytes s pkt.payload;
                })))
              (sym size),
    )
