-- ===== src/Net/Packet/RoundTrip.antt =====
-- `DecodePacket` undoes `EncodePacket` (common/cpp/net/packet.hpp).
use gmaker.Common.{
  ◌+◌, ◌≤◌, ◌≡◌, sym, ap, ◌∙◌, subst, subst₂, inl, inr, some, ◌++◌, arith, length, take, drop,
  length-append, take-append, drop-append,
}
use gmaker.Net.Buffer.{Store, Buffer, from_vector, bytes, IsValid}
use gmaker.Net.Buffer.Views.{from_vector_lem, length-bytes}
use gmaker.Net.Packet.{
  Header, Packet, header_size, max_packet_len, magic_value, encode_packet, decode_header,
  decode_packet,
}
use gmaker.Net.Packet.Encode.{
  header_bytes, length-header_bytes, Fits, decode_header_bytes, encode_packet_lem,
}
use gmaker.Net.Packet.Decode.{Accepts, decode_packet_lem}

-- A packet with the right magic, whose payload is valid and keeps the whole within 16 MB, is
-- encoded, and decoding the result gives the same header, but for the length field, which is the
-- total length, and the same payload.
pub decode-encode :
    (s : Store) (pkt : Packet)
    → IsValid s pkt.payload
    → Fits pkt.header
    → pkt.header.magic ≡ magic_value
    → header_size + pkt.payload.len ≤ max_packet_len
    → (s' : Store) × (b : Buffer) × (encode_packet s pkt ≡ some (s', b))
      × Accepts
          (record pkt.header { length_field = header_size + pkt.payload.len })
          (bytes s pkt.payload)
          (decode_packet s' b)
decode-encode s pkt v f m small =
    let n = header_size + pkt.payload.len in
    let hb = header_bytes n pkt.header in
    let x = hb ++ bytes s pkt.payload in
    let len : length x ≡ n = omega (
      arith,
      length-append hb (bytes s pkt.payload),
      length-header_bytes n pkt.header,
      length-bytes s pkt.payload v,
    ) in
    let s' = (from_vector s x).0 in
    let b = (from_vector s x).1 in
    let (valid, shown) = from_vector_lem s x (omega arith) in
    let first : take header_size (bytes s' b) ≡ hb =
      ap (take header_size) shown
      ∙ subst (λ k. take k x ≡ hb) (length-header_bytes n pkt.header)
          (take-append hb (bytes s pkt.payload)) in
    let others : drop header_size (bytes s' b) ≡ bytes s pkt.payload =
      ap (drop header_size) shown
      ∙ subst (λ k. drop k x ≡ bytes s pkt.payload) (length-header_bytes n pkt.header)
          (drop-append hb (bytes s pkt.payload)) in
    let hd : decode_header (take header_size (bytes s' b))
        ≡ record pkt.header { length_field = n } =
      ap decode_header first ∙ decode_header_bytes n pkt.header f (omega arith) in
    (
      s',
      b,
      encode_packet_lem s pkt v (omega arith),
      elim (decode_packet_lem s' b valid) [
        | inl (good, acc) ↦ subst₂ (λ h y. Accepts h y (decode_packet s' b)) hd others acc
        | inr (bad, _) ↦ absurd (
            bad (record {
              long_enough = omega (arith, ap length shown);
              short_enough = omega (arith, ap length shown);
              magic_right = ap (λ (h : Header). h.magic) hd ∙ m;
              length_right =
                  ap (λ (h : Header). h.length_field) hd ∙ sym len ∙ sym (ap length shown);
            }))
      ],
    )
