-- ===== src/Net/Packet/Encode.antt =====
-- What `EncodePacket` of common/cpp/net/packet.hpp puts on the wire, and that `DecodeHeader` reads it.
use gmaker.Common.{
  ℕ, ◌+◌, ◌^◌, ◌<◌, ◌≡◌, refl, sym, ap, ◌∙◌, subst, inl, inr, some, List, [], ◌∷◌, ◌++◌, arith, ltb,
  tests, Bool-cases, u32, ◌>>◌, length, replicate, blit, length-replicate, replicate-add,
  blit-append,
}
use gmaker.Net.Bytes.{low_byte, write_u16_be, write_u32_be, write_u64_be}
use gmaker.Net.Bytes.RoundTrip.{read_u16_be_of, read_u32_be_of, read_u64_be_of}
use gmaker.Net.Buffer.{Store, Buffer, from_vector, bytes, IsValid}
use gmaker.Net.Buffer.Views.{data_const_lem, length-bytes}
use gmaker.Net.Packet.{
  Header, Packet, header_size, write_header, copy_payload, encode_packet, decode_header,
}

-- The header's bytes on the wire.
pub header_bytes : ℕ → Header → List ℕ
header_bytes n h =
    low_byte (n >> 24)
    ∷ low_byte (n >> 16)
    ∷ low_byte (n >> 8)
    ∷ low_byte n
    ∷ low_byte (h.magic >> 8)
    ∷ low_byte h.magic
    ∷ low_byte (h.cmd_id >> 24)
    ∷ low_byte (h.cmd_id >> 16)
    ∷ low_byte (h.cmd_id >> 8)
    ∷ low_byte h.cmd_id
    ∷ low_byte (h.seq_id >> 24)
    ∷ low_byte (h.seq_id >> 16)
    ∷ low_byte (h.seq_id >> 8)
    ∷ low_byte h.seq_id
    ∷ low_byte (h.flags >> 24)
    ∷ low_byte (h.flags >> 16)
    ∷ low_byte (h.flags >> 8)
    ∷ low_byte h.flags
    ∷ low_byte (h.user_id >> 56)
    ∷ low_byte (h.user_id >> 48)
    ∷ low_byte (h.user_id >> 40)
    ∷ low_byte (h.user_id >> 32)
    ∷ low_byte (h.user_id >> 24)
    ∷ low_byte (h.user_id >> 16)
    ∷ low_byte (h.user_id >> 8)
    ∷ low_byte h.user_id
    ∷ low_byte (h.zone_id >> 24)
    ∷ low_byte (h.zone_id >> 16)
    ∷ low_byte (h.zone_id >> 8)
    ∷ low_byte h.zone_id
    ∷ low_byte (h.service_id >> 24)
    ∷ low_byte (h.service_id >> 16)
    ∷ low_byte (h.service_id >> 8)
    ∷ low_byte h.service_id
    ∷ []

-- The length field of the record is not what is written.
pub header_bytes_length :
    (n k : ℕ) (h : Header) → header_bytes n (record h { length_field = k }) ≡ header_bytes n h
unfolding header_bytes
header_bytes_length n k h = refl

pub length-header_bytes : (n : ℕ) (h : Header) → length (header_bytes n h) ≡ header_size
unfolding header_bytes
length-header_bytes n h = refl

write_header_lem :
    (total : ℕ) (h : Header) (z : List ℕ)
    → write_header (replicate header_size 0 ++ z) total h ≡ header_bytes total h ++ z
unfolding header_bytes write_header write_u16_be write_u32_be write_u64_be
write_header_lem total h z = refl

-- Every field that `EncodePacket` writes from the header fits its width.
pub record Fits (h : Header) : Type 0 where
  pub magic16 : h.magic < 2 ^ 16
  pub cmd32 : h.cmd_id < 2 ^ 32
  pub seq32 : h.seq_id < 2 ^ 32
  pub flags32 : h.flags < 2 ^ 32
  pub user64 : h.user_id < 2 ^ 64
  pub zone32 : h.zone_id < 2 ^ 32
  pub service32 : h.service_id < 2 ^ 32

pub decode_header_bytes :
    (n : ℕ) (h : Header)
    → Fits h
    → n < 2 ^ 32
    → decode_header (header_bytes n h) ≡ record h { length_field = n }
unfolding decode_header header_bytes
decode_header_bytes n h f l =
    let p = header_bytes n h in
    let e0 = read_u32_be_of p 0 n l refl refl refl refl in
    let e4 = read_u16_be_of p 4 h.magic f.magic16 refl refl in
    let e6 = read_u32_be_of p 6 h.cmd_id f.cmd32 refl refl refl refl in
    let e10 = read_u32_be_of p 10 h.seq_id f.seq32 refl refl refl refl in
    let e14 = read_u32_be_of p 14 h.flags f.flags32 refl refl refl refl in
    let e18 = read_u64_be_of p 18 h.user_id f.user64 refl refl refl refl refl refl refl refl in
    let e26 = read_u32_be_of p 26 h.zone_id f.zone32 refl refl refl refl in
    let e30 = read_u32_be_of p 30 h.service_id f.service32 refl refl refl refl in
    λ i. record {
      length_field = e0 i;
      magic = e4 i;
      cmd_id = e6 i;
      seq_id = e10 i;
      flags = e14 i;
      user_id = e18 i;
      zone_id = e26 i;
      service_id = e30 i;
    }

copy_payload_lem :
    (s : Store) (hd : List ℕ) (b : Buffer)
    → IsValid s b
    → length hd ≡ header_size
    → copy_payload s (hd ++ replicate b.len 0) b ≡ some (hd ++ bytes s b)
unfolding copy_payload
copy_payload_lem s hd b v e = elim (data_const_lem s b v) [
  | inl (null, zero_len) ↦ rw (null, copy_payload) (rw zero_len refl)
  | inr (p, found, read) ↦ elim (Bool-cases (ltb 0 b.len)) [
    | inl pos ↦
        rw (found, pos, read, copy_payload)
          (ap some (
            subst (λ k. blit (hd ++ replicate b.len 0) k (bytes s b) ≡ hd ++ bytes s b) e
              (blit-append hd (replicate b.len 0) (bytes s b)
                (length-replicate {A = ℕ} b.len 0 ∙ sym (length-bytes s b v)))))
    | inr nothing ↦
        let zero_len : b.len ≡ 0 = omega (tests, nothing) in
        rw (found, nothing, copy_payload) (rw zero_len refl)
  ]
]

-- `EncodePacket` of a packet with a valid payload of no more than 2 ^ 32 - 35 bytes reads nothing
-- out of range, and stores the header's bytes, with the total length in the first four, followed by
-- the payload.
pub encode_packet_lem :
    (s : Store) (pkt : Packet)
    → IsValid s pkt.payload
    → header_size + pkt.payload.len < 2 ^ 32
    → encode_packet s pkt
      ≡ some (
          from_vector s
            (header_bytes (header_size + pkt.payload.len) pkt.header ++ bytes s pkt.payload))
unfolding encode_packet
encode_packet_lem s pkt v h =
    let n = pkt.payload.len in
    let total : u32 (header_size + u32 n) ≡ header_size + n = omega arith in
    let written : write_header (replicate (header_size + n) 0) (header_size + n) pkt.header
        ≡ header_bytes (header_size + n) pkt.header ++ replicate n 0 =
      ap (λ p. write_header p (header_size + n) pkt.header) (replicate-add header_size n 0)
      ∙ write_header_lem (header_size + n) pkt.header (replicate n 0) in
    rw (
      total,
      written,
      copy_payload_lem s (header_bytes (header_size + n) pkt.header) pkt.payload v
          (length-header_bytes (header_size + n) pkt.header),
      encode_packet,
    )
