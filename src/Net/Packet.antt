-- ===== src/Net/Packet.antt =====
-- The wire format of common/cpp/net/packet.hpp: a header of 34 bytes, big-endian, and a payload.
pub mod Encode
pub mod Decode
pub mod RoundTrip
use gmaker.Common.{
  ℕ, ◌+◌, ◌-◌, ◌*◌, ◌^◌, bit_and, bit_or, Bool, ◌||◌, not, Option, none, some, List, [], ◌∷◌, ◌++◌,
  ltb, ◌==◌, if◌then◌else◌, u32, replicate, blit,
}
use gmaker.Net.Bytes.{
  write_u16_be, write_u32_be, write_u64_be, read_u16_be, read_u32_be, read_u64_be,
}
use gmaker.Net.Buffer.{Store, Buffer, empty, from_vector, allocate, data_const, size, region}

abbrev pub header_size : ℕ
header_size = 34

abbrev pub max_packet_len : ℕ
max_packet_len = 16 * 1024 * 1024

abbrev pub magic_value : ℕ
magic_value = 0x9D7F

-- `Header`.
pub record Header : Type 0 where
  pub length_field : ℕ
  pub magic : ℕ
  pub cmd_id : ℕ
  pub seq_id : ℕ
  pub flags : ℕ
  pub user_id : ℕ
  pub zone_id : ℕ
  pub service_id : ℕ

-- `Packet`.
pub record Packet : Type 0 where
  pub header : Header
  pub payload : Buffer

-- The bits of `enum class Flag`.
pub data Flag : Type 0 where
  encrypt compress broadcast trace rpc_req rpc_res rpc_ff heartbeat room_bcast : Flag

abbrev pub flag_bit : Flag → ℕ
flag_bit encrypt = 0
flag_bit compress = 1
flag_bit broadcast = 2
flag_bit trace = 3
flag_bit rpc_req = 4
flag_bit rpc_res = 5
flag_bit rpc_ff = 6
flag_bit heartbeat = 7
flag_bit room_bcast = 8

-- `HasFlag`: `(flags & f) != 0`.
unfoldable pub has_flag : ℕ → Flag → Bool
has_flag flags f = not (bit_and flags (2 ^ flag_bit f) == 0)

-- `flags | f`.
unfoldable pub or_flag : ℕ → Flag → ℕ
or_flag flags f = bit_or flags (2 ^ flag_bit f)

-- The eight header writes of `EncodePacket`, in their order.
unfoldable pub write_header : List ℕ → ℕ → Header → List ℕ
write_header p total h =
    let p1 = write_u32_be p 0 total in
    let p2 = write_u16_be p1 4 h.magic in
    let p3 = write_u32_be p2 6 h.cmd_id in
    let p4 = write_u32_be p3 10 h.seq_id in
    let p5 = write_u32_be p4 14 h.flags in
    let p6 = write_u64_be p5 18 h.user_id in
    let p7 = write_u32_be p6 26 h.zone_id in write_u32_be p7 30 h.service_id

-- The payload copied behind the header, if there is any: `none` is a read past its vector.
unfoldable pub copy_payload : Store → List ℕ → Buffer → Option (List ℕ)
copy_payload s p b = elim (data_const b) [
  | none ↦ some p
  | some src ↦
      let copied : Option (List ℕ) = elim (region s src (size b)) [
        | none ↦ none
        | some bs ↦ some (blit p header_size bs)
      ] in
      if ltb 0 (size b) then copied else some p
]

-- `EncodePacket`.
unfoldable pub encode_packet : Store → Packet → Option (Store × Buffer)
encode_packet s pkt =
    let payload_size = size pkt.payload in
    let total = u32 (header_size + u32 payload_size) in
    let p = write_header (replicate (header_size + payload_size) 0) total pkt.header in
    elim (copy_payload s p pkt.payload) [ none ↦ none | some p' ↦ some (from_vector s p') ]

-- `DecodeHeader`, of an array of at least 34 bytes.
unfoldable pub decode_header : List ℕ → Header
decode_header p = record {
  length_field = read_u32_be p 0;
  magic = read_u16_be p 4;
  cmd_id = read_u32_be p 6;
  seq_id = read_u32_be p 10;
  flags = read_u32_be p 14;
  user_id = read_u64_be p 18;
  zone_id = read_u32_be p 26;
  service_id = read_u32_be p 30;
}

-- What `DecodePacket` does: `return false` with the packet untouched, `return true` with the packet
-- that it filled, or a read past a vector.
pub data Decoded : Type 0 where
  rejected : Decoded
  accepted : Store → Packet → Decoded
  fault : Decoded

-- The payload of an accepted packet, in a vector of its own.
unfoldable pub take_payload : Store → ℕ × ℕ → ℕ → Header → Decoded
take_payload s (h, i) n hd =
    let copied : Decoded = elim (region s (h, i + header_size) n) [
      | none ↦ fault
      | some bs ↦ accepted (s ++ bs ∷ []) (record { header = hd; payload = (allocate s n).1 })
    ] in
    if ltb 0 n then copied else accepted s (record { header = hd; payload = empty })

-- The checks of the header, and what follows them.
unfoldable pub check_header : Store → ℕ × ℕ → ℕ → Header → Decoded
check_header s p n hd =
    if not (hd.magic == magic_value) || not (hd.length_field == n)
    then rejected
    else if ltb hd.length_field header_size || ltb max_packet_len hd.length_field
    then rejected
    else take_payload s p (n - header_size) hd

-- `DecodePacket`.
unfoldable pub decode_packet : Store → Buffer → Decoded
decode_packet s b =
    let found : Decoded = elim (data_const b) [
      | none ↦ rejected
      | some p ↦ elim (region s p header_size) [
        | none ↦ fault
        | some hb ↦ check_header s p (size b) (decode_header hb)
      ]
    ] in
    if ltb (size b) header_size || ltb max_packet_len (size b) then rejected else found
