-- ===== src/Net/TcpPacket.antt =====
-- `SendPacket` of common/cpp/net/async/tcp_connection.cpp: a packet is encrypted, if the connection has
-- a session key, encoded and put into the write queue.
pub mod Wire
pub mod Opened
pub mod RoundTrip
mod Tests
use gmaker.Common.{
  ℕ, ◌+◌, Bool, false, ◌&&◌, not, Option, none, some, List, ◌==◌, if◌then◌else◌, u32, length,
}
use gmaker.Crypto.AesGcm.{Gcm}
use gmaker.Crypto.Session.{encrypt_packet_payload}
use gmaker.Net.Buffer.{Store, Buffer, from_vector, to_vector, size}
use gmaker.Net.Packet.{Packet, Flag, or_flag, header_size, encode_packet}
use gmaker.Net.TcpWriter.{Writer, send}

-- The packet to encode, an exception of the cipher (`return false`), or a read past a vector.
pub data Sealed : Type 0 where
  ready : Store → Packet → Sealed
  refused : Sealed
  fault : Sealed

-- `EncryptPacketPayload(...)` and `flags |= ENCRYPT`.
unfoldable pub encrypt : Gcm → Option (List ℕ) → List ℕ → Store → Packet → Sealed
encrypt g random key s pkt = elim (to_vector s pkt.payload) [
  | none ↦ fault
  | some plain ↦ elim (encrypt_packet_payload g random key plain) [
    | none ↦ refused
    | some message ↦ ready (from_vector s message).0 (record {
      header = record pkt.header { flags = or_flag pkt.header.flags Flag.encrypt };
      payload = (from_vector s message).1;
    })
  ]
]

-- The test before it.
unfoldable pub seal_packet : Gcm → Option (List ℕ) → List ℕ → Store → Packet → Sealed
seal_packet g random key s pkt =
    if not (length key == 0) && not (size pkt.payload == 0)
    then encrypt g random key s pkt
    else ready s pkt

-- `header.length = HEADER_SIZE + Size()`, and `EncodePacket`.
unfoldable pub encode_sealed : Store → Packet → Option (Store × Buffer)
encode_sealed s pkt = encode_packet s (record pkt {
  header = record pkt.header { length_field = u32 (header_size + u32 (size pkt.payload)) };
})

-- `SendPacket`, with the random bytes for the nonce, whether the caller is on the thread of the loop, and what
-- `uv_write` answers; `none` is a read past a vector.
unfoldable pub send_packet :
    Gcm
    → Option (List ℕ)
    → List ℕ
    → Store
    → Bool
    → Bool
    → Writer
    → Packet
    → Option (Store × Writer × Bool)
send_packet g random key s on_loop ok w pkt = elim (seal_packet g random key s pkt) [
  | fault ↦ none
  | refused ↦ some (s, w, false)
  | ready s' sealed ↦ elim (encode_sealed s' sealed) [
    | none ↦ none
    | some (s'', encoded) ↦
        let (w', accepted) = send on_loop ok w encoded in some (s'', w', accepted)
  ]
]
