-- ===== src/Net/TcpReader.antt =====
-- The reading half of `AsyncTCPConnection`, common/cpp/net/async/tcp_connection.cpp: `OnRead` and
-- `ProcessReadBuffer` over the ring of Net/Ring.antt. The mutex is held by the event loop alone.
-- The callback that takes packets may change the session key, as the handshake does.
pub mod Prefix
pub mod Frames
pub mod Chunks
pub mod Streams
pub mod Rounds
pub mod Refine
pub mod Reads
mod Tests
use gmaker.Common.{
  ℕ, zero, suc, ◌-◌, ◌*◌, ◌^◌, bit_and, Bool, ◌&&◌, ◌||◌, not, Option, none, some, List, [], ◌∷◌,
  ltb, ◌==◌, if◌then◌else◌, length, take, drop, replicate,
}
use gmaker.Crypto.AesGcm.{Gcm}
use gmaker.Crypto.Session.{decrypt_packet_payload}
use gmaker.Net.Bytes.{read_u16_be, read_u32_be}
use gmaker.Net.Packet.{
  Header, Flag, has_flag, header_size, max_packet_len, magic_value, decode_header,
}
use gmaker.Net.Ring.{RingBuffer, readable, append, is_contiguous, data_at, read_at, consume}

-- `Packet`, its payload a vector that nothing else refers to.
pub record Delivery : Type 0 where
  pub header : Header
  pub payload : List ℕ

-- What lies outside the reader, over the state `W` of the rest of the program: `session_key_`,
-- `on_data_`, the cipher, and what `temp_buf` held before it was written.
pub record Env (W : Type 0) : Type 0 where
  pub session_key : W → List ℕ
  pub on_data : W → Delivery → W
  pub gcm : Gcm
  pub temp_buf : List ℕ

abbrev pub max_read_buf_bytes : ℕ
max_read_buf_bytes = 64 * 1024 * 1024

-- `ReadU16BE(p + 4) == MAGIC_VALUE`.
unfoldable pub has_magic : List ℕ → Bool
has_magic p = read_u16_be p 4 == magic_value

-- The header and the copied payload of a packet of `len` bytes at `p`.
unfoldable pub packet_at : List ℕ → ℕ → Delivery
packet_at p len = record {
  header = record (decode_header p) { length_field = len };
  payload = take (len - header_size) (drop header_size p);
}

-- `pkt.payload = DecryptPacketPayload(...)` and `flags &= ~ENCRYPT`; an exception is `none`.
unfoldable pub decrypt : Gcm → List ℕ → Delivery → Option Delivery
decrypt g key pkt = elim (decrypt_packet_payload g key pkt.payload) [
  | none ↦ none
  | some plain ↦ some (record {
    header = record pkt.header { flags = bit_and pkt.header.flags (2 ^ 32 - 1 - 1) };
    payload = plain;
  })
]

-- The test before it.
unfoldable pub open_packet : Gcm → List ℕ → Delivery → Option Delivery
open_packet g key pkt =
    if not (length key == 0) && has_flag pkt.header.flags Flag.encrypt
    then decrypt g key pkt
    else some pkt

-- What a round of the loop does: `break`, `Close(); return`, or a packet handed over. `fault` is a
-- `ReadAt` out of fuel.
pub data Round (W : Type 0) : Type 0 where
  wait : Round W
  close : RingBuffer → Round W
  hand_over : RingBuffer → W → Round W
  fault : Round W

module _ {W : Type 0} (env : Env W) where
  -- From the decryption to the end of the round.
  unfoldable pub dispatch : RingBuffer → W → Delivery → Round W
  dispatch r w pkt = elim (open_packet env.gcm (env.session_key w) pkt) [
    | none ↦ close r
    | some opened ↦ hand_over r (env.on_data w opened)
  ]

  -- The packet lies in one piece: it is read where it is.
  unfoldable pub fast_path : RingBuffer → W → ℕ → Round W
  fast_path r w len =
      let p = drop (data_at r 0) r.buf in
      if not (has_magic p) then close r else dispatch (consume r len) w (packet_at p len)

  -- The packet is copied to `out` first, and consumed before its magic number is tested.
  unfoldable pub copy_path : RingBuffer → W → ℕ → List ℕ → Round W
  copy_path r w len out = elim (read_at r 0 out len) [
    | none ↦ fault
    | some p ↦
        if not (has_magic p)
        then close (consume r len)
        else dispatch (consume r len) w (packet_at p len)
  ]

  -- The packet wraps round the end of the ring: `temp_buf` or `large_buf` takes the copy.
  unfoldable pub slow_path : RingBuffer → W → ℕ → Round W
  slow_path r w len =
      if ltb (length env.temp_buf) len
      then copy_path r w len (replicate len 0)
      else copy_path r w len env.temp_buf

  -- A round with the length field read.
  unfoldable pub sized_round : RingBuffer → W → ℕ → Round W
  sized_round r w len =
      if ltb len header_size || ltb max_packet_len len
      then close r
      else if ltb (readable r) len
      then wait
      else if is_contiguous r 0 len
      then fast_path r w len
      else slow_path r w len

  -- A round of `while (true)`.
  unfoldable pub round : RingBuffer → W → Round W
  round r w =
      let sized : Round W = elim (read_at r 0 (replicate 4 0) 4) [
        | none ↦ fault
        | some len_bytes ↦ sized_round r w (read_u32_be len_bytes 0)
      ] in
      if ltb (readable r) 4 then wait else sized

-- How the loop ends: it waits for more bytes, or it has called `Close`.
pub data Ended (W : Type 0) : Type 0 where
  waiting : RingBuffer → W → Ended W
  closed : RingBuffer → W → Ended W

module _ {W : Type 0} (env : Env W) where
  -- `ProcessReadBuffer`, with fuel for the rounds.
  unfoldable pub process_read_buffer : ℕ → RingBuffer → W → Option (Ended W)
  process_read_buffer zero r w = none
  process_read_buffer (suc fuel) r w = elim (round env r w) [
    | wait ↦ some (waiting r w)
    | close r' ↦ some (closed r' w)
    | hand_over r' w' ↦ process_read_buffer fuel r' w'
    | fault ↦ none
  ]

  -- `OnRead` with `nread > 0`. A round takes bytes off the ring, so their number bounds the rounds.
  unfoldable pub on_read : RingBuffer → W → List ℕ → Option (Ended W)
  on_read r w bytes = elim (append r bytes) [
    | none ↦ none
    | some r' ↦
        let processed = process_read_buffer (suc (readable r')) r' w in
        if ltb max_read_buf_bytes (readable r') then some (closed r' w) else processed
  ]

  -- The reads of a connection, which libuv ends with the handle.
  unfoldable pub on_reads : RingBuffer → W → List (List ℕ) → Option (Ended W)
  on_reads r w [] = some (waiting r w)
  on_reads r w (bytes ∷ chunks) = elim (on_read r w bytes) [
    | none ↦ none
    | some (waiting r' w') ↦ on_reads r' w' chunks
    | some (closed r' w') ↦ some (closed r' w')
  ]
