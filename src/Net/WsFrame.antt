-- ===== src/Net/WsFrame.antt =====
-- WebSocket frames, common/cpp/net/async/ws_frame.hpp and ws_frame.cpp: the incremental parser, the
-- encoders and the mask. A byte is a number below 256, and a pointer with a length is a list.
pub mod Parse
pub mod Stream
pub mod Opening
pub mod Lengths
pub mod RoundTrip
pub mod Mask
use gmaker.Common.{
  ℕ, zero, suc, ◌+◌, ◌-◌, ◌*◌, ◌^◌, bit_and, bit_or, bit_xor, Bool, ◌&&◌, ◌||◌, not, List, [], ◌∷◌,
  ◌++◌, ltb, leb, ◌==◌, if◌then◌else◌, u8, u64, ◌>>◌, length, take, drop,
}
use gmaker.Net.Bytes.{at, low_byte}

-- `WSFrame`.
pub record Frame : Type 0 where
  pub fin : Bool
  pub opcode : ℕ
  pub masked : Bool
  pub payload_len : ℕ
  pub mask_key : List ℕ

abbrev pub opcode_continuation : ℕ
opcode_continuation = 0x0

abbrev pub opcode_text : ℕ
opcode_text = 0x1

abbrev pub opcode_binary : ℕ
opcode_binary = 0x2

abbrev pub opcode_close : ℕ
opcode_close = 0x8

abbrev pub opcode_ping : ℕ
opcode_ping = 0x9

abbrev pub opcode_pong : ℕ
opcode_pong = 0xA

-- `IsKnownOpcode`.
unfoldable pub is_known_opcode : ℕ → Bool
is_known_opcode op =
    op == opcode_continuation
    || op == opcode_text
    || op == opcode_binary
    || op == opcode_close
    || op == opcode_ping
    || op == opcode_pong

-- `IsControlOpcode`.
unfoldable pub is_control_opcode : ℕ → Bool
is_control_opcode op = not (bit_and op 0x8 == 0)

-- The result of `ParseWSFrame`: 0, -1, or the bytes consumed, with what it put into `out` and
-- `payload_offset`. On 0 and -1 the code may have filled part of `out`; no caller reads it then.
pub data Parsed : Type 0 where
  need_more : Parsed
  protocol_error : Parsed
  parsed : Frame → ℕ → ℕ → Parsed

-- What the length bytes give: more data needed, a bad length, or the length and the position behind.
pub data Length : Type 0 where
  short : Length
  bad : Length
  got : ℕ → ℕ → Length

-- `for (i = 0; i < 8; ++i) payload_len = (payload_len << 8) | data[2 + i];`
unfoldable pub length_loop : ℕ → ℕ → ℕ → List ℕ → ℕ
length_loop zero i acc p = acc
length_loop (suc n) i acc p = length_loop n (i + 1) (bit_or (u64 (acc * 2 ^ 8)) (at p (2 + i))) p

-- The extended lengths, with their minimal-length checks.
unfoldable pub read_length : List ℕ → ℕ → Length
read_length p len7 =
    let l16 = bit_or (u64 (at p 2 * 2 ^ 8)) (at p 3) in
    let l64 = length_loop 8 0 0 p in
    let on126 : Length =
      if ltb (length p) 4 then short else if ltb l16 126 then bad else got l16 4 in
    let on127 : Length =
      if ltb (length p) 10
      then short
      else if not (bit_and (at p 2) 0x80 == 0) || ltb l64 65536
      then bad
      else got l64 10 in
    if len7 == 126 then on126 else if len7 == 127 then on127 else got len7 2

-- The last checks: the payload must fit `size_t` and be there.
unfoldable pub finish : List ℕ → Frame → ℕ → Parsed
finish p f pos =
    if ltb (2 ^ 64 - 1 - pos) f.payload_len
    then protocol_error
    else if ltb (length p) (pos + f.payload_len)
    then need_more
    else parsed f pos (pos + f.payload_len)

-- The mask key, and what follows it.
unfoldable pub read_mask : List ℕ → Frame → ℕ → Parsed
read_mask p f pos =
    if f.masked
    then if ltb (length p) (pos + 4)
      then need_more
      else finish p (record f { mask_key = take 4 (drop pos p) }) (pos + 4)
    else finish p f pos

-- What follows the length.
unfoldable pub after_length : List ℕ → Frame → Length → Parsed
after_length p f short = need_more
after_length p f bad = protocol_error
after_length p f (got n pos) =
    if is_control_opcode f.opcode && ltb 125 n
    then protocol_error
    else read_mask p (record f { payload_len = n }) pos

-- The first two bytes, and what follows them.
unfoldable pub check_bytes : List ℕ → ℕ → ℕ → Parsed
check_bytes p b0 b1 =
    let fin = not (bit_and b0 0x80 == 0) in
    let opcode = bit_and b0 0x0F in
    let masked = not (bit_and b1 0x80 == 0) in
    let len7 = bit_and b1 0x7F in
    let f : Frame = record {
      fin = fin;
      opcode = opcode;
      masked = masked;
      payload_len = 0;
      mask_key = 0 ∷ 0 ∷ 0 ∷ 0 ∷ [];
    } in
    if not (bit_and b0 0x70 == 0)
    then protocol_error
    else if not (is_known_opcode opcode)
    then protocol_error
    else if is_control_opcode opcode && (not fin || ltb 125 len7)
    then protocol_error
    else after_length p f (read_length p len7)

-- `ParseWSFrame`.
unfoldable pub parse_frame : List ℕ → Parsed
parse_frame p = if ltb (length p) 2 then need_more else check_bytes p (at p 0) (at p 1)

-- `UnmaskWSPayload` from index `i` on.
unfoldable pub unmask_from : ℕ → List ℕ → List ℕ → List ℕ
unmask_from i [] key = []
unmask_from i (x ∷ xs) key = bit_xor x (at key (bit_and i 3)) ∷ unmask_from (i + 1) xs key

-- `UnmaskWSPayload`.
unfoldable pub unmask : List ℕ → List ℕ → List ℕ
unmask payload key = unmask_from 0 payload key

-- `EncodeWSFrameHeader`, as the bytes of its vector.
unfoldable pub encode_header : ℕ → ℕ → List ℕ
encode_header opcode n =
    u8 (bit_or 0x80 (bit_and opcode 0x0F))
    ∷ (if ltb n 126
        then u8 n ∷ []
        else if leb n 0xFFFF
        then 126 ∷ low_byte (n >> 8) ∷ low_byte n ∷ []
        else 127
          ∷ low_byte (n >> 56)
          ∷ low_byte (n >> 48)
          ∷ low_byte (n >> 40)
          ∷ low_byte (n >> 32)
          ∷ low_byte (n >> 24)
          ∷ low_byte (n >> 16)
          ∷ low_byte (n >> 8)
          ∷ low_byte n
          ∷ [])

-- `EncodeWSFrame`; a null payload is the empty list.
unfoldable pub encode_frame : ℕ → List ℕ → List ℕ
encode_frame opcode payload = encode_header opcode (length payload) ++ payload

-- `EncodeWSBinaryFrame` and `EncodeWSTextFrame`.
unfoldable pub encode_binary : List ℕ → List ℕ
encode_binary payload = encode_frame opcode_binary payload

unfoldable pub encode_text : List ℕ → List ℕ
encode_text payload = encode_frame opcode_text payload

-- `EncodeWSCloseFrame`: the status code, and up to 123 bytes of the reason.
unfoldable pub encode_close : ℕ → List ℕ → List ℕ
encode_close status reason =
    encode_frame opcode_close (low_byte (status >> 8) ∷ low_byte status ∷ take 123 reason)

-- `EncodeWSPongFrame`: up to 125 bytes.
unfoldable pub encode_pong : List ℕ → List ℕ
encode_pong payload = encode_frame opcode_pong (take 125 payload)
