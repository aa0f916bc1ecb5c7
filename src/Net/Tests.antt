-- ===== src/Net/Tests.antt =====
-- The networking theorems at concrete inputs.
use gmaker.Common.{◌-◌, ◌^◌, ◌≡◌, refl, ◌⊎◌, none, some, [], ◌∷◌, arith}
use gmaker.Net.Buffer.{Store, Buffer, slice, IsValid}
use gmaker.Net.Buffer.Views.{slice_wraps}
use gmaker.Net.Packet.{Packet, magic_value, encode_packet, decode_packet, decode_header, rejected}
use gmaker.Net.Packet.Encode.{Fits}
use gmaker.Net.Packet.Decode.{IsPacket, Accepts, decode_packet_lem}
use gmaker.Net.Packet.RoundTrip.{decode-encode}
use gmaker.Net.Ring.{RingBuffer, append}
use gmaker.Net.Ring.Cyclic.{contents, cyclic}
use gmaker.Net.Ring.Cyclic
use gmaker.Net.Ring.Write.{append_lem}
use gmaker.Net.WsFrame.{parse_frame, need_more, encode_frame, is_known_opcode}
use gmaker.Net.WsFrame.Stream.{parse_frame-append}
use gmaker.Net.WsFrame.RoundTrip.{Reads, parse_frame-encode_frame}

-- A store of one vector, and a view of three of its bytes.
abbrev heap : Store
heap = (10 ∷ 20 ∷ 30 ∷ 40 ∷ 50 ∷ []) ∷ []

abbrev view : Buffer
view = record { own = some 0; shared = none; offset = 1; len = 3 }

view-IsValid : IsValid heap view
view-IsValid = record { inside = omega arith; fits = omega arith }

slice_wraps_example :
    ((slice view 1 (2 ^ 64 - 1)).len ≡ 2 ^ 64 - 1) × ¬ IsValid heap (slice view 1 (2 ^ 64 - 1))
slice_wraps_example =
    slice_wraps heap view 1 (2 ^ 64 - 1) view-IsValid (omega arith) (omega arith) (omega arith)
      (omega arith)

abbrev hello : Packet
hello = record {
  header = record {
    length_field = 0;
    magic = magic_value;
    cmd_id = 0x1000;
    seq_id = 7;
    flags = 16;
    user_id = 2 ^ 40;
    zone_id = 3;
    service_id = 9;
  };
  payload = view;
}

hello-Fits : Fits hello.header
hello-Fits = record {
  magic16 = omega arith;
  cmd32 = omega arith;
  seq32 = omega arith;
  flags32 = omega arith;
  user64 = omega arith;
  zone32 = omega arith;
  service32 = omega arith;
}

decode_packet_lem_example :
    (IsPacket (20 ∷ 30 ∷ 40 ∷ [])
      × Accepts (decode_header (20 ∷ 30 ∷ 40 ∷ [])) [] (decode_packet heap view))
    ⊎ ((¬ IsPacket (20 ∷ 30 ∷ 40 ∷ [])) × (decode_packet heap view ≡ rejected))
decode_packet_lem_example = decode_packet_lem heap view view-IsValid

decode-encode_example :
    (s' : Store) × (b : Buffer) × (encode_packet heap hello ≡ some (s', b))
    × Accepts (record hello.header { length_field = 37 }) (20 ∷ 30 ∷ 40 ∷ []) (decode_packet s' b)
decode-encode_example = decode-encode heap hello view-IsValid hello-Fits refl (omega arith)

-- A ring of four bytes that holds two, the second past the end.
abbrev ring : RingBuffer
ring = record { buf = 5 ∷ 6 ∷ 7 ∷ 8 ∷ []; rpos = 3; wpos = 1; stored = 2 }

ring-IsValid : Cyclic.IsValid ring
ring-IsValid = record {
  room = omega arith;
  small = omega arith;
  rpos_in = omega arith;
  stored_in = omega arith;
  wpos_at = refl;
}

append_lem_example :
    (r' : RingBuffer) × (append ring (1 ∷ 2 ∷ 3 ∷ []) ≡ some r')
    × Cyclic.IsValid r'
    × (contents r' ≡ 8 ∷ 5 ∷ 1 ∷ 2 ∷ 3 ∷ [])
unfolding cyclic
append_lem_example = append_lem ring (1 ∷ 2 ∷ 3 ∷ []) ring-IsValid (omega arith)

-- A text frame with two bytes, and one byte of the next frame.
parse_frame-encode_frame_example :
    Reads (encode_frame 1 (104 ∷ 105 ∷ [])) (129 ∷ []) 1 (104 ∷ 105 ∷ [])
unfolding is_known_opcode
parse_frame-encode_frame_example =
    parse_frame-encode_frame 1 (104 ∷ 105 ∷ []) (129 ∷ []) refl (λ _. omega arith) (omega arith)

parse_frame-append_example :
    (parse_frame (129 ∷ 0 ∷ []) ≡ need_more)
    ⊎ (parse_frame (129 ∷ 0 ∷ 1 ∷ []) ≡ parse_frame (129 ∷ 0 ∷ []))
parse_frame-append_example = parse_frame-append (129 ∷ 0 ∷ []) (1 ∷ [])
