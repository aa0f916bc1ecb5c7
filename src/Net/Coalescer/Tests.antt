-- ===== src/Net/Coalescer/Tests.antt =====
-- The theorems on the write coalescer at concrete connections.
use gmaker.Common.{ℕ, ◌≡◌, true, none, some, [], ◌∷◌, ◌++◌, arith, replicate}
use gmaker.Net.Buffer.{Store, Buffer, bytes, IsValid}
use gmaker.Net.Packet.{Packet, magic_value}
use gmaker.Net.Packet.Encode.{header_bytes}
use gmaker.Net.Coalescer.{Coalescer, broadcast}
use gmaker.Net.Coalescer.Flush.{waiting_for}
use gmaker.Net.Coalescer.Delivery.{count, broadcast_lem}

abbrev heap : Store
heap = (1 ∷ 2 ∷ 3 ∷ []) ∷ []

abbrev greeting : Packet
greeting = record {
  header = record {
    length_field = 0;
    magic = magic_value;
    cmd_id = 1;
    seq_id = 2;
    flags = 4;
    user_id = 0;
    zone_id = 0;
    service_id = 0;
  };
  payload = record { own = some 0; shared = none; offset = 1; len = 2 };
}

-- Connections 5 and 6 have a buffer in line, and one waits for no connection.
abbrev lined_up : Coalescer
lined_up = record {
  has_loop = true;
  timer = true;
  running = true;
  pending =
      record { conn = some 6; encoded = greeting.payload }
      ∷ record { conn = none; encoded = greeting.payload }
      ∷ record { conn = some 5; encoded = greeting.payload }
      ∷ [];
}

broadcast_lem_example :
    (s' : Store) × (co' : Coalescer) × (sent : Buffer) × (broadcast heap lined_up
        (some 5 ∷ none ∷ some 6 ∷ [])
        greeting
      ≡ some (s', co'))
    × IsValid s' sent
    × (bytes s' sent ≡ header_bytes 36 greeting.header ++ 2 ∷ 3 ∷ [])
    × ((c : ℕ)
        → waiting_for c co'.pending
          ≡ waiting_for c lined_up.pending
            ++ replicate (count c (some 5 ∷ none ∷ some 6 ∷ [])) sent)
broadcast_lem_example =
    broadcast_lem heap lined_up (some 5 ∷ none ∷ some 6 ∷ []) greeting
      (record { inside = omega arith; fits = omega arith }) (omega arith)
