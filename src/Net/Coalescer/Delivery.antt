-- ===== src/Net/Coalescer/Delivery.antt =====
-- What a broadcast of common/cpp/net/async/coalescer.cpp puts in line for each connection.
use gmaker.Common.{
  ℕ, suc, ◌+◌, ◌^◌, ◌<◌, ◌≡◌, refl, sym, ap, ◌∙◌, inl, inr, Option, none, some, List, [], ◌∷◌, ◌++◌,
  append-nil, append_assoc, arith, ◌==◌, if◌then◌else◌, Bool-cases, length, replicate,
  length-append, take_long,
}
use gmaker.Net.Buffer.{Store, Buffer, from_vector, slice, size, bytes, IsValid}
use gmaker.Net.Buffer.Views.{slice_lem, length-bytes, from_vector_lem}
use gmaker.Net.Packet.{Packet, header_size, encode_packet}
use gmaker.Net.Packet.Encode.{header_bytes, length-header_bytes, encode_packet_lem}
use gmaker.Net.Coalescer.{Pending, Coalescer, push, push_each, broadcast}
use gmaker.Net.Coalescer.Flush.{waiting_for, waiting_for-append}

-- How often a connection is listed.
abbrev pub count : ℕ → List (Option ℕ) → ℕ
count c [] = 0
count c (none ∷ conns) = count c conns
count c (some d ∷ conns) = if d == c then suc (count c conns) else count c conns

waiting_for-one :
    (c : ℕ) (conn : Option ℕ) (conns : List (Option ℕ)) (sent : Buffer)
    → waiting_for c (record { conn = conn; encoded = sent } ∷ []) ++ replicate (count c conns) sent
      ≡ replicate (count c (conn ∷ conns)) sent
waiting_for-one c none conns sent = refl
waiting_for-one c (some d) conns sent = elim (Bool-cases (d == c)) [
  | inl same ↦ rw same refl
  | inr other ↦ rw other refl
]

push_each_lem :
    (conns : List (Option ℕ)) (co : Coalescer) (d : Buffer) (c : ℕ)
    → waiting_for c (push_each co conns d).pending
      ≡ waiting_for c co.pending ++ replicate (count c conns) (slice d 0 (size d))
unfolding push_each
push_each_lem [] co d c = sym (append-nil (waiting_for c co.pending))
push_each_lem (conn ∷ conns) co d c =
    let sent = slice d 0 (size d) in
    let one : List Pending = record { conn = conn; encoded = sent } ∷ [] in
    push_each_lem conns (push co conn sent) d c
    ∙ ap (λ x. x ++ replicate (count c conns) sent) (waiting_for-append c co.pending one)
    ∙ append_assoc (waiting_for c co.pending) (waiting_for c one) (replicate (count c conns) sent)
    ∙ ap (λ x. waiting_for c co.pending ++ x) (waiting_for-one c conn conns sent)

broadcast_run :
    (s : Store) (co : Coalescer) (conns : List (Option ℕ)) (pkt : Packet) (s' : Store) (d : Buffer)
    → encode_packet s pkt ≡ some (s', d)
    → broadcast s co conns pkt ≡ some (s', push_each co conns d)
unfolding broadcast
broadcast_run s co conns pkt s' d h = rw (h, broadcast) refl

-- `Broadcast` of a packet with a valid payload whose total length is below 2 ^ 32 encodes it
-- once: one valid buffer with the header and the payload is put in line for every
-- connection of the list, as often as it is listed, behind what waited for it before, and for no other.
pub broadcast_lem :
    (s : Store) (co : Coalescer) (conns : List (Option ℕ)) (pkt : Packet)
    → IsValid s pkt.payload
    → header_size + pkt.payload.len < 2 ^ 32
    → (s' : Store) × (co' : Coalescer) × (sent : Buffer) × (broadcast s co conns pkt
        ≡ some (s', co'))
      × IsValid s' sent
      × (bytes s' sent
          ≡ header_bytes (header_size + pkt.payload.len) pkt.header ++ bytes s pkt.payload)
      × ((c : ℕ)
          → waiting_for c co'.pending ≡ waiting_for c co.pending ++ replicate (count c conns) sent)
broadcast_lem s co conns pkt v small =
    let n = header_size + pkt.payload.len in
    let x = header_bytes n pkt.header ++ bytes s pkt.payload in
    let len : length x ≡ n = omega (
      arith,
      length-append (header_bytes n pkt.header) (bytes s pkt.payload),
      length-header_bytes n pkt.header,
      length-bytes s pkt.payload v,
    ) in
    let s' = (from_vector s x).0 in
    let d = (from_vector s x).1 in
    let (valid, shown) = from_vector_lem s x (omega arith) in
    let (valid', sliced) = slice_lem s' d 0 d.len valid (omega (arith, valid.inside, valid.fits)) in
    (
      s',
      push_each co conns d,
      slice d 0 (size d),
      broadcast_run s co conns pkt s' d (encode_packet_lem s pkt v small),
      valid',
      sliced ∙ take_long d.len (bytes s' d) (omega (arith, length-bytes s' d valid)) ∙ shown,
      push_each_lem conns co d,
    )
