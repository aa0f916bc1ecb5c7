-- ===== src/Net/Packet/Decode.antt =====
-- What `DecodePacket` of common/cpp/net/packet.hpp accepts, and what it makes of it.
use gmaker.Common.{
  ℕ, ◌+◌, ◌-◌, ◌^◌, ◌≤◌, ◌<◌, ◌≡◌, refl, sym, ap, ◌∙◌, ◌⊎◌, inl, inr, true, false, ◌||◌, some, List,
  [], arith, ltb, ◌==◌, ==→eq, ==→ne, le→ltb, tests, Bool-cases, length, take, drop, take_all,
  get_or_last, nil_of_length,
}
use gmaker.Net.Buffer.{Store, Buffer, allocate, region, bytes, IsValid}
use gmaker.Net.Buffer.Views.{data_const_lem, length-bytes, region-take, region-drop, length-region}
use gmaker.Net.Packet.{
  Header, header_size, max_packet_len, magic_value, decode_header, Decoded, rejected, accepted,
  fault, take_payload, check_header, decode_packet,
}

-- A decoded packet with a given header, whose payload shows given bytes in a window that is valid.
abbrev pub Accepts : Header → List ℕ → Decoded → Type 0
Accepts hd bs rejected = ⊥
Accepts hd bs fault = ⊥
Accepts hd bs (accepted s pkt) =
    (pkt.header ≡ hd) × (bytes s pkt.payload ≡ bs) × IsValid s pkt.payload

take_payload_lem :
    (s : Store) (h i n : ℕ) (bs : List ℕ) (hd : Header)
    → region s (h, i + header_size) n ≡ some bs
    → n < 2 ^ 63
    → Accepts hd bs (take_payload s (h, i) n hd)
unfolding take_payload allocate
take_payload_lem s h i n bs hd read small = elim (Bool-cases (ltb 0 n)) [
  | inl pos ↦
      let last = get_or_last s bs [] in
      let len = length-region s h (i + header_size) n bs read in
      rw (pos, read)
        (
          refl,
          ap (take n) last ∙ ap (λ k. take k bs) (sym len) ∙ take_all bs,
          record { inside = omega (arith, ap length last); fits = omega (arith, ap length last) },
        )
  | inr nothing ↦ rw nothing (
    refl,
    sym (nil_of_length bs (omega (tests, nothing, length-region s h (i + header_size) n bs read))),
    omega arith,
  )
]

-- What `DecodePacket` asks of the bytes that it is given.
pub record IsPacket (x : List ℕ) : Type 0 where
  pub long_enough : header_size ≤ length x
  pub short_enough : length x ≤ max_packet_len
  pub magic_right : (decode_header (take header_size x)).magic ≡ magic_value
  pub length_right : (decode_header (take header_size x)).length_field ≡ length x

check_header_lem :
    (s : Store) (h i n : ℕ) (bs : List ℕ) (hd : Header)
    → region s (h, i + header_size) (n - header_size) ≡ some bs
    → header_size ≤ n
    → n ≤ max_packet_len
    → ((hd.magic ≡ magic_value)
        × (hd.length_field ≡ n)
        × Accepts hd bs (check_header s (h, i) n hd))
      ⊎ ((¬ ((hd.magic ≡ magic_value) × (hd.length_field ≡ n)))
          × (check_header s (h, i) n hd ≡ rejected))
unfolding check_header
check_header_lem s h i n bs hd read lo hi = elim (Bool-cases (hd.magic == magic_value)) [
  | inr bad ↦ inr (λ good. ==→ne _ _ bad good.0, rw bad)
  | inl magic_ok ↦ elim (Bool-cases (hd.length_field == n)) [
    | inr bad ↦ inr (λ good. ==→ne _ _ bad good.1, rw (magic_ok, bad))
    | inl len_ok ↦
        let same = ==→eq _ _ len_ok in
        inl (
          ==→eq _ _ magic_ok,
          same,
          rw
              (
                magic_ok,
                len_ok,
                le→ltb hd.length_field header_size (omega arith),
                le→ltb max_packet_len hd.length_field (omega arith),
              )
              (take_payload_lem s h i (n - header_size) bs hd read (omega arith)),
        )
  ]
]

out_of_range :
    (n : ℕ)
    → (ltb n header_size || ltb max_packet_len n) ≡ true
    → (n < header_size) ⊎ (max_packet_len < n)
out_of_range n h = ground arith

in_range :
    (n : ℕ)
    → (ltb n header_size || ltb max_packet_len n) ≡ false
    → (header_size ≤ n) × (n ≤ max_packet_len)
in_range n h = ground arith

-- `DecodePacket` of a valid buffer never reads out of range. It accepts exactly the byte sequences
-- of 34 bytes to 16 MB whose magic is right and whose length field is their length; the packet then
-- has the header of the first 34 bytes, and a payload of its own with all the others.
pub decode_packet_lem :
    (s : Store) (b : Buffer)
    → IsValid s b
    → (IsPacket (bytes s b)
        × Accepts
            (decode_header (take header_size (bytes s b)))
            (drop header_size (bytes s b))
            (decode_packet s b))
      ⊎ ((¬ IsPacket (bytes s b)) × (decode_packet s b ≡ rejected))
unfolding decode_packet
decode_packet_lem s b v = elim (Bool-cases (ltb b.len header_size || ltb max_packet_len b.len)) [
  | inl bad ↦ inr (
    λ p. omega (arith, p.long_enough, p.short_enough, length-bytes s b v, out_of_range b.len bad),
    rw bad,
  )
  | inr fine ↦
      let (lo, hi) = in_range b.len fine in
      let n = length-bytes s b v in
      elim (data_const_lem s b v) [
        | inl (null, zero_len) ↦ absurd (omega arith)
        | inr ((h, i), found, read) ↦
            let first = region-take s h i b.len header_size (bytes s b) read lo in
            let others = region-drop s h i b.len header_size (bytes s b) read lo in
            let hd = decode_header (take header_size (bytes s b)) in
            elim (check_header_lem s h i b.len (drop header_size (bytes s b)) hd others lo hi) [
              | inl (m, l, acc) ↦ inl (
                record {
                  long_enough = omega arith;
                  short_enough = omega arith;
                  magic_right = m;
                  length_right = l ∙ sym n;
                },
                rw (fine, found, first, decode_packet) acc,
              )
              | inr (wrong, rej) ↦ inr (
                λ p. wrong (p.magic_right, p.length_right ∙ n),
                rw (fine, found, first, decode_packet) rej,
              )
            ]
      ]
]
