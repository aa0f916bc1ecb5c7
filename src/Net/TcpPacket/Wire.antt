-- ===== src/Net/TcpPacket/Wire.antt =====
-- The reader of common/cpp/net/async/tcp_connection.cpp at the bytes that `EncodePacket` makes.
use gmaker.Common.{
  ℕ, ◌+◌, ◌-◌, ◌^◌, ◌≤◌, ◌<◌, ◌≡◌, refl, sym, ap, ap₂, ◌∙◌, subst, true, some, List, ◌++◌,
  append_assoc, arith, length, take, drop, length-append, take-append, drop-append,
}
use gmaker.Net.Bytes.{read_u16_be, read_u32_be}
use gmaker.Net.Packet.{Header, decode_header, magic_value}
use gmaker.Net.Packet.Encode.{header_bytes, length-header_bytes, Fits, decode_header_bytes}
use gmaker.Net.TcpReader.{Delivery, Env, has_magic, packet_at, open_packet}
use gmaker.Net.TcpReader.Prefix.{decode_header-take}
use gmaker.Net.TcpReader.Frames.{next, frame, frame_run}

front : (n : ℕ) (h : Header) (z : List ℕ) → take 34 (header_bytes n h ++ z) ≡ header_bytes n h
front n h z =
    subst (λ k. take k (header_bytes n h ++ z) ≡ header_bytes n h) (length-header_bytes n h)
      (take-append (header_bytes n h) z)

back : (n : ℕ) (h : Header) (z : List ℕ) → drop 34 (header_bytes n h ++ z) ≡ z
back n h z =
    subst (λ k. drop k (header_bytes n h ++ z) ≡ z) (length-header_bytes n h)
      (drop-append (header_bytes n h) z)

header_of :
    (n : ℕ) (h : Header) (z : List ℕ)
    → Fits h
    → n < 2 ^ 32
    → decode_header (header_bytes n h ++ z) ≡ record h { length_field = n }
header_of n h z f l =
    sym (decode_header-take 34 (header_bytes n h ++ z) (omega arith))
    ∙ ap decode_header (front n h z)
    ∙ decode_header_bytes n h f l

magic_of :
    (n : ℕ) (h : Header) (z : List ℕ)
    → Fits h
    → n < 2 ^ 32
    → h.magic ≡ magic_value
    → has_magic (header_bytes n h ++ z) ≡ true
unfolding has_magic decode_header
magic_of n h z f l m =
    let e : read_u16_be (header_bytes n h ++ z) 4 ≡ magic_value =
      ap (λ (d : Header). d.magic) (header_of n h z f l) ∙ m in
    rw e refl

field_of :
    (n : ℕ) (h : Header) (z : List ℕ)
    → Fits h
    → n < 2 ^ 32
    → read_u32_be (header_bytes n h ++ z) 0 ≡ n
unfolding decode_header
field_of n h z f l = ap (λ (d : Header). d.length_field) (header_of n h z f l)

packet_of :
    (n : ℕ) (h : Header) (payload rest : List ℕ)
    → Fits h
    → n < 2 ^ 32
    → n ≡ 34 + length payload
    → packet_at (header_bytes n h ++ (payload ++ rest)) n
      ≡ record { header = record h { length_field = n }; payload = payload }
unfolding packet_at
packet_of n h payload rest f l e =
    let size : n - 34 ≡ length payload = omega arith in
    λ i. record {
      header = record (header_of n h (payload ++ rest) f l i) { length_field = n };
      payload = (ap₂ take size (back n h (payload ++ rest)) ∙ take-append payload rest) i;
    }

-- The bytes of an encoded packet are one packet for the reader, and what follows them is the rest.
pub frame_wire :
    {W : Type 0} (env : Env W) (w : W) (h : Header) (payload rest : List ℕ) (pkt : Delivery)
    → Fits h
    → h.magic ≡ magic_value
    → 34 + length payload ≤ 16777216
    → open_packet env.gcm
        (env.session_key w)
        (record { header = record h { length_field = 34 + length payload }; payload = payload })
      ≡ some pkt
    → frame env ((header_bytes (34 + length payload) h ++ payload) ++ rest) w
      ≡ next rest (env.on_data w pkt)
frame_wire env w h payload rest pkt f m small o =
    let n = 34 + length payload in
    let hb = header_bytes n h in
    let x = hb ++ (payload ++ rest) in
    let len_hb = length-header_bytes n h in
    let len_x = length-append hb (payload ++ rest) in
    let len_p = length-append payload rest in
    let len_front = length-append hb payload in
    let split = append_assoc hb payload rest in
    let follows : drop n x ≡ rest =
      ap (drop n) (sym split)
      ∙ subst (λ k. drop k ((hb ++ payload) ++ rest) ≡ rest) (omega arith)
          (drop-append (hb ++ payload) rest) in
    ap (λ b. frame env b w) split
    ∙ frame_run env x w n pkt (omega arith) small (omega arith)
        (field_of n h (payload ++ rest) f (omega arith))
        (magic_of n h (payload ++ rest) f (omega arith) m)
        (ap (open_packet env.gcm (env.session_key w))
            (packet_of n h payload rest f (omega arith) refl)
          ∙ o)
    ∙ ap (λ b. next b (env.on_data w pkt)) follows
