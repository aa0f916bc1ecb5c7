-- ===== src/Net/TcpReader/Prefix.antt =====
-- Of the bytes at a pointer, the reader of common/cpp/net/async/tcp_connection.cpp looks only at those of
-- the packet.
use gmaker.Common.{
  ℕ, zero, suc, ◌+◌, ◌-◌, ◌≤◌, ◌<◌, min, ◌≡◌, refl, sym, ap, ◌∙◌, List, [], ◌∷◌, arith, take, drop,
  take-take, drop-take,
}
use gmaker.Net.Bytes.{at, read_u16_be, read_u32_be, read_u64_be}
use gmaker.Net.Packet.{decode_header}
use gmaker.Net.TcpReader.{has_magic, packet_at}

at-take : (n : ℕ) (p : List ℕ) (i : ℕ) → i < n → at (take n p) i ≡ at p i
at-take zero p i h = absurd (omega arith)
at-take (suc n) [] i h = refl
at-take (suc n) (x ∷ p) zero h = refl
at-take (suc n) (x ∷ p) (suc i) h = at-take n p i (omega arith)

read_u16_be-take :
    (n : ℕ) (p : List ℕ) (i : ℕ) → i + 2 ≤ n → read_u16_be (take n p) i ≡ read_u16_be p i
unfolding read_u16_be
read_u16_be-take n p i h = rw (at-take n p i (omega arith), at-take n p (i + 1) (omega arith)) refl

pub read_u32_be-take :
    (n : ℕ) (p : List ℕ) (i : ℕ) → i + 4 ≤ n → read_u32_be (take n p) i ≡ read_u32_be p i
unfolding read_u32_be
read_u32_be-take n p i h =
    rw
      (
        at-take n p i (omega arith),
        at-take n p (i + 1) (omega arith),
        at-take n p (i + 2) (omega arith),
        at-take n p (i + 3) (omega arith),
      )
      refl

read_u64_be-take :
    (n : ℕ) (p : List ℕ) (i : ℕ) → i + 8 ≤ n → read_u64_be (take n p) i ≡ read_u64_be p i
unfolding read_u64_be
read_u64_be-take n p i h =
    rw
      (
        at-take n p i (omega arith),
        at-take n p (i + 1) (omega arith),
        at-take n p (i + 2) (omega arith),
        at-take n p (i + 3) (omega arith),
        at-take n p (i + 4) (omega arith),
        at-take n p (i + 5) (omega arith),
        at-take n p (i + 6) (omega arith),
        at-take n p (i + 7) (omega arith),
      )
      refl

pub decode_header-take : (n : ℕ) (p : List ℕ) → 34 ≤ n → decode_header (take n p) ≡ decode_header p
unfolding decode_header
decode_header-take n p h = λ i. record {
  length_field = read_u32_be-take n p 0 (omega arith) i;
  magic = read_u16_be-take n p 4 (omega arith) i;
  cmd_id = read_u32_be-take n p 6 (omega arith) i;
  seq_id = read_u32_be-take n p 10 (omega arith) i;
  flags = read_u32_be-take n p 14 (omega arith) i;
  user_id = read_u64_be-take n p 18 (omega arith) i;
  zone_id = read_u32_be-take n p 26 (omega arith) i;
  service_id = read_u32_be-take n p 30 (omega arith) i;
}

pub has_magic-take : (n : ℕ) (p : List ℕ) → 34 ≤ n → has_magic (take n p) ≡ has_magic p
unfolding has_magic
has_magic-take n p h = rw (read_u16_be-take n p 4 (omega arith)) refl

packet_at-take : (n : ℕ) (p : List ℕ) → 34 ≤ n → packet_at (take n p) n ≡ packet_at p n
unfolding packet_at
packet_at-take n p h =
    let same : min (n - 34) (n - 34) ≡ n - 34 = omega arith in
    λ i. record {
      header = record (decode_header-take n p h i) { length_field = n };
      payload =
          (ap (take (n - 34)) (drop-take 34 n p)
              ∙ take-take (n - 34) (n - 34) (drop 34 p)
              ∙ ap (λ k. take k (drop 34 p)) same)
            i;
    }

-- Two pointers to the same `n` bytes show the same packet of that length.
pub same_packet :
    (n : ℕ) (p q : List ℕ)
    → 34 ≤ n
    → take n p ≡ take n q
    → (has_magic p ≡ has_magic q) × (packet_at p n ≡ packet_at q n)
same_packet n p q h e = (
  sym (has_magic-take n p h) ∙ ap has_magic e ∙ has_magic-take n q h,
  sym (packet_at-take n p h) ∙ ap (λ x. packet_at x n) e ∙ packet_at-take n q h,
)
