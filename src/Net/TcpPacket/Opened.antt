-- ===== src/Net/TcpPacket/Opened.antt =====
-- What the reader of common/cpp/net/async/tcp_connection.cpp makes of the ENCRYPT flag and of an encrypted
-- payload.
use gmaker.Common.{
  ℕ, ◌+◌, ◌-◌, ◌/◌, ◌%◌, ◌^◌, ◌<◌, bit_and, bit_or, ◌≡◌, refl, ap, ◌∙◌, ◌⊎◌, inl, inr, true, false,
  some, List, arith, ◌==◌, Bool-cases, length,
}
use gmaker.Common.Bits.{and-halve, and_mask, or_disjoint}
use gmaker.Crypto.AesGcm.{Gcm, aes_gcm_decrypt}
use gmaker.Crypto.Session.{decrypt_packet_payload}
use gmaker.Net.Packet.{Header, Flag, has_flag, or_flag}
use gmaker.Net.TcpReader.{Delivery, open_packet, decrypt}

-- `flags | ENCRYPT` sets a clear lowest bit, the test sees it, and `flags & ~ENCRYPT` clears it.
pub flags_round_trip :
    (f : ℕ)
    → f < 2 ^ 32
    → f % 2 ≡ 0
    → (or_flag f Flag.encrypt ≡ f + 1)
      × (has_flag (f + 1) Flag.encrypt ≡ true)
      × (has_flag f Flag.encrypt ≡ false)
      × (bit_and (f + 1) (2 ^ 32 - 1 - 1) ≡ f)
unfolding or_flag has_flag
flags_round_trip f l even =
    let set_bit : bit_or f 1 ≡ f + 1 = or_disjoint 1 f 1 even (omega arith) in
    let odd : bit_and (f + 1) 1 ≡ 1 = omega (arith, and_mask 1 (f + 1)) in
    let clear : bit_and f 1 ≡ 0 = omega (arith, and_mask 1 f) in
    let high = and_mask 31 ((f + 1) / 2) in
    (set_bit, rw odd refl, rw clear refl, omega (arith, and-halve (f + 1) 4294967294, high))

pub opened_plain :
    (g : Gcm) (key : List ℕ) (pkt : Delivery)
    → (length key ≡ 0) ⊎ (has_flag pkt.header.flags Flag.encrypt ≡ false)
    → open_packet g key pkt ≡ some pkt
unfolding open_packet
opened_plain g key pkt (inl e) = rw e refl
opened_plain g key pkt (inr e) = elim (Bool-cases (length key == 0)) [
  | inl none_set ↦ rw none_set refl
  | inr some_set ↦ rw (some_set, e) refl
]

decrypted :
    (g : Gcm) (key message plain : List ℕ)
    → length key ≡ 32
    → aes_gcm_decrypt g key message ≡ some plain
    → decrypt_packet_payload g key message ≡ some plain
unfolding decrypt_packet_payload
decrypted g key message plain k e = rw k e

decrypt_run :
    (g : Gcm) (key plain : List ℕ) (pkt : Delivery)
    → decrypt_packet_payload g key pkt.payload ≡ some plain
    → decrypt g key pkt
      ≡ some (record {
        header = record pkt.header { flags = bit_and pkt.header.flags (2 ^ 32 - 1 - 1) };
        payload = plain;
      })
unfolding decrypt
decrypt_run g key plain pkt e = rw (e, decrypt) refl

open_encrypted :
    (g : Gcm) (key : List ℕ) (pkt : Delivery)
    → length key ≡ 32
    → has_flag pkt.header.flags Flag.encrypt ≡ true
    → open_packet g key pkt ≡ decrypt g key pkt
unfolding open_packet
open_encrypted g key pkt k e = rw (k, e) refl

pub opened_message :
    (g : Gcm) (key : List ℕ) (h : Header) (n f : ℕ) (message plain : List ℕ)
    → length key ≡ 32
    → f < 2 ^ 32
    → f % 2 ≡ 0
    → aes_gcm_decrypt g key message ≡ some plain
    → open_packet g key (record {
      header = record h { length_field = n; flags = or_flag f Flag.encrypt };
      payload = message;
    })
      ≡ some (record { header = record h { length_field = n; flags = f }; payload = plain })
opened_message g key h n f message plain k l even e =
    let (set_bit, seen, _, cleared) = flags_round_trip f l even in
    let pkt : Delivery = record {
      header = record h { length_field = n; flags = or_flag f Flag.encrypt };
      payload = message;
    } in
    open_encrypted g key pkt k (ap (λ x. has_flag x Flag.encrypt) set_bit ∙ seen)
    ∙ decrypt_run g key plain pkt (decrypted g key message plain k e)
    ∙ ap (λ x. some (record { header = record h { length_field = n; flags = x }; payload = plain }))
        (ap (λ x. bit_and x (2 ^ 32 - 1 - 1)) set_bit ∙ cleared)
