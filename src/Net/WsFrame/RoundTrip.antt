-- ===== src/Net/WsFrame/RoundTrip.antt =====
-- `ParseWSFrame` reads back what the encoders of common/cpp/net/async/ws_frame.cpp write.
use gmaker.Common.{
  ℕ, ◌+◌, ◌^◌, ◌≤◌, ◌<◌, bit_and, ◌≡◌, refl, sym, ap, ◌∙◌, inl, inr, true, List, [], ◌∷◌, ◌++◌,
  append_assoc, arith, ltb, leb, ltb→lt, ltb→le, leb→le, leb→lt, lt→ltb, le→ltb, le→leb, lt→leb,
  Bool-cases, ◌>>◌, length, take, drop, length-append, length-take, take-append, drop-append,
}
use gmaker.Common.Bits.{and_mask, and_clear}
use gmaker.Net.Bytes.{low_byte}
use gmaker.Net.WsFrame.{
  got, parsed, is_control_opcode, is_known_opcode, read_length, parse_frame, opcode_close,
  opcode_pong, encode_header, encode_frame, encode_close, encode_pong,
}
use gmaker.Net.WsFrame.Opening.{sent, first_byte, parse_sent}
use gmaker.Net.WsFrame.Lengths.{large_bytes, read_small, read_medium, read_large}

-- The header in its three forms.
header_small : (op n : ℕ) → n < 126 → encode_header op n ≡ first_byte op ∷ n ∷ []
unfolding encode_header
header_small op n h = rw (lt→ltb n 126 h) (ap (λ b. first_byte op ∷ b ∷ []) (omega arith))

header_medium :
    (op n : ℕ)
    → 126 ≤ n
    → n ≤ 0xFFFF
    → encode_header op n ≡ first_byte op ∷ 126 ∷ low_byte (n >> 8) ∷ low_byte n ∷ []
unfolding encode_header
header_medium op n h l = rw (le→ltb n 126 h, le→leb n 0xFFFF l)

header_large : (op n : ℕ) → 65536 ≤ n → encode_header op n ≡ first_byte op ∷ 127 ∷ large_bytes n []
unfolding encode_header
header_large op n h = rw (le→ltb n 126 (omega arith), lt→leb n 0xFFFF h)

-- A header of any form in front of the payload.
parse_form :
    (op b1 : ℕ) (h payload rest : List ℕ)
    → encode_header op (length payload) ≡ first_byte op ∷ b1 ∷ h
    → is_known_opcode op ≡ true
    → (is_control_opcode op ≡ true → length payload ≤ 125)
    → bit_and b1 0x80 ≡ 0
    → (length payload ≤ 125 → bit_and b1 0x7F ≡ length payload)
    → read_length (first_byte op ∷ b1 ∷ (h ++ payload) ++ rest) (bit_and b1 0x7F)
      ≡ got (length payload) (2 + length h)
    → 2 + length h ≤ 10
    → length payload < 2 ^ 63
    → parse_frame (encode_frame op payload ++ rest)
      ≡ parsed (sent op (length payload)) (2 + length h) (2 + length h + length payload)
unfolding encode_frame
parse_form op b1 h payload rest shape known control unmasked same len short_header small =
    let p = encode_header op (length payload) ++ payload ++ rest in
    let e : encode_header op (length payload) ++ payload ++ rest
        ≡ first_byte op ∷ b1 ∷ (h ++ payload) ++ rest =
      ap (λ x. x ++ payload ++ rest) shape in
    parse_sent (encode_header op (length payload) ++ payload ++ rest) op b1 (length payload)
      (2 + length h) ((h ++ payload) ++ rest) e known control unmasked same
      (ap (λ x. read_length x (bit_and b1 0x7F)) e ∙ len)
      (omega (arith, ap length e, length-append (h ++ payload) rest, length-append h payload))
      short_header small

parse_cases :
    (op : ℕ) (payload rest : List ℕ)
    → is_known_opcode op ≡ true
    → (is_control_opcode op ≡ true → length payload ≤ 125)
    → length payload < 2 ^ 63
    → let h = length (encode_header op (length payload)) in
      parse_frame (encode_frame op payload ++ rest)
      ≡ parsed (sent op (length payload)) h (h + length payload)
parse_cases op payload rest known control small =
    let n = length payload in
    elim (Bool-cases (ltb n 126)) [
      | inl is_small ↦
          let s = ltb→lt n 126 is_small in
          let e = header_small op n s in
          let m : bit_and n 0x7F ≡ n = omega (arith, and_mask 7 n) in
          rw (ap length e) (
            parse_form op n [] payload rest e known control (and_clear 7 n (omega arith)) (λ _. m)
              (read_small (first_byte op ∷ n ∷ payload ++ rest) (bit_and n 0x7F) (omega arith)
                ∙ ap (λ k. got k 2) m)
              (omega arith) small)
      | inr not_small ↦
          let l = ltb→le n 126 not_small in
          elim (Bool-cases (leb n 0xFFFF)) [
            | inl is_medium ↦
                let e = header_medium op n l (leb→le _ _ is_medium) in
                rw (ap length e) (
                  parse_form op 126 (low_byte (n >> 8) ∷ low_byte n ∷ []) payload rest e known
                    control refl (λ c. absurd (omega arith))
                    (read_medium (first_byte op) n (payload ++ rest) l (leb→le _ _ is_medium))
                    (omega arith) small)
            | inr is_large ↦
                let b = leb→lt n 0xFFFF is_large in
                let e = header_large op n b in
                rw (ap length e) (
                  parse_form op 127 (large_bytes n []) payload rest e known control refl
                    (λ c. absurd (omega arith))
                    (read_large (first_byte op) n (payload ++ rest) b small) (omega arith) small)
          ]
    ]

-- A parser run on `frame ++ rest` that finds `payload` in a frame with opcode `op`, and consumes just
-- `frame`.
abbrev pub Reads : List ℕ → List ℕ → ℕ → List ℕ → Type 0
Reads frame rest op payload =
    (offset : ℕ) × (parse_frame (frame ++ rest)
      ≡ parsed (sent op (length payload)) offset (length frame))
    × (take (length payload) (drop offset (frame ++ rest)) ≡ payload)

-- `ParseWSFrame` of a frame that `EncodeWSFrame` made, whatever follows it, gives back the opcode,
-- unmasked and final, and an offset and a length at which the payload stands, and consumes the frame
-- and no more: for each known opcode, payloads below 2 ^ 63 bytes, and control frames of at most
-- 125 bytes.
pub parse_frame-encode_frame :
    (op : ℕ) (payload rest : List ℕ)
    → is_known_opcode op ≡ true
    → (is_control_opcode op ≡ true → length payload ≤ 125)
    → length payload < 2 ^ 63
    → Reads (encode_frame op payload) rest op payload
unfolding encode_frame
parse_frame-encode_frame op payload rest known control small =
    let hd = encode_header op (length payload) in
    let run = parse_cases op payload rest known control small in
    (
      length hd,
      run ∙ ap (parsed (sent op (length payload)) (length hd)) (sym (length-append hd payload)),
      ap (λ x. take (length payload) (drop (length hd) x)) (append_assoc hd payload rest)
          ∙ ap (take (length payload)) (drop-append hd (payload ++ rest))
          ∙ take-append payload rest,
    )

-- `EncodeWSCloseFrame` and `EncodeWSPongFrame` cut what they are given to the size of a control
-- frame, so their frames parse, whatever the reason and the payload: the payload is the two bytes of
-- the status with up to 123 bytes of the reason, and up to 125 bytes of the payload.
pub parse_frame-encode_control :
    (status : ℕ) (reason payload rest : List ℕ)
    → Reads
        (encode_close status reason)
        rest
        opcode_close
        (low_byte (status >> 8) ∷ low_byte status ∷ take 123 reason)
      × Reads (encode_pong payload) rest opcode_pong (take 125 payload)
unfolding encode_close encode_pong is_known_opcode
parse_frame-encode_control status reason payload rest =
    let r = length-take 123 reason in
    let q = length-take 125 payload in
    (
      parse_frame-encode_frame opcode_close
          (low_byte (status >> 8) ∷ low_byte status ∷ take 123 reason) rest refl (λ _. omega arith)
          (omega arith),
      parse_frame-encode_frame opcode_pong (take 125 payload) rest refl (λ _. omega arith)
          (omega arith),
    )
