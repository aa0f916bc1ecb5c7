-- ===== src/Net/WsFrame/Opening.antt =====
-- The first two bytes of a server's frame, and what `ParseWSFrame` makes of them
-- (common/cpp/net/async/ws_frame.cpp).
use gmaker.Common.{
  ℕ, ◌+◌, ◌^◌, ◌≤◌, ◌<◌, bit_and, bit_or, ◌≡◌, ap, ap₂, ◌∙◌, ◌⊎◌, inl, inr, true, false, List, [],
  ◌∷◌, arith, le→ltb, u8, length,
}
use gmaker.Net.Bytes.{at}
use gmaker.Net.WsFrame.{
  Frame, got, parsed, is_control_opcode, is_known_opcode, read_length, finish, read_mask,
  after_length, check_bytes, parse_frame,
}

-- What a server's frame says of itself.
abbrev pub sent : ℕ → ℕ → Frame
sent op n = record {
  fin = true;
  opcode = op;
  masked = false;
  payload_len = n;
  mask_key = 0 ∷ 0 ∷ 0 ∷ 0 ∷ [];
}

abbrev pub first_byte : ℕ → ℕ
first_byte op = u8 (bit_or 0x80 (bit_and op 0x0F))

abbrev OneOf : ℕ → List ℕ → Type 0
OneOf op [] = ⊥
OneOf op (x ∷ []) = op ≡ x
OneOf op (x ∷ y ∷ ys) = (op ≡ x) ⊎ OneOf op (y ∷ ys)

known_cases : (op : ℕ) → is_known_opcode op ≡ true → OneOf op (0 ∷ 1 ∷ 2 ∷ 8 ∷ 9 ∷ 10 ∷ [])
unfolding is_known_opcode
known_cases op h = ground arith

-- The first byte passes every test of the parser.
module _ (p : List ℕ) (b1 : ℕ) (unmasked : bit_and b1 0x80 ≡ 0) where
  abbrev Passes : ℕ → Type 0
  Passes op =
      (is_control_opcode op ≡ true → bit_and b1 0x7F ≤ 125)
      → check_bytes p (first_byte op) b1
        ≡ after_length p (sent op 0) (read_length p (bit_and b1 0x7F))

  Passes-data : (op : ℕ) → OneOf op (0 ∷ 1 ∷ 2 ∷ []) → Passes op
  unfolding check_bytes is_known_opcode is_control_opcode
  Passes-data op (inl e) c = rw (e, unmasked)
  Passes-data op (inr (inl e)) c = rw (e, unmasked)
  Passes-data op (inr (inr e)) c = rw (e, unmasked)

  Passes-control : (op : ℕ) → OneOf op (8 ∷ 9 ∷ 10 ∷ []) → Passes op
  unfolding check_bytes is_known_opcode is_control_opcode
  Passes-control op (inl e) c =
      let s : bit_and b1 0x7F ≤ 125 = c (rw e) in rw (e, unmasked, le→ltb 125 (bit_and b1 0x7F) s)
  Passes-control op (inr (inl e)) c =
      let s : bit_and b1 0x7F ≤ 125 = c (rw e) in rw (e, unmasked, le→ltb 125 (bit_and b1 0x7F) s)
  Passes-control op (inr (inr e)) c =
      let s : bit_and b1 0x7F ≤ 125 = c (rw e) in rw (e, unmasked, le→ltb 125 (bit_and b1 0x7F) s)

  passes : (op : ℕ) → is_known_opcode op ≡ true → Passes op
  passes op k = elim (known_cases op k) [
    | inl e ↦ Passes-data op (inl e)
    | inr (inl e) ↦ Passes-data op (inr (inl e))
    | inr (inr (inl e)) ↦ Passes-data op (inr (inr e))
    | inr (inr (inr c)) ↦ Passes-control op c
  ]

-- What follows the length, for an unmasked frame whose payload is there.
after_length-sent :
    (p : List ℕ) (op n pos : ℕ)
    → (is_control_opcode op ≡ true → n ≤ 125)
    → pos + n ≤ length p
    → pos ≤ 10
    → n < 2 ^ 63
    → after_length p (sent op 0) (got n pos) ≡ parsed (sent op n) pos (pos + n)
unfolding after_length read_mask finish
after_length-sent p op n pos c fits small_pos small = ground (arith, c)

pub parse_sent :
    (p : List ℕ) (op b1 n pos : ℕ) (t : List ℕ)
    → p ≡ first_byte op ∷ b1 ∷ t
    → is_known_opcode op ≡ true
    → (is_control_opcode op ≡ true → n ≤ 125)
    → bit_and b1 0x80 ≡ 0
    → (n ≤ 125 → bit_and b1 0x7F ≡ n)
    → read_length p (bit_and b1 0x7F) ≡ got n pos
    → pos + n ≤ length p
    → pos ≤ 10
    → n < 2 ^ 63
    → parse_frame p ≡ parsed (sent op n) pos (pos + n)
unfolding parse_frame
parse_sent p op b1 n pos t shape known control unmasked same len fits small_pos small =
    let long : 2 ≤ length p = rw shape (omega arith) in
    rw (le→ltb (length p) 2 long) (
      ap₂ (check_bytes p) (ap (λ l. at l 0) shape) (ap (λ l. at l 1) shape)
      ∙ passes p b1 unmasked op known (λ c. omega (arith, control c, same (control c)))
      ∙ ap (after_length p (sent op 0)) len
      ∙ after_length-sent p op n pos control fits small_pos small)
