-- ===== src/Net/WsFrame/Parse.antt =====
-- The bit tests of `ParseWSFrame`, common/cpp/net/async/ws_frame.cpp, as arithmetic on bytes.
use gmaker.Common.{
  ℕ, ◌+◌, ◌≤◌, bit_and, ◌≡◌, refl, ◌&&◌, ◌||◌, not, List, arith, ltb, ◌==◌, if_elim, length, take,
  drop,
}
use gmaker.Net.Bytes.{at}
use gmaker.Net.WsFrame.{
  Frame, Length, is_control_opcode, is_known_opcode, check_bytes, parse_frame, Parsed, finish,
  read_mask, after_length, parsed, need_more, protocol_error, short, bad, got, read_length,
}

-- A parsed frame lies in the data: its payload begins at the offset and ends where the bytes
-- consumed end, which is within the data; the header takes 2 to 14 bytes.
abbrev pub Within : List ℕ → Parsed → Type 0
Within p need_more = Unit {0}
Within p protocol_error = Unit {0}
Within p (parsed f offset consumed) =
    (offset + f.payload_len ≡ consumed) × (consumed ≤ length p) × (2 ≤ offset) × (offset ≤ 14)

finish-Within : (p : List ℕ) (f : Frame) (pos : ℕ) → 2 ≤ pos → pos ≤ 14 → Within p (finish p f pos)
unfolding finish
finish-Within p f pos lo hi = ground arith

read_mask-Within :
    (p : List ℕ) (f : Frame) (pos : ℕ) → 2 ≤ pos → pos ≤ 10 → Within p (read_mask p f pos)
unfolding read_mask
read_mask-Within p f pos lo hi =
    if_elim (Within p) f.masked
      (λ masked.
        if_elim (Within p) (ltb (length p) (pos + 4)) (λ less. tt)
          (λ more.
            finish-Within p (record f { mask_key = take 4 (drop pos p) }) (pos + 4) (omega arith)
              (omega arith)))
      (λ plain. finish-Within p f pos lo (omega arith))

-- Where the length's reader stops.
read_length_pos :
    (p : List ℕ) (n len pos : ℕ) → read_length p n ≡ got len pos → (2 ≤ pos) × (pos ≤ 10)
unfolding read_length
read_length_pos p n len pos e = ground arith

after_length-Within :
    (p : List ℕ) (f : Frame) (n : ℕ) (l : Length)
    → read_length p n ≡ l
    → Within p (after_length p f l)
unfolding after_length
after_length-Within p f n short e = tt
after_length-Within p f n bad e = tt
after_length-Within p f n (got len pos) e =
    let (lo, hi) = read_length_pos p n len pos e in
    if_elim (Within p) (is_control_opcode f.opcode && ltb 125 len) (λ long. tt)
      (λ fine. read_mask-Within p (record f { payload_len = len }) pos lo hi)

check_bytes-Within : (p : List ℕ) (b0 b1 : ℕ) → Within p (check_bytes p b0 b1)
unfolding check_bytes
check_bytes-Within p b0 b1 =
    let opcode = bit_and b0 0x0F in
    let len7 = bit_and b1 0x7F in
    if_elim (Within p) (not (bit_and b0 0x70 == 0)) (λ reserved. tt)
      (λ _.
        if_elim (Within p) (not (is_known_opcode opcode)) (λ unknown. tt)
          (λ _.
            if_elim (Within p)
              (is_control_opcode opcode && (not (not (bit_and b0 0x80 == 0)) || ltb 125 len7))
              (λ control. tt) (λ _. after_length-Within p _ len7 (read_length p len7) refl)))

-- Whatever the bytes, `ParseWSFrame` reads no further than it was given: the payload that it reports
-- ends within the data, just where the bytes that it consumed end, after a header of 2 to 14 bytes.
pub parse_frame-Within : (p : List ℕ) → Within p (parse_frame p)
unfolding parse_frame
parse_frame-Within p =
    if_elim (Within p) (ltb (length p) 2) (λ less. tt) (λ _. check_bytes-Within p (at p 0) (at p 1))
