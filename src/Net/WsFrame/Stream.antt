-- ===== src/Net/WsFrame/Stream.antt =====
-- `ParseWSFrame` of common/cpp/net/async/ws_frame.cpp on data that arrives in pieces.
use gmaker.Common.{
  ℕ, zero, suc, ◌+◌, ◌*◌, ◌^◌, ◌≤◌, ◌<◌, bit_and, bit_or, ◌≡◌, refl, ap, ◌∙◌, ◌⊎◌, inl, inr, Bool,
  true, false, ◌&&◌, ◌||◌, not, List, [], ◌∷◌, ◌++◌, arith, ltb, ◌==◌, if◌then◌else◌, ltb→le,
  le→ltb, Bool-cases, u64, length, take, drop, length-append,
}
use gmaker.Net.Bytes.{at}
use gmaker.Net.WsFrame.{
  Frame, Length, short, bad, got, Parsed, need_more, protocol_error, is_control_opcode,
  is_known_opcode, length_loop, read_length, finish, read_mask, after_length, check_bytes,
  parse_frame,
}

at-append : (p q : List ℕ) (i : ℕ) → i < length p → at (p ++ q) i ≡ at p i
at-append [] q i h = absurd (omega arith)
at-append (x ∷ p) q zero h = refl
at-append (x ∷ p) q (suc i) h = at-append p q i (omega arith)

take-drop-append :
    (p q : List ℕ) (n i : ℕ) → i + n ≤ length p → take n (drop i (p ++ q)) ≡ take n (drop i p)
take-drop-append p q zero i h = refl
take-drop-append [] q (suc n) i h = absurd (omega arith)
take-drop-append (x ∷ p) q (suc n) zero h = ap (◌∷◌ x) (take-drop-append p q n zero (omega arith))
take-drop-append (x ∷ p) q (suc n) (suc i) h = take-drop-append p q (suc n) i (omega arith)

length_loop-append :
    (n i acc : ℕ) (p q : List ℕ)
    → 2 + i + n ≤ length p
    → length_loop n i acc (p ++ q) ≡ length_loop n i acc p
unfolding length_loop
length_loop-append zero i acc p q h = refl
length_loop-append (suc n) i acc p q h =
    length_loop-append n (i + 1) (bit_or (u64 (acc * 2 ^ 8)) (at (p ++ q) (2 + i))) p q
      (omega arith)
    ∙ ap (λ b. length_loop n (i + 1) (bit_or (u64 (acc * 2 ^ 8)) b) p)
        (at-append p q (2 + i) (omega arith))

read_length-append :
    (p q : List ℕ) (n : ℕ) → (read_length p n ≡ short) ⊎ (read_length (p ++ q) n ≡ read_length p n)
unfolding read_length
read_length-append p q n =
    ground
      (arith, length-append p q, at-append p q 2, at-append p q 3, length_loop-append 8 0 0 p q)

finish-append :
    (p q : List ℕ) (f : Frame) (pos : ℕ)
    → (finish p f pos ≡ need_more) ⊎ (finish (p ++ q) f pos ≡ finish p f pos)
unfolding finish
finish-append p q f pos = ground (arith, length-append p q)

read_mask-append :
    (p q : List ℕ) (f : Frame) (pos : ℕ)
    → (read_mask p f pos ≡ need_more) ⊎ (read_mask (p ++ q) f pos ≡ read_mask p f pos)
unfolding read_mask
read_mask-append p q f pos = ground (
  arith,
  length-append p q,
  take-drop-append p q 4 pos,
  finish-append p q f pos,
  finish-append p q (record f { mask_key = take 4 (drop pos p) }) (pos + 4),
)

after_length-append :
    (p q : List ℕ) (f : Frame) (l : Length)
    → (after_length p f l ≡ need_more) ⊎ (after_length (p ++ q) f l ≡ after_length p f l)
unfolding after_length
after_length-append p q f short = inl refl
after_length-append p q f bad = inr refl
after_length-append p q f (got n pos) =
    ground (arith, read_mask-append p q (record f { payload_len = n }) pos)

after_length-short : (p : List ℕ) (f : Frame) → after_length p f short ≡ need_more
unfolding after_length
after_length-short p f = refl

abbrev Settled : Parsed → Parsed → Type 0
Settled r r' = (r ≡ need_more) ⊎ (r' ≡ r)

after_read-Settled :
    (p q : List ℕ) (f : Frame) (n : ℕ)
    → Settled
        (after_length p f (read_length p n))
        (after_length (p ++ q) f (read_length (p ++ q) n))
after_read-Settled p q f n = elim (read_length-append p q n) [
  | inl e ↦ inl (ap (after_length p f) e ∙ after_length-short p f)
  | inr e ↦ rw e (after_length-append p q f (read_length p n))
]

-- One test that both runs make.
if-Settled :
    (b : Bool) (x : Parsed) {r r' : Parsed}
    → Settled r r'
    → Settled (if b then x else r) (if b then x else r')
if-Settled true x h = inr refl
if-Settled false x h = h

check_bytes-Settled :
    (p q : List ℕ) (b0 b1 : ℕ) → Settled (check_bytes p b0 b1) (check_bytes (p ++ q) b0 b1)
unfolding check_bytes
check_bytes-Settled p q b0 b1 = if-Settled (not (bit_and b0 0x70 == 0)) protocol_error (
    if-Settled (not (is_known_opcode (bit_and b0 0x0F))) protocol_error (
      if-Settled
        (is_control_opcode (bit_and b0 0x0F)
          && (not (not (bit_and b0 0x80 == 0)) || ltb 125 (bit_and b1 0x7F)))
        protocol_error (after_read-Settled p q _ (bit_and b1 0x7F))))

-- More data never changes a verdict: unless `ParseWSFrame` asks for more, it answers the same, frame
-- or error, when further bytes stand behind the ones that it was given.
pub parse_frame-append :
    (p q : List ℕ) → (parse_frame p ≡ need_more) ⊎ (parse_frame (p ++ q) ≡ parse_frame p)
unfolding parse_frame
parse_frame-append p q = elim (Bool-cases (ltb (length p) 2)) [
  | inl less ↦ inl (rw less)
  | inr enough ↦
      let l = ltb→le (length p) 2 enough in
      rw
        (
          enough,
          le→ltb (length (p ++ q)) 2 (omega (arith, length-append p q)),
          at-append p q 0 (omega arith),
          at-append p q 1 (omega arith),
        )
        (check_bytes-Settled p q (at p 0) (at p 1))
]
