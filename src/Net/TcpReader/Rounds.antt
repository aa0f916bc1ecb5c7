-- ===== src/Net/TcpReader/Rounds.antt =====
-- A round of the reader's loop over the ring does what the specification does with the ring's bytes,
-- on its fast path and on both slow ones.
use gmaker.Common.{
  ℕ, ◌≤◌, ◌≡◌, refl, sym, ap, ◌∙◌, subst, inl, inr, Bool, true, false, ◌||◌, not, Option, none,
  some, List, arith, ltb, if◌then◌else◌, ltb→le, Bool-cases, length, take, drop, replicate, blit,
  length-take, length-replicate, take-blit,
}
use gmaker.Net.Bytes.{read_u32_be}
use gmaker.Net.Packet.{header_size, max_packet_len}
use gmaker.Net.Ring.{RingBuffer, readable, is_contiguous, data_at, read_at, consume}
use gmaker.Net.Ring.Cyclic.{contents, IsValid, length-cyclic}
use gmaker.Net.Ring.Read.{read_at_lem, is_contiguous_lem, consume_lem}
use gmaker.Net.TcpReader.{
  Delivery, Env, has_magic, packet_at, open_packet, Round, wait, close, hand_over, fault, dispatch,
  fast_path, copy_path, slow_path, sized_round, round,
}
use gmaker.Net.TcpReader.Prefix.{read_u32_be-take, same_packet}
use gmaker.Net.TcpReader.Frames.{Frame, more, bad, next, after_opening, frame}

module _ {W : Type 0} where
  -- A round agrees with a step of the specification: the ring stays valid and holds the rest.
  abbrev pub Agrees : Round W → Frame W → Type 0
  Agrees wait more = Unit {0}
  Agrees (close r) bad = Unit {0}
  Agrees (hand_over r w) (next rest w') = IsValid r × (contents r ≡ rest) × (w ≡ w')
  Agrees _ _ = ⊥

module _ {W : Type 0} (env : Env W) where
  handed_over :
      (o : Option Delivery) (r : RingBuffer) (w : W) (rest : List ℕ)
      → IsValid r
      → contents r ≡ rest
      → Agrees {W = W}
          (elim o [ none ↦ close r | some opened ↦ hand_over r (env.on_data w opened) ])
          (after_opening env o rest w)
  handed_over none r w rest v e = tt
  handed_over (some pkt) r w rest v e = (v, e, refl)

  -- What a path does with the bytes at a pointer.
  abbrev taken : Bool → RingBuffer → RingBuffer → W → Delivery → Round W
  taken m r r' w pkt = if not m then close r else dispatch env r' w pkt

  taken_lem :
      (r0 r : RingBuffer) (w : W) (len : ℕ) (p : List ℕ)
      → IsValid r
      → 34 ≤ len
      → take len p ≡ take len (contents r)
      → Agrees {W = W} (taken (has_magic p) r0 (consume r len) w (packet_at p len)) (
          if not (has_magic (contents r))
          then bad
          else after_opening env
              (open_packet env.gcm (env.session_key w) (packet_at (contents r) len))
              (drop len (contents r))
              w)
  unfolding dispatch
  taken_lem r0 r w len p v h e =
      let (m, same) = same_packet len p (contents r) h e in
      let (v', rest) = consume_lem r len v in
      rw (m, same)
        (elim (Bool-cases (has_magic (contents r))) [
          | inl magic ↦ rw magic (
              handed_over (open_packet env.gcm (env.session_key w) (packet_at (contents r) len))
                (consume r len) w (drop len (contents r)) v' rest)
          | inr other ↦ rw other tt
        ])

  -- The step of the specification from the magic number on.
  abbrev checked : RingBuffer → W → ℕ → Frame W
  checked r w len =
      if not (has_magic (contents r))
      then bad
      else after_opening env (open_packet env.gcm (env.session_key w) (packet_at (contents r) len))
          (drop len (contents r)) w

  fast_path_lem :
      (r : RingBuffer) (w : W) (len : ℕ)
      → IsValid r
      → 34 ≤ len
      → len ≤ 16777216
      → is_contiguous r 0 len ≡ true
      → Agrees (fast_path env r w len) (checked r w len)
  unfolding fast_path
  fast_path_lem r w len v long short straight =
      let (_, same) = is_contiguous_lem r 0 len v (omega arith) straight in
      taken_lem r r w len (drop (data_at r 0) r.buf) v long same

  copy_path_lem :
      (r : RingBuffer) (w : W) (len : ℕ) (out : List ℕ)
      → IsValid r
      → 34 ≤ len
      → len ≤ r.stored
      → len ≤ length out
      → Agrees (copy_path env r w len out) (checked r w len)
  unfolding copy_path
  copy_path_lem r w len out v long there room =
      let bytes = take len (contents r) in
      let size = length-cyclic r.buf r.rpos r.stored v.rpos_in v.stored_in in
      let exact : length bytes ≡ len = omega (arith, length-take len (contents r)) in
      let copied : take len (blit out 0 bytes) ≡ bytes =
        subst (λ k. take k (blit out 0 bytes) ≡ bytes) exact (take-blit out bytes (omega arith)) in
      rw (read_at_lem r 0 out len v (omega arith), copy_path)
        (taken_lem (consume r len) r w len (blit out 0 bytes) v long copied)

  slow_path_lem :
      (r : RingBuffer) (w : W) (len : ℕ)
      → IsValid r
      → 34 ≤ len
      → len ≤ r.stored
      → Agrees (slow_path env r w len) (checked r w len)
  unfolding slow_path
  slow_path_lem r w len v long there = elim (Bool-cases (ltb (length env.temp_buf) len)) [
    | inl large ↦ rw large (
        copy_path_lem r w len (replicate len 0) v long there
          (omega (arith, length-replicate {A = ℕ} len 0)))
    | inr small ↦
        rw small
          (copy_path_lem r w len env.temp_buf v long there (ltb→le (length env.temp_buf) len small))
  ]

  -- The step of the specification from the length field on.
  abbrev sized : RingBuffer → W → ℕ → Frame W
  sized r w len =
      if ltb len header_size || ltb max_packet_len len
      then bad
      else if ltb (readable r) len
      then more
      else checked r w len

  in_range :
      (len : ℕ)
      → (ltb len header_size || ltb max_packet_len len) ≡ false
      → (34 ≤ len) × (len ≤ 16777216)
  in_range len h = ground arith

  sized_round_lem :
      (r : RingBuffer) (w : W) (len : ℕ)
      → IsValid r
      → Agrees (sized_round env r w len) (sized r w len)
  unfolding sized_round
  sized_round_lem r w len v = elim (Bool-cases (ltb len header_size || ltb max_packet_len len)) [
    | inl out ↦ rw out tt
    | inr within ↦ elim (Bool-cases (ltb (readable r) len)) [
      | inl short ↦ rw (within, short) tt
      | inr there ↦
          let (low, high) = in_range len within in
          let all = ltb→le (readable r) len there in
          elim (Bool-cases (is_contiguous r 0 len)) [
            | inl straight ↦
                rw (within, there, straight) (fast_path_lem r w len v low high straight)
            | inr wrapped ↦ rw (within, there, wrapped) (slow_path_lem r w len v low all)
          ]
    ]
  ]

  field_round :
      (r : RingBuffer) (w : W)
      → IsValid r
      → 4 ≤ r.stored
      → Agrees
          (elim (read_at r 0 (replicate 4 0) 4) [
            | none ↦ fault
            | some len_bytes ↦ sized_round env r w (read_u32_be len_bytes 0)
          ])
          (sized r w (read_u32_be (contents r) 0))
  field_round r w v there =
      let bytes = take 4 (contents r) in
      let size = length-cyclic r.buf r.rpos r.stored v.rpos_in v.stored_in in
      let exact : length bytes ≡ 4 = omega (arith, length-take 4 (contents r)) in
      let copied : take 4 (blit (replicate 4 0) 0 bytes) ≡ bytes =
        subst (λ k. take k (blit (replicate 4 0) 0 bytes) ≡ bytes) exact
          (take-blit (replicate 4 0) bytes (omega arith)) in
      let field : read_u32_be (blit (replicate 4 0) 0 bytes) 0 ≡ read_u32_be (contents r) 0 =
        sym (read_u32_be-take 4 (blit (replicate 4 0) 0 bytes) 0 (omega arith))
        ∙ ap (λ x. read_u32_be x 0) copied
        ∙ read_u32_be-take 4 (contents r) 0 (omega arith) in
      rw (read_at_lem r 0 (replicate 4 0) 4 v there, field)
        (sized_round_lem r w (read_u32_be (contents r) 0) v)

  -- A round over the ring agrees with a step over its bytes.
  pub round_lem :
      (r : RingBuffer) (w : W) → IsValid r → Agrees (round env r w) (frame env (contents r) w)
  unfolding round frame
  round_lem r w v =
      let size = length-cyclic r.buf r.rpos r.stored v.rpos_in v.stored_in in
      let count : length (contents r) ≡ readable r = size in
      rw count (elim (Bool-cases (ltb (readable r) 4)) [
        | inl short ↦ rw short tt
        | inr there ↦ rw there (field_round r w v (ltb→le (readable r) 4 there))
      ])
