-- ===== src/Net/TcpReader/Chunks.antt =====
-- The specification of the reader does not depend on how the stream is cut into reads.
use gmaker.Common.{
  ℕ, zero, suc, ◌≤◌, ◌<◌, ◌≡◌, refl, sym, ap, ◌∙◌, ◌≢◌, ◌⊎◌, inl, inr, true, false, ◌||◌, not,
  Option, none, some, List, [], ◌∷◌, ◌++◌, arith, ltb, le→ltb, if_eq, length, take, drop,
  length-append,
}
use gmaker.Net.Bytes.{read_u32_be}
use gmaker.Net.Packet.{header_size, max_packet_len}
use gmaker.Net.TcpReader.{Delivery, Env, has_magic, packet_at, open_packet}
use gmaker.Net.TcpReader.Prefix.{read_u32_be-take, same_packet}
use gmaker.Net.TcpReader.Frames.{Frame, more, bad, next, after_opening, frame, Cut}

pub Frame-cases :
    {W : Type 0} (x : Frame W)
    → (x ≡ more) ⊎ (x ≡ bad) ⊎ ((rest : List ℕ) × (w : W) × (x ≡ next rest w))
Frame-cases more = inl refl
Frame-cases bad = inr (inl refl)
Frame-cases (next rest w) = inr (inr (rest, w, refl))

-- The first `n` bytes stay the first.
take_front : (n : ℕ) (bs cs : List ℕ) → n ≤ length bs → take n (bs ++ cs) ≡ take n bs
take_front zero bs cs h = refl
take_front (suc n) [] cs h = absurd (omega arith)
take_front (suc n) (b ∷ bs) cs h = ap (◌∷◌ b) (take_front n bs cs (omega arith))

drop_front : (n : ℕ) (bs cs : List ℕ) → n ≤ length bs → drop n (bs ++ cs) ≡ drop n bs ++ cs
drop_front zero bs cs h = refl
drop_front (suc n) [] cs h = absurd (omega arith)
drop_front (suc n) (b ∷ bs) cs h = drop_front n bs cs (omega arith)

field_front : (bs cs : List ℕ) → 4 ≤ length bs → read_u32_be (bs ++ cs) 0 ≡ read_u32_be bs 0
field_front bs cs h =
    sym (read_u32_be-take 4 (bs ++ cs) 0 (omega arith))
    ∙ ap (λ x. read_u32_be x 0) (take_front 4 bs cs h)
    ∙ read_u32_be-take 4 bs 0 (omega arith)

module _ {W : Type 0} (env : Env W) where
  -- A packet that is there stays there.
  pub Cut-append :
      {bs : List ℕ} {w : W} {rest : List ℕ} {w' : W} (cs : List ℕ)
      → Cut env bs w rest w'
      → Cut env (bs ++ cs) w (rest ++ cs) w'
  Cut-append {bs} cs c =
      let (m, p) = same_packet c.len (bs ++ cs) bs c.long (take_front c.len bs cs c.there) in
      record {
        len = c.len;
        long = c.long;
        short = c.short;
        there = omega (arith, length-append bs cs, c.there);
        field = field_front bs cs (omega (arith, c.there, c.long)) ∙ c.field;
        magic = m ∙ c.magic;
        pkt = c.pkt;
        opened = ap (open_packet env.gcm (env.session_key _)) p ∙ c.opened;
        follows = ap (λ x. x ++ cs) c.follows ∙ sym (drop_front c.len bs cs c.there);
        handled = c.handled;
      }

  -- Why a stream is refused.
  Refusal : List ℕ → W → Type 0
  Refusal bs w =
      ((ltb (read_u32_be bs 0) header_size || ltb max_packet_len (read_u32_be bs 0)) ≡ true)
      ⊎ ((34 ≤ read_u32_be bs 0)
          × (read_u32_be bs 0 ≤ length bs)
          × ((has_magic bs ≡ false)
              ⊎ (open_packet env.gcm (env.session_key w) (packet_at bs (read_u32_be bs 0)) ≡ none)))

  not_opened :
      (o : Option Delivery) (rest : List ℕ) (w : W) → after_opening env o rest w ≡ bad → o ≡ none
  not_opened none rest w e = refl
  not_opened (some pkt) rest w e = cc e

  bad-Refusal : (bs : List ℕ) (w : W) → frame env bs w ≡ bad → (4 ≤ length bs) × Refusal bs w
  unfolding frame Refusal
  bad-Refusal bs w e = ground (
    arith,
    not_opened (open_packet env.gcm (env.session_key w) (packet_at bs (read_u32_be bs 0)))
        (drop (read_u32_be bs 0) bs) w,
  )

  refused_run :
      (bs : List ℕ) (w : W)
      → 4 ≤ length bs
      → (ltb (read_u32_be bs 0) header_size || ltb max_packet_len (read_u32_be bs 0)) ≡ true
      → frame env bs w ≡ bad
  unfolding frame
  refused_run bs w four out = rw (le→ltb (length bs) 4 four, out) refl

  unmagic_run :
      (bs : List ℕ) (w : W)
      → 4 ≤ length bs
      → read_u32_be bs 0 ≤ length bs
      → has_magic bs ≡ false
      → frame env bs w ≡ bad
  unfolding frame
  unmagic_run bs w four there m =
      rw (le→ltb (length bs) 4 four, le→ltb (length bs) (read_u32_be bs 0) there, m)
        (if_eq (ltb (read_u32_be bs 0) header_size || ltb max_packet_len (read_u32_be bs 0)) refl
          refl)

  unopened_run :
      (bs : List ℕ) (w : W)
      → 4 ≤ length bs
      → read_u32_be bs 0 ≤ length bs
      → open_packet env.gcm (env.session_key w) (packet_at bs (read_u32_be bs 0)) ≡ none
      → frame env bs w ≡ bad
  unfolding frame
  unopened_run bs w four there o =
      rw (le→ltb (length bs) 4 four, le→ltb (length bs) (read_u32_be bs 0) there, o)
        (if_eq (ltb (read_u32_be bs 0) header_size || ltb max_packet_len (read_u32_be bs 0)) refl
          (if_eq (not (has_magic bs)) refl refl))

  -- A stream that is refused stays refused.
  pub bad-append : (bs cs : List ℕ) (w : W) → frame env bs w ≡ bad → frame env (bs ++ cs) w ≡ bad
  unfolding Refusal
  bad-append bs cs w e =
      let (four, why) = bad-Refusal bs w e in
      let longer = length-append bs cs in
      let field = field_front bs cs four in
      let four' : 4 ≤ length (bs ++ cs) = omega arith in
      elim why [
        | inl out ↦
            refused_run (bs ++ cs) w four'
              (ap (λ n. ltb n header_size || ltb max_packet_len n) field ∙ out)
        | inr (long, there, what) ↦
            let n = read_u32_be bs 0 in
            let there' : read_u32_be (bs ++ cs) 0 ≤ length (bs ++ cs) = omega arith in
            let (m, p) = same_packet n (bs ++ cs) bs long (take_front n bs cs there) in
            elim what [
              | inl unmagic ↦ unmagic_run (bs ++ cs) w four' there' (m ∙ unmagic)
              | inr unopened ↦ unopened_run (bs ++ cs) w four' there' (
                  ap (λ k. open_packet env.gcm (env.session_key w) (packet_at (bs ++ cs) k)) field
                  ∙ ap (open_packet env.gcm (env.session_key w)) p
                  ∙ unopened)
            ]
      ]

  after_opening-ne-more :
      (o : Option Delivery) (rest : List ℕ) (w : W) → after_opening env o rest w ≢ more
  after_opening-ne-more none rest w = cc
  after_opening-ne-more (some pkt) rest w = cc

  -- What waits for more bytes is shorter than the largest packet.
  pub more-lt : (bs : List ℕ) (w : W) → frame env bs w ≡ more → length bs < 16777216
  unfolding frame
  more-lt bs w e = ground (
    arith,
    after_opening-ne-more
        (open_packet env.gcm (env.session_key w) (packet_at bs (read_u32_be bs 0)))
        (drop (read_u32_be bs 0) bs) w,
  )
