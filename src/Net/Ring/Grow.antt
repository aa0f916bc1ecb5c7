-- ===== src/Net/Ring/Grow.antt =====
-- Growing: `EnsureSpace` of common/cpp/net/ring_buffer.cpp.
use gmaker.Common.{
  ℕ, zero, suc, ◌+◌, ◌*◌, ◌^◌, ◌≤◌, ◌<◌, ◌≡◌, refl, sym, ap, ◌∙◌, ◌⊎◌, inl, inr, false, none, some,
  List, arith, ltb, leb, ltb→lt, ltb→le, leb→le, leb→lt, lt→ltb, le→ltb, tests, Bool-cases, u64,
  take, replicate, blit, length-replicate, length-blit, nil_of_length, blit-nil, take-blit,
}
use native.Mathlib.Nat.{le_refl}
use gmaker.Net.Ring.{RingBuffer, capacity, grow, copy_out, move_to, ensure_space}
use gmaker.Net.Ring.Cyclic.{length-cyclic, contents, IsValid}
use gmaker.Net.Ring.Read.{copy_out_lem, cyclic_straight}

grow_step : (f c need : ℕ) → c < need → grow (suc f) c need ≡ grow f (u64 (c * 2)) need
unfolding grow
grow_step f c need h = rw (lt→ltb c need h)

grow_done : (f c need : ℕ) → need ≤ c → grow (suc f) c need ≡ some c
unfolding grow
grow_done f c need h = rw (le→ltb c need h)

-- Doubling ends: each round adds at least one, and nothing wraps below 2 ^ 63.
grow_lem :
    (f c need : ℕ)
    → 0 < c
    → need ≤ 2 ^ 62
    → need ≤ f + c
    → (c' : ℕ) × (grow (suc f) c need ≡ some c') × (need ≤ c') × ((c' ≡ c) ⊎ (c' < 2 * need))
grow_lem zero c need h small fuel = (c, grow_done zero c need (omega arith), omega arith, inl refl)
grow_lem (suc f) c need h small fuel = elim (Bool-cases (ltb c need)) [
  | inr done ↦ let d = ltb→le c need done in (c, grow_done (suc f) c need d, d, inl refl)
  | inl more ↦
      let m = ltb→lt c need more in
      let e : u64 (c * 2) ≡ c * 2 = omega arith in
      let (c', run, enough, size) = grow_lem f (c * 2) need (omega arith) small (omega arith) in
      (
        c',
        grow_step (suc f) c need m ∙ ap (λ k. grow (suc f) k need) e ∙ run,
        enough,
        inr (elim size [ inl s ↦ omega arith | inr s ↦ s ]),
      )
]

-- A capacity of 0 never grows, whatever the fuel.
pub grow-zero : (f need : ℕ) → 0 < need → grow f 0 need ≡ none
unfolding grow
grow-zero zero need h = refl
grow-zero (suc f) need h = rw (lt→ltb 0 need h) (grow-zero f need h)

moved : RingBuffer → ℕ → RingBuffer
moved r c = record {
  buf = blit (replicate c 0) 0 (contents r);
  rpos = 0;
  wpos = r.stored;
  stored = r.stored;
}

move_to_copy :
    (r : RingBuffer) (c : ℕ) (b : List ℕ)
    → 0 < r.stored
    → copy_out (suc r.stored) r.buf r.rpos 0 r.stored (replicate c 0) ≡ some b
    → move_to r c ≡ some (record { buf = b; rpos = 0; wpos = r.stored; stored = r.stored })
unfolding move_to
move_to_copy r c b h e =
    rw (lt→ltb 0 r.stored h, move_to)
      (ap
        (λ o. elim o [
          | none ↦ none
          | some d ↦ some (record { buf = d; rpos = 0; wpos = r.stored; stored = r.stored })
        ])
        e)

move_to_run : (r : RingBuffer) (c : ℕ) → IsValid r → move_to r c ≡ some (moved r c)
unfolding move_to moved
move_to_run r c v = elim (Bool-cases (ltb 0 r.stored)) [
  | inl some_bytes ↦
      move_to_copy r c (blit (replicate c 0) 0 (contents r)) (ltb→lt 0 r.stored some_bytes) (
        copy_out_lem r.stored r.buf r.rpos r.stored (replicate c 0) v.rpos_in v.small v.stored_in
          (le_refl _))
  | inr no_bytes ↦
      let size = length-cyclic r.buf r.rpos r.stored v.rpos_in v.stored_in in
      let empty = nil_of_length (contents r) (omega (tests, no_bytes)) in
      let same : blit (replicate c 0) 0 (contents r) ≡ replicate c 0 =
        ap (blit (replicate c 0) 0) empty ∙ blit-nil (replicate c 0) 0 in
      rw (no_bytes, move_to)
        (ap (λ b. some (record { buf = b; rpos = 0; wpos = r.stored; stored = r.stored }))
          (sym same))
]

stored-moved : (r : RingBuffer) (c : ℕ) → (moved r c).stored ≡ r.stored
unfolding moved
stored-moved r c = refl

-- Moving to a larger vector keeps the bytes.
moved_lem :
    (r : RingBuffer) (c : ℕ)
    → IsValid r
    → r.stored < c
    → c ≤ 2 ^ 63
    → IsValid (moved r c) × (contents (moved r c) ≡ contents r) × (capacity (moved r c) ≡ c)
unfolding moved
moved_lem r c v h small =
    let size = length-cyclic r.buf r.rpos r.stored v.rpos_in v.stored_in in
    let n = length-replicate {A = ℕ} c 0 in
    let len = length-blit (replicate c 0) 0 (contents r) ∙ n in
    (
      record {
        room = omega arith;
        small = omega arith;
        rpos_in = omega arith;
        stored_in = omega arith;
        wpos_at = ground arith;
      },
      cyclic_straight (blit (replicate c 0) 0 (contents r)) 0 r.stored (omega arith)
          ∙ ap (λ k. take k (blit (replicate c 0) 0 (contents r))) (sym size)
          ∙ take-blit (replicate c 0) (contents r) (omega arith),
      len,
    )

ensure_space-grow :
    (r : RingBuffer) (len c : ℕ) (r' : RingBuffer)
    → u64 (r.stored + len) ≡ r.stored + len
    → leb (r.stored + len) (capacity r) ≡ false
    → grow (suc (r.stored + len)) (capacity r) (r.stored + len) ≡ some c
    → move_to r c ≡ some r'
    → ensure_space r len ≡ some r'
unfolding ensure_space
ensure_space-grow r len c r' need full run moves = rw (need, full, run) moves

-- `EnsureSpace` ends with room for `len` more bytes and the stored bytes as they were, where there
-- is a capacity to double and no more than 2 ^ 62 bytes are wanted.
pub ensure_space_lem :
    (r : RingBuffer) (len : ℕ)
    → IsValid r
    → r.stored + len ≤ 2 ^ 62
    → (r' : RingBuffer) × (ensure_space r len ≡ some r')
      × IsValid r'
      × (contents r' ≡ contents r)
      × (r'.stored ≡ r.stored)
      × (r.stored + len ≤ capacity r')
unfolding ensure_space
ensure_space_lem r len v h =
    let need : u64 (r.stored + len) ≡ r.stored + len = omega arith in
    elim (Bool-cases (leb (r.stored + len) (capacity r))) [
      | inl fits ↦ (r, rw (need, fits), v, refl, refl, leb→le _ _ fits)
      | inr full ↦
          let f = leb→lt _ _ full in
          let (c, run, enough, size) =
            grow_lem (r.stored + len) (capacity r) (r.stored + len) v.room h (omega arith) in
          let bound : (r.stored < c) × (c ≤ 2 ^ 63) = ground arith in
          let (v', same, cap') = moved_lem r c v bound.0 bound.1 in
          (
            moved r c,
            ensure_space-grow r len c (moved r c) need full run (move_to_run r c v),
            v',
            same,
            stored-moved r c,
            omega arith,
          )
    ]
