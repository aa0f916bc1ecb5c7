-- ===== src/Realtime/Prng/Range.antt =====
-- The states and the numbers of common/cpp/realtime/deterministic/prng.hpp.
use native.Mathlib.Nat.{mod-lt}
use gmaker.Common.{
  ℕ, ◌*◌, ◌/◌, ◌^◌, ◌<◌, bit_xor, ◌≡◌, refl, sym, ap, ◌∙◌, ◌≢◌, ◌⊎◌, inl, inr, List, [], ◌∷◌, arith,
  ◌==◌, ==→eq, ==→ne, if_elim, u32, u64,
}
use gmaker.Common.Bits.{xor-cancel, xor-lt, zero-xor}
use gmaker.Realtime.Prng.{create, next, next_uint32, draws}

pub xor_zero : (a b : ℕ) → bit_xor a b ≡ 0 → a ≡ b
xor_zero a b h = sym (xor-cancel a b) ∙ ap (λ x. bit_xor x b) h ∙ zero-xor b

-- Each of the three steps is 0 only at 0.
left_zero : (k x : ℕ) → (x ≡ u64 (x * 2 ^ k) → x ≡ 0) → bit_xor x (u64 (x * 2 ^ k)) ≡ 0 → x ≡ 0
left_zero k x odd h = odd (xor_zero x (u64 (x * 2 ^ k)) h)

odd13 : (x : ℕ) → x < 2 ^ 64 → x ≡ u64 (x * 2 ^ 13) → x ≡ 0
odd13 x h e = omega arith

odd17 : (x : ℕ) → x < 2 ^ 64 → x ≡ u64 (x * 2 ^ 17) → x ≡ 0
odd17 x h e = omega arith

right_zero : (x : ℕ) → bit_xor x (x / 2 ^ 7) ≡ 0 → x ≡ 0
right_zero x h = omega (arith, xor_zero x (x / 2 ^ 7) h)

-- A state that the generator can have.
pub record IsState (state : ℕ) : Type 0 where
  pub word : state < 2 ^ 64
  pub live : state ≢ 0

next-IsState : (state : ℕ) → IsState state → IsState (next state)
unfolding next
next-IsState state v =
    let x1 = bit_xor state (u64 (state * 2 ^ 13)) in
    let x2 = bit_xor x1 (x1 / 2 ^ 7) in
    let w1 : x1 < 2 ^ 64 = xor-lt 64 state (u64 (state * 2 ^ 13)) v.word (omega arith) in
    let w2 : x2 < 2 ^ 64 = xor-lt 64 x1 (x1 / 2 ^ 7) w1 (omega arith) in
    record {
      word = xor-lt 64 x2 (u64 (x2 * 2 ^ 17)) w2 (omega arith);
      live = λ h. v.live (
          left_zero 13 state (odd13 state v.word)
            (right_zero x1 (left_zero 17 x2 (odd17 x2 w2) h)));
    }

-- The numbers drawn are below their bounds, and 0 where the bound is 0.
abbrev pub Drawn : List ℕ → List ℕ → Type 0
Drawn [] [] = Unit {0}
Drawn [] (r ∷ rs) = ⊥
Drawn (max ∷ maxes) [] = ⊥
Drawn (max ∷ maxes) (r ∷ rs) = ((r < max) ⊎ ((max ≡ 0) × (r ≡ 0))) × Drawn maxes rs

next_uint32_lem :
    (state max : ℕ)
    → IsState state
    → IsState ((next_uint32 state max).0)
      × (((next_uint32 state max).1 < max) ⊎ ((max ≡ 0) × ((next_uint32 state max).1 ≡ 0)))
unfolding next_uint32
next_uint32_lem state max v =
    if_elim (λ (p : ℕ × ℕ). IsState (p.0) × ((p.1 < max) ⊎ ((max ≡ 0) × (p.1 ≡ 0)))) (max == 0)
      (λ none_wanted. (v, inr (==→eq max 0 none_wanted, refl)))
      (λ wanted. (
        next-IsState state v,
        inl (mod-lt (u32 (next state / 2 ^ 32)) (omega (arith, ==→ne max 0 wanted))),
      ))

pub draws_lem :
    (maxes : List ℕ) (state : ℕ)
    → IsState state
    → IsState ((draws state maxes).0) × Drawn maxes ((draws state maxes).1)
unfolding draws
draws_lem [] state v = (v, tt)
draws_lem (max ∷ maxes) state v =
    let (v1, r) = next_uint32_lem state max v in
    let (v2, rs) = draws_lem maxes ((next_uint32 state max).0) v1 in (v2, (r, rs))

-- From any 64-bit seed on, 0 included, the generator never comes to the state 0, where it would stay,
-- and each number drawn is below its bound, or 0 where the bound is 0.
pub draws-create :
    (seed : ℕ) (maxes : List ℕ)
    → seed < 2 ^ 64
    → IsState ((draws (create seed) maxes).0) × Drawn maxes ((draws (create seed) maxes).1)
unfolding create
draws-create seed maxes h = draws_lem maxes (create seed) (
    if_elim IsState (seed == 0) (λ _. record { word = omega arith; live = λ e. omega arith })
      (λ given. record { word = h; live = ==→ne seed 0 given }))
