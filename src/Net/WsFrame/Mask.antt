-- ===== src/Net/WsFrame/Mask.antt =====
-- `UnmaskWSPayload` of common/cpp/net/async/ws_frame.cpp.
use gmaker.Common.{
  ℕ, zero, suc, ◌+◌, ◌%◌, bit_and, bit_xor, ◌≡◌, refl, ap, ap₂, ◌∙◌, some, List, [], ◌∷◌, arith,
  get_elem?,
}
use mathlib.Core.Option
use gmaker.Common.Bits.{xor-cancel, and_mask}
use gmaker.Net.Bytes.{at}
use gmaker.Net.WsFrame.{unmask_from, unmask}

unmask_from-involutive : (i : ℕ) (xs key : List ℕ) → unmask_from i (unmask_from i xs key) key ≡ xs
unfolding unmask_from
unmask_from-involutive i [] key = refl
unmask_from-involutive i (x ∷ xs) key =
    ap₂ ◌∷◌ (xor-cancel x (at key (bit_and i 3))) (unmask_from-involutive (i + 1) xs key)

get_elem?-unmask_from :
    (i j : ℕ) (xs key : List ℕ)
    → get_elem? (unmask_from i xs key) j
      ≡ Option.map (λ x. bit_xor x (at key ((i + j) % 4))) (get_elem? xs j)
unfolding unmask_from
get_elem?-unmask_from i j [] key = refl
get_elem?-unmask_from i zero (x ∷ xs) key =
    let e : bit_and i 3 ≡ (i + 0) % 4 = omega (arith, and_mask 2 i) in
    ap (λ k. some (bit_xor x (at key k))) e
get_elem?-unmask_from i (suc j) (x ∷ xs) key =
    let e : i + 1 + j ≡ i + suc j = omega arith in
    get_elem?-unmask_from (i + 1) j xs key
    ∙ ap (λ k. Option.map (λ y. bit_xor y (at key (k % 4))) (get_elem? xs j)) e

-- Masking is its own inverse, for every payload and key; and byte `j` is combined with byte
-- `j mod 4` of the key.
pub unmask_lem :
    (xs key : List ℕ) (j : ℕ)
    → (unmask (unmask xs key) key ≡ xs)
      × (get_elem? (unmask xs key) j
          ≡ Option.map (λ x. bit_xor x (at key (j % 4))) (get_elem? xs j))
unfolding unmask
unmask_lem xs key j = (
  unmask_from-involutive 0 xs key,
  let e : 0 + j ≡ j = omega arith in
      get_elem?-unmask_from 0 j xs key
      ∙ ap (λ k. Option.map (λ y. bit_xor y (at key (k % 4))) (get_elem? xs j)) e,
)
