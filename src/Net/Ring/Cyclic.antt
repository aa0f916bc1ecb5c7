-- ===== src/Net/Ring/Cyclic.antt =====
-- The bytes that a ring holds, and its representation invariant.
use gmaker.Common.{
  ℕ, ◌+◌, ◌-◌, ◌*◌, ◌%◌, ◌^◌, ◌≤◌, ◌<◌, ◌≡◌, ap, ◌∙◌, inl, inr, none, List, [], ◌++◌, arith, ltb,
  if◌then◌else◌, ltb→lt, ltb→le, tests, Bool-cases, length, get_elem?, take, drop, replicate,
  length-append, length-take, length-drop, length-replicate, get_elem?-append, get_elem?-drop,
  get_elem?-take, get_elem?_ext,
}
use native.Mathlib.Nat.{mod-eq_of_lt, mod-eq-sub-mod}
use gmaker.Net.Ring.{RingBuffer, capacity, create}

-- The `n` bytes from `start` on, going round at the end once.
unfoldable pub cyclic : List ℕ → ℕ → ℕ → List ℕ
cyclic buf start n = take n (drop start buf) ++ take (n - (length buf - start)) buf

-- An index that may have passed the end once.
abbrev pub wrapped : ℕ → ℕ → ℕ
wrapped c i = if ltb i c then i else i - c

pub get_elem?-cyclic :
    (buf : List ℕ) (start n i : ℕ)
    → start < length buf
    → n ≤ length buf
    → get_elem? (cyclic buf start n) i
      ≡ (if ltb i n then get_elem? buf (wrapped (length buf) (start + i)) else none)
unfolding cyclic
get_elem?-cyclic buf start n i h l = ground (
  arith,
  get_elem?-append (take n (drop start buf)) (take (n - (length buf - start)) buf) i,
  length-take n (drop start buf),
  length-drop start buf,
  get_elem?-take n (drop start buf) i,
  get_elem?-drop start buf i,
  get_elem?-take (n - (length buf - start)) buf (i - length (take n (drop start buf))),
)

pub length-cyclic :
    (buf : List ℕ) (start n : ℕ)
    → start < length buf
    → n ≤ length buf
    → length (cyclic buf start n) ≡ n
unfolding cyclic
length-cyclic buf start n h l = omega (
  arith,
  length-append (take n (drop start buf)) (take (n - (length buf - start)) buf),
  length-take n (drop start buf),
  length-drop start buf,
  length-take (n - (length buf - start)) buf,
)

pub mod-wrapped : (c i : ℕ) → 0 < c → i < 2 * c → i % c ≡ wrapped c i
mod-wrapped c i h l = elim (Bool-cases (ltb i c)) [
  | inl below ↦ rw below (mod-eq_of_lt (ltb→lt i c below))
  | inr above ↦ rw above (mod-eq-sub-mod (ltb→le i c above) ∙ mod-eq_of_lt (omega (tests, above)))
]

pub wrapped-wrapped :
    (c a b i : ℕ) → a < c → b + i ≤ c → wrapped c (wrapped c (a + b) + i) ≡ wrapped c (a + (b + i))
wrapped-wrapped c a b i h l = ground arith

-- A window of a window.
pub take-drop-cyclic :
    (buf : List ℕ) (start m o n : ℕ)
    → start < length buf
    → m ≤ length buf
    → o + n ≤ m
    → cyclic buf (wrapped (length buf) (start + o)) n ≡ take n (drop o (cyclic buf start m))
take-drop-cyclic buf start m o n h l fits =
    get_elem?_ext (cyclic buf (wrapped (length buf) (start + o)) n)
      (take n (drop o (cyclic buf start m)))
      λ i. ground (
        arith,
        get_elem?-cyclic buf (wrapped (length buf) (start + o)) n i,
        get_elem?-take n (drop o (cyclic buf start m)) i,
        get_elem?-drop o (cyclic buf start m) i,
        get_elem?-cyclic buf start m (o + i),
        wrapped-wrapped (length buf) start o i,
      )

-- What the ring holds, oldest byte first.
abbrev pub contents : RingBuffer → List ℕ
contents r = cyclic r.buf r.rpos r.stored

-- Both positions lie in the vector, `wpos_` is `size_` bytes past `rpos_`, and no sum of two of these
-- numbers reaches 2 ^ 64.
pub record IsValid (r : RingBuffer) : Type 0 where
  pub room : 0 < capacity r
  pub small : capacity r ≤ 9223372036854775808
  pub rpos_in : r.rpos < capacity r
  pub stored_in : r.stored ≤ capacity r
  pub wpos_at : r.wpos ≡ wrapped (capacity r) (r.rpos + r.stored)

-- A new ring with room for a byte is valid and holds nothing.
pub create_lem : (c : ℕ) → 0 < c → c ≤ 2 ^ 63 → IsValid (create c) × (contents (create c) ≡ [])
unfolding create cyclic
create_lem c h l =
    let n = length-replicate {A = ℕ} c 0 in
    let e : 0 - (length (replicate {A = ℕ} c 0) - 0) ≡ 0 = omega arith in
    (
      record {
        room = omega arith;
        small = omega arith;
        rpos_in = omega arith;
        stored_in = omega arith;
        wpos_at = ground arith;
      },
      ap (λ k. take k (replicate c 0)) e,
    )
