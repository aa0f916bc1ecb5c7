-- ===== src/Net/Buffer/Views.antt =====
-- What the windows of common/cpp/net/buffer.cpp show, and where their arithmetic goes wrong.
use gmaker.Common.{
  ℕ, zero, suc, ◌+◌, ◌-◌, ◌^◌, ◌≤◌, ◌<◌, min, ◌≡◌, refl, sym, ap, ◌∙◌, ◌⊎◌, inl, inr, true, false,
  Option, none, some, List, [], arith, ltb, le→leb, tests, Bool-cases, length, get_or, take, drop,
  length-take, length-drop, take_all, take-take, drop-take, drop-drop, get_or_last, window-window,
}
use gmaker.Net.Buffer.{
  Store, Buffer, empty, from_vector, wrap, slice, data_const, region, to_vector, backing, bytes,
  IsValid,
}

take_zero : (n : ℕ) (xs : List ℕ) → n ≡ 0 → take n xs ≡ []
take_zero zero xs e = refl
take_zero (suc n) xs e = absurd (omega arith)

-- With a pointer or without, `ToVector` of a valid buffer reads no byte outside its vector.
pub to_vector_lem : (s : Store) (b : Buffer) → IsValid s b → to_vector s b ≡ some (bytes s b)
unfolding to_vector
to_vector_lem s b v = ground (arith, take_zero b.len (drop b.offset (backing s b)))

pub length-bytes : (s : Store) (b : Buffer) → IsValid s b → length (bytes s b) ≡ b.len
length-bytes s b v =
    omega
      (arith, length-take b.len (drop b.offset (backing s b)), length-drop b.offset (backing s b))

-- The bytes behind the pointer of a valid buffer, and the case of no pointer.
pub data_const_lem :
    (s : Store) (b : Buffer)
    → IsValid s b
    → ((data_const b ≡ none) × (b.len ≡ 0))
      ⊎ ((p : ℕ × ℕ) × (data_const b ≡ some p) × (region s p b.len ≡ some (bytes s b)))
unfolding data_const region
data_const_lem s b v = own_cases b.own refl b.shared refl
  where
    own_cases :
        (o : Option ℕ)
        → b.own ≡ o
        → (h : Option ℕ) → b.shared ≡ h
        → ((data_const b ≡ none) × (b.len ≡ 0))
          ⊎ ((p : ℕ × ℕ) × (data_const b ≡ some p) × (region s p b.len ≡ some (bytes s b)))
    own_cases (some k) e h f = inr ((k, b.offset), ground arith, ground arith)
    own_cases none e (some k) f = inr ((k, b.offset), ground arith, ground arith)
    own_cases none e none f = inl (ground arith, ground arith)

pub region_inv :
    (s : Store) (h i n : ℕ) (x : List ℕ)
    → region s (h, i) n ≡ some x
    → (i + n ≤ length (get_or s h [])) × (take n (drop i (get_or s h [])) ≡ x)
unfolding region
region_inv s h i n x e = ground arith

region_of :
    (s : Store) (h i n : ℕ)
    → i + n ≤ length (get_or s h [])
    → region s (h, i) n ≡ some (take n (drop i (get_or s h [])))
unfolding region
region_of s h i n l = rw (le→leb _ _ l)

pub length-region : (s : Store) (h i n : ℕ) (x : List ℕ) → region s (h, i) n ≡ some x → length x ≡ n
length-region s h i n x e =
    let (l, t) = region_inv s h i n x e in
    let v = get_or s h [] in omega (arith, ap length t, length-take n (drop i v), length-drop i v)

-- The first `k` bytes of a region, and the others.
pub region-take :
    (s : Store) (h i n k : ℕ) (x : List ℕ)
    → region s (h, i) n ≡ some x
    → k ≤ n
    → region s (h, i) k ≡ some (take k x)
region-take s h i n k x e l =
    let (r, t) = region_inv s h i n x e in
    let v = get_or s h [] in
    let m : min k n ≡ k = omega arith in
    region_of s h i k (omega arith)
    ∙ ap some (sym (ap (take k) (sym t) ∙ take-take k n (drop i v) ∙ ap (λ j. take j (drop i v)) m))

pub region-drop :
    (s : Store) (h i n k : ℕ) (x : List ℕ)
    → region s (h, i) n ≡ some x
    → k ≤ n
    → region s (h, i + k) (n - k) ≡ some (drop k x)
region-drop s h i n k x e l =
    let (r, t) = region_inv s h i n x e in
    let v = get_or s h [] in
    region_of s h (i + k) (n - k) (omega arith)
    ∙ ap some
        (ap (take (n - k)) (sym (drop-drop k i v)) ∙ sym (drop-take k n (drop i v)) ∙ ap (drop k) t)

slice_out : (b : Buffer) (o n : ℕ) → ltb b.len o ≡ true → slice b o n ≡ empty
unfolding slice
slice_out b o n h = rw h

-- Where the window starts inside, the slice looks into the same vector.
slice_in :
    (s : Store) (b : Buffer) (o n : ℕ)
    → IsValid s b
    → o + n < 2 ^ 64
    → ltb b.len o ≡ false
    → (backing s (slice b o n) ≡ backing s b)
      × ((slice b o n).offset ≡ b.offset + o)
      × ((slice b o n).len ≡ min n (b.len - o))
unfolding slice
slice_in s b o n v w h = ground arith

-- `Slice` of a valid buffer whose `size_t` sum does not wrap shows the bytes from `o` on, `n` of
-- them or as many as there are, and nothing where `o` is past the end; it is valid again.
pub slice_lem :
    (s : Store) (b : Buffer) (o n : ℕ)
    → IsValid s b
    → o + n < 2 ^ 64
    → IsValid s (slice b o n) × (bytes s (slice b o n) ≡ take n (drop o (bytes s b)))
slice_lem s b o n v h = elim (Bool-cases (ltb b.len o)) [
  | inl out ↦ rw (slice_out b o n out) (
    omega arith,
    sym (rw (window-window b.offset b.len o n (backing s b)) (take_zero _ _ (omega (tests, out)))),
  )
  | inr over ↦
      let (vec, off, len) = slice_in s b o n v h over in
      (
        omega (tests, over, ap length vec, off, len),
        rw (vec, off, len) (sym (window-window b.offset b.len o n (backing s b))),
      )
]

slice_wrapped :
    (s : Store) (b : Buffer) (o n : ℕ)
    → IsValid s b
    → 0 < o
    → o ≤ b.len
    → n < 2 ^ 64
    → 2 ^ 64 ≤ o + n
    → (backing s (slice b o n) ≡ backing s b)
      × ((slice b o n).offset ≡ b.offset + o)
      × ((slice b o n).len ≡ n)
unfolding slice
slice_wrapped s b o n v p q small wrap = ground arith

-- Where the `size_t` sum wraps, no clamping is done: a slice that starts inside a non-empty buffer,
-- not at its start, is not valid for any length with which `o + n` reaches 2 ^ 64.
pub slice_wraps :
    (s : Store) (b : Buffer) (o n : ℕ)
    → IsValid s b
    → 0 < o
    → o ≤ b.len
    → n < 2 ^ 64
    → 2 ^ 64 ≤ o + n
    → ((slice b o n).len ≡ n) × ¬ IsValid s (slice b o n)
slice_wraps s b o n v p q small wrap =
    let (vec, off, len) = slice_wrapped s b o n v p q small wrap in
    (len, λ bad. omega (arith, bad.inside, off, len, ap length vec))

-- `FromVector` gives a valid buffer that shows all of the vector.
pub from_vector_lem :
    (s : Store) (v : List ℕ)
    → length v < 2 ^ 64
    → let (s', b) = from_vector s v in IsValid s' b × (bytes s' b ≡ v)
unfolding from_vector
from_vector_lem s v h =
    let e = get_or_last s v [] in
    (
      record { inside = omega (arith, ap length e); fits = omega (arith, ap length e) },
      ap (take (length v)) e ∙ take_all v,
    )
