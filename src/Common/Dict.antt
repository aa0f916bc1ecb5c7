-- ===== src/Common/Dict.antt =====
-- `std::map` and `std::set` with numbers as keys, as lists in the order of the keys.
use Prim.Native.Nat.{ℕ, suc, ◌≤◌}
use mathlib.Core.Path.{◌≡◌, refl, sym, ap}
use mathlib.Core.Logic.{inl, inr}
use mathlib.Core.Bool.{Bool, false, ◌||◌}
use mathlib.Core.Option.{Option, none, some}
use native.Mathlib.Omega.{arith}
use native.Mathlib.Omega.{arith}
use mathlib.Core.List.{List, [], ◌∷◌}
use gmaker.Common.Lists.{length}
use gmaker.Common.Tests.{◌==◌, ltb, if◌then◌else◌, Bool-cases, ==→eq}

abbrev pub Dict {ℓ} : Type ℓ → Type ℓ
Dict V = List (ℕ × V)

-- `find`.
unfoldable pub find {ℓ} : {V : Type ℓ} → Dict V → ℕ → Option V
find [] k = none
find ((j, v) ∷ m) k = let rest = find m k in if j == k then some v else rest

-- `m[k] = v`.
unfoldable pub put {ℓ} : {V : Type ℓ} → Dict V → ℕ → V → Dict V
put [] k v = (k, v) ∷ []
put ((j, w) ∷ m) k v =
    let rest = put m k v in
    if j == k then (k, v) ∷ m else if ltb k j then (k, v) ∷ (j, w) ∷ m else (j, w) ∷ rest

-- `erase`.
unfoldable pub erase {ℓ} : {V : Type ℓ} → Dict V → ℕ → Dict V
erase [] k = []
erase ((j, w) ∷ m) k = let rest = erase m k in if j == k then rest else (j, w) ∷ rest

-- The value under a key, changed through an iterator of `find`.
unfoldable pub update {ℓ} : {V : Type ℓ} → Dict V → ℕ → (V → V) → Dict V
update [] k f = []
update ((j, w) ∷ m) k f = let rest = update m k f in if j == k then (j, f w) ∷ m else (j, w) ∷ rest

-- `count` of a set.
unfoldable pub member : List ℕ → ℕ → Bool
member [] k = false
member (j ∷ s) k = j == k || member s k

-- `insert`.
unfoldable pub insert : List ℕ → ℕ → List ℕ
insert [] k = k ∷ []
insert (j ∷ s) k =
    let rest = insert s k in if j == k then j ∷ s else if ltb k j then k ∷ j ∷ s else j ∷ rest

-- `erase` of a set.
unfoldable pub remove : List ℕ → ℕ → List ℕ
remove [] k = []
remove (j ∷ s) k = let rest = remove s k in if j == k then rest else j ∷ rest

pub find-put {ℓ} :
    {V : Type ℓ} (m : Dict V) (k : ℕ) (v : V) (i : ℕ)
    → find (put m k v) i ≡ (if k == i then some v else find m i)
unfolding find put
find-put [] k v i = refl
find-put ((j, w) ∷ m) k v i = elim (Bool-cases (j == k)) [
  | inl same ↦ rw same (elim (Bool-cases (k == i)) [
    | inl here ↦ rw here refl
    | inr there ↦ rw (there, ==→eq j k same, there) refl
  ])
  | inr other ↦ elim (Bool-cases (ltb k j)) [
    | inl before ↦ rw (other, before) refl
    | inr after ↦
        rw (other, after, find-put m k v i)
          (elim (Bool-cases (k == i)) [
            | inl here ↦ rw (here, sym (==→eq k i here), other) refl
            | inr there ↦ rw there refl
          ])
  ]
]

pub find-erase {ℓ} :
    {V : Type ℓ} (m : Dict V) (k i : ℕ) → find (erase m k) i ≡ (if k == i then none else find m i)
unfolding find erase
find-erase [] k i = elim (Bool-cases (k == i)) [ inl e ↦ rw e refl | inr e ↦ rw e refl ]
find-erase ((j, w) ∷ m) k i = elim (Bool-cases (j == k)) [
  | inl same ↦
      rw (same, find-erase m k i)
        (elim (Bool-cases (k == i)) [
          | inl here ↦ rw here refl
          | inr there ↦ rw (there, ==→eq j k same, there) refl
        ])
  | inr other ↦
      rw (other, find-erase m k i)
        (elim (Bool-cases (k == i)) [
          | inl here ↦ rw (here, sym (==→eq k i here), other) refl
          | inr there ↦ rw there refl
        ])
]

pub member-insert : (s : List ℕ) (k i : ℕ) → member (insert s k) i ≡ (k == i || member s i)
unfolding member insert
member-insert [] k i = refl
member-insert (j ∷ s) k i = elim (Bool-cases (j == k)) [
  | inl same ↦
      rw (same, ==→eq j k same)
        (elim (Bool-cases (k == i)) [ inl e ↦ rw e refl | inr e ↦ rw e refl ])
  | inr other ↦ elim (Bool-cases (ltb k j)) [
    | inl before ↦ rw (other, before) refl
    | inr after ↦
        rw (other, after, member-insert s k i)
          (elim (Bool-cases (k == i)) [
            | inl e ↦ rw e (elim (Bool-cases (j == i)) [ inl f ↦ rw f refl | inr f ↦ rw f refl ])
            | inr e ↦ rw e refl
          ])
  ]
]

pub member-remove :
    (s : List ℕ) (k i : ℕ) → member (remove s k) i ≡ (if k == i then false else member s i)
unfolding member remove
member-remove [] k i = elim (Bool-cases (k == i)) [ inl e ↦ rw e refl | inr e ↦ rw e refl ]
member-remove (j ∷ s) k i = elim (Bool-cases (j == k)) [
  | inl same ↦
      rw (same, member-remove s k i)
        (elim (Bool-cases (k == i)) [
          | inl here ↦ rw here refl
          | inr there ↦ rw (there, ==→eq j k same, there) refl
        ])
  | inr other ↦
      rw (other, member-remove s k i)
        (elim (Bool-cases (k == i)) [
          | inl here ↦ rw (here, sym (==→eq k i here), other) refl
          | inr there ↦ rw there refl
        ])
]

pub find-update :
    {V : Type 0} (m : Dict V) (k : ℕ) (f : V → V) (i : ℕ)
    → find (update m k f) i
      ≡ (if k == i then elim (find m i) [ none ↦ none | some v ↦ some (f v) ] else find m i)
unfolding find update
find-update [] k f i = elim (Bool-cases (k == i)) [ inl e ↦ rw e refl | inr e ↦ rw e refl ]
find-update ((j, w) ∷ m) k f i = elim (Bool-cases (j == k)) [
  | inl same ↦
      rw (same, sym (==→eq j k same))
        (elim (Bool-cases (j == i)) [ inl e ↦ rw e refl | inr e ↦ rw e refl ])
  | inr other ↦
      rw (other, find-update m k f i)
        (elim (Bool-cases (k == i)) [
          | inl here ↦ rw (here, sym (==→eq k i here), other) refl
          | inr there ↦ rw there refl
        ])
]

pub length-put {ℓ} : {V : Type ℓ} (m : Dict V) (k : ℕ) (v : V) → length (put m k v) ≤ suc (length m)
unfolding put
length-put [] k v = omega arith
length-put ((j, w) ∷ m) k v = elim (Bool-cases (j == k)) [
  | inl same ↦ rw same (omega arith)
  | inr other ↦ elim (Bool-cases (ltb k j)) [
    | inl before ↦ rw (other, before) (omega arith)
    | inr behind ↦ rw (other, behind) (omega (arith, length-put m k v))
  ]
]

pub length-erase {ℓ} : {V : Type ℓ} (m : Dict V) (k : ℕ) → length (erase m k) ≤ length m
unfolding erase
length-erase [] k = omega arith
length-erase ((j, w) ∷ m) k = elim (Bool-cases (j == k)) [
  | inl same ↦ rw same (omega (arith, length-erase m k))
  | inr other ↦ rw other (omega (arith, length-erase m k))
]

pub length-update {ℓ} :
    {V : Type ℓ} (m : Dict V) (k : ℕ) (f : V → V) → length (update m k f) ≡ length m
unfolding update
length-update [] k f = refl
length-update ((j, w) ∷ m) k f = elim (Bool-cases (j == k)) [
  | inl same ↦ rw same refl
  | inr other ↦ rw other (ap suc (length-update m k f))
]
