-- ===== src/Common/Lists.antt =====
-- Arrays as lists measured and indexed by native numbers, and the copies that C makes between them.
use Prim.Native.Nat.{ℕ, zero, suc, ◌+◌, ◌-◌, ◌≤◌, min}
use mathlib.Core.Path.{◌≡◌, refl, ap, ap₂}
use mathlib.Core.List.{List, [], ◌∷◌, ◌++◌}
use mathlib.Core.Option.{Option, none, some}
use native.Mathlib.Omega.{arith}
use gmaker.Common.Tests.{ltb, if◌then◌else◌, some_inj}

module _ {ℓ} {A : Type ℓ} where
  abbrev pub length : List A → ℕ
  length [] = 0
  length (_ ∷ xs) = suc (length xs)

  abbrev pub get_elem? : List A → ℕ → Option A
  get_elem? [] _ = none
  get_elem? (x ∷ _) zero = some x
  get_elem? (_ ∷ xs) (suc i) = get_elem? xs i

  abbrev pub get_or : List A → ℕ → A → A
  get_or [] _ d = d
  get_or (x ∷ _) zero _ = x
  get_or (_ ∷ xs) (suc i) d = get_or xs i d

  abbrev pub set : List A → ℕ → A → List A
  set [] _ _ = []
  set (_ ∷ xs) zero v = v ∷ xs
  set (x ∷ xs) (suc i) v = x ∷ set xs i v

  abbrev pub take : ℕ → List A → List A
  take zero _ = []
  take (suc _) [] = []
  take (suc n) (x ∷ xs) = x ∷ take n xs

  abbrev pub drop : ℕ → List A → List A
  drop zero xs = xs
  drop (suc _) [] = []
  drop (suc n) (_ ∷ xs) = drop n xs

  abbrev pub replicate : ℕ → A → List A
  replicate zero _ = []
  replicate (suc n) x = x ∷ replicate n x

  -- `memcpy(dst + i, src, n)`: what would fall past the end of `dst` is not written.
  abbrev pub blit : List A → ℕ → List A → List A
  blit [] _ _ = []
  blit (x ∷ xs) zero [] = x ∷ xs
  blit (_ ∷ xs) zero (b ∷ bs) = b ∷ blit xs zero bs
  blit (x ∷ xs) (suc i) bs = x ∷ blit xs i bs

  pub length-append : (xs ys : List A) → length (xs ++ ys) ≡ length xs + length ys
  length-append [] ys = omega arith
  length-append (_ ∷ xs) ys = omega (arith, length-append xs ys)

  pub length-take : (n : ℕ) (xs : List A) → length (take n xs) ≡ min n (length xs)
  length-take zero xs = omega arith
  length-take (suc n) [] = omega arith
  length-take (suc n) (_ ∷ xs) = omega (arith, length-take n xs)

  pub length-drop : (n : ℕ) (xs : List A) → length (drop n xs) ≡ length xs - n
  length-drop zero xs = omega arith
  length-drop (suc n) [] = omega arith
  length-drop (suc n) (_ ∷ xs) = omega (arith, length-drop n xs)

  pub length-replicate : (n : ℕ) (x : A) → length (replicate n x) ≡ n
  length-replicate zero x = refl
  length-replicate (suc n) x = ap suc (length-replicate n x)

  pub length-blit : (xs : List A) (i : ℕ) (bs : List A) → length (blit xs i bs) ≡ length xs
  length-blit [] i bs = refl
  length-blit (x ∷ xs) zero [] = refl
  length-blit (x ∷ xs) zero (b ∷ bs) = ap suc (length-blit xs zero bs)
  length-blit (x ∷ xs) (suc i) bs = ap suc (length-blit xs i bs)

  pub replicate-add : (m n : ℕ) (x : A) → replicate (m + n) x ≡ replicate m x ++ replicate n x
  replicate-add zero n x = ap (λ k. replicate k x) (omega arith)
  replicate-add (suc m) n x =
      let e : suc m + n ≡ suc (m + n) = omega arith in rw e (ap (◌∷◌ x) (replicate-add m n x))

  pub get_elem?-append :
      (xs ys : List A) (i : ℕ)
      → get_elem? (xs ++ ys) i
        ≡ (if ltb i (length xs) then get_elem? xs i else get_elem? ys (i - length xs))
  get_elem?-append [] ys i = let e : i - 0 ≡ i = omega arith in ground (arith, ap (get_elem? ys) e)
  get_elem?-append (x ∷ xs) ys zero = ground arith
  get_elem?-append (x ∷ xs) ys (suc i) =
      let e : suc i - suc (length xs) ≡ i - length xs = omega arith in
      ground (arith, get_elem?-append xs ys i, e)

  pub get_elem?-drop :
      (n : ℕ) (xs : List A) (i : ℕ) → get_elem? (drop n xs) i ≡ get_elem? xs (n + i)
  get_elem?-drop zero xs i = ap (get_elem? xs) (omega arith)
  get_elem?-drop (suc n) [] i = refl
  get_elem?-drop (suc n) (x ∷ xs) i =
      let e : suc n + i ≡ suc (n + i) = omega arith in rw e (get_elem?-drop n xs i)

  pub get_elem?-take :
      (n : ℕ) (xs : List A) (i : ℕ)
      → get_elem? (take n xs) i ≡ (if ltb i n then get_elem? xs i else none)
  get_elem?-take zero xs i = ground arith
  get_elem?-take (suc n) [] i = ground arith
  get_elem?-take (suc n) (x ∷ xs) zero = ground arith
  get_elem?-take (suc n) (x ∷ xs) (suc i) = ground (arith, get_elem?-take n xs i)

  pub get_elem?_out : (xs : List A) (i : ℕ) → length xs ≤ i → get_elem? xs i ≡ none
  get_elem?_out [] i h = refl
  get_elem?_out (x ∷ xs) zero h = absurd (omega arith)
  get_elem?_out (x ∷ xs) (suc i) h = get_elem?_out xs i (omega arith)

  -- Lists that agree at every index are equal.
  pub get_elem?_ext : (xs ys : List A) → ((i : ℕ) → get_elem? xs i ≡ get_elem? ys i) → xs ≡ ys
  get_elem?_ext [] [] h = refl
  get_elem?_ext [] (y ∷ ys) h = cc (h zero)
  get_elem?_ext (x ∷ xs) [] h = cc (h zero)
  get_elem?_ext (x ∷ xs) (y ∷ ys) h =
      ap₂ ◌∷◌ (some_inj (h zero)) (get_elem?_ext xs ys (λ i. h (suc i)))

  pub take_all : (xs : List A) → take (length xs) xs ≡ xs
  take_all [] = refl
  take_all (x ∷ xs) = ap (◌∷◌ x) (take_all xs)

  pub take-append : (xs ys : List A) → take (length xs) (xs ++ ys) ≡ xs
  take-append [] ys = refl
  take-append (x ∷ xs) ys = ap (◌∷◌ x) (take-append xs ys)

  pub drop-append : (xs ys : List A) → drop (length xs) (xs ++ ys) ≡ ys
  drop-append [] ys = refl
  drop-append (x ∷ xs) ys = drop-append xs ys

  pub take-append-drop : (n : ℕ) (xs : List A) → take n xs ++ drop n xs ≡ xs
  take-append-drop zero xs = refl
  take-append-drop (suc n) [] = refl
  take-append-drop (suc n) (x ∷ xs) = ap (◌∷◌ x) (take-append-drop n xs)

  -- A copy over the whole of what follows a prefix.
  pub blit-append :
      (xs ys bs : List A) → length ys ≡ length bs → blit (xs ++ ys) (length xs) bs ≡ xs ++ bs
  blit-append [] [] [] e = refl
  blit-append [] [] (b ∷ bs) e = absurd (omega arith)
  blit-append [] (y ∷ ys) [] e = absurd (omega arith)
  blit-append [] (y ∷ ys) (b ∷ bs) e = ap (◌∷◌ b) (blit-append [] ys bs (omega arith))
  blit-append (x ∷ xs) ys bs e = ap (◌∷◌ x) (blit-append xs ys bs e)

module _ {A : Type 0} where
  -- A copy that fits is seen at its own indices, and the rest is untouched.
  pub get_elem?-blit :
      (xs : List A) (k : ℕ) (bs : List A) (i : ℕ)
      → k + length bs ≤ length xs
      → get_elem? (blit xs k bs) i ≡ (
          if ltb i k
          then get_elem? xs i
          else if ltb (i - k) (length bs)
          then get_elem? bs (i - k)
          else get_elem? xs i)
  get_elem?-blit [] zero [] i h = ground arith
  get_elem?-blit [] (suc k) bs i h = absurd (omega arith)
  get_elem?-blit [] zero (b ∷ bs) i h = absurd (omega arith)
  get_elem?-blit (x ∷ xs) zero [] i h = ground arith
  get_elem?-blit (x ∷ xs) zero (b ∷ bs) zero h = ground arith
  get_elem?-blit (x ∷ xs) zero (b ∷ bs) (suc i) h =
      ground (arith, get_elem?-blit xs zero bs i (omega arith))
  get_elem?-blit (x ∷ xs) (suc k) bs zero h = ground arith
  get_elem?-blit (x ∷ xs) (suc k) bs (suc i) h =
      ground (arith, get_elem?-blit xs k bs i (omega arith))
