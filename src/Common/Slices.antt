-- ===== src/Common/Slices.antt =====
-- Windows of lists: `take` and `drop` of one another, and of lists that are too short.
use Prim.Native.Nat.{ℕ, zero, suc, ◌+◌, ◌-◌, ◌≤◌, min}
use mathlib.Core.Path.{◌≡◌, refl, sym, ap, ◌∙◌}
use mathlib.Core.List.{List, [], ◌∷◌, ◌++◌}
use native.Mathlib.Omega.{arith}
use gmaker.Common.Lists.{length, take, drop, get_or, blit}

module _ {ℓ} {A : Type ℓ} where
  pub take_nil : (n : ℕ) → take {A = A} n [] ≡ []
  take_nil zero = refl
  take_nil (suc n) = refl

  pub drop_nil : (n : ℕ) → drop {A = A} n [] ≡ []
  drop_nil zero = refl
  drop_nil (suc n) = refl

  pub take-take : (m n : ℕ) (xs : List A) → take m (take n xs) ≡ take (min m n) xs
  take-take zero n xs = let e : min 0 n ≡ 0 = omega arith in rw e
  take-take (suc m) zero xs = let e : min (suc m) 0 ≡ 0 = omega arith in rw e
  take-take (suc m) (suc n) [] = sym (take_nil (min (suc m) (suc n)))
  take-take (suc m) (suc n) (x ∷ xs) =
      let e : min (suc m) (suc n) ≡ suc (min m n) = omega arith in
      rw e (ap (◌∷◌ x) (take-take m n xs))

  pub drop-take : (m n : ℕ) (xs : List A) → drop m (take n xs) ≡ take (n - m) (drop m xs)
  drop-take zero n xs = ap (λ k. take k xs) (omega arith)
  drop-take (suc m) zero xs = let e : 0 - suc m ≡ 0 = omega arith in rw e
  drop-take (suc m) (suc n) [] = sym (take_nil (suc n - suc m))
  drop-take (suc m) (suc n) (x ∷ xs) = drop-take m n xs ∙ ap (λ k. take k (drop m xs)) (omega arith)

  pub drop-drop : (m n : ℕ) (xs : List A) → drop m (drop n xs) ≡ drop (n + m) xs
  drop-drop m zero xs = ap (λ k. drop k xs) (omega arith)
  drop-drop m (suc n) [] = drop_nil m ∙ sym (drop_nil (suc n + m))
  drop-drop m (suc n) (x ∷ xs) =
      let e : suc n + m ≡ suc (n + m) = omega arith in rw e (drop-drop m n xs)

  pub take_long : (n : ℕ) (xs : List A) → length xs ≤ n → take n xs ≡ xs
  take_long zero [] h = refl
  take_long zero (x ∷ xs) h = absurd (omega arith)
  take_long (suc n) [] h = refl
  take_long (suc n) (x ∷ xs) h = ap (◌∷◌ x) (take_long n xs (omega arith))

  pub drop_long : (n : ℕ) (xs : List A) → length xs ≤ n → drop n xs ≡ []
  drop_long n [] h = drop_nil n
  drop_long zero (x ∷ xs) h = absurd (omega arith)
  drop_long (suc n) (x ∷ xs) h = drop_long n xs (omega arith)

  pub get_or_last : (xs : List A) (x d : A) → get_or (xs ++ x ∷ []) (length xs) d ≡ x
  get_or_last [] x d = refl
  get_or_last (y ∷ xs) x d = get_or_last xs x d

  -- A window of a window.
  pub window-window :
      (i l o n : ℕ) (xs : List A)
      → take n (drop o (take l (drop i xs))) ≡ take (min n (l - o)) (drop (i + o) xs)
  window-window i l o n xs =
      ap (take n) (drop-take o l (drop i xs))
      ∙ take-take n (l - o) (drop o (drop i xs))
      ∙ ap (take (min n (l - o))) (drop-drop o i xs)

  pub take_clamped : (n : ℕ) (xs : List A) → take (min n (length xs)) xs ≡ take n xs
  take_clamped zero xs = let e : min 0 (length xs) ≡ 0 = omega arith in rw e
  take_clamped (suc n) [] = let e : min (suc n) 0 ≡ 0 = omega arith in rw e
  take_clamped (suc n) (x ∷ xs) =
      let e : min (suc n) (suc (length xs)) ≡ suc (min n (length xs)) = omega arith in
      rw e (ap (◌∷◌ x) (take_clamped n xs))

  pub drop_clamped : (n : ℕ) (xs : List A) → drop (min n (length xs)) xs ≡ drop n xs
  drop_clamped zero xs = let e : min 0 (length xs) ≡ 0 = omega arith in rw e
  drop_clamped (suc n) [] = let e : min (suc n) 0 ≡ 0 = omega arith in rw e
  drop_clamped (suc n) (x ∷ xs) =
      let e : min (suc n) (suc (length xs)) ≡ suc (min n (length xs)) = omega arith in
      rw e (drop_clamped n xs)

  pub blit-nil : (xs : List A) (k : ℕ) → blit xs k [] ≡ xs
  blit-nil [] k = refl
  blit-nil (x ∷ xs) zero = refl
  blit-nil (x ∷ xs) (suc k) = ap (◌∷◌ x) (blit-nil xs k)

  -- Two copies, one behind the other, are one.
  pub blit-blit :
      (out : List A) (k : ℕ) (xs ys : List A)
      → blit (blit out k xs) (k + length xs) ys ≡ blit out k (xs ++ ys)
  blit-blit [] k xs ys = refl
  blit-blit (o ∷ out) zero [] ys =
      let e : 0 + 0 ≡ 0 = omega arith in ap (λ j. blit (o ∷ out) j ys) e
  blit-blit (o ∷ out) zero (x ∷ xs) ys =
      let e : 0 + suc (length xs) ≡ suc (0 + length xs) = omega arith in
      rw e (ap (◌∷◌ x) (blit-blit out zero xs ys))
  blit-blit (o ∷ out) (suc k) xs ys =
      let e : suc k + length xs ≡ suc (k + length xs) = omega arith in
      rw e (ap (◌∷◌ o) (blit-blit out k xs ys))

  pub take-blit : (out xs : List A) → length xs ≤ length out → take (length xs) (blit out 0 xs) ≡ xs
  take-blit out [] h = refl
  take-blit [] (x ∷ xs) h = absurd (omega arith)
  take-blit (o ∷ out) (x ∷ xs) h = ap (◌∷◌ x) (take-blit out xs (omega arith))

  pub nil_of_length : (xs : List A) → length xs ≡ 0 → xs ≡ []
  nil_of_length [] h = refl
  nil_of_length (x ∷ xs) h = absurd (omega arith)
