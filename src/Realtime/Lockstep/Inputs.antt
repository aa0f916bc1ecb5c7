-- ===== src/Realtime/Lockstep/Inputs.antt =====
-- Complete inputs of a frame: `IsFrameReady` and the filling of a timeout,
-- common/cpp/realtime/lockstep_engine.cpp.
use gmaker.Common.{
  ℕ, ◌≡◌, refl, sym, ap, ◌∙◌, inl, inr, Bool, true, false, ◌&&◌, ◌||◌, Option, none, some, List, [],
  ◌∷◌, arith, ◌==◌, if◌then◌else◌, ==→eq, ==_self, Bool-cases, Option-cases, is_some,
}
use gmaker.Common.Dict.{Dict, find, put, find-put, member}
use gmaker.Realtime.Lockstep.{PlayerInput, Engine, have_all, make_empty_input, fill}

-- Each player has an input.
abbrev pub Complete : List ℕ → Dict PlayerInput → Type 0
Complete players inputs = (p : ℕ) → member players p ≡ true → is_some (find inputs p) ≡ true

and_true : (a b : Bool) → (a && b) ≡ true → (a ≡ true) × (b ≡ true)
and_true true true h = (refl, refl)
and_true true false h = (refl, h)
and_true false b h = (h, ground arith)

pub have_all_lem : (ps : List ℕ) (m : Dict PlayerInput) → have_all ps m ≡ true → Complete ps m
unfolding have_all member
have_all_lem [] m h p e = ground arith
have_all_lem (q ∷ ps) m h p e =
    let (here, there) = and_true (is_some (find m q)) (have_all ps m) h in
    elim (Bool-cases (q == p)) [
      | inl same ↦ ap (λ k. is_some (find m k)) (sym (==→eq q p same)) ∙ here
      | inr other ↦ have_all_lem ps m there p (ap (λ b. b || member ps p) (sym other) ∙ e)
    ]

-- The converse.
pub have_all_of : (ps : List ℕ) (m : Dict PlayerInput) → Complete ps m → have_all ps m ≡ true
unfolding have_all member
have_all_of [] m c = refl
have_all_of (q ∷ ps) m c = rw (c q (rw (==_self q) refl)) (
    have_all_of ps m
      (λ p e. c p (elim (Bool-cases (q == p)) [ inl f ↦ rw f refl | inr f ↦ rw f e ])))

-- One player of the filling.
fill_one : Engine → ℕ → Dict PlayerInput → Dict PlayerInput
fill_one e q m = if is_some (find m q) then m else put m q (make_empty_input e q)

find-fill_one :
    (e : Engine) (q : ℕ) (m : Dict PlayerInput) (p : ℕ)
    → find (fill_one e q m) p ≡ (
        if is_some (find m p)
        then find m p
        else if q == p
        then some (make_empty_input e p)
        else none)
unfolding fill_one
find-fill_one e q m p = elim (Option-cases (find m q)) [
  | inr (x, there) ↦ rw there (elim (Option-cases (find m p)) [
    | inr (y, some_y) ↦ rw some_y refl
    | inl no_y ↦ rw no_y (elim (Bool-cases (q == p)) [
      | inl same ↦ absurd (none_some (sym no_y ∙ ap (find m) (sym (==→eq q p same)) ∙ there))
      | inr other ↦ rw other refl
    ])
  ])
  | inl missing ↦
      rw (missing, find-put m q (make_empty_input e q) p)
        (elim (Bool-cases (q == p)) [
          | inl same ↦ rw (same, sym (==→eq q p same), missing) refl
          | inr other ↦ rw other (elim (Option-cases (find m p)) [
            | inr (y, some_y) ↦ rw some_y refl
            | inl no_y ↦ rw no_y refl
          ])
        ])
]
  where
    none_some : {A : Type 0} {x : A} → none ≡ some x → ⊥
    none_some {A} {x} h = ground arith

-- The first of two choices that is there.
first_choice :
    (o : Option PlayerInput) (b c : Bool) (x : PlayerInput)
    → (let first = if is_some o then o else if b then some x else none in
        if is_some first then first else if c then some x else none)
      ≡ (if is_some o then o else if b || c then some x else none)
first_choice (some y) b c x = refl
first_choice none true c x = refl
first_choice none false c x = refl

-- A timeout keeps the inputs that are there, and gives each active player without one an empty input.
pub find-fill :
    (e : Engine) (ps : List ℕ) (m : Dict PlayerInput) (p : ℕ)
    → find (fill e ps m) p ≡ (
        if is_some (find m p)
        then find m p
        else if member ps p
        then some (make_empty_input e p)
        else none)
unfolding fill fill_one member
find-fill e [] m p = elim (Option-cases (find m p)) [
  | inl no_y ↦ rw no_y refl
  | inr (y, some_y) ↦ rw some_y refl
]
find-fill e (q ∷ ps) m p =
    find-fill e ps (fill_one e q m) p
    ∙ rw (find-fill_one e q m p)
        (first_choice (find m p) (q == p) (member ps p) (make_empty_input e p))

pub fill-Complete : (e : Engine) (ps : List ℕ) (m : Dict PlayerInput) → Complete ps (fill e ps m)
fill-Complete e ps m p h = ap is_some (find-fill e ps m p) ∙ rw h (either (find m p))
  where
    either :
        (o : Option PlayerInput)
        → is_some (if is_some o then o else some (make_empty_input e p)) ≡ true
    either none = refl
    either (some y) = refl
