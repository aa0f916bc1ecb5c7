-- ===== src/Realtime/Lockstep/Confirms.antt =====
-- The frames that a run of `TryAdvance` confirms, common/cpp/realtime/lockstep_engine.cpp.
use gmaker.Common.{ℕ, suc, ◌+◌, ◌≤◌, ◌<◌, ◌≡◌, ◌∙◌, subst, true, false, some, List, [], ◌∷◌, arith}
use gmaker.Common.Dict.{find}
use gmaker.Realtime.Lockstep.{FrameInputs, Engine}
use gmaker.Realtime.Lockstep.Inputs.{Complete}
use gmaker.Realtime.Lockstep.Parts.{IsKeyed}

-- A frame that a run from `e` to `e'` confirms, with a number from `c` on and at most `last`.
pub record Confirmed (e e' : Engine) (c last : ℕ) (fi : FrameInputs) : Type 0 where
  pub in_order : c ≤ fi.frame
  pub in_window : fi.frame ≤ last
  pub marked : fi.confirmed ≡ true
  pub complete : Complete e.active_players fi.player_inputs
  pub stored : find e'.frame_buffer fi.frame ≡ some fi
  pub first_time : (g : FrameInputs) → find e.frame_buffer fi.frame ≡ some g → g.confirmed ≡ false

-- The frames in order, each above the one before.
abbrev pub Confirms : Engine → Engine → ℕ → ℕ → List FrameInputs → Type 0
Confirms e e' c last [] = Unit {0}
Confirms e e' c last (fi ∷ out) = Confirmed e e' c last fi × Confirms e e' (suc fi.frame) last out

-- A run from a later state, seen from an earlier one with the same players and the same entries from
-- `c` on.
pub Confirms-back :
    (e e1 e' : Engine) (c d last : ℕ) (out : List FrameInputs)
    → e1.active_players ≡ e.active_players
    → ((k : ℕ) → c ≤ k → find e1.frame_buffer k ≡ find e.frame_buffer k)
    → c ≤ d
    → Confirms e1 e' d last out
    → Confirms e e' d last out
Confirms-back e e1 e' c d last [] players same l x = tt
Confirms-back e e1 e' c d last (fi ∷ out) players same l (x, xs) = (
  record {
    in_order = x.in_order;
    in_window = x.in_window;
    marked = x.marked;
    complete = subst (λ ps. Complete ps fi.player_inputs) players x.complete;
    stored = x.stored;
    first_time = λ g h. x.first_time g (same fi.frame (omega (arith, l, x.in_order)) ∙ h);
  },
  Confirms-back e e1 e' c (suc fi.frame) last out players same (omega (arith, l, x.in_order)) xs,
)

pub Confirms-lower :
    (e e' : Engine) (c d last : ℕ) (out : List FrameInputs)
    → c ≤ d
    → Confirms e e' d last out
    → Confirms e e' c last out
Confirms-lower e e' c d last [] l x = tt
Confirms-lower e e' c d last (fi ∷ out) l (x, xs) = (
  record {
    in_order = omega (arith, l, x.in_order);
    in_window = x.in_window;
    marked = x.marked;
    complete = x.complete;
    stored = x.stored;
    first_time = x.first_time;
  },
  xs,
)

-- What a run from frame `c` on leaves.
pub record Advanced (e : Engine) (c : ℕ) (e' : Engine) (out : List FrameInputs) : Type 0 where
  pub confirms : Confirms e e' c (e.current_frame + 32) out
  pub below : (k : ℕ) → e.current_frame ≤ k → k < c → find e'.frame_buffer k ≡ find e.frame_buffer k
  pub keeps :
      (k : ℕ) (g : FrameInputs)
      → e.current_frame ≤ k
      → find e.frame_buffer k ≡ some g
      → g.confirmed ≡ true
      → find e'.frame_buffer k ≡ some g
  pub keyed : IsKeyed e'.frame_buffer
  pub same_players : e'.active_players ≡ e.active_players
  pub same_frame : e'.current_frame ≡ e.current_frame
