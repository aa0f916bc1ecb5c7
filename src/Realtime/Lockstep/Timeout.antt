-- ===== src/Realtime/Lockstep/Timeout.antt =====
-- The current frame of `TryAdvance`, common/cpp/realtime/lockstep_engine.cpp: complete, timed out or waited for.
use gmaker.Common.{ℕ, ◌+◌, ◌-◌, ◌^◌, ◌≡◌, Option, none, some, if◌then◌else◌, is_some, u32}
use gmaker.Common.Dict.{Dict, find, member}
use gmaker.Realtime.Lockstep.{
  PlayerInput, FrameInputs, Engine, Verdict, skip, stop, confirm, make_empty_input,
}

-- The frames that an engine has waited since a frame began.
abbrev pub waited : Engine → ℕ → ℕ
waited e start = u32 (e.frame_counter + 2 ^ 32 - start)

-- An input that is there, or the empty one of an active player.
abbrev pub input_or_empty : Engine → Dict PlayerInput → ℕ → Option PlayerInput
input_or_empty e inputs p =
    if is_some (find inputs p)
    then find inputs p
    else if member e.active_players p
    then some (make_empty_input e p)
    else none

-- A frame to confirm: the number is kept, and each player has the input that is there, or the empty one.
abbrev pub Filled : Engine → FrameInputs → Verdict → Type 0
Filled e fi skip = ⊥
Filled e fi stop = ⊥
Filled e fi (confirm fi') =
    (fi'.frame ≡ fi.frame)
    × ((p : ℕ) → find fi'.player_inputs p ≡ input_or_empty e fi.player_inputs p)
