-- ===== src/Realtime/Tests.antt =====
-- The theorems on the battle engine at concrete inputs.
use gmaker.Common.{
  ℕ, ◌-◌, ◌*◌, ◌^◌, ◌≡◌, refl, ◌≢◌, ◌⊎◌, true, false, none, some, List, [], ◌∷◌, arith,
}
use gmaker.Common.Dict.{find, put, member}
use gmaker.Realtime.Fixed.{mul_shift_right32, divide}
use gmaker.Realtime.Fixed.Mul.{Signed, mul_shift_right32_lem}
use gmaker.Realtime.Fixed.Div.{divide_lem}
use gmaker.Realtime.Lockstep.{PlayerInput, FrameInputs, Engine, initial, reset, try_advance}
use gmaker.Realtime.Lockstep.Parts.{IsKeyed, put-IsKeyed}
use gmaker.Realtime.Lockstep.Confirms.{Advanced}
use gmaker.Realtime.Lockstep.Advance.{try_advance_lem}
use gmaker.Realtime.Lockstep.Trace.{
  Call, set_frame, players, submit, try, tick, disconnect, run, goes_on, OneBattle, Distinct,
}
use gmaker.Realtime.Lockstep.Once.{run-Distinct}
use gmaker.Realtime.Lockstep.Fight.{fight, fight-confirms_nothing}

-- Player 7 moves.
abbrev move : PlayerInput
move = record {
  player_id = 7;
  input_seq = 1;
  move_x = 5;
  move_z = 6;
  skill_slot = 0xFF;
  skill_target_x = 0;
  skill_target_z = 0;
  skill_target_eid = 0;
  has_input = true;
}

-- Players 7 and 8 at frame 4, which began 12 ticks ago and has the input of player 7.
abbrev waiting : Engine
waiting = record initial {
  current_frame = 4;
  frame_counter = 20;
  active_players = 7 ∷ 8 ∷ [];
  all_players = 7 ∷ 8 ∷ [];
  frame_buffer = (4, record { frame = 4; player_inputs = (7, move) ∷ []; confirmed = false }) ∷ [];
  last_inputs = (7, move) ∷ [];
  frame_start_count = (4, 8) ∷ [];
}

waiting-IsKeyed : IsKeyed waiting.frame_buffer
unfolding find put
waiting-IsKeyed =
    put-IsKeyed [] 4 (record { frame = 4; player_inputs = (7, move) ∷ []; confirmed = false })
      (λ k fi h. absurd (ground arith)) refl

try_advance_lem_example :
    (e' : Engine) × (out : List FrameInputs) × (try_advance waiting ≡ some (e', out))
    × Advanced waiting 4 e' out
try_advance_lem_example = try_advance_lem waiting waiting-IsKeyed (omega arith)

abbrev battle : List Call
battle =
    players (7 ∷ 8 ∷ [])
    ∷ tick
    ∷ set_frame 1
    ∷ submit 7 move
    ∷ try
    ∷ disconnect 8
    ∷ try
    ∷ set_frame 2
    ∷ try
    ∷ []

battle-OneBattle : OneBattle battle
unfolding goes_on
battle-OneBattle = (refl, (refl, (refl, (refl, (refl, (refl, (refl, (refl, (refl, tt)))))))))

run-Distinct_example :
    (e0 : Engine) × (out0 : List FrameInputs) × (run initial battle ≡ some (e0, out0))
    × (e : Engine) × (out : List FrameInputs) × (run (reset e0) battle ≡ some (e, out))
    × Distinct out
run-Distinct_example =
    run-Distinct battle battle (omega arith, (omega arith, tt)) (omega arith, (omega arith, tt))
      battle-OneBattle

-- A new battle of player 7.
abbrev started : Engine
started = record initial { active_players = 7 ∷ []; all_players = 7 ∷ [] }

fight-confirms_nothing_example :
    (e' : Engine) × (fight started 1 (((7, move) ∷ []) ∷ ((7, move) ∷ []) ∷ []) ≡ some (e', []))
unfolding find member
fight-confirms_nothing_example =
    fight-confirms_nothing (((7, move) ∷ []) ∷ ((7, move) ∷ []) ∷ []) started 7 1
      (record { active = refl; patient = omega arith; counter = omega arith; ahead = λ k l. refl })
      (omega arith) (omega arith)

-- 3 times -1/2, and 3 divided by -1/2.
abbrev three : ℕ
three = 3 * 2 ^ 32

abbrev minus_half : ℕ
minus_half = 2 ^ 64 - 2 ^ 31

mul_shift_right32_lem_example :
    Signed three minus_half (3 * 2 ^ 31) (mul_shift_right32 three minus_half)
mul_shift_right32_lem_example = mul_shift_right32_lem three minus_half (omega arith) (omega arith)

divide_lem_example :
    ((minus_half ≡ 0) × (divide three minus_half ≡ none))
    ⊎ ((minus_half ≢ 0)
        × (r : ℕ) × (divide three minus_half ≡ some r)
        × Signed three minus_half (6 * 2 ^ 32) r)
divide_lem_example = divide_lem three minus_half (omega arith) (omega arith)
