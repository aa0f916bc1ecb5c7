-- ===== src/Realtime/Lockstep.antt =====
-- `LockstepEngine` of common/cpp/realtime/lockstep_engine.hpp and lockstep_engine.cpp: the inputs of all
-- players are gathered frame by frame, and frames are confirmed in order. Counters are `uint32_t`
-- and wrap at 2 ^ 32. The loop of `TryAdvance` takes fuel, and `none` says that it ran out.
pub mod Inputs
pub mod Parts
pub mod Round
pub mod Confirms
pub mod Advance
pub mod Trace
pub mod Calls
pub mod Once
pub mod Timeout
pub mod Fight
use gmaker.Common.{
  ℕ, zero, suc, ◌+◌, ◌-◌, ◌^◌, Bool, true, false, ◌&&◌, Option, none, some, List, [], ◌∷◌, ltb, leb,
  if◌then◌else◌, is_some, u32,
}
use gmaker.Common.Dict.{Dict, find, put, erase, member, insert, remove}

-- `PlayerInput`; a `Fixed` is the bit pattern of its raw value.
pub record PlayerInput : Type 0 where
  pub player_id : ℕ
  pub input_seq : ℕ
  pub move_x : ℕ
  pub move_z : ℕ
  pub skill_slot : ℕ
  pub skill_target_x : ℕ
  pub skill_target_z : ℕ
  pub skill_target_eid : ℕ
  pub has_input : Bool

-- `FrameInputs`.
pub record FrameInputs : Type 0 where
  pub frame : ℕ
  pub player_inputs : Dict PlayerInput
  pub confirmed : Bool

pub record Engine : Type 0 where
  pub current_frame : ℕ
  pub timeout_frames : ℕ
  pub frame_counter : ℕ
  pub active_players : List ℕ
  pub all_players : List ℕ
  pub frame_buffer : Dict FrameInputs
  pub last_inputs : Dict PlayerInput
  pub frame_start_count : Dict ℕ

abbrev pub history_size : ℕ
history_size = 300

-- `LockstepEngine()`.
abbrev pub initial : Engine
initial = record {
  current_frame = 0;
  timeout_frames = 12;
  frame_counter = 0;
  active_players = [];
  all_players = [];
  frame_buffer = [];
  last_inputs = [];
  frame_start_count = [];
}

-- An entry that `operator[]` makes.
abbrev pub blank_frame : FrameInputs
blank_frame = record { frame = 0; player_inputs = []; confirmed = false }

-- `SetCurrentFrame`.
unfoldable pub set_current_frame : Engine → ℕ → Engine
set_current_frame e frame =
    if ltb e.current_frame frame
    then record e {
      current_frame = frame;
      frame_start_count = put e.frame_start_count frame e.frame_counter;
    }
    else e

-- The loop of `SetPlayers`.
unfoldable pub insert_all : List ℕ → List ℕ → List ℕ
insert_all [] s = s
insert_all (pid ∷ pids) s = insert_all pids (insert s pid)

-- `SetPlayers`.
unfoldable pub set_players : Engine → List ℕ → Engine
set_players e player_ids = record e {
  active_players = insert_all player_ids [];
  all_players = insert_all player_ids [];
}

-- `PlayerDisconnected`.
unfoldable pub player_disconnected : Engine → ℕ → Engine
player_disconnected e pid = record e { active_players = remove e.active_players pid }

-- `PlayerReconnected`.
unfoldable pub player_reconnected : Engine → ℕ → Engine
player_reconnected e pid =
    if member e.all_players pid
    then record e { active_players = insert e.active_players pid }
    else e

-- The loop of `IsFrameReady`.
unfoldable pub have_all : List ℕ → Dict PlayerInput → Bool
have_all [] inputs = true
have_all (pid ∷ pids) inputs = is_some (find inputs pid) && have_all pids inputs

-- `IsFrameReady`.
unfoldable pub is_frame_ready : Engine → ℕ → Bool
is_frame_ready e frame = elim (find e.frame_buffer frame) [
  | none ↦ false
  | some fi ↦ have_all e.active_players fi.player_inputs
]

-- The entry of a frame, made where there is none.
abbrev pub entry : Engine → ℕ → FrameInputs
entry e frame = elim (find e.frame_buffer frame) [ none ↦ blank_frame | some fi ↦ fi ]

-- `SubmitInput`.
unfoldable pub submit_input : Engine → ℕ → PlayerInput → Engine × Bool
submit_input e pid input =
    let fi = entry e e.current_frame in
    let fi' : FrameInputs = record fi {
      frame = e.current_frame;
      player_inputs = put fi.player_inputs pid input;
    } in
    let e' : Engine = record e {
      frame_buffer = put e.frame_buffer e.current_frame fi';
      last_inputs = put e.last_inputs pid input;
    } in
    if member e.all_players pid then (e', is_frame_ready e' e.current_frame) else (e, false)

-- `MakeEmptyInput`: no input, but the direction of the last one.
unfoldable pub make_empty_input : Engine → ℕ → PlayerInput
make_empty_input e pid =
    let x : ℕ = elim (find e.last_inputs pid) [ none ↦ 0 | some input ↦ input.move_x ] in
    let z : ℕ = elim (find e.last_inputs pid) [ none ↦ 0 | some input ↦ input.move_z ] in
    record {
      player_id = pid;
      input_seq = 0;
      move_x = x;
      move_z = z;
      skill_slot = 0xFF;
      skill_target_x = 0;
      skill_target_z = 0;
      skill_target_eid = 0;
      has_input = false;
    }

-- The filling loop of a timeout.
unfoldable pub fill : Engine → List ℕ → Dict PlayerInput → Dict PlayerInput
fill e [] inputs = inputs
fill e (pid ∷ pids) inputs =
    fill e pids
      (if is_some (find inputs pid) then inputs else put inputs pid (make_empty_input e pid))

-- What a round of `TryAdvance` decides: `continue`, `break`, or a frame to confirm.
pub data Verdict : Type 0 where
  skip : Verdict
  stop : Verdict
  confirm : FrameInputs → Verdict

-- The placeholder of a frame without inputs.
unfoldable pub ensure_frame : Engine → ℕ → Engine
ensure_frame e check_frame = elim (find e.frame_buffer check_frame) [
  | none ↦ record e {
    frame_buffer = put e.frame_buffer check_frame (record blank_frame { frame = check_frame });
  }
  | some fi ↦ e
]

-- The tests of a round.
unfoldable pub judge : Engine → ℕ → FrameInputs → Verdict
judge e check_frame fi =
    let timed_out : Verdict =
      confirm (record fi {
        player_inputs = fill e e.active_players fi.player_inputs;
        confirmed = true;
      }) in
    let late : Verdict = elim (find e.frame_start_count check_frame) [
      | none ↦ stop
      | some start ↦
          if leb e.timeout_frames (u32 (e.frame_counter + 2 ^ 32 - start)) then timed_out else stop
    ] in
    if fi.confirmed
    then skip
    else if is_frame_ready e check_frame
    then confirm (record fi { confirmed = true })
    else late

-- The engine after a round: a confirmed frame is stored, and the frame 300 before it forgotten.
unfoldable pub settle : Engine → ℕ → Verdict → Engine
settle e check_frame skip = e
settle e check_frame stop = e
settle e check_frame (confirm fi) =
    let buffer = put e.frame_buffer check_frame fi in
    let old_frame = check_frame - history_size in
    if ltb history_size check_frame
    then record e {
      frame_buffer = erase buffer old_frame;
      frame_start_count = erase e.frame_start_count old_frame;
    }
    else record e { frame_buffer = buffer }

-- The frames that a round adds to `out_confirmed`, in front of those of the rounds behind it.
unfoldable pub after :
    Engine → Verdict → Option (Engine × List FrameInputs) → Option (Engine × List FrameInputs)
after e skip rest = rest
after e stop rest = some (e, [])
after e (confirm fi) rest = elim rest [ none ↦ none | some (e', out) ↦ some (e', fi ∷ out) ]

-- The loop of `TryAdvance` from `check_frame` on.
unfoldable pub advance : ℕ → Engine → ℕ → Option (Engine × List FrameInputs)
advance zero e check_frame = none
advance (suc fuel) e check_frame =
    let e' = ensure_frame e check_frame in
    let v = judge e' check_frame (entry e' check_frame) in
    let rest = advance fuel (settle e' check_frame v) (u32 (check_frame + 1)) in
    if leb check_frame (u32 (e.current_frame + 32))
    then after (settle e' check_frame v) v rest
    else some (e, [])

-- `TryAdvance`: at most 33 rounds and the last test.
unfoldable pub try_advance : Engine → Option (Engine × List FrameInputs)
try_advance e = advance 34 e e.current_frame

-- `GetLastInput` and `GetFrameInputs`.
unfoldable pub get_last_input : Engine → ℕ → Option PlayerInput
get_last_input e pid = find e.last_inputs pid

unfoldable pub get_frame_inputs : Engine → ℕ → Option FrameInputs
get_frame_inputs e frame = find e.frame_buffer frame

-- `SetTimeoutFrames`, `TickFrameCounter` and `Reset`.
unfoldable pub set_timeout_frames : Engine → ℕ → Engine
set_timeout_frames e frames = record e { timeout_frames = frames }

unfoldable pub tick_frame_counter : Engine → Engine
tick_frame_counter e = record e { frame_counter = u32 (e.frame_counter + 1) }

unfoldable pub reset : Engine → Engine
reset e = record initial { timeout_frames = e.timeout_frames }
