-- ===== src/Realtime/Battle/Wire.antt =====
-- The bytes of a frame and of the answer to a reconnection: `SerializeFrameSync`, `SerializeReconnectAck` and the
-- helpers in front of `BattleRoom` in common/cpp/realtime/battle_room.cpp.
pub mod Sizes
use gmaker.Common.{ℕ, ◌/◌, ◌^◌, ◌&&◌, List, [], ◌∷◌, ◌++◌, ltb, leb, if◌then◌else◌, u8, u32, length}
use gmaker.Common.Dict.{Dict}
use gmaker.Realtime.Lockstep.{PlayerInput, FrameInputs}
use gmaker.Realtime.Entity.{Floats, team_code, type_code}
use gmaker.Realtime.Checkpoint.{
  BattleState, waiting, loading, countdown, fighting, paused, finished, EntitySnapshot,
  BattleCheckpoint,
}
use gmaker.Realtime.Battle.{BattleRoom}

-- `AppendU8`, `AppendU32` and `AppendU64`.
unfoldable pub append_u8 : List ℕ → ℕ → List ℕ
append_u8 buf v = buf ++ (u8 v ∷ [])

unfoldable pub append_u32 : List ℕ → ℕ → List ℕ
append_u32 buf v = buf ++ (u8 (v / 2 ^ 24) ∷ u8 (v / 2 ^ 16) ∷ u8 (v / 2 ^ 8) ∷ u8 v ∷ [])

unfoldable pub append_u64 : List ℕ → ℕ → List ℕ
append_u64 buf v = append_u32 (append_u32 buf (u32 (v / 2 ^ 32))) (u32 v)

unfoldable pub battle_code : BattleState → ℕ
battle_code waiting = 0
battle_code loading = 1
battle_code countdown = 2
battle_code fighting = 3
battle_code paused = 4
battle_code finished = 5

-- The frames that a client has missed.
unfoldable pub replayed : ℕ → ℕ → List FrameInputs → List FrameInputs
replayed from to [] = []
replayed from to (fi ∷ fis) =
    let rest = replayed from to fis in
    if ltb from fi.frame && leb fi.frame to then fi ∷ rest else rest

module _ {F : Type 0} (fl : Floats F) where
  open fl use {to_float, float_bits}

  -- `AppendF32`, and the same of a `Fixed`.
  unfoldable pub append_f32 : List ℕ → F → List ℕ
  append_f32 buf v = append_u32 buf (float_bits v)

  abbrev pub append_fixed : List ℕ → ℕ → List ℕ
  append_fixed buf v = append_f32 buf (to_float v)

  -- What both messages write of an input behind its first fields.
  unfoldable pub append_target : List ℕ → PlayerInput → List ℕ
  append_target buf input =
      let buf1 = append_fixed (append_fixed buf input.move_x) input.move_z in
      let buf2 = append_u8 buf1 input.skill_slot in
      append_u64 (append_fixed (append_fixed buf2 input.skill_target_x) input.skill_target_z)
        input.skill_target_eid

  -- The loop of `SerializeFrameSync`.
  unfoldable pub append_sync : List ℕ → Dict PlayerInput → List ℕ
  append_sync buf [] = buf
  append_sync buf ((pid, input) ∷ rest) =
      append_sync
        (append_target (append_u8 (append_u64 buf pid) (if input.has_input then 1 else 0)) input)
        rest

  -- `SerializeFrameSync`.
  unfoldable pub serialize_frame_sync : FrameInputs → List ℕ
  serialize_frame_sync fi =
      append_sync (append_u32 (append_u32 [] fi.frame) (u32 (length fi.player_inputs)))
        fi.player_inputs

  -- The loops of `SerializeReconnectAck`: entities, inputs and frames.
  unfoldable pub append_entities : List ℕ → List (EntitySnapshot F) → List ℕ
  append_entities buf [] = buf
  append_entities buf (e ∷ es) =
      let buf1 =
        append_u8 (append_u8 (append_u64 buf e.body.entity_id) (type_code e.type))
          (team_code e.body.team) in
      append_entities
        (append_u32 (append_f32 (append_f32 buf1 e.body.pos.x) e.body.pos.z) e.body.hp) es

  unfoldable pub append_inputs : List ℕ → Dict PlayerInput → List ℕ
  append_inputs buf [] = buf
  append_inputs buf ((pid, input) ∷ rest) =
      append_inputs (append_target (append_u64 buf pid) input) rest

  unfoldable pub append_frames : List ℕ → List FrameInputs → List ℕ
  append_frames buf [] = buf
  append_frames buf (fi ∷ fis) =
      append_frames
        (append_inputs (append_u32 (append_u32 buf fi.frame) (u32 (length fi.player_inputs)))
          fi.player_inputs)
        fis

  -- `SerializeReconnectAck`.
  unfoldable pub serialize_reconnect_ack : BattleRoom F → BattleCheckpoint F → ℕ → ℕ → List ℕ
  serialize_reconnect_ack r cp from to =
      let head = append_u32 (append_u32 [] r.cfg.room_id) r.lockstep.current_frame in
      let buf = append_u32 (append_u8 head (battle_code r.battle_state)) cp.frame in
      let entities = append_entities (append_u32 buf (u32 (length cp.entities))) cp.entities in
      let missed = replayed from to r.frame_history in
      append_frames (append_u32 entities (u32 (length missed))) missed
