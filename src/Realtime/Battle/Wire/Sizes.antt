-- ===== src/Realtime/Battle/Wire/Sizes.antt =====
-- The lengths of the messages of common/cpp/realtime/battle_room.cpp that are written by hand.
use gmaker.Common.{
  ℕ, ◌+◌, ◌*◌, ◌/◌, ◌^◌, ◌≡◌, refl, ◌∙◌, inl, inr, ◌&&◌, List, [], ◌∷◌, ◌++◌, arith, ltb, leb,
  if◌then◌else◌, Bool-cases, u8, u32, length, length-append,
}
use gmaker.Common.Dict.{Dict}
use gmaker.Realtime.Lockstep.{PlayerInput, FrameInputs}
use gmaker.Realtime.Entity.{Floats, team_code, type_code}
use gmaker.Realtime.Checkpoint.{EntitySnapshot, BattleCheckpoint}
use gmaker.Realtime.FrameHash.Changes.{AreBytes}
use gmaker.Realtime.Battle.{BattleRoom}
use gmaker.Realtime.Battle.Wire.{
  append_u8, append_u32, append_u64, battle_code, replayed, append_f32, append_target, append_sync,
  serialize_frame_sync, append_entities, append_inputs, append_frames, serialize_reconnect_ack,
}

AreBytes-append : (xs ys : List ℕ) → AreBytes xs → AreBytes ys → AreBytes (xs ++ ys)
AreBytes-append [] ys hx hy = hy
AreBytes-append (x ∷ xs) ys hx hy = (hx.0, AreBytes-append xs ys hx.1 hy)

-- A list of bytes of a length.
pub record Holds (n : ℕ) (buf : List ℕ) : Type 0 where
  pub are : AreBytes buf
  pub size : length buf ≡ n

append_u8-Holds : {n : ℕ} (buf : List ℕ) (v : ℕ) → Holds n buf → Holds (n + 1) (append_u8 buf v)
unfolding append_u8
append_u8-Holds buf v h = record {
  are = AreBytes-append buf _ h.are (omega arith, tt);
  size = omega (arith, length-append buf (u8 v ∷ []), h.size);
}

append_u32-Holds : {n : ℕ} (buf : List ℕ) (v : ℕ) → Holds n buf → Holds (n + 4) (append_u32 buf v)
unfolding append_u32
append_u32-Holds buf v h = record {
  are = AreBytes-append buf _ h.are (omega arith, (omega arith, (omega arith, (omega arith, tt))));
  size = omega (
    arith,
    length-append buf (u8 (v / 2 ^ 24) ∷ u8 (v / 2 ^ 16) ∷ u8 (v / 2 ^ 8) ∷ u8 v ∷ []),
    h.size,
  );
}

append_u64-Holds : {n : ℕ} (buf : List ℕ) (v : ℕ) → Holds n buf → Holds (n + 8) (append_u64 buf v)
unfolding append_u64
append_u64-Holds {n} buf v h =
    let t = append_u32-Holds _ (u32 v) (append_u32-Holds buf (u32 (v / 2 ^ 32)) h) in
    record { are = t.are; size = omega (arith, t.size) }

Holds-cast : {m n : ℕ} {buf : List ℕ} → Holds m buf → m ≡ n → Holds n buf
Holds-cast h e = record { are = h.are; size = h.size ∙ e }

-- The bytes of the inputs of some frames.
pub inputs_size : List FrameInputs → ℕ
inputs_size [] = 0
inputs_size (fi ∷ fis) = 8 + 33 * length fi.player_inputs + inputs_size fis

-- The bytes of the inputs of those frames of a history that lie behind one frame and not behind another.
pub window_size : ℕ → ℕ → List FrameInputs → ℕ
window_size from to [] = 0
window_size from to (fi ∷ fis) =
    (if ltb from fi.frame && leb fi.frame to then 8 + 33 * length fi.player_inputs else 0)
    + window_size from to fis

inputs_size-replayed :
    (from to : ℕ) (fis : List FrameInputs)
    → inputs_size (replayed from to fis) ≡ window_size from to fis
unfolding inputs_size replayed window_size
inputs_size-replayed from to [] = refl
inputs_size-replayed from to (fi ∷ fis) =
    let rest = inputs_size-replayed from to fis in
    elim (Bool-cases (ltb from fi.frame && leb fi.frame to)) [
      | inl inside ↦ rw inside (omega (arith, rest))
      | inr outside ↦ rw outside (rest ∙ omega arith)
    ]

module _ {F : Type 0} (fl : Floats F) where
  append_f32-Holds :
      {n : ℕ} (buf : List ℕ) (v : F) → Holds n buf → Holds (n + 4) (append_f32 fl buf v)
  unfolding append_f32
  append_f32-Holds buf v h = append_u32-Holds buf (fl.float_bits v) h

  append_target-Holds :
      {n : ℕ} (buf : List ℕ) (input : PlayerInput)
      → Holds n buf
      → Holds (n + 25) (append_target fl buf input)
  unfolding append_target
  append_target-Holds buf input h =
      Holds-cast
        (append_u64-Holds _ input.skill_target_eid (
          append_f32-Holds _ (fl.to_float input.skill_target_z) (
            append_f32-Holds _ (fl.to_float input.skill_target_x) (
              append_u8-Holds _ input.skill_slot (
                append_f32-Holds _ (fl.to_float input.move_z)
                  (append_f32-Holds buf (fl.to_float input.move_x) h))))))
        (omega arith)

  append_sync-Holds :
      (inputs : Dict PlayerInput) {n : ℕ} (buf : List ℕ)
      → Holds n buf
      → Holds (n + 34 * length inputs) (append_sync fl buf inputs)
  unfolding append_sync
  append_sync-Holds [] buf h = Holds-cast h (omega arith)
  append_sync-Holds ((pid, input) ∷ rest) buf h =
      Holds-cast
        (append_sync-Holds rest _ (
          append_target-Holds _ input
            (append_u8-Holds _ (if input.has_input then 1 else 0) (append_u64-Holds buf pid h))))
        (omega arith)

  append_inputs-Holds :
      (inputs : Dict PlayerInput) {n : ℕ} (buf : List ℕ)
      → Holds n buf
      → Holds (n + 33 * length inputs) (append_inputs fl buf inputs)
  unfolding append_inputs
  append_inputs-Holds [] buf h = Holds-cast h (omega arith)
  append_inputs-Holds ((pid, input) ∷ rest) buf h =
      Holds-cast
        (append_inputs-Holds rest _ (append_target-Holds _ input (append_u64-Holds buf pid h)))
        (omega arith)

  append_frames-Holds :
      (fis : List FrameInputs) {n : ℕ} (buf : List ℕ)
      → Holds n buf
      → Holds (n + inputs_size fis) (append_frames fl buf fis)
  unfolding append_frames inputs_size
  append_frames-Holds [] buf h = Holds-cast h (omega arith)
  append_frames-Holds (fi ∷ fis) buf h =
      Holds-cast
        (append_frames-Holds fis _ (
          append_inputs-Holds fi.player_inputs _
            (append_u32-Holds _ (u32 (length fi.player_inputs)) (append_u32-Holds buf fi.frame h))))
        (omega arith)

  append_entities-Holds :
      (es : List (EntitySnapshot F)) {n : ℕ} (buf : List ℕ)
      → Holds n buf
      → Holds (n + 22 * length es) (append_entities fl buf es)
  unfolding append_entities
  append_entities-Holds [] buf h = Holds-cast h (omega arith)
  append_entities-Holds (e ∷ es) buf h =
      Holds-cast
        (append_entities-Holds es _ (
          append_u32-Holds _ e.body.hp (
            append_f32-Holds _ e.body.pos.z (
              append_f32-Holds _ e.body.pos.x (
                append_u8-Holds _ (team_code e.body.team) (
                  append_u8-Holds _ (type_code e.type)
                    (append_u64-Holds buf e.body.entity_id h)))))))
        (omega arith)

  empty-Holds : Holds 0 []
  empty-Holds = record { are = tt; size = refl }

  -- The message of a frame is a list of bytes, 8 and 34 for each input.
  pub serialize_frame_sync-Holds :
      (fi : FrameInputs) → Holds (8 + 34 * length fi.player_inputs) (serialize_frame_sync fl fi)
  unfolding serialize_frame_sync
  serialize_frame_sync-Holds fi = append_sync-Holds fi.player_inputs _ (
      append_u32-Holds _ (u32 (length fi.player_inputs)) (append_u32-Holds [] fi.frame empty-Holds))

  -- The answer to a reconnection is a list of bytes: 21, 22 for each entity of the snapshot, and
  -- for each frame of the history that is behind the one frame and not behind the other 8 and 33
  -- for each input.
  pub serialize_reconnect_ack-Holds :
      (r : BattleRoom F) (cp : BattleCheckpoint F) (from to : ℕ)
      → Holds
          (21 + 22 * length cp.entities + window_size from to r.frame_history)
          (serialize_reconnect_ack fl r cp from to)
  unfolding serialize_reconnect_ack
  serialize_reconnect_ack-Holds r cp from to =
      Holds-cast
        (append_frames-Holds (replayed from to r.frame_history) _ (
          append_u32-Holds _ (u32 (length (replayed from to r.frame_history))) (
            append_entities-Holds cp.entities _ (
              append_u32-Holds _ (u32 (length cp.entities)) (
                append_u32-Holds _ cp.frame (
                  append_u8-Holds _ (battle_code r.battle_state) (
                    append_u32-Holds _ r.lockstep.current_frame
                      (append_u32-Holds [] r.cfg.room_id empty-Holds))))))))
        (omega (arith, inputs_size-replayed from to r.frame_history))
