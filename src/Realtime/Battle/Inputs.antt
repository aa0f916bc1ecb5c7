-- ===== src/Realtime/Battle/Inputs.antt =====
-- The inputs of the players: `ProcessFrameInputs` and `ProcessHeroInput` of common/cpp/realtime/battle_room.cpp.
use gmaker.Common.{ℕ, ◌&&◌, not, none, some, List, [], ◌∷◌, ◌==◌, if◌then◌else◌, get_elem?}
use gmaker.Common.Dict.{Dict}
use gmaker.Realtime.Fixed.{one, add, less, mul_shift_right32, divide, fixed_sqrt, from_int}
use gmaker.Realtime.Lockstep.{PlayerInput, FrameInputs}
use gmaker.Realtime.Entity.{
  Floats, Vec, SkillDef, Body, Hero, Projectile, hero, projectile, body_of, is_alive, cast_skill,
}
use gmaker.Realtime.Entity.Manager.{EntityManager, add_entity, find_entity, next_id}
use gmaker.Realtime.Entity.Make.{nought, new_projectile}
use gmaker.Realtime.Battle.{PlayerInfo}
use gmaker.Realtime.Battle.Combat.{store_entity, get_player_hero, hurt}

module _ {F : Type 0} (fl : Floats F) where
  open fl use {f_less, f_add, ratio, from_float, to_float}

  abbrev pub quotient : ℕ → ℕ → ℕ
  quotient a b = elim (divide a b) [ none ↦ 0 | some q ↦ q ]

  -- The move of `ProcessHeroInput`: a direction of at most length 1, at 5 a second.
  unfoldable pub move_hero : Body F → PlayerInput → Body F
  move_hero b input =
      let mx = input.move_x in
      let mz = input.move_z in
      let len = fixed_sqrt (add (mul_shift_right32 mx mx) (mul_shift_right32 mz mz)) in
      let long = less one len in
      let step = quotient (from_int 5) (from_int 30) in
      let x =
        add (from_float b.pos.x) (mul_shift_right32 (if long then quotient mx len else mx) step) in
      let z =
        add (from_float b.pos.z) (mul_shift_right32 (if long then quotient mz len else mz) step) in
      if input.has_input && not (mx == 0 && mz == 0)
      then record b { pos = record (b.pos) { x = to_float x; z = to_float z } }
      else b

  -- The effect of a skill that was cast.
  unfoldable pub release_skill : EntityManager F → Hero F → SkillDef F → Vec F → ℕ → EntityManager F
  release_skill mgr h s target target_eid =
      let (mgr1, eid) = next_id mgr in
      let p : Projectile F =
        new_projectile fl eid h.body.team h.body.entity_id h.body.pos target s.projectile_speed
          s.damage s.radius in
      let struck : EntityManager F = elim (find_entity mgr target_eid) [
        | none ↦ mgr
        | some e ↦
            if is_alive (body_of e) then store_entity mgr target_eid (hurt e s.damage) else mgr
      ] in
      if f_less (nought fl) s.projectile_speed
      then add_entity mgr1 eid (projectile p)
      else if target_eid == 0
      then mgr
      else struck

  -- `ProcessHeroInput` for a living hero.
  unfoldable pub drive_hero : EntityManager F → ℕ → Hero F → PlayerInput → EntityManager F
  drive_hero mgr eid h input =
      let moved : Hero F = record h { body = move_hero h.body input } in
      let (cast, done) = cast_skill moved input.skill_slot in
      let target : Vec F = record {
        x = to_float input.skill_target_x;
        y = nought fl;
        z = to_float input.skill_target_z;
      } in
      let released : EntityManager F = elim (get_elem? cast.skills input.skill_slot) [
        | none ↦ store_entity mgr eid (hero cast)
        | some s ↦
            release_skill (store_entity mgr eid (hero cast)) cast s target input.skill_target_eid
      ] in
      if input.has_input && not (input.skill_slot == 0xFF)
      then (if done then released else store_entity mgr eid (hero cast))
      else store_entity mgr eid (hero moved)

  -- `ProcessHeroInput`.
  unfoldable pub process_hero_input :
      Dict (PlayerInfo F) → EntityManager F → ℕ → PlayerInput → EntityManager F
  process_hero_input players mgr pid input = elim (get_player_hero players mgr pid) [
    | none ↦ mgr
    | some h ↦ if is_alive h.body then drive_hero mgr h.body.entity_id h input else mgr
  ]

  -- `ProcessFrameInputs`, for one frame and for all that were confirmed.
  unfoldable pub process_inputs :
      Dict (PlayerInfo F) → Dict PlayerInput → EntityManager F → EntityManager F
  process_inputs players [] mgr = mgr
  process_inputs players ((pid, input) ∷ rest) mgr =
      process_inputs players rest (process_hero_input players mgr pid input)

  unfoldable pub process_frames :
      Dict (PlayerInfo F) → List FrameInputs → EntityManager F → EntityManager F
  process_frames players [] mgr = mgr
  process_frames players (fi ∷ fis) mgr =
      process_frames players fis (process_inputs players fi.player_inputs mgr)
