-- ===== src/Realtime/Battle/Tick.antt =====
-- The frames of a battle: `Tick` of common/cpp/realtime/battle_room.cpp with the functions of its states,
-- `CheckWinCondition`, `ComputeFrameHash`, the broadcasts and the checkpoints. Each function returns what
-- it has sent; `none` says that the loop of the lockstep engine did not
-- end, or that an interval of 0 frames was divided by.
use gmaker.Common.{
  ℕ, ◌+◌, ◌*◌, ◌/◌, ◌%◌, Option, none, some, List, [], ◌∷◌, ◌++◌, leb, ◌==◌, if◌then◌else◌, u32,
}
use gmaker.Common.Dict.{Dict}
use gmaker.Realtime.FrameHash.{fnv_offset, update_u64}
use gmaker.Realtime.Lockstep.{FrameInputs, set_current_frame, try_advance, tick_frame_counter}
use gmaker.Realtime.Entity.{Floats, team_code, type_code, state_code, Entity, body_of, type_of}
use gmaker.Realtime.Entity.Manager.{EntityManager}
use gmaker.Realtime.Entity.Make.{tick_all}
use gmaker.Realtime.Checkpoint.{
  BattleState, waiting, loading, countdown, fighting, paused, finished,
}
use gmaker.Realtime.Battle.{BattleRoom, Sent}
use gmaker.Realtime.Battle.Outcome.{
  change_state, broadcast_to_all, battle_start, battle_state_sync, tick_waiting, tick_countdown,
  check_win_condition, save_checkpoint, push_all,
}
use gmaker.Realtime.Battle.Players.{all_ready, expire}
use gmaker.Realtime.Battle.Scene.{init_battle_scene, spawn_minions}
use gmaker.Realtime.Battle.Inputs.{process_frames}
use gmaker.Realtime.Battle.Attacks.{tick_combat}
use gmaker.Realtime.Battle.Combat.{bury_all, clean_projectiles}

module _ {F : Type 0} (fl : Floats F) where
  open fl use {from_float}

  -- `TickLoading`.
  unfoldable pub begin_countdown : BattleRoom F → BattleRoom F × List (Sent F)
  begin_countdown r =
      let (players', mgr) = init_battle_scene fl r.cfg r.roster.players r.entity_mgr in
      let r1 : BattleRoom F = record r {
        roster = record (r.roster) { players = players' };
        entity_mgr = mgr;
        countdown_remaining_sec = 3;
      } in
      let r2 = change_state r1 countdown in (r2, broadcast_to_all r2 (battle_start r2))

  unfoldable pub tick_loading : BattleRoom F → BattleRoom F × List (Sent F)
  tick_loading r = if all_ready r.roster.players then begin_countdown r else (r, [])

  -- The fields of an entity in `ComputeFrameHash`.
  unfoldable pub hash_entity : ℕ → Entity F → ℕ
  hash_entity h e =
      let b = body_of e in
      let h1 =
        update_u64 (update_u64 (update_u64 h b.entity_id) (type_code (type_of e)))
          (team_code b.team) in
      let h2 =
        update_u64 (update_u64 (update_u64 h1 (from_float b.pos.x)) (from_float b.pos.y))
          (from_float b.pos.z) in
      let h3 = update_u64 (update_u64 (update_u64 h2 (from_float b.yaw)) b.hp) b.max_hp in
      update_u64 h3 (state_code b.state)

  -- `ComputeFrameHash`; the entities are in the order of their ids already.
  unfoldable pub hash_entities : ℕ → Dict (Entity F) → ℕ
  hash_entities h [] = h
  hash_entities h ((eid, e) ∷ rest) = hash_entities (hash_entity h e) rest

  unfoldable pub compute_frame_hash : BattleRoom F → ℕ
  compute_frame_hash r = hash_entities fnv_offset r.entity_mgr.entities

  -- The entities after the inputs, the tick, the fight and the burials of a frame.
  unfoldable pub fight_entities : BattleRoom F → List FrameInputs → EntityManager F
  fight_entities r confirmed = bury_all r.roster.players (
      tick_combat fl (tick_all fl (process_frames fl r.roster.players confirmed r.entity_mgr) 33)
        33)

  -- Steps 1 to 5 of `TickFighting`: inputs, entities, fight, minions and projectiles.
  unfoldable pub fight_frame : BattleRoom F → List FrameInputs → BattleRoom F
  fight_frame r confirmed =
      let mgr = fight_entities r confirmed in
      let timer = u32 (r.minion_spawn_timer_ms + 33) in
      let due = leb (u32 (r.cfg.minion_spawn_interval_sec * 1000)) timer in
      record r {
        entity_mgr = clean_projectiles (if due then spawn_minions fl mgr else mgr);
        frame_history = push_all r.frame_history confirmed;
        minion_spawn_timer_ms = if due then 0 else timer;
        minion_wave_count = if due then u32 (r.minion_wave_count + 1) else r.minion_wave_count;
      }

  -- Steps 6 to 9: checkpoint, broadcast, winner, the players that are given up, and the frame's hash.
  unfoldable pub settle_frame : BattleRoom F → ℕ → BattleRoom F × List (Sent F)
  settle_frame r frame =
      let r1 = if frame % r.checkpoint_mgr.interval_frames == 0 then save_checkpoint r else r in
      let sent = broadcast_to_all r1 (battle_state_sync r1) in
      let (r2, ended) = check_win_condition r1 in
      let timeout = u32 (r2.cfg.max_reconnect_wait_sec * (1000 / 33)) in
      let r3 : BattleRoom F = record r2 {
        roster = expire r2.roster.disconnected_players frame timeout r2.roster;
      } in
      (record r3 { frame_hashes = r3.frame_hashes ++ (compute_frame_hash r3 ∷ []) }, sent ++ ended)

  -- The same with the division `frame % checkpoint_mgr_.IntervalFrames()` in front of it.
  unfoldable pub close_frame : BattleRoom F → ℕ → Option (BattleRoom F × List (Sent F))
  close_frame r frame =
      if r.checkpoint_mgr.interval_frames == 0 then none else some (settle_frame r frame)

  -- `TickFighting`.
  unfoldable pub tick_fighting : BattleRoom F → ℕ → Option (BattleRoom F × List (Sent F))
  tick_fighting r frame = elim (try_advance (set_current_frame r.lockstep frame)) [
    | none ↦ none
    | some (e, confirmed) ↦ close_frame (fight_frame (record r { lockstep = e }) confirmed) frame
  ]

  -- The function of the state in `Tick`.
  unfoldable pub dispatch : BattleState → BattleRoom F → ℕ → Option (BattleRoom F × List (Sent F))
  dispatch waiting r frame = some (tick_waiting r, [])
  dispatch loading r frame = some (tick_loading r)
  dispatch countdown r frame = some (tick_countdown r frame, [])
  dispatch fighting r frame = tick_fighting r frame
  dispatch paused r frame = some (r, [])
  dispatch finished r frame = some (r, [])

  -- `Tick`.
  unfoldable pub tick : BattleRoom F → Option (BattleRoom F × List (Sent F))
  tick r =
      let frame = u32 (r.battle_frame + 1) in
      dispatch r.battle_state
        (record r { battle_frame = frame; lockstep = tick_frame_counter r.lockstep }) frame
