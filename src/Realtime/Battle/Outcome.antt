-- ===== src/Realtime/Battle/Outcome.antt =====
-- What a battle decides and sends: `CheckWinCondition`, the broadcasts with their fields, the checkpoints, the
-- history and the states without entities of common/cpp/realtime/battle_room.cpp.
use gmaker.Common.{
  ℕ, ◌+◌, ◌-◌, ◌*◌, ◌/◌, ◌^◌, Bool, true, false, ◌&&◌, not, List, [], ◌∷◌, ◌++◌, ltb, leb, ◌==◌,
  if◌then◌else◌, u32, length, drop,
}
use gmaker.Common.Dict.{Dict}
use gmaker.Realtime.FrameHash.{fnv_offset, update_u64}
use gmaker.Realtime.Lockstep.{FrameInputs, set_players}
use gmaker.Realtime.Entity.{
  TeamSide, nobody, blue, red, same_team, crystal, Entity, hero, minion, tower, projectile, body_of,
  type_of, is_alive,
}
use gmaker.Realtime.Checkpoint.{
  BattleState, loading, fighting, finished, make_snapshot, save_snapshot,
}
use gmaker.Realtime.Battle.{BattleRoom, EntitySync, Payload, start, end, state_sync, Sent}
use gmaker.Realtime.Battle.Players.{connected, connections}

-- The winner, if one team alone has a crystal.
unfoldable pub winner_of : Bool × Bool → TeamSide
winner_of (false, true) = red
winner_of (true, false) = blue
winner_of (false, false) = nobody
winner_of (true, true) = nobody

-- `frame_history_` with another frame, of at most 600.
unfoldable pub push_history : List FrameInputs → FrameInputs → List FrameInputs
push_history history fi =
    let longer = history ++ (fi ∷ []) in if ltb 600 (length longer) then drop 1 longer else longer

unfoldable pub push_all : List FrameInputs → List FrameInputs → List FrameInputs
push_all history [] = history
push_all history (fi ∷ fis) = push_all (push_history history fi) fis

-- `GetSessionHash`.
unfoldable pub hash_all : ℕ → List ℕ → ℕ
hash_all h [] = h
hash_all h (f ∷ fs) = hash_all (update_u64 h f) fs

module _ {F : Type 0} where
  -- `ChangeState`.
  unfoldable pub change_state : BattleRoom F → BattleState → BattleRoom F
  change_state r s = record r { battle_state = s }

  -- `BroadcastToAll`.
  unfoldable pub broadcast_to_all : BattleRoom F → Payload F → List (Sent F)
  broadcast_to_all r payload =
      let conns = connections r.roster.players in
      let sent : Sent F = record {
        room_id = r.cfg.room_id;
        frame_seq = r.lockstep.current_frame;
        timestamp_ms = r.last_tick_ms;
        payload = payload;
        conn_ids = conns;
      } in
      if not r.has_callback then [] else if length conns == 0 then [] else sent ∷ []

  -- `SerializeBattleStart`, the fields.
  unfoldable pub battle_start : BattleRoom F → Payload F
  battle_start r =
      start r.cfg.room_id r.countdown_remaining_sec r.roster.blue_players r.roster.red_players

  -- The kills that `SerializeBattleEnd` adds up.
  unfoldable pub add_kills : Dict (Entity F) → ℕ × ℕ → ℕ × ℕ
  add_kills [] kills = kills
  add_kills ((eid, hero h) ∷ rest) (b, r) =
      add_kills rest
        (if same_team h.body.team blue then (u32 (b + h.kills), r) else (b, u32 (r + h.kills)))
  add_kills ((eid, other) ∷ rest) kills = add_kills rest kills

  -- `SerializeBattleEnd`, the fields.
  unfoldable pub battle_end : BattleRoom F → TeamSide → Payload F
  battle_end r winner =
      let (blue_kills, red_kills) = add_kills r.entity_mgr.entities (0, 0) in
      end winner (u32 (r.battle_frame + 2 ^ 32 - r.battle_start_frame) / 30) blue_kills red_kills

  -- An entity of `SerializeBattleStateSync`.
  unfoldable pub sync_body : Entity F → EntitySync F
  sync_body e =
      let b = body_of e in
      record {
        entity_id = b.entity_id;
        type = type_of e;
        team = b.team;
        pos = b.pos;
        yaw = b.yaw;
        hp = b.hp;
        max_hp = b.max_hp;
        state = b.state;
        kills = 0;
        deaths = 0;
        gold = 0;
      }

  unfoldable pub sync_of : Entity F → EntitySync F
  sync_of (hero h) = record (sync_body (hero h)) {
    kills = h.kills;
    deaths = h.deaths;
    gold = h.gold;
  }
  sync_of (minion m) = sync_body (minion m)
  sync_of (tower t) = sync_body (tower t)
  sync_of (projectile p) = sync_body (projectile p)

  unfoldable pub syncs_of : Dict (Entity F) → List (EntitySync F)
  syncs_of [] = []
  syncs_of ((eid, e) ∷ rest) = sync_of e ∷ syncs_of rest

  -- `SerializeBattleStateSync`, the fields.
  unfoldable pub battle_state_sync : BattleRoom F → Payload F
  battle_state_sync r =
      state_sync r.lockstep.current_frame r.last_tick_ms r.battle_state
        (syncs_of r.entity_mgr.entities)

  -- `TickWaiting`.
  unfoldable pub tick_waiting : BattleRoom F → BattleRoom F
  tick_waiting r =
      if leb (u32 (r.cfg.team_size * 2)) (length r.roster.players)
      then change_state r loading
      else r

  -- `TickCountdown`.
  unfoldable pub tick_countdown : BattleRoom F → ℕ → BattleRoom F
  tick_countdown r frame =
      let left =
        if ltb 0 r.countdown_remaining_sec
        then r.countdown_remaining_sec - 1
        else r.countdown_remaining_sec in
      let fight : BattleRoom F = record r {
        countdown_remaining_sec = left;
        battle_start_frame = frame;
        lockstep = set_players r.lockstep (connected r.roster.players);
      } in
      if left == 0 then change_state fight fighting else record r { countdown_remaining_sec = left }

  -- Whether a crystal of the blue team stands, and one of another team.
  unfoldable pub crystals : Dict (Entity F) → Bool × Bool → Bool × Bool
  crystals [] alive = alive
  crystals ((eid, tower t) ∷ rest) (b, r) =
      let is_crystal : Bool = elim t.grade [ crystal ↦ true | _ ↦ false ] in
      crystals rest (
        if is_crystal && is_alive t.body
        then (if same_team t.body.team blue then (true, r) else (b, true))
        else (b, r))
  crystals ((eid, other) ∷ rest) alive = crystals rest alive

  -- `CheckWinCondition`.
  unfoldable pub finish_for : BattleRoom F → TeamSide → BattleRoom F × List (Sent F)
  finish_for r nobody = (r, [])
  finish_for r blue =
      let r' = change_state r finished in (r', broadcast_to_all r' (battle_end r' blue))
  finish_for r red =
      let r' = change_state r finished in (r', broadcast_to_all r' (battle_end r' red))

  unfoldable pub check_win_condition : BattleRoom F → BattleRoom F × List (Sent F)
  check_win_condition r = finish_for r (winner_of (crystals r.entity_mgr.entities (false, false)))

  -- `SaveCheckpoint`, on the frames of the interval.
  unfoldable pub save_checkpoint : BattleRoom F → BattleRoom F
  save_checkpoint r = record r {
    checkpoint_mgr =
        save_snapshot r.checkpoint_mgr
          (make_snapshot r.lockstep.current_frame r.last_tick_ms r.battle_state r.entity_mgr);
  }

module _ {F : Type 0} where
  unfoldable pub get_session_hash : BattleRoom F → ℕ
  get_session_hash r = hash_all fnv_offset r.frame_hashes
