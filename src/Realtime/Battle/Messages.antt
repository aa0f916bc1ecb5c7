-- ===== src/Realtime/Battle/Messages.antt =====
-- The messages to a battle: `OnMessage` of common/cpp/realtime/battle_room.cpp with its handlers.
use gmaker.Common.{ℕ, Bool, true, false, Option, none, some, List, [], ◌∷◌, if◌then◌else◌}
use gmaker.Common.Dict.{find}
use gmaker.Realtime.Lockstep.{PlayerInput, player_disconnected, player_reconnected, submit_input}
use gmaker.Realtime.Entity.{Floats, Vec}
use gmaker.Realtime.Entity.Make.{zero_vec}
use gmaker.Realtime.Checkpoint.{BattleState, fighting, get_latest_checkpoint}
use gmaker.Realtime.Battle.{BattleRoom, bytes, Sent}
use gmaker.Realtime.Battle.Players.{remove_player, enter, lose, ready, reconnect}
use gmaker.Realtime.Battle.Outcome.{broadcast_to_all}
use gmaker.Realtime.Battle.Tick.{tick}

-- The messages that `OnMessage` tells apart, with the fields that it reads.
pub data BattleMessage (F : Type 0) : Type 0 where
  player_enter : ℕ → ℕ → BattleMessage F
  player_reconnect : ℕ → ℕ → BattleMessage F
  player_leave : ℕ → BattleMessage F
  player_disconnect : ℕ → BattleMessage F
  hero_move_input : ℕ → ℕ → F → F → BattleMessage F
  hero_cast_skill : ℕ → ℕ → ℕ → Vec F → ℕ → BattleMessage F
  battle_ready : ℕ → BattleMessage F
  room_broadcast : List ℕ → BattleMessage F
  other_message : BattleMessage F

-- `PlayerInput{}`, for a player and with a number.
abbrev pub blank_input : ℕ → ℕ → PlayerInput
blank_input pid seq = record {
  player_id = pid;
  input_seq = seq;
  move_x = 0;
  move_z = 0;
  skill_slot = 0xFF;
  skill_target_x = 0;
  skill_target_z = 0;
  skill_target_eid = 0;
  has_input = true;
}

unfoldable pub is_fighting : BattleState → Bool
is_fighting fighting = true
is_fighting other = false

module _ {F : Type 0} (fl : Floats F) where
  open fl use {from_float}

  -- `OnPlayerEnter`.
  unfoldable pub on_player_enter : BattleRoom F → ℕ → ℕ → BattleRoom F
  on_player_enter r pid conn = record r { roster = enter r.cfg r.roster pid conn (zero_vec fl) }

  -- `OnPlayerDisconnect`.
  unfoldable pub on_player_disconnect : BattleRoom F → ℕ → BattleRoom F
  on_player_disconnect r pid = elim (find r.roster.players pid) [
    | none ↦ r
    | some info ↦ record r {
      roster = lose r.roster pid r.battle_frame;
      lockstep = player_disconnected r.lockstep pid;
    }
  ]

  -- `OnPlayerLeave`.
  unfoldable pub on_player_leave : BattleRoom F → ℕ → BattleRoom F
  on_player_leave r pid =
      if is_fighting r.battle_state
      then on_player_disconnect r pid
      else record r { roster = remove_player r.roster pid }

  -- `SubmitInput` in a fight.
  unfoldable pub submit_in_fight : BattleRoom F → ℕ → PlayerInput → BattleRoom F
  submit_in_fight r pid input =
      if is_fighting r.battle_state
      then record r { lockstep = (submit_input r.lockstep pid input).0 }
      else r

  -- `OnHeroMoveInput` and `OnHeroCastSkill`.
  unfoldable pub on_hero_move_input : BattleRoom F → ℕ → ℕ → F → F → BattleRoom F
  on_hero_move_input r pid seq x z =
      submit_in_fight r pid
        (record (blank_input pid seq) { move_x = from_float x; move_z = from_float z })

  unfoldable pub on_hero_cast_skill : BattleRoom F → ℕ → ℕ → ℕ → Vec F → ℕ → BattleRoom F
  on_hero_cast_skill r pid seq slot target target_eid =
      submit_in_fight r pid (record (blank_input pid seq) {
        skill_slot = slot;
        skill_target_x = from_float target.x;
        skill_target_z = from_float target.z;
        skill_target_eid = target_eid;
      })

  -- `HandleReconnect`: what is sent carries none of the bytes that `SerializeReconnectAck` made.
  unfoldable pub reconnect_sent : BattleRoom F → ℕ → List (Sent F)
  reconnect_sent r conn =
      let sent : Sent F = record {
        room_id = r.cfg.room_id;
        frame_seq = r.lockstep.current_frame;
        timestamp_ms = r.last_tick_ms;
        payload = bytes [];
        conn_ids = conn ∷ [];
      } in
      elim (get_latest_checkpoint r.checkpoint_mgr) [
        | none ↦ []
        | some cp ↦ if r.has_callback then sent ∷ [] else []
      ]

  unfoldable pub handle_reconnect : BattleRoom F → ℕ → ℕ → BattleRoom F × List (Sent F)
  handle_reconnect r pid conn =
      let back : BattleRoom F = record r {
        roster = reconnect r.roster pid conn;
        lockstep = player_reconnected r.lockstep pid;
      } in
      elim (find r.roster.players pid) [
        | none ↦ (r, [])
        | some info ↦ (back, reconnect_sent back conn)
      ]

  -- `OnMessage`.
  unfoldable pub on_message : BattleRoom F → BattleMessage F → BattleRoom F × List (Sent F)
  on_message r (player_enter pid conn) = (on_player_enter r pid conn, [])
  on_message r (player_reconnect pid conn) = handle_reconnect r pid conn
  on_message r (player_leave pid) = (on_player_leave r pid, [])
  on_message r (player_disconnect pid) = (on_player_disconnect r pid, [])
  on_message r (hero_move_input pid seq x z) = (on_hero_move_input r pid seq x z, [])
  on_message r (hero_cast_skill pid seq slot target eid) =
      (on_hero_cast_skill r pid seq slot target eid, [])
  on_message r (battle_ready pid) = (record r { roster = ready r.roster pid }, [])
  on_message r (room_broadcast payload) = (r, broadcast_to_all r (bytes payload))
  on_message r other_message = (r, [])

  -- What happens to a battle: messages and ticks, in any order.
  pub data BattleEvent : Type 0 where
    message : BattleMessage F → BattleEvent
    next_tick : BattleEvent

  unfoldable pub handle : BattleRoom F → BattleEvent → Option (BattleRoom F × List (Sent F))
  handle r (message m) = some (on_message r m)
  handle r next_tick = tick fl r

  -- The room after the events; what was sent on the way is left out.
  unfoldable pub play : BattleRoom F → List BattleEvent → Option (BattleRoom F)
  play r [] = some r
  play r (e ∷ es) = elim (handle r e) [ none ↦ none | some (r', sent) ↦ play r' es ]
