-- ===== src/Realtime/Battle/Phases.antt =====
-- The states of a battle over its messages: `ChangeState` and `OnMessage` of
-- common/cpp/realtime/battle_room.cpp.
pub mod Plays
use gmaker.Common.{ℕ, ◌≤◌, ◌≡◌, refl, ◌≢◌, inl, inr, Option-cases, if_elim}
use gmaker.Common.Dict.{find}
use gmaker.Realtime.Lockstep.{player_disconnected}
use gmaker.Realtime.Entity.{Floats}
use gmaker.Realtime.Checkpoint.{
  BattleState, waiting, loading, countdown, fighting, paused, finished,
}
use gmaker.Realtime.Battle.{BattleRoom}
use gmaker.Realtime.Battle.Messages.{
  BattleMessage, player_enter, player_reconnect, player_leave, player_disconnect, hero_move_input,
  hero_cast_skill, battle_ready, room_broadcast, other_message, is_fighting, on_player_disconnect,
  on_player_leave, submit_in_fight, on_hero_move_input, on_hero_cast_skill, on_player_enter,
  handle_reconnect, on_message,
}
use gmaker.Realtime.Battle.Lasting.{submit_input-frame, player_reconnected-frame}

-- The changes of the state: one after the other, and no other.
pub data Moves : BattleState → BattleState → Type 0 where
  stay : (s : BattleState) → Moves s s
  load : Moves waiting loading
  prepare : Moves loading countdown
  begin : Moves countdown fighting
  win : Moves fighting finished

pub data Reaches : BattleState → BattleState → Type 0 where
  here : (s : BattleState) → Reaches s s
  further : {s t u : BattleState} → Moves s t → Reaches t u → Reaches s u

Moves-ne-paused : {s t : BattleState} → Moves s t → s ≢ paused → t ≢ paused
Moves-ne-paused (stay s) h q = h q
Moves-ne-paused load h q = cc
Moves-ne-paused prepare h q = cc
Moves-ne-paused begin h q = cc
Moves-ne-paused win h q = cc

pub Reaches-ne-paused : {s t : BattleState} → Reaches s t → s ≢ paused → t ≢ paused
Reaches-ne-paused (here s) h = h
Reaches-ne-paused (further m r) h = Reaches-ne-paused r (Moves-ne-paused m h)

-- The state, the frame of the room and that of its engine are as they were.
pub record Keeps {F : Type 0} (r r' : BattleRoom F) : Type 0 where
  pub state : r'.battle_state ≡ r.battle_state
  pub frame : r'.battle_frame ≡ r.battle_frame
  pub engine : r'.lockstep.current_frame ≡ r.lockstep.current_frame
  pub interval : r'.checkpoint_mgr.interval_frames ≡ r.checkpoint_mgr.interval_frames

Keeps-refl : {F : Type 0} (r : BattleRoom F) → Keeps r r
Keeps-refl r = record { state = refl; frame = refl; engine = refl; interval = refl }

-- A tick, whose frame has begun, from a room in a state.
pub record Ticks {F : Type 0} (s : BattleState) (frame interval : ℕ) (r' : BattleRoom F)
    : Type 0 where
  pub moves : Moves s r'.battle_state
  pub same : r'.battle_frame ≡ frame
  pub behind : r'.lockstep.current_frame ≤ frame
  pub period : r'.checkpoint_mgr.interval_frames ≡ interval

module _ {F : Type 0} (fl : Floats F) where
  on_player_disconnect-Keeps :
      (r : BattleRoom F) (pid : ℕ) → Keeps r (on_player_disconnect fl r pid)
  unfolding on_player_disconnect player_disconnected
  on_player_disconnect-Keeps r pid = elim (Option-cases (find r.roster.players pid)) [
    | inl missing ↦ rw (missing, on_player_disconnect) (Keeps-refl r)
    | inr (info, there) ↦
        rw (there, on_player_disconnect)
          (record { state = refl; frame = refl; engine = refl; interval = refl })
  ]

  submit_in_fight-Keeps :
      (r : BattleRoom F) (pid : ℕ) (input : _) → Keeps r (submit_in_fight fl r pid input)
  unfolding submit_in_fight
  submit_in_fight-Keeps r pid input =
      if_elim (λ (x : BattleRoom F). Keeps r x) (is_fighting r.battle_state)
        (λ _. record {
          state = refl;
          frame = refl;
          engine = submit_input-frame r.lockstep pid input;
          interval = refl;
        })
        (λ _. Keeps-refl r)

  handle_reconnect-Keeps :
      (r : BattleRoom F) (pid conn : ℕ) → Keeps r ((handle_reconnect fl r pid conn).0)
  unfolding handle_reconnect
  handle_reconnect-Keeps r pid conn = elim (Option-cases (find r.roster.players pid)) [
    | inl missing ↦ rw (missing, handle_reconnect) (Keeps-refl r)
    | inr (info, there) ↦
        rw (there, handle_reconnect)
          (record {
            state = refl;
            frame = refl;
            engine = player_reconnected-frame r.lockstep pid;
            interval = refl;
          })
  ]

  pub on_message-Keeps : (r : BattleRoom F) (m : BattleMessage F) → Keeps r ((on_message fl r m).0)
  unfolding on_message on_player_enter on_hero_move_input on_hero_cast_skill on_player_leave
  on_message-Keeps r (player_enter pid conn) = record {
    state = refl;
    frame = refl;
    engine = refl;
    interval = refl;
  }
  on_message-Keeps r (player_reconnect pid conn) = handle_reconnect-Keeps r pid conn
  on_message-Keeps r (player_leave pid) =
      if_elim (λ (x : BattleRoom F). Keeps r x) (is_fighting r.battle_state)
        (λ _. on_player_disconnect-Keeps r pid)
        (λ _. record { state = refl; frame = refl; engine = refl; interval = refl })
  on_message-Keeps r (player_disconnect pid) = on_player_disconnect-Keeps r pid
  on_message-Keeps r (hero_move_input pid seq x z) = submit_in_fight-Keeps r pid _
  on_message-Keeps r (hero_cast_skill pid seq slot target eid) = submit_in_fight-Keeps r pid _
  on_message-Keeps r (battle_ready pid) = record {
    state = refl;
    frame = refl;
    engine = refl;
    interval = refl;
  }
  on_message-Keeps r (room_broadcast payload) = Keeps-refl r
  on_message-Keeps r other_message = Keeps-refl r
