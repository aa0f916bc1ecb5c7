-- ===== src/Realtime/Battle/Tests.antt =====
-- Two players of common/cpp/realtime/battle_room.cpp on a field whose `float` is a whole number, and the theorems
-- about battles for them.
use gmaker.Common.{
  ℕ, ◌+◌, ◌*◌, ◌≡◌, refl, ◌≢◌, true, false, some, List, [], ◌∷◌, arith, if◌then◌else◌, length,
  replicate,
}
use gmaker.Common.Dict.{member, find, update, put}
use gmaker.Realtime.Entity.{Vec, same_team, team_code, blue, red, crystal, Hero, hero, tower}
use gmaker.Realtime.Entity.Manager.{EntityManager}
use gmaker.Realtime.Entity.Make.{new_hero, new_tower}
use gmaker.Realtime.Checkpoint.{
  waiting, countdown, fighting, paused, BattleCheckpoint, make_snapshot,
}
use gmaker.Realtime.Battle.{Config, PlayerInfo, Roster, BattleRoom, new_room}
use gmaker.Realtime.Battle.Players.{
  add_player_to_team, next_team, spawn_for, spawn_point, enter, enter_new, is_full,
}
use gmaker.Realtime.Battle.Outcome.{check_win_condition, tick_waiting}
use gmaker.Realtime.Battle.Tick.{tick, dispatch}
use gmaker.Realtime.Battle.Messages.{
  BattleEvent, message, next_tick, player_enter, player_leave, battle_ready, play, handle,
  on_message, on_player_enter,
}
use gmaker.Realtime.Battle.Phases.{Reaches}
use gmaker.Realtime.Battle.Phases.Plays.{AreSteps, play-new_room}
use gmaker.Realtime.Battle.Countdown.{online, play-countdown}
use gmaker.Realtime.Battle.Win.{stands, won, check_win_condition_lem}
use gmaker.Realtime.Battle.Teams.{IsTeamed}
use gmaker.Realtime.Battle.Teams.Runs.{AreFresh, new_room-IsTeamed}
use gmaker.Realtime.Battle.Wire.{serialize_reconnect_ack}
use gmaker.Realtime.Battle.Wire.Sizes.{Holds, window_size, serialize_reconnect_ack-Holds}
use gmaker.Realtime.Whole.{whole}

-- A battle of one against one.
abbrev duel : Config ℕ
duel = record {
  room_id = 7;
  team_size = 1;
  minion_spawn_interval_sec = 30;
  checkpoint_interval_frames = 60;
  max_reconnect_wait_sec = 60;
  lockstep_timeout_ms = 200;
  tower_defs = [];
  blue_spawn_pts = [];
  red_spawn_pts = [];
}

-- Both players come and are ready, and the battle begins.
abbrev opening : List (BattleEvent whole)
opening =
    message (player_enter 11 101)
    ∷ message (player_enter 12 102)
    ∷ next_tick
    ∷ message (battle_ready 11)
    ∷ message (battle_ready 12)
    ∷ next_tick
    ∷ next_tick
    ∷ []

play-new_room_example :
    ((new_room duel true).battle_state ≡ waiting)
    × (r' : BattleRoom ℕ) × (play whole (new_room duel true) opening ≡ some r')
    × AreSteps whole (new_room duel true) opening
    × Reaches waiting r'.battle_state
    × (r'.battle_state ≢ paused)
play-new_room_example = play-new_room whole duel true opening (omega arith) (omega arith)

-- A battle in which only the crystal of the blue team stands, with a hero of the red team.
abbrev field : EntityManager ℕ
field = record {
  entities = (1, hero (new_hero whole 1 red 12)) ∷ (2, tower (new_tower whole 2 blue crystal)) ∷ [];
  next_entity_id = 3;
}

abbrev ending : BattleRoom ℕ
ending = record (new_room duel true) { battle_state = fighting; entity_mgr = field }

check_win_condition_lem_example : check_win_condition ending ≡ (
    if stands true field.entities
    then (if stands false field.entities then (ending, []) else won ending blue)
    else (if stands false field.entities then won ending red else (ending, [])))
check_win_condition_lem_example = check_win_condition_lem ending

-- A hero with full health.
abbrev fresh : Hero ℕ
fresh = new_hero whole 1 red 12

-- Two players come, the fight begins, and one of them leaves.
abbrev visit : List (BattleEvent whole)
visit =
    message (player_enter 11 101)
    ∷ message (player_enter 12 102)
    ∷ next_tick
    ∷ message (player_leave 11)
    ∷ []

visit-AreFresh : AreFresh whole visit (new_room duel true)
unfolding new_room handle on_message on_player_enter enter enter_new is_full find tick dispatch
    tick_waiting add_player_to_team next_team same_team team_code put update spawn_for spawn_point
visit-AreFresh = (refl, (refl, (tt, (tt, tt))))

new_room-IsTeamed_example :
    (r' : BattleRoom ℕ) × (play whole (new_room duel true) visit ≡ some r') × IsTeamed r'.roster
new_room-IsTeamed_example =
    new_room-IsTeamed whole duel true visit (omega arith) (omega arith) visit-AreFresh

-- A roster of the blue player 11, in a battle of two against two.
abbrev blue_player : PlayerInfo ℕ
blue_player = record {
  player_id = 11;
  conn_id = 101;
  team = blue;
  hero_entity_id = 1;
  is_connected = true;
  is_ready = false;
  spawn_pos = record { x = 0; y = 0; z = 0 };
}

abbrev alone : Roster ℕ
alone = record {
  players = (11, blue_player) ∷ [];
  conn_to_player = (101, 11) ∷ [];
  blue_players = 11 ∷ [];
  red_players = [];
  disconnected_players = [];
}

abbrev origin : Vec ℕ
origin = record { x = 0; y = 0; z = 0 }

-- The snapshot of the field, and a history of one frame without inputs.
abbrev snapshot : BattleCheckpoint ℕ
snapshot = make_snapshot 60 0 fighting field

abbrev replaying : BattleRoom ℕ
replaying = record ending {
  frame_history = record { frame = 61; player_inputs = []; confirmed = true } ∷ [];
}

serialize_reconnect_ack-Holds_example :
    Holds
      (21 + 22 * length snapshot.entities + window_size 60 62 replaying.frame_history)
      (serialize_reconnect_ack whole replaying snapshot 60 62)
serialize_reconnect_ack-Holds_example = serialize_reconnect_ack-Holds whole replaying snapshot 60 62

-- A battle that counts down.
abbrev counting : BattleRoom ℕ
counting = record (new_room duel true) { battle_state = countdown; roster = alone }

play-countdown_example :
    ((r' : BattleRoom ℕ) × (play whole counting (replicate 2 next_tick) ≡ some r')
      × (r'.battle_state ≡ countdown)
      × (r'.countdown_remaining_sec ≡ 1))
    × ((r' : BattleRoom ℕ) × (play whole counting (replicate 3 next_tick) ≡ some r')
        × (r'.battle_state ≡ fighting)
        × (r'.battle_start_frame ≡ 0 + 3)
        × (member r'.lockstep.all_players 11 ≡ true))
unfolding new_room online
play-countdown_example = play-countdown whole 2 0 11 counting refl refl (omega arith)
