-- ===== src/Realtime/Battle.antt =====
-- `BattleRoom` of common/cpp/realtime/battle_room.hpp and battle_room.cpp, the state of a battle. The
-- unordered maps are iterated in the order of their keys. Protobuf messages are their fields.
pub mod Players
pub mod Scene
pub mod Combat
pub mod Inputs
pub mod Attacks
pub mod Outcome
pub mod Tick
pub mod Messages
pub mod Wire
pub mod Win
pub mod Teams
pub mod Lasting
pub mod Phases
pub mod Countdown
pub mod Deaths
mod Tests
use gmaker.Common.{ℕ, ◌/◌, Bool, List, []}
use gmaker.Common.Dict.{Dict}
use gmaker.Realtime.Entity.{Vec, TeamSide, TowerGrade, EntityType, EntityState}
use gmaker.Realtime.Entity.Manager.{EntityManager}
use gmaker.Realtime.Checkpoint.{BattleState, waiting, CheckpointManager, new_manager}
use gmaker.Realtime.Lockstep.{FrameInputs, Engine, initial, set_timeout_frames}

-- `BattleRoomConfig`, as far as the room reads it, with the room's number.
pub record Config (F : Type 0) : Type 0 where
  pub room_id : ℕ
  pub team_size : ℕ
  pub minion_spawn_interval_sec : ℕ
  pub checkpoint_interval_frames : ℕ
  pub max_reconnect_wait_sec : ℕ
  pub lockstep_timeout_ms : ℕ
  pub tower_defs : List (ℕ × TeamSide × TowerGrade)
  pub blue_spawn_pts : List (Vec F)
  pub red_spawn_pts : List (Vec F)

pub record PlayerInfo (F : Type 0) : Type 0 where
  pub player_id : ℕ
  pub conn_id : ℕ
  pub team : TeamSide
  pub hero_entity_id : ℕ
  pub is_connected : Bool
  pub is_ready : Bool
  pub spawn_pos : Vec F

pub record DisconnectInfo : Type 0 where
  pub disconnect_frame : ℕ
  pub hero_entity_id : ℕ

-- The fields of the room that are about its players.
pub record Roster (F : Type 0) : Type 0 where
  pub players : Dict (PlayerInfo F)
  pub conn_to_player : Dict ℕ
  pub blue_players : List ℕ
  pub red_players : List ℕ
  pub disconnected_players : Dict DisconnectInfo

pub record BattleRoom (F : Type 0) : Type 0 where
  pub cfg : Config F
  pub has_callback : Bool
  pub battle_state : BattleState
  pub roster : Roster F
  pub entity_mgr : EntityManager F
  pub lockstep : Engine
  pub checkpoint_mgr : CheckpointManager F
  pub battle_start_frame : ℕ
  pub countdown_remaining_sec : ℕ
  pub minion_spawn_timer_ms : ℕ
  pub minion_wave_count : ℕ
  pub battle_frame : ℕ
  pub last_tick_ms : ℕ
  pub frame_history : List FrameInputs
  pub frame_hashes : List ℕ

-- An entity in `BattleStateSync`.
pub record EntitySync (F : Type 0) : Type 0 where
  pub entity_id : ℕ
  pub type : EntityType
  pub team : TeamSide
  pub pos : Vec F
  pub yaw : F
  pub hp : ℕ
  pub max_hp : ℕ
  pub state : EntityState
  pub kills : ℕ
  pub deaths : ℕ
  pub gold : ℕ

-- `BattleDownstream`, and a payload of bytes.
pub data Payload (F : Type 0) : Type 0 where
  start : ℕ → ℕ → List ℕ → List ℕ → Payload F
  end : TeamSide → ℕ → ℕ → ℕ → Payload F
  state_sync : ℕ → ℕ → BattleState → List (EntitySync F) → Payload F
  bytes : List ℕ → Payload F

-- What the callback is given: the fields of a `RoomSnapshot` that the room sets, and the connections.
pub record Sent (F : Type 0) : Type 0 where
  pub room_id : ℕ
  pub frame_seq : ℕ
  pub timestamp_ms : ℕ
  pub payload : Payload F
  pub conn_ids : List ℕ

abbrev pub no_roster : {F : Type 0} → Roster F
no_roster = record {
  players = [];
  conn_to_player = [];
  blue_players = [];
  red_players = [];
  disconnected_players = [];
}

-- `BattleRoom(cfg)`.
unfoldable pub new_room : {F : Type 0} → Config F → Bool → BattleRoom F
new_room cfg callback = record {
  cfg = cfg;
  has_callback = callback;
  battle_state = waiting;
  roster = no_roster;
  entity_mgr = record { entities = []; next_entity_id = 1 };
  lockstep = set_timeout_frames initial (cfg.lockstep_timeout_ms / 33);
  checkpoint_mgr = new_manager cfg.checkpoint_interval_frames 10;
  battle_start_frame = 0;
  countdown_remaining_sec = 3;
  minion_spawn_timer_ms = 0;
  minion_wave_count = 0;
  battle_frame = 0;
  last_tick_ms = 0;
  frame_history = [];
  frame_hashes = [];
}
