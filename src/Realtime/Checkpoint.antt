-- ===== src/Realtime/Checkpoint.antt =====
-- `CheckpointManager` of common/cpp/realtime/checkpoint.hpp and checkpoint.cpp: the state of all entities at
-- a frame, and the last of these snapshots.
pub mod Keeps
pub mod Kills
mod Tests
use gmaker.Common.{
  ℕ, ◌+◌, ◌-◌, Bool, false, not, Option, none, some, List, [], ◌∷◌, ◌++◌, ltb, leb, ◌==◌,
  if◌then◌else◌, u32, length, get_elem?,
}
use gmaker.Common.Dict.{Dict}
use gmaker.Realtime.Entity.{
  blue, same_team, EntityType, TowerGrade, outer, MinionType, melee, Body, Entity, hero, minion,
  tower, projectile, body_of, type_of, is_alive,
}
use gmaker.Realtime.Entity.Manager.{EntityManager}

-- `BattleState`.
pub data BattleState : Type 0 where
  waiting loading countdown fighting paused finished : BattleState

pub record EntitySnapshot (F : Type 0) : Type 0 where
  pub body : Body F
  pub type : EntityType
  pub owner_player_id : ℕ
  pub kills : ℕ
  pub deaths : ℕ
  pub assists : ℕ
  pub gold : ℕ
  pub level : ℕ
  pub tower_grade : TowerGrade
  pub minion_type : MinionType
  pub caster_id : ℕ
  pub reached : Bool

-- The kills and the towers that `MakeSnapshot` counts.
pub record Tally : Type 0 where
  pub blue_kills : ℕ
  pub red_kills : ℕ
  pub blue_towers_alive : ℕ
  pub red_towers_alive : ℕ

pub record BattleCheckpoint (F : Type 0) : Type 0 where
  pub frame : ℕ
  pub timestamp_ms : ℕ
  pub battle_state : BattleState
  pub entities : List (EntitySnapshot F)
  pub tally : Tally

pub record CheckpointManager (F : Type 0) : Type 0 where
  pub interval_frames : ℕ
  pub max_checkpoints : ℕ
  pub checkpoints : List (BattleCheckpoint F)

abbrev pub no_tally : Tally
no_tally = record { blue_kills = 0; red_kills = 0; blue_towers_alive = 0; red_towers_alive = 0 }

module _ {F : Type 0} where
  -- `CheckpointManager(interval_frames, max_checkpoints)`.
  unfoldable pub new_manager : ℕ → ℕ → CheckpointManager F
  new_manager interval most = record {
    interval_frames = interval;
    max_checkpoints = most;
    checkpoints = [];
  }

  -- The fields that every entity has, and the defaults of the others.
  abbrev pub plain_snapshot : Entity F → EntitySnapshot F
  plain_snapshot e = record {
    body = body_of e;
    type = type_of e;
    owner_player_id = 0;
    kills = 0;
    deaths = 0;
    assists = 0;
    gold = 0;
    level = 1;
    tower_grade = outer;
    minion_type = melee;
    caster_id = 0;
    reached = false;
  }

  -- `SnapshotFromEntity`.
  unfoldable pub snapshot_from_entity : Entity F → EntitySnapshot F
  snapshot_from_entity (hero h) = record (plain_snapshot (hero h)) {
    owner_player_id = h.owner_player_id;
    kills = h.kills;
    deaths = h.deaths;
    assists = h.assists;
    gold = h.gold;
    level = h.level;
  }
  snapshot_from_entity (tower t) = record (plain_snapshot (tower t)) { tower_grade = t.grade }
  snapshot_from_entity (minion m) = record (plain_snapshot (minion m)) { minion_type = m.kind }
  snapshot_from_entity (projectile p) = record (plain_snapshot (projectile p)) {
    caster_id = p.caster_id;
    reached = p.reached;
  }

  -- What an entity adds to the tally.
  unfoldable pub count_entity : Entity F → Tally → Tally
  count_entity (hero h) t =
      if same_team h.body.team blue
      then record t { blue_kills = u32 (t.blue_kills + h.kills) }
      else record t { red_kills = u32 (t.red_kills + h.deaths) }
  count_entity (tower w) t =
      if not (is_alive w.body)
      then t
      else if same_team w.body.team blue
      then record t { blue_towers_alive = u32 (t.blue_towers_alive + 1) }
      else record t { red_towers_alive = u32 (t.red_towers_alive + 1) }
  count_entity (minion m) t = t
  count_entity (projectile p) t = t

  unfoldable pub count_entities : Dict (Entity F) → Tally → Tally
  count_entities [] t = t
  count_entities ((eid, e) ∷ rest) t = count_entities rest (count_entity e t)

  unfoldable pub snapshots_of : Dict (Entity F) → List (EntitySnapshot F)
  snapshots_of [] = []
  snapshots_of ((eid, e) ∷ rest) = snapshot_from_entity e ∷ snapshots_of rest

  -- `MakeSnapshot`.
  unfoldable pub make_snapshot : ℕ → ℕ → BattleState → EntityManager F → BattleCheckpoint F
  make_snapshot frame timestamp_ms battle_state entity_mgr = record {
    frame = frame;
    timestamp_ms = timestamp_ms;
    battle_state = battle_state;
    entities = snapshots_of entity_mgr.entities;
    tally = count_entities entity_mgr.entities no_tally;
  }

  -- The loop of `SaveSnapshot`.
  unfoldable pub trim : ℕ → List (BattleCheckpoint F) → List (BattleCheckpoint F)
  trim most [] = []
  trim most (c ∷ cs) =
      let rest = trim most cs in if ltb most (length (c ∷ cs)) then rest else c ∷ cs

  -- `SaveSnapshot`.
  unfoldable pub save_snapshot : CheckpointManager F → BattleCheckpoint F → CheckpointManager F
  save_snapshot m cp = record m {
    checkpoints = trim m.max_checkpoints (m.checkpoints ++ (cp ∷ []));
  }

  -- `GetLatestCheckpoint`.
  unfoldable pub get_latest_checkpoint : CheckpointManager F → Option (BattleCheckpoint F)
  get_latest_checkpoint m = get_elem? m.checkpoints (length m.checkpoints - 1)

  -- `GetCheckpointAfter` and `GetCheckpoint`.
  unfoldable pub first_after : ℕ → List (BattleCheckpoint F) → Option (BattleCheckpoint F)
  first_after frame [] = none
  first_after frame (c ∷ cs) =
      let rest = first_after frame cs in if leb frame c.frame then some c else rest

  unfoldable pub get_checkpoint_after : CheckpointManager F → ℕ → Option (BattleCheckpoint F)
  get_checkpoint_after m frame = first_after frame m.checkpoints

  unfoldable pub first_at : ℕ → List (BattleCheckpoint F) → Option (BattleCheckpoint F)
  first_at frame [] = none
  first_at frame (c ∷ cs) =
      let rest = first_at frame cs in if c.frame == frame then some c else rest

  unfoldable pub get_checkpoint : CheckpointManager F → ℕ → Option (BattleCheckpoint F)
  get_checkpoint m frame = first_at frame m.checkpoints
