-- ===== src/Realtime/Battle/Scene.antt =====
-- The entities of a battle that the room makes: `InitBattleScene` and `SpawnMinions` of
-- common/cpp/realtime/battle_room.cpp.
use gmaker.Common.{ℕ, zero, suc, Bool, true, false, List, [], ◌∷◌, ◌==◌, if◌then◌else◌, length}
use gmaker.Common.Dict.{Dict}
use gmaker.Realtime.Entity.{
  Floats, Vec, TeamSide, blue, red, same_team, TowerGrade, outer, inner, base_tower, crystal, melee,
  ranged, MinionType, SkillDef, Hero, Minion, hero, minion, tower,
}
use gmaker.Realtime.Entity.Manager.{EntityManager, add_entity, next_id}
use gmaker.Realtime.Entity.Make.{nought, point, new_hero, new_minion, new_tower}
use gmaker.Realtime.Battle.{Config, PlayerInfo}

module _ {F : Type 0} (fl : Floats F) where
  open fl use {ratio}

  abbrev pub skill : ℕ → ℕ → F → F → ℕ → ℕ → F → Bool → SkillDef F
  skill slot id range radius damage cooldown speed aoe = record {
    slot = slot;
    skill_id = id;
    range = range;
    radius = radius;
    damage = damage;
    cooldown_ms = cooldown;
    projectile_speed = speed;
    is_aoe = aoe;
  }

  -- The skills of every hero.
  unfoldable pub default_skills : List (SkillDef F)
  default_skills =
      skill 0 1001 (ratio 6 1) (nought fl) 80 0 (ratio 15 1) false
      ∷ skill 1 1002 (ratio 8 1) (ratio 3 1) 120 2000 (ratio 12 1) true
      ∷ skill 2 1003 (ratio 10 1) (nought fl) 200 5000 (ratio 20 1) false
      ∷ skill 3 1004 (ratio 15 1) (ratio 5 1) 300 10000 (nought fl) true
      ∷ []

  -- The hero of a player.
  unfoldable pub hero_for : ℕ → ℕ → PlayerInfo F → Hero F
  hero_for eid pid info =
      let h = new_hero fl eid info.team pid in
      record h {
        body = record (h.body) { pos = info.spawn_pos };
        skills = default_skills;
        fountain_pos = if same_team info.team blue then point fl 10 10 else point fl 90 90;
      }

  -- The loop over the players of `InitBattleScene`.
  unfoldable pub place_heroes :
      Dict (PlayerInfo F) → EntityManager F → Dict (PlayerInfo F) × EntityManager F
  place_heroes [] mgr = ([], mgr)
  place_heroes ((pid, info) ∷ rest) mgr =
      let (mgr1, eid) = next_id mgr in
      let (rest', mgr2) = place_heroes rest (add_entity mgr1 eid (hero (hero_for eid pid info))) in
      ((pid, record info { hero_entity_id = eid }) ∷ rest', mgr2)

  -- `CreateTower` for the towers that are configured.
  unfoldable pub place_towers : List (ℕ × TeamSide × TowerGrade) → EntityManager F → EntityManager F
  place_towers [] mgr = mgr
  place_towers ((eid, team, grade) ∷ rest) mgr =
      place_towers rest (add_entity mgr eid (tower (new_tower fl eid team grade)))

  -- `CreateTower` with the next ids.
  unfoldable pub place_new : List (TeamSide × TowerGrade) → EntityManager F → EntityManager F
  place_new [] mgr = mgr
  place_new ((team, grade) ∷ rest) mgr =
      let (mgr1, eid) = next_id mgr in
      place_new rest (add_entity mgr1 eid (tower (new_tower fl eid team grade)))

  unfoldable pub default_towers : List (TeamSide × TowerGrade)
  default_towers =
      (blue, outer)
      ∷ (blue, inner)
      ∷ (blue, base_tower)
      ∷ (blue, crystal)
      ∷ (red, outer)
      ∷ (red, inner)
      ∷ (red, base_tower)
      ∷ (red, crystal)
      ∷ []

  -- `InitBattleScene`: the players with their heroes, and the entities.
  unfoldable pub init_battle_scene :
      Config F → Dict (PlayerInfo F) → EntityManager F → Dict (PlayerInfo F) × EntityManager F
  init_battle_scene cfg players mgr =
      let (players', mgr1) = place_heroes players mgr in
      let mgr2 = place_towers cfg.tower_defs mgr1 in
      (players', if length cfg.tower_defs == 0 then place_new default_towers mgr2 else mgr2)

  -- The way of the minions of a team.
  unfoldable pub waypoints_of : TeamSide → List (Vec F)
  waypoints_of team =
      if same_team team blue
      then point fl 30 30 ∷ point fl 50 50 ∷ point fl 70 70 ∷ point fl 90 90 ∷ []
      else point fl 70 70 ∷ point fl 50 50 ∷ point fl 30 30 ∷ point fl 10 10 ∷ []

  -- One minion at a place.
  unfoldable pub spawn_minion : TeamSide → MinionType → Vec F → EntityManager F → EntityManager F
  spawn_minion team kind spawn mgr =
      let (mgr1, eid) = next_id mgr in
      let m = new_minion fl eid team kind in
      let placed : Minion F = record m {
        body = record (m.body) { pos = spawn };
        waypoints = waypoints_of team;
      } in
      add_entity mgr1 eid (minion placed)

  unfoldable pub spawn_melee : ℕ → TeamSide → EntityManager F → EntityManager F
  spawn_melee zero team mgr = mgr
  spawn_melee (suc n) team mgr =
      spawn_melee n team (
        spawn_minion team melee (if same_team team blue then point fl 10 10 else point fl 90 90)
          mgr)

  unfoldable pub spawn_wave : TeamSide → EntityManager F → EntityManager F
  spawn_wave team mgr =
      spawn_minion team ranged (if same_team team blue then point fl 12 8 else point fl 88 92)
        (spawn_melee 3 team mgr)

  -- `SpawnMinions`, without the counter of the waves.
  unfoldable pub spawn_minions : EntityManager F → EntityManager F
  spawn_minions mgr = spawn_wave red (spawn_wave blue mgr)
