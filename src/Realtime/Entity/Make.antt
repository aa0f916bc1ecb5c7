-- ===== src/Realtime/Entity/Make.antt =====
-- The constructors and `Tick` of the entities, and `TickAll`: entity.cpp and entity.hpp of common/cpp/realtime.
use gmaker.Common.{
  ℕ, ◌+◌, ◌-◌, min, Bool, true, false, ◌||◌, not, none, some, [], ◌∷◌, map, ltb, ◌==◌,
  if◌then◌else◌, get_elem?,
}
use gmaker.Common.Dict.{Dict}
use gmaker.Realtime.Fixed.{add, sub, mul_shift_right32, fixed_sqrt}
use gmaker.Realtime.Entity.{
  Floats, Vec, TeamSide, idle, moving, TowerGrade, outer, inner, base_tower, crystal, MinionType,
  melee, ranged, siege, Body, Hero, Minion, Tower, Projectile, Entity, hero, minion, tower,
  projectile, is_alive, cool, tower_tick,
}
use gmaker.Realtime.Entity.Manager.{EntityManager}

module _ {F : Type 0} (fl : Floats F) where
  open fl use {f_add, f_sub, f_mul, f_div, f_less, f_sqrt, f_atan2, ratio, from_float}

  abbrev pub nought : F
  nought = ratio 0 1

  abbrev pub point : ℕ → ℕ → Vec F
  point a c = record { x = ratio a 1; y = nought; z = ratio c 1 }

  abbrev pub zero_vec : Vec F
  zero_vec = point 0 0

  -- `DistanceXZ` and `DirectionXZ`.
  unfoldable pub distance_xz : Vec F → Vec F → F
  distance_xz a b =
      let dx = f_sub a.x b.x in let dz = f_sub a.z b.z in f_sqrt (f_add (f_mul dx dx) (f_mul dz dz))

  unfoldable pub direction_xz : Vec F → Vec F → Vec F
  direction_xz from to =
      let dx = f_sub to.x from.x in
      let dz = f_sub to.z from.z in
      let len = f_sqrt (f_add (f_mul dx dx) (f_mul dz dz)) in
      if f_less len (ratio 1 1000)
      then zero_vec
      else record { x = f_div dx len; y = nought; z = f_div dz len }

  -- `DistanceXZFixed` of the positions of two entities.
  unfoldable pub distance_fixed : Body F → Body F → ℕ
  distance_fixed a b =
      let dx = sub (from_float a.pos.x) (from_float b.pos.x) in
      let dz = sub (from_float a.pos.z) (from_float b.pos.z) in
      fixed_sqrt (add (mul_shift_right32 dx dx) (mul_shift_right32 dz dz))

  -- The way of one tick, and `dist <= step`.
  unfoldable pub step_of : F → ℕ → F
  step_of speed delta_ms = f_div (f_mul speed (ratio delta_ms 1)) (ratio 1000 1)

  abbrev pub arrives : Body F → Vec F → F → Bool
  arrives b target step = not (f_less step (distance_xz b.pos target))

  -- A step towards a target, and the same with a turn.
  unfoldable pub move_step : Body F → Vec F → F → Body F
  move_step b target step =
      let dir = direction_xz b.pos target in
      record b {
        pos = record {
          x = f_add b.pos.x (f_mul dir.x step);
          y = b.pos.y;
          z = f_add b.pos.z (f_mul dir.z step);
        };
      }

  unfoldable pub turn_step : Body F → Vec F → F → Body F
  turn_step b target step =
      let dir = direction_xz b.pos target in
      record (move_step b target step) { yaw = f_atan2 dir.x dir.z }

  -- The fields of a new entity.
  abbrev pub new_body : ℕ → TeamSide → Vec F → ℕ → Body F
  new_body eid team pos hp = record {
    entity_id = eid;
    team = team;
    pos = pos;
    vel = zero_vec;
    yaw = nought;
    hp = hp;
    max_hp = hp;
    state = idle;
  }

  -- `HeroEntity(eid, team, owner)`.
  unfoldable pub new_hero : ℕ → TeamSide → ℕ → Hero F
  new_hero eid team owner = record {
    body = new_body eid team zero_vec 1000;
    owner_player_id = owner;
    move_target = zero_vec;
    move_speed = ratio 5 1;
    skills = [];
    skill_cooldowns = 0 ∷ 0 ∷ 0 ∷ 0 ∷ [];
    kills = 0;
    deaths = 0;
    assists = 0;
    gold = 500;
    level = 1;
    respawn_timer = 0;
    fountain_pos = zero_vec;
    exp = 0;
  }

  -- `MinionEntity(eid, team, type)`.
  unfoldable pub minion_of : ℕ → TeamSide → MinionType → ℕ → ℕ → F → F → Minion F
  minion_of eid team kind max_hp damage speed range = record {
    body = new_body eid team zero_vec max_hp;
    kind = kind;
    waypoints = [];
    current_wp = 0;
    move_speed = speed;
    attack_range = range;
    attack_damage = damage;
    attack_cooldown = 0;
  }

  unfoldable pub new_minion : ℕ → TeamSide → MinionType → Minion F
  unfolding minion_of
  new_minion eid team melee = minion_of eid team melee 450 20 (ratio 7 2) (ratio 3 2)
  new_minion eid team ranged = minion_of eid team ranged 280 25 (ratio 3 1) (ratio 5 1)
  new_minion eid team siege = minion_of eid team siege 800 40 (ratio 5 2) (ratio 5 1)

  -- `TowerEntity(eid, team, grade)`.
  unfoldable pub tower_of : ℕ → TeamSide → TowerGrade → ℕ → ℕ → F → Tower F
  tower_of eid team grade max_hp damage range = record {
    body = new_body eid team zero_vec max_hp;
    grade = grade;
    attack_range = range;
    attack_damage = damage;
    attack_cooldown = 0;
  }

  unfoldable pub new_tower : ℕ → TeamSide → TowerGrade → Tower F
  unfolding tower_of
  new_tower eid team outer = tower_of eid team outer 3000 100 (ratio 8 1)
  new_tower eid team inner = tower_of eid team inner 2500 120 (ratio 8 1)
  new_tower eid team base_tower = tower_of eid team base_tower 2000 140 (ratio 8 1)
  new_tower eid team crystal = tower_of eid team crystal 4000 0 nought

  -- `ProjectileEntity(...)`.
  unfoldable pub new_projectile : ℕ → TeamSide → ℕ → Vec F → Vec F → F → ℕ → F → Projectile F
  new_projectile eid team caster start target speed damage radius = record {
    body = new_body eid team start 1;
    caster_id = caster;
    target_pos = target;
    speed = speed;
    damage = damage;
    radius = radius;
    reached = false;
  }

  -- The way of a hero in one tick.
  unfoldable pub walk : Body F → Vec F → F → Body F
  walk b target step =
      if arrives b target step
      then record b { pos = target; state = idle }
      else turn_step b target step

  unfoldable pub walk_if_moving : Body F → Vec F → F → Body F
  walk_if_moving b target step = elim b.state [ moving ↦ walk b target step | _ ↦ b ]

  -- `HeroEntity::Tick` of a dead hero: the respawn.
  unfoldable pub respawn_tick : Hero F → ℕ → Hero F
  respawn_tick h delta_ms =
      let timer = h.respawn_timer - min h.respawn_timer delta_ms in
      let back : Hero F = record h {
        respawn_timer = 0;
        body = record (h.body) { hp = h.body.max_hp; state = idle; pos = h.fountain_pos };
      } in
      if ltb 0 h.respawn_timer
      then (if timer == 0 then back else record h { respawn_timer = timer })
      else h

  -- `HeroEntity::Tick`.
  unfoldable pub hero_tick : Hero F → ℕ → Hero F
  hero_tick h delta_ms =
      let active : Hero F = record h {
        skill_cooldowns = map (cool delta_ms) h.skill_cooldowns;
        body = walk_if_moving h.body h.move_target (step_of h.move_speed delta_ms);
      } in
      if is_alive h.body then active else respawn_tick h delta_ms

  -- The part of `MinionEntity::Tick` that moves.
  unfoldable pub patrol : Minion F → ℕ → Minion F
  patrol m delta_ms = elim (get_elem? m.waypoints m.current_wp) [
    | none ↦ record m { body = record (m.body) { state = idle } }
    | some wp ↦
        let step = step_of m.move_speed delta_ms in
        let there : Minion F = record m {
          body = record (m.body) { pos = wp; state = moving };
          current_wp = m.current_wp + 1;
        } in
        if arrives m.body wp step
        then there
        else record m { body = record (turn_step m.body wp step) { state = moving } }
  ]

  -- `MinionEntity::Tick`.
  unfoldable pub minion_tick : Minion F → ℕ → Minion F
  minion_tick m delta_ms =
      let active : Minion F = record m { attack_cooldown = cool delta_ms m.attack_cooldown } in
      if is_alive m.body then patrol active delta_ms else m

  -- `ProjectileEntity::Tick`.
  unfoldable pub projectile_tick : Projectile F → ℕ → Projectile F
  projectile_tick p delta_ms =
      let step = step_of p.speed delta_ms in
      let arrived : Projectile F = record p {
        body = record (p.body) { pos = p.target_pos; hp = 0 };
        reached = true;
      } in
      if p.reached || not (is_alive p.body)
      then p
      else if arrives p.body p.target_pos step
      then arrived
      else record p { body = move_step p.body p.target_pos step }

  unfoldable pub entity_tick : Entity F → ℕ → Entity F
  entity_tick (hero h) delta_ms = hero (hero_tick h delta_ms)
  entity_tick (minion m) delta_ms = minion (minion_tick m delta_ms)
  entity_tick (tower t) delta_ms = tower (tower_tick t delta_ms)
  entity_tick (projectile p) delta_ms = projectile (projectile_tick p delta_ms)

  -- `TickAll`.
  unfoldable pub tick_entities : Dict (Entity F) → ℕ → Dict (Entity F)
  tick_entities [] delta_ms = []
  tick_entities ((eid, e) ∷ rest) delta_ms =
      (eid, entity_tick e delta_ms) ∷ tick_entities rest delta_ms

  unfoldable pub tick_all : EntityManager F → ℕ → EntityManager F
  tick_all mgr delta_ms = record mgr { entities = tick_entities mgr.entities delta_ms }
