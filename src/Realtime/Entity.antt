-- ===== src/Realtime/Entity.antt =====
-- The entities of a battle: battle_types.hpp, entity.hpp and entity.cpp of common/cpp/realtime. A hit
-- point count is an `int32_t` that is never negative; `float` and its operations are a parameter.
pub mod Manager
pub mod Make
pub mod Levels
pub mod Respawn
mod Tests
use gmaker.Common.{
  ℕ, zero, suc, ◌+◌, ◌-◌, ◌*◌, ◌^◌, min, Bool, true, false, ◌&&◌, none, some, List, ltb, leb, ◌==◌,
  if◌then◌else◌, u32, length, get_elem?, get_or, set,
}

-- `float`, with the conversions of fixed.hpp that go through it and the bits of its
-- representation. `ratio m n` is the literal m / n.
pub record Floats (F : Type 0) : Type 0 where
  pub f_add : F → F → F
  pub f_sub : F → F → F
  pub f_mul : F → F → F
  pub f_div : F → F → F
  pub f_less : F → F → Bool
  pub f_sqrt : F → F
  pub f_atan2 : F → F → F
  pub ratio : ℕ → ℕ → F
  pub from_float : F → ℕ
  pub to_float : ℕ → F
  pub float_bits : F → ℕ

pub record Vec (F : Type 0) : Type 0 where
  pub x : F
  pub y : F
  pub z : F

-- `TeamSide`; the first is `None`.
pub data TeamSide : Type 0 where
  nobody blue red : TeamSide

unfoldable pub team_code : TeamSide → ℕ
team_code nobody = 0
team_code blue = 1
team_code red = 2

unfoldable pub same_team : TeamSide → TeamSide → Bool
unfolding team_code
same_team a b = team_code a == team_code b

pub data EntityType : Type 0 where
  hero_type minion_type tower_type projectile_type : EntityType

unfoldable pub type_code : EntityType → ℕ
type_code hero_type = 1
type_code minion_type = 2
type_code tower_type = 3
type_code projectile_type = 4

pub data EntityState : Type 0 where
  idle moving attacking casting dead : EntityState

unfoldable pub state_code : EntityState → ℕ
state_code idle = 0
state_code moving = 1
state_code attacking = 2
state_code casting = 3
state_code dead = 4

pub data TowerGrade : Type 0 where
  outer inner base_tower crystal : TowerGrade

pub data MinionType : Type 0 where
  melee ranged siege : MinionType

pub record SkillDef (F : Type 0) : Type 0 where
  pub slot : ℕ
  pub skill_id : ℕ
  pub range : F
  pub radius : F
  pub damage : ℕ
  pub cooldown_ms : ℕ
  pub projectile_speed : F
  pub is_aoe : Bool

-- The fields of `IEntity`.
pub record Body (F : Type 0) : Type 0 where
  pub entity_id : ℕ
  pub team : TeamSide
  pub pos : Vec F
  pub vel : Vec F
  pub yaw : F
  pub hp : ℕ
  pub max_hp : ℕ
  pub state : EntityState

pub record Hero (F : Type 0) : Type 0 where
  pub body : Body F
  pub owner_player_id : ℕ
  pub move_target : Vec F
  pub move_speed : F
  pub skills : List (SkillDef F)
  pub skill_cooldowns : List ℕ
  pub kills : ℕ
  pub deaths : ℕ
  pub assists : ℕ
  pub gold : ℕ
  pub level : ℕ
  pub respawn_timer : ℕ
  pub fountain_pos : Vec F
  pub exp : ℕ

pub record Minion (F : Type 0) : Type 0 where
  pub body : Body F
  pub kind : MinionType
  pub waypoints : List (Vec F)
  pub current_wp : ℕ
  pub move_speed : F
  pub attack_range : F
  pub attack_damage : ℕ
  pub attack_cooldown : ℕ

pub record Tower (F : Type 0) : Type 0 where
  pub body : Body F
  pub grade : TowerGrade
  pub attack_range : F
  pub attack_damage : ℕ
  pub attack_cooldown : ℕ

pub record Projectile (F : Type 0) : Type 0 where
  pub body : Body F
  pub caster_id : ℕ
  pub target_pos : Vec F
  pub speed : F
  pub damage : ℕ
  pub radius : F
  pub reached : Bool

pub data Entity (F : Type 0) : Type 0 where
  hero : Hero F → Entity F
  minion : Minion F → Entity F
  tower : Tower F → Entity F
  projectile : Projectile F → Entity F

-- A counter of milliseconds that runs down to 0.
abbrev pub cool : ℕ → ℕ → ℕ
cool delta_ms timer = if ltb 0 timer then timer - min timer delta_ms else timer

module _ {F : Type 0} where
  unfoldable pub body_of : Entity F → Body F
  body_of (hero h) = h.body
  body_of (minion m) = m.body
  body_of (tower t) = t.body
  body_of (projectile p) = p.body

  -- `Type`.
  unfoldable pub type_of : Entity F → EntityType
  type_of (hero h) = hero_type
  type_of (minion m) = minion_type
  type_of (tower t) = tower_type
  type_of (projectile p) = projectile_type

  -- The same entity with other fields of `IEntity`.
  unfoldable pub with_body : Entity F → Body F → Entity F
  with_body (hero h) b = hero (record h { body = b })
  with_body (minion m) b = minion (record m { body = b })
  with_body (tower t) b = tower (record t { body = b })
  with_body (projectile p) b = projectile (record p { body = b })

  -- `IsAlive`.
  abbrev pub is_alive : Body F → Bool
  is_alive b = ltb 0 b.hp && ltb b.hp (2 ^ 31)

  -- `TakeDamage`, of the bit pattern of an `int32_t`.
  unfoldable pub take_damage : Body F → ℕ → Body F
  take_damage b dmg =
      let left = u32 (b.hp + 2 ^ 32 - dmg) in
      record b { hp = if ltb left (2 ^ 31) then left else 0 }

  -- `exp_to_next`.
  abbrev pub exp_to_next : Hero F → ℕ
  exp_to_next h = u32 (h.level * 100)

  -- The body of the loop of `AddExp`; hit points are the bit patterns of `int32_t`.
  unfoldable pub level_up : Hero F → Hero F
  level_up h = record h {
    exp = h.exp - exp_to_next h;
    level = u32 (h.level + 1);
    body = record (h.body) { max_hp = u32 (h.body.max_hp + 50); hp = u32 (h.body.max_hp + 50) };
  }

  -- The loop of `AddExp`; each round is a level up to the 15th.
  unfoldable pub level_loop : ℕ → Hero F → Hero F
  level_loop zero h = h
  level_loop (suc fuel) h =
      let rest = level_loop fuel (level_up h) in
      if leb (exp_to_next h) h.exp && ltb h.level 15 then rest else h

  -- `AddExp`.
  unfoldable pub add_exp : Hero F → ℕ → Hero F
  add_exp h exp = level_loop 15 (record h { exp = u32 (h.exp + exp) })

  -- `AddKill` and `AddDeath`.
  unfoldable pub add_kill : Hero F → Hero F
  add_kill h = add_exp (record h { kills = u32 (h.kills + 1); gold = u32 (h.gold + 200) }) 200

  unfoldable pub add_death : Hero F → Hero F
  add_death h = record h { deaths = u32 (h.deaths + 1) }

  -- `TriggerRespawn` and `IsRespawning`.
  unfoldable pub trigger_respawn : Hero F → ℕ → Hero F
  trigger_respawn h respawn_ms = record h { respawn_timer = respawn_ms }

  abbrev pub is_respawning : Hero F → Bool
  is_respawning h = ltb 0 h.respawn_timer

  -- `CastSkill`; the flag says whether the skill was cast.
  unfoldable pub cast_skill : Hero F → ℕ → Hero F × Bool
  cast_skill h slot =
      let cooldown : ℕ = elim (get_elem? h.skills slot) [ none ↦ 0 | some s ↦ s.cooldown_ms ] in
      let cast : Hero F = record h {
        skill_cooldowns = set h.skill_cooldowns slot cooldown;
        body = record (h.body) { state = casting };
      } in
      if leb (length h.skills) slot
      then (h, false)
      else if ltb 0 (get_or h.skill_cooldowns slot 0)
      then (h, false)
      else (cast, true)

  -- `CanAttack`, `OnAttack` and `TickCooldown` of a tower.
  abbrev pub can_attack : Tower F → Bool
  can_attack t = t.attack_cooldown == 0

  unfoldable pub on_attack : Tower F → Tower F
  on_attack t = record t { attack_cooldown = 1250 }

  unfoldable pub tick_cooldown : Tower F → ℕ → Tower F
  tick_cooldown t delta_ms = record t {
    attack_cooldown = if ltb delta_ms t.attack_cooldown then t.attack_cooldown - delta_ms else 0;
  }

  -- `TowerEntity::Tick`.
  unfoldable pub tower_tick : Tower F → ℕ → Tower F
  tower_tick t delta_ms =
      if is_alive t.body then record t { attack_cooldown = cool delta_ms t.attack_cooldown } else t
