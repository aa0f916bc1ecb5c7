-- ===== src/Realtime/Battle/Attacks.antt =====
-- The attacks of towers and projectiles: `TickCombat` of common/cpp/realtime/battle_room.cpp.
use gmaker.Common.{
  ℕ, Bool, true, false, ◌||◌, not, Option, none, some, List, [], ◌∷◌, if◌then◌else◌,
}
use gmaker.Realtime.Fixed.{less}
use gmaker.Realtime.Entity.{
  Floats, TeamSide, nobody, same_team, hero_type, minion_type, tower_type, projectile_type, crystal,
  Body, Tower, Projectile, Entity, hero, tower, projectile, body_of, is_alive, add_kill, can_attack,
  on_attack, tick_cooldown,
}
use gmaker.Realtime.Entity.Manager.{EntityManager, find_entity, get_by_type}
use gmaker.Realtime.Entity.Make.{distance_fixed}
use gmaker.Realtime.Battle.Combat.{store_entity, hurt, as_hero, tower_hit}

module _ {F : Type 0} (fl : Floats F) where
  open fl use {f_add, ratio, from_float}

  -- A step of the search for the nearest enemy of a tower.
  unfoldable pub nearer : EntityManager F → Tower F → ℕ → Option ℕ × ℕ → Option ℕ × ℕ
  nearer mgr t eid (target, dist) = elim (find_entity mgr eid) [
    | none ↦ (target, dist)
    | some cand ↦
        let d = distance_fixed fl t.body (body_of cand) in
        if not (is_alive (body_of cand)) || same_team (body_of cand).team t.body.team
        then (target, dist)
        else if less d dist
        then (some eid, d)
        else (target, dist)
  ]

  unfoldable pub nearest : EntityManager F → Tower F → List ℕ → Option ℕ × ℕ → Option ℕ × ℕ
  nearest mgr t [] best = best
  nearest mgr t (eid ∷ eids) best = nearest mgr t eids (nearer mgr t eid best)

  -- A tower that has cooled down.
  unfoldable pub tower_attack : List ℕ → List ℕ → EntityManager F → ℕ → Tower F → EntityManager F
  tower_attack minions heroes mgr eid t =
      let best = nearest mgr t heroes (nearest mgr t minions (none, from_float t.attack_range)) in
      elim (best.0) [
        | none ↦ mgr
        | some target ↦
            let hit : EntityManager F = elim (find_entity mgr target) [
              | none ↦ mgr
              | some cand ↦ store_entity mgr target (tower_hit cand t.attack_damage)
            ] in
            store_entity hit eid (tower (on_attack t))
      ]

  unfoldable pub tower_turn : List ℕ → List ℕ → ℕ → EntityManager F → ℕ → Tower F → EntityManager F
  tower_turn minions heroes delta_ms mgr eid t =
      let cooled = tick_cooldown t delta_ms in
      let mgr1 = store_entity mgr eid (tower cooled) in
      let is_crystal : Bool = elim t.grade [ crystal ↦ true | _ ↦ false ] in
      if not (is_alive t.body) || is_crystal
      then mgr
      else if can_attack cooled
      then tower_attack minions heroes mgr1 eid cooled
      else mgr1

  unfoldable pub tower_turn_of :
      List ℕ → List ℕ → ℕ → EntityManager F → ℕ → Option (Entity F) → EntityManager F
  tower_turn_of minions heroes delta_ms mgr eid (some (tower t)) =
      tower_turn minions heroes delta_ms mgr eid t
  tower_turn_of minions heroes delta_ms mgr eid other = mgr

  unfoldable pub tick_towers : List ℕ → List ℕ → List ℕ → ℕ → EntityManager F → EntityManager F
  tick_towers minions heroes [] delta_ms mgr = mgr
  tick_towers minions heroes (eid ∷ eids) delta_ms mgr =
      tick_towers minions heroes eids delta_ms
        (tower_turn_of minions heroes delta_ms mgr eid (find_entity mgr eid))

  -- A kill goes to the hero that cast the projectile.
  unfoldable pub credit : EntityManager F → ℕ → Body F → EntityManager F
  credit mgr caster b = elim (as_hero (find_entity mgr caster)) [
    | none ↦ mgr
    | some h ↦ if is_alive b then mgr else store_entity mgr caster (hero (add_kill h))
  ]

  -- A projectile that has arrived and an entity that may be in reach.
  unfoldable pub blast : Projectile F → TeamSide → EntityManager F → ℕ → EntityManager F
  blast p caster_team mgr eid = elim (find_entity mgr eid) [
    | none ↦ mgr
    | some cand ↦
        let far =
          less (from_float (f_add p.radius (ratio 1 2)))
            (distance_fixed fl p.body (body_of cand)) in
        let cand' = hurt cand p.damage in
        if not (is_alive (body_of cand)) || same_team (body_of cand).team caster_team || far
        then mgr
        else credit (store_entity mgr eid cand') p.caster_id (body_of cand')
  ]

  unfoldable pub blast_all : Projectile F → TeamSide → List ℕ → EntityManager F → EntityManager F
  blast_all p caster_team [] mgr = mgr
  blast_all p caster_team (eid ∷ eids) mgr =
      blast_all p caster_team eids (blast p caster_team mgr eid)

  unfoldable pub projectile_turn :
      List ℕ → List ℕ → List ℕ → EntityManager F → Option (Entity F) → EntityManager F
  projectile_turn minions heroes towers mgr (some (projectile p)) =
      let team : TeamSide = elim (find_entity mgr p.caster_id) [
        | none ↦ nobody
        | some e ↦ (body_of e).team
      ] in
      if p.reached
      then blast_all p team towers (blast_all p team minions (blast_all p team heroes mgr))
      else mgr
  projectile_turn minions heroes towers mgr other = mgr

  unfoldable pub tick_projectiles :
      List ℕ → List ℕ → List ℕ → List ℕ → EntityManager F → EntityManager F
  tick_projectiles minions heroes towers [] mgr = mgr
  tick_projectiles minions heroes towers (eid ∷ eids) mgr =
      tick_projectiles minions heroes towers eids
        (projectile_turn minions heroes towers mgr (find_entity mgr eid))

  -- `TickCombat`.
  unfoldable pub tick_combat : EntityManager F → ℕ → EntityManager F
  tick_combat mgr delta_ms =
      let towers = get_by_type mgr tower_type in
      let heroes = get_by_type mgr hero_type in
      let minions = get_by_type mgr minion_type in
      let mgr1 = tick_towers minions heroes towers delta_ms mgr in
      tick_projectiles minions heroes towers (get_by_type mgr1 projectile_type) mgr1
