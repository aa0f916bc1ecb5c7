-- ===== src/Realtime/Battle/Deaths.antt =====
-- The count of a hero's deaths: `TickCombat` and `TickFighting` of common/cpp/realtime/battle_room.cpp.
use gmaker.Common.{
  ℕ, ◌+◌, ◌^◌, ◌≤◌, ◌<◌, ◌≡◌, refl, ap, ◌∙◌, false, ◌&&◌, Option, none, some, arith, ltb, u32,
}
use gmaker.Realtime.Entity.{
  Hero, Entity, hero, is_alive, take_damage, add_death, trigger_respawn, body_of, with_body,
}
use gmaker.Realtime.Entity.Respawn.{take_damage_lem}
use gmaker.Realtime.Battle.Combat.{tower_hit, hurt, bury, as_hero}

module _ {F : Type 0} where
  -- The hero that an entity is, after it was buried if it is dead.
  pub deaths_of : Option (Hero F) → ℕ
  deaths_of none = 0
  deaths_of (some h) = (bury h).deaths

  bury_dead :
      (h : Hero F) → h.body.hp ≡ 0 → h.respawn_timer ≡ 0 → (bury h).deaths ≡ u32 (h.deaths + 1)
  unfolding bury add_death trigger_respawn
  bury_dead h down waits = ground arith

  tower_hit_dead :
      (h : Hero F) (dmg : ℕ)
      → (take_damage h.body dmg).hp ≡ 0
      → tower_hit (hero h) dmg ≡ hero (add_death (record h { body = take_damage h.body dmg }))
  unfolding tower_hit
  tower_hit_dead h dmg e =
      let d : is_alive (take_damage h.body dmg) ≡ false =
        ap (λ hp. ltb 0 hp && ltb hp (2 ^ 31)) e in
      rw d refl

  -- A hero in life whom a tower kills has two more deaths when the tick ends, and one whom a projectile or a
  -- skill kills has one more, if the hero waits for no respawn.
  pub tower_hit-bury :
      (h : Hero F) (dmg : ℕ)
      → h.body.hp ≤ dmg
      → h.body.hp < 2 ^ 31
      → dmg < 2 ^ 31
      → h.respawn_timer ≡ 0
      → h.deaths + 2 < 2 ^ 32
      → (deaths_of (as_hero (some (tower_hit (hero h) dmg))) ≡ h.deaths + 2)
        × (deaths_of (as_hero (some (hurt (hero h) dmg))) ≡ h.deaths + 1)
  unfolding hurt add_death as_hero deaths_of body_of with_body
  tower_hit-bury h dmg kills low small waits few =
      let e : (take_damage h.body dmg).hp ≡ 0 =
        omega (arith, take_damage_lem h.body dmg low small) in
      let struck : Hero F = record h { body = take_damage h.body dmg } in
      (
        ap (λ (x : Entity F). deaths_of (as_hero (some x))) (tower_hit_dead h dmg e)
            ∙ omega (arith, bury_dead (add_death struck) e waits),
        omega (arith, bury_dead struck e waits),
      )
