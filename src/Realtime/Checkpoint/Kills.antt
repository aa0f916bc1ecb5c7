-- ===== src/Realtime/Checkpoint/Kills.antt =====
-- The kills in a snapshot: `MakeSnapshot` of common/cpp/realtime/checkpoint.cpp.
use gmaker.Common.{
  ℕ, ◌+◌, ◌^◌, ◌<◌, ◌≡◌, inl, inr, Bool, true, false, [], ◌∷◌, arith, if◌then◌else◌, Bool-cases,
  u32,
}
use gmaker.Common.Dict.{Dict}
use gmaker.Realtime.Entity.{blue, same_team, Hero, Entity, hero, minion, tower, projectile}
use gmaker.Realtime.Entity.Manager.{EntityManager}
use gmaker.Realtime.Checkpoint.{
  BattleState, Tally, no_tally, count_entity, count_entities, make_snapshot,
}

module _ {F : Type 0} where
  -- The sum of a number over the heroes of the blue team, or over the other heroes.
  pub hero_share : Bool → (Hero F → ℕ) → Entity F → ℕ
  hero_share side f (hero h) =
      if same_team h.body.team blue then (if side then f h else 0) else (if side then 0 else f h)
  hero_share side f (minion m) = 0
  hero_share side f (tower t) = 0
  hero_share side f (projectile p) = 0

  pub hero_sum : Bool → (Hero F → ℕ) → Dict (Entity F) → ℕ
  hero_sum side f [] = 0
  hero_sum side f ((eid, e) ∷ rest) = hero_share side f e + hero_sum side f rest

  -- What an entity adds to the kills.
  count_entity_lem :
      (e : Entity F) (t : Tally)
      → t.blue_kills < 2 ^ 32
      → t.red_kills < 2 ^ 32
      → ((count_entity e t).blue_kills ≡ u32 (t.blue_kills + hero_share true (λ h. h.kills) e))
        × ((count_entity e t).red_kills ≡ u32 (t.red_kills + hero_share false (λ h. h.deaths) e))
  unfolding count_entity hero_share
  count_entity_lem (hero h) t b r = elim (Bool-cases (same_team h.body.team blue)) [
    | inl own ↦ rw own (omega arith, omega arith)
    | inr other ↦ rw other (omega arith, omega arith)
  ]
  count_entity_lem (minion m) t b r = (omega arith, omega arith)
  count_entity_lem (tower w) t b r = ground arith
  count_entity_lem (projectile p) t b r = (omega arith, omega arith)

  count_entities_lem :
      (es : Dict (Entity F)) (t : Tally)
      → t.blue_kills < 2 ^ 32
      → t.red_kills < 2 ^ 32
      → ((count_entities es t).blue_kills ≡ u32 (t.blue_kills + hero_sum true (λ h. h.kills) es))
        × ((count_entities es t).red_kills ≡ u32 (t.red_kills + hero_sum false (λ h. h.deaths) es))
  unfolding count_entities hero_sum
  count_entities_lem [] t b r = (omega arith, omega arith)
  count_entities_lem ((eid, e) ∷ rest) t b r =
      let (b1, r1) = count_entity_lem e t b r in
      let (b2, r2) =
        count_entities_lem rest (count_entity e t) (omega (arith, b1)) (omega (arith, r1)) in
      (omega (arith, b1, b2), omega (arith, r1, r2))

  -- The kills that a snapshot gives to the blue team are those of its heroes, but what it gives to the red
  -- team is the sum of the deaths of all heroes that are not blue, each modulo 2 ^ 32.
  pub make_snapshot-kills :
      (frame timestamp_ms : ℕ) (s : BattleState) (mgr : EntityManager F)
      → ((make_snapshot frame timestamp_ms s mgr).tally.blue_kills
          ≡ u32 (hero_sum true (λ h. h.kills) mgr.entities))
        × ((make_snapshot frame timestamp_ms s mgr).tally.red_kills
            ≡ u32 (hero_sum false (λ h. h.deaths) mgr.entities))
  unfolding make_snapshot
  make_snapshot-kills frame timestamp_ms s mgr =
      let (b, r) = count_entities_lem mgr.entities no_tally (omega arith) (omega arith) in
      (omega (arith, b), omega (arith, r))
