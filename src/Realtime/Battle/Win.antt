-- ===== src/Realtime/Battle/Win.antt =====
-- The end of a battle: `CheckWinCondition` of common/cpp/realtime/battle_room.cpp.
use gmaker.Common.{
  ◌≡◌, refl, ap, ap₂, ◌∙◌, Bool, true, false, ◌&&◌, ◌||◌, not, List, [], ◌∷◌, if◌then◌else◌,
}
use gmaker.Common.Dict.{Dict}
use gmaker.Realtime.Entity.{
  TeamSide, blue, red, same_team, crystal, Entity, hero, minion, tower, projectile, is_alive,
}
use gmaker.Realtime.Checkpoint.{finished}
use gmaker.Realtime.Battle.{BattleRoom, Sent}
use gmaker.Realtime.Battle.Outcome.{
  broadcast_to_all, battle_end, crystals, winner_of, finish_for, check_win_condition, change_state,
}

or_false : (b : Bool) → b ≡ (b || false)
or_false true = refl
or_false false = refl

-- One entity more.
add_crystal :
    (c own b r s o : Bool)
    → ◌≡◌ {A = Bool × Bool}
        (let p : Bool × Bool = if c then (if own then (true, r) else (b, true)) else (b, r) in
          (p.0 || s, p.1 || o))
        (
          b || ((c && (if own then true else false)) || s),
          r || ((c && (if own then false else true)) || o),
        )
add_crystal true true true true s o = refl
add_crystal true true true false s o = refl
add_crystal true true false true s o = refl
add_crystal true true false false s o = refl
add_crystal true false true true s o = refl
add_crystal true false true false s o = refl
add_crystal true false false true s o = refl
add_crystal true false false false s o = refl
add_crystal false own b r s o = refl

module _ {F : Type 0} where
  -- Whether an entity is a crystal that stands, of the blue team or of another.
  pub is_standing : Bool → Entity F → Bool
  is_standing side (tower t) =
      let is_crystal : Bool = elim t.grade [ crystal ↦ true | _ ↦ false ] in
      (is_crystal && is_alive t.body) && (if same_team t.body.team blue then side else not side)
  is_standing side (hero h) = false
  is_standing side (minion m) = false
  is_standing side (projectile p) = false

  -- Whether a crystal stands.
  pub stands : Bool → Dict (Entity F) → Bool
  stands side [] = false
  stands side ((eid, e) ∷ rest) = is_standing side e || stands side rest

  crystals_lem :
      (es : Dict (Entity F)) (p : Bool × Bool)
      → crystals es p ≡ (p.0 || stands true es, p.1 || stands false es)
  unfolding crystals stands is_standing
  crystals_lem [] (b, r) = ap₂ (λ (x y : Bool). (x, y)) (or_false b) (or_false r)
  crystals_lem ((eid, tower t) ∷ rest) (b, r) =
      crystals_lem rest _ ∙ add_crystal _ (same_team t.body.team blue) b r _ _
  crystals_lem ((eid, hero h) ∷ rest) p = crystals_lem rest p
  crystals_lem ((eid, minion m) ∷ rest) p = crystals_lem rest p
  crystals_lem ((eid, projectile q) ∷ rest) p = crystals_lem rest p

  -- The room with a winner, and what it sends.
  pub won : BattleRoom F → TeamSide → BattleRoom F × List (Sent F)
  won r winner =
      let r' : BattleRoom F = record r { battle_state = finished } in
      (r', broadcast_to_all r' (battle_end r' winner))

  finish_for_lem :
      (r : BattleRoom F) (b o : Bool)
      → finish_for r (winner_of (b, o))
        ≡ (if b then (if o then (r, []) else won r blue) else (if o then won r red else (r, [])))
  unfolding finish_for winner_of won change_state
  finish_for_lem r true true = refl
  finish_for_lem r true false = refl
  finish_for_lem r false true = refl
  finish_for_lem r false false = refl

  -- A battle is won by the blue team if a blue crystal stands and no other, and by the red team if
  -- another one stands and no blue one; it is then finished and its end is sent. While crystals of
  -- both sides stand, and also when none does, the room stays as it is and nothing is sent.
  pub check_win_condition_lem :
      (r : BattleRoom F)
      → check_win_condition r ≡ (
          if stands true r.entity_mgr.entities
          then (if stands false r.entity_mgr.entities then (r, []) else won r blue)
          else (if stands false r.entity_mgr.entities then won r red else (r, [])))
  unfolding check_win_condition
  check_win_condition_lem r =
      ap (λ c. finish_for r (winner_of c)) (crystals_lem r.entity_mgr.entities (false, false))
      ∙ finish_for_lem r _ _
