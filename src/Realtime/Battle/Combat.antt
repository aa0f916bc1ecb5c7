-- ===== src/Realtime/Battle/Combat.antt =====
-- What a fight does to an entity, and the loops of `TickFighting` over heroes and projectiles, in
-- common/cpp/realtime/battle_room.cpp.
use gmaker.Common.{
  ℕ, Bool, false, ◌&&◌, ◌||◌, not, Option, none, some, List, [], ◌∷◌, if◌then◌else◌,
}
use gmaker.Common.Dict.{Dict, find, update}
use gmaker.Realtime.Entity.{
  projectile_type, Hero, Entity, hero, minion, tower, projectile, body_of, with_body, is_alive,
  take_damage, add_death, trigger_respawn, is_respawning,
}
use gmaker.Realtime.Entity.Manager.{EntityManager, find_entity, remove_entity, get_by_type}
use gmaker.Realtime.Battle.{PlayerInfo}

module _ {F : Type 0} where
  -- Another state of an entity of the manager.
  unfoldable pub store_entity : EntityManager F → ℕ → Entity F → EntityManager F
  store_entity mgr eid e = record mgr { entities = update mgr.entities eid (λ old. e) }

  -- The hero behind a pointer; that an entity of another type is no hero is the model's, whose cast
  -- the source does unchecked.
  unfoldable pub as_hero : Option (Entity F) → Option (Hero F)
  as_hero none = none
  as_hero (some (hero h)) = some h
  as_hero (some (minion m)) = none
  as_hero (some (tower t)) = none
  as_hero (some (projectile p)) = none

  -- `GetPlayerHero`.
  unfoldable pub get_player_hero : Dict (PlayerInfo F) → EntityManager F → ℕ → Option (Hero F)
  get_player_hero players mgr pid = elim (find players pid) [
    | none ↦ none
    | some info ↦ as_hero (find_entity mgr info.hero_entity_id)
  ]

  -- An entity that is hit, as a tower hits it: a hero that it kills gets a death.
  unfoldable pub tower_hit : Entity F → ℕ → Entity F
  tower_hit (hero h) dmg =
      let h' : Hero F = record h { body = take_damage h.body dmg } in
      if is_alive h'.body then hero h' else hero (add_death h')
  tower_hit (minion m) dmg = minion (record m { body = take_damage m.body dmg })
  tower_hit (tower t) dmg = tower (record t { body = take_damage t.body dmg })
  tower_hit (projectile p) dmg = projectile (record p { body = take_damage p.body dmg })

  -- An entity that is hit.
  unfoldable pub hurt : Entity F → ℕ → Entity F
  hurt e dmg = with_body e (take_damage (body_of e) dmg)

  -- A hero that has died and waits for nothing, in `TickFighting`.
  unfoldable pub bury : Hero F → Hero F
  bury h =
      if not (is_alive h.body) && not (is_respawning h)
      then trigger_respawn (add_death h) 10000
      else h

  unfoldable pub bury_all : Dict (PlayerInfo F) → EntityManager F → EntityManager F
  bury_all [] mgr = mgr
  bury_all ((pid, info) ∷ rest) mgr =
      bury_all rest (elim (as_hero (find_entity mgr info.hero_entity_id)) [
        | none ↦ mgr
        | some h ↦ store_entity mgr info.hero_entity_id (hero (bury h))
      ])

  -- The removal of the projectiles that are done with.
  unfoldable pub is_spent : Option (Entity F) → Bool
  is_spent (some (projectile p)) = p.reached || not (is_alive p.body)
  is_spent other = false

  unfoldable pub spent_ids : List ℕ → EntityManager F → List ℕ
  spent_ids [] mgr = []
  spent_ids (eid ∷ eids) mgr =
      let rest = spent_ids eids mgr in if is_spent (find_entity mgr eid) then eid ∷ rest else rest

  unfoldable pub remove_all : List ℕ → EntityManager F → EntityManager F
  remove_all [] mgr = mgr
  remove_all (eid ∷ eids) mgr = remove_all eids (remove_entity mgr eid)

  unfoldable pub clean_projectiles : EntityManager F → EntityManager F
  clean_projectiles mgr = remove_all (spent_ids (get_by_type mgr projectile_type) mgr) mgr
