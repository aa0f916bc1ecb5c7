-- ===== src/Realtime/Entity/Manager.antt =====
-- `EntityManager` of common/cpp/realtime/entity.hpp and entity.cpp.
use gmaker.Common.{ℕ, ◌+◌, Option, List, [], ◌∷◌, ◌==◌, if◌then◌else◌, u64}
use gmaker.Common.Dict.{Dict, find, put, erase}
use gmaker.Realtime.Entity.{EntityType, type_code, Entity, type_of}

-- `EntityManager`: the entities in the order of their ids, in which the model iterates.
pub record EntityManager (F : Type 0) : Type 0 where
  pub entities : Dict (Entity F)
  pub next_entity_id : ℕ

module _ {F : Type 0} where
  -- The new entity under its id, and `FindEntity` and `RemoveEntity`.
  unfoldable pub add_entity : EntityManager F → ℕ → Entity F → EntityManager F
  add_entity mgr eid e = record mgr { entities = put mgr.entities eid e }

  unfoldable pub find_entity : EntityManager F → ℕ → Option (Entity F)
  find_entity mgr eid = find mgr.entities eid

  unfoldable pub remove_entity : EntityManager F → ℕ → EntityManager F
  remove_entity mgr eid = record mgr { entities = erase mgr.entities eid }

  -- `NextEntityId`.
  unfoldable pub next_id : EntityManager F → EntityManager F × ℕ
  next_id mgr = (record mgr { next_entity_id = u64 (mgr.next_entity_id + 1) }, mgr.next_entity_id)

  -- `GetByType`, as the ids of the entities.
  unfoldable pub ids_of : EntityType → Dict (Entity F) → List ℕ
  ids_of ty [] = []
  ids_of ty ((eid, e) ∷ rest) =
      let others = ids_of ty rest in
      if type_code (type_of e) == type_code ty then eid ∷ others else others

  unfoldable pub get_by_type : EntityManager F → EntityType → List ℕ
  get_by_type mgr ty = ids_of ty mgr.entities
