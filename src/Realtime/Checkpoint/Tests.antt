-- ===== src/Realtime/Checkpoint/Tests.antt =====
-- Snapshots of common/cpp/realtime/checkpoint.cpp, of a field with one hero of each team.
use gmaker.Common.{ℕ, ◌≡◌, some, [], ◌∷◌, ◌++◌, arith}
use gmaker.Realtime.Entity.{hero, blue, red}
use gmaker.Realtime.Entity.Manager.{EntityManager}
use gmaker.Realtime.Checkpoint.{
  fighting, BattleCheckpoint, make_snapshot, new_manager, get_latest_checkpoint,
}
use gmaker.Realtime.Checkpoint.Keeps.{last_of, save_all, save_all_lem}
use gmaker.Realtime.Whole.{whole}
use gmaker.Realtime.Entity.Make.{new_hero}

abbrev field : EntityManager ℕ
field = record {
  entities =
      (1, hero (record (new_hero whole 1 blue 11) { kills = 3; deaths = 1 }))
      ∷ (2, hero (record (new_hero whole 2 red 12) { kills = 1; deaths = 2 }))
      ∷ [];
  next_entity_id = 3;
}

abbrev at : ℕ → BattleCheckpoint ℕ
at frame = make_snapshot frame 0 fighting field

save_all_lem_example :
    ((save_all (new_manager 60 2) ((at 60 ∷ at 120 ∷ []) ++ (at 180 ∷ []))).checkpoints
      ≡ last_of 2 ((at 60 ∷ at 120 ∷ []) ++ (at 180 ∷ [])))
    × (get_latest_checkpoint (save_all (new_manager 60 2) ((at 60 ∷ at 120 ∷ []) ++ (at 180 ∷ [])))
        ≡ some (at 180))
save_all_lem_example = save_all_lem 60 2 (at 60 ∷ at 120 ∷ []) (at 180) (omega arith)
