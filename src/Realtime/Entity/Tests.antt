-- ===== src/Realtime/Entity/Tests.antt =====
-- A hero of common/cpp/realtime/entity.cpp that gains levels, dies and returns.
use gmaker.Common.{ℕ, ◌+◌, ◌-◌, ◌*◌, ◌≡◌, refl, true, arith}
use gmaker.Realtime.Entity.{idle, blue, Hero, is_alive, add_exp, add_kill}
use gmaker.Realtime.Entity.Make.{new_hero}
use gmaker.Realtime.Entity.Levels.{Levelled, add_exp_lem, add_kill-revives}
use gmaker.Realtime.Entity.Respawn.{hero_ticks, hero_ticks_lem}
use gmaker.Realtime.Whole.{whole}

abbrev novice : Hero ℕ
novice = record (new_hero whole 1 blue 11) { respawn_timer = 0 }

-- The hero after its death, with the timer of `TickFighting`.
abbrev fallen : Hero ℕ
fallen = record novice { body = record (novice.body) { hp = 0 }; respawn_timer = 10000 }

add_exp_lem_example : Levelled (record novice { exp = novice.exp + 700 }) (add_exp novice 700)
unfolding new_hero
add_exp_lem_example = add_exp_lem novice 700 (omega arith) (omega arith) (omega arith)

add_kill-revives_example :
    (is_alive ((add_kill fallen).body) ≡ true)
    × ((add_kill fallen).respawn_timer ≡ fallen.respawn_timer)
unfolding new_hero
add_kill-revives_example =
    add_kill-revives fallen refl (omega arith) (omega arith) (omega arith) (omega arith)

hero_ticks_lem_example :
    (hero_ticks whole 303 fallen 33 ≡ record fallen { respawn_timer = 10000 - 303 * 33 })
    × (hero_ticks whole 304 fallen 33 ≡ record fallen {
      respawn_timer = 0;
      body = record (fallen.body) {
        hp = fallen.body.max_hp;
        state = idle;
        pos = fallen.fountain_pos;
      };
    })
hero_ticks_lem_example = hero_ticks_lem whole 303 fallen 33 refl (omega arith) (omega arith)
