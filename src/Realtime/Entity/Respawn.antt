-- ===== src/Realtime/Entity/Respawn.antt =====
-- The death and the return of a hero: `TakeDamage`, `AddDeath` and `HeroEntity::Tick` of common/cpp/realtime/entity.cpp and entity.hpp.
use gmaker.Common.{
  ℕ, zero, suc, ◌+◌, ◌-◌, ◌*◌, ◌^◌, ◌≤◌, ◌<◌, min, ◌≡◌, refl, ap, ◌∙◌, true, false, arith, ltb,
  ◌==◌,
}
use gmaker.Realtime.Entity.{Floats, idle, Body, Hero, is_alive, take_damage}
use gmaker.Realtime.Entity.Make.{hero_tick, respawn_tick}

-- `TakeDamage` takes the damage off, down to 0.
pub take_damage_lem :
    {F : Type 0} (b : Body F) (dmg : ℕ)
    → b.hp < 2 ^ 31
    → dmg < 2 ^ 31
    → (take_damage b dmg).hp ≡ b.hp - dmg
unfolding take_damage
take_damage_lem b dmg low small = ground arith

-- The ticks of one hero.
unfoldable pub hero_ticks : {F : Type 0} → Floats F → ℕ → Hero F → ℕ → Hero F
hero_ticks fl zero h delta_ms = h
hero_ticks fl (suc n) h delta_ms = hero_ticks fl n (hero_tick fl h delta_ms) delta_ms

-- A dead hero with a timer that the tick does not exhaust only waits.
waiting_tick :
    {F : Type 0} (fl : Floats F) (h : Hero F) (delta_ms : ℕ)
    → h.body.hp ≡ 0
    → delta_ms < h.respawn_timer
    → hero_tick fl h delta_ms ≡ record h { respawn_timer = h.respawn_timer - delta_ms }
unfolding hero_tick respawn_tick
waiting_tick fl h delta_ms down more =
    let d : is_alive h.body ≡ false = ground arith in
    let m : min h.respawn_timer delta_ms ≡ delta_ms = omega arith in
    let z : (h.respawn_timer - delta_ms == 0) ≡ false = ground arith in
    let t : ltb 0 h.respawn_timer ≡ true = ground arith in rw (d, t, m, z) refl

-- The tick that exhausts the timer brings the hero back.
last_tick :
    {F : Type 0} (fl : Floats F) (h : Hero F) (delta_ms : ℕ)
    → h.body.hp ≡ 0
    → 0 < h.respawn_timer
    → h.respawn_timer ≤ delta_ms
    → hero_tick fl h delta_ms ≡ record h {
      respawn_timer = 0;
      body = record (h.body) { hp = h.body.max_hp; state = idle; pos = h.fountain_pos };
    }
unfolding hero_tick respawn_tick
last_tick fl h delta_ms down waits enough =
    let d : is_alive h.body ≡ false = ground arith in
    let m : min h.respawn_timer delta_ms ≡ h.respawn_timer = omega arith in
    let z : (h.respawn_timer - h.respawn_timer == 0) ≡ true = ground arith in
    let t : ltb 0 h.respawn_timer ≡ true = ground arith in rw (d, t, m, z) refl

-- A dead hero with a running timer is dead, where it fell and with what it had, for as many ticks
-- as the timer outlasts, and on the tick that ends the timer it is back: at its fountain, idle and
-- with full health.
pub hero_ticks_lem :
    {F : Type 0} (fl : Floats F) (n : ℕ) (h : Hero F) (delta_ms : ℕ)
    → h.body.hp ≡ 0
    → n * delta_ms < h.respawn_timer
    → h.respawn_timer ≤ n * delta_ms + delta_ms
    → (hero_ticks fl n h delta_ms ≡ record h { respawn_timer = h.respawn_timer - n * delta_ms })
      × (hero_ticks fl (suc n) h delta_ms ≡ record h {
        respawn_timer = 0;
        body = record (h.body) { hp = h.body.max_hp; state = idle; pos = h.fountain_pos };
      })
unfolding hero_ticks
hero_ticks_lem fl zero h delta_ms down waits enough = (
  ap (λ (t : ℕ). record h { respawn_timer = t }) (omega arith),
  last_tick fl h delta_ms down (omega arith) (omega arith),
)
hero_ticks_lem fl (suc n) h delta_ms down waits enough =
    let t = h.respawn_timer - delta_ms in
    let (still, back) =
      hero_ticks_lem fl n (record h { respawn_timer = t }) delta_ms down (omega arith)
        (omega arith) in
    rw (waiting_tick fl h delta_ms down (omega arith))
      (still ∙ ap (λ (w : ℕ). record h { respawn_timer = w }) (omega arith), back)
