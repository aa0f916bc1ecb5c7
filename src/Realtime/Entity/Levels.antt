-- ===== src/Realtime/Entity/Levels.antt =====
-- The levels that experience brings: `AddExp` and `AddKill` of common/cpp/realtime/entity.hpp.
use gmaker.Common.{
  ℕ, zero, suc, ◌+◌, ◌*◌, ◌^◌, ◌≤◌, ◌<◌, ◌≡◌, refl, ap, ◌⊎◌, inl, inr, true, false, ◌&&◌, arith,
  ltb, leb, lt→ltb, if_elim, u32,
}
use gmaker.Realtime.Entity.{Hero, is_alive, exp_to_next, level_up, level_loop, add_exp, add_kill}

-- The experience that it takes from level 1 to a level.
pub spent : ℕ → ℕ
spent zero = 0
spent (suc n) = spent n + n * 100

spent_suc : (n : ℕ) → spent (n + 1) ≡ spent n + n * 100
unfolding spent
spent_suc n = ground arith

-- What gaining experience does: levels are bought until the rest does not suffice, or to the 15th,
-- and each brings 50 hit points and full health.
pub record Levelled {F : Type 0} (h h' : Hero F) : Type 0 where
  pub at_most : h'.level ≤ 15
  pub rises : h.level ≤ h'.level
  pub short : (h'.exp < h'.level * 100) ⊎ (h'.level ≡ 15)
  pub paid : spent h.level + h.exp ≡ spent h'.level + h'.exp
  pub gained : h'.body.max_hp + h.level * 50 ≡ h.body.max_hp + h'.level * 50
  pub healed : (h'.level ≡ h.level × (h'.body.hp ≡ h.body.hp)) ⊎ (h'.body.hp ≡ h'.body.max_hp)
  pub timer : h'.respawn_timer ≡ h.respawn_timer
  pub tally : h'.kills ≡ h.kills × (h'.gold ≡ h.gold)

-- The levels bought after the first one.
level_up-Levelled :
    {F : Type 0} (h h' : Hero F)
    → h.level < 15
    → h.level * 100 ≤ h.exp
    → h.body.max_hp + 50 < 2 ^ 32
    → Levelled (level_up h) h'
    → Levelled h h'
unfolding level_up
level_up-Levelled h h' low enough small l = record {
  at_most = l.at_most;
  rises = omega (arith, l.rises);
  short = l.short;
  paid = omega (arith, l.paid, next_level, spent_suc h.level);
  gained = omega (arith, l.gained, l.rises);
  healed = elim l.healed [
    | inl (same, full) ↦ inr (omega (arith, same, full, l.gained))
    | inr full ↦ inr full
  ];
  timer = l.timer;
  tally = l.tally;
}
  where
    next_level : spent (u32 (h.level + 1)) ≡ spent (h.level + 1)
    next_level = ap spent (omega arith)

-- A round of the loop.
level_loop_step :
    {F : Type 0} (fuel : ℕ) (h : Hero F)
    → h.level < 15
    → h.level * 100 ≤ h.exp
    → level_loop (suc fuel) h ≡ level_loop fuel (level_up h)
unfolding level_loop
level_loop_step fuel h low enough =
    let a : leb (exp_to_next h) h.exp ≡ true = ground arith in rw (a, lt→ltb h.level 15 low) refl

level_loop_lem :
    {F : Type 0} (fuel : ℕ) (h : Hero F)
    → 15 ≤ h.level + fuel
    → h.level ≤ 15
    → h.body.max_hp + fuel * 50 < 2 ^ 32
    → Levelled h (level_loop fuel h)
unfolding level_loop
level_loop_lem zero h enough low small = record {
  at_most = low;
  rises = omega arith;
  short = inr (omega arith);
  paid = refl;
  gained = refl;
  healed = inl (refl, refl);
  timer = refl;
  tally = (refl, refl);
}
level_loop_lem {F} (suc fuel) h enough low small =
    if_elim (λ (x : Hero F). Levelled h x) (leb (exp_to_next h) h.exp && ltb h.level 15)
      (λ e.
        level_up-Levelled h (level_loop fuel (level_up h)) (ground arith) (ground arith)
          (omega arith)
          (level_loop_lem fuel (level_up h) (unfold level_up in ground arith)
            (unfold level_up in ground arith) (unfold level_up in omega arith)))
      (λ e. record {
        at_most = low;
        rises = omega arith;
        short = ground arith;
        paid = refl;
        gained = refl;
        healed = inl (refl, refl);
        timer = refl;
        tally = (refl, refl);
      })

-- For a hero of at most level 15, experience below 2 ^ 32 in sum and at most 2 ^ 31 - 751 hit
-- points, AddExp ends, at level 15 or with less than the next level costs: what the levels cost
-- and what is left is what there was and the new experience; each level brings 50 hit points and
-- full health, and respawn timer, kills and gold stay.
pub add_exp_lem :
    {F : Type 0} (h : Hero F) (exp : ℕ)
    → h.level ≤ 15
    → h.exp + exp < 2 ^ 32
    → h.body.max_hp + 750 < 2 ^ 31
    → Levelled (record h { exp = h.exp + exp }) (add_exp h exp)
unfolding add_exp
add_exp_lem h exp low small hp =
    let e : u32 (h.exp + exp) ≡ h.exp + exp = omega arith in
    rw e (level_loop_lem 15 (record h { exp = h.exp + exp }) (omega arith) low (omega arith))

alive : (hp : ℕ) → 0 < hp → hp < 2 ^ 31 → (ltb 0 hp && ltb hp (2 ^ 31)) ≡ true
alive hp l h = rw (lt→ltb 0 hp l, lt→ltb hp (2 ^ 31) h) refl

-- A dead hero below level 15 that gets a kill whose experience is enough for a level, the
-- experience staying below 2 ^ 32 and the hit points at most 2 ^ 31 - 751, is alive at once, and
-- its respawn timer stays as it is.
pub add_kill-revives :
    {F : Type 0} (h : Hero F)
    → is_alive h.body ≡ false
    → h.level < 15
    → h.level * 100 ≤ h.exp + 200
    → h.exp + 200 < 2 ^ 32
    → h.body.max_hp + 750 < 2 ^ 31
    → (is_alive ((add_kill h).body) ≡ true) × ((add_kill h).respawn_timer ≡ h.respawn_timer)
unfolding add_kill add_exp level_up
add_kill-revives {F} h down low enough small hp =
    let h1 : Hero F = record h {
      kills = u32 (h.kills + 1);
      gold = u32 (h.gold + 200);
      exp = u32 (h.exp + 200);
    } in
    let e : add_kill h ≡ level_loop 14 (level_up h1) = level_loop_step 14 h1 low (omega arith) in
    let l : Levelled (level_up h1) (add_kill h) = rw e (
      level_loop_lem 14 (level_up h1) (unfold level_up in ground arith)
        (unfold level_up in ground arith) (unfold level_up in omega arith)) in
    let up : 0 < (add_kill h).body.hp = elim l.healed [
      | inl (same, full) ↦ omega (arith, full)
      | inr full ↦ omega (arith, full, l.gained, l.rises)
    ] in
    let most : (add_kill h).body.hp < 2 ^ 31 = elim l.healed [
      | inl (same, full) ↦ omega (arith, full)
      | inr full ↦ omega (arith, full, l.gained, l.rises, l.at_most)
    ] in
    (alive _ up most, l.timer)
