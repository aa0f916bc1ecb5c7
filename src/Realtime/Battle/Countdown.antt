-- ===== src/Realtime/Battle/Countdown.antt =====
-- The countdown of a battle: `TickCountdown` of common/cpp/realtime/battle_room.cpp.
use gmaker.Common.{
  ℕ, zero, suc, ◌+◌, ◌-◌, ◌^◌, ◌<◌, ◌≡◌, refl, ap, ◌∙◌, inl, inr, Bool, true, false, ◌&&◌, ◌||◌,
  Option, none, some, List, [], ◌∷◌, arith, ltb, ◌==◌, Bool-cases, u32, replicate,
}
use gmaker.Realtime.Lockstep.{insert_all, set_players, tick_frame_counter}
use gmaker.Realtime.Entity.{Floats}
use gmaker.Realtime.Checkpoint.{BattleState, countdown, fighting}
use gmaker.Common.Dict.{Dict, insert, member, member-insert}
use gmaker.Realtime.Battle.{BattleRoom, Roster, Sent, PlayerInfo}
use gmaker.Realtime.Battle.Players.{connected}
use gmaker.Realtime.Battle.Outcome.{change_state, tick_countdown}
use gmaker.Realtime.Battle.Tick.{dispatch, tick}
use gmaker.Realtime.Battle.Messages.{BattleEvent, next_tick, handle, play}

or_swap : (a b c : Bool) → (a || (b || c)) ≡ ((b || a) || c)
or_swap a b c = ground (arith, Bool-cases a, Bool-cases b)

pick : (a b c : Bool) → b ≡ c → (a || b) ≡ (a && true || c)
pick a b c e = ground (arith, Bool-cases a)

skip : (a b : Bool) → b ≡ (a && false || b)
skip a b = ground (arith, Bool-cases a)

or_none : (a : Bool) → (a || false) ≡ a
or_none a = ground (arith, Bool-cases a)

-- Some entry of the player is connected.
unfoldable pub online : {F : Type 0} → Dict (PlayerInfo F) → ℕ → Bool
online [] pid = false
online ((p, info) ∷ rest) pid = p == pid && info.is_connected || online rest pid

member-insert_all :
    (xs s : List ℕ) (pid : ℕ) → member (insert_all xs s) pid ≡ (member xs pid || member s pid)
unfolding insert_all member
member-insert_all [] s pid = refl
member-insert_all (x ∷ xs) s pid =
    member-insert_all xs (insert s x) pid
    ∙ ap (λ b. member xs pid || b) (member-insert s x pid)
    ∙ or_swap (member xs pid) (x == pid) (member s pid)

member-connected :
    {F : Type 0} (m : Dict (PlayerInfo F)) (pid : ℕ) → member (connected m) pid ≡ online m pid
unfolding connected member online
member-connected [] pid = refl
member-connected ((p, info) ∷ rest) pid =
    let others = member-connected rest pid in
    elim (Bool-cases info.is_connected) [
      | inl there ↦
          rw there (pick (p == pid) (member (connected rest) pid) (online rest pid) others)
      | inr gone ↦ rw gone (others ∙ skip (p == pid) (online rest pid))
    ]

module _ {F : Type 0} (fl : Floats F) where
  -- The room at the beginning of a tick.
  begun : BattleRoom F → BattleRoom F
  begun r = record r {
    battle_frame = u32 (r.battle_frame + 1);
    lockstep = tick_frame_counter r.lockstep;
  }

  -- The room after a tick of the countdown.
  counted : BattleRoom F → BattleRoom F
  counted r = tick_countdown (begun r) (u32 (r.battle_frame + 1))

  play_step :
      (r : BattleRoom F) (es : List (BattleEvent fl))
      → r.battle_state ≡ countdown
      → play fl r (next_tick ∷ es) ≡ play fl (counted r) es
  unfolding play handle tick dispatch counted begun
  play_step r es s =
      ap
        (λ (o : Option (BattleRoom F × List (Sent F))).
          let out : Option (BattleRoom F) = elim o [
            | none ↦ none
            | some (r', sent) ↦ play fl r' es
          ] in
          out)
        (ap (λ (st : BattleState). dispatch fl st (begun r) (u32 (r.battle_frame + 1))) s)

  counted_more :
      (r : BattleRoom F) (n : ℕ)
      → r.countdown_remaining_sec ≡ suc (suc n)
      → ((counted r).battle_state ≡ r.battle_state)
        × ((counted r).countdown_remaining_sec ≡ suc n)
        × ((counted r).battle_frame ≡ u32 (r.battle_frame + 1))
        × ((counted r).roster ≡ r.roster)
  unfolding counted tick_countdown begun
  counted_more r n c =
      let p : ltb 0 r.countdown_remaining_sec ≡ true = ground arith in
      let z : (r.countdown_remaining_sec - 1 == 0) ≡ false = ground arith in
      rw (p, z) (refl, omega arith, refl, refl)

  counted_last :
      (r : BattleRoom F)
      → r.countdown_remaining_sec ≡ 1
      → ((counted r).battle_state ≡ fighting)
        × ((counted r).battle_start_frame ≡ u32 (r.battle_frame + 1))
        × ((counted r).lockstep.all_players ≡ insert_all (connected r.roster.players) [])
  unfolding counted tick_countdown begun change_state set_players
  counted_last r c =
      let p : ltb 0 r.countdown_remaining_sec ≡ true = ground arith in
      let z : (r.countdown_remaining_sec - 1 == 0) ≡ true = ground arith in
      rw (p, z) (refl, refl, refl)

  -- The tick that ends the countdown.
  play-beginning :
      (n : ℕ) (r : BattleRoom F)
      → r.battle_state ≡ countdown
      → r.countdown_remaining_sec ≡ suc n
      → r.battle_frame + suc n < 2 ^ 32
      → (r' : BattleRoom F) × (play fl r (replicate (suc n) next_tick) ≡ some r')
        × (r'.battle_state ≡ fighting)
        × (r'.battle_start_frame ≡ r.battle_frame + suc n)
        × (r'.lockstep.all_players ≡ insert_all (connected r.roster.players) [])
  unfolding play
  play-beginning zero r s c small =
      let (f, b, a) = counted_last r c in (counted r, play_step r [] s, f, b ∙ omega arith, a)
  play-beginning (suc n) r s c small =
      let (s1, c1, f1, same) = counted_more r n c in
      let (r', played, f, b, a) = play-beginning n (counted r) (s1 ∙ s) c1 (omega (arith, f1)) in
      (
        r',
        play_step r (replicate (suc n) next_tick) s ∙ played,
        f,
        omega (arith, b, f1),
        a ∙ ap (λ (x : Roster F). insert_all (connected x.players) []) same,
      )

  -- The ticks before it.
  play-counting :
      (m n : ℕ) (r : BattleRoom F)
      → r.battle_state ≡ countdown
      → r.countdown_remaining_sec ≡ m + suc n
      → (r' : BattleRoom F) × (play fl r (replicate m next_tick) ≡ some r')
        × (r'.battle_state ≡ countdown)
        × (r'.countdown_remaining_sec ≡ suc n)
  unfolding play
  play-counting zero n r s c = (r, refl, s, omega arith)
  play-counting (suc m) n r s c =
      let (s1, c1, f1, same) = counted_more r (m + n) (omega arith) in
      let (r', played, f, l) = play-counting m n (counted r) (s1 ∙ s) (omega (arith, c1)) in
      (r', play_step r (replicate m next_tick) s ∙ played, f, l)

  -- A room that counts down from m + n + 1, with no message in between and the frame staying below
  -- 2 ^ 32, still counts after m ticks, with n + 1 left, and begins the fight with tick m + n + 1,
  -- on the frame of that tick; a player is then one of the engine's exactly if the room has an
  -- entry of the player that is connected.
  pub play-countdown :
      (m n pid : ℕ) (r : BattleRoom F)
      → r.battle_state ≡ countdown
      → r.countdown_remaining_sec ≡ suc (m + n)
      → r.battle_frame + suc (m + n) < 2 ^ 32
      → ((r' : BattleRoom F) × (play fl r (replicate m next_tick) ≡ some r')
          × (r'.battle_state ≡ countdown)
          × (r'.countdown_remaining_sec ≡ suc n))
        × ((r' : BattleRoom F) × (play fl r (replicate (suc (m + n)) next_tick) ≡ some r')
            × (r'.battle_state ≡ fighting)
            × (r'.battle_start_frame ≡ r.battle_frame + suc (m + n))
            × (member r'.lockstep.all_players pid ≡ online r.roster.players pid))
  unfolding member
  play-countdown m n pid r s c small =
      let (r', played, f, b, a) = play-beginning (m + n) r s c small in
      (
        play-counting m n r s (omega (arith, c)),
        (
          r',
          played,
          f,
          b,
          ap (λ l. member l pid) a
              ∙ member-insert_all (connected r.roster.players) [] pid
              ∙ or_none (member (connected r.roster.players) pid)
              ∙ member-connected r.roster.players pid,
        ),
      )
