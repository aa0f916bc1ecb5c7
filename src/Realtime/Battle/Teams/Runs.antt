-- ===== src/Realtime/Battle/Teams/Runs.antt =====
-- The teams over the messages and ticks of a battle: `OnMessage` and `Tick` of
-- common/cpp/realtime/battle_room.cpp.
use gmaker.Common.{
  ℕ, ◌+◌, ◌-◌, ◌*◌, ◌%◌, ◌^◌, ◌<◌, ◌≡◌, refl, sym, ◌∙◌, subst, inl, inr, Bool, false, Option, none,
  some, List, [], ◌∷◌, ltb, leb, ◌==◌, if◌then◌else◌, Bool-cases, Option-cases, if_elim, some_inj,
  u32, length,
}
use gmaker.Common.Dict.{Dict, find, member}
use gmaker.Realtime.Lockstep.{set_current_frame, try_advance}
use gmaker.Realtime.Entity.{Floats, TeamSide, nobody, blue, red}
use gmaker.Realtime.Entity.Manager.{EntityManager}
use gmaker.Realtime.Entity.Make.{zero_vec}
use gmaker.Realtime.Checkpoint.{
  BattleState, waiting, loading, countdown, fighting, paused, finished,
}
use gmaker.Realtime.Battle.{Config, PlayerInfo, BattleRoom, Sent, new_room, no_roster}
use gmaker.Realtime.Battle.Players.{all_ready}
use gmaker.Realtime.Battle.Scene.{place_heroes, init_battle_scene}
use gmaker.Realtime.Battle.Outcome.{
  change_state, tick_waiting, tick_countdown, winner_of, crystals, finish_for, check_win_condition,
  save_checkpoint,
}
use gmaker.Realtime.Battle.Tick.{
  begin_countdown, tick_loading, fight_frame, settle_frame, close_frame, tick_fighting, dispatch,
  tick,
}
use gmaker.Realtime.Battle.Messages.{
  BattleMessage, player_enter, player_reconnect, player_leave, player_disconnect, hero_move_input,
  hero_cast_skill, battle_ready, room_broadcast, other_message, is_fighting, on_player_disconnect,
  on_player_leave, submit_in_fight, on_hero_move_input, on_hero_cast_skill, on_player_enter,
  handle_reconnect, on_message, BattleEvent, message, next_tick, handle, play,
}
use gmaker.Realtime.Battle.Phases.Plays.{play-new_room}
use gmaker.Realtime.Battle.Teams.{
  on_team, IsTeamed, IsTeamed-same, remove_player-IsTeamed, enter-IsTeamed, lose-IsTeamed,
  ready-IsTeamed, reconnect-IsTeamed, expire-IsTeamed,
}

-- A message that brings a player brings one who is not in the room.
abbrev pub IsFresh : {F : Type 0} {fl : Floats F} → BattleRoom F → BattleEvent fl → Type 0
IsFresh r (message (player_enter pid conn)) = find r.roster.players pid ≡ none
IsFresh r other = Unit {0}

module _ {F : Type 0} (fl : Floats F) where
  -- The same, for each event of a run.
  abbrev pub AreFresh : List (BattleEvent fl) → BattleRoom F → Type 0
  AreFresh [] r = Unit {0}
  AreFresh (e ∷ es) r =
      IsFresh r e × (elim (handle fl r e) [ none ↦ Unit {0} | some (r', sent) ↦ AreFresh es r' ])

  no_roster-IsTeamed : IsTeamed (no_roster {F = F})
  unfolding member find on_team
  no_roster-IsTeamed = record { blues = λ p. refl; reds = λ p. refl }

  place_heroes-teams :
      (players : Dict (PlayerInfo F)) (mgr : EntityManager F) (side : Bool) (p : ℕ)
      → on_team side (find ((place_heroes fl players mgr).0) p) ≡ on_team side (find players p)
  unfolding place_heroes find on_team
  place_heroes-teams [] mgr side p = refl
  place_heroes-teams ((pid, info) ∷ rest) mgr side p = elim (Bool-cases (pid == p)) [
    | inl here ↦ rw here refl
    | inr there ↦ rw there (place_heroes-teams rest _ side p)
  ]

  submit_in_fight-roster :
      (r : BattleRoom F) (pid : ℕ) (input : _) → (submit_in_fight fl r pid input).roster ≡ r.roster
  unfolding submit_in_fight
  submit_in_fight-roster r pid input =
      if_elim (λ (x : BattleRoom F). x.roster ≡ r.roster) (is_fighting r.battle_state) (λ _. refl)
        (λ _. refl)

  on_player_disconnect-IsTeamed :
      (r : BattleRoom F) (pid : ℕ)
      → IsTeamed r.roster
      → IsTeamed ((on_player_disconnect fl r pid).roster)
  unfolding on_player_disconnect
  on_player_disconnect-IsTeamed r pid t = elim (Option-cases (find r.roster.players pid)) [
    | inl missing ↦ rw (missing, on_player_disconnect) t
    | inr (info, there) ↦
        rw (there, on_player_disconnect) (lose-IsTeamed r.roster pid r.battle_frame t)
  ]

  handle_reconnect-IsTeamed :
      (r : BattleRoom F) (pid conn : ℕ)
      → IsTeamed r.roster
      → IsTeamed ((handle_reconnect fl r pid conn).0.roster)
  unfolding handle_reconnect
  handle_reconnect-IsTeamed r pid conn t = elim (Option-cases (find r.roster.players pid)) [
    | inl missing ↦ rw (missing, handle_reconnect) t
    | inr (info, there) ↦ rw (there, handle_reconnect) (reconnect-IsTeamed r.roster pid conn t)
  ]

  on_message-IsTeamed :
      (r : BattleRoom F) (m : BattleMessage F)
      → IsFresh {fl = fl} r (message m)
      → IsTeamed r.roster
      → IsTeamed ((on_message fl r m).0.roster)
  unfolding on_message on_player_enter on_hero_move_input on_hero_cast_skill on_player_leave
  on_message-IsTeamed r (player_enter pid conn) new t =
      enter-IsTeamed r.cfg r.roster pid conn (zero_vec fl) new t
  on_message-IsTeamed r (player_reconnect pid conn) new t = handle_reconnect-IsTeamed r pid conn t
  on_message-IsTeamed r (player_leave pid) new t =
      if_elim (λ (x : BattleRoom F). IsTeamed x.roster) (is_fighting r.battle_state)
        (λ _. on_player_disconnect-IsTeamed r pid t) (λ _. remove_player-IsTeamed r.roster pid t)
  on_message-IsTeamed r (player_disconnect pid) new t = on_player_disconnect-IsTeamed r pid t
  on_message-IsTeamed r (hero_move_input pid seq x z) new t =
      subst IsTeamed (sym (submit_in_fight-roster r pid _)) t
  on_message-IsTeamed r (hero_cast_skill pid seq slot target eid) new t =
      subst IsTeamed (sym (submit_in_fight-roster r pid _)) t
  on_message-IsTeamed r (battle_ready pid) new t = ready-IsTeamed r.roster pid t
  on_message-IsTeamed r (room_broadcast payload) new t = t
  on_message-IsTeamed r other_message new t = t

  finish_for-roster : (r : BattleRoom F) (w : TeamSide) → (finish_for r w).0.roster ≡ r.roster
  unfolding finish_for change_state
  finish_for-roster r nobody = refl
  finish_for-roster r blue = refl
  finish_for-roster r red = refl

  -- Closing a frame only gives up players.
  settle_frame-roster :
      (r : BattleRoom F) (frame : ℕ)
      → IsTeamed r.roster
      → IsTeamed ((settle_frame fl r frame).0.roster)
  unfolding settle_frame check_win_condition save_checkpoint
  settle_frame-roster r frame t =
      let saved : BattleRoom F =
        if frame % r.checkpoint_mgr.interval_frames == 0 then save_checkpoint r else r in
      let same : saved.roster ≡ r.roster =
        if_elim (λ (x : BattleRoom F). x.roster ≡ r.roster)
          (frame % r.checkpoint_mgr.interval_frames == 0) (λ _. refl) (λ _. refl) in
      let w = winner_of (crystals saved.entity_mgr.entities (false, false)) in
      expire-IsTeamed _ frame _ _ (subst IsTeamed (sym (finish_for-roster saved w ∙ same)) t)

  landed :
      (x : BattleRoom F × List (Sent F)) (r' : BattleRoom F) (sent : List (Sent F))
      → IsTeamed (x.0.roster)
      → some x ≡ some (r', sent)
      → IsTeamed r'.roster
  landed x r' sent t h =
      subst (λ (y : BattleRoom F × List (Sent F)). IsTeamed (y.0.roster)) (some_inj h) t

  close_frame-IsTeamed :
      (r : BattleRoom F) (frame : ℕ) (r' : BattleRoom F) (sent : List (Sent F))
      → IsTeamed r.roster
      → close_frame fl r frame ≡ some (r', sent)
      → IsTeamed r'.roster
  unfolding close_frame
  close_frame-IsTeamed r frame r' sent t h =
      elim (Bool-cases (r.checkpoint_mgr.interval_frames == 0)) [
        | inl trap ↦ let e : close_frame fl r frame ≡ none = rw trap refl in cc
        | inr on ↦
            let e : close_frame fl r frame ≡ some (settle_frame fl r frame) = rw on refl in
            landed (settle_frame fl r frame) r' sent (settle_frame-roster r frame t) (sym e ∙ h)
      ]

  tick_waiting-roster : (r : BattleRoom F) → (tick_waiting r).roster ≡ r.roster
  unfolding tick_waiting change_state
  tick_waiting-roster r =
      if_elim (λ (x : BattleRoom F). x.roster ≡ r.roster)
        (leb (u32 (r.cfg.team_size * 2)) (length r.roster.players)) (λ _. refl) (λ _. refl)

  tick_countdown-roster :
      (r : BattleRoom F) (frame : ℕ) → (tick_countdown r frame).roster ≡ r.roster
  unfolding tick_countdown change_state
  tick_countdown-roster r frame =
      if_elim (λ (x : BattleRoom F). x.roster ≡ r.roster)
        ((if ltb 0 r.countdown_remaining_sec
            then r.countdown_remaining_sec - 1
            else r.countdown_remaining_sec)
          == 0)
        (λ _. refl) (λ _. refl)

  tick_loading-IsTeamed :
      (r : BattleRoom F) → IsTeamed r.roster → IsTeamed ((tick_loading fl r).0.roster)
  unfolding tick_loading begin_countdown init_battle_scene change_state
  tick_loading-IsTeamed r t =
      if_elim (λ (x : BattleRoom F × List (Sent F)). IsTeamed (x.0.roster))
        (all_ready r.roster.players)
        (λ _.
          IsTeamed-same r.roster _ refl refl (place_heroes-teams r.roster.players r.entity_mgr) t)
        (λ _. t)

  tick_fighting-IsTeamed :
      (r : BattleRoom F) (frame : ℕ) (r' : BattleRoom F) (sent : List (Sent F))
      → IsTeamed r.roster
      → tick_fighting fl r frame ≡ some (r', sent)
      → IsTeamed r'.roster
  unfolding tick_fighting fight_frame
  tick_fighting-IsTeamed r frame r' sent t h =
      elim (Option-cases (try_advance (set_current_frame r.lockstep frame))) [
        | inl stuck ↦ let e : tick_fighting fl r frame ≡ none = rw (stuck, tick_fighting) refl in cc
        | inr ((e', confirmed), returned) ↦
            let after : BattleRoom F = fight_frame fl (record r { lockstep = e' }) confirmed in
            let e : tick_fighting fl r frame ≡ close_frame fl after frame =
              rw (returned, tick_fighting) refl in
            close_frame-IsTeamed after frame r' sent t (sym e ∙ h)
      ]

  dispatch-IsTeamed :
      (s : BattleState) (r : BattleRoom F) (frame : ℕ) (r' : BattleRoom F) (sent : List (Sent F))
      → IsTeamed r.roster
      → dispatch fl s r frame ≡ some (r', sent)
      → IsTeamed r'.roster
  unfolding dispatch
  dispatch-IsTeamed waiting r frame r' sent t h =
      landed _ r' sent (subst IsTeamed (sym (tick_waiting-roster r)) t) h
  dispatch-IsTeamed loading r frame r' sent t h = landed _ r' sent (tick_loading-IsTeamed r t) h
  dispatch-IsTeamed countdown r frame r' sent t h =
      landed _ r' sent (subst IsTeamed (sym (tick_countdown-roster r frame)) t) h
  dispatch-IsTeamed fighting r frame r' sent t h = tick_fighting-IsTeamed r frame r' sent t h
  dispatch-IsTeamed paused r frame r' sent t h = landed _ r' sent t h
  dispatch-IsTeamed finished r frame r' sent t h = landed _ r' sent t h

  handle-IsTeamed :
      (r : BattleRoom F) (e : BattleEvent fl) (r' : BattleRoom F) (sent : List (Sent F))
      → IsFresh r e
      → IsTeamed r.roster
      → handle fl r e ≡ some (r', sent)
      → IsTeamed r'.roster
  unfolding handle tick
  handle-IsTeamed r (message m) r' sent new t h =
      landed (on_message fl r m) r' sent (on_message-IsTeamed r m new t) h
  handle-IsTeamed r next_tick r' sent new t h = dispatch-IsTeamed r.battle_state _ _ r' sent t h

  play-IsTeamed :
      (es : List (BattleEvent fl)) (r r' : BattleRoom F)
      → AreFresh es r
      → IsTeamed r.roster
      → play fl r es ≡ some r'
      → IsTeamed r'.roster
  unfolding play
  play-IsTeamed [] r r' new t h = subst (λ (x : BattleRoom F). IsTeamed x.roster) (some_inj h) t
  play-IsTeamed (e ∷ es) r r' (new, later) t h = elim (Option-cases (handle fl r e)) [
    | inl stuck ↦ let q : play fl r (e ∷ es) ≡ none = rw (stuck, play) refl in cc
    | inr ((r1, sent), done) ↦
        let q : play fl r (e ∷ es) ≡ play fl r1 es = rw (done, play) refl in
        play-IsTeamed es r1 r' (subst (Later es) done later)
          (handle-IsTeamed r e r1 sent new t done) (sym q ∙ h)
  ]
    where
      Later : List (BattleEvent fl) → Option (BattleRoom F × List (Sent F)) → Type 0
      Later es o = elim o [ none ↦ Unit {0} | some (r', sent) ↦ AreFresh es r' ]

  -- Whatever messages and ticks a new room with a checkpoint interval above 0 gets, fewer than 2 ^
  -- 32 - 34 of them and none that brings a player who is in the room already, each is handled, and
  -- after them the blue list holds exactly the players of the blue team, and the red list all
  -- other players and nobody else.
  pub new_room-IsTeamed :
      (cfg : Config F) (callback : Bool) (es : List (BattleEvent fl))
      → 0 < cfg.checkpoint_interval_frames
      → length es + 34 < 2 ^ 32
      → AreFresh es (new_room cfg callback)
      → (r' : BattleRoom F) × (play fl (new_room cfg callback) es ≡ some r') × IsTeamed r'.roster
  unfolding new_room
  new_room-IsTeamed cfg callback es pos small new =
      let (first, r', played, steps, reached, on) = play-new_room fl cfg callback es pos small in
      let t : IsTeamed (no_roster {F = F}) = no_roster-IsTeamed in
      (r', played, play-IsTeamed es (new_room cfg callback) r' new t played)
