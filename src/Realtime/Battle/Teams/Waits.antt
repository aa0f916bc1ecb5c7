-- ===== src/Realtime/Battle/Teams/Waits.antt =====
-- Players who are waited for: `OnPlayerDisconnect` and the last loop of `TickFighting` in
-- common/cpp/realtime/battle_room.cpp.
use gmaker.Common.{
  ℕ, ◌+◌, ◌-◌, ◌^◌, ◌≡◌, refl, sym, ap, ◌∙◌, inl, inr, Bool, true, false, none, some, List, [], ◌∷◌,
  ltb, ◌==◌, ==→eq, ==_self, Bool-cases, Option-cases, if_elim, some_inj, u32,
}
use gmaker.Common.Dict.{Dict, find, find-put}
use gmaker.Realtime.Entity.{Vec, blue, same_team}
use gmaker.Realtime.Battle.{Config, PlayerInfo, DisconnectInfo, Roster}
use gmaker.Realtime.Battle.Players.{
  add_player_to_team, remove_entry, remove_player, next_team, spawn_for, is_full, enter_new, enter,
  lose_entry, lose, expire,
}
use gmaker.Realtime.Battle.Teams.Twice.{
  newcomer, newcomer-connected, enter_new-find, remove_player_found, remove_player-none,
  remove_player_self,
}

module _ {F : Type 0} where
  expire-none :
      (waits : List (ℕ × DisconnectInfo)) (frame timeout : ℕ) (r : Roster F) (p : ℕ)
      → find r.players p ≡ none
      → find ((expire waits frame timeout r).players) p ≡ none
  unfolding expire
  expire-none [] frame timeout r p gone = gone
  expire-none ((pid, dc) ∷ rest) frame timeout r p gone = expire-none rest frame timeout _ p (
      if_elim (λ (x : Roster F). find x.players p ≡ none)
        (ltb timeout (u32 (frame + 2 ^ 32 - dc.disconnect_frame)))
        (λ _. remove_player-none r pid p gone) (λ _. gone))

  -- A player who waits for too long is given up.
  expire-find :
      (waits : Dict DisconnectInfo) (frame timeout : ℕ) (r : Roster F) (p : ℕ) (dc : DisconnectInfo)
      → find waits p ≡ some dc
      → ltb timeout (u32 (frame + 2 ^ 32 - dc.disconnect_frame)) ≡ true
      → find ((expire waits frame timeout r).players) p ≡ none
  unfolding expire find
  expire-find [] frame timeout r p dc there late = cc
  expire-find ((pid, d) ∷ rest) frame timeout r p dc there late = elim (Bool-cases (pid == p)) [
    | inl here ↦
        let same : d ≡ dc = some_inj (sym (rw here refl) ∙ there) in
        expire-none rest frame timeout _ p (
          if_elim (λ (x : Roster F). find x.players p ≡ none)
            (ltb timeout (u32 (frame + 2 ^ 32 - d.disconnect_frame)))
            (λ _.
              ap (find ((remove_player r pid).players)) (sym (==→eq pid p here))
              ∙ remove_player_self r pid)
            (λ soon. cc))
    | inr elsewhere ↦ expire-find rest frame timeout _ p dc (sym (rw elsewhere refl) ∙ there) late
  ]
    where
      is_late : DisconnectInfo → Bool
      is_late d = ltb timeout (u32 (frame + 2 ^ 32 - d.disconnect_frame))

  remove_player-waits :
      (r : Roster F) (pid : ℕ) → (remove_player r pid).disconnected_players ≡ r.disconnected_players
  unfolding remove_player remove_entry
  remove_player-waits r pid = elim (Option-cases (find r.players pid)) [
    | inl missing ↦ rw (missing, remove_player) refl
    | inr (info, there) ↦
        ap (λ (x : Roster F). x.disconnected_players) (remove_player_found r pid info there)
        ∙ if_elim (λ (x : Roster F). x.disconnected_players ≡ r.disconnected_players)
            (same_team info.team blue) (λ _. refl) (λ _. refl)
  ]

  enter_new-waits :
      (cfg : Config F) (r : Roster F) (pid conn : ℕ) (origin : Vec F)
      → (enter_new cfg r pid conn origin).disconnected_players ≡ r.disconnected_players
  unfolding enter_new add_player_to_team
  enter_new-waits cfg r pid conn origin =
      if_elim (λ (x : Roster F). x.disconnected_players ≡ r.disconnected_players)
        (same_team (next_team r) blue) (λ _. refl) (λ _. refl)

  lose-waits :
      (r : Roster F) (pid old : ℕ) (info : PlayerInfo F)
      → find r.players pid ≡ some info
      → find ((lose r pid old).disconnected_players) pid
        ≡ some (record { disconnect_frame = old; hero_entity_id = info.hero_entity_id })
  unfolding lose lose_entry
  lose-waits r pid old info there =
      let e : lose r pid old ≡ lose_entry r pid old info = rw (there, lose) refl in
      ap (λ (x : Roster F). find x.disconnected_players pid) e
      ∙ find-put r.disconnected_players pid _ pid
      ∙ rw (==_self pid) refl

  -- After a player of the room has lost the connection at a frame, was removed and has entered
  -- anew, while there is room, the player is connected, but a scan for expired waits at a frame at
  -- which the old wait is over gives the player up.
  pub expire-enter :
      (cfg : Config F) (r : Roster F) (pid conn old frame timeout : ℕ) (origin : Vec F)
      (info : PlayerInfo F)
      → find r.players pid ≡ some info
      → is_full cfg (remove_player (lose r pid old) pid) ≡ false
      → ltb timeout (u32 (frame + 2 ^ 32 - old)) ≡ true
      → (back : PlayerInfo F) × (find
            ((enter cfg (remove_player (lose r pid old) pid) pid conn origin).players)
            pid
          ≡ some back)
        × (back.is_connected ≡ true)
        × (find
              ((expire
                ((enter cfg
                  (remove_player (lose r pid old) pid)
                  pid
                  conn
                  origin).disconnected_players)
                frame
                timeout
                (enter cfg (remove_player (lose r pid old) pid) pid conn origin)).players)
              pid
            ≡ none)
  unfolding enter
  expire-enter cfg r pid conn old frame timeout origin info there room late =
      let gone = remove_player (lose r pid old) pid in
      let r2 = enter_new cfg gone pid conn origin in
      let waits : find r2.disconnected_players pid
          ≡ some (record { disconnect_frame = old; hero_entity_id = info.hero_entity_id }) =
        ap (λ m. find m pid)
          (enter_new-waits cfg gone pid conn origin ∙ remove_player-waits (lose r pid old) pid)
        ∙ lose-waits r pid old info there in
      rw room (
        newcomer pid (next_team gone) (spawn_for cfg gone (next_team gone) origin) conn,
        enter_new-find cfg gone pid conn origin,
        newcomer-connected pid _ _ conn,
        expire-find r2.disconnected_players frame timeout r2 pid _ waits late,
      )
