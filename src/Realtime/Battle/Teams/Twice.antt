-- ===== src/Realtime/Battle/Teams/Twice.antt =====
-- Players who enter a battle again: `OnPlayerEnter` and `RemovePlayer` in common/cpp/realtime/battle_room.cpp.
use gmaker.Common.{
  ℕ, ◌<◌, ◌≡◌, refl, ap, ◌∙◌, inl, inr, true, false, none, some, ◌==◌, lt→leb, ==_self,
  Option-cases, if_eq, if_elim, length,
}
use gmaker.Common.Dict.{find, put, erase, member, find-put, find-erase, find-update}
use gmaker.Realtime.Entity.{Vec, TeamSide, blue, red, same_team, team_code}
use gmaker.Realtime.Battle.{Config, PlayerInfo, Roster}
use gmaker.Realtime.Battle.Players.{
  add_player_to_team, remove_entry, remove_player, next_team, spawn_for, is_full, enter_new, enter,
}

module _ {F : Type 0} where
  -- The entry of a player who has just entered.
  pub newcomer : ℕ → TeamSide → Vec F → ℕ → PlayerInfo F
  newcomer pid team at conn = record {
    player_id = pid;
    conn_id = conn;
    team = team;
    hero_entity_id = 0;
    is_connected = true;
    is_ready = false;
    spawn_pos = at;
  }

  newcomer-team :
      (pid : ℕ) (team : TeamSide) (at : Vec F) (conn : ℕ) → (newcomer pid team at conn).team ≡ team
  unfolding newcomer
  newcomer-team pid team at conn = refl

  pub newcomer-connected :
      (pid : ℕ) (team : TeamSide) (at : Vec F) (conn : ℕ)
      → (newcomer pid team at conn).is_connected ≡ true
  unfolding newcomer
  newcomer-connected pid team at conn = refl

  add_player_to_team-find :
      (r : Roster F) (pid : ℕ) (team : TeamSide) (at : Vec F)
      → find ((add_player_to_team r pid team at).players) pid ≡ some (newcomer pid team at 0)
  unfolding add_player_to_team newcomer
  add_player_to_team-find r pid team at =
      if_elim (λ (x : Roster F). find x.players pid ≡ some (newcomer pid team at 0))
        (same_team team blue) (λ _. found) (λ _. found)
    where
      found : find (put r.players pid (newcomer pid team at 0)) pid ≡ some (newcomer pid team at 0)
      found = find-put r.players pid _ pid ∙ rw (==_self pid) refl

  pub enter_new-find :
      (cfg : Config F) (r : Roster F) (pid conn : ℕ) (origin : Vec F)
      → find ((enter_new cfg r pid conn origin).players) pid
        ≡ some (newcomer pid (next_team r) (spawn_for cfg r (next_team r) origin) conn)
  unfolding enter_new newcomer
  enter_new-find cfg r pid conn origin =
      let at = spawn_for cfg r (next_team r) origin in
      let added = add_player_to_team r pid (next_team r) at in
      find-update added.players pid (λ info. record info { conn_id = conn }) pid
      ∙ rw (==_self pid, add_player_to_team-find r pid (next_team r) at) refl

  enter_new-blue_players :
      (cfg : Config F) (r : Roster F) (pid conn : ℕ) (origin : Vec F)
      → next_team r ≡ red
      → (enter_new cfg r pid conn origin).blue_players ≡ r.blue_players
  unfolding enter_new add_player_to_team same_team team_code
  enter_new-blue_players cfg r pid conn origin team =
      ap (λ (t : TeamSide). let x : Roster F = enter_as cfg r pid conn origin t in x.blue_players)
        team
    where
      enter_as : Config F → Roster F → ℕ → ℕ → Vec F → TeamSide → Roster F
      enter_as cfg r pid conn origin t = add_player_to_team r pid t (spawn_for cfg r t origin)

  pub remove_player_found :
      (r : Roster F) (pid : ℕ) (info : PlayerInfo F)
      → find r.players pid ≡ some info
      → remove_player r pid ≡ remove_entry r pid info
  unfolding remove_player
  remove_player_found r pid info there = rw (there, remove_player) refl

  remove_entry-players :
      (r : Roster F) (pid : ℕ) (info : PlayerInfo F)
      → (remove_entry r pid info).players ≡ erase r.players pid
  unfolding remove_entry
  remove_entry-players r pid info =
      if_elim (λ (x : Roster F). x.players ≡ erase r.players pid) (same_team info.team blue)
        (λ _. refl) (λ _. refl)

  -- Removing a player brings nobody.
  pub remove_player-none :
      (r : Roster F) (pid p : ℕ)
      → find r.players p ≡ none
      → find ((remove_player r pid).players) p ≡ none
  unfolding remove_player
  remove_player-none r pid p gone = elim (Option-cases (find r.players pid)) [
    | inl missing ↦ rw (missing, remove_player) gone
    | inr (info, there) ↦
        ap (λ (x : Roster F). find x.players p) (remove_player_found r pid info there)
        ∙ ap (λ m. find m p) (remove_entry-players r pid info)
        ∙ find-erase r.players pid p
        ∙ if_eq (pid == p) refl gone
  ]

  pub remove_player_self :
      (r : Roster F) (pid : ℕ) → find ((remove_player r pid).players) pid ≡ none
  unfolding remove_player
  remove_player_self r pid = elim (Option-cases (find r.players pid)) [
    | inl missing ↦ ap (λ (x : Roster F). find x.players pid) (unmoved missing) ∙ missing
    | inr (info, there) ↦
        ap (λ (x : Roster F). find x.players pid) (remove_player_found r pid info there)
        ∙ ap (λ m. find m pid) (remove_entry-players r pid info)
        ∙ find-erase r.players pid pid
        ∙ rw (==_self pid) refl
  ]
    where
      unmoved : find r.players pid ≡ none → remove_player r pid ≡ r
      unmoved missing = rw (missing, remove_player) refl

  remove_entry-blue_players :
      (r : Roster F) (pid : ℕ) (info : PlayerInfo F)
      → info.team ≡ red
      → (remove_entry r pid info).blue_players ≡ r.blue_players
  unfolding remove_entry same_team team_code
  remove_entry-blue_players r pid info team =
      let d : same_team info.team blue ≡ false = ap (λ (t : TeamSide). same_team t blue) team in
      if_elim (λ (x : Roster F). x.blue_players ≡ r.blue_players) (same_team info.team blue)
        (λ e. cc) (λ _. refl)

  -- A player of the blue team who enters again, while there is room and the red team is the
  -- smaller one, and who then is removed, is no player any more but stays in the list of the blue
  -- team.
  pub enter-remove_player :
      (cfg : Config F) (r : Roster F) (pid conn : ℕ) (origin : Vec F)
      → is_full cfg r ≡ false
      → member r.blue_players pid ≡ true
      → length r.red_players < length r.blue_players
      → (find ((remove_player (enter cfg r pid conn origin) pid).players) pid ≡ none)
        × (member ((remove_player (enter cfg r pid conn origin) pid).blue_players) pid ≡ true)
  unfolding enter next_team
  enter-remove_player cfg r pid conn origin room listed more =
      let r1 = enter_new cfg r pid conn origin in
      let team : next_team r ≡ red =
        rw (lt→leb (length r.blue_players) (length r.red_players) more) refl in
      let found = enter_new-find cfg r pid conn origin in
      let same : (remove_player r1 pid).blue_players ≡ r.blue_players =
        ap (λ (x : Roster F). x.blue_players) (remove_player_found r1 pid _ found)
        ∙ remove_entry-blue_players r1 pid _ (newcomer-team pid (next_team r) _ conn ∙ team)
        ∙ enter_new-blue_players cfg r pid conn origin team in
      rw room (remove_player_self r1 pid, ap (λ l. member l pid) same ∙ listed)
