-- ===== src/Realtime/Battle/Players.antt =====
-- The players of a battle: `AddPlayerToTeam`, `RemovePlayer` and the handlers of entering, leaving and
-- connections of common/cpp/realtime/battle_room.cpp, as far as they change the players.
use gmaker.Common.{
  ℕ, ◌+◌, ◌-◌, ◌*◌, ◌%◌, ◌^◌, Bool, true, false, ◌&&◌, not, none, some, List, [], ◌∷◌, ◌++◌, ltb,
  leb, if◌then◌else◌, u32, length, get_or,
}
use gmaker.Common.Dict.{Dict, find, put, erase, update, remove}
use gmaker.Realtime.Entity.{Vec, TeamSide, nobody, blue, red, same_team}
use gmaker.Realtime.Battle.{Config, PlayerInfo, DisconnectInfo, Roster}

module _ {F : Type 0} where
  -- `AddPlayerToTeam`.
  unfoldable pub add_player_to_team : Roster F → ℕ → TeamSide → Vec F → Roster F
  add_player_to_team r pid team spawn_pos =
      let info : PlayerInfo F = record {
        player_id = pid;
        conn_id = 0;
        team = team;
        hero_entity_id = 0;
        is_connected = true;
        is_ready = false;
        spawn_pos = spawn_pos;
      } in
      let added : Roster F = record r { players = put r.players pid info } in
      if same_team team blue
      then record added { blue_players = r.blue_players ++ (pid ∷ []) }
      else record added { red_players = r.red_players ++ (pid ∷ []) }

  -- `RemovePlayer` of a player with this entry.
  unfoldable pub remove_entry : Roster F → ℕ → PlayerInfo F → Roster F
  remove_entry r pid info =
      let gone : Roster F = record r {
        players = erase r.players pid;
        conn_to_player = erase r.conn_to_player info.conn_id;
      } in
      if same_team info.team blue
      then record gone { blue_players = remove r.blue_players pid }
      else record gone { red_players = remove r.red_players pid }

  -- `RemovePlayer`.
  unfoldable pub remove_player : Roster F → ℕ → Roster F
  remove_player r pid = elim (find r.players pid) [ none ↦ r | some info ↦ remove_entry r pid info ]

  -- `GetPlayerTeam`.
  unfoldable pub get_player_team : Roster F → ℕ → TeamSide
  get_player_team r pid = elim (find r.players pid) [ none ↦ nobody | some info ↦ info.team ]

  -- The team of the next player, the blue one first.
  unfoldable pub next_team : Roster F → TeamSide
  next_team r = if leb (length r.blue_players) (length r.red_players) then blue else red

  -- The spawn point of the next player of a team, with a default.
  unfoldable pub spawn_point : List (Vec F) → ℕ → Vec F → Vec F
  spawn_point [] n origin = origin
  spawn_point (p ∷ ps) n origin = get_or (p ∷ ps) (n % length (p ∷ ps)) origin

  unfoldable pub spawn_for : Config F → Roster F → TeamSide → Vec F → Vec F
  spawn_for cfg r team origin =
      if same_team team blue
      then spawn_point cfg.blue_spawn_pts (length r.blue_players) origin
      else spawn_point cfg.red_spawn_pts (length r.red_players) origin

  -- `players_.size() >= battle_cfg_.team_size * 2`.
  unfoldable pub is_full : Config F → Roster F → Bool
  is_full cfg r = leb (u32 (cfg.team_size * 2)) (length r.players)

  -- `OnPlayerEnter`.
  unfoldable pub enter_new : Config F → Roster F → ℕ → ℕ → Vec F → Roster F
  enter_new cfg r pid conn origin =
      let team = next_team r in
      let added = add_player_to_team r pid team (spawn_for cfg r team origin) in
      record added {
        players = update added.players pid (λ info. record info { conn_id = conn });
        conn_to_player = put added.conn_to_player conn pid;
      }

  unfoldable pub enter : Config F → Roster F → ℕ → ℕ → Vec F → Roster F
  enter cfg r pid conn origin = if is_full cfg r then r else enter_new cfg r pid conn origin

  -- The entry of a player whose connection is lost, and the wait for a reconnection.
  unfoldable pub lose_entry : Roster F → ℕ → ℕ → PlayerInfo F → Roster F
  lose_entry r pid frame info = record r {
    players = update r.players pid (λ i. record i { is_connected = false });
    disconnected_players =
        put r.disconnected_players pid
          (record { disconnect_frame = frame; hero_entity_id = info.hero_entity_id });
  }

  unfoldable pub lose : Roster F → ℕ → ℕ → Roster F
  lose r pid frame = elim (find r.players pid) [
    | none ↦ r
    | some info ↦ lose_entry r pid frame info
  ]

  -- `OnBattleReady`.
  unfoldable pub ready : Roster F → ℕ → Roster F
  ready r pid = record r { players = update r.players pid (λ i. record i { is_ready = true }) }

  -- The part of `HandleReconnect` for a player of the room.
  unfoldable pub reconnect : Roster F → ℕ → ℕ → Roster F
  reconnect r pid conn = record r {
    players = update r.players pid (λ i. record i { conn_id = conn; is_connected = true });
    conn_to_player = put r.conn_to_player conn pid;
    disconnected_players = erase r.disconnected_players pid;
  }

  -- The last loop of `TickFighting`, over the players that were waited for when it began.
  unfoldable pub expire : List (ℕ × DisconnectInfo) → ℕ → ℕ → Roster F → Roster F
  expire [] frame timeout r = r
  expire ((pid, dc) ∷ rest) frame timeout r =
      let gone = remove_player r pid in
      let less : Roster F = record gone {
        disconnected_players = erase gone.disconnected_players pid;
      } in
      expire rest frame timeout
        (if ltb timeout (u32 (frame + 2 ^ 32 - dc.disconnect_frame)) then less else r)

  -- The players in `TickLoading`: whether no connected one is unready.
  unfoldable pub all_ready : Dict (PlayerInfo F) → Bool
  all_ready [] = true
  all_ready ((pid, info) ∷ rest) =
      let others = all_ready rest in
      if not info.is_ready && info.is_connected then false else others

  -- The connected players, by player and by connection.
  unfoldable pub connected : Dict (PlayerInfo F) → List ℕ
  connected [] = []
  connected ((pid, info) ∷ rest) =
      let others = connected rest in if info.is_connected then pid ∷ others else others

  unfoldable pub connections : Dict (PlayerInfo F) → List ℕ
  connections [] = []
  connections ((pid, info) ∷ rest) =
      let others = connections rest in if info.is_connected then info.conn_id ∷ others else others
