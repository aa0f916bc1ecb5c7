-- ===== src/Realtime/Room.antt =====
-- `Room` of common/cpp/realtime/room.hpp and room.cpp, with the messages of message.hpp. A `float` is its bit
-- pattern; the maps are in the order of their keys, which stands for the unspecified order of
-- `std::unordered_map`; what the callback is given is a list of broadcasts.
pub mod Members
pub mod Broadcasts
mod Tests
use gmaker.Common.{
  ℕ, ◌+◌, Bool, ◌||◌, not, none, some, List, [], ◌∷◌, ◌++◌, leb, ◌==◌, if◌then◌else◌, u32, length,
}
use gmaker.Common.Dict.{Dict, find, put, erase, update}

-- `Vec3`, `PlayerState` and `RoomSnapshot`.
pub record Vec3 : Type 0 where
  pub x : ℕ
  pub y : ℕ
  pub z : ℕ

abbrev pub origin : Vec3
origin = record { x = 0; y = 0; z = 0 }

pub record PlayerState : Type 0 where
  pub player_id : ℕ
  pub pos : Vec3
  pub vel : Vec3
  pub yaw : ℕ
  pub hp : ℕ
  pub anim_state : ℕ

pub record RoomSnapshot : Type 0 where
  pub room_id : ℕ
  pub frame_seq : ℕ
  pub timestamp_ms : ℕ
  pub players : List PlayerState
  pub raw_payload : List ℕ

-- The messages that `OnMessage` tells apart.
pub data Message : Type 0 where
  player_enter : ℕ → Vec3 → ℕ → Message
  player_leave : ℕ → Message
  player_move : ℕ → Vec3 → ℕ → Message
  player_action : ℕ → ℕ → Message
  room_broadcast : List ℕ → Message
  room_tick : ℕ → Message
  other_message : Message

-- `RoomConfig`, as far as a room reads it.
pub record RoomConfig : Type 0 where
  pub room_id : ℕ
  pub max_players : ℕ
  pub enable_aoi : Bool
  pub aoi_radius : ℕ

-- `SpatialIndex` of common/cpp/realtime/aoi.hpp: an interface.
pub record SpatialIndex : Type 1 where
  pub Index : Type 0
  pub clear : Index → Index
  pub insert : Index → ℕ → ℕ → ℕ → Index
  pub query_range : Index → ℕ → ℕ → ℕ → List ℕ

-- What the callback is given: a snapshot and the connections that it goes to.
abbrev pub Broadcast : Type 0
Broadcast = RoomSnapshot × List ℕ

-- The connections and the states under the keys that `ids` names, where there is an entry.
unfoldable pub look_up : {V : Type 0} → Dict V → List ℕ → List V
look_up m [] = []
look_up m (id ∷ ids) = elim (find m id) [ none ↦ look_up m ids | some v ↦ v ∷ look_up m ids ]

-- The values of a map, in order.
unfoldable pub values : {V : Type 0} → Dict V → List V
values [] = []
values ((k, v) ∷ m) = v ∷ values m

module _ (S : SpatialIndex) where
  pub record Room : Type 0 where
    pub cfg : RoomConfig
    pub has_callback : Bool
    pub frame_seq : ℕ
    pub last_tick_ms : ℕ
    pub players : Dict PlayerState
    pub player_to_conn : Dict ℕ
    pub spatial : S.Index

  -- `Room(cfg)`, with the index that it makes.
  unfoldable pub create : RoomConfig → S.Index → Bool → Room
  create cfg index callback = record {
    cfg = cfg;
    has_callback = callback;
    frame_seq = 0;
    last_tick_ms = 0;
    players = [];
    player_to_conn = [];
    spatial = index;
  }

  -- `OnPlayerEnter`, with `IsFull`.
  unfoldable pub on_player_enter : Room → ℕ → Vec3 → ℕ → Room
  on_player_enter r pid spawn_pos conn_id =
      let state : PlayerState = record {
        player_id = pid;
        pos = spawn_pos;
        vel = origin;
        yaw = 0;
        hp = 100;
        anim_state = 0;
      } in
      if leb r.cfg.max_players (length r.players) then r else record r {
        players = put r.players pid state;
        player_to_conn = put r.player_to_conn pid conn_id;
      }

  -- `OnPlayerLeave`.
  unfoldable pub on_player_leave : Room → ℕ → Room
  on_player_leave r pid = record r {
    players = erase r.players pid;
    player_to_conn = erase r.player_to_conn pid;
  }

  -- `OnPlayerMove`.
  unfoldable pub on_player_move : Room → ℕ → Vec3 → ℕ → Room
  on_player_move r pid target_pos target_yaw = record r {
    players = update r.players pid (λ state. record state { pos = target_pos; yaw = target_yaw });
  }

  -- `OnPlayerAction`.
  unfoldable pub on_player_action : Room → ℕ → ℕ → Room
  on_player_action r pid action_id = record r {
    players = update r.players pid (λ state. record state { anim_state = action_id });
  }

  -- `OnRoomBroadcast`.
  unfoldable pub on_room_broadcast : Room → List ℕ → List Broadcast
  on_room_broadcast r payload =
      let conn_ids = values r.player_to_conn in
      let snapshot : RoomSnapshot = record {
        room_id = r.cfg.room_id;
        frame_seq = r.frame_seq;
        timestamp_ms = r.last_tick_ms;
        players = [];
        raw_payload = payload;
      } in
      if not r.has_callback
      then []
      else if length conn_ids == 0
      then []
      else (snapshot, conn_ids) ∷ []

  -- The snapshot of the players that `players` lists.
  unfoldable pub snapshot_of : Room → List PlayerState → RoomSnapshot
  snapshot_of r players = record {
    room_id = r.cfg.room_id;
    frame_seq = r.frame_seq;
    timestamp_ms = r.last_tick_ms;
    players = players;
    raw_payload = [];
  }

  -- The loop of `BroadcastSnapshot` over the players, each with those near.
  unfoldable pub near_each : Room → List PlayerState → List Broadcast
  near_each r [] = []
  near_each r (state ∷ states) =
      let nearby = S.query_range r.spatial state.pos.x state.pos.z r.cfg.aoi_radius in
      (snapshot_of r (look_up r.players nearby), look_up r.player_to_conn nearby)
      ∷ near_each r states

  -- `BroadcastSnapshot`.
  unfoldable pub broadcast_snapshot : Room → List Broadcast
  broadcast_snapshot r =
      if length r.players == 0 || not r.has_callback
      then []
      else if not r.cfg.enable_aoi
      then (snapshot_of r (values r.players), values r.player_to_conn) ∷ []
      else near_each r (values r.players)

  -- The loop of `Tick` that fills the index.
  unfoldable pub insert_each : S.Index → Dict PlayerState → S.Index
  insert_each index [] = index
  insert_each index ((pid, state) ∷ m) = insert_each (S.insert index pid state.pos.x state.pos.z) m

  -- `Tick`.
  unfoldable pub tick : Room → ℕ → Room × List Broadcast
  tick r now_ms =
      let index =
        if r.cfg.enable_aoi then insert_each (S.clear r.spatial) r.players else r.spatial in
      let r' : Room = record r {
        last_tick_ms = now_ms;
        frame_seq = u32 (r.frame_seq + 1);
        spatial = index;
      } in
      if r.last_tick_ms == 0
      then (record r { last_tick_ms = now_ms }, [])
      else (r', broadcast_snapshot r')

  -- `OnMessage`.
  unfoldable pub on_message : Room → Message → Room × List Broadcast
  on_message r (player_enter pid pos conn_id) = (on_player_enter r pid pos conn_id, [])
  on_message r (player_leave pid) = (on_player_leave r pid, [])
  on_message r (player_move pid pos yaw) = (on_player_move r pid pos yaw, [])
  on_message r (player_action pid action_id) = (on_player_action r pid action_id, [])
  on_message r (room_broadcast payload) = (r, on_room_broadcast r payload)
  on_message r (room_tick now_ms) = tick r now_ms
  on_message r other_message = (r, [])

  -- The messages of a room in their order, with all that it broadcasts.
  unfoldable pub on_messages : Room → List Message → Room × List Broadcast
  on_messages r [] = (r, [])
  on_messages r (m ∷ ms) =
      let (r1, out1) = on_message r m in let (r2, out2) = on_messages r1 ms in (r2, out1 ++ out2)
