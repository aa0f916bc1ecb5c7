-- ===== src/Gateway/Rooms.antt =====
-- The rooms of the gateway, services/gateway-cpp/main.cpp: `CMD_GW_ROOM_JOIN`, `CMD_GW_ROOM_LEAVE`, the
-- targets of a room broadcast, and what a disconnected client leaves.
pub mod Members
use gmaker.Common.{ℕ, none, some, List, [], ◌==◌, if◌then◌else◌, length}
use gmaker.Common.Dict.{Dict, find, put, erase, insert, remove}

-- `room_members_` and `conn_room_`.
pub record Rooms : Type 0 where
  pub room_members : Dict (List ℕ)
  pub conn_room : Dict ℕ

-- `room_members_[room_id]`, empty where there is none, and the targets of a broadcast.
unfoldable pub members_of : Rooms → ℕ → List ℕ
members_of g room = elim (find g.room_members room) [ none ↦ [] | some members ↦ members ]

-- `CMD_GW_ROOM_JOIN`.
unfoldable pub join_room : Rooms → ℕ → ℕ → Rooms
join_room g room conn = record {
  room_members = put g.room_members room (insert (members_of g room) conn);
  conn_room = put g.conn_room conn room;
}

-- `erase(conn_id)`, and the room erased once it is empty.
unfoldable pub remove_member : Dict (List ℕ) → ℕ → ℕ → Dict (List ℕ)
remove_member m room conn = elim (find m room) [
  | none ↦ m
  | some members ↦
      if length (remove members conn) == 0 then erase m room else put m room (remove members conn)
]

-- `CMD_GW_ROOM_LEAVE`.
unfoldable pub leave_room : Rooms → ℕ → ℕ → Rooms
leave_room g room conn = record {
  room_members = remove_member g.room_members room conn;
  conn_room = erase g.conn_room conn;
}

-- The first part of `OnClientClose` and of its counterparts for WebSocket, KCP and UDP.
unfoldable pub close_client : Rooms → ℕ → Rooms
close_client g conn = elim (find g.conn_room conn) [
  | none ↦ g
  | some room ↦ record {
    room_members = remove_member g.room_members room conn;
    conn_room = erase g.conn_room conn;
  }
]
