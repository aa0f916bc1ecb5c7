-- ===== src/Gateway/Responses.antt =====
-- The way of a packet through the gateway, services/gateway-cpp/main.cpp: the number of the connection is put in
-- front of a client's payload by `OnClientPacket`, and `OnUpstreamPacket` sends a response to the
-- connection, or to the members of the room, that stands in front of it.
pub mod Echo
use gmaker.Common.{
  ℕ, ◌+◌, ◌-◌, ◌^◌, bit_and, Bool, true, false, ◌||◌, not, Option, none, some, List, [], ◌∷◌, ◌++◌,
  ltb, leb, ◌==◌, if◌then◌else◌, u32, length, drop, replicate, blit,
}
use gmaker.Common.Dict.{Dict, member}
use gmaker.Net.Bytes.{write_u64_be, read_u64_be}
use gmaker.Net.Packet.{header_size, encrypt, room_bcast, has_flag, or_flag}
use gmaker.Crypto.AesGcm.{Gcm}
use gmaker.Crypto.Session.{encrypt_packet_payload}
use gmaker.Gateway.Rooms.{Rooms, members_of, join_room, leave_room}
use gmaker.Gateway.Players.{Players, Effect, respond, Response, short, body, on_bind_response}
use gmaker.Gateway.Sessions.{PlainPacket, get_session_key}

-- The packet that `OnClientPacket` forwards.
unfoldable pub forwarded : ℕ → PlainPacket → PlainPacket
forwarded conn pkt =
    let zeros = replicate (length pkt.payload + 8) 0 in
    let extended = blit (write_u64_be zeros 0 conn) 8 pkt.payload in
    record {
      header = record (pkt.header) { length_field = u32 (header_size + u32 (length extended)) };
      payload = extended;
    }

-- The connections of the gateway by their kinds, and the session keys.
pub record Clients : Type 0 where
  pub clients : List ℕ
  pub ws_clients : List ℕ
  pub kcp_clients : List ℕ
  pub udp_clients : List ℕ
  pub sessions : Dict (List ℕ)

-- A packet that waits in the coalescer, and one that is sent at once.
pub data Delivery : Type 0 where
  enqueue : ℕ → PlainPacket → Delivery
  send : ℕ → PlainPacket → Delivery

-- `plain_res`: the response without the first eight bytes and the ENCRYPT flag.
pub plain_response : PlainPacket → PlainPacket
plain_response pkt = record {
  header = record (pkt.header) {
    flags = bit_and pkt.header.flags (2 ^ 32 - 1 - 1);
    length_field = u32 (header_size + u32 (length pkt.payload - 8));
  };
  payload = drop 8 pkt.payload;
}

-- `build_response_for`, with what `RAND_bytes` gives for the target.
pub build_response_for :
    Gcm → (ℕ → Option (List ℕ)) → Dict (List ℕ) → PlainPacket → ℕ → Option PlainPacket
build_response_for g random sessions plain target =
    let sealed : Option PlainPacket =
      elim (encrypt_packet_payload g (random target) (get_session_key sessions target)
        plain.payload) [
          | none ↦ none
          | some m ↦ some (record {
            header = record (plain.header) {
              length_field = u32 (header_size + u32 (length m));
              flags = or_flag plain.header.flags encrypt;
            };
            payload = m;
          })
        ] in
    if length plain.payload == 0
    then some (record plain { header = record (plain.header) { length_field = header_size } })
    else if length (get_session_key sessions target) == 0
    then none
    else sealed

-- `enqueue_to_client`.
pub enqueue_to_client : Clients → ℕ → PlainPacket → List Delivery
enqueue_to_client c target response =
    if not (member c.clients target)
    then []
    else if member c.ws_clients target
    then enqueue target response ∷ []
    else if member c.kcp_clients target || member c.udp_clients target
    then send target response ∷ []
    else enqueue target response ∷ []

-- The loop over the targets.
pub deliver : Gcm → (ℕ → Option (List ℕ)) → Clients → PlainPacket → List ℕ → List Delivery
deliver g random c plain [] = []
deliver g random c plain (target ∷ targets) =
    let rest = deliver g random c plain targets in
    elim (build_response_for g random c.sessions plain target) [
      | none ↦ rest
      | some response ↦ enqueue_to_client c target response ++ rest
    ]

-- The last part of `OnUpstreamPacket`.
pub on_response : Gcm → (ℕ → Option (List ℕ)) → Clients → Rooms → PlainPacket → List Delivery
on_response g random c rooms pkt =
    let first = read_u64_be pkt.payload 0 in
    let targets =
      if has_flag pkt.header.flags room_bcast then members_of rooms first else first ∷ [] in
    if ltb (length pkt.payload) 8 then [] else deliver g random c (plain_response pkt) targets

abbrev pub cmd_gw_room_join : ℕ
cmd_gw_room_join = 0x1010

abbrev pub cmd_gw_room_leave : ℕ
cmd_gw_room_leave = 0x1011

abbrev pub cmd_gw_player_bind : ℕ
cmd_gw_player_bind = 0x1020

-- `CMD_GW_ROOM_JOIN` and `CMD_GW_ROOM_LEAVE`.
pub on_room_join : Rooms → PlainPacket → Rooms
on_room_join rooms pkt =
    if leb 16 (length pkt.payload)
    then join_room rooms (read_u64_be pkt.payload 0) (read_u64_be pkt.payload 8)
    else rooms

pub on_room_leave : Rooms → PlainPacket → Rooms
on_room_leave rooms pkt =
    if leb 16 (length pkt.payload)
    then leave_room rooms (read_u64_be pkt.payload 0) (read_u64_be pkt.payload 8)
    else rooms

-- Whether the bind response is left to the forwarding of responses.
pub is_forwarded : List Effect → Bool
is_forwarded [] = false
is_forwarded (respond conn ∷ effects) = true
is_forwarded (_ ∷ effects) = is_forwarded effects

-- The bind response, with the code of `PlayerBindRes`, if it can be parsed.
pub read_response : Option ℕ → PlainPacket → Response
read_response parsed pkt =
    if leb 8 (length pkt.payload) then body (read_u64_be pkt.payload 0) parsed else short

-- `OnUpstreamPacket`: the rooms, the players, what is done about them, and what is sent.
pub on_upstream_packet :
    Gcm
    → (ℕ → Option (List ℕ))
    → Clients
    → Rooms
    → Players
    → Option ℕ
    → PlainPacket
    → Rooms × Players × List Effect × List Delivery
on_upstream_packet g random c rooms players parsed pkt =
    let sent = on_response g random c rooms pkt in
    let (players', effects) =
      on_bind_response players pkt.header.seq_id (read_response parsed pkt) in
    if pkt.header.cmd_id == cmd_gw_room_join
    then (on_room_join rooms pkt, players, [], [])
    else if pkt.header.cmd_id == cmd_gw_room_leave
    then (on_room_leave rooms pkt, players, [], [])
    else if pkt.header.cmd_id == cmd_gw_player_bind
    then (rooms, players', effects, if is_forwarded effects then sent else [])
    else (rooms, players, [], sent)
