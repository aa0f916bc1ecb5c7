-- ===== src/Gateway/Tests.antt =====
-- The theorems on the gateway at concrete states.
use gmaker.Common.{
  ℕ, ◌+◌, ◌-◌, ◌^◌, bit_and, ◌≡◌, refl, sym, ap, true, false, none, some, List, [], ◌∷◌, ◌++◌,
  arith, some_inj, u32, length, drop, replicate,
}
use gmaker.Common.Dict.{find, member, put}
use gmaker.Net.Packet.{Header, header_size, room_bcast, has_flag, or_flag, encrypt}
use gmaker.Crypto.AesGcm.{Gcm, IsGcm}
use gmaker.Crypto.Session.{encrypt_packet_payload, decrypt_packet_payload}
use gmaker.Gateway.Sessions.{
  PlainPacket, get_session_key, answer, pass, handle_handshake, decrypt_client,
}
use gmaker.Gateway.Sessions.Handshake.{handle_handshake-decrypt_client}
use gmaker.Gateway.Responses.{forwarded, Clients, enqueue, on_upstream_packet}
use gmaker.Net.Bytes.{read_u64_be}
use gmaker.Gateway.Routing.{
  biz, bind_packet, realtime, service_of, available, or_else, route_to_pool, give, client_packet,
  MaySend, client_packet_lem,
}
use gmaker.Gateway.Responses.Echo.{response_to, on_upstream_packet-forwarded}
use gmaker.Gateway.Players.{
  Players, is_player_bound, kick, bind_player, Event, bind_request, bind_response, client_close,
  scan, run, body,
}
use gmaker.Gateway.Players.Inverse.{IsConsistent}
use gmaker.Gateway.Players.Steps.{run-IsConsistent}
use gmaker.Gateway.Players.Kick.{bind_player-kick}
use gmaker.Gateway.Rooms.{Rooms, members_of, join_room, close_client}
use gmaker.Gateway.Rooms.Members.{close_client-join_room}

-- Player 7 is on connection 3.
abbrev one_player : Players
one_player = record { player_conn = (7, 3) ∷ []; conn_player = (3, 7) ∷ []; pending_binds = [] }

one_player-IsConsistent : IsConsistent one_player
unfolding find
one_player-IsConsistent = record { forth = λ p c h. ground arith; back = λ c p h. ground arith }

-- Player 7 logs in from connection 4, the old connection closes, and player 8 asks too late.
abbrev second_login : List Event
second_login =
    bind_request 0 4 1 (some (7, false)) true true
    ∷ bind_response 1 (body 4 (some 0))
    ∷ client_close 3
    ∷ bind_request 0 5 2 (some (8, false)) true true
    ∷ scan 20000000000
    ∷ bind_response 2 (body 5 (some 0))
    ∷ []

run-IsConsistent_example : IsConsistent (run one_player second_login)
run-IsConsistent_example = run-IsConsistent one_player second_login one_player-IsConsistent

found_at : find one_player.player_conn 7 ≡ some 3
unfolding find
found_at = refl

bind_player-kick_example :
    let (g', effects) = bind_player one_player 7 4 in
    (find g'.player_conn 7 ≡ some 4)
    × (find g'.conn_player 4 ≡ some 7)
    × (find g'.conn_player 3 ≡ none)
    × (effects ≡ kick 3 ∷ [])
bind_player-kick_example =
    bind_player-kick one_player 7 4 3 one_player-IsConsistent found_at (λ e. absurd (omega arith))
      (omega arith)

abbrev no_rooms : Rooms
no_rooms = record { room_members = []; conn_room = [] }

close_client-join_room_example :
    let g' = close_client (join_room (join_room no_rooms 1 9) 2 9) 9 in
    (member (members_of g' 1) 9 ≡ true)
    × (member (members_of g' 2) 9 ≡ false)
    × (find g'.conn_room 9 ≡ none)
close_client-join_room_example = close_client-join_room no_rooms 1 2 9 (λ e. absurd (omega arith))

-- A cipher that changes nothing, with a tag of zeros, and a code that is always the same key.
abbrev identity : Gcm
identity = record {
  seal = λ key nonce plaintext. some (plaintext, replicate 16 0);
  unseal = λ key nonce ciphertext tag. some ciphertext;
}

identity-IsGcm : IsGcm identity
identity-IsGcm = record {
  tag_length = λ key nonce plaintext e. sym (ap (λ s. length s.1) (some_inj e));
  cipher_length = λ key nonce plaintext e. sym (ap (λ s. length s.0) (some_inj e));
  unseals = λ key nonce plaintext e. ap (λ s. some s.0) (sym (some_inj e));
}

abbrev same_key : List ℕ
same_key = replicate 32 7

abbrev mac : List ℕ → List ℕ → List ℕ
mac key message = same_key

abbrev header : Header
header = record {
  length_field = 0;
  magic = 0x9D7F;
  cmd_id = 4097;
  seq_id = 5;
  flags = 0;
  user_id = 0;
  zone_id = 0;
  service_id = 0;
}

abbrev hello : PlainPacket
hello = record { header = header; payload = 1 ∷ replicate 32 3 }

abbrev nonce : List ℕ
nonce = replicate 12 9

abbrev text : List ℕ
text = 1 ∷ 2 ∷ 3 ∷ []

handle_handshake-decrypt_client_example :
    (reply : PlainPacket) × (challenge m : List ℕ) × (handle_handshake mac identity
        (replicate 32 1)
        2
        (λ t n. true)
        (replicate 16 4)
        (some nonce)
        []
        9
        hello
      ≡ (put [] 9 same_key, answer reply))
    × (reply.payload ≡ 1 ∷ (replicate 16 4 ++ challenge))
    × (reply.header.cmd_id ≡ 2)
    × (reply.header.seq_id ≡ 5)
    × (reply.header.flags ≡ 0)
    × (reply.header.length_field ≡ u32 (header_size + u32 (1 + (16 + length challenge))))
    × (decrypt_packet_payload identity same_key challenge ≡ some (replicate 16 3))
    × (encrypt_packet_payload identity (some nonce) same_key text ≡ some m)
    × (decrypt_client identity (put [] 9 same_key) 9 (record { header = header; payload = m })
        ≡ pass (record { header = header; payload = text }))
handle_handshake-decrypt_client_example =
    handle_handshake-decrypt_client mac identity (replicate 32 1) 2 (λ t n. true) (replicate 16 4)
      nonce [] 9 hello same_key (replicate 16 3) (replicate 16 0) header text nonce text
      (replicate 16 0) identity-IsGcm refl refl refl refl refl refl refl (omega arith) refl refl

abbrev connected : Clients
connected = record {
  clients = 9 ∷ [];
  ws_clients = [];
  kcp_clients = [];
  udp_clients = [];
  sessions = (9, same_key) ∷ [];
}

no_bcast : has_flag header.flags room_bcast ≡ false
unfolding has_flag
no_bcast = refl

has_key : get_session_key connected.sessions 9 ≡ same_key
unfolding get_session_key find
has_key = refl

here_9 : member connected.clients 9 ≡ true
unfolding member
here_9 = refl

elsewhere : member [] 9 ≡ false
unfolding member
elsewhere = refl

on_upstream_packet-forwarded_example :
    (response : PlainPacket) × (on_upstream_packet identity
        (λ t. some nonce)
        connected
        no_rooms
        one_player
        none
        (response_to header (forwarded 9 hello) text)
      ≡ (no_rooms, one_player, [], enqueue 9 response ∷ []))
    × (decrypt_packet_payload identity same_key response.payload ≡ some text)
    × (length response.payload ≡ 31)
    × (response.header.cmd_id ≡ 4097)
    × (response.header.seq_id ≡ 5)
    × (response.header.flags ≡ or_flag (bit_and 0 (2 ^ 32 - 2)) encrypt)
    × (response.header.length_field ≡ u32 (header_size + u32 31))
on_upstream_packet-forwarded_example =
    on_upstream_packet-forwarded identity (λ t. some nonce) connected no_rooms one_player none 9
      hello header nonce same_key text text (replicate 16 0) identity-IsGcm (omega arith) no_bcast
      (λ e. absurd (omega (arith, e))) (λ e. absurd (omega (arith, e)))
      (λ e. absurd (omega (arith, e))) (omega arith) refl refl has_key refl refl here_9 elsewhere
      elsewhere

abbrev move : PlainPacket
move = record { header = record header { cmd_id = 0x00020001 }; payload = text }

reaches_realtime :
    client_packet one_player (λ s. true) none 3 none move ≡ some (realtime, forwarded 3 move)
unfolding client_packet give route_to_pool or_else available service_of is_player_bound find
reaches_realtime = refl

client_packet_lem_example :
    MaySend one_player none 3 none 0x00020001 realtime
    × (true ≡ true)
    × (read_u64_be (forwarded 3 move).payload 0 ≡ 3)
    × (drop 8 (forwarded 3 move).payload ≡ text)
    × ((forwarded 3 move).header.cmd_id ≡ 0x00020001)
client_packet_lem_example =
    client_packet_lem one_player (λ s. true) none 3 none move (forwarded 3 move) realtime
      (omega arith) reaches_realtime

-- A bind request of a connection without a player goes to the business service.
abbrev bind_request_packet : PlainPacket
bind_request_packet = record { header = record header { cmd_id = 0x1020 }; payload = text }

bind_reaches_biz :
    client_packet one_player (λ s. true) none 4 (some (8, false)) bind_request_packet
    ≡ some (biz, forwarded 4 bind_request_packet)
unfolding client_packet bind_packet give route_to_pool or_else available service_of is_player_bound
    find
bind_reaches_biz = refl
