-- ===== src/Gateway/Responses/Echo.antt =====
-- That the response to a client's request, services/gateway-cpp/main.cpp, comes to that client and to no other.
use gmaker.Common.{
  ℕ, suc, ◌+◌, ◌-◌, ◌^◌, ◌≤◌, ◌<◌, bit_and, ◌≡◌, refl, sym, ap, ◌∙◌, subst, ◌≢◌, inl, inr, true,
  false, Option, none, some, List, [], ◌∷◌, ◌++◌, arith, ltb, ◌==◌, le→ltb, ne→==, Bool-cases, u32,
  ◌>>◌, length, take, drop, replicate, blit, length-replicate, blit-append,
}
use gmaker.Common.Dict.{Dict, member}
use gmaker.Net.Bytes.{write_u64_be, read_u64_be, low_byte}
use gmaker.Net.Bytes.RoundTrip.{read_u64_be_of}
use gmaker.Net.Packet.{Header, header_size, encrypt, or_flag, room_bcast, has_flag}
use gmaker.Crypto.AesGcm.{Gcm, IsGcm}
use gmaker.Crypto.Session.{encrypt_packet_payload, decrypt_packet_payload}
use gmaker.Gateway.Rooms.{Rooms}
use gmaker.Gateway.Players.{Players}
use gmaker.Gateway.Sessions.{PlainPacket, get_session_key}
use gmaker.Gateway.Sessions.Handshake.{sealed_payload}
use gmaker.Gateway.Responses.{
  forwarded, Clients, Delivery, enqueue, plain_response, build_response_for, enqueue_to_client,
  deliver, on_response, on_upstream_packet, cmd_gw_room_join, cmd_gw_room_leave, cmd_gw_player_bind,
}

-- The eight bytes in front, as `WriteU64BE` leaves them.
front : ℕ → List ℕ
front v =
    low_byte (v >> 56)
    ∷ low_byte (v >> 48)
    ∷ low_byte (v >> 40)
    ∷ low_byte (v >> 32)
    ∷ low_byte (v >> 24)
    ∷ low_byte (v >> 16)
    ∷ low_byte (v >> 8)
    ∷ low_byte v
    ∷ []

blit-front :
    (v : ℕ) (ys bs : List ℕ) → length ys ≡ length bs → blit (front v ++ ys) 8 bs ≡ front v ++ bs
unfolding front
blit-front v ys bs = blit-append (front v) ys bs

write_front :
    (v : ℕ) (l : List ℕ) → write_u64_be (0 ∷ 0 ∷ 0 ∷ 0 ∷ 0 ∷ 0 ∷ 0 ∷ 0 ∷ l) 0 v ≡ front v ++ l
unfolding write_u64_be front
write_front v l = refl

-- The forwarded payload: the connection's number and the client's payload.
forwarded-payload :
    (conn : ℕ) (pkt : PlainPacket) → (forwarded conn pkt).payload ≡ front conn ++ pkt.payload
unfolding forwarded
forwarded-payload conn pkt =
    let p = pkt.payload in
    let e : length p + 8 ≡ suc (suc (suc (suc (suc (suc (suc (suc (length p)))))))) = omega arith in
    ap (λ k. blit (write_u64_be (replicate k 0) 0 conn) 8 p) e
    ∙ (ap (λ l. blit l 8 p) (write_front conn (replicate (length p) 0))
        ∙ blit-front conn (replicate (length p) 0) p (length-replicate (length p) 0))

read_front : (v : ℕ) (l : List ℕ) → v < 2 ^ 64 → read_u64_be (front v ++ l) 0 ≡ v
unfolding front
read_front v l h = read_u64_be_of (front v ++ l) 0 v h refl refl refl refl refl refl refl refl

drop-front : (v : ℕ) (l : List ℕ) → drop 8 (front v ++ l) ≡ l
unfolding front
drop-front v l = refl

-- What a service reads of a forwarded packet: the connection, and the client's payload behind it.
pub forwarded-read :
    (conn : ℕ) (pkt : PlainPacket)
    → conn < 2 ^ 64
    → (read_u64_be (forwarded conn pkt).payload 0 ≡ conn)
      × (drop 8 (forwarded conn pkt).payload ≡ pkt.payload)
forwarded-read conn pkt small =
    let e = forwarded-payload conn pkt in
    (
      ap (λ l. read_u64_be l 0) e ∙ read_front conn pkt.payload small,
      ap (drop 8) e ∙ drop-front conn pkt.payload,
    )

-- What a service answers to a forwarded request: the eight bytes in front of the request, then the body.
unfoldable pub response_to : Header → PlainPacket → List ℕ → PlainPacket
response_to h request body = record { header = h; payload = take 8 request.payload ++ body }

response_to-payload :
    (conn : ℕ) (request : PlainPacket) (h : Header) (body : List ℕ)
    → (response_to h (forwarded conn request) body).payload ≡ front conn ++ body
unfolding response_to front
response_to-payload conn request h body =
    ap (λ l. take 8 l ++ body) (forwarded-payload conn request)

front-long : (v : ℕ) (l : List ℕ) → 8 ≤ length (front v ++ l)
unfolding front
front-long v l = omega arith

-- A packet that is not a room's broadcast goes to the one connection in front of its payload.
unicast :
    (g : Gcm) (random : ℕ → Option (List ℕ)) (c : Clients) (rooms : Rooms) (pkt : PlainPacket)
    (conn : ℕ) (body : List ℕ)
    → conn < 2 ^ 64
    → has_flag pkt.header.flags room_bcast ≡ false
    → pkt.payload ≡ front conn ++ body
    → on_response g random c rooms pkt ≡ deliver g random c (plain_response pkt) (conn ∷ [])
unfolding on_response
unicast g random c rooms pkt conn body small one e =
    let first : read_u64_be pkt.payload 0 ≡ conn =
      ap (λ l. read_u64_be l 0) e ∙ read_front conn body small in
    let long : ltb (length pkt.payload) 8 ≡ false =
      le→ltb _ _ (subst (λ l. 8 ≤ length l) (sym e) (front-long conn body)) in
    rw (long, one, first) refl

plain_response-payload :
    (pkt : PlainPacket) (conn : ℕ) (body : List ℕ)
    → pkt.payload ≡ front conn ++ body
    → (plain_response pkt).payload ≡ body
unfolding plain_response
plain_response-payload pkt conn body e = ap (drop 8) e ∙ drop-front conn body

-- The response that `build_response_for` makes of an encrypted payload.
unfoldable sealed_response : PlainPacket → List ℕ → PlainPacket
sealed_response plain m = record {
  header = record (plain.header) {
    length_field = u32 (header_size + u32 (length m));
    flags = or_flag plain.header.flags encrypt;
  };
  payload = m;
}

build_response_for_lem :
    (g : Gcm) (random : ℕ → Option (List ℕ)) (sessions : Dict (List ℕ)) (plain : PlainPacket)
    (target : ℕ) (nonce key body m : List ℕ)
    → random target ≡ some nonce
    → get_session_key sessions target ≡ key
    → length key ≡ 32
    → plain.payload ≡ body
    → 0 < length body
    → encrypt_packet_payload g (some nonce) key body ≡ some m
    → build_response_for g random sessions plain target ≡ some (sealed_response plain m)
unfolding build_response_for sealed_response
build_response_for_lem g random sessions plain target nonce key body m r found k p some_body enc =
    let z : (length body == 0) ≡ false = ground arith in rw (p, r, found, k, z, enc) refl

enqueue_to_client_lem :
    (c : Clients) (target : ℕ) (response : PlainPacket)
    → member c.clients target ≡ true
    → member c.kcp_clients target ≡ false
    → member c.udp_clients target ≡ false
    → enqueue_to_client c target response ≡ enqueue target response ∷ []
unfolding enqueue_to_client
enqueue_to_client_lem c target response here kcp udp =
    elim (Bool-cases (member c.ws_clients target)) [
      | inl ws ↦ rw (here, ws) refl
      | inr ws ↦ rw (here, ws, kcp, udp) refl
    ]

deliver-one :
    (g : Gcm) (random : ℕ → Option (List ℕ)) (c : Clients) (plain response : PlainPacket)
    (target : ℕ)
    → build_response_for g random c.sessions plain target ≡ some response
    → enqueue_to_client c target response ≡ enqueue target response ∷ []
    → deliver g random c plain (target ∷ []) ≡ enqueue target response ∷ []
unfolding deliver
deliver-one g random c plain response target built sent =
    ap
      (λ o. elim o as (λ _. List Delivery) [
        | none ↦ []
        | some r ↦ enqueue_to_client c target r ++ []
      ])
      built
    ∙ ap (λ l. l ++ []) sent

-- A packet of no control command is left to the forwarding of responses.
ordinary :
    (g : Gcm) (random : ℕ → Option (List ℕ)) (c : Clients) (rooms : Rooms) (players : Players)
    (parsed : Option ℕ) (pkt : PlainPacket)
    → pkt.header.cmd_id ≢ cmd_gw_room_join
    → pkt.header.cmd_id ≢ cmd_gw_room_leave
    → pkt.header.cmd_id ≢ cmd_gw_player_bind
    → on_upstream_packet g random c rooms players parsed pkt
      ≡ (rooms, players, [], on_response g random c rooms pkt)
unfolding on_upstream_packet
ordinary g random c rooms players parsed pkt join leave bind =
    let a = ne→== pkt.header.cmd_id cmd_gw_room_join join in
    let b = ne→== pkt.header.cmd_id cmd_gw_room_leave leave in
    let d = ne→== pkt.header.cmd_id cmd_gw_player_bind bind in rw (a, b, d) refl

-- The answer of a service to a forwarded request, of no command of the gateway's own, with the
-- eight bytes in front of the request, a body that is not empty and no broadcast flag, leaves
-- rooms and players alone and is put in line for the connection of the request, a TCP or WebSocket
-- client with a session key of 32 bytes, and for no other: sealed with 28 bytes more, decrypted by
-- that key to the body, with command, sequence number and flags of the answer, ENCRYPT set, and
-- its length in the header, if the nonce has 12 bytes and the sealing succeeds.
pub on_upstream_packet-forwarded :
    (g : Gcm) (random : ℕ → Option (List ℕ)) (c : Clients) (rooms : Rooms) (players : Players)
    (parsed : Option ℕ) (conn : ℕ) (request : PlainPacket) (h : Header)
    (nonce key body ciphertext tag : List ℕ)
    → IsGcm g
    → conn < 2 ^ 64
    → has_flag h.flags room_bcast ≡ false
    → h.cmd_id ≢ cmd_gw_room_join
    → h.cmd_id ≢ cmd_gw_room_leave
    → h.cmd_id ≢ cmd_gw_player_bind
    → 0 < length body
    → random conn ≡ some nonce
    → length nonce ≡ 12
    → get_session_key c.sessions conn ≡ key
    → length key ≡ 32
    → g.seal key nonce body ≡ some (ciphertext, tag)
    → member c.clients conn ≡ true
    → member c.kcp_clients conn ≡ false
    → member c.udp_clients conn ≡ false
    → (response : PlainPacket) × (on_upstream_packet g random c rooms players parsed
          (response_to h (forwarded conn request) body)
        ≡ (rooms, players, [], enqueue conn response ∷ []))
      × (decrypt_packet_payload g key response.payload ≡ some body)
      × (length response.payload ≡ length body + 28)
      × (response.header.cmd_id ≡ h.cmd_id)
      × (response.header.seq_id ≡ h.seq_id)
      × (response.header.flags ≡ or_flag (bit_and h.flags (2 ^ 32 - 2)) encrypt)
      × (response.header.length_field ≡ u32 (header_size + u32 (length body + 28)))
unfolding sealed_response plain_response response_to
on_upstream_packet-forwarded g random c rooms players parsed conn request h nonce key body
      ciphertext tag law small one not_join not_leave not_bind some_body r n found k e here kcp
      udp =
    let pkt = response_to h (forwarded conn request) body in
    let p = response_to-payload conn request h body in
    let (m, enc, dec, size) = sealed_payload g nonce key body ciphertext tag law k n e in
    let built =
      build_response_for_lem g random c.sessions (plain_response pkt) conn nonce key body m r found
        k (plain_response-payload pkt conn body p) some_body enc in
    let sent = enqueue_to_client_lem c conn (sealed_response (plain_response pkt) m) here kcp udp in
    (
      sealed_response (plain_response pkt) m,
      ordinary g random c rooms players parsed pkt not_join not_leave not_bind
          ∙ ap (λ d. (rooms, players, [], d))
              (unicast g random c rooms pkt conn body small one p
                ∙ deliver-one g random c _ _ conn built sent),
      dec,
      size,
      refl,
      refl,
      refl,
      ap (λ k. u32 (header_size + u32 k)) size,
    )
