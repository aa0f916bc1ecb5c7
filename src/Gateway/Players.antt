-- ===== src/Gateway/Players.antt =====
-- Which player is on which connection: `HandlePlayerBind`, the bind response of `OnUpstreamPacket`,
-- `BindPlayer`, `CleanupPlayerState` and the guard of `OnClientPacket` in
-- services/gateway-cpp/main.cpp. Each is one step under its mutex. What they send is a list of effects; the
-- parsed messages of protobuf and what the upstream pool answers are arguments.
pub mod Inverse
pub mod Steps
pub mod Kick
use gmaker.Common.{
  ℕ, ◌-◌, ◌*◌, Bool, ◌&&◌, ◌||◌, not, Option, none, some, List, [], ◌∷◌, ◌++◌, ltb, leb, ◌==◌,
  if◌then◌else◌, is_some,
}
use gmaker.Common.Dict.{Dict, find, put, erase}

-- `PendingBind`; the steady clock counts nanoseconds.
pub record PendingBind : Type 0 where
  pub player_id : ℕ
  pub seq_id : ℕ
  pub created_at : ℕ

-- `player_conn_`, `conn_player_` and `pending_binds_`.
pub record Players : Type 0 where
  pub player_conn : Dict ℕ
  pub conn_player : Dict ℕ
  pub pending_binds : Dict PendingBind

-- `SendErrorAndClose`, `KickConnection`, a packet sent to an upstream pool, the refusal of a bind passed
-- on by `SendToClientDirect(..., true)`, and a response left to the forwarding of other responses.
pub data Effect : Type 0 where
  error_and_close : ℕ → Effect
  kick : ℕ → Effect
  forward : ℕ → Effect
  reply_and_close : ℕ → Effect
  respond : ℕ → Effect

-- `IsPlayerBound`.
unfoldable pub is_player_bound : Players → ℕ → Bool
is_player_bound g conn = is_some (find g.conn_player conn)

-- `it->second.seq_id == seq_id`, and `erase`.
unfoldable pub drop_pending : Dict PendingBind → ℕ → ℕ → Dict PendingBind
drop_pending m conn seq = elim (find m conn) [
  | none ↦ m
  | some bind ↦ if bind.seq_id == seq then erase m conn else m
]

-- The loop over `pending_binds_` after a response that is too short.
unfoldable pub drop_seq : Dict PendingBind → ℕ → Dict PendingBind
drop_seq [] seq = []
drop_seq ((conn, bind) ∷ m) seq =
    let rest = drop_seq m seq in if bind.seq_id == seq then rest else (conn, bind) ∷ rest

-- `kPendingBindTimeout`, and the scan of `HeartbeatLoop`.
abbrev pub pending_bind_timeout : ℕ
pending_bind_timeout = 10 * 1000 * 1000 * 1000

unfoldable pub expire : Dict PendingBind → ℕ → Dict PendingBind
expire [] now = []
expire ((conn, bind) ∷ m) now =
    let rest = expire m now in
    if ltb pending_bind_timeout (now - bind.created_at) then rest else (conn, bind) ∷ rest

-- The part of `HandlePlayerBind` after the checks, with whether there is a pool and whether it took the
-- packet.
unfoldable pub request_bind : Players → ℕ → ℕ → ℕ → ℕ → Bool → Bool → Players × List Effect
request_bind g now conn seq player has_pool sent =
    let pending =
      put g.pending_binds conn (record { player_id = player; seq_id = seq; created_at = now }) in
    if not has_pool
    then (record g { pending_binds = drop_pending pending conn seq }, error_and_close conn ∷ [])
    else if sent
    then (record g { pending_binds = pending }, forward conn ∷ [])
    else (record g { pending_binds = erase pending conn }, [])

-- `HandlePlayerBind`, with the request's player and whether its token is empty, if it can be parsed.
unfoldable pub handle_player_bind :
    Players → ℕ → ℕ → ℕ → Option (ℕ × Bool) → Bool → Bool → Players × List Effect
handle_player_bind g now conn seq parsed has_pool sent =
    let refused : Players × List Effect = (g, error_and_close conn ∷ []) in
    let checked : Players × List Effect = elim parsed [
      | none ↦ refused
      | some (player, token_empty) ↦
          if player == 0 || token_empty
          then refused
          else request_bind g now conn seq player has_pool sent
    ] in
    if is_player_bound g conn then refused else checked

-- `player_conn_.erase`, if the player is on that connection.
unfoldable pub release : Dict ℕ → ℕ → ℕ → Dict ℕ
release player_conn player conn = elim (find player_conn player) [
  | none ↦ player_conn
  | some c ↦ if c == conn then erase player_conn player else player_conn
]

-- The first part of `BindPlayer`: another player leaves the connection.
unfoldable pub free_conn : Players → ℕ → ℕ → Players
free_conn g player conn = elim (find g.conn_player conn) [
  | none ↦ g
  | some old_player ↦ if old_player == player then g else record g {
    player_conn = release g.player_conn old_player conn;
    conn_player = erase g.conn_player conn;
  }
]

-- The second part: the player's other connection, 0 if there is none.
unfoldable pub old_conn : Players → ℕ → ℕ → ℕ
old_conn g player conn = elim (find g.player_conn player) [
  | none ↦ 0
  | some c ↦ if c == conn then 0 else c
]

unfoldable pub free_player : Players → ℕ → ℕ → Dict ℕ
free_player g player conn = elim (find g.player_conn player) [
  | none ↦ g.conn_player
  | some c ↦ if c == conn then g.conn_player else erase g.conn_player c
]

-- `BindPlayer`.
unfoldable pub bind_player : Players → ℕ → ℕ → Players × List Effect
bind_player g player conn =
    let g1 = free_conn g player conn in
    let old = old_conn g1 player conn in
    (
      record g1 {
        player_conn = put g1.player_conn player conn;
        conn_player = put (free_player g1 player conn) conn player;
      },
      if old == 0 then [] else kick old ∷ [],
    )

-- A bind response: too short, or with a connection and the code of `PlayerBindRes`, if it can be parsed.
pub data Response : Type 0 where
  short : Response
  body : ℕ → Option ℕ → Response

-- A response that answers the pending bind.
unfoldable pub settle_bind : Players → ℕ → PendingBind → ℕ → Players × List Effect
settle_bind g conn bind code =
    let g1 = record g { pending_binds = erase g.pending_binds conn } in
    if code == 0 && ltb 0 bind.player_id
    then (let (g2, effects) = bind_player g1 bind.player_id conn in
        (g2, effects ++ respond conn ∷ []))
    else if not (code == 0)
    then (g1, if conn == 0 then [] else reply_and_close conn ∷ [])
    else (g1, respond conn ∷ [])

-- The bind response of `OnUpstreamPacket`.
unfoldable pub on_bind_response : Players → ℕ → Response → Players × List Effect
on_bind_response g seq short = (record g { pending_binds = drop_seq g.pending_binds seq }, [])
on_bind_response g seq (body conn none) =
    (record g { pending_binds = drop_pending g.pending_binds conn seq }, [])
on_bind_response g seq (body conn (some code)) = elim (find g.pending_binds conn) [
  | none ↦ (g, [])
  | some bind ↦ if bind.seq_id == seq then settle_bind g conn bind code else (g, [])
]

-- `CleanupPlayerState`.
unfoldable pub cleanup_player_state : Players → ℕ → Players
cleanup_player_state g conn =
    let g1 = record g { pending_binds = erase g.pending_binds conn } in
    elim (find g.conn_player conn) [
      | none ↦ g1
      | some player ↦ record g1 {
        player_conn = release g.player_conn player conn;
        conn_player = erase g.conn_player conn;
      }
    ]

-- `OnClientPacket` of another command: the guard, and the packet sent to a pool, if there is one.
unfoldable pub on_client_packet : Players → ℕ → ℕ → Bool → Bool → List Effect
on_client_packet g conn cmd has_pool sent =
    if not (leb cmd 0xFF) && not (is_player_bound g conn)
    then error_and_close conn ∷ []
    else if has_pool && sent
    then forward conn ∷ []
    else []

-- What happens to the gateway's players.
pub data Event : Type 0 where
  bind_request : ℕ → ℕ → ℕ → Option (ℕ × Bool) → Bool → Bool → Event
  bind_response : ℕ → Response → Event
  client_close : ℕ → Event
  scan : ℕ → Event

unfoldable pub step : Players → Event → Players × List Effect
step g (bind_request now conn seq parsed has_pool sent) =
    handle_player_bind g now conn seq parsed has_pool sent
step g (bind_response seq response) = on_bind_response g seq response
step g (client_close conn) = (cleanup_player_state g conn, [])
step g (scan now) = (record g { pending_binds = expire g.pending_binds now }, [])

unfoldable pub run : Players → List Event → Players
run g [] = g
run g (e ∷ es) = run (step g e).0 es
