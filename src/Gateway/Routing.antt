-- ===== src/Gateway/Routing.antt =====
-- Which packets of a client reach a service, services/gateway-cpp/main.cpp: the guards of `OnClientPacket`
-- and `RouteToPool`.
use gmaker.Common.{
  ℕ, ◌^◌, ◌≤◌, ◌<◌, ◌≡◌, refl, sym, ap, ◌∙◌, subst, ◌≢◌, ◌⊎◌, inl, inr, Bool, true, false, ◌&&◌,
  ◌||◌, not, Option, none, some, arith, leb, ◌==◌, if◌then◌else◌, leb→le, ==→eq, ==→ne, Bool-cases,
  Option-cases, some_inj, drop,
}
use gmaker.Net.Bytes.{read_u64_be}
use gmaker.Gateway.Sessions.{PlainPacket}
use gmaker.Gateway.Players.{Players, is_player_bound}
use gmaker.Gateway.Responses.{forwarded, cmd_gw_player_bind}
use gmaker.Gateway.Responses.Echo.{forwarded-read}

-- The names of the services; `named` stands for the names that only the configuration has.
pub data Service : Type 0 where
  biz realtime chat logstats match : Service
  named : ℕ → Service

unfoldable pub service_of : ℕ → Option Service
service_of cmd =
    if leb 0x00010000 cmd && leb cmd 0x0001FFFF
    then some biz
    else if leb 0x00001000 cmd && leb cmd 0x0000FFFF
    then some biz
    else if leb 0x00020000 cmd && leb cmd 0x0002FFFF
    then some realtime
    else if leb 0x00030000 cmd && leb cmd 0x0003FFFF
    then some chat
    else if leb 0x00040000 cmd && leb cmd 0x0004FFFF
    then some logstats
    else if leb 0x00050000 cmd && leb cmd 0x0005FFFF
    then some match
    else none

-- `GetPool` of a name, if there is one.
unfoldable pub available : (Service → Bool) → Option Service → Option Service
available has_pool none = none
available has_pool (some service) = if not (has_pool service) then none else some service

unfoldable pub or_else : Option Service → Option Service → Option Service
or_else none other = other
or_else (some service) other = some service

-- `RouteToPool`: the service of the command, else the first of the configuration, where it has a pool.
unfoldable pub route_to_pool : (Service → Bool) → Option Service → ℕ → Option Service
route_to_pool has_pool first cmd =
    or_else (available has_pool (service_of cmd)) (available has_pool first)

-- The packet that is given to `SendPacket` of the pool.
unfoldable pub give : ℕ → PlainPacket → Option Service → Option (Service × PlainPacket)
give conn pkt none = none
give conn pkt (some service) = some (service, forwarded conn pkt)

-- What `HandlePlayerBind` forwards, with the request's player and whether its token is empty, if it can be
-- parsed.
unfoldable pub bind_packet :
    Players
    → (Service → Bool)
    → Option Service
    → ℕ
    → Option (ℕ × Bool)
    → PlainPacket
    → Option (Service × PlainPacket)
bind_packet g has_pool first conn none pkt = none
bind_packet g has_pool first conn (some (player, token_empty)) pkt =
    if is_player_bound g conn
    then none
    else if player == 0 || token_empty
    then none
    else give conn pkt (route_to_pool has_pool first pkt.header.cmd_id)

-- What `OnClientPacket` forwards, and to whom.
unfoldable pub client_packet :
    Players
    → (Service → Bool)
    → Option Service
    → ℕ
    → Option (ℕ × Bool)
    → PlainPacket
    → Option (Service × PlainPacket)
client_packet g has_pool first conn parsed pkt =
    if pkt.header.cmd_id == cmd_gw_player_bind
    then bind_packet g has_pool first conn parsed pkt
    else if not (leb pkt.header.cmd_id 0xFF) && not (is_player_bound g conn)
    then none
    else give conn pkt (route_to_pool has_pool first pkt.header.cmd_id)

-- No service takes a system command.
service_of-system : (cmd : ℕ) → cmd ≤ 0xFF → service_of cmd ≡ none
unfolding service_of
service_of-system cmd h = ground arith

not-false : (b : Bool) → not b ≡ false → b ≡ true
not-false true e = refl
not-false false e = sym e

neither : (a b : Bool) → (a || b) ≡ false → (a ≡ false) × (b ≡ false)
neither a b e = ground (arith, Bool-cases a)

unless :
    {A : Type 0} (b : Bool) (x : Option A) {y : A}
    → (if b then none else x) ≡ some y
    → (b ≡ false) × (x ≡ some y)
unless true x e = ground arith
unless false x e = (refl, e)

give_lem :
    (conn : ℕ) (pkt q : PlainPacket) (route : Option Service) (service : Service)
    → give conn pkt route ≡ some (service, q)
    → (route ≡ some service) × (forwarded conn pkt ≡ q)
unfolding give
give_lem conn pkt q none service e = ground arith
give_lem conn pkt q (some s) service e =
    (ap (λ r. some r.0) (some_inj e), ap (λ r. r.1) (some_inj e))

available_lem :
    (has_pool : Service → Bool) (name : Option Service) (service : Service)
    → available has_pool name ≡ some service
    → (name ≡ some service) × (has_pool service ≡ true)
unfolding available
available_lem has_pool none service e = ground arith
available_lem has_pool (some s) service e =
    let (pool, same) = unless (not (has_pool s)) (some s) e in
    (same, subst (λ t. has_pool t ≡ true) (some_inj same) (not-false _ pool))

-- The service of a command's range, or the first one.
route_to_pool_lem :
    (has_pool : Service → Bool) (first : Option Service) (cmd : ℕ) (service : Service)
    → route_to_pool has_pool first cmd ≡ some service
    → ((service_of cmd ≡ some service) ⊎ (first ≡ some service)) × (has_pool service ≡ true)
unfolding route_to_pool or_else
route_to_pool_lem has_pool first cmd service e =
    elim (Option-cases (available has_pool (service_of cmd))) [
      | inl missing ↦
          let (name, pool) =
            available_lem has_pool first service
              (subst (λ o. or_else o (available has_pool first) ≡ some service) missing e) in
          (inr name, pool)
      | inr (s, there) ↦
          let same : some s ≡ some service =
            subst (λ o. or_else o (available has_pool first) ≡ some service) there e in
          let (name, pool) = available_lem has_pool (service_of cmd) service (there ∙ same) in
          (inl name, pool)
    ]

-- The guard: the packet of a bound client, or a system command, which is in no service's range.
guard_lem :
    (cmd : ℕ) (service : Service) (first : Option Service) (bound : Bool)
    → (service_of cmd ≡ some service) ⊎ (first ≡ some service)
    → (not (leb cmd 0xFF) && not bound) ≡ false
    → (bound ≡ true) ⊎ ((cmd ≤ 0xFF) × (first ≡ some service))
guard_lem cmd service first true e h = inl refl
guard_lem cmd service first false e h = elim (Bool-cases (leb cmd 0xFF)) [
  | inl small ↦ elim e [
    | inl own ↦ let n = service_of-system cmd (leb→le _ _ small) in ground arith
    | inr other ↦ inr (leb→le _ _ small, other)
  ]
  | inr big ↦ inl (sym h ∙ rw big refl)
]

forwarded-cmd_id :
    (conn : ℕ) (pkt : PlainPacket) → (forwarded conn pkt).header.cmd_id ≡ pkt.header.cmd_id
unfolding forwarded
forwarded-cmd_id conn pkt = refl

-- Who may send a packet with a command to a service: a connection with a bound player, any one a system
-- command to the first service of the configuration, and one without a player a bind request.
abbrev pub MaySend : Players → Option Service → ℕ → Option (ℕ × Bool) → ℕ → Service → Type 0
MaySend g first conn parsed cmd service =
    (is_player_bound g conn ≡ true)
    ⊎ (((cmd ≤ 0xFF) × (first ≡ some service))
        ⊎ ((cmd ≡ 0x1020)
            × (is_player_bound g conn ≡ false)
            × (player : ℕ) × (parsed ≡ some (player, false))
            × (player ≢ 0)))

bind_packet_lem :
    (g : Players) (has_pool : Service → Bool) (first : Option Service) (conn : ℕ)
    (parsed : Option (ℕ × Bool)) (pkt q : PlainPacket) (service : Service)
    → bind_packet g has_pool first conn parsed pkt ≡ some (service, q)
    → (is_player_bound g conn ≡ false)
      × ((player : ℕ) × (parsed ≡ some (player, false)) × (player ≢ 0))
      × (give conn pkt (route_to_pool has_pool first pkt.header.cmd_id) ≡ some (service, q))
unfolding bind_packet
bind_packet_lem g has_pool first conn none pkt q service e = ground arith
bind_packet_lem g has_pool first conn (some (player, token_empty)) pkt q service e =
    let (free, e1) = unless (is_player_bound g conn) _ e in
    let (asked, e2) = unless (player == 0 || token_empty) _ e1 in
    let (other, token) = neither (player == 0) token_empty asked in
    (free, (player, ap (λ t. some (player, t)) token, ==→ne player 0 other), e2)

-- What is given to a pool.
given_lem :
    (has_pool : Service → Bool) (first : Option Service) (conn : ℕ) (pkt q : PlainPacket)
    (service : Service)
    → conn < 2 ^ 64
    → give conn pkt (route_to_pool has_pool first pkt.header.cmd_id) ≡ some (service, q)
    → ((service_of pkt.header.cmd_id ≡ some service) ⊎ (first ≡ some service))
      × (has_pool service ≡ true)
      × (read_u64_be q.payload 0 ≡ conn)
      × (drop 8 q.payload ≡ pkt.payload)
      × (q.header.cmd_id ≡ pkt.header.cmd_id)
given_lem has_pool first conn pkt q service small e =
    let cmd = pkt.header.cmd_id in
    let (route, same) = give_lem conn pkt q (route_to_pool has_pool first cmd) service e in
    let (range, pool) = route_to_pool_lem has_pool first cmd service route in
    let (number, rest) = forwarded-read conn pkt small in
    (
      range,
      pool,
      ap (λ p. read_u64_be p.payload 0) (sym same) ∙ number,
      ap (λ p. drop 8 p.payload) (sym same) ∙ rest,
      ap (λ p. p.header.cmd_id) (sym same) ∙ forwarded-cmd_id conn pkt,
    )

-- A packet that OnClientPacket gives to a service comes from a connection with a bound player, or
-- is a system command for the first service of the configuration, or is a bind request of a
-- connection without a player that names a player and has a token; the service has a pool, reads
-- the number of the client's connection, below 2 ^ 64, in front of the payload and the client's
-- payload behind it, and the command is the client's.
pub client_packet_lem :
    (g : Players) (has_pool : Service → Bool) (first : Option Service) (conn : ℕ)
    (parsed : Option (ℕ × Bool)) (pkt q : PlainPacket) (service : Service)
    → conn < 2 ^ 64
    → client_packet g has_pool first conn parsed pkt ≡ some (service, q)
    → MaySend g first conn parsed pkt.header.cmd_id service
      × (has_pool service ≡ true)
      × (read_u64_be q.payload 0 ≡ conn)
      × (drop 8 q.payload ≡ pkt.payload)
      × (q.header.cmd_id ≡ pkt.header.cmd_id)
unfolding client_packet
client_packet_lem g has_pool first conn parsed pkt q service small e =
    let cmd = pkt.header.cmd_id in
    elim (Bool-cases (cmd == cmd_gw_player_bind)) [
      | inl bind ↦
          let (free, request, e1) =
            bind_packet_lem g has_pool first conn parsed pkt q service (sym (rw bind refl) ∙ e) in
          let given = given_lem has_pool first conn pkt q service small e1 in
          (
            inr (inr (==→eq cmd 0x1020 bind, free, request.0, request.1, request.2)),
            given.1,
            given.2,
            given.3,
            given.4,
          )
      | inr other ↦
          let (guard, e1) =
            unless (not (leb cmd 0xFF) && not (is_player_bound g conn)) _
              (sym (rw other refl) ∙ e) in
          let given = given_lem has_pool first conn pkt q service small e1 in
          (
            elim (guard_lem cmd service first (is_player_bound g conn) given.0 guard) [
              | inl bound ↦ inl bound
              | inr system ↦ inr (inl system)
            ],
            given.1,
            given.2,
            given.3,
            given.4,
          )
    ]
