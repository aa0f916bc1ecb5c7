-- ===== src/Lib.antt =====
-- gmaker: a model of the framework's C++ code, and what it is proved to do.
--
-- The program is a game server framework. Its C++ part, common/cpp, is a library of networking, identifiers
-- and a deterministic battle engine, from which the services services/gateway-cpp and
-- services/realtime-cpp are built.
--
-- The parts, and the files that model them:
--
-- - Net: common/cpp/net. Bytes come into a growing ring (`RingBuffer`, Net/Ring.antt), packets are cut from
--   it by a header of 34 bytes (`EncodePacket`, `DecodePacket`, Net/Packet.antt, over the big-endian
--   accessors of Net/Bytes.antt), and their payloads are views of shared vectors (`Buffer`,
--   Net/Buffer.antt). Browsers send the same packets in WebSocket frames (`ParseWSFrame` and the encoders
--   of common/cpp/net/async/ws_frame.cpp, Net/WsFrame.antt). What is sent waits, encoded once, in
--   `AsyncWriteCoalescer` (Net/Coalescer.antt). `AsyncTCPConnection` joins these: its reader takes packets
--   off the ring and decrypts them (Net/TcpReader.antt, with the specification on plain bytes in
--   Net/TcpReader/Frames.antt), `SendPacket` encrypts and encodes (Net/TcpPacket.antt), and its write
--   queue, backpressure and closing are a state machine over events (Net/TcpWriter.antt).
-- - Crypto: common/cpp/crypto. The format of encrypted messages (Crypto/AesGcm.antt), session keys
--   (Crypto/Session.antt) and the comparison of message codes (Crypto/Hmac.antt), over the ciphers
--   of OpenSSL as parameters.
-- - Gateway: services/gateway-cpp/main.cpp. The handshake and the session keys (Gateway/Sessions.antt), the
--   guards on a client's packets and the service that gets them (Gateway/Routing.antt), the way of a request
--   to a service and of the answer back (Gateway/Responses.antt), which player is on which connection, from
--   the bind request to the disconnection (Gateway/Players.antt), and who is in which room
--   (Gateway/Rooms.antt).
-- - Idgen: common/cpp/idgen, the identifiers of `Snowflake::NextID` (Idgen/Snowflake.antt).
-- - Realtime: common/cpp/realtime. `LockstepEngine` gathers the inputs of all players frame by frame and
--   confirms the frames in order (Realtime/Lockstep.antt), and is driven tick by tick
--   (Realtime/Lockstep/Fight.antt). `BattleRoom` (Realtime/Battle.antt, its state) has its players and
--   teams in Battle/Players.antt, its entities in Realtime/Entity.antt and Battle/Scene.antt, the inputs and the
--   fight in Battle/Inputs.antt, Battle/Combat.antt and Battle/Attacks.antt, its states and what it sends in
--   Battle/Outcome.antt and Battle/Tick.antt, `OnMessage` in Battle/Messages.antt and its hand-written
--   bytes in Battle/Wire.antt; Realtime/Checkpoint.antt keeps snapshots of it. Inputs are fixed-point numbers
--   (Realtime/Fixed.antt), chance comes from a seeded generator (Realtime/Prng.antt), and states are
--   compared by their hashes (Realtime/FrameHash.antt). `Room` keeps the players and their connections
--   and broadcasts what they see (Realtime/Room.antt), over the interface of a spatial index.
-- - Redis: common/cpp/redis. Replies (Redis/Reply.antt), the shape that all commands share and their
--   readings of a reply (Redis/Client.antt), the commands (Redis/Commands.antt and its children), and
--   pipelines (Redis/Pipeline.antt and its children), over hiredis as a parameter.
-- - Common: comparisons, lists, slices, machine words, bit operations, and `std::map` and `std::set` as lists
--   in the order of the keys.
--
-- How code is translated. A struct or the state of a class is a record, a method a function of the
-- record, by the method's name in lower case. Numbers are natural numbers, and each sum, product or
-- shift that may wrap is followed by its `% 2 ^ 64` or `% 2 ^ 32` (`u64`, `u32`); a signed 64-bit number is
-- its bit pattern. A `std::shared_ptr` to a vector is an index into a store of vectors, so that
-- two buffers may share one. A read outside a vector, an exception and a loop that
-- runs out of fuel are `none` or a constructor of a result type. A pointer to an entity is its number. An
-- unordered map is a list in the order of its keys, which is one of the orders that the source may
-- iterate in. `float` and its operations are a parameter, `Floats` (Realtime/Entity.antt).
--
-- Fuel. The loops of `RingBuffer` take as many rounds as there are bytes to copy, or as the wanted capacity
-- is large; `TryAdvance` takes 34, one for each of its 33 frames and the last test. The theorems on
-- these functions say that this is enough. The clock of `NextID` is the list of its readings, and its wait
-- for the next millisecond ends with the list at the latest. The reader of a connection takes one round
-- more than the ring has bytes, and each round but the last takes at least 34 off.
--
-- Not modelled: sockets, event loops, locks, TLS and the ciphers, which are input and output or calls of
-- libraries (a method under a mutex is one step, and its callbacks run within it); `ReadF32BE` and the
-- sine table, which need floating point; SHA-1 and Base64 of the WebSocket handshake; how a TCP
-- connection is made and torn down by libuv; the callback of the lockstep engine, which sees each confirmed
-- frame; the encoding of protobuf messages, which is generated; of the Redis client its connecting; of the
-- gateway its upstream pools, the UDP clients' packets and the making of connections.
pub mod Common
pub mod Crypto
pub mod Gateway
pub mod Idgen
pub mod Net
pub mod Realtime
pub mod Redis
