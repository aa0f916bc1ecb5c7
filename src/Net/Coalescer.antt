-- ===== src/Net/Coalescer.antt =====
-- `AsyncWriteCoalescer` of common/cpp/net/async/coalescer.hpp and coalescer.cpp: buffers wait for the timer,
-- which hands each connection its own in one batch. A connection is a number, a null pointer `none`;
-- the map of the batches is in the order of its keys, which stands for the unspecified order of
-- `std::unordered_map`. Encoding adds a vector to the store of Net/Buffer.antt.
pub mod Flush
pub mod Delivery
mod Tests
use gmaker.Common.{
  ℕ, Bool, true, false, not, Option, none, some, List, [], ◌∷◌, ◌++◌, if◌then◌else◌,
}
use gmaker.Common.Dict.{Dict, find, put}
use gmaker.Net.Buffer.{Store, Buffer, slice, size}
use gmaker.Net.Packet.{Packet, encode_packet}

-- `Pending`, without the owner, which keeps the connection alive.
pub record Pending : Type 0 where
  pub conn : Option ℕ
  pub encoded : Buffer

-- `loop_` with its raw loop, `timer_`, `running_` and `pending_`.
pub record Coalescer : Type 0 where
  pub has_loop : Bool
  pub timer : Bool
  pub running : Bool
  pub pending : List Pending

-- `Start`.
unfoldable pub start : Coalescer → Coalescer × Bool
start co =
    if co.running
    then (co, false)
    else if not co.has_loop
    then (co, false)
    else (record co { running = true; timer = true }, true)

-- `Stop`.
unfoldable pub stop_timer : Coalescer → Coalescer
stop_timer co = if co.running then record co { running = false; timer = false } else co

-- `pending_.push_back`.
abbrev pub push : Coalescer → Option ℕ → Buffer → Coalescer
push co conn encoded = record co {
  pending = co.pending ++ record { conn = conn; encoded = encoded } ∷ [];
}

-- `Enqueue` of a packet; `none` is a read past a vector in `EncodePacket`.
unfoldable pub enqueue_packet : Store → Coalescer → Option ℕ → Packet → Option (Store × Coalescer)
enqueue_packet s co conn pkt = elim (encode_packet s pkt) [
  | none ↦ none
  | some (s', encoded) ↦ some (s', push co conn encoded)
]

-- `Enqueue` of a buffer.
unfoldable pub enqueue_buffer : Coalescer → Option ℕ → Buffer → Coalescer
enqueue_buffer co conn encoded = push co conn (slice encoded 0 (size encoded))

-- The loop of `Broadcast`.
unfoldable pub push_each : Coalescer → List (Option ℕ) → Buffer → Coalescer
push_each co [] encoded = co
push_each co (conn ∷ conns) encoded =
    push_each (push co conn (slice encoded 0 (size encoded))) conns encoded

-- `Broadcast`: one encoding, shared by all.
unfoldable pub broadcast : Store → Coalescer → List (Option ℕ) → Packet → Option (Store × Coalescer)
broadcast s co conns pkt = elim (encode_packet s pkt) [
  | none ↦ none
  | some (s', encoded) ↦ some (s', push_each co conns encoded)
]

-- `batches[conn]`, which makes an empty batch where there is none.
abbrev pub batch_of : Dict (List Buffer) → ℕ → List Buffer
batch_of batches c = elim (find batches c) [ none ↦ [] | some buffers ↦ buffers ]

-- The grouping loop of `DoFlush`.
unfoldable pub group : List Pending → Dict (List Buffer) → Dict (List Buffer)
group [] batches = batches
group (p ∷ ps) batches =
    group ps (elim p.conn [
      | none ↦ batches
      | some c ↦ put batches c (batch_of batches c ++ p.encoded ∷ [])
    ])

-- `DoFlush`, with what `SendBatch` is called with.
unfoldable pub do_flush : Coalescer → Coalescer × Dict (List Buffer)
do_flush co = (record co { pending = [] }, group co.pending [])
