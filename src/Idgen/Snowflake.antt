-- ===== src/Idgen/Snowflake.antt =====
-- `Snowflake` of common/cpp/idgen/snowflake.hpp and snowflake.cpp. The clock is the list of the times that
-- successive calls of `NowMs` read, in milliseconds since 1970, and `none` says that the list is too
-- short. A time before the first call is -1, written `none`. The result is the bit pattern of `int64_t`.
pub mod Order
pub mod Returns
use gmaker.Common.{
  ℕ, zero, suc, ◌+◌, ◌-◌, ◌*◌, ◌^◌, bit_and, bit_or, Option, none, some, List, [], ◌∷◌, ltb, leb,
  ◌==◌, if◌then◌else◌, u64,
}

abbrev pub node_max : ℕ
node_max = 1023

abbrev pub sequence_mask : ℕ
sequence_mask = 4095

abbrev pub time_shift : ℕ
time_shift = 22

abbrev pub node_shift : ℕ
node_shift = 12

abbrev pub epoch : ℕ
epoch = 1704067200000

pub record Generator : Type 0 where
  pub node_id : ℕ
  pub sequence : ℕ
  pub last_time : Option ℕ

-- The constructor; a node out of range is refused.
unfoldable pub create : ℕ → Option Generator
create node_id =
    if ltb node_max node_id
    then none
    else some (record { node_id = node_id; sequence = 0; last_time = none })

-- A call of `NextID`: an identifier and the clock behind it, the exception of a clock that moved
-- backwards, or a clock list that is too short.
pub data Result : Type 0 where
  issued : Generator → ℕ → List ℕ → Result
  clock_moved_backwards : List ℕ → Result
  clock_stopped : Result

-- `((now - kEpoch) << kTimeShift) | (node_id_ << kNodeShift) | sequence_`.
unfoldable pub compose : ℕ → ℕ → ℕ → ℕ
compose now node_id sequence =
    bit_or (bit_or (u64 ((now + 2 ^ 64 - epoch) * 2 ^ time_shift)) (u64 (node_id * 2 ^ node_shift)))
      sequence

-- The last lines of `NextID`.
unfoldable pub issue : Generator → ℕ → ℕ → List ℕ → Result
issue g now sequence clock =
    issued (record g { sequence = sequence; last_time = some now }) (compose now g.node_id sequence)
      clock

-- `while (now <= last_time_) now = NowMs();`, with the rest of the call.
unfoldable pub wait : Generator → ℕ → ℕ → List ℕ → Result
wait g last now [] = if leb now last then clock_stopped else issue g now 0 []
wait g last now (t ∷ clock) =
    let rest = wait g last t clock in if leb now last then rest else issue g now 0 (t ∷ clock)

-- The tests of `NextID`, after a first identifier.
unfoldable pub next_after : Generator → ℕ → ℕ → List ℕ → Result
next_after g last now clock =
    let sequence = bit_and (g.sequence + 1) sequence_mask in
    if ltb now last
    then clock_moved_backwards clock
    else if now == last
    then if sequence == 0 then wait g last now clock else issue g now sequence clock
    else issue g now 0 clock

-- `NextID`.
unfoldable pub next_id : Generator → List ℕ → Result
next_id g [] = clock_stopped
next_id g (now ∷ clock) = elim g.last_time [
  | none ↦ issue g now 0 clock
  | some last ↦ next_after g last now clock
]

-- Calls until the clock's readings are used up; the exceptions are caught and the calls go on.
unfoldable pub next_ids : ℕ → Generator → List ℕ → List ℕ
next_ids zero g clock = []
next_ids (suc calls) g clock = elim (next_id g clock) [
  | issued g' id clock' ↦ id ∷ next_ids calls g' clock'
  | clock_moved_backwards clock' ↦ next_ids calls g clock'
  | clock_stopped ↦ []
]
