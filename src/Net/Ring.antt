-- ===== src/Net/Ring.antt =====
-- `RingBuffer` of common/cpp/net/ring_buffer.hpp and ring_buffer.cpp: a growing ring of bytes.
-- Each `while` loop takes fuel, and `none` says that it ran out; `size_t` sums wrap at 2 ^ 64.
pub mod Cyclic
pub mod Read
pub mod Grow
pub mod Put
pub mod Write
use gmaker.Common.{
  ℕ, zero, suc, ◌+◌, ◌-◌, ◌*◌, ◌%◌, ◌^◌, min, Bool, false, Option, none, some, List, ltb, leb,
  if◌then◌else◌, u64, length, take, drop, replicate, blit,
}

pub record RingBuffer : Type 0 where
  pub buf : List ℕ
  pub rpos : ℕ
  pub wpos : ℕ
  pub stored : ℕ

-- The capacity, `buf_.size()`.
abbrev pub capacity : RingBuffer → ℕ
capacity r = length r.buf

-- The constructor.
unfoldable pub create : ℕ → RingBuffer
create c = record { buf = replicate c 0; rpos = 0; wpos = 0; stored = 0 }

-- `Readable`.
abbrev pub readable : RingBuffer → ℕ
readable r = r.stored

-- `size_t` subtraction.
abbrev pub sub_size : ℕ → ℕ → ℕ
sub_size a b = u64 (a + 2 ^ 64 - b)

-- `while (new_cap < need) new_cap *= 2;`
unfoldable pub grow : ℕ → ℕ → ℕ → Option ℕ
grow zero new_cap need = none
grow (suc fuel) new_cap need =
    let rest = grow fuel (u64 (new_cap * 2)) need in if ltb new_cap need then rest else some new_cap

-- The copying loop of `ReadAt` and `EnsureSpace`: chunks of `buf` from `start` on, and from its
-- front once its end is reached, go to `out`.
unfoldable pub copy_out : ℕ → List ℕ → ℕ → ℕ → ℕ → List ℕ → Option (List ℕ)
copy_out zero buf start copied len out = none
copy_out (suc fuel) buf start copied len out =
    let chunk = min (len - copied) (sub_size (length buf) start) in
    let rest =
      copy_out fuel buf 0 (copied + chunk) len (blit out copied (take chunk (drop start buf))) in
    if ltb copied len then rest else some out

-- The copying loop of `Append`, with the final position: chunks of `bs` go to `pos` on, and to the
-- front of `buf` once its end is reached.
unfoldable pub copy_in : ℕ → List ℕ → ℕ → List ℕ → ℕ → Option (List ℕ × ℕ)
copy_in zero buf pos bs remaining = none
copy_in (suc fuel) buf pos bs remaining =
    let chunk = min remaining (sub_size (length buf) pos) in
    let rest =
      copy_in fuel (blit buf pos (take chunk (drop (length bs - remaining) bs)))
        (u64 (pos + chunk) % length buf) bs (remaining - chunk) in
    if ltb 0 remaining then rest else some (buf, pos)

-- The part of `EnsureSpace` that moves the bytes to a vector of the new capacity.
unfoldable pub move_to : RingBuffer → ℕ → Option RingBuffer
move_to r new_cap =
    let fresh = replicate new_cap 0 in
    let copied : Option (List ℕ) =
      if ltb 0 r.stored
      then copy_out (suc r.stored) r.buf r.rpos 0 r.stored fresh
      else some fresh in
    elim copied [
      | none ↦ none
      | some b ↦ some (record { buf = b; rpos = 0; wpos = r.stored; stored = r.stored })
    ]

-- `EnsureSpace`.
unfoldable pub ensure_space : RingBuffer → ℕ → Option RingBuffer
ensure_space r len =
    let need = u64 (r.stored + len) in
    let grown : Option RingBuffer = elim (grow (suc need) (capacity r) need) [
      | none ↦ none
      | some c ↦ move_to r c
    ] in
    if leb need (capacity r) then some r else grown

-- The second part of `Append`: the copy, and the new position and count.
unfoldable pub store : RingBuffer → List ℕ → Option RingBuffer
store r bs = elim (copy_in (suc (length bs)) r.buf r.wpos bs (length bs)) [
  | none ↦ none
  | some (b, pos) ↦
      some (record { buf = b; rpos = r.rpos; wpos = pos; stored = u64 (r.stored + length bs) })
]

-- `Append`.
unfoldable pub append : RingBuffer → List ℕ → Option RingBuffer
append r bs = elim (ensure_space r (length bs)) [ none ↦ none | some r' ↦ store r' bs ]

-- `IsContiguous`.
unfoldable pub is_contiguous : RingBuffer → ℕ → ℕ → Bool
is_contiguous r offset len =
    let start = u64 (r.rpos + offset) % capacity r in
    if ltb r.stored (u64 (offset + len)) then false else leb (u64 (start + len)) (capacity r)

-- `DataAt`, as an index into `buf`.
unfoldable pub data_at : RingBuffer → ℕ → ℕ
data_at r offset = u64 (r.rpos + offset) % capacity r

-- `ReadAt`.
unfoldable pub read_at : RingBuffer → ℕ → List ℕ → ℕ → Option (List ℕ)
read_at r offset out len = copy_out (suc len) r.buf (u64 (r.rpos + offset) % capacity r) 0 len out

-- `Consume`.
unfoldable pub consume : RingBuffer → ℕ → RingBuffer
consume r len =
    let len' = min len r.stored in
    record r { rpos = u64 (r.rpos + len') % capacity r; stored = r.stored - len' }
