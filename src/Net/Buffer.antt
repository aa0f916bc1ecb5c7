-- ===== src/Net/Buffer.antt =====
-- `Buffer` of common/cpp/net/buffer.hpp and buffer.cpp: views of shared byte vectors.
-- The vectors live in a store, and a `shared_ptr` is an index into it: two buffers with one index
-- alias one vector. `size_t` sums wrap at 2 ^ 64.
pub mod Views
use gmaker.Common.{
  ℕ, ◌+◌, ◌-◌, ◌<◌, ◌≤◌, List, [], ◌∷◌, ◌++◌, Option, none, some, length, get_elem?, get_or, take,
  drop, replicate, u64, ltb, leb, ◌==◌, if◌then◌else◌,
}

abbrev pub Store : Type 0
Store = List (List ℕ)

-- `own_`, `shared_`, `offset_` and `length_`; a null `shared_ptr` is `none`.
pub record Buffer : Type 0 where
  pub own : Option ℕ
  pub shared : Option ℕ
  pub offset : ℕ
  pub len : ℕ

-- `Buffer()`.
abbrev pub empty : Buffer
empty = record { own = none; shared = none; offset = 0; len = 0 }

-- `FromVector`: the vector is stored under a new index.
unfoldable pub from_vector : Store → List ℕ → Store × Buffer
from_vector s v =
    (s ++ v ∷ [], record { own = some (length s); shared = none; offset = 0; len = length v })

-- `Allocate`: a vector of `size` zero bytes.
unfoldable pub allocate : Store → ℕ → Store × Buffer
allocate s size = (
  s ++ replicate size 0 ∷ [],
  record { own = some (length s); shared = none; offset = 0; len = size },
)

-- `Wrap`.
unfoldable pub wrap : Store → Option ℕ → ℕ → ℕ → Buffer
wrap s none offset len = empty
wrap s (some h) offset len =
    let size = length (get_or s h []) in
    let len' = if ltb size (u64 (offset + len)) then size - offset else len in
    if ltb size offset
    then empty
    else record { own = none; shared = some h; offset = offset; len = len' }

-- `Slice`: the same vector through a narrower window.
unfoldable pub slice : Buffer → ℕ → ℕ → Buffer
slice b offset len =
    let len' = if ltb b.len (u64 (offset + len)) then b.len - offset else len in
    if ltb b.len offset then empty else elim b.own [
      | some h ↦ record {
        own = some h;
        shared = none;
        offset = u64 (b.offset + offset);
        len = len';
      }
      | none ↦ record {
        own = none;
        shared = b.shared;
        offset = u64 (b.offset + offset);
        len = len';
      }
    ]

-- The writable `Data()`: an index into the store and a position, or null.
unfoldable pub data_mut : Buffer → Option (ℕ × ℕ)
data_mut b = elim b.own [ some h ↦ some (h, b.offset) | none ↦ none ]

-- `Data() const`.
unfoldable pub data_const : Buffer → Option (ℕ × ℕ)
data_const b = elim b.own [
  | some h ↦ some (h, b.offset)
  | none ↦ elim b.shared [ some h ↦ some (h, b.offset) | none ↦ none ]
]

-- `Size()` and `Empty()`.
abbrev pub size : Buffer → ℕ
size b = b.len

-- The `n` bytes from a pointer on; `none` is a read past the end of the vector.
unfoldable pub region : Store → ℕ × ℕ → ℕ → Option (List ℕ)
region s (h, i) n =
    let v = get_or s h [] in if leb (i + n) (length v) then some (take n (drop i v)) else none

-- `operator[]`: 0 without a pointer; `none` is a read past the end.
unfoldable pub index : Store → Buffer → ℕ → Option ℕ
unfolding data_const
index s b i = elim (data_const b) [
  | none ↦ some 0
  | some (h, o) ↦ get_elem? (get_or s h []) (o + i)
]

-- `ToVector()`; `none` is a read past the end.
unfoldable pub to_vector : Store → Buffer → Option (List ℕ)
unfolding data_const region
to_vector s b =
    let copy : Option (List ℕ) = elim (data_const b) [
      | none ↦ some []
      | some p ↦ region s p b.len
    ] in
    if b.len == 0 then some [] else copy

-- The vector that a buffer looks into.
abbrev pub backing : Store → Buffer → List ℕ
backing s b = elim b.own [
  | some h ↦ get_or s h []
  | none ↦ elim b.shared [ some h ↦ get_or s h [] | none ↦ [] ]
]

-- What a buffer shows.
abbrev pub bytes : Store → Buffer → List ℕ
bytes s b = take b.len (drop b.offset (backing s b))

-- The window lies in the vector, and no vector is longer than `size_t` can say.
pub record IsValid (s : Store) (b : Buffer) : Type 0 where
  pub inside : b.offset + b.len ≤ length (backing s b)
  pub fits : length (backing s b) < 18446744073709551616
