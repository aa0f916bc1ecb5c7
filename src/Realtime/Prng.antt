-- ===== src/Realtime/Prng.antt =====
-- `Xorshift64` of common/cpp/realtime/deterministic/prng.hpp; its state is a `uint64_t`.
pub mod Range
use gmaker.Common.{ℕ, ◌*◌, ◌/◌, ◌%◌, ◌^◌, bit_xor, List, [], ◌∷◌, ◌==◌, if◌then◌else◌, u32, u64}

abbrev pub default_seed : ℕ
default_seed = 0x9E3779B97F4A7C15

-- `Xorshift64(seed)`, as its state.
unfoldable pub create : ℕ → ℕ
create seed = if seed == 0 then default_seed else seed

-- `next`, as the new state, which is also the result.
unfoldable pub next : ℕ → ℕ
next state =
    let x1 = bit_xor state (u64 (state * 2 ^ 13)) in
    let x2 = bit_xor x1 (x1 / 2 ^ 7) in bit_xor x2 (u64 (x2 * 2 ^ 17))

-- `next_uint32`: the new state and the number.
unfoldable pub next_uint32 : ℕ → ℕ → ℕ × ℕ
next_uint32 state max =
    if max == 0 then (state, 0) else (next state, u32 (next state / 2 ^ 32) % max)

-- `next_fixed_raw`.
unfoldable pub next_fixed_raw : ℕ → ℕ × ℕ
next_fixed_raw state = (next state, next state / 2 ^ 32)

-- A number for each bound, one after the other.
unfoldable pub draws : ℕ → List ℕ → ℕ × List ℕ
draws state [] = (state, [])
draws state (max ∷ maxes) =
    let (state1, r) = next_uint32 state max in
    let (state2, rs) = draws state1 maxes in (state2, r ∷ rs)
