-- ===== src/Idgen/Tests.antt =====
-- The theorem on identifiers at a concrete clock.
use gmaker.Common.{ℕ, ◌≤◌, subst, inl, inr, none, some, List, [], ◌∷◌, arith, some_inj}
use gmaker.Idgen.Snowflake.{Generator, next_ids}
use gmaker.Idgen.Snowflake.{next_id}
use gmaker.Idgen.Snowflake.Returns.{Passes, Returns, next_id-Returns}
use gmaker.Idgen.Snowflake.Order.{IsValid, Ascending, next_ids-Ascending}

abbrev fresh : Generator
fresh = record { node_id = 5; sequence = 0; last_time = none }

-- The clock stands still, and moves backwards once.
abbrev clock : List ℕ
clock = 1704067200001 ∷ 1704067200001 ∷ 1704067200000 ∷ 1704067200002 ∷ []

fresh-IsValid : IsValid fresh
fresh-IsValid = record {
  node = omega arith;
  seq = omega arith;
  time = λ last h. absurd (ground arith);
}

next_ids-Ascending_example : Ascending 5 0 (next_ids 4 fresh clock)
next_ids-Ascending_example = next_ids-Ascending 4 fresh clock fresh-IsValid (
  record { from = omega arith; upto = omega arith },
  (
    record { from = omega arith; upto = omega arith },
    (
      record { from = omega arith; upto = omega arith },
      (record { from = omega arith; upto = omega arith }, tt),
    ),
  ),
)

-- The last sequence number of a millisecond: the call waits for the next.
abbrev used_up : Generator
used_up = record { node_id = 5; sequence = 4095; last_time = some 1704067200001 }

next_id-Returns_example :
    Returns (next_id used_up (1704067200001 ∷ 1704067200001 ∷ 1704067200002 ∷ []))
next_id-Returns_example =
    next_id-Returns used_up 1704067200001 (1704067200001 ∷ 1704067200002 ∷ []) (λ last h.
      let e = some_inj h in
      subst (λ t. (t ≤ 1704067200001) × Passes t (1704067200001 ∷ 1704067200002 ∷ [])) e
        (omega arith, inr (inl (omega arith))))
