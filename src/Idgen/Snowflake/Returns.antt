-- ===== src/Idgen/Snowflake/Returns.antt =====
-- When `NextID` of common/cpp/idgen/snowflake.cpp returns.
use gmaker.Common.{
  ℕ, ◌+◌, ◌≤◌, ◌<◌, bit_and, ◌≡◌, sym, subst, ◌⊎◌, inl, inr, some, List, [], ◌∷◌, arith, ltb, leb,
  ◌==◌, ltb→lt, leb→le, Option-cases, if_elim,
}
use gmaker.Idgen.Snowflake.{
  sequence_mask, Generator, Result, issued, clock_moved_backwards, clock_stopped, issue, wait,
  next_after, next_id,
}
use gmaker.Idgen.Snowflake.Order.{next_id_new, next_id_later}

-- The clock reads a time past `last` at some point.
abbrev pub Passes : ℕ → List ℕ → Type 0
Passes last [] = ⊥
Passes last (t ∷ clock) = (last < t) ⊎ Passes last clock

-- A call that gives an identifier.
abbrev pub Returns : Result → Type 0
Returns (issued g id clock) = Unit {0}
Returns (clock_moved_backwards clock) = ⊥
Returns clock_stopped = ⊥

issue-Returns :
    (g : Generator) (now sequence : ℕ) (clock : List ℕ) → Returns (issue g now sequence clock)
unfolding issue
issue-Returns g now sequence clock = tt

wait-Returns :
    (g : Generator) (last now : ℕ) (clock : List ℕ)
    → (last < now) ⊎ Passes last clock
    → Returns (wait g last now clock)
unfolding wait
wait-Returns g last now [] later =
    if_elim Returns (leb now last)
      (λ still. elim later [
        | inl l ↦ absurd (omega (arith, l, leb→le now last still))
        | inr p ↦ absurd p
      ])
      (λ _. issue-Returns g now 0 [])
wait-Returns g last now (t ∷ clock) later =
    if_elim Returns (leb now last)
      (λ still. elim later [
        | inl l ↦ absurd (omega (arith, l, leb→le now last still))
        | inr p ↦ wait-Returns g last t clock p
      ])
      (λ _. issue-Returns g now 0 (t ∷ clock))

next_after-Returns :
    (g : Generator) (last now : ℕ) (clock : List ℕ)
    → last ≤ now
    → Passes last clock
    → Returns (next_after g last now clock)
unfolding next_after
next_after-Returns g last now clock forward later =
    if_elim Returns (ltb now last) (λ back. absurd (omega (arith, forward, ltb→lt now last back)))
      (λ _.
        if_elim Returns (now == last)
          (λ _.
            if_elim Returns (bit_and (g.sequence + 1) sequence_mask == 0)
              (λ _. wait-Returns g last now clock (inr later))
              (λ _. issue-Returns g now (bit_and (g.sequence + 1) sequence_mask) clock))
          (λ _. issue-Returns g now 0 clock))

-- `NextID` returns, and throws nothing, whenever the clock has not moved behind the last identifier's
-- time and passes that time at some point of its later readings.
pub next_id-Returns :
    (g : Generator) (now : ℕ) (clock : List ℕ)
    → ((last : ℕ) → g.last_time ≡ some last → (last ≤ now) × Passes last clock)
    → Returns (next_id g (now ∷ clock))
next_id-Returns g now clock h = elim (Option-cases g.last_time) [
  | inl new ↦ subst Returns (sym (next_id_new g now clock new)) (issue-Returns g now 0 clock)
  | inr (last, e) ↦
      let (forward, later) = h last e in
      subst Returns (sym (next_id_later g last now clock e))
        (next_after-Returns g last now clock forward later)
]
