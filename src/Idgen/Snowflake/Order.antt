-- ===== src/Idgen/Snowflake/Order.antt =====
-- The order of the identifiers of common/cpp/idgen/snowflake.cpp.
use gmaker.Common.{
  ℕ, zero, suc, ◌+◌, ◌-◌, ◌*◌, ◌/◌, ◌%◌, ◌^◌, ◌≤◌, ◌<◌, bit_and, bit_or, ◌≡◌, refl, sym, ap, ap₂,
  ◌∙◌, subst, subst₂, inl, inr, false, Option, none, some, List, [], ◌∷◌, arith, ltb, leb, ◌==◌,
  ltb→le, leb→lt, ==→eq, ==→ne, lt→leb, Option-cases, if_elim, some_inj, u64,
}
use gmaker.Common.Bits.{or_disjoint, and_mask}
use gmaker.Idgen.Snowflake.{
  node_max, sequence_mask, time_shift, node_shift, epoch, Generator, Result, issued,
  clock_moved_backwards, clock_stopped, compose, issue, wait, next_after, next_id, next_ids,
}

-- A time from 2024 on, for 2 ^ 41 milliseconds (69 years).
pub record InRange (now : ℕ) : Type 0 where
  pub from : epoch ≤ now
  pub upto : now < epoch + 2 ^ 41

abbrev pub AllInRange : List ℕ → Type 0
AllInRange [] = Unit {0}
AllInRange (t ∷ clock) = InRange t × AllInRange clock

-- The identifier's three parts side by side.
abbrev pub parts : ℕ → ℕ → ℕ → ℕ
parts now node sequence = (now - epoch) * 4194304 + node * 4096 + sequence

pub compose_lem :
    (now node sequence : ℕ)
    → InRange now
    → node ≤ node_max
    → sequence ≤ sequence_mask
    → compose now node sequence ≡ parts now node sequence
unfolding compose
compose_lem now node sequence r n s =
    let t : u64 ((now + 2 ^ 64 - epoch) * 2 ^ time_shift) ≡ (now - epoch) * 4194304 =
      omega (arith, r.from, r.upto) in
    let m : u64 (node * 2 ^ node_shift) ≡ node * 4096 = omega arith in
    let high : bit_or ((now - epoch) * 4194304) (node * 4096)
        ≡ (now - epoch) * 4194304 + node * 4096 =
      or_disjoint 22 ((now - epoch) * 4194304) (node * 4096) (omega arith) (omega arith) in
    ap₂ (λ x y. bit_or (bit_or x y) sequence) t m
    ∙ ap (λ x. bit_or x sequence) high
    ∙ or_disjoint 12 ((now - epoch) * 4194304 + node * 4096) sequence (omega arith) (omega arith)

-- The node, the sequence number and the last time are in their ranges.
pub record IsValid (g : Generator) : Type 0 where
  pub node : g.node_id ≤ node_max
  pub seq : g.sequence ≤ sequence_mask
  pub time : (last : ℕ) → g.last_time ≡ some last → InRange last

-- The least identifier that a generator may still issue.
abbrev pub floor : Generator → ℕ
floor g = elim g.last_time [ none ↦ 0 | some last ↦ suc (parts last g.node_id g.sequence) ]

-- An outcome keeps the order, and the clock that is left is in range.
abbrev pub Issues : Generator → Result → Type 0
Issues g (issued g' id clock) =
    (floor g ≤ id)
    × (id / 4096 % 1024 ≡ g.node_id)
    × (floor g' ≡ suc id)
    × IsValid g'
    × (g'.node_id ≡ g.node_id)
    × AllInRange clock
Issues g (clock_moved_backwards clock) = AllInRange clock
Issues g clock_stopped = Unit {0}

issue_lem :
    (g : Generator) (now sequence : ℕ) (clock : List ℕ)
    → IsValid g
    → InRange now
    → sequence ≤ sequence_mask
    → AllInRange clock
    → floor g ≤ parts now g.node_id sequence
    → Issues g (issue g now sequence clock)
unfolding issue
issue_lem g now sequence clock v r s c lo =
    let e = compose_lem now g.node_id sequence r v.node s in
    (
      omega (arith, e, lo),
      omega (arith, e, v.node),
      ap suc (sym e),
      record { node = v.node; seq = s; time = λ last h. subst InRange (some_inj h) r },
      refl,
      c,
    )

floor-some :
    (g : Generator) (last : ℕ)
    → g.last_time ≡ some last
    → floor g ≡ suc (parts last g.node_id g.sequence)
floor-some g last h = rw h refl

later_floor :
    (g : Generator) (last now : ℕ)
    → IsValid g
    → g.last_time ≡ some last
    → InRange now
    → leb now last ≡ false
    → floor g ≤ parts now g.node_id 0
later_floor g last now v h r later =
    let t = v.time last h in
    omega (arith, floor-some g last h, v.seq, r.from, leb→lt now last later, t.from)

wait_lem :
    (g : Generator) (last now : ℕ) (clock : List ℕ)
    → IsValid g
    → g.last_time ≡ some last
    → InRange now
    → AllInRange clock
    → Issues g (wait g last now clock)
unfolding wait
wait_lem g last now [] v h r c =
    if_elim (Issues g) (leb now last) (λ _. tt)
      (λ later. issue_lem g now 0 [] v r (omega arith) c (later_floor g last now v h r later))
wait_lem g last now (t ∷ clock) v h r (rt, c) =
    if_elim (Issues g) (leb now last) (λ _. wait_lem g last t clock v h rt c)
      (λ later.
        issue_lem g now 0 (t ∷ clock) v r (omega arith) (rt, c)
          (later_floor g last now v h r later))

next_after_lem :
    (g : Generator) (last now : ℕ) (clock : List ℕ)
    → IsValid g
    → g.last_time ≡ some last
    → InRange now
    → AllInRange clock
    → Issues g (next_after g last now clock)
unfolding next_after
next_after_lem g last now clock v h r c =
    let mask : bit_and (g.sequence + 1) sequence_mask ≡ (g.sequence + 1) % 4096 =
      and_mask 12 (g.sequence + 1) in
    if_elim (Issues g) (ltb now last) (λ _. c)
      (λ forward.
        if_elim (Issues g) (now == last)
          (λ same.
            if_elim (Issues g) (bit_and (g.sequence + 1) sequence_mask == 0)
              (λ _. wait_lem g last now clock v h r c)
              (λ more.
                issue_lem g now (bit_and (g.sequence + 1) sequence_mask) clock v r
                  (omega (arith, mask)) c
                  (omega (
                    arith,
                    mask,
                    floor-some g last h,
                    v.seq,
                    ==→eq now last same,
                    ==→ne (bit_and (g.sequence + 1) sequence_mask) 0 more,
                  ))))
          (λ other. issue_lem g now 0 clock v r (omega arith) c (
            later_floor g last now v h r
              (lt→leb now last (omega (arith, ltb→le now last forward, ==→ne now last other))))))

pub next_id_new :
    (g : Generator) (now : ℕ) (clock : List ℕ)
    → g.last_time ≡ none
    → next_id g (now ∷ clock) ≡ issue g now 0 clock
unfolding next_id
next_id_new g now clock h =
    ap (λ (o : Option ℕ). elim o [ none ↦ issue g now 0 clock | some t ↦ next_after g t now clock ])
      h

pub next_id_later :
    (g : Generator) (last now : ℕ) (clock : List ℕ)
    → g.last_time ≡ some last
    → next_id g (now ∷ clock) ≡ next_after g last now clock
unfolding next_id
next_id_later g last now clock h =
    ap (λ (o : Option ℕ). elim o [ none ↦ issue g now 0 clock | some t ↦ next_after g t now clock ])
      h

floor-none : (g : Generator) → g.last_time ≡ none → floor g ≡ 0
floor-none g h = rw h refl

next_id_lem :
    (g : Generator) (clock : List ℕ) → IsValid g → AllInRange clock → Issues g (next_id g clock)
unfolding next_id
next_id_lem g [] v c = tt
next_id_lem g (now ∷ clock) v (r, c) = elim (Option-cases g.last_time) [
  | inl new ↦
      subst (Issues g) (sym (next_id_new g now clock new))
        (issue_lem g now 0 clock v r (omega arith) c (omega (arith, floor-none g new)))
  | inr (last, h) ↦
      subst (Issues g) (sym (next_id_later g last now clock h))
        (next_after_lem g last now clock v h r c)
]

-- Identifiers of a node, each above the one before, from `lo` on.
abbrev pub Ascending : ℕ → ℕ → List ℕ → Type 0
Ascending node lo [] = Unit {0}
Ascending node lo (id ∷ ids) = (lo ≤ id) × (id / 4096 % 1024 ≡ node) × Ascending node (suc id) ids

-- An outcome in front of the calls behind it.
outcome-Ascending :
    (calls : ℕ) (g : Generator) (r : Result)
    → ((g' : Generator) (clock : List ℕ)
        → IsValid g'
        → AllInRange clock
        → Ascending g'.node_id (floor g') (next_ids calls g' clock))
    → IsValid g
    → Issues g r
    → Ascending g.node_id (floor g) (elim r [
      | issued g' id clock ↦ id ∷ next_ids calls g' clock
      | clock_moved_backwards clock ↦ next_ids calls g clock
      | clock_stopped ↦ []
    ])
outcome-Ascending calls g (issued g' id clock) ih v (lo, node, next, v', same, c) =
    (lo, node, subst₂ (λ n k. Ascending n k (next_ids calls g' clock)) same next (ih g' clock v' c))
outcome-Ascending calls g (clock_moved_backwards clock) ih v c = ih g clock v c
outcome-Ascending calls g clock_stopped ih v c = tt

-- Whatever the clock reads from 2024 on for 2 ^ 41 milliseconds, forwards, standing still or
-- backwards: the identifiers that a valid generator issues in any number of calls rise strictly, above
-- those that it issued before, and each carries the generator's node in its ten bits.
pub next_ids-Ascending :
    (calls : ℕ) (g : Generator) (clock : List ℕ)
    → IsValid g
    → AllInRange clock
    → Ascending g.node_id (floor g) (next_ids calls g clock)
unfolding next_ids
next_ids-Ascending zero g clock v c = tt
next_ids-Ascending (suc calls) g clock v c =
    outcome-Ascending calls g (next_id g clock) (next_ids-Ascending calls) v
      (next_id_lem g clock v c)
