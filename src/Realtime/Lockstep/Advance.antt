-- ===== src/Realtime/Lockstep/Advance.antt =====
-- What `TryAdvance` of common/cpp/realtime/lockstep_engine.cpp confirms.
use gmaker.Common.{
  ℕ, zero, suc, ◌+◌, ◌^◌, ◌≤◌, ◌<◌, ◌≡◌, refl, sym, ap, ◌∙◌, subst, inl, inr, true, some, List, [],
  ◌∷◌, arith, leb, ◌==◌, leb→le, ==→eq, ==→ne, Bool-cases, u32,
}
use gmaker.Common.Dict.{find}
use gmaker.Realtime.Lockstep.{
  FrameInputs, Engine, Verdict, skip, stop, confirm, after, advance, try_advance,
}
use gmaker.Realtime.Lockstep.Parts.{IsKeyed}
use gmaker.Realtime.Lockstep.Round.{round, Round, round_lem, advance_end, advance_step}
use gmaker.Realtime.Lockstep.Confirms.{Confirms, Confirms-back, Confirms-lower, Advanced}

-- The frames of the run behind a round, and the entries that both keep.
joined-Confirms :
    (e : Engine) (c : ℕ) (e2 : Engine) (v : Verdict) (e' : Engine) (out : List FrameInputs)
    → e.current_frame ≤ c
    → c ≤ e.current_frame + 32
    → Round e c e2 v
    → Advanced e2 (suc c) e' out
    → Confirms e e' (suc c) (e.current_frame + 32) out
joined-Confirms e c e2 v e' out lo hi r a =
    Confirms-back e e2 e' (suc c) (suc c) (e.current_frame + 32) out r.same_players
      (λ k l. r.others k (λ q. omega (arith, l, q)) (omega (arith, l))) (omega arith)
      (subst (λ n. Confirms e2 e' (suc c) (n + 32) out) r.same_frame a.confirms)

joined_below :
    (e : Engine) (c : ℕ) (e2 : Engine) (v : Verdict) (e' : Engine) (out : List FrameInputs)
    → e.current_frame ≤ c
    → c ≤ e.current_frame + 32
    → Round e c e2 v
    → Advanced e2 (suc c) e' out
    → (k : ℕ) → e.current_frame ≤ k
    → k < c
    → find e'.frame_buffer k ≡ find e.frame_buffer k
joined_below e c e2 v e' out lo hi r a k l m =
    a.below k (omega (arith, r.same_frame, l)) (omega (arith, m))
    ∙ r.others k (λ q. omega (arith, m, q)) (omega (arith, l, hi))

Round-keeps :
    (e : Engine) (c : ℕ) (e2 : Engine) (v : Verdict)
    → c ≤ e.current_frame + 32
    → Round e c e2 v
    → (k : ℕ) (g : FrameInputs) → e.current_frame ≤ k
    → find e.frame_buffer k ≡ some g
    → g.confirmed ≡ true
    → find e2.frame_buffer k ≡ some g
Round-keeps e c e2 v hi r k g l h q = elim (Bool-cases (k == c)) [
  | inl same ↦
      let s = ==→eq k c same in
      ap (find e2.frame_buffer) s ∙ r.keeps g (sym (ap (find e.frame_buffer) s) ∙ h) q
  | inr other ↦ r.others k (==→ne k c other) (omega (arith, l, hi)) ∙ h
]

-- A round in front of a run.
joined :
    (e : Engine) (c : ℕ) (e2 : Engine) (v : Verdict) (e' : Engine) (out : List FrameInputs)
    → e.current_frame ≤ c
    → c ≤ e.current_frame + 32
    → Round e c e2 v
    → Advanced e2 (suc c) e' out
    → (e'' : Engine) × (out' : List FrameInputs) × (after e2 v (some (e', out)) ≡ some (e'', out'))
      × Advanced e c e'' out'
unfolding after
joined e c e2 stop e' out lo hi r a = (
  e2,
  [],
  refl,
  record {
    confirms = tt;
    below = λ k l m. r.others k (λ q. omega (arith, m, q)) (omega (arith, l, hi));
    keeps = Round-keeps e c e2 stop hi r;
    keyed = r.keyed;
    same_players = r.same_players;
    same_frame = r.same_frame;
  },
)
joined e c e2 skip e' out lo hi r a = (
  e',
  out,
  refl,
  record {
    confirms =
        Confirms-lower e e' c (suc c) (e.current_frame + 32) out (omega arith)
          (joined-Confirms e c e2 skip e' out lo hi r a);
    below = joined_below e c e2 skip e' out lo hi r a;
    keeps = λ k g l h q.
        a.keeps k g (omega (arith, r.same_frame, l)) (Round-keeps e c e2 skip hi r k g l h q) q;
    keyed = a.keyed;
    same_players = a.same_players ∙ r.same_players;
    same_frame = a.same_frame ∙ r.same_frame;
  },
)
joined e c e2 (confirm fi) e' out lo hi r a =
    let (at, marked, complete, placed, first) = r.verdict fi refl in
    (
      e',
      fi ∷ out,
      refl,
      record {
        confirms = (
          record {
            in_order = omega (arith, at);
            in_window = omega (arith, at, hi);
            marked = marked;
            complete = complete;
            stored =
                ap (find e'.frame_buffer) at
                ∙ a.below c (omega (arith, r.same_frame, lo)) (omega arith)
                ∙ placed;
            first_time = λ g h. first g (sym (ap (find e.frame_buffer) at) ∙ h);
          },
          subst (λ k. Confirms e e' (suc k) (e.current_frame + 32) out) (sym at)
              (joined-Confirms e c e2 (confirm fi) e' out lo hi r a),
        );
        below = joined_below e c e2 (confirm fi) e' out lo hi r a;
        keeps = λ k g l h q.
            a.keeps k g (omega (arith, r.same_frame, l))
              (Round-keeps e c e2 (confirm fi) hi r k g l h q) q;
        keyed = a.keyed;
        same_players = a.same_players ∙ r.same_players;
        same_frame = a.same_frame ∙ r.same_frame;
      },
    )

pub advance_lem :
    (f : ℕ) (e : Engine) (c : ℕ)
    → IsKeyed e.frame_buffer
    → e.current_frame ≤ c
    → c ≤ e.current_frame + 33
    → e.current_frame + 33 < 2 ^ 32
    → e.current_frame + 33 < f + c
    → (e' : Engine) × (out : List FrameInputs) × (advance f e c ≡ some (e', out))
      × Advanced e c e' out
advance_lem zero e c keyed lo hi small fuel = absurd (omega arith)
advance_lem (suc f) e c keyed lo hi small fuel =
    let window : u32 (e.current_frame + 32) ≡ e.current_frame + 32 = omega arith in
    elim (Bool-cases (leb c (u32 (e.current_frame + 32)))) [
      | inr over ↦ (
        e,
        [],
        advance_end f e c over,
        record {
          confirms = tt;
          below = λ k l m. refl;
          keeps = λ k g l h q. h;
          keyed = keyed;
          same_players = refl;
          same_frame = refl;
        },
      )
      | inl inside ↦
          let top : c ≤ e.current_frame + 32 =
            omega (arith, window, leb→le c (u32 (e.current_frame + 32)) inside) in
          let next : u32 (c + 1) ≡ suc c = omega arith in
          let r = round_lem e c keyed in
          let e2 = (round e c).0 in
          let v = (round e c).1 in
          let (e', out, run, a) =
            advance_lem f e2 (suc c) r.keyed (omega (arith, r.same_frame))
              (omega (arith, r.same_frame)) (omega (arith, r.same_frame))
              (omega (arith, r.same_frame)) in
          let (e'', out', end, b) = joined e c e2 v e' out lo top r a in
          (
            e'',
            out',
            advance_step f e c inside
                ∙ ap (λ k. after e2 v (advance f e2 k)) next
                ∙ ap (after e2 v) run
                ∙ end,
            b,
          )
    ]

-- `TryAdvance` ends within 33 rounds, below the wrap of the frame counter. The frames that it confirms
-- are numbered upwards, from the current frame on and at most 32 past it; each has an input for every
-- active player, was not confirmed before, and is stored as confirmed; the players and the current
-- frame stay as they were.
pub try_advance_lem :
    (e : Engine)
    → IsKeyed e.frame_buffer
    → e.current_frame + 33 < 2 ^ 32
    → (e' : Engine) × (out : List FrameInputs) × (try_advance e ≡ some (e', out))
      × Advanced e e.current_frame e' out
unfolding try_advance
try_advance_lem e keyed small =
    advance_lem 34 e e.current_frame keyed (omega arith) (omega arith) small (omega arith)
