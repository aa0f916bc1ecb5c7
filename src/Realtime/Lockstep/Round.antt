-- ===== src/Realtime/Lockstep/Round.antt =====
-- A whole round of `TryAdvance` of common/cpp/realtime/lockstep_engine.cpp, and the loop's unrolling.
use gmaker.Common.{
  ℕ, suc, ◌+◌, ◌<◌, ◌≡◌, sym, ap, ◌∙◌, subst, ◌≢◌, true, false, some, [], arith, leb, u32,
}
use gmaker.Common.Dict.{find}
use gmaker.Realtime.Lockstep.{
  FrameInputs, Engine, Verdict, skip, stop, confirm, entry, history_size, ensure_frame, judge,
  settle, after, advance,
}
use gmaker.Realtime.Lockstep.Inputs.{Complete}
use gmaker.Realtime.Lockstep.Parts.{
  IsKeyed, ensure_frame_lem, Judged, judge_lem, Placed, settle_lem, settle-IsKeyed, entry_lem,
}

-- One round, as the run goes through it.
unfoldable pub round : Engine → ℕ → Engine × Verdict
round e c = let e1 = ensure_frame e c in let v = judge e1 c (entry e1 c) in (settle e1 c v, v)

pub record Round (e : Engine) (c : ℕ) (e2 : Engine) (v : Verdict) : Type 0 where
  pub others :
      (k : ℕ) → k ≢ c → c < k + history_size → find e2.frame_buffer k ≡ find e.frame_buffer k
  pub keeps :
      (g : FrameInputs)
      → find e.frame_buffer c ≡ some g
      → g.confirmed ≡ true
      → find e2.frame_buffer c ≡ some g
  pub keyed : IsKeyed e2.frame_buffer
  pub same_players : e2.active_players ≡ e.active_players
  pub same_frame : e2.current_frame ≡ e.current_frame
  pub verdict :
      (fi : FrameInputs)
      → v ≡ confirm fi
      → (fi.frame ≡ c)
        × (fi.confirmed ≡ true)
        × Complete e.active_players fi.player_inputs
        × (find e2.frame_buffer c ≡ some fi)
        × ((g : FrameInputs) → find e.frame_buffer c ≡ some g → g.confirmed ≡ false)

settled_verdict :
    (e1 : Engine) (c : ℕ) (fi : FrameInputs) (v : Verdict)
    → fi.frame ≡ c
    → Judged e1 fi v
    → Placed (settle e1 c v) c v
    → (fi' : FrameInputs) → v ≡ confirm fi'
    → (fi'.frame ≡ c)
      × (fi'.confirmed ≡ true)
      × Complete e1.active_players fi'.player_inputs
      × (find (settle e1 c v).frame_buffer c ≡ some fi')
      × (fi.confirmed ≡ false)
settled_verdict e1 c fi skip at j placed fi' h = absurd (ground arith)
settled_verdict e1 c fi stop at j placed fi' h = absurd (ground arith)
settled_verdict e1 c fi (confirm fi1) at (open_frame, same, marked, complete) placed fi' h =
    let e : fi1 ≡ fi' = ap (λ (v : Verdict). elim v [ confirm x ↦ x | _ ↦ fi1 ]) h in
    subst
      (λ x.
        (x.frame ≡ c)
        × (x.confirmed ≡ true)
        × Complete e1.active_players x.player_inputs
        × (find (settle e1 c (confirm fi1)).frame_buffer c ≡ some x)
        × (fi.confirmed ≡ false))
      e (same ∙ at, marked, complete, placed, open_frame)

settled_keeps :
    (e1 : Engine) (c : ℕ) (fi : FrameInputs) (v : Verdict)
    → Judged e1 fi v
    → fi.confirmed ≡ true
    → find e1.frame_buffer c ≡ some fi
    → find (settle e1 c v).frame_buffer c ≡ some fi
unfolding settle
settled_keeps e1 c fi skip j h there = there
settled_keeps e1 c fi stop j h there = there
settled_keeps e1 c fi (confirm fi') j h there = absurd (true_false (sym h ∙ j.0))
  where
    true_false : true ≡ false → ⊥
    true_false q = ground arith

pub round_lem :
    (e : Engine) (c : ℕ) → IsKeyed e.frame_buffer → Round e c ((round e c).0) ((round e c).1)
unfolding round
round_lem e c keyed =
    let e1 = ensure_frame e c in
    let m = ensure_frame_lem e c in
    let keyed1 = m.keyed keyed in
    let at = keyed1 c m.fi m.there in
    let v = judge e1 c (entry e1 c) in
    let j : Judged e1 m.fi v =
      subst (λ x. Judged e1 m.fi (judge e1 c x)) (sym (entry_lem e1 c m.fi m.there))
        (judge_lem e1 c m.fi m.there) in
    let (s, placed) = settle_lem e1 c v in
    record {
      others = λ k ne h. s.others k ne h ∙ m.others k ne;
      keeps = λ g h q.
          let same = m.fresh g h in
          settled_keeps e1 c m.fi v j (ap (λ (x : FrameInputs). x.confirmed) same ∙ q) m.there
          ∙ ap some same;
      keyed = settle-IsKeyed e1 c m.fi v keyed1 at j;
      same_players = s.same_players ∙ m.same_players;
      same_frame = s.same_frame ∙ m.same_frame;
      verdict = λ fi' h.
          let (a, b, c', d, f) = settled_verdict e1 c m.fi v at j placed fi' h in
          (
            a,
            b,
            subst (λ ps. Complete ps fi'.player_inputs) m.same_players c',
            d,
            λ g k. ap (λ (x : FrameInputs). x.confirmed) (sym (m.fresh g k)) ∙ f,
          );
    }

pub advance_end :
    (f : ℕ) (e : Engine) (c : ℕ)
    → leb c (u32 (e.current_frame + 32)) ≡ false
    → advance (suc f) e c ≡ some (e, [])
unfolding advance
advance_end f e c h = rw (h, advance)

pub advance_step :
    (f : ℕ) (e : Engine) (c : ℕ)
    → leb c (u32 (e.current_frame + 32)) ≡ true
    → advance (suc f) e c
      ≡ after ((round e c).0) ((round e c).1) (advance f ((round e c).0) (u32 (c + 1)))
unfolding advance round
advance_step f e c h = rw (h, advance)
