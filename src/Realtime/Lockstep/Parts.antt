-- ===== src/Realtime/Lockstep/Parts.antt =====
-- The parts of a round of `TryAdvance`: the placeholder, the tests and the storing, common/cpp/realtime/lockstep_engine.cpp.
use gmaker.Common.{
  ℕ, ◌+◌, ◌-◌, ◌^◌, ◌<◌, ◌≡◌, refl, sym, ap, ◌∙◌, ◌≢◌, inl, inr, Bool, true, false, Option, none,
  some, arith, ltb, leb, ◌==◌, ==→eq, ==_self, ne→==, tests, Bool-cases, Option-cases, if_elim,
  some_inj, u32,
}
use gmaker.Common.Dict.{Dict, find, put, find-put, erase, find-erase}
use gmaker.Realtime.Lockstep.{
  FrameInputs, Engine, Verdict, skip, stop, confirm, blank_frame, entry, history_size, have_all,
  is_frame_ready, ensure_frame, judge, settle,
}
use gmaker.Realtime.Lockstep.Inputs.{Complete, have_all_lem, fill-Complete}

-- Every entry of the buffer stands under its own frame.
abbrev pub IsKeyed : Dict FrameInputs → Type 0
IsKeyed buffer = (k : ℕ) (fi : FrameInputs) → find buffer k ≡ some fi → fi.frame ≡ k

pub put-IsKeyed :
    (b : Dict FrameInputs) (k : ℕ) (fi : FrameInputs)
    → IsKeyed b
    → fi.frame ≡ k
    → IsKeyed (put b k fi)
put-IsKeyed b k fi keyed e i gi h = elim (Bool-cases (k == i)) [
  | inl same ↦
      let at : find (put b k fi) i ≡ some fi = find-put b k fi i ∙ rw same refl in
      ap (λ (x : FrameInputs). x.frame) (some_inj (sym h ∙ at)) ∙ e ∙ ==→eq k i same
  | inr other ↦ keyed i gi (sym (find-put b k fi i ∙ rw other refl) ∙ h)
]

pub erase-IsKeyed : (b : Dict FrameInputs) (k : ℕ) → IsKeyed b → IsKeyed (erase b k)
erase-IsKeyed b k keyed i gi h = elim (Bool-cases (k == i)) [
  | inl same ↦ absurd (none_some (sym (find-erase b k i ∙ rw same refl) ∙ h))
  | inr other ↦ keyed i gi (sym (find-erase b k i ∙ rw other refl) ∙ h)
]
  where
    none_some : {x : FrameInputs} → none ≡ some x → ⊥
    none_some {x} e = ground arith

pub entry_lem :
    (e : Engine) (c : ℕ) (fi : FrameInputs) → find e.frame_buffer c ≡ some fi → entry e c ≡ fi
entry_lem e c fi h = ap (λ (o : Option FrameInputs). elim o [ none ↦ blank_frame | some x ↦ x ]) h

-- The placeholder is there, and nothing else has changed.
pub record Ensured (e e' : Engine) (c : ℕ) : Type 0 where
  pub fi : FrameInputs
  pub there : find e'.frame_buffer c ≡ some fi
  pub fresh : (g : FrameInputs) → find e.frame_buffer c ≡ some g → fi ≡ g
  pub others : (k : ℕ) → k ≢ c → find e'.frame_buffer k ≡ find e.frame_buffer k
  pub keyed : IsKeyed e.frame_buffer → IsKeyed e'.frame_buffer
  pub same_players : e'.active_players ≡ e.active_players
  pub same_frame : e'.current_frame ≡ e.current_frame

pub ensure_frame_lem : (e : Engine) (c : ℕ) → Ensured e (ensure_frame e c) c
unfolding ensure_frame
ensure_frame_lem e c = elim (Option-cases (find e.frame_buffer c)) [
  | inr (g, found) ↦
      rw (found, ensure_frame)
        record {
          fi = g;
          there = found;
          fresh = λ g' h. some_inj (sym found ∙ h);
          others = λ k ne. refl;
          keyed = λ v. v;
          same_players = refl;
          same_frame = refl;
        }
  | inl missing ↦
      let fi : FrameInputs = record blank_frame { frame = c } in
      rw (missing, ensure_frame)
        record {
          fi = fi;
          there = find-put e.frame_buffer c fi c ∙ rw (==_self c) refl;
          fresh = λ g h. absurd (none_some (sym missing ∙ h));
          others = λ k ne. find-put e.frame_buffer c fi k ∙ rw (ne→== c k (λ q. ne (sym q))) refl;
          keyed = λ v. put-IsKeyed e.frame_buffer c fi v refl;
          same_players = refl;
          same_frame = refl;
        }
]
  where
    none_some : {x : FrameInputs} → none ≡ some x → ⊥
    none_some {x} q = ground arith

-- What a verdict says.
abbrev pub Judged : Engine → FrameInputs → Verdict → Type 0
Judged e fi skip = fi.confirmed ≡ true
Judged e fi stop = fi.confirmed ≡ false
Judged e fi (confirm fi') =
    (fi.confirmed ≡ false)
    × (fi'.frame ≡ fi.frame)
    × (fi'.confirmed ≡ true)
    × Complete e.active_players fi'.player_inputs

-- The test of `IsFrameReady`, of what the lookup gives.
ready_of : Engine → Option FrameInputs → Bool
ready_of e none = false
ready_of e (some fi) = have_all e.active_players fi.player_inputs

ready_Complete :
    (e : Engine) (c : ℕ) (fi : FrameInputs)
    → find e.frame_buffer c ≡ some fi
    → is_frame_ready e c ≡ true
    → Complete e.active_players fi.player_inputs
unfolding is_frame_ready ready_of
ready_Complete e c fi there h =
    have_all_lem e.active_players fi.player_inputs (sym (ap (ready_of e) there) ∙ h)

pub judge_lem :
    (e : Engine) (c : ℕ) (fi : FrameInputs)
    → find e.frame_buffer c ≡ some fi
    → Judged e fi (judge e c fi)
unfolding judge
judge_lem e c fi there =
    if_elim (Judged e fi) fi.confirmed (λ h. h)
      (λ open_frame.
        if_elim (Judged e fi) (is_frame_ready e c)
          (λ ready. (open_frame, refl, refl, ready_Complete e c fi there ready))
          (λ late. elim (Option-cases (find e.frame_start_count c)) [
            | inl none_there ↦ rw none_there open_frame
            | inr (start, found) ↦ rw found (
                if_elim (Judged e fi)
                  (leb e.timeout_frames (u32 (e.frame_counter + 2 ^ 32 - start)))
                  (λ _. (open_frame, refl, refl, fill-Complete e e.active_players fi.player_inputs))
                  (λ _. open_frame))
          ]))

-- What a round leaves.
pub record Settled (e e' : Engine) (c : ℕ) (v : Verdict) : Type 0 where
  pub others :
      (k : ℕ) → k ≢ c → c < k + history_size → find e'.frame_buffer k ≡ find e.frame_buffer k
  pub same_players : e'.active_players ≡ e.active_players
  pub same_frame : e'.current_frame ≡ e.current_frame

abbrev pub Placed : Engine → ℕ → Verdict → Type 0
Placed e' c skip = Unit {0}
Placed e' c stop = Unit {0}
Placed e' c (confirm fi) = find e'.frame_buffer c ≡ some fi

pub settle_lem :
    (e : Engine) (c : ℕ) (v : Verdict) → Settled e (settle e c v) c v × Placed (settle e c v) c v
unfolding settle
settle_lem e c skip =
    (record { others = λ k ne h. refl; same_players = refl; same_frame = refl }, tt)
settle_lem e c stop =
    (record { others = λ k ne h. refl; same_players = refl; same_frame = refl }, tt)
settle_lem e c (confirm fi) =
    let b = put e.frame_buffer c fi in
    let other : (k : ℕ) → k ≢ c → find b k ≡ find e.frame_buffer k =
      λ k ne. find-put e.frame_buffer c fi k ∙ rw (ne→== c k (λ q. ne (sym q))) refl in
    let here : find b c ≡ some fi = find-put e.frame_buffer c fi c ∙ rw (==_self c) refl in
    elim (Bool-cases (ltb history_size c)) [
      | inr young ↦
          rw young
            (record { others = λ k ne h. other k ne; same_players = refl; same_frame = refl }, here)
      | inl old ↦
          let kept : (k : ℕ)
              → c < k + history_size
              → find (erase b (c - history_size)) k ≡ find b k =
            λ k h.
              find-erase b (c - history_size) k
              ∙ rw (ne→== (c - history_size) k (λ q. omega (tests, old, h, q))) refl in
          rw old (
            record {
              others = λ k ne h. kept k h ∙ other k ne;
              same_players = refl;
              same_frame = refl;
            },
            kept c (omega arith) ∙ here,
          )
    ]

pub settle-IsKeyed :
    (e : Engine) (c : ℕ) (fi : FrameInputs) (v : Verdict)
    → IsKeyed e.frame_buffer
    → fi.frame ≡ c
    → Judged e fi v
    → IsKeyed (settle e c v).frame_buffer
unfolding settle
settle-IsKeyed e c fi skip keyed at j = keyed
settle-IsKeyed e c fi stop keyed at j = keyed
settle-IsKeyed e c fi (confirm fi') keyed at (_, same, _, _) =
    let placed = put-IsKeyed e.frame_buffer c fi' keyed (same ∙ at) in
    elim (Bool-cases (ltb history_size c)) [
      | inr young ↦ rw young placed
      | inl old ↦ rw old (erase-IsKeyed (put e.frame_buffer c fi') (c - history_size) placed)
    ]
