-- ===== src/Realtime/Lockstep/Fight.antt =====
-- How `BattleRoom` drives the engine: `Tick` and `TickFighting` of common/cpp/realtime/battle_room.cpp move
-- the current frame on before each `TryAdvance`, and inputs arrive between the ticks.
use gmaker.Common.{
  ℕ, ◌+◌, ◌-◌, ◌^◌, ◌<◌, ◌≡◌, refl, ap, ◌∙◌, inl, inr, Bool, true, false, Option, none, some, List,
  [], ◌∷◌, ◌++◌, arith, leb, lt→ltb, le→leb, lt→leb, ==_self, ne→==, Bool-cases, is_some, if_elim,
  u32, length,
}
use gmaker.Common.Dict.{find, put, find-put, member}
use gmaker.Realtime.Lockstep.{
  PlayerInput, FrameInputs, Engine, Verdict, stop, blank_frame, entry, have_all, is_frame_ready,
  ensure_frame, judge, settle, after, advance, try_advance, set_current_frame, submit_input,
  tick_frame_counter,
}
use gmaker.Realtime.Lockstep.Inputs.{have_all_lem}
use gmaker.Realtime.Lockstep.Parts.{entry_lem}
use gmaker.Realtime.Lockstep.Round.{round, advance_step}

-- The calls of the engine in one tick of a fight.
unfoldable pub tick_fighting : Engine → ℕ → Option (Engine × List FrameInputs)
tick_fighting e frame = try_advance (set_current_frame (tick_frame_counter e) frame)

-- `SubmitInput` for each message that arrives before the next tick.
unfoldable pub submit_all : Engine → List (ℕ × PlayerInput) → Engine
submit_all e [] = e
submit_all e ((pid, input) ∷ inputs) = submit_all ((submit_input e pid input).0) inputs

-- A fight: the messages, then the tick with the next frame, again and again; all the frames confirmed.
unfoldable pub fight :
    Engine → ℕ → List (List (ℕ × PlayerInput)) → Option (Engine × List FrameInputs)
fight e frame [] = some (e, [])
fight e frame (inputs ∷ ticks) = elim (tick_fighting (submit_all e inputs) frame) [
  | none ↦ none
  | some (e1, out1) ↦ elim (fight e1 (frame + 1) ticks) [
    | none ↦ none
    | some (e2, out2) ↦ some (e2, out1 ++ out2)
  ]
]

-- An engine between two ticks: a player is active, frames may wait, and no frame to come has an entry.
pub record IsWaiting (e : Engine) (player : ℕ) : Type 0 where
  pub active : member e.active_players player ≡ true
  pub patient : 0 < e.timeout_frames
  pub counter : e.frame_counter < 2 ^ 32
  pub ahead : (k : ℕ) → e.current_frame < k → find e.frame_buffer k ≡ none

submit_input-IsWaiting :
    (e : Engine) (player pid : ℕ) (input : PlayerInput)
    → IsWaiting e player
    → IsWaiting ((submit_input e pid input).0) player
      × ((submit_input e pid input).0.current_frame ≡ e.current_frame)
unfolding submit_input
submit_input-IsWaiting e player pid input w =
    if_elim (λ (r : Engine × Bool). IsWaiting (r.0) player × (r.0.current_frame ≡ e.current_frame))
      (member e.all_players pid)
      (λ _. (
        record {
          active = w.active;
          patient = w.patient;
          counter = w.counter;
          ahead = λ k l.
              find-put e.frame_buffer e.current_frame _ k
              ∙ rw (ne→== e.current_frame k (λ q. omega (arith, l, q))) (w.ahead k l);
        },
        refl,
      ))
      (λ _. (w, refl))

submit_all-IsWaiting :
    (e : Engine) (player : ℕ) (inputs : List (ℕ × PlayerInput))
    → IsWaiting e player
    → IsWaiting (submit_all e inputs) player
      × ((submit_all e inputs).current_frame ≡ e.current_frame)
unfolding submit_all
submit_all-IsWaiting e player [] w = (w, refl)
submit_all-IsWaiting e player ((pid, input) ∷ inputs) w =
    let (w1, c1) = submit_input-IsWaiting e player pid input w in
    let (w2, c2) = submit_all-IsWaiting ((submit_input e pid input).0) player inputs w1 in
    (w2, c2 ∙ c1)

have_all_nil : (ps : List ℕ) (p : ℕ) → member ps p ≡ true → have_all ps [] ≡ false
unfolding find
have_all_nil ps p h = elim (Bool-cases (have_all ps [])) [
  | inr missing ↦ missing
  | inl all ↦ absurd (empty (have_all_lem ps [] all p h))
]
  where
    empty : is_some (find {V = PlayerInput} [] p) ≡ true → ⊥
    empty q = ground arith

-- A new frame that has just begun is waited for.
judge_new :
    (e : Engine) (c player : ℕ)
    → member e.active_players player ≡ true
    → find e.frame_buffer c ≡ some (record blank_frame { frame = c })
    → find e.frame_start_count c ≡ some e.frame_counter
    → e.frame_counter < 2 ^ 32
    → 0 < e.timeout_frames
    → judge e c (record blank_frame { frame = c }) ≡ stop
unfolding judge is_frame_ready
judge_new e c player active there began small patient =
    let w : u32 (e.frame_counter + 2 ^ 32 - e.frame_counter) ≡ 0 = omega arith in
    rw
      (
        there,
        have_all_nil e.active_players player active,
        began,
        w,
        lt→leb e.timeout_frames 0 patient,
        is_frame_ready,
        judge,
      )
      refl

-- The engine with the placeholder of its current frame.
with_placeholder : Engine → Engine
with_placeholder e = record e {
  frame_buffer =
      put e.frame_buffer e.current_frame (record blank_frame { frame = e.current_frame });
}

ensure_missing :
    (e : Engine) (c : ℕ)
    → find e.frame_buffer c ≡ none
    → ensure_frame e c
      ≡ record e { frame_buffer = put e.frame_buffer c (record blank_frame { frame = c }) }
unfolding ensure_frame
ensure_missing e c h = rw (h, ensure_frame) refl

round_new :
    (e : Engine) (c : ℕ) (e1 : Engine)
    → ensure_frame e c ≡ e1
    → judge e1 c (entry e1 c) ≡ stop
    → round e c ≡ (e1, stop)
unfolding round settle
round_new e c e1 m v =
    ap (λ x. (settle x c (judge x c (entry x c)), judge x c (entry x c))) m
    ∙ ap (λ x. (settle e1 c x, x)) v

after_stop :
    (e2 : Engine) (rest : Option (Engine × List FrameInputs)) → after e2 stop rest ≡ some (e2, [])
unfolding after
after_stop e2 rest = refl

try_advance_new :
    (e : Engine) (player : ℕ)
    → IsWaiting e player
    → find e.frame_buffer e.current_frame ≡ none
    → find e.frame_start_count e.current_frame ≡ some e.frame_counter
    → e.current_frame + 33 < 2 ^ 32
    → try_advance e ≡ some (with_placeholder e, [])
unfolding try_advance with_placeholder
try_advance_new e player w missing began small =
    let c = e.current_frame in
    let e1 = with_placeholder e in
    let there : find e1.frame_buffer c ≡ some (record blank_frame { frame = c }) =
      find-put e.frame_buffer c (record blank_frame { frame = c }) c ∙ rw (==_self c) refl in
    let placed : ensure_frame e c ≡ e1 = ensure_missing e c missing in
    let inside : leb c (u32 (c + 32)) ≡ true = le→leb c (u32 (c + 32)) (omega arith) in
    let v : judge e1 c (entry e1 c) ≡ stop =
      ap (judge e1 c) (entry_lem e1 c (record blank_frame { frame = c }) there)
      ∙ judge_new e1 c player w.active there began w.counter w.patient in
    advance_step 33 e c inside
    ∙ ap (λ (r : Engine × Verdict). after (r.0) (r.1) (advance 33 (r.0) (u32 (c + 1))))
        (round_new e c e1 placed v)
    ∙ after_stop e1 (advance 33 e1 (u32 (c + 1)))

-- One tick with a frame past the current one.
tick_fighting-IsWaiting :
    (e : Engine) (player frame : ℕ)
    → IsWaiting e player
    → e.current_frame < frame
    → frame + 33 < 2 ^ 32
    → (e' : Engine) × (tick_fighting e frame ≡ some (e', []))
      × IsWaiting e' player
      × (e'.current_frame ≡ frame)
unfolding tick_fighting set_current_frame tick_frame_counter with_placeholder
tick_fighting-IsWaiting e player frame w ahead small =
    let counter = u32 (e.frame_counter + 1) in
    let e1 : Engine = record e {
      frame_counter = counter;
      current_frame = frame;
      frame_start_count = put e.frame_start_count frame counter;
    } in
    let w1 : IsWaiting e1 player = record {
      active = w.active;
      patient = w.patient;
      counter = omega arith;
      ahead = λ k l. w.ahead k (omega arith);
    } in
    let moved : set_current_frame (tick_frame_counter e) frame ≡ e1 =
      rw (lt→ltb e.current_frame frame ahead) refl in
    (
      with_placeholder e1,
      ap try_advance moved
          ∙ try_advance_new e1 player w1 (w.ahead frame ahead)
              (find-put e.frame_start_count frame counter frame ∙ rw (==_self frame) refl) small,
      record {
        active = w.active;
        patient = w.patient;
        counter = w1.counter;
        ahead = λ k l.
            find-put e.frame_buffer frame (record blank_frame { frame = frame }) k
            ∙ rw (ne→== frame k (λ q. omega arith)) (w.ahead k (omega arith));
      },
      refl,
    )

fight_step :
    (e e1 e2 : Engine) (frame : ℕ) (inputs : List (ℕ × PlayerInput))
    → (ticks : List (List (ℕ × PlayerInput)))
    → tick_fighting (submit_all e inputs) frame ≡ some (e1, [])
    → fight e1 (frame + 1) ticks ≡ some (e2, [])
    → fight e frame (inputs ∷ ticks) ≡ some (e2, [])
unfolding fight
fight_step e e1 e2 frame inputs ticks h k = rw (h, k, fight) refl

-- While a player is active and the timeout is not 0, a fight confirms no frame at all, whatever inputs
-- the messages between the ticks submit, the complete ones included: below the wrap of the frame
-- counter, each tick moves on to a frame that began just then and that no input has reached.
pub fight-confirms_nothing :
    (ticks : List (List (ℕ × PlayerInput))) (e : Engine) (player frame : ℕ)
    → IsWaiting e player
    → e.current_frame < frame
    → frame + length ticks + 33 < 2 ^ 32
    → (e' : Engine) × (fight e frame ticks ≡ some (e', []))
unfolding fight
fight-confirms_nothing [] e player frame w ahead small = (e, refl)
fight-confirms_nothing (inputs ∷ ticks) e player frame w ahead small =
    let (w1, same) = submit_all-IsWaiting e player inputs w in
    let (e1, ticked, w2, at) =
      tick_fighting-IsWaiting (submit_all e inputs) player frame w1 (omega arith) (omega arith) in
    let (e2, rest) =
      fight-confirms_nothing ticks e1 player (frame + 1) w2 (omega arith) (omega arith) in
    (e2, fight_step e e1 e2 frame inputs ticks ticked rest)
