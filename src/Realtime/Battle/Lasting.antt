-- ===== src/Realtime/Battle/Lasting.antt =====
-- That `TryAdvance` of common/cpp/realtime/lockstep_engine.cpp ends, for any engine whose frame is not among the
-- last of the 32-bit numbers, and which calls leave the frame as it is.
use gmaker.Common.{
  ℕ, zero, suc, ◌+◌, ◌^◌, ◌≤◌, ◌<◌, ◌≡◌, refl, ◌∙◌, subst, inl, inr, Bool, Option, some, List, [],
  ◌∷◌, arith, ltb, leb, leb→le, Bool-cases, Option-cases, if_elim, u32,
}
use gmaker.Common.Dict.{find, member}
use gmaker.Realtime.Lockstep.{
  PlayerInput, FrameInputs, Engine, Verdict, skip, stop, confirm, ensure_frame, settle, after,
  advance, try_advance, set_current_frame, submit_input, player_reconnected, history_size,
}
use gmaker.Realtime.Lockstep.Round.{round, advance_step}

-- A result, with the frame of its engine.
abbrev pub ReturnsAt : Option (Engine × List FrameInputs) → ℕ → Type 0
ReturnsAt o frame =
    (e' : Engine) × (out : List FrameInputs) × (o ≡ some (e', out)) × (e'.current_frame ≡ frame)

settle-frame : (e : Engine) (c : ℕ) (v : Verdict) → (settle e c v).current_frame ≡ e.current_frame
unfolding settle
settle-frame e c skip = refl
settle-frame e c stop = refl
settle-frame e c (confirm fi) =
    if_elim (λ (x : Engine). x.current_frame ≡ e.current_frame) (ltb history_size c) (λ _. refl)
      (λ _. refl)

ensure_frame-frame : (e : Engine) (c : ℕ) → (ensure_frame e c).current_frame ≡ e.current_frame
unfolding ensure_frame
ensure_frame-frame e c = elim (Option-cases (find e.frame_buffer c)) [
  | inl missing ↦ rw (missing, ensure_frame) refl
  | inr (fi, there) ↦ rw (there, ensure_frame) refl
]

round-frame : (e : Engine) (c : ℕ) → ((round e c).0).current_frame ≡ e.current_frame
unfolding round
round-frame e c = settle-frame (ensure_frame e c) c _ ∙ ensure_frame-frame e c

after-ReturnsAt :
    (e : Engine) (v : Verdict) (rest : Option (Engine × List FrameInputs)) (frame : ℕ)
    → e.current_frame ≡ frame
    → ReturnsAt rest frame
    → ReturnsAt (after e v rest) frame
unfolding after
after-ReturnsAt e skip rest frame h r = r
after-ReturnsAt e stop rest frame h r = (e, [], refl, h)
after-ReturnsAt e (confirm fi) rest frame h (e', out, q, k) = (e', fi ∷ out, rw q refl, k)

advance-ReturnsAt :
    (fuel : ℕ) (e : Engine) (c : ℕ)
    → e.current_frame + 33 < 2 ^ 32
    → c ≤ e.current_frame + 33
    → e.current_frame + 34 ≤ c + fuel
    → ReturnsAt (advance fuel e c) e.current_frame
advance-ReturnsAt zero e c small near enough = absurd (omega arith)
advance-ReturnsAt (suc fuel) e c small near enough =
    let e1 = (round e c).0 in
    let same = round-frame e c in
    elim (Bool-cases (leb c (u32 (e.current_frame + 32)))) [
      | inr over ↦ (e, [], unfold advance in rw over refl, refl)
      | inl inside ↦
          let at : c ≤ e.current_frame + 32 =
            omega (arith, leb→le c (u32 (e.current_frame + 32)) inside) in
          let n : u32 (c + 1) ≡ c + 1 = omega arith in
          let rest =
            advance-ReturnsAt fuel e1 (u32 (c + 1)) (omega (arith, same)) (omega (arith, same, n))
              (omega (arith, same, n)) in
          rw (advance_step fuel e c inside)
            (after-ReturnsAt e1 _ _ e.current_frame same (subst (ReturnsAt _) same rest))
    ]

-- `TryAdvance` ends and leaves the current frame.
pub try_advance-ReturnsAt :
    (e : Engine) → e.current_frame + 33 < 2 ^ 32 → ReturnsAt (try_advance e) e.current_frame
unfolding try_advance
try_advance-ReturnsAt e small =
    advance-ReturnsAt 34 e e.current_frame small (omega arith) (omega arith)

-- `SetCurrentFrame` of a frame that is not behind.
pub set_current_frame-frame :
    (e : Engine) (frame : ℕ)
    → e.current_frame ≤ frame
    → (set_current_frame e frame).current_frame ≡ frame
unfolding set_current_frame
set_current_frame-frame e frame h = ground arith

pub submit_input-frame :
    (e : Engine) (pid : ℕ) (input : PlayerInput)
    → ((submit_input e pid input).0).current_frame ≡ e.current_frame
unfolding submit_input
submit_input-frame e pid input =
    if_elim (λ (x : Engine × Bool). (x.0).current_frame ≡ e.current_frame)
      (member e.all_players pid) (λ _. refl) (λ _. refl)

pub player_reconnected-frame :
    (e : Engine) (pid : ℕ) → (player_reconnected e pid).current_frame ≡ e.current_frame
unfolding player_reconnected
player_reconnected-frame e pid =
    if_elim (λ (x : Engine). x.current_frame ≡ e.current_frame) (member e.all_players pid)
      (λ _. refl) (λ _. refl)
