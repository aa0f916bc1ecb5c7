-- ===== src/Realtime/Lockstep/Trace.antt =====
-- Whole runs of the `LockstepEngine` of common/cpp/realtime/lockstep_engine.cpp: any sequence of calls.
use gmaker.Common.{
  ℕ, ◌+◌, ◌^◌, ◌<◌, ◌≡◌, ◌≢◌, Bool, true, false, Option, none, some, List, [], ◌∷◌, ◌++◌,
}
use gmaker.Realtime.Lockstep.{
  PlayerInput, FrameInputs, Engine, set_current_frame, set_players, player_disconnected,
  player_reconnected, submit_input, try_advance, tick_frame_counter, set_timeout_frames, reset,
}

-- The calls of an engine.
pub data Call : Type 0 where
  set_frame : ℕ → Call
  players : List ℕ → Call
  disconnect : ℕ → Call
  reconnect : ℕ → Call
  submit : ℕ → PlayerInput → Call
  try : Call
  tick : Call
  set_timeout : ℕ → Call
  resets : Call

-- What a call does to the engine, and the frames that it confirms.
unfoldable pub perform : Engine → Call → Option (Engine × List FrameInputs)
perform e (set_frame f) = some (set_current_frame e f, [])
perform e (players ps) = some (set_players e ps, [])
perform e (disconnect p) = some (player_disconnected e p, [])
perform e (reconnect p) = some (player_reconnected e p, [])
perform e (submit p input) = some ((submit_input e p input).0, [])
perform e try = try_advance e
perform e tick = some (tick_frame_counter e, [])
perform e (set_timeout n) = some (set_timeout_frames e n, [])
perform e resets = some (reset e, [])

-- The calls in their order, with all the frames confirmed.
unfoldable pub run : Engine → List Call → Option (Engine × List FrameInputs)
run e [] = some (e, [])
run e (call ∷ calls) = elim (perform e call) [
  | none ↦ none
  | some (e1, out1) ↦ elim (run e1 calls) [
    | none ↦ none
    | some (e2, out2) ↦ some (e2, out1 ++ out2)
  ]
]

-- No call moves to a frame within 33 of the wrap.
abbrev pub Bounded : List Call → Type 0
Bounded [] = Unit {0}
Bounded (set_frame f ∷ calls) = (f + 33 < 2 ^ 32) × Bounded calls
Bounded (players ps ∷ calls) = Bounded calls
Bounded (disconnect p ∷ calls) = Bounded calls
Bounded (reconnect p ∷ calls) = Bounded calls
Bounded (submit p input ∷ calls) = Bounded calls
Bounded (try ∷ calls) = Bounded calls
Bounded (tick ∷ calls) = Bounded calls
Bounded (set_timeout n ∷ calls) = Bounded calls
Bounded (resets ∷ calls) = Bounded calls

-- A call other than `Reset`.
unfoldable pub goes_on : Call → Bool
goes_on resets = false
goes_on _ = true

-- No call is `Reset`.
abbrev pub OneBattle : List Call → Type 0
OneBattle [] = Unit {0}
OneBattle (call ∷ calls) = (goes_on call ≡ true) × OneBattle calls

-- Frame `k` is none of those of `out`, and the frames of `out` differ.
abbrev pub Apart : ℕ → List FrameInputs → Type 0
Apart k [] = Unit {0}
Apart k (fi ∷ out) = (fi.frame ≢ k) × Apart k out

abbrev pub Distinct : List FrameInputs → Type 0
Distinct [] = Unit {0}
Distinct (fi ∷ out) = Apart fi.frame out × Distinct out

-- None of the frames of `seen` is one of `out`.
abbrev pub Separate : List FrameInputs → List FrameInputs → Type 0
Separate [] out = Unit {0}
Separate (fi ∷ seen) out = Apart fi.frame out × Separate seen out

pub Apart-append : (k : ℕ) (xs ys : List FrameInputs) → Apart k xs → Apart k ys → Apart k (xs ++ ys)
Apart-append k [] ys a b = b
Apart-append k (x ∷ xs) ys (a, as') b = (a, Apart-append k xs ys as' b)

pub Separate-append :
    (seen xs ys : List FrameInputs) → Separate seen xs → Separate seen ys → Separate seen (xs ++ ys)
Separate-append [] xs ys a b = tt
Separate-append (s ∷ seen) xs ys (a, as') (b, bs) =
    (Apart-append s.frame xs ys a b, Separate-append seen xs ys as' bs)

-- Separate from both parts of a list.
pub Separate-split :
    (xs ys out : List FrameInputs) → Separate (xs ++ ys) out → Separate xs out × Separate ys out
Separate-split [] ys out s = (tt, s)
Separate-split (x ∷ xs) ys out (s, ss) = let (a, b) = Separate-split xs ys out ss in ((s, a), b)

pub Distinct-append :
    (xs ys : List FrameInputs) → Distinct xs → Distinct ys → Separate xs ys → Distinct (xs ++ ys)
Distinct-append [] ys d q s = q
Distinct-append (x ∷ xs) ys (a, d) q (b, s) =
    (Apart-append x.frame xs ys a b, Distinct-append xs ys d q s)
