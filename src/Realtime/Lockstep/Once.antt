-- ===== src/Realtime/Lockstep/Once.antt =====
-- No frame is confirmed twice: the engine of common/cpp/realtime/lockstep_engine.cpp over whole battles.
use gmaker.Common.{◌≡◌, refl, some, List, [], ◌∷◌, ◌++◌}
use gmaker.Realtime.Lockstep.{FrameInputs, Engine, initial, reset}
use gmaker.Realtime.Lockstep.Trace.{
  Call, perform, run, Bounded, OneBattle, Distinct, Separate, Separate-append, Separate-split,
  Distinct-append,
}
use gmaker.Realtime.Lockstep.Calls.{
  AllDone, AllDone-map, AllDone-append, IsSound, Separate-nil, perform_lem, reset-Sound,
  perform-Sound,
}

run_step :
    (e e1 e2 : Engine) (call : Call) (calls : List Call) (out1 out2 : List FrameInputs)
    → perform e call ≡ some (e1, out1)
    → run e1 calls ≡ some (e2, out2)
    → run e (call ∷ calls) ≡ some (e2, out1 ++ out2)
unfolding run
run_step e e1 e2 call calls out1 out2 h k = rw (h, k, run) refl

run-Distinct_from :
    (calls : List Call) (e : Engine) (seen : List FrameInputs)
    → IsSound e
    → Bounded calls
    → OneBattle calls
    → AllDone e seen
    → (e' : Engine) × (out : List FrameInputs) × (run e calls ≡ some (e', out))
      × Distinct out
      × Separate seen out
unfolding run
run-Distinct_from [] e seen s b o d = (e, [], refl, tt, Separate-nil seen)
run-Distinct_from (call ∷ calls) e seen s b (on, o) d =
    let (e1, out1, ran, p, b1) = perform_lem e call calls s b on in
    let d1 = AllDone-append e1 out1 seen p.done (AllDone-map e e1 seen p.still d) in
    let (e2, out2, rest, distinct, separate) =
      run-Distinct_from calls e1 (out1 ++ seen) p.sound b1 o d1 in
    let (from_first, from_seen) = Separate-split out1 seen out2 separate in
    (
      e2,
      out1 ++ out2,
      run_step e e1 e2 call calls out1 out2 ran rest,
      Distinct-append out1 out2 p.distinct distinct from_first,
      Separate-append seen out1 out2 (p.separate seen d) from_seen,
    )

run-Sound :
    (calls : List Call) (e : Engine)
    → IsSound e
    → Bounded calls
    → (e' : Engine) × (out : List FrameInputs) × (run e calls ≡ some (e', out))
unfolding run
run-Sound [] e s b = (e, [], refl)
run-Sound (call ∷ calls) e s b =
    let (e1, out1, ran, s1, b1) = perform-Sound e call calls s b in
    let (e2, out2, rest) = run-Sound calls e1 s1 b1 in
    (e2, out1 ++ out2, run_step e e1 e2 call calls out1 out2 ran rest)

-- Any calls of a new engine, Reset included, return below the wrap of the frame counter, and of
-- the calls between a Reset after them and the next one, also of the first calls of a new engine,
-- no two confirm the same frame, nor does one confirm a frame twice.
pub run-Distinct :
    (before calls : List Call)
    → Bounded before
    → Bounded calls
    → OneBattle calls
    → (e0 : Engine) × (out0 : List FrameInputs) × (run initial before ≡ some (e0, out0))
      × (e : Engine) × (out : List FrameInputs) × (run (reset e0) calls ≡ some (e, out))
      × Distinct out
unfolding reset
run-Distinct before calls b0 b one =
    let (e0, out0, first) = run-Sound before initial (reset-Sound initial) b0 in
    let (e, out, ran, distinct, _) =
      run-Distinct_from calls (reset e0) [] (reset-Sound e0) b one tt in
    (e0, out0, first, e, out, ran, distinct)
