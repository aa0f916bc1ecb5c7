-- ===== src/Realtime/Battle/Phases/Plays.antt =====
-- The states of a battle over its ticks, and over messages and ticks in any order: `Tick` and `OnMessage` of
-- common/cpp/realtime/battle_room.cpp.
use gmaker.Common.{
  ℕ, ◌+◌, ◌-◌, ◌*◌, ◌%◌, ◌^◌, ◌≤◌, ◌<◌, ◌≡◌, refl, sym, ◌∙◌, subst, ◌≢◌, Bool, false, some, List,
  [], ◌∷◌, arith, ltb, leb, ◌==◌, if◌then◌else◌, ne→==, if_elim, u32, length,
}
use gmaker.Realtime.Lockstep.{
  FrameInputs, set_current_frame, set_players, tick_frame_counter, set_timeout_frames,
}
use gmaker.Realtime.Entity.{Floats, TeamSide, nobody, blue, red}
use gmaker.Realtime.Checkpoint.{
  BattleState, waiting, loading, countdown, fighting, paused, finished, new_manager, save_snapshot,
}
use gmaker.Realtime.Battle.{Config, BattleRoom, Sent, new_room}
use gmaker.Realtime.Battle.Players.{all_ready}
use gmaker.Realtime.Battle.Outcome.{
  change_state, tick_waiting, tick_countdown, winner_of, crystals, finish_for, check_win_condition,
  save_checkpoint,
}
use gmaker.Realtime.Battle.Tick.{
  begin_countdown, tick_loading, fight_frame, settle_frame, close_frame, tick_fighting, dispatch,
  tick,
}
use gmaker.Realtime.Battle.Messages.{on_message, BattleEvent, message, next_tick, handle, play}
use gmaker.Realtime.Battle.Lasting.{try_advance-ReturnsAt, set_current_frame-frame}
use gmaker.Realtime.Battle.Phases.{
  Moves, stay, load, prepare, begin, win, Reaches, here, further, Reaches-ne-paused, Keeps, Ticks,
  on_message-Keeps,
}

module _ {F : Type 0} (fl : Floats F) where
  finish_for-Ticks :
      (r : BattleRoom F) (frame n : ℕ) (winner : TeamSide)
      → r.battle_state ≡ fighting
      → r.battle_frame ≡ frame
      → r.lockstep.current_frame ≤ frame
      → r.checkpoint_mgr.interval_frames ≡ n
      → Ticks fighting frame n ((finish_for r winner).0)
  unfolding finish_for change_state
  finish_for-Ticks r frame n nobody s f e p = record {
    moves = subst (Moves fighting) (sym s) (stay fighting);
    same = f;
    behind = e;
    period = p;
  }
  finish_for-Ticks r frame n blue s f e p = record { moves = win; same = f; behind = e; period = p }
  finish_for-Ticks r frame n red s f e p = record { moves = win; same = f; behind = e; period = p }

  settle_frame-Ticks :
      (r : BattleRoom F) (frame n : ℕ)
      → r.battle_state ≡ fighting
      → r.battle_frame ≡ frame
      → r.lockstep.current_frame ≤ frame
      → r.checkpoint_mgr.interval_frames ≡ n
      → Ticks fighting frame n ((settle_frame fl r frame).0)
  unfolding settle_frame check_win_condition save_checkpoint save_snapshot
  settle_frame-Ticks r frame n s f e p =
      let saved : BattleRoom F =
        if frame % r.checkpoint_mgr.interval_frames == 0 then save_checkpoint r else r in
      let w = winner_of (crystals saved.entity_mgr.entities (false, false)) in
      let t =
        if_elim (λ (x : BattleRoom F). Ticks fighting frame n ((finish_for x w).0))
          (frame % r.checkpoint_mgr.interval_frames == 0)
          (λ _. finish_for-Ticks (save_checkpoint r) frame n w s f e p)
          (λ _. finish_for-Ticks r frame n w s f e p) in
      record { moves = t.moves; same = t.same; behind = t.behind; period = t.period }

  fight_frame-Keeps :
      (r : BattleRoom F) (confirmed : List FrameInputs) → Keeps r (fight_frame fl r confirmed)
  unfolding fight_frame
  fight_frame-Keeps r confirmed = record {
    state = refl;
    frame = refl;
    engine = refl;
    interval = refl;
  }

  -- A tick of a fight returns.
  tick_fighting-Ticks :
      (r : BattleRoom F) (frame n : ℕ)
      → r.battle_state ≡ fighting
      → r.battle_frame ≡ frame
      → r.lockstep.current_frame ≤ frame
      → r.checkpoint_mgr.interval_frames ≡ n
      → 0 < n
      → frame + 33 < 2 ^ 32
      → (r' : BattleRoom F) × (sent : List (Sent F)) × (tick_fighting fl r frame ≡ some (r', sent))
        × Ticks fighting frame n r'
  unfolding tick_fighting close_frame
  tick_fighting-Ticks r frame n s f e p pos small =
      let at = set_current_frame-frame r.lockstep frame e in
      let (e', confirmed, returned, same) =
        try_advance-ReturnsAt (set_current_frame r.lockstep frame) (omega (arith, at)) in
      let r1 : BattleRoom F = record r { lockstep = e' } in
      let k = fight_frame-Keeps r1 confirmed in
      let after = fight_frame fl r1 confirmed in
      let some_interval : (after.checkpoint_mgr.interval_frames == 0) ≡ false =
        ne→== _ 0 (omega (arith, k.interval, p, pos)) in
      (
        (settle_frame fl after frame).0,
        (settle_frame fl after frame).1,
        rw (returned, tick_fighting, some_interval) refl,
        settle_frame-Ticks after frame n (k.state ∙ s) (k.frame ∙ f)
            (omega (arith, k.engine, same, at)) (k.interval ∙ p),
      )

  tick_loading-Ticks :
      (r : BattleRoom F) (frame n : ℕ)
      → r.battle_state ≡ loading
      → r.battle_frame ≡ frame
      → r.lockstep.current_frame ≤ frame
      → r.checkpoint_mgr.interval_frames ≡ n
      → Ticks loading frame n ((tick_loading fl r).0)
  unfolding tick_loading begin_countdown change_state
  tick_loading-Ticks r frame n s f e p =
      if_elim (λ (x : BattleRoom F × List (Sent F)). Ticks loading frame n (x.0))
        (all_ready r.roster.players)
        (λ _. record { moves = prepare; same = f; behind = e; period = p })
        (λ _. record {
          moves = subst (Moves loading) (sym s) (stay loading);
          same = f;
          behind = e;
          period = p;
        })

  tick_waiting-Ticks :
      (r : BattleRoom F) (frame n : ℕ)
      → r.battle_state ≡ waiting
      → r.battle_frame ≡ frame
      → r.lockstep.current_frame ≤ frame
      → r.checkpoint_mgr.interval_frames ≡ n
      → Ticks waiting frame n (tick_waiting r)
  unfolding tick_waiting change_state
  tick_waiting-Ticks r frame n s f e p =
      if_elim (λ (x : BattleRoom F). Ticks waiting frame n x)
        (leb (u32 (r.cfg.team_size * 2)) (length r.roster.players))
        (λ _. record { moves = load; same = f; behind = e; period = p })
        (λ _. record {
          moves = subst (Moves waiting) (sym s) (stay waiting);
          same = f;
          behind = e;
          period = p;
        })

  tick_countdown-Ticks :
      (r : BattleRoom F) (frame n : ℕ)
      → r.battle_state ≡ countdown
      → r.battle_frame ≡ frame
      → r.lockstep.current_frame ≤ frame
      → r.checkpoint_mgr.interval_frames ≡ n
      → Ticks countdown frame n (tick_countdown r frame)
  unfolding tick_countdown change_state set_players
  tick_countdown-Ticks r frame n s f e p =
      if_elim (λ (x : BattleRoom F). Ticks countdown frame n x)
        ((if ltb 0 r.countdown_remaining_sec
            then r.countdown_remaining_sec - 1
            else r.countdown_remaining_sec)
          == 0)
        (λ _. record { moves = begin; same = f; behind = e; period = p })
        (λ _. record {
          moves = subst (Moves countdown) (sym s) (stay countdown);
          same = f;
          behind = e;
          period = p;
        })

  dispatch-Ticks :
      (s : BattleState) (r : BattleRoom F) (frame n : ℕ)
      → r.battle_state ≡ s
      → r.battle_frame ≡ frame
      → r.lockstep.current_frame ≤ frame
      → r.checkpoint_mgr.interval_frames ≡ n
      → 0 < n
      → frame + 33 < 2 ^ 32
      → (r' : BattleRoom F) × (sent : List (Sent F)) × (dispatch fl s r frame ≡ some (r', sent))
        × Ticks s frame n r'
  unfolding dispatch
  dispatch-Ticks waiting r frame n s f e p pos small =
      (tick_waiting r, [], refl, tick_waiting-Ticks r frame n s f e p)
  dispatch-Ticks loading r frame n s f e p pos small =
      ((tick_loading fl r).0, (tick_loading fl r).1, refl, tick_loading-Ticks r frame n s f e p)
  dispatch-Ticks countdown r frame n s f e p pos small =
      (tick_countdown r frame, [], refl, tick_countdown-Ticks r frame n s f e p)
  dispatch-Ticks fighting r frame n s f e p pos small =
      tick_fighting-Ticks r frame n s f e p pos small
  dispatch-Ticks paused r frame n s f e p pos small = (
    r,
    [],
    refl,
    record { moves = subst (Moves paused) (sym s) (stay paused); same = f; behind = e; period = p },
  )
  dispatch-Ticks finished r frame n s f e p pos small = (
    r,
    [],
    refl,
    record {
      moves = subst (Moves finished) (sym s) (stay finished);
      same = f;
      behind = e;
      period = p;
    },
  )

  -- What an event may do to the state.
  abbrev pub Follows : BattleEvent fl → BattleState → BattleState → Type 0
  Follows (message m) s t = t ≡ s
  Follows next_tick s t = Moves s t

  handle-Moves :
      (r : BattleRoom F) (e : BattleEvent fl)
      → r.battle_frame + 34 < 2 ^ 32
      → r.lockstep.current_frame ≤ r.battle_frame
      → 0 < r.checkpoint_mgr.interval_frames
      → (r' : BattleRoom F) × (sent : List (Sent F)) × (handle fl r e ≡ some (r', sent))
        × Follows e r.battle_state r'.battle_state
        × Moves r.battle_state r'.battle_state
        × (r'.battle_frame ≤ r.battle_frame + 1)
        × (r'.lockstep.current_frame ≤ r'.battle_frame)
        × (r'.checkpoint_mgr.interval_frames ≡ r.checkpoint_mgr.interval_frames)
  unfolding handle tick tick_frame_counter
  handle-Moves r (message m) small behind pos =
      let k = on_message-Keeps fl r m in
      (
        (on_message fl r m).0,
        (on_message fl r m).1,
        refl,
        k.state,
        subst (Moves r.battle_state) (sym k.state) (stay r.battle_state),
        omega (arith, k.frame),
        omega (arith, k.frame, k.engine),
        k.interval,
      )
  handle-Moves r next_tick small behind pos =
      let n : u32 (r.battle_frame + 1) ≡ r.battle_frame + 1 = omega arith in
      let (r', sent, returned, t) =
        dispatch-Ticks r.battle_state _ (u32 (r.battle_frame + 1)) r.checkpoint_mgr.interval_frames
          refl refl (omega (arith, n)) refl pos (omega (arith, n)) in
      (
        r',
        sent,
        returned,
        t.moves,
        t.moves,
        omega (arith, t.same, n),
        omega (arith, t.same, t.behind),
        t.period,
      )

  -- Each message and tick is handled, a message leaves the state, and a tick leaves it or makes the next step.
  pub AreSteps : BattleRoom F → List (BattleEvent fl) → Type 0
  AreSteps r [] = Unit {0}
  AreSteps r (e ∷ es) =
      (r' : BattleRoom F) × (sent : List (Sent F)) × (handle fl r e ≡ some (r', sent))
      × Follows e r.battle_state r'.battle_state
      × AreSteps r' es

  play-AreSteps :
      (es : List (BattleEvent fl)) (r : BattleRoom F)
      → r.battle_frame + length es + 34 < 2 ^ 32
      → r.lockstep.current_frame ≤ r.battle_frame
      → 0 < r.checkpoint_mgr.interval_frames
      → (r' : BattleRoom F) × (play fl r es ≡ some r')
        × AreSteps r es
        × Reaches r.battle_state r'.battle_state
  unfolding play AreSteps
  play-AreSteps [] r small behind pos = (r, refl, tt, here r.battle_state)
  play-AreSteps (e ∷ es) r small behind pos =
      let (r1, sent, returned, follows, moved, next_frame, still, same) =
        handle-Moves r e (omega arith) behind pos in
      let (r', played, steps, reached) =
        play-AreSteps es r1 (omega arith) still (omega (arith, same, pos)) in
      (r', rw (returned, play) played, (r1, sent, returned, follows, steps), further moved reached)

  -- Whatever messages and ticks a new room with a checkpoint interval above 0 gets, in any order
  -- and fewer than 2 ^ 32 - 34 of them, each is handled; it begins waiting, no message changes the
  -- state, and a tick leaves it or takes the next step from waiting over loading, countdown and
  -- fighting to finished, leaving none out and never back; it is never paused.
  pub play-new_room :
      (cfg : Config F) (callback : Bool) (es : List (BattleEvent fl))
      → 0 < cfg.checkpoint_interval_frames
      → length es + 34 < 2 ^ 32
      → ((new_room cfg callback).battle_state ≡ waiting)
        × (r' : BattleRoom F) × (play fl (new_room cfg callback) es ≡ some r')
        × AreSteps (new_room cfg callback) es
        × Reaches waiting r'.battle_state
        × (r'.battle_state ≢ paused)
  unfolding new_room set_timeout_frames new_manager
  play-new_room cfg callback es pos small =
      let (r', played, steps, reached) =
        play-AreSteps es (new_room cfg callback) (omega arith) (omega arith) (omega (arith, pos)) in
      (refl, r', played, steps, reached, Reaches-ne-paused reached (λ q. cc))
