-- ===== src/Realtime/Lockstep/Calls.antt =====
-- What each call leaves of the frames that are confirmed, common/cpp/realtime/lockstep_engine.cpp.
use gmaker.Common.{
  ℕ, suc, ◌+◌, ◌^◌, ◌≤◌, ◌<◌, ◌≡◌, refl, sym, ap, ◌∙◌, subst, inl, inr, Bool, true, false, some,
  List, [], ◌∷◌, ◌++◌, arith, ltb, ◌==◌, ltb→lt, ==→eq, Bool-cases, if_elim,
}
use gmaker.Common.Dict.{find, put, find-put, member}
use gmaker.Realtime.Lockstep.{
  PlayerInput, FrameInputs, Engine, entry, set_current_frame, set_players, player_disconnected,
  player_reconnected, submit_input, try_advance, tick_frame_counter, set_timeout_frames, reset,
}
use gmaker.Realtime.Lockstep.Parts.{IsKeyed, put-IsKeyed, entry_lem}
use gmaker.Realtime.Lockstep.Confirms.{Confirms}
use gmaker.Realtime.Lockstep.Advance.{try_advance_lem}
use gmaker.Realtime.Lockstep.Trace.{
  Call, set_frame, players, disconnect, reconnect, submit, try, tick, set_timeout, resets, perform,
  Bounded, goes_on, Apart, Distinct, Separate,
}

-- A frame that the engine holds as confirmed, if it is not behind the current one.
unfoldable pub IsDone : Engine → ℕ → Type 0
IsDone e k =
    e.current_frame ≤ k
    → (g : FrameInputs) × (find e.frame_buffer k ≡ some g) × (g.confirmed ≡ true)

abbrev pub AllDone : Engine → List FrameInputs → Type 0
AllDone e [] = Unit {0}
AllDone e (fi ∷ seen) = IsDone e fi.frame × AllDone e seen

pub record IsSound (e : Engine) : Type 0 where
  pub keyed : IsKeyed e.frame_buffer
  pub small : e.current_frame + 33 < 2 ^ 32

pub AllDone-map :
    (e e' : Engine) (seen : List FrameInputs)
    → ((k : ℕ) → IsDone e k → IsDone e' k)
    → AllDone e seen
    → AllDone e' seen
AllDone-map e e' [] f d = tt
AllDone-map e e' (fi ∷ seen) f (d, ds) = (f fi.frame d, AllDone-map e e' seen f ds)

pub AllDone-append :
    (e : Engine) (xs ys : List FrameInputs) → AllDone e xs → AllDone e ys → AllDone e (xs ++ ys)
AllDone-append e [] ys d q = q
AllDone-append e (x ∷ xs) ys (d, ds) q = (d, AllDone-append e xs ys ds q)

-- The frames of one `TryAdvance`.
Confirms-Apart :
    (e e' : Engine) (c last k : ℕ) (out : List FrameInputs)
    → k < c
    → Confirms e e' c last out
    → Apart k out
Confirms-Apart e e' c last k [] l x = tt
Confirms-Apart e e' c last k (fi ∷ out) l (x, xs) = (
  λ q. omega (arith, l, x.in_order, q),
  Confirms-Apart e e' (suc fi.frame) last k out (omega (arith, l, x.in_order)) xs,
)

Confirms-Distinct :
    (e e' : Engine) (c last : ℕ) (out : List FrameInputs) → Confirms e e' c last out → Distinct out
Confirms-Distinct e e' c last [] x = tt
Confirms-Distinct e e' c last (fi ∷ out) (x, xs) = (
  Confirms-Apart e e' (suc fi.frame) last fi.frame out (omega arith) xs,
  Confirms-Distinct e e' (suc fi.frame) last out xs,
)

Confirms-AllDone :
    (e e' : Engine) (c last : ℕ) (out : List FrameInputs)
    → Confirms e e' c last out
    → AllDone e' out
unfolding IsDone
Confirms-AllDone e e' c last [] x = tt
Confirms-AllDone e e' c last (fi ∷ out) (x, xs) =
    ((λ l. (fi, x.stored, x.marked)), Confirms-AllDone e e' (suc fi.frame) last out xs)

-- A frame that is done is not confirmed again.
IsDone-Apart :
    (e e' : Engine) (c last k : ℕ) (out : List FrameInputs)
    → e.current_frame ≤ c
    → IsDone e k
    → Confirms e e' c last out
    → Apart k out
unfolding IsDone
IsDone-Apart e e' c last k [] l d x = tt
IsDone-Apart e e' c last k (fi ∷ out) l d (x, xs) = (
  λ q.
      let (g, there, marked) = d (omega (arith, l, x.in_order, q)) in
      true_false (sym marked ∙ x.first_time g (ap (find e.frame_buffer) q ∙ there)),
  IsDone-Apart e e' (suc fi.frame) last k out (omega (arith, l, x.in_order)) d xs,
)
  where
    true_false : true ≡ false → ⊥
    true_false q = ground arith

AllDone-Separate :
    (e e' : Engine) (c last : ℕ) (seen out : List FrameInputs)
    → e.current_frame ≤ c
    → AllDone e seen
    → Confirms e e' c last out
    → Separate seen out
AllDone-Separate e e' c last [] out l d x = tt
AllDone-Separate e e' c last (fi ∷ seen) out l (d, ds) x =
    (IsDone-Apart e e' c last fi.frame out l d x, AllDone-Separate e e' c last seen out l ds x)

-- What a call leaves.
pub record Performed (e e' : Engine) (out : List FrameInputs) : Type 0 where
  pub sound : IsSound e'
  pub still : (k : ℕ) → IsDone e k → IsDone e' k
  pub distinct : Distinct out
  pub done : AllDone e' out
  pub separate : (seen : List FrameInputs) → AllDone e seen → Separate seen out

pub Separate-nil : (seen : List FrameInputs) → Separate seen []
Separate-nil [] = tt
Separate-nil (x ∷ seen) = (tt, Separate-nil seen)

-- A call that confirms nothing and keeps the buffer and the current frame.
quiet :
    (e e' : Engine)
    → IsSound e
    → e'.frame_buffer ≡ e.frame_buffer
    → e'.current_frame ≡ e.current_frame
    → Performed e e' []
unfolding IsDone
quiet e e' s b c = record {
  sound = record { keyed = subst IsKeyed (sym b) s.keyed; small = omega (arith, s.small, c) };
  still = λ k d l.
      let (g, there, marked) = d (omega (arith, l, c)) in (g, ap (λ m. find m k) b ∙ there, marked);
  distinct = tt;
  done = tt;
  separate = λ seen d. Separate-nil seen;
}

set_current_frame-Performed :
    (e : Engine) (f : ℕ) → IsSound e → f + 33 < 2 ^ 32 → Performed e (set_current_frame e f) []
unfolding set_current_frame IsDone
set_current_frame-Performed e f s small = elim (Bool-cases (ltb e.current_frame f)) [
  | inr old ↦ rw old (quiet e e s refl refl)
  | inl new ↦ rw new record {
    sound = record { keyed = s.keyed; small = small };
    still = λ k d l. d (omega (arith, l, ltb→lt e.current_frame f new));
    distinct = tt;
    done = tt;
    separate = λ seen d. Separate-nil seen;
  }
]

player_reconnected-Performed :
    (e : Engine) (p : ℕ) → IsSound e → Performed e (player_reconnected e p) []
unfolding player_reconnected
player_reconnected-Performed e p s =
    if_elim (λ e'. Performed e e' []) (member e.all_players p) (λ _. quiet e _ s refl refl)
      (λ _. quiet e e s refl refl)

-- `SubmitInput` into the current frame keeps its mark.
submitted :
    (e e' : Engine) (fi : FrameInputs)
    → IsSound e
    → fi.frame ≡ e.current_frame
    → fi.confirmed ≡ (entry e e.current_frame).confirmed
    → e'.frame_buffer ≡ put e.frame_buffer e.current_frame fi
    → e'.current_frame ≡ e.current_frame
    → Performed e e' []
unfolding IsDone
submitted e e' fi s at mark b c = record {
  sound = record {
    keyed = subst IsKeyed (sym b) (put-IsKeyed e.frame_buffer e.current_frame fi s.keyed at);
    small = omega (arith, s.small, c);
  };
  still = λ k d l.
      let (g, there, marked) = d (omega (arith, l, c)) in
      let look = ap (λ m. find m k) b ∙ find-put e.frame_buffer e.current_frame fi k in
      elim (Bool-cases (e.current_frame == k)) [
        | inr other ↦ (g, look ∙ rw other there, marked)
        | inl same ↦
            let q = ==→eq e.current_frame k same in
            (
              fi,
              look ∙ rw same refl,
              mark
                  ∙ ap (λ (x : FrameInputs). x.confirmed)
                      (entry_lem e e.current_frame g (ap (find e.frame_buffer) q ∙ there))
                  ∙ marked,
            )
      ];
  distinct = tt;
  done = tt;
  separate = λ seen d. Separate-nil seen;
}

submit_input-Performed :
    (e : Engine) (p : ℕ) (input : PlayerInput)
    → IsSound e
    → Performed e ((submit_input e p input).0) []
unfolding submit_input
submit_input-Performed e p input s =
    if_elim (λ (r : Engine × Bool). Performed e (r.0) []) (member e.all_players p)
      (λ _. submitted e _ _ s refl refl refl refl) (λ _. quiet e e s refl refl)

try_advance-Performed :
    (e : Engine)
    → IsSound e
    → (e' : Engine) × (out : List FrameInputs) × (try_advance e ≡ some (e', out))
      × Performed e e' out
unfolding IsDone
try_advance-Performed e s =
    let (e', out, ran, a) = try_advance_lem e s.keyed s.small in
    let last = e.current_frame + 32 in
    (
      e',
      out,
      ran,
      record {
        sound = record { keyed = a.keyed; small = omega (arith, s.small, a.same_frame) };
        still = λ k d l.
            let h : e.current_frame ≤ k = omega (arith, l, a.same_frame) in
            let (g, there, marked) = d h in (g, a.keeps k g h there marked, marked);
        distinct = Confirms-Distinct e e' e.current_frame last out a.confirms;
        done = Confirms-AllDone e e' e.current_frame last out a.confirms;
        separate = λ seen d.
            AllDone-Separate e e' e.current_frame last seen out (omega arith) d a.confirms;
      },
    )

-- Each call but `Reset` returns, and leaves a sound engine.
pub perform_lem :
    (e : Engine) (call : Call) (calls : List Call)
    → IsSound e
    → Bounded (call ∷ calls)
    → goes_on call ≡ true
    → (e' : Engine) × (out : List FrameInputs) × (perform e call ≡ some (e', out))
      × Performed e e' out
      × Bounded calls
unfolding perform goes_on set_players player_disconnected tick_frame_counter set_timeout_frames
perform_lem e (set_frame f) calls s (small, b) on =
    (set_current_frame e f, [], refl, set_current_frame-Performed e f s small, b)
perform_lem e (players ps) calls s b on = (set_players e ps, [], refl, quiet e _ s refl refl, b)
perform_lem e (disconnect p) calls s b on =
    (player_disconnected e p, [], refl, quiet e _ s refl refl, b)
perform_lem e (reconnect p) calls s b on =
    (player_reconnected e p, [], refl, player_reconnected-Performed e p s, b)
perform_lem e (submit p input) calls s b on =
    ((submit_input e p input).0, [], refl, submit_input-Performed e p input s, b)
perform_lem e try calls s b on =
    let (e', out, ran, done) = try_advance-Performed e s in (e', out, ran, done, b)
perform_lem e tick calls s b on = (tick_frame_counter e, [], refl, quiet e _ s refl refl, b)
perform_lem e (set_timeout n) calls s b on =
    (set_timeout_frames e n, [], refl, quiet e _ s refl refl, b)
perform_lem e resets calls s b on = absurd (ground arith)

find_nil : (k : ℕ) (fi : FrameInputs) → find [] k ≡ some fi → fi.frame ≡ k
unfolding find
find_nil k fi h = absurd (ground arith)

pub reset-Sound : (e : Engine) → IsSound (reset e)
unfolding reset
reset-Sound e = record { keyed = find_nil; small = omega arith }

other :
    (e : Engine) (call : Call) (calls : List Call)
    → IsSound e
    → Bounded (call ∷ calls)
    → goes_on call ≡ true
    → (e' : Engine) × (out : List FrameInputs) × (perform e call ≡ some (e', out))
      × IsSound e'
      × Bounded calls
other e call calls s b on =
    let (e', out, ran, p, rest) = perform_lem e call calls s b on in (e', out, ran, p.sound, rest)

-- Each call returns, and leaves a sound engine.
pub perform-Sound :
    (e : Engine) (call : Call) (calls : List Call)
    → IsSound e
    → Bounded (call ∷ calls)
    → (e' : Engine) × (out : List FrameInputs) × (perform e call ≡ some (e', out))
      × IsSound e'
      × Bounded calls
unfolding perform goes_on
perform-Sound e resets calls s b = (reset e, [], refl, reset-Sound e, b)
perform-Sound e (set_frame f) calls s b = other e (set_frame f) calls s b refl
perform-Sound e (players ps) calls s b = other e (players ps) calls s b refl
perform-Sound e (disconnect p) calls s b = other e (disconnect p) calls s b refl
perform-Sound e (reconnect p) calls s b = other e (reconnect p) calls s b refl
perform-Sound e (submit p input) calls s b = other e (submit p input) calls s b refl
perform-Sound e try calls s b = other e try calls s b refl
perform-Sound e tick calls s b = other e tick calls s b refl
perform-Sound e (set_timeout n) calls s b = other e (set_timeout n) calls s b refl
