-- ===== src/Net/TcpReader/Streams.antt =====
-- The specification of the reader over a whole stream: its fuel, and the stream in pieces.
use gmaker.Common.{
  ℕ, zero, suc, ◌<◌, ◌≡◌, refl, sym, ap, ◌∙◌, subst₂, ◌≢◌, inl, inr, Option, none, some, List, ◌++◌,
  arith, some_inj, length,
}
use gmaker.Net.TcpReader.{Env}
use gmaker.Net.TcpReader.Frames.{
  more, bad, next, Stream, pending, refused, frame, stream, parse, frame-Cut, Cut-frame,
  Cut-shorter,
}
use gmaker.Net.TcpReader.Chunks.{Frame-cases, Cut-append, bad-append}

module _ {W : Type 0} (env : Env W) where
  pub stream-more :
      (f : ℕ) (bs : List ℕ) (w : W)
      → frame env bs w ≡ more
      → stream env (suc f) bs w ≡ some (pending bs w)
  unfolding stream
  stream-more f bs w e = rw (e, stream) refl

  pub stream-bad :
      (f : ℕ) (bs : List ℕ) (w : W)
      → frame env bs w ≡ bad
      → stream env (suc f) bs w ≡ some (refused w)
  unfolding stream
  stream-bad f bs w e = rw (e, stream) refl

  pub stream-next :
      (f : ℕ) (bs : List ℕ) (w : W) (rest : List ℕ) (w' : W)
      → frame env bs w ≡ next rest w'
      → stream env (suc f) bs w ≡ stream env f rest w'
  unfolding stream
  stream-next f bs w rest w' e = rw (e, stream) refl

  -- Fuel above the number of bytes is enough: more of it changes nothing.
  pub stream_fuel :
      (f g : ℕ) (bs : List ℕ) (w : W)
      → length bs < f
      → length bs < g
      → stream env f bs w ≡ stream env g bs w
  stream_fuel zero g bs w h l = absurd (omega arith)
  stream_fuel (suc f) zero bs w h l = absurd (omega arith)
  stream_fuel (suc f) (suc g) bs w h l = elim (Frame-cases (frame env bs w)) [
    | inl e ↦ stream-more f bs w e ∙ sym (stream-more g bs w e)
    | inr (inl e) ↦ stream-bad f bs w e ∙ sym (stream-bad g bs w e)
    | inr (inr (rest, w', e)) ↦
        let less = Cut-shorter env (frame-Cut env e) in
        stream-next f bs w rest w' e
        ∙ stream_fuel f g rest w' (omega arith) (omega arith)
        ∙ sym (stream-next g bs w rest w' e)
  ]

  -- With that fuel the stream ends.
  pub stream_ends :
      (f : ℕ) (bs : List ℕ) (w : W) → length bs < f → (s : Stream W) × (stream env f bs w ≡ some s)
  stream_ends zero bs w h = absurd (omega arith)
  stream_ends (suc f) bs w h = elim (Frame-cases (frame env bs w)) [
    | inl e ↦ (pending bs w, stream-more f bs w e)
    | inr (inl e) ↦ (refused w, stream-bad f bs w e)
    | inr (inr (rest, w', e)) ↦
        let less = Cut-shorter env (frame-Cut env e) in
        let (s, run) = stream_ends f rest w' (omega arith) in
        (s, stream-next f bs w rest w' e ∙ run)
  ]

  no_fuel : {P : Type 0} (bs : List ℕ) (w : W) (s : Stream W) → stream env zero bs w ≡ some s → P
  unfolding stream
  no_fuel bs w s h = cc h

  same_pending : (bs cs : List ℕ) (w w' : W) → pending bs w ≡ pending cs w' → (bs ≡ cs) × (w ≡ w')
  same_pending bs cs w w' h = (cc h, cc h)

  refused-ne-pending : (w : W) (rest : List ℕ) (w' : W) → refused w ≢ pending rest w'
  refused-ne-pending w rest w' h = cc h

  more_of :
      (f : ℕ) (bs : List ℕ) (w : W) (rest : List ℕ) (w' : W)
      → stream env f bs w ≡ some (pending rest w')
      → frame env rest w' ≡ more
  more_of zero bs w rest w' h = no_fuel bs w (pending rest w') h
  more_of (suc f) bs w rest w' h = elim (Frame-cases (frame env bs w)) [
    | inl e ↦
        let (same, eq) = same_pending bs rest w w' (some_inj (sym (stream-more f bs w e) ∙ h)) in
        subst₂ (λ x u. frame env x u ≡ more) same eq e
    | inr (inl e) ↦ absurd (refused-ne-pending w rest w' (some_inj (sym (stream-bad f bs w e) ∙ h)))
    | inr (inr (mid, v, e)) ↦ more_of f mid v rest w' (sym (stream-next f bs w mid v e) ∙ h)
  ]

  -- What is left pending holds no whole packet.
  pub pending-more :
      (bs : List ℕ) (w : W) (rest : List ℕ) (w' : W)
      → parse env bs w ≡ some (pending rest w')
      → frame env rest w' ≡ more
  unfolding parse
  pending-more bs w rest w' h = more_of (suc (length bs)) bs w rest w' h

  pub parse-pending :
      (bs : List ℕ) (w : W) → frame env bs w ≡ more → parse env bs w ≡ some (pending bs w)
  unfolding parse
  parse-pending bs w e = stream-more (length bs) bs w e

  -- A packet at the front is handed over, and the rest is read.
  pub parse-next :
      (bs : List ℕ) (w : W) (rest : List ℕ) (w' : W)
      → frame env bs w ≡ next rest w'
      → parse env bs w ≡ parse env rest w'
  unfolding parse
  parse-next bs w rest w' e =
      let less = Cut-shorter env (frame-Cut env e) in
      stream-next (length bs) bs w rest w' e
      ∙ stream_fuel (length bs) (suc (length rest)) rest w' less (omega arith)

  -- The rest of a stream, once its first part has been read.
  abbrev pub resume : List ℕ → Option (Stream W) → Option (Stream W)
  resume cs none = none
  resume cs (some (pending rest w)) = parse env (rest ++ cs) w
  resume cs (some (refused w)) = some (refused w)

  stream-append :
      (f g : ℕ) (bs cs : List ℕ) (w : W)
      → length bs < f
      → length (bs ++ cs) < g
      → stream env g (bs ++ cs) w ≡ resume cs (stream env f bs w)
  unfolding parse
  stream-append zero g bs cs w h l = absurd (omega arith)
  stream-append (suc f) zero bs cs w h l = absurd (omega arith)
  stream-append (suc f) (suc g) bs cs w h l = elim (Frame-cases (frame env bs w)) [
    | inl e ↦
        stream_fuel (suc g) (suc (length (bs ++ cs))) (bs ++ cs) w l (omega arith)
        ∙ ap (resume cs) (sym (stream-more f bs w e))
    | inr (inl e) ↦
        stream-bad g (bs ++ cs) w (bad-append env bs cs w e)
        ∙ ap (resume cs) (sym (stream-bad f bs w e))
    | inr (inr (rest, w', e)) ↦
        let c = frame-Cut env e in
        let less = Cut-shorter env c in
        let less' = Cut-shorter env (Cut-append env cs c) in
        stream-next g (bs ++ cs) w (rest ++ cs) w' (Cut-frame env (Cut-append env cs c))
        ∙ stream-append f g rest cs w' (omega arith) (omega arith)
        ∙ ap (resume cs) (sym (stream-next f bs w rest w' e))
  ]

  -- A stream that arrives in two parts is read as if it arrived at once.
  pub parse-append : (bs cs : List ℕ) (w : W) → parse env (bs ++ cs) w ≡ resume cs (parse env bs w)
  unfolding parse
  parse-append bs cs w =
      stream-append (suc (length bs)) (suc (length (bs ++ cs))) bs cs w (omega arith) (omega arith)
