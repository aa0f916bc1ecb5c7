-- ===== src/Net/TcpReader/Refine.antt =====
-- `ProcessReadBuffer` and `OnRead` of common/cpp/net/async/tcp_connection.cpp refine the specification
-- on the stream of bytes.
use gmaker.Common.{
  ℕ, zero, suc, ◌+◌, ◌≤◌, ◌<◌, ◌≡◌, refl, sym, ap, ◌∙◌, subst, inl, inr, some, List, ◌++◌, arith,
  le→ltb, length, length-append,
}
use gmaker.Net.Ring.{RingBuffer, readable, append}
use gmaker.Net.Ring.Cyclic.{contents, IsValid, length-cyclic}
use gmaker.Net.Ring.Write.{append_lem}
use gmaker.Net.TcpReader.{
  Env, Round, wait, close, hand_over, fault, round, Ended, waiting, closed, process_read_buffer,
  on_read,
}
use gmaker.Net.TcpReader.Frames.{
  more, bad, next, Stream, pending, refused, frame, stream, parse, frame-Cut, Cut-shorter,
}
use gmaker.Net.TcpReader.Streams.{stream-more, stream-bad, stream-next}
use gmaker.Net.TcpReader.Chunks.{Frame-cases}
use gmaker.Net.TcpReader.Rounds.{Agrees, round_lem}

module _ {W : Type 0} where
  -- The loop ended as the specification did: it waits with a valid ring that holds the pending bytes, or
  -- it has closed; either way the same packets have been handed over.
  abbrev pub Refines : Ended W → Stream W → Type 0
  Refines (waiting r w) (pending rest w') = IsValid r × (contents r ≡ rest) × (w ≡ w')
  Refines (closed r w) (refused w') = w ≡ w'
  Refines (waiting r w) (refused w') = ⊥
  Refines (closed r w) (pending rest w') = ⊥

  wait_of : (x : Round W) → Agrees x more → x ≡ wait
  wait_of wait a = refl
  wait_of (close r) a = elim a [ ]
  wait_of (hand_over r w) a = elim a [ ]
  wait_of fault a = elim a [ ]

  close_of : (x : Round W) → Agrees x bad → (r : RingBuffer) × (x ≡ close r)
  close_of wait a = elim a [ ]
  close_of (close r) a = (r, refl)
  close_of (hand_over r w) a = elim a [ ]
  close_of fault a = elim a [ ]

  hand_over_of :
      (x : Round W) (rest : List ℕ) (w : W)
      → Agrees x (next rest w)
      → (r : RingBuffer) × (x ≡ hand_over r w) × IsValid r × (contents r ≡ rest)
  hand_over_of wait rest w a = elim a [ ]
  hand_over_of (close r) rest w a = elim a [ ]
  hand_over_of (hand_over r w') rest w a = (r, ap (hand_over r) a.2, a.0, a.1)
  hand_over_of fault rest w a = elim a [ ]

module _ {W : Type 0} (env : Env W) where
  loop_waits :
      (f : ℕ) (r : RingBuffer) (w : W)
      → round env r w ≡ wait
      → process_read_buffer env (suc f) r w ≡ some (waiting r w)
  unfolding process_read_buffer
  loop_waits f r w e = rw (e, process_read_buffer) refl

  loop_closes :
      (f : ℕ) (r : RingBuffer) (w : W) (r' : RingBuffer)
      → round env r w ≡ close r'
      → process_read_buffer env (suc f) r w ≡ some (closed r' w)
  unfolding process_read_buffer
  loop_closes f r w r' e = rw (e, process_read_buffer) refl

  loop_goes_on :
      (f : ℕ) (r : RingBuffer) (w : W) (r' : RingBuffer) (w' : W)
      → round env r w ≡ hand_over r' w'
      → process_read_buffer env (suc f) r w ≡ process_read_buffer env f r' w'
  unfolding process_read_buffer
  loop_goes_on f r w r' w' e = rw (e, process_read_buffer) refl

  -- The loop from a valid ring, with fuel above the number of its bytes, ends as the specification does
  -- on those bytes.
  pub process_read_buffer_lem :
      (f : ℕ) (r : RingBuffer) (w : W)
      → IsValid r
      → length (contents r) < f
      → (x : Ended W) × (s : Stream W) × (process_read_buffer env f r w ≡ some x)
        × (stream env f (contents r) w ≡ some s)
        × Refines x s
  process_read_buffer_lem zero r w v h = absurd (omega arith)
  process_read_buffer_lem (suc f) r w v h =
      let agree = round_lem env r w v in
      elim (Frame-cases (frame env (contents r) w)) [
        | inl e ↦ (
          waiting r w,
          pending (contents r) w,
          loop_waits f r w (wait_of (round env r w) (subst (Agrees (round env r w)) e agree)),
          stream-more env f (contents r) w e,
          (v, refl, refl),
        )
        | inr (inl e) ↦
            let (r', run) = close_of (round env r w) (subst (Agrees (round env r w)) e agree) in
            (
              closed r' w,
              refused w,
              loop_closes f r w r' run,
              stream-bad env f (contents r) w e,
              refl,
            )
        | inr (inr (rest, w', e)) ↦
            let (r', run, v', same) =
              hand_over_of (round env r w) rest w' (subst (Agrees (round env r w)) e agree) in
            let less = Cut-shorter env (frame-Cut env e) in
            let (x, s, ran, streamed, ok) =
              process_read_buffer_lem f r' w' v' (omega (arith, ap length same)) in
            (
              x,
              s,
              loop_goes_on f r w r' w' run ∙ ran,
              stream-next env f (contents r) w rest w' e
                  ∙ ap (λ b. stream env f b w') (sym same)
                  ∙ streamed,
              ok,
            )
      ]

  read_run :
      (r : RingBuffer) (w : W) (bytes : List ℕ) (r' : RingBuffer)
      → append r bytes ≡ some r'
      → readable r' ≤ 67108864
      → on_read env r w bytes ≡ process_read_buffer env (suc (readable r')) r' w
  unfolding on_read
  read_run r w bytes r' e h = rw (e, on_read) (rw (le→ltb 67108864 (readable r') h) refl)

  -- A read of up to 48 MB into a ring that holds less than a packet ends as the specification does on
  -- what the ring held, followed by the bytes read.
  pub on_read_lem :
      (r : RingBuffer) (w : W) (bytes : List ℕ)
      → IsValid r
      → r.stored < 16777216
      → length bytes ≤ 50331648
      → (x : Ended W) × (s : Stream W) × (on_read env r w bytes ≡ some x)
        × (parse env (contents r ++ bytes) w ≡ some s)
        × Refines x s
  unfolding parse
  on_read_lem r w bytes v h l =
      let (r', run, v', same) = append_lem r bytes v (omega arith) in
      let size = length-cyclic r.buf r.rpos r.stored v.rpos_in v.stored_in in
      let size' = length-cyclic r'.buf r'.rpos r'.stored v'.rpos_in v'.stored_in in
      let total = length-append (contents r) bytes in
      let count : readable r' ≡ readable r + length bytes = omega (arith, ap length same) in
      let (x, s, ran, streamed, ok) =
        process_read_buffer_lem (suc (readable r')) r' w v' (omega arith) in
      (
        x,
        s,
        read_run r w bytes r' run (omega arith) ∙ ran,
        ap (λ b. stream env (suc (length b)) b w) (sym same)
            ∙ ap (λ k. stream env (suc k) (contents r') w) size'
            ∙ streamed,
        ok,
      )
