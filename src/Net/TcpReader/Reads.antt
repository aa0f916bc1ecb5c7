-- ===== src/Net/TcpReader/Reads.antt =====
-- A connection of common/cpp/net/async/tcp_connection.cpp over all its reads: how the network cuts the
-- stream does not matter.
use gmaker.Common.{
  ℕ, ◌≤◌, ◌≡◌, refl, sym, ap, ap₂, ◌∙◌, some, List, [], ◌∷◌, ◌++◌, append-nil, append_assoc, arith,
  length, set,
}
use gmaker.Net.Ring.{RingBuffer}
use gmaker.Net.Ring.Cyclic.{contents, IsValid, length-cyclic}
use gmaker.Net.TcpReader.{Env, Ended, waiting, closed, on_read, on_reads}
use gmaker.Net.TcpReader.Frames.{Stream, pending, refused, more, frame, parse}
use gmaker.Net.TcpReader.Streams.{pending-more, resume, parse-append, parse-pending}
use gmaker.Net.TcpReader.Chunks.{more-lt}
use gmaker.Net.TcpReader.Refine.{Refines, on_read_lem}

-- The stream that arrives in these reads.
abbrev pub concat : List (List ℕ) → List ℕ
concat [] = []
concat (bytes ∷ chunks) = bytes ++ concat chunks

-- No read is longer than 48 MB; libuv reads at most 64 KB at once.
abbrev pub Short : List (List ℕ) → Type 0
Short [] = Unit {0}
Short (bytes ∷ chunks) = (length bytes ≤ 50331648) × Short chunks

module _ {W : Type 0} (env : Env W) where
  -- Between two reads the ring is valid and holds no whole packet.
  pub record Settled (r : RingBuffer) (w : W) : Type 0 where
    pub valid : IsValid r
    pub partial : frame env (contents r) w ≡ more

  -- The outcome of the reads, and of the specification on the same bytes.
  abbrev pub Outcome : RingBuffer → W → List (List ℕ) → Type 0
  Outcome r w chunks =
      (x : Ended W) × (s : Stream W) × (on_reads env r w chunks ≡ some x)
      × (parse env (contents r ++ concat chunks) w ≡ some s)
      × Refines x s

  goes_on :
      (r : RingBuffer) (w : W) (bytes : List ℕ) (chunks : List (List ℕ)) (r' : RingBuffer) (w' : W)
      → on_read env r w bytes ≡ some (waiting r' w')
      → on_reads env r w (bytes ∷ chunks) ≡ on_reads env r' w' chunks
  unfolding on_reads
  goes_on r w bytes chunks r' w' e = rw (e, on_reads) refl

  stops :
      (r : RingBuffer) (w : W) (bytes : List ℕ) (chunks : List (List ℕ)) (r' : RingBuffer) (w' : W)
      → on_read env r w bytes ≡ some (closed r' w')
      → on_reads env r w (bytes ∷ chunks) ≡ some (closed r' w')
  unfolding on_reads
  stops r w bytes chunks r' w' e = rw (e, on_reads) refl

  resumed :
      (bs bytes rest : List ℕ) (w : W) (s : Stream W)
      → parse env (bs ++ bytes) w ≡ some s
      → parse env (bs ++ (bytes ++ rest)) w ≡ resume env rest (some s)
  resumed bs bytes rest w s e =
      ap (λ b. parse env b w) (sym (append_assoc bs bytes rest))
      ∙ parse-append env (bs ++ bytes) rest w
      ∙ ap (resume env rest) e

  after_read :
      (r : RingBuffer) (w : W) (bytes : List ℕ) (chunks : List (List ℕ)) (x : Ended W)
      (s : Stream W)
      → on_read env r w bytes ≡ some x
      → parse env (contents r ++ bytes) w ≡ some s
      → Refines x s
      → ((r' : RingBuffer) (w' : W) → Settled r' w' → Outcome r' w' chunks)
      → Outcome r w (bytes ∷ chunks)
  after_read r w bytes chunks (closed r' w') (refused v) ran parsed ok go = (
    closed r' w',
    refused v,
    stops r w bytes chunks r' w' ran,
    resumed (contents r) bytes (concat chunks) w (refused v) parsed,
    ok,
  )
  after_read r w bytes chunks (closed r' w') (pending rest v) ran parsed ok go = elim ok [ ]
  after_read r w bytes chunks (waiting r' w') (refused v) ran parsed ok go = elim ok [ ]
  after_read r w bytes chunks (waiting r' w') (pending rest v) ran parsed (v', same, eq) go =
      let partial = pending-more env (contents r ++ bytes) w rest v parsed in
      let (x, s, ran', parsed', ok') =
        go r' w' (record { valid = v'; partial = ap₂ (frame env) same eq ∙ partial }) in
      (
        x,
        s,
        goes_on r w bytes chunks r' w' ran ∙ ran',
        resumed (contents r) bytes (concat chunks) w (pending rest v) parsed
            ∙ ap₂ (λ b u. parse env (b ++ concat chunks) u) (sym same) (sym eq)
            ∙ parsed',
        ok',
      )

  -- From a settled connection on, the bytes that arrive, in reads of up to 48 MB each, give the
  -- packets of the specification on the whole stream, in the same order. The connection is closed
  -- exactly where the specification refuses the stream, and otherwise the ring is valid and holds
  -- what is pending. No loop runs out of fuel, and the bound on the ring's size is never reached.
  pub on_reads_lem :
      (r : RingBuffer) (w : W) (chunks : List (List ℕ))
      → Settled r w
      → Short chunks
      → Outcome r w chunks
  unfolding on_reads
  on_reads_lem r w [] set short = (
    waiting r w,
    pending (contents r) w,
    refl,
    ap (λ b. parse env b w) (append-nil (contents r))
        ∙ parse-pending env (contents r) w set.partial,
    (set.valid, refl, refl),
  )
  on_reads_lem r w (bytes ∷ chunks) set (h, short) =
      let v = set.valid in
      let size = length-cyclic r.buf r.rpos r.stored v.rpos_in v.stored_in in
      let few = more-lt env (contents r) w set.partial in
      let (x, s, ran, parsed, ok) = on_read_lem env r w bytes v (omega arith) h in
      after_read r w bytes chunks x s ran parsed ok
        λ r' w' set'. on_reads_lem r' w' chunks set' short
