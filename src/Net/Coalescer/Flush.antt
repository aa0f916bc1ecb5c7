-- ===== src/Net/Coalescer/Flush.antt =====
-- What a flush of common/cpp/net/async/coalescer.cpp hands to each connection.
use gmaker.Common.{
  ℕ, ◌≡◌, refl, sym, ap, ◌∙◌, inl, inr, Option, none, some, List, [], ◌∷◌, ◌++◌, append-nil,
  append_assoc, ◌==◌, if◌then◌else◌, ==→eq, Bool-cases, Option-cases,
}
use gmaker.Common.Dict.{Dict, find, put, find-put}
use gmaker.Net.Buffer.{Buffer}
use gmaker.Net.Coalescer.{Pending, Coalescer, batch_of, group, do_flush}

-- The buffers that wait for a connection, in order.
abbrev pub waiting_for : ℕ → List Pending → List Buffer
waiting_for c [] = []
waiting_for c (p ∷ ps) = elim p.conn [
  | none ↦ waiting_for c ps
  | some d ↦ if d == c then p.encoded ∷ waiting_for c ps else waiting_for c ps
]

pub waiting_for-append :
    (c : ℕ) (ps qs : List Pending) → waiting_for c (ps ++ qs) ≡ waiting_for c ps ++ waiting_for c qs
waiting_for-append c [] qs = refl
waiting_for-append c (p ∷ ps) qs = elim (Option-cases p.conn) [
  | inl null ↦ rw null (waiting_for-append c ps qs)
  | inr (d, e) ↦ elim (Bool-cases (d == c)) [
    | inl same ↦ rw (e, same) (ap (λ x. p.encoded ∷ x) (waiting_for-append c ps qs))
    | inr other ↦ rw (e, other) (waiting_for-append c ps qs)
  ]
]

batch_of-put :
    (batches : Dict (List Buffer)) (d c : ℕ) (v : List Buffer)
    → batch_of (put batches d v) c ≡ (if d == c then v else batch_of batches c)
batch_of-put batches d c v =
    ap (λ (o : Option (List Buffer)). elim o [ none ↦ [] | some buffers ↦ buffers ])
      (find-put batches d v c)
    ∙ elim (Bool-cases (d == c)) [ inl same ↦ rw same refl | inr other ↦ rw other refl ]

-- Grouping appends, batch by batch.
pub batch_of-group :
    (ps : List Pending) (batches : Dict (List Buffer)) (c : ℕ)
    → batch_of (group ps batches) c ≡ batch_of batches c ++ waiting_for c ps
unfolding group
batch_of-group [] batches c = sym (append-nil (batch_of batches c))
batch_of-group (p ∷ ps) batches c = elim (Option-cases p.conn) [
  | inl null ↦ rw null (batch_of-group ps batches c)
  | inr (d, e) ↦ rw e (
      batch_of-group ps (put batches d (batch_of batches d ++ p.encoded ∷ [])) c
      ∙ rw (batch_of-put batches d c (batch_of batches d ++ p.encoded ∷ []))
          (elim (Bool-cases (d == c)) [
            | inr other ↦ rw other refl
            | inl same ↦ rw same (
                append_assoc (batch_of batches d) (p.encoded ∷ []) (waiting_for c ps)
                ∙ ap (λ k. batch_of batches k ++ p.encoded ∷ waiting_for c ps) (==→eq d c same))
          ]))
]

-- A flush hands every connection the buffers that wait for it, all of them and in the order in which
-- they came, and leaves nothing waiting; what waits for no connection is dropped.
pub do_flush_lem :
    (co : Coalescer) (c : ℕ)
    → let (co', batches) = do_flush co in
      (batch_of batches c ≡ waiting_for c co.pending) × (co'.pending ≡ [])
unfolding do_flush find
do_flush_lem co c = (batch_of-group co.pending [] c, refl)
