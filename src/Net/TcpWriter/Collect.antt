-- ===== src/Net/TcpWriter/Collect.antt =====
-- The batch that `ProcessWriteQueue` of common/cpp/net/async/tcp_connection.cpp takes from its queue.
use gmaker.Common.{
  ℕ, zero, suc, ◌+◌, ◌^◌, ◌≤◌, ◌<◌, ◌≡◌, refl, sym, ap, ◌∙◌, List, [], ◌∷◌, ◌++◌, append-nil,
  append_assoc, arith, length,
}
use gmaker.Net.Buffer.{Buffer, size}
use gmaker.Net.Ring.{sub_size}
use gmaker.Net.TcpWriter.{collect}

-- The bytes of a queue.
abbrev pub total : List Buffer → ℕ
total [] = 0
total (b ∷ bs) = size b + total bs

pub total-append : (bs cs : List Buffer) → total (bs ++ cs) ≡ total bs + total cs
total-append [] cs = omega arith
total-append (b ∷ bs) cs = omega (arith, total-append bs cs)

pub record Collected (n : ℕ) (queue : List Buffer) (count : ℕ) (batch : List Buffer)
    (out : List Buffer × ℕ × List Buffer) : Type 0 where
  pub taken : List Buffer
  pub grown : out.2 ≡ batch ++ taken
  pub split : taken ++ out.0 ≡ queue
  pub counted : out.1 ≡ total out.0
  pub few : length taken ≤ n
  pub some_taken : 0 < n → 0 < length queue → 0 < length taken

-- The loop moves up to `n` buffers from the front of the queue to the end of the batch, in order, and
-- the count stays that of the queue.
pub collect_lem :
    (n : ℕ) (queue : List Buffer) (count : ℕ) (batch : List Buffer)
    → count ≡ total queue
    → count < 2 ^ 64
    → Collected n queue count batch (collect n queue count batch)
unfolding collect
collect_lem zero queue count batch e l = record {
  taken = [];
  grown = sym (append-nil batch);
  split = refl;
  counted = e;
  few = omega arith;
  some_taken = λ h. absurd (omega arith);
}
collect_lem (suc n) [] count batch e l = record {
  taken = [];
  grown = sym (append-nil batch);
  split = refl;
  counted = e;
  few = omega arith;
  some_taken = λ h k. absurd (omega arith);
}
collect_lem (suc n) (b ∷ queue) count batch e l =
    let c : Collected n queue (sub_size count (size b)) (batch ++ b ∷ [])
        (collect n queue (sub_size count (size b)) (batch ++ b ∷ [])) =
      collect_lem n queue (sub_size count (size b)) (batch ++ b ∷ []) (omega arith) (omega arith) in
    record {
      taken = b ∷ c.taken;
      grown = c.grown ∙ append_assoc batch (b ∷ []) c.taken;
      split = ap (◌∷◌ b) c.split;
      counted = c.counted;
      few = omega (arith, c.few);
      some_taken = λ h k. omega arith;
    }
