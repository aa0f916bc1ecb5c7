-- ===== src/Net/TcpReader/Tests.antt =====
-- The theorem on the reader at concrete reads.
use gmaker.Common.{ℕ, refl, ap, ◌∙◌, some, List, [], ◌∷◌, ◌++◌, arith, replicate}
use gmaker.Crypto.AesGcm.{Gcm}
use gmaker.Net.Ring.{RingBuffer, create}
use gmaker.Net.Ring.Cyclic.{create_lem}
use gmaker.Net.TcpReader.{Delivery, Env}
use gmaker.Net.TcpReader.Frames.{frame}
use gmaker.Net.TcpReader.Reads.{Settled, Outcome, on_reads_lem}

abbrev identity : Gcm
identity = record {
  seal = λ key nonce plaintext. some (plaintext, replicate 16 0);
  unseal = λ key nonce ciphertext tag. some ciphertext;
}

-- The callback keeps the packets.
abbrev keeper : Env (List Delivery)
keeper = record {
  session_key = λ w. [];
  on_data = λ w pkt. w ++ pkt ∷ [];
  gcm = identity;
  temp_buf = replicate 40 0;
}

abbrev ring : RingBuffer
ring = create 16

ring-Settled : Settled keeper ring []
unfolding frame
ring-Settled =
    let (valid, nothing) = create_lem 16 (omega arith) (omega arith) in
    record { valid = valid; partial = ap (λ b. frame keeper b []) nothing ∙ refl }

-- A packet of 36 bytes, and the beginning of the next, in two reads.
abbrev first : List ℕ
first = 0 ∷ 0 ∷ 0 ∷ 36 ∷ 0x9D ∷ 0x7F ∷ []

abbrev second : List ℕ
second = replicate 28 0 ++ 1 ∷ 2 ∷ 0 ∷ []

on_reads_lem_example : Outcome keeper ring [] (first ∷ second ∷ [])
on_reads_lem_example = on_reads_lem keeper ring [] (first ∷ second ∷ []) ring-Settled (omega arith)
