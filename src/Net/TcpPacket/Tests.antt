-- ===== src/Net/TcpPacket/Tests.antt =====
-- The round trip of an encrypted packet at concrete inputs.
use gmaker.Common.{ℕ, none, some, List, [], ◌∷◌, ◌++◌, replicate}
use gmaker.Crypto.AesGcm.{Gcm}
use gmaker.Net.Buffer.{Store}
use gmaker.Net.Packet.{Packet}
use gmaker.Net.TcpReader.{Delivery, Env}

-- A cipher that changes nothing, with a tag of zeros.
abbrev identity : Gcm
identity = record {
  seal = λ key nonce plaintext. some (plaintext, replicate 16 0);
  unseal = λ key nonce ciphertext tag. some ciphertext;
}

abbrev keyed : Env (List Delivery)
keyed = record {
  session_key = λ w. replicate 32 7;
  on_data = λ w pkt. w ++ pkt ∷ [];
  gcm = identity;
  temp_buf = [];
}

abbrev nonce : List ℕ
nonce = replicate 12 9

abbrev store : Store
store = (1 ∷ 2 ∷ 3 ∷ []) ∷ []

abbrev packet : Packet
packet = record {
  header = record {
    length_field = 0;
    magic = 0x9D7F;
    cmd_id = 4097;
    seq_id = 1;
    flags = 0x10;
    user_id = 77;
    zone_id = 0;
    service_id = 3;
  };
  payload = record { own = some 0; shared = none; offset = 1; len = 2 };
}
