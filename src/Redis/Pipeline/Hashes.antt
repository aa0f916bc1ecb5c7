-- ===== src/Redis/Pipeline/Hashes.antt =====
-- The commands on hashes of `Pipeline`, common/cpp/redis/redis_client.cpp.
use gmaker.Common.{List, [], ◌∷◌}
use gmaker.Redis.Reply.{Text, word, c_str}
use gmaker.Redis.Client.{Hiredis}
use gmaker.Redis.Pipeline.{Pipeline, append_command}

module _ {C : Type 0} (h : Hiredis C) where
  -- `HSet`.
  unfoldable pub h_set : Text → Text → Text → C → Pipeline → C × Pipeline
  h_set key field value c p =
      append_command h c p (word "HSET" ∷ c_str key ∷ c_str field ∷ c_str value ∷ [])

  -- `HGet`.
  unfoldable pub h_get : Text → Text → C → Pipeline → C × Pipeline
  h_get key field c p = append_command h c p (word "HGET" ∷ c_str key ∷ c_str field ∷ [])

  -- `HDel`.
  unfoldable pub h_del : Text → List Text → C → Pipeline → C × Pipeline
  h_del key fields c p = append_command h c p (word "HDEL" ∷ key ∷ fields)

  -- `HExists`.
  unfoldable pub h_exists : Text → Text → C → Pipeline → C × Pipeline
  h_exists key field c p = append_command h c p (word "HEXISTS" ∷ c_str key ∷ c_str field ∷ [])

  -- `HLen`.
  unfoldable pub h_len : Text → C → Pipeline → C × Pipeline
  h_len key c p = append_command h c p (word "HLEN" ∷ c_str key ∷ [])

  -- `HKeys`.
  unfoldable pub h_keys : Text → C → Pipeline → C × Pipeline
  h_keys key c p = append_command h c p (word "HKEYS" ∷ c_str key ∷ [])

  -- `HVals`.
  unfoldable pub h_vals : Text → C → Pipeline → C × Pipeline
  h_vals key c p = append_command h c p (word "HVALS" ∷ c_str key ∷ [])
