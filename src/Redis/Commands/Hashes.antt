-- ===== src/Redis/Commands/Hashes.antt =====
-- The commands on hashes of `Client`, common/cpp/redis/redis_client.cpp.
use gmaker.Common.{Bool, false, ◌||◌, Option, none, List, [], ◌∷◌}
use gmaker.Redis.Reply.{Text, word, c_str, ℤ, nonnegative, equals}
use gmaker.Redis.Client.{
  Hiredis, Formats, Client, call, status_is, integer_test, flag, optional_text, integer, texts,
  optional_texts, text_pairs, pair_args, is_empty,
}

module _ {C : Type 0} (h : Hiredis C) where
  -- `HSet`.
  unfoldable pub h_set : Text → Text → Text → Client C → Client C × Option Bool
  h_set key field value cl =
      call h false (word "not connected") (word "hset failed") false
        (integer_test (λ n. equals n 0 || equals n 1) (word "hset error"))
        (word "HSET" ∷ c_str key ∷ c_str field ∷ c_str value ∷ []) cl

  -- `HGet`.
  unfoldable pub h_get : Text → Text → Client C → Client C × Option (Option Text)
  h_get key field cl =
      call h false (word "not connected") (word "hget failed") none
        (optional_text (word "hget error")) (word "HGET" ∷ c_str key ∷ c_str field ∷ []) cl

  -- `HMSet`.
  unfoldable pub hm_set : Text → List (Text × Text) → Client C → Client C × Option Bool
  hm_set key fvs cl =
      call h (is_empty fvs) (word "not connected or empty fields") (word "hmset failed") false
        (status_is (word "OK") (word "hmset error")) (word "HMSET" ∷ key ∷ pair_args fvs) cl

  -- `HMGet`.
  unfoldable pub hm_get : Text → List Text → Client C → Client C × Option (List (Option Text))
  hm_get key fields cl =
      call h (is_empty fields) (word "not connected or empty fields") (word "hmget failed") []
        (optional_texts (word "hmget error")) (word "HMGET" ∷ key ∷ fields) cl

  -- `HGetAll`.
  unfoldable pub h_get_all : Text → Client C → Client C × Option (List (Text × Text))
  h_get_all key cl =
      call h false (word "not connected") (word "hgetall failed") []
        (text_pairs (word "hgetall error")) (word "HGETALL" ∷ c_str key ∷ []) cl

  -- `HDel`.
  unfoldable pub h_del : Text → List Text → Client C → Client C × Option Bool
  h_del key fields cl =
      call h (is_empty fields) (word "not connected or empty fields") (word "hdel failed") false
        (integer_test nonnegative (word "hdel error")) (word "HDEL" ∷ key ∷ fields) cl

  -- `HExists`.
  unfoldable pub h_exists : Text → Text → Client C → Client C × Option Bool
  h_exists key field cl =
      call h false (word "not connected") (word "hexists failed") false
        (flag (word "hexists error")) (word "HEXISTS" ∷ c_str key ∷ c_str field ∷ []) cl

  -- `HLen`.
  unfoldable pub h_len : Text → Client C → Client C × Option (Option ℤ)
  h_len key cl =
      call h false (word "not connected") (word "hlen failed") none (integer (word "hlen error"))
        (word "HLEN" ∷ c_str key ∷ []) cl

  -- `HKeys`.
  unfoldable pub h_keys : Text → Client C → Client C × Option (List Text)
  h_keys key cl =
      call h false (word "not connected") (word "hkeys failed") [] (texts (word "hkeys error"))
        (word "HKEYS" ∷ c_str key ∷ []) cl

  -- `HVals`.
  unfoldable pub h_vals : Text → Client C → Client C × Option (List Text)
  h_vals key cl =
      call h false (word "not connected") (word "hvals failed") [] (texts (word "hvals error"))
        (word "HVALS" ∷ c_str key ∷ []) cl

module _ {C R : Type 0} (h : Hiredis C) (f : Formats R) where
  -- `HIncrBy`.
  unfoldable pub h_incr_by : Text → Text → ℤ → Client C → Client C × Option (Option ℤ)
  h_incr_by key field delta cl =
      call h false (word "not connected") (word "hincrby failed") none
        (integer (word "hincrby error"))
        (word "HINCRBY" ∷ c_str key ∷ c_str field ∷ f.show_int delta ∷ []) cl
