-- ===== src/Redis/Pipeline/Others.antt =====
-- The other commands of `Pipeline`, common/cpp/redis/redis_client.cpp.
use gmaker.Common.{List, [], ◌∷◌}
use gmaker.Redis.Reply.{Text, word, c_str, ℤ}
use gmaker.Redis.Client.{Hiredis, Formats, pair_args}
use gmaker.Redis.Pipeline.{Pipeline, append_command}

module _ {C : Type 0} (h : Hiredis C) where
  -- `MSet`.
  unfoldable pub m_set : List (Text × Text) → C → Pipeline → C × Pipeline
  m_set kvs c p = append_command h c p (word "MSET" ∷ pair_args kvs)

  -- `MGet`.
  unfoldable pub m_get : List Text → C → Pipeline → C × Pipeline
  m_get keys c p = append_command h c p (word "MGET" ∷ keys)

  -- `HMSet`.
  unfoldable pub hm_set : Text → List (Text × Text) → C → Pipeline → C × Pipeline
  hm_set key fvs c p = append_command h c p (word "HMSET" ∷ key ∷ pair_args fvs)

  -- `HMGet`.
  unfoldable pub hm_get : Text → List Text → C → Pipeline → C × Pipeline
  hm_get key fields c p = append_command h c p (word "HMGET" ∷ key ∷ fields)

  -- `HGetAll`.
  unfoldable pub h_get_all : Text → C → Pipeline → C × Pipeline
  h_get_all key c p = append_command h c p (word "HGETALL" ∷ c_str key ∷ [])

  -- `SPop`.
  unfoldable pub s_pop : Text → C → Pipeline → C × Pipeline
  s_pop key c p = append_command h c p (word "SPOP" ∷ c_str key ∷ [])

  -- `ZRevRank`.
  unfoldable pub z_rev_rank : Text → Text → C → Pipeline → C × Pipeline
  z_rev_rank key member c p = append_command h c p (word "ZREVRANK" ∷ c_str key ∷ c_str member ∷ [])

  -- `Persist`.
  unfoldable pub persist : Text → C → Pipeline → C × Pipeline
  persist key c p = append_command h c p (word "PERSIST" ∷ c_str key ∷ [])

  -- `Rename`.
  unfoldable pub rename : Text → Text → C → Pipeline → C × Pipeline
  rename key new_key c p = append_command h c p (word "RENAME" ∷ c_str key ∷ c_str new_key ∷ [])

  -- `Keys`.
  unfoldable pub keys : Text → C → Pipeline → C × Pipeline
  keys pattern c p = append_command h c p (word "KEYS" ∷ c_str pattern ∷ [])

module _ {C R : Type 0} (h : Hiredis C) (f : Formats R) where
  -- `HIncrBy`.
  unfoldable pub h_incr_by : Text → Text → ℤ → C → Pipeline → C × Pipeline
  h_incr_by key field delta c p =
      append_command h c p (word "HINCRBY" ∷ c_str key ∷ c_str field ∷ f.show_int delta ∷ [])

  -- `LIndex`.
  unfoldable pub l_index : Text → ℤ → C → Pipeline → C × Pipeline
  l_index key index c p = append_command h c p (word "LINDEX" ∷ c_str key ∷ f.show_int index ∷ [])

  -- `LTrim`.
  unfoldable pub l_trim : Text → ℤ → ℤ → C → Pipeline → C × Pipeline
  l_trim key start stop c p =
      append_command h c p (word "LTRIM" ∷ c_str key ∷ f.show_int start ∷ f.show_int stop ∷ [])

  -- `LRem`.
  unfoldable pub l_rem : Text → ℤ → Text → C → Pipeline → C × Pipeline
  l_rem key count value c p =
      append_command h c p (word "LREM" ∷ c_str key ∷ f.show_int count ∷ c_str value ∷ [])

  -- `ZRangeWithScores`.
  unfoldable pub z_range_with_scores : Text → ℤ → ℤ → C → Pipeline → C × Pipeline
  z_range_with_scores key start stop c p =
      append_command h c p
        (word "ZRANGE" ∷ c_str key ∷ f.show_int start ∷ f.show_int stop ∷ word "WITHSCORES" ∷ [])

  -- `ZRevRangeWithScores`.
  unfoldable pub z_rev_range_with_scores : Text → ℤ → ℤ → C → Pipeline → C × Pipeline
  z_rev_range_with_scores key start stop c p =
      append_command h c p
        (word "ZREVRANGE" ∷ c_str key ∷ f.show_int start ∷ f.show_int stop ∷ word "WITHSCORES" ∷ [])

  -- `ZRemRangeByRank`.
  unfoldable pub z_rem_range_by_rank : Text → ℤ → ℤ → C → Pipeline → C × Pipeline
  z_rem_range_by_rank key start stop c p =
      append_command h c p
        (word "ZREMRANGEBYRANK" ∷ c_str key ∷ f.show_int start ∷ f.show_int stop ∷ [])

  -- `ZRemRangeByScore`.
  unfoldable pub z_rem_range_by_score : Text → R → R → C → Pipeline → C × Pipeline
  z_rem_range_by_score key min max c p =
      append_command h c p
        (word "ZREMRANGEBYSCORE" ∷ c_str key ∷ f.show_real min ∷ f.show_real max ∷ [])

  -- `ZIncrBy`.
  unfoldable pub z_incr_by : Text → R → Text → C → Pipeline → C × Pipeline
  z_incr_by key increment member c p =
      append_command h c p (word "ZINCRBY" ∷ c_str key ∷ f.show_real increment ∷ c_str member ∷ [])
