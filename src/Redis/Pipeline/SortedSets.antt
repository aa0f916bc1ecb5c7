-- ===== src/Redis/Pipeline/SortedSets.antt =====
-- The commands on sorted sets of `Pipeline`, common/cpp/redis/redis_client.cpp.
use gmaker.Common.{List, [], ◌∷◌}
use gmaker.Redis.Reply.{Text, word, c_str, ℤ}
use gmaker.Redis.Client.{Hiredis, Formats, score_args}
use gmaker.Redis.Pipeline.{Pipeline, append_command}

module _ {C : Type 0} (h : Hiredis C) where
  -- `ZRem`.
  unfoldable pub z_rem : Text → List Text → C → Pipeline → C × Pipeline
  z_rem key members c p = append_command h c p (word "ZREM" ∷ key ∷ members)

  -- `ZCard`.
  unfoldable pub z_card : Text → C → Pipeline → C × Pipeline
  z_card key c p = append_command h c p (word "ZCARD" ∷ c_str key ∷ [])

  -- `ZScore`.
  unfoldable pub z_score : Text → Text → C → Pipeline → C × Pipeline
  z_score key member c p = append_command h c p (word "ZSCORE" ∷ c_str key ∷ c_str member ∷ [])

  -- `ZRank`.
  unfoldable pub z_rank : Text → Text → C → Pipeline → C × Pipeline
  z_rank key member c p = append_command h c p (word "ZRANK" ∷ c_str key ∷ c_str member ∷ [])

module _ {C R : Type 0} (h : Hiredis C) (f : Formats R) where
  -- `ZAdd`.
  unfoldable pub z_add : Text → List (R × Text) → C → Pipeline → C × Pipeline
  z_add key score_members c p =
      append_command h c p (word "ZADD" ∷ key ∷ score_args f score_members)

  -- `ZRange`.
  unfoldable pub z_range : Text → ℤ → ℤ → C → Pipeline → C × Pipeline
  z_range key start stop c p =
      append_command h c p (word "ZRANGE" ∷ c_str key ∷ f.show_int start ∷ f.show_int stop ∷ [])

  -- `ZRevRange`.
  unfoldable pub z_rev_range : Text → ℤ → ℤ → C → Pipeline → C × Pipeline
  z_rev_range key start stop c p =
      append_command h c p (word "ZREVRANGE" ∷ c_str key ∷ f.show_int start ∷ f.show_int stop ∷ [])

  -- `ZRangeByScore`.
  unfoldable pub z_range_by_score : Text → R → R → C → Pipeline → C × Pipeline
  z_range_by_score key min max c p =
      append_command h c p
        (word "ZRANGEBYSCORE" ∷ c_str key ∷ f.show_real min ∷ f.show_real max ∷ [])
