-- ===== src/Redis/Commands/SortedSets.antt =====
-- The commands on sorted sets of `Client`, common/cpp/redis/redis_client.cpp.
use gmaker.Common.{false, Option, none, List, [], ◌∷◌}
use gmaker.Redis.Reply.{Text, word, c_str, ℤ}
use gmaker.Redis.Client.{
  Hiredis, Formats, Client, call, integer, integer_or_nil, texts, scored, real, real_or_nil,
  score_args, is_empty,
}

module _ {C : Type 0} (h : Hiredis C) where
  -- `ZRem`.
  unfoldable pub z_rem : Text → List Text → Client C → Client C × Option (Option ℤ)
  z_rem key members cl =
      call h (is_empty members) (word "not connected or empty members") (word "zrem failed") none
        (integer (word "zrem error")) (word "ZREM" ∷ key ∷ members) cl

  -- `ZCard`.
  unfoldable pub z_card : Text → Client C → Client C × Option (Option ℤ)
  z_card key cl =
      call h false (word "not connected") (word "zcard failed") none (integer (word "zcard error"))
        (word "ZCARD" ∷ c_str key ∷ []) cl

  -- `ZRank`.
  unfoldable pub z_rank : Text → Text → Client C → Client C × Option (Option ℤ)
  z_rank key member cl =
      call h false (word "not connected") (word "zrank failed") none
        (integer_or_nil (word "zrank error")) (word "ZRANK" ∷ c_str key ∷ c_str member ∷ []) cl

  -- `ZRevRank`.
  unfoldable pub z_rev_rank : Text → Text → Client C → Client C × Option (Option ℤ)
  z_rev_rank key member cl =
      call h false (word "not connected") (word "zrevrank failed") none
        (integer_or_nil (word "zrevrank error")) (word "ZREVRANK" ∷ c_str key ∷ c_str member ∷ [])
        cl

module _ {C R : Type 0} (h : Hiredis C) (f : Formats R) where
  -- `ZAdd`.
  unfoldable pub z_add : Text → List (R × Text) → Client C → Client C × Option (Option ℤ)
  z_add key score_members cl =
      call h (is_empty score_members) (word "not connected or empty members") (word "zadd failed")
        none (integer (word "zadd error")) (word "ZADD" ∷ key ∷ score_args f score_members) cl

  -- `ZRange`.
  unfoldable pub z_range : Text → ℤ → ℤ → Client C → Client C × Option (List Text)
  z_range key start stop cl =
      call h false (word "not connected") (word "zrange failed") [] (texts (word "zrange error"))
        (word "ZRANGE" ∷ c_str key ∷ f.show_int start ∷ f.show_int stop ∷ []) cl

  -- `ZRevRange`.
  unfoldable pub z_rev_range : Text → ℤ → ℤ → Client C → Client C × Option (List Text)
  z_rev_range key start stop cl =
      call h false (word "not connected") (word "zrevrange failed") []
        (texts (word "zrevrange error"))
        (word "ZREVRANGE" ∷ c_str key ∷ f.show_int start ∷ f.show_int stop ∷ []) cl

  -- `ZRangeWithScores`.
  unfoldable pub z_range_with_scores : Text → ℤ → ℤ → Client C → Client C × Option (List (Text × R))
  z_range_with_scores key start stop cl =
      call h false (word "not connected") (word "zrange withscores failed") []
        (scored f (word "zrange withscores error"))
        (word "ZRANGE" ∷ c_str key ∷ f.show_int start ∷ f.show_int stop ∷ word "WITHSCORES" ∷ []) cl

  -- `ZRevRangeWithScores`.
  unfoldable pub z_rev_range_with_scores :
      Text → ℤ → ℤ → Client C → Client C × Option (List (Text × R))
  z_rev_range_with_scores key start stop cl =
      call h false (word "not connected") (word "zrevrange withscores failed") []
        (scored f (word "zrevrange withscores error"))
        (word "ZREVRANGE" ∷ c_str key ∷ f.show_int start ∷ f.show_int stop ∷ word "WITHSCORES" ∷ [])
        cl

  -- `ZRangeByScore`.
  unfoldable pub z_range_by_score : Text → R → R → Client C → Client C × Option (List Text)
  z_range_by_score key min max cl =
      call h false (word "not connected") (word "zrangebyscore failed") []
        (texts (word "zrangebyscore error"))
        (word "ZRANGEBYSCORE" ∷ c_str key ∷ f.show_real min ∷ f.show_real max ∷ []) cl

  -- `ZRemRangeByRank`.
  unfoldable pub z_rem_range_by_rank : Text → ℤ → ℤ → Client C → Client C × Option (Option ℤ)
  z_rem_range_by_rank key start stop cl =
      call h false (word "not connected") (word "zremrangebyrank failed") none
        (integer (word "zremrangebyrank error"))
        (word "ZREMRANGEBYRANK" ∷ c_str key ∷ f.show_int start ∷ f.show_int stop ∷ []) cl

  -- `ZRemRangeByScore`.
  unfoldable pub z_rem_range_by_score : Text → R → R → Client C → Client C × Option (Option ℤ)
  z_rem_range_by_score key min max cl =
      call h false (word "not connected") (word "zremrangebyscore failed") none
        (integer (word "zremrangebyscore error"))
        (word "ZREMRANGEBYSCORE" ∷ c_str key ∷ f.show_real min ∷ f.show_real max ∷ []) cl

  -- `ZScore`.
  unfoldable pub z_score : Text → Text → Client C → Client C × Option (Option R)
  z_score key member cl =
      call h false (word "not connected") (word "zscore failed") none
        (real_or_nil f (word "zscore error")) (word "ZSCORE" ∷ c_str key ∷ c_str member ∷ []) cl

  -- `ZIncrBy`.
  unfoldable pub z_incr_by : Text → R → Text → Client C → Client C × Option (Option R)
  z_incr_by key increment member cl =
      call h false (word "not connected") (word "zincrby failed") none
        (real f (word "zincrby error"))
        (word "ZINCRBY" ∷ c_str key ∷ f.show_real increment ∷ c_str member ∷ []) cl
