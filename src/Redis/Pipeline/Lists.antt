-- ===== src/Redis/Pipeline/Lists.antt =====
-- The commands on lists of `Pipeline`, common/cpp/redis/redis_client.cpp.
use gmaker.Common.{List, [], ◌∷◌}
use gmaker.Redis.Reply.{Text, word, c_str, ℤ}
use gmaker.Redis.Client.{Hiredis, Formats}
use gmaker.Redis.Pipeline.{Pipeline, append_command}

module _ {C : Type 0} (h : Hiredis C) where
  -- `LPush`.
  unfoldable pub l_push : Text → List Text → C → Pipeline → C × Pipeline
  l_push key values c p = append_command h c p (word "LPUSH" ∷ key ∷ values)

  -- `RPush`.
  unfoldable pub r_push : Text → List Text → C → Pipeline → C × Pipeline
  r_push key values c p = append_command h c p (word "RPUSH" ∷ key ∷ values)

  -- `LPop`.
  unfoldable pub l_pop : Text → C → Pipeline → C × Pipeline
  l_pop key c p = append_command h c p (word "LPOP" ∷ c_str key ∷ [])

  -- `RPop`.
  unfoldable pub r_pop : Text → C → Pipeline → C × Pipeline
  r_pop key c p = append_command h c p (word "RPOP" ∷ c_str key ∷ [])

  -- `LLen`.
  unfoldable pub l_len : Text → C → Pipeline → C × Pipeline
  l_len key c p = append_command h c p (word "LLEN" ∷ c_str key ∷ [])

module _ {C R : Type 0} (h : Hiredis C) (f : Formats R) where
  -- `LRange`.
  unfoldable pub l_range : Text → ℤ → ℤ → C → Pipeline → C × Pipeline
  l_range key start stop c p =
      append_command h c p (word "LRANGE" ∷ c_str key ∷ f.show_int start ∷ f.show_int stop ∷ [])
