-- ===== src/Redis/Pipeline/Sets.antt =====
-- The commands on sets of `Pipeline`, common/cpp/redis/redis_client.cpp.
use gmaker.Common.{List, [], ◌∷◌}
use gmaker.Redis.Reply.{Text, word, c_str}
use gmaker.Redis.Client.{Hiredis}
use gmaker.Redis.Pipeline.{Pipeline, append_command}

module _ {C : Type 0} (h : Hiredis C) where
  -- `SAdd`.
  unfoldable pub s_add : Text → List Text → C → Pipeline → C × Pipeline
  s_add key members c p = append_command h c p (word "SADD" ∷ key ∷ members)

  -- `SRem`.
  unfoldable pub s_rem : Text → List Text → C → Pipeline → C × Pipeline
  s_rem key members c p = append_command h c p (word "SREM" ∷ key ∷ members)

  -- `SMembers`.
  unfoldable pub s_members : Text → C → Pipeline → C × Pipeline
  s_members key c p = append_command h c p (word "SMEMBERS" ∷ c_str key ∷ [])

  -- `SIsMember`.
  unfoldable pub s_is_member : Text → Text → C → Pipeline → C × Pipeline
  s_is_member key member c p =
      append_command h c p (word "SISMEMBER" ∷ c_str key ∷ c_str member ∷ [])

  -- `SCard`.
  unfoldable pub s_card : Text → C → Pipeline → C × Pipeline
  s_card key c p = append_command h c p (word "SCARD" ∷ c_str key ∷ [])
