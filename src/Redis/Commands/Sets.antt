-- ===== src/Redis/Commands/Sets.antt =====
-- The commands on sets of `Client`, common/cpp/redis/redis_client.cpp.
use gmaker.Common.{Bool, false, Option, none, List, [], ◌∷◌}
use gmaker.Redis.Reply.{Text, word, c_str, ℤ}
use gmaker.Redis.Client.{Hiredis, Client, call, flag, optional_text, integer, texts, is_empty}

module _ {C : Type 0} (h : Hiredis C) where
  -- `SAdd`.
  unfoldable pub s_add : Text → List Text → Client C → Client C × Option (Option ℤ)
  s_add key members cl =
      call h (is_empty members) (word "not connected or empty members") (word "sadd failed") none
        (integer (word "sadd error")) (word "SADD" ∷ key ∷ members) cl

  -- `SRem`.
  unfoldable pub s_rem : Text → List Text → Client C → Client C × Option (Option ℤ)
  s_rem key members cl =
      call h (is_empty members) (word "not connected or empty members") (word "srem failed") none
        (integer (word "srem error")) (word "SREM" ∷ key ∷ members) cl

  -- `SMembers`.
  unfoldable pub s_members : Text → Client C → Client C × Option (List Text)
  s_members key cl =
      call h false (word "not connected") (word "smembers failed") []
        (texts (word "smembers error")) (word "SMEMBERS" ∷ c_str key ∷ []) cl

  -- `SIsMember`.
  unfoldable pub s_is_member : Text → Text → Client C → Client C × Option Bool
  s_is_member key member cl =
      call h false (word "not connected") (word "sismember failed") false
        (flag (word "sismember error")) (word "SISMEMBER" ∷ c_str key ∷ c_str member ∷ []) cl

  -- `SCard`.
  unfoldable pub s_card : Text → Client C → Client C × Option (Option ℤ)
  s_card key cl =
      call h false (word "not connected") (word "scard failed") none (integer (word "scard error"))
        (word "SCARD" ∷ c_str key ∷ []) cl

  -- `SPop`.
  unfoldable pub s_pop : Text → Client C → Client C × Option (Option Text)
  s_pop key cl =
      call h false (word "not connected") (word "spop failed") none
        (optional_text (word "spop error")) (word "SPOP" ∷ c_str key ∷ []) cl
