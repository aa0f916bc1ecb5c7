-- ===== src/Redis/Commands/Lists.antt =====
-- The commands on lists of `Client`, common/cpp/redis/redis_client.cpp.
use gmaker.Common.{Bool, false, Option, none, List, [], ◌∷◌}
use gmaker.Redis.Reply.{Text, word, c_str, ℤ}
use gmaker.Redis.Client.{
  Hiredis, Formats, Client, call, status_is, optional_text, integer, texts, is_empty,
}

module _ {C : Type 0} (h : Hiredis C) where
  -- `LPush`.
  unfoldable pub l_push : Text → List Text → Client C → Client C × Option (Option ℤ)
  l_push key values cl =
      call h (is_empty values) (word "not connected or empty values") (word "lpush failed") none
        (integer (word "lpush error")) (word "LPUSH" ∷ key ∷ values) cl

  -- `RPush`.
  unfoldable pub r_push : Text → List Text → Client C → Client C × Option (Option ℤ)
  r_push key values cl =
      call h (is_empty values) (word "not connected or empty values") (word "rpush failed") none
        (integer (word "rpush error")) (word "RPUSH" ∷ key ∷ values) cl

  -- `LPop`.
  unfoldable pub l_pop : Text → Client C → Client C × Option (Option Text)
  l_pop key cl =
      call h false (word "not connected") (word "lpop failed") none
        (optional_text (word "lpop error")) (word "LPOP" ∷ c_str key ∷ []) cl

  -- `RPop`.
  unfoldable pub r_pop : Text → Client C → Client C × Option (Option Text)
  r_pop key cl =
      call h false (word "not connected") (word "rpop failed") none
        (optional_text (word "rpop error")) (word "RPOP" ∷ c_str key ∷ []) cl

  -- `LLen`.
  unfoldable pub l_len : Text → Client C → Client C × Option (Option ℤ)
  l_len key cl =
      call h false (word "not connected") (word "llen failed") none (integer (word "llen error"))
        (word "LLEN" ∷ c_str key ∷ []) cl

module _ {C R : Type 0} (h : Hiredis C) (f : Formats R) where
  -- `LRange`.
  unfoldable pub l_range : Text → ℤ → ℤ → Client C → Client C × Option (List Text)
  l_range key start stop cl =
      call h false (word "not connected") (word "lrange failed") [] (texts (word "lrange error"))
        (word "LRANGE" ∷ c_str key ∷ f.show_int start ∷ f.show_int stop ∷ []) cl

  -- `LIndex`.
  unfoldable pub l_index : Text → ℤ → Client C → Client C × Option (Option Text)
  l_index key index cl =
      call h false (word "not connected") (word "lindex failed") none
        (optional_text (word "lindex error")) (word "LINDEX" ∷ c_str key ∷ f.show_int index ∷ []) cl

  -- `LTrim`.
  unfoldable pub l_trim : Text → ℤ → ℤ → Client C → Client C × Option Bool
  l_trim key start stop cl =
      call h false (word "not connected") (word "ltrim failed") false
        (status_is (word "OK") (word "ltrim error"))
        (word "LTRIM" ∷ c_str key ∷ f.show_int start ∷ f.show_int stop ∷ []) cl

  -- `LRem`.
  unfoldable pub l_rem : Text → ℤ → Text → Client C → Client C × Option (Option ℤ)
  l_rem key count value cl =
      call h false (word "not connected") (word "lrem failed") none (integer (word "lrem error"))
        (word "LREM" ∷ c_str key ∷ f.show_int count ∷ c_str value ∷ []) cl
