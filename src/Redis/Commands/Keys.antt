-- ===== src/Redis/Commands/Keys.antt =====
-- The commands on keys of `Client`, common/cpp/redis/redis_client.cpp.
use gmaker.Common.{Bool, false, Option, none, List, [], ◌∷◌}
use gmaker.Redis.Reply.{Text, word, c_str, ℤ, positive}
use gmaker.Redis.Client.{
  Hiredis, Formats, Client, call, status_is, integer_test, flag, status_text, integer, texts,
  is_empty,
}

module _ {C : Type 0} (h : Hiredis C) where
  -- `Exists`.
  unfoldable pub exists : List Text → Client C → Client C × Option Bool
  exists keys cl =
      call h (is_empty keys) (word "not connected or empty keys") (word "exists failed") false
        (integer_test positive (word "exists error")) (word "EXISTS" ∷ keys) cl

  -- `TTL`.
  unfoldable pub ttl : Text → Client C → Client C × Option (Option ℤ)
  ttl key cl =
      call h false (word "not connected") (word "ttl failed") none (integer (word "ttl error"))
        (word "TTL" ∷ c_str key ∷ []) cl

  -- `Persist`.
  unfoldable pub persist : Text → Client C → Client C × Option Bool
  persist key cl =
      call h false (word "not connected") (word "persist failed") false
        (flag (word "persist error")) (word "PERSIST" ∷ c_str key ∷ []) cl

  -- `Rename`.
  unfoldable pub rename : Text → Text → Client C → Client C × Option Bool
  rename key new_key cl =
      call h false (word "not connected") (word "rename failed") false
        (status_is (word "OK") (word "rename error"))
        (word "RENAME" ∷ c_str key ∷ c_str new_key ∷ []) cl

  -- `Type`.
  unfoldable pub type : Text → Client C → Client C × Option (Option Text)
  type key cl =
      call h false (word "not connected") (word "type failed") none
        (status_text (word "type error")) (word "TYPE" ∷ c_str key ∷ []) cl

  -- `Keys`.
  unfoldable pub keys : Text → Client C → Client C × Option (List Text)
  keys pattern cl =
      call h false (word "not connected") (word "keys failed") [] (texts (word "keys error"))
        (word "KEYS" ∷ c_str pattern ∷ []) cl

module _ {C R : Type 0} (h : Hiredis C) (f : Formats R) where
  -- `Expire`.
  unfoldable pub expire : Text → ℤ → Client C → Client C × Option Bool
  expire key ttl_sec cl =
      call h false (word "not connected") (word "expire failed") false (flag (word "expire error"))
        (word "EXPIRE" ∷ c_str key ∷ f.show_int ttl_sec ∷ []) cl
