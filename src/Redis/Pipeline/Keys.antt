-- ===== src/Redis/Pipeline/Keys.antt =====
-- The commands on keys of `Pipeline`, common/cpp/redis/redis_client.cpp.
use gmaker.Common.{List, [], ◌∷◌}
use gmaker.Redis.Reply.{Text, word, c_str, ℤ}
use gmaker.Redis.Client.{Hiredis, Formats}
use gmaker.Redis.Pipeline.{Pipeline, append_command}

module _ {C : Type 0} (h : Hiredis C) where
  -- `Exists`.
  unfoldable pub exists : List Text → C → Pipeline → C × Pipeline
  exists keys c p = append_command h c p (word "EXISTS" ∷ keys)

  -- `TTL`.
  unfoldable pub ttl : Text → C → Pipeline → C × Pipeline
  ttl key c p = append_command h c p (word "TTL" ∷ c_str key ∷ [])

  -- `Type`.
  unfoldable pub type : Text → C → Pipeline → C × Pipeline
  type key c p = append_command h c p (word "TYPE" ∷ c_str key ∷ [])

module _ {C R : Type 0} (h : Hiredis C) (f : Formats R) where
  -- `Expire`.
  unfoldable pub expire : Text → ℤ → C → Pipeline → C × Pipeline
  expire key ttl_sec c p =
      append_command h c p (word "EXPIRE" ∷ c_str key ∷ f.show_int ttl_sec ∷ [])
