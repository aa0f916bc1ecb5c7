-- ===== src/Redis/Pipeline/Strings.antt =====
-- The commands on texts of `Pipeline`, common/cpp/redis/redis_client.cpp.
use gmaker.Common.{List, [], ◌∷◌, if◌then◌else◌}
use gmaker.Redis.Reply.{Text, word, c_str, ℤ, positive}
use gmaker.Redis.Client.{Hiredis, Formats}
use gmaker.Redis.Pipeline.{Pipeline, append_command}

module _ {C : Type 0} (h : Hiredis C) where
  -- `Get`.
  unfoldable pub get : Text → C → Pipeline → C × Pipeline
  get key c p = append_command h c p (word "GET" ∷ c_str key ∷ [])

  -- `Del`.
  unfoldable pub del_one : Text → C → Pipeline → C × Pipeline
  del_one key c p = append_command h c p (word "DEL" ∷ c_str key ∷ [])

  -- `Del`.
  unfoldable pub del : List Text → C → Pipeline → C × Pipeline
  del keys c p = append_command h c p (word "DEL" ∷ keys)

  -- `Incr`.
  unfoldable pub incr : Text → C → Pipeline → C × Pipeline
  incr key c p = append_command h c p (word "INCR" ∷ c_str key ∷ [])

  -- `Decr`.
  unfoldable pub decr : Text → C → Pipeline → C × Pipeline
  decr key c p = append_command h c p (word "DECR" ∷ c_str key ∷ [])

  -- `StrLen`.
  unfoldable pub str_len : Text → C → Pipeline → C × Pipeline
  str_len key c p = append_command h c p (word "STRLEN" ∷ c_str key ∷ [])

module _ {C R : Type 0} (h : Hiredis C) (f : Formats R) where
  -- `Set`.
  unfoldable pub set : Text → Text → ℤ → C → Pipeline → C × Pipeline
  set key value ttl_sec c p = append_command h c p (
      if positive ttl_sec
      then word "SET" ∷ c_str key ∷ c_str value ∷ word "EX" ∷ f.show_int ttl_sec ∷ []
      else word "SET" ∷ c_str key ∷ c_str value ∷ [])

  -- `SetEX`.
  unfoldable pub set_ex : Text → Text → ℤ → C → Pipeline → C × Pipeline
  set_ex key value ttl_sec c p =
      append_command h c p (word "SETEX" ∷ c_str key ∷ f.show_int ttl_sec ∷ c_str value ∷ [])

  -- `SetNX`.
  unfoldable pub set_nx : Text → Text → ℤ → C → Pipeline → C × Pipeline
  set_nx key value ttl_sec c p = append_command h c p (
      if positive ttl_sec
      then word "SET" ∷ c_str key ∷ c_str value ∷ word "NX" ∷ word "EX" ∷ f.show_int ttl_sec ∷ []
      else word "SET" ∷ c_str key ∷ c_str value ∷ word "NX" ∷ [])

  -- `IncrBy`.
  unfoldable pub incr_by : Text → ℤ → C → Pipeline → C × Pipeline
  incr_by key delta c p = append_command h c p (word "INCRBY" ∷ c_str key ∷ f.show_int delta ∷ [])

  -- `DecrBy`.
  unfoldable pub decr_by : Text → ℤ → C → Pipeline → C × Pipeline
  decr_by key delta c p = append_command h c p (word "DECRBY" ∷ c_str key ∷ f.show_int delta ∷ [])
