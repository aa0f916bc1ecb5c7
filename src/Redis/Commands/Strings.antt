-- ===== src/Redis/Commands/Strings.antt =====
-- The basic commands of `Client`, common/cpp/redis/redis_client.cpp.
use gmaker.Common.{Bool, false, Option, none, List, [], ◌∷◌, if◌then◌else◌}
use gmaker.Redis.Reply.{Text, word, c_str, ℤ, positive}
use gmaker.Redis.Client.{
  Hiredis, Formats, Client, call, status_is, status_or_nil, integer_test, optional_text, integer,
  optional_texts, pair_args, is_empty,
}

module _ {C : Type 0} (h : Hiredis C) where
  -- `Ping`.
  unfoldable pub ping : Client C → Client C × Option Bool
  ping cl =
      call h false (word "not connected") (word "ping failed") false
        (status_is (word "PONG") (word "ping error")) (word "PING" ∷ []) cl

  -- `Get`.
  unfoldable pub get : Text → Client C → Client C × Option (Option Text)
  get key cl =
      call h false (word "not connected") (word "get failed") none
        (optional_text (word "get error")) (word "GET" ∷ c_str key ∷ []) cl

  -- `Del`.
  unfoldable pub del : List Text → Client C → Client C × Option Bool
  del keys cl =
      call h (is_empty keys) (word "not connected or empty keys") (word "del failed") false
        (integer_test positive (word "del error")) (word "DEL" ∷ keys) cl

  -- `Del` of one key.
  unfoldable pub del_one : Text → Client C → Client C × Option Bool
  del_one key cl = del (key ∷ []) cl

  -- `MSet`.
  unfoldable pub m_set : List (Text × Text) → Client C → Client C × Option Bool
  m_set kvs cl =
      call h (is_empty kvs) (word "not connected or empty kvs") (word "mset failed") false
        (status_is (word "OK") (word "mset error")) (word "MSET" ∷ pair_args kvs) cl

  -- `MGet`.
  unfoldable pub m_get : List Text → Client C → Client C × Option (List (Option Text))
  m_get keys cl =
      call h (is_empty keys) (word "not connected or empty keys") (word "mget failed") []
        (optional_texts (word "mget error")) (word "MGET" ∷ keys) cl

  -- `Incr`.
  unfoldable pub incr : Text → Client C → Client C × Option (Option ℤ)
  incr key cl =
      call h false (word "not connected") (word "incr failed") none (integer (word "incr error"))
        (word "INCR" ∷ c_str key ∷ []) cl

  -- `Decr`.
  unfoldable pub decr : Text → Client C → Client C × Option (Option ℤ)
  decr key cl =
      call h false (word "not connected") (word "decr failed") none (integer (word "decr error"))
        (word "DECR" ∷ c_str key ∷ []) cl

  -- `StrLen`.
  unfoldable pub str_len : Text → Client C → Client C × Option (Option ℤ)
  str_len key cl =
      call h false (word "not connected") (word "strlen failed") none
        (integer (word "strlen error")) (word "STRLEN" ∷ c_str key ∷ []) cl

module _ {C R : Type 0} (h : Hiredis C) (f : Formats R) where
  -- `Set`.
  unfoldable pub set : Text → Text → ℤ → Client C → Client C × Option Bool
  set key value ttl_sec cl =
      call h false (word "not connected") (word "set failed") false
        (status_is (word "OK") (word "set error"))
        (if positive ttl_sec
          then word "SET" ∷ c_str key ∷ c_str value ∷ word "EX" ∷ f.show_int ttl_sec ∷ []
          else word "SET" ∷ c_str key ∷ c_str value ∷ [])
        cl

  -- `SetEX`.
  unfoldable pub set_ex : Text → Text → ℤ → Client C → Client C × Option Bool
  set_ex key value ttl_sec cl =
      call h false (word "not connected") (word "setex failed") false
        (status_is (word "OK") (word "setex error"))
        (word "SETEX" ∷ c_str key ∷ f.show_int ttl_sec ∷ c_str value ∷ []) cl

  -- `SetNX`.
  unfoldable pub set_nx : Text → Text → ℤ → Client C → Client C × Option Bool
  set_nx key value ttl_sec cl =
      call h false (word "not connected") (word "setnx failed") false
        (status_or_nil (word "OK") (word "setnx error"))
        (if positive ttl_sec
          then word "SET"
            ∷ c_str key
            ∷ c_str value
            ∷ word "NX"
            ∷ word "EX"
            ∷ f.show_int ttl_sec
            ∷ []
          else word "SET" ∷ c_str key ∷ c_str value ∷ word "NX" ∷ [])
        cl

  -- `IncrBy`.
  unfoldable pub incr_by : Text → ℤ → Client C → Client C × Option (Option ℤ)
  incr_by key delta cl =
      call h false (word "not connected") (word "incrby failed") none
        (integer (word "incrby error")) (word "INCRBY" ∷ c_str key ∷ f.show_int delta ∷ []) cl

  -- `DecrBy`.
  unfoldable pub decr_by : Text → ℤ → Client C → Client C × Option (Option ℤ)
  decr_by key delta cl =
      call h false (word "not connected") (word "decrby failed") none
        (integer (word "decrby error")) (word "DECRBY" ∷ c_str key ∷ f.show_int delta ∷ []) cl
