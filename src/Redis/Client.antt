-- ===== src/Redis/Client.antt =====
-- `Client` of common/cpp/redis/redis_client.cpp: what all commands share, and how they read a reply.
-- hiredis is an argument.
use gmaker.Common.{Bool, true, false, ◌||◌, Option, none, some, List, [], ◌∷◌, if◌then◌else◌}
use gmaker.Redis.Reply.{
  Text, c_str, text_eq, ℤ, equals, RawReply, string_reply, integer_reply, array_reply, nil_reply,
  status_reply, error_reply, other_reply, RawReplies, raw_nil, raw_cons,
}

-- hiredis over its context `C`: `redisAppendCommandArgv`, with whether it answers `REDIS_OK`;
-- `redisGetReply`, `none` where it fails; and the fields `err` and `errstr`.
pub record Hiredis (C : Type 0) : Type 0 where
  pub append_args : C → List Text → C × Bool
  pub get_reply : C → C × Option RawReply
  pub has_err : C → Bool
  pub errstr : C → Text

-- How C prints `%d` and `%lld`, prints `%f`, and reads a number by `std::stod`, which may throw. `R`
-- stands for `double`.
pub record Formats (R : Type 0) : Type 0 where
  pub show_int : ℤ → Text
  pub show_real : R → Text
  pub read_real : Text → Option R

-- `impl_->ctx` and `last_error_`.
pub record Client (C : Type 0) : Type 0 where
  pub ctx : Option C
  pub last_error : Text

-- `redisCommand` and `redisCommandArgv` as hiredis documents them: the command is appended, and the next
-- reply is read. `none` is a null pointer.
unfoldable pub command : {C : Type 0} → Hiredis C → C → List Text → C × Option RawReply
command h c args = let (c', ok) = h.append_args c args in if ok then h.get_reply c' else (c', none)

-- What a command makes of its reply: a value, a value with a new `last_error_`, or an exception.
pub data Decoded (A : Type 0) : Type 0 where
  value : A → Decoded A
  failed : A → Text → Decoded A
  thrown : Decoded A

-- The end of a command, with its reply.
unfoldable pub finish : {C A : Type 0} → Client C → C → Decoded A → Client C × Option A
finish cl c (value a) = (record cl { ctx = some c }, some a)
finish cl c (failed a e) = (record { ctx = some c; last_error = e }, some a)
finish cl c thrown = (record cl { ctx = some c }, none)

-- A command on a context.
unfoldable pub exchange :
    {C A : Type 0}
    → Hiredis C
    → Client C
    → C
    → Text
    → A
    → (RawReply → Decoded A)
    → List Text
    → Client C × Option A
exchange h cl c failure default decode args =
    let (c', answer) = command h c args in
    elim answer [
      | none ↦ (record { ctx = some c'; last_error = failure }, some default)
      | some raw ↦ finish cl c' (decode raw)
    ]

-- The shape of every command: the test of `IsConnected()` and of `empty`, the command, the test for a null
-- reply and the reading of the reply. `none` is an exception.
unfoldable pub call :
    {C A : Type 0}
    → Hiredis C
    → Bool
    → Text
    → Text
    → A
    → (RawReply → Decoded A)
    → List Text
    → Client C
    → Client C × Option A
call {C} {A} h empty refusal failure default decode args cl =
    let refused : Client C × Option A = (record cl { last_error = refusal }, some default) in
    elim cl.ctx [
      | none ↦ refused
      | some c ↦
          if h.has_err c || empty then refused else exchange h cl c failure default decode args
    ]

-- `reply->str ? reply->str : ...`: a C string, null where the reply has no text.
unfoldable pub error_text : RawReply → Text → Text
error_text (string_reply s) default = c_str s
error_text (status_reply s) default = c_str s
error_text (error_reply s) default = c_str s
error_text (other_reply (some s)) default = c_str s
error_text other default = default

-- `type == REDIS_REPLY_STATUS && strcmp(reply->str, ...) == 0`.
unfoldable pub status_is : Text → Text → RawReply → Decoded Bool
status_is expected default (status_reply s) =
    if text_eq (c_str s) expected then value true else failed false (c_str s)
status_is expected default other = failed false (error_text other default)

-- The same, where nil is no error.
unfoldable pub status_or_nil : Text → Text → RawReply → Decoded Bool
status_or_nil expected default nil_reply = value false
status_or_nil expected default other = status_is expected default other

-- `type == REDIS_REPLY_INTEGER` and a test of the integer.
unfoldable pub integer_test : (ℤ → Bool) → Text → RawReply → Decoded Bool
integer_test test default (integer_reply n) = if test n then value true else failed false default
integer_test test default other = failed false (error_text other default)

-- 1 is true, and 0 is false and no error.
unfoldable pub flag : Text → RawReply → Decoded Bool
flag default (integer_reply n) =
    if equals n 1 then value true else if equals n 0 then value false else failed false default
flag default other = failed false (error_text other default)

unfoldable pub optional_text : Text → RawReply → Decoded (Option Text)
optional_text default (string_reply s) = value (some s)
optional_text default nil_reply = value none
optional_text default other = failed none (error_text other default)

unfoldable pub status_text : Text → RawReply → Decoded (Option Text)
status_text default (status_reply s) = value (some s)
status_text default other = failed none (error_text other default)

unfoldable pub integer : Text → RawReply → Decoded (Option ℤ)
integer default (integer_reply n) = value (some n)
integer default other = failed none (error_text other default)

unfoldable pub integer_or_nil : Text → RawReply → Decoded (Option ℤ)
integer_or_nil default nil_reply = value none
integer_or_nil default other = integer default other

-- The elements that are strings.
unfoldable pub string_elements : RawReplies → List Text
string_elements raw_nil = []
string_elements (raw_cons (string_reply s) es) = s ∷ string_elements es
string_elements (raw_cons other es) = string_elements es

unfoldable pub texts : Text → RawReply → Decoded (List Text)
texts default (array_reply es) = value (string_elements es)
texts default other = failed [] (error_text other default)

-- Each element, if it is a string.
unfoldable pub optional_elements : RawReplies → List (Option Text)
optional_elements raw_nil = []
optional_elements (raw_cons (string_reply s) es) = some s ∷ optional_elements es
optional_elements (raw_cons other es) = none ∷ optional_elements es

unfoldable pub optional_texts : Text → RawReply → Decoded (List (Option Text))
optional_texts default (array_reply es) = value (optional_elements es)
optional_texts default other = failed [] (error_text other default)

-- `for (i = 0; i + 1 < elements; i += 2)`, where both are strings.
unfoldable pub pair_elements : RawReplies → List (Text × Text)
pair_elements raw_nil = []
pair_elements (raw_cons k raw_nil) = []
pair_elements (raw_cons (string_reply k) (raw_cons (string_reply v) es)) = (k, v) ∷ pair_elements es
pair_elements (raw_cons k (raw_cons v es)) = pair_elements es

unfoldable pub text_pairs : Text → RawReply → Decoded (List (Text × Text))
text_pairs default (array_reply es) = value (pair_elements es)
text_pairs default other = failed [] (error_text other default)

module _ {R : Type 0} (f : Formats R) where
  -- `std::stod` of the second of each pair.
  unfoldable pub read_scores : List (Text × Text) → Option (List (Text × R))
  read_scores [] = some []
  read_scores ((m, s) ∷ pairs) = elim (f.read_real s) [
    | none ↦ none
    | some score ↦ elim (read_scores pairs) [ none ↦ none | some rest ↦ some ((m, score) ∷ rest) ]
  ]

  unfoldable pub scored : Text → RawReply → Decoded (List (Text × R))
  scored default (array_reply es) = elim (read_scores (pair_elements es)) [
    | none ↦ thrown
    | some pairs ↦ value pairs
  ]
  scored default other = failed [] (error_text other default)

  unfoldable pub real : Text → RawReply → Decoded (Option R)
  real default (string_reply s) = elim (f.read_real s) [
    | none ↦ thrown
    | some score ↦ value (some score)
  ]
  real default other = failed none (error_text other default)

  unfoldable pub real_or_nil : Text → RawReply → Decoded (Option R)
  real_or_nil default nil_reply = value none
  real_or_nil default other = real default other

  -- The loop that puts scores and members into the arguments.
  unfoldable pub score_args : List (R × Text) → List Text
  score_args [] = []
  score_args ((score, member) ∷ rest) = f.show_real score ∷ member ∷ score_args rest

-- The loop that puts keys and values into the arguments.
unfoldable pub pair_args : List (Text × Text) → List Text
pair_args [] = []
pair_args ((k, v) ∷ rest) = k ∷ v ∷ pair_args rest

-- `empty()`.
unfoldable pub is_empty : {A : Type 0} → List A → Bool
is_empty [] = true
is_empty (x ∷ xs) = false
