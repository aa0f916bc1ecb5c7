-- ===== src/Redis/Reply.antt =====
-- Replies of common/cpp/redis/redis_client.hpp and redis_client.cpp: those of hiredis, those of the
-- library, and `ParseReply` between them. A `std::string` is the list of its bytes.
use Prim.Native.Char.{code}
use Prim.Native.String.{String}
use gmaker.Common.{
  ℕ, zero, suc, Bool, true, false, ◌&&◌, not, Option, none, some, List, [], ◌∷◌, ◌==◌,
  if◌then◌else◌,
}

abbrev pub Text : Type 0
Text = List ℕ

-- The bytes of a literal.
abbrev pub word : String → Text
word String.[] = []
word (String.◌∷◌ c s) = code c ∷ word s

-- A `std::string` read through `c_str()` as a C string: it ends at the first zero byte.
unfoldable pub c_str : Text → Text
c_str [] = []
c_str (b ∷ s) = if b == 0 then [] else b ∷ c_str s

unfoldable pub text_eq : Text → Text → Bool
text_eq [] [] = true
text_eq [] (y ∷ ys) = false
text_eq (x ∷ xs) [] = false
text_eq (x ∷ xs) (y ∷ ys) = x == y && text_eq xs ys

-- `long long`: `negsuc n` is -(n + 1).
pub data ℤ : Type 0 where
  pos : ℕ → ℤ
  negsuc : ℕ → ℤ

-- `n > 0`, `n >= 0` and `n == k`.
unfoldable pub positive : ℤ → Bool
positive (pos zero) = false
positive (pos (suc n)) = true
positive (negsuc n) = false

unfoldable pub nonnegative : ℤ → Bool
nonnegative (pos n) = true
nonnegative (negsuc n) = false

unfoldable pub equals : ℤ → ℕ → Bool
equals (pos n) k = n == k
equals (negsuc n) k = false

-- `redisReply` of hiredis, by its type.
mutual
  pub data RawReply : Type 0 where
    string_reply : Text → RawReply
    integer_reply : ℤ → RawReply
    array_reply : RawReplies → RawReply
    nil_reply : RawReply
    status_reply : Text → RawReply
    error_reply : Text → RawReply
    other_reply : Option Text → RawReply

  pub data RawReplies : Type 0 where
    raw_nil : RawReplies
    raw_cons : RawReply → RawReplies → RawReplies

-- `ReplyType`.
pub data ReplyType : Type 0 where
  none_type string_type integer_type array_type nil_type status_type error_type : ReplyType

-- `Reply`: its type, text, integer, `Ok` and elements.
mutual
  pub data Reply : Type 0 where
    reply : ReplyType → Text → ℤ → Bool → Replies → Reply

  pub data Replies : Type 0 where
    reply_nil : Replies
    reply_cons : Reply → Replies → Replies

-- `ParseReply`.
unfoldable mutual
  pub parse_reply : RawReply → Reply
  parse_reply (string_reply s) = reply string_type s (pos 0) true reply_nil
  parse_reply (integer_reply n) = reply integer_type [] n true reply_nil
  parse_reply (array_reply es) = reply array_type [] (pos 0) true (parse_replies es)
  parse_reply nil_reply = reply nil_type [] (pos 0) true reply_nil
  parse_reply (status_reply s) = reply status_type s (pos 0) true reply_nil
  parse_reply (error_reply s) = reply error_type s (pos 0) false reply_nil
  parse_reply (other_reply s) = reply none_type [] (pos 0) false reply_nil

  pub parse_replies : RawReplies → Replies
  parse_replies raw_nil = reply_nil
  parse_replies (raw_cons e es) = reply_cons (parse_reply e) (parse_replies es)

-- `ParseReply(nullptr)`.
abbrev pub null_reply : Reply
null_reply = reply error_type [] (pos 0) false reply_nil

-- `IsOk`.
unfoldable pub is_ok : Reply → Bool
is_ok (reply error_type s n ok es) = false
is_ok (reply other s n ok es) = true

-- `AsString`.
unfoldable pub as_string : Reply → Option Text
as_string (reply string_type s n ok es) = some s
as_string (reply status_type s n ok es) = some s
as_string (reply other s n ok es) = none

-- `AsInteger`.
unfoldable pub as_integer : Reply → Option ℤ
as_integer (reply integer_type s n ok es) = some n
as_integer (reply other s n ok es) = none

-- `AsBool`.
unfoldable pub as_bool : Reply → Option Bool
as_bool (reply integer_type s n ok es) = some (not (equals n 0))
as_bool (reply other s n ok es) = none

-- The loop of `AsStringArray`.
unfoldable pub strings_of : Replies → List Text
strings_of reply_nil = []
strings_of (reply_cons e es) = elim (as_string e) [
  | none ↦ strings_of es
  | some s ↦ s ∷ strings_of es
]

-- `AsStringArray`.
unfoldable pub as_string_array : Reply → List Text
as_string_array (reply array_type s n ok es) = strings_of es
as_string_array (reply other s n ok es) = []

-- The loop of `AsStringPairs`: an odd last element is left out.
unfoldable pub pairs_of : Replies → List (Text × Text)
pairs_of reply_nil = []
pairs_of (reply_cons k reply_nil) = []
pairs_of (reply_cons k (reply_cons v es)) = elim (as_string k) [
  | none ↦ pairs_of es
  | some a ↦ elim (as_string v) [ none ↦ pairs_of es | some b ↦ (a, b) ∷ pairs_of es ]
]

-- `AsStringPairs`.
unfoldable pub as_string_pairs : Reply → List (Text × Text)
as_string_pairs (reply array_type s n ok es) = pairs_of es
as_string_pairs (reply other s n ok es) = []
