-- ===== src/Redis/Binary.antt =====
-- What commands of common/cpp/redis/redis_client.cpp that go through a format send of a text with a
-- zero byte.
use gmaker.Common.{◌<◌, ◌≡◌, refl, sym, ap, ◌∙◌, false, [], ◌∷◌, ◌++◌, arith, ◌==◌}
use gmaker.Redis.Reply.{Text, c_str, ℤ}
use gmaker.Redis.Client.{Hiredis, Formats, Client}
use gmaker.Redis.Commands.Strings.{set, get}

-- No byte is zero.
abbrev pub NoZero : Text → Type 0
NoZero [] = Unit {0}
NoZero (b ∷ s) = (0 < b) × NoZero s

c_str-NoZero : (s : Text) → NoZero s → c_str s ≡ s
unfolding c_str
c_str-NoZero [] n = refl
c_str-NoZero (b ∷ s) n =
    let e : (b == 0) ≡ false = ground (arith, n.0) in rw e (ap (◌∷◌ b) (c_str-NoZero s n.1))

c_str-append : (s w : Text) → NoZero s → c_str (s ++ 0 ∷ w) ≡ s
unfolding c_str
c_str-append [] w n = refl
c_str-append (b ∷ s) w n =
    let e : (b == 0) ≡ false = ground (arith, n.0) in rw e (ap (◌∷◌ b) (c_str-append s w n.1))

-- With a zero byte and anything else behind it in the key and the value, `Set` and `Get` do
-- exactly what they do with the texts before it, if these hold no zero byte.
pub set-zero :
    {C R : Type 0} (h : Hiredis C) (f : Formats R) (key value w u : Text) (ttl : ℤ) (cl : Client C)
    → NoZero key
    → NoZero value
    → (set h f (key ++ 0 ∷ w) (value ++ 0 ∷ u) ttl cl ≡ set h f key value ttl cl)
      × (get h (key ++ 0 ∷ w) cl ≡ get h key cl)
unfolding set get
set-zero h f key value w u ttl cl k v =
    let cut = c_str-append key w k ∙ sym (c_str-NoZero key k) in
    let cut_value = c_str-append value u v ∙ sym (c_str-NoZero value v) in
    (rw (cut, cut_value) refl, rw cut refl)
