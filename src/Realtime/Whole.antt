-- ===== src/Realtime/Whole.antt =====
-- Whole numbers in the place of the `float` of common/cpp/realtime, with which the tests run.
use gmaker.Common.{ℕ, ◌+◌, ◌-◌, ◌*◌, ◌/◌, ◌^◌, ltb}
use gmaker.Realtime.Entity.{Floats}

abbrev pub whole : Floats ℕ
whole = record {
  f_add = λ a b. a + b;
  f_sub = λ a b. a - b;
  f_mul = λ a b. a * b;
  f_div = λ a b. a / b;
  f_less = ltb;
  f_sqrt = λ a. a;
  f_atan2 = λ a b. 0;
  ratio = λ a b. a / b;
  from_float = λ a. a * 2 ^ 32;
  to_float = λ a. a / 2 ^ 32;
  float_bits = λ a. a;
}
