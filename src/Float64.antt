-- ===== src/Float64.antt =====
-- Go's float64. A value is its 64-bit pattern; the arithmetic of the hardware and of package math is
-- a parameter.
use inwheel_server.Prelude.{ℕ, String, Option, Bool, true, false, ◌≡◌, ◌↔◌}

abbrev pub F64 : Type 0
F64 = ℕ

-- `lit m k` is the value nearest to m / 10^k, that is, the literal with k decimal places.
pub record Arithmetic : Type 0 where
  pub lit : ℕ → ℕ → F64
  pub of_int : ℕ → F64
  pub neg : F64 → F64
  pub add : F64 → F64 → F64
  pub sub : F64 → F64 → F64
  pub mul : F64 → F64 → F64
  pub div : F64 → F64 → F64
  pub lt : F64 → F64 → Bool
  pub le : F64 → F64 → Bool
  pub pi : F64
  pub sin : F64 → F64
  pub cos : F64 → F64
  pub sqrt : F64 → F64
  pub atan2 : F64 → F64 → F64
  -- strconv.ParseFloat(s, 64)
  pub parse_float : String → Option F64

-- A NaN is the value that is not `≤` itself.
abbrev pub IsNumber : Arithmetic → F64 → Type 0
IsNumber fl a = fl.le a a ≡ true

abbrev pub IsNan : Arithmetic → F64 → Type 0
IsNan fl a = fl.le a a ≡ false

-- Of two numbers either `b ≤ a` or `a < b`, not both, and a NaN is neither.
pub record IsTotal (fl : Arithmetic) : Type 0 where
  pub le_or_lt :
      (a b : F64) → IsNumber fl a → IsNumber fl b → (fl.le b a ≡ false) ↔ (fl.lt a b ≡ true)
  pub numbers_of_le : (a b : F64) → fl.le a b ≡ true → IsNumber fl a × IsNumber fl b
  pub numbers_of_lt : (a b : F64) → fl.lt a b ≡ true → IsNumber fl a × IsNumber fl b

-- The comparisons of IEEE 754. A NaN is the value that is not `≤` itself.
pub record IsOrdered (fl : Arithmetic) : Type 0 where
  pub lt_irrefl : (a : F64) → fl.lt a a ≡ false
  pub lt_trans : (a b c : F64) → fl.lt a b ≡ true → fl.lt b c ≡ true → fl.lt a c ≡ true
  pub lt_of_between :
      (a b c : F64) → fl.le c c ≡ true → fl.le a b ≡ true → fl.le a c ≡ false → fl.lt c b ≡ true
  pub number_of_lt : (a b : F64) → fl.lt a b ≡ true → fl.le b b ≡ true
  pub minus_one_number : fl.le (fl.neg (fl.lit 10 1)) (fl.neg (fl.lit 10 1)) ≡ true
  pub minus_one_low : fl.le (fl.lit 55 2) (fl.neg (fl.lit 10 1)) ≡ false
  pub minus_one_high : fl.le (fl.lit 80 2) (fl.neg (fl.lit 10 1)) ≡ false
