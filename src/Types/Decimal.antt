-- ===== src/Types/Decimal.antt =====
-- types/decimal.go: fixed-point numbers. A value is an int64, and `none` is a panic, of
-- `assertSamePrecision`, of an index into the table of powers or of the division of words.
pub mod Laws
pub mod Text
pub mod Reading
pub mod RoundTrip
use clob.Base.{
  ℕ, ◌+◌, ◌-◌, ◌*◌, ◌/◌, ◌%◌, ◌^◌, Bool, true, false, ◌&&◌, Option, none, some, ltb, leb, ◌==◌,
  if◌then◌else◌, ◌>>=◌,
}
use clob.Base.Int.{
  ℤ, pos, negsuc, ltb_ℤ, leb_ℤ, eqb_ℤ, is_negative, magnitude, of_pattern, add64, sub64, neg64,
  mul64, div64, rem64,
}
use mathlib.Core.Bool.{xor}

pub record Decimal : Type 0 where
  pub value : ℤ
  pub precision : ℕ

unfoldable pub new_decimal : ℤ → ℕ → Decimal
new_decimal value precision = record { value = value; precision = precision }

unfoldable pub zero_at : ℕ → Decimal
zero_at precision = record { value = pos 0; precision = precision }

-- The table of powers has the indices 0 to 18.
unfoldable pub pow10 : ℕ → Option ℕ
pow10 i = if leb i 18 then some (10 ^ i) else none

-- `assertSamePrecision(a, b)`, and the result that follows it.
unfoldable pub same_precision {ℓ} : {A : Type ℓ} → Decimal → Decimal → A → Option A
same_precision a b result = if a.precision == b.precision then some result else none

unfoldable pub add : Decimal → Decimal → Option Decimal
unfolding same_precision
add d other = same_precision d other (record d { value = add64 d.value other.value })

unfoldable pub sub : Decimal → Decimal → Option Decimal
unfolding same_precision
sub d other = same_precision d other (record d { value = sub64 d.value other.value })

unfoldable pub negate : Decimal → Decimal
negate d = record d { value = neg64 d.value }

unfoldable pub abs : Decimal → Decimal
abs d = if is_negative d.value then record d { value = neg64 d.value } else d

unfoldable pub mul_int : Decimal → ℤ → Decimal
mul_int d n = record d { value = mul64 d.value n }

-- `bits.Mul64` of the magnitudes and `div128by64`, which panics if the quotient has more than
-- 64 bits. The quotient is then read as an int64, and negated if the signs differ.
unfoldable pub scaled_product : ℤ → ℤ → ℕ → Option ℤ
scaled_product a b divisor =
    let product = magnitude a * magnitude b in
    let q = of_pattern (product / divisor) in
    if ltb (product / 2 ^ 64) divisor
    then some (if xor (is_negative a) (is_negative b) then neg64 q else q)
    else none

unfoldable pub mul_qty : Decimal → Decimal → Option Decimal
unfolding pow10 scaled_product
mul_qty d qty = do
  divisor ← pow10 qty.precision
  value ← scaled_product d.value qty.value divisor
  some (record d { value = value })

unfoldable pub mul : Decimal → Decimal → Option Decimal
unfolding same_precision mul_qty
mul d other = do e ← same_precision d other other; mul_qty d e

-- The numerator of `Div`, brought to the precision asked for.
unfoldable pub div_numerator : Decimal → Decimal → ℕ → Option ℤ
unfolding pow10
div_numerator d other out_precision =
    if leb d.precision (out_precision + other.precision)
    then (do
      p ← pow10 (out_precision + other.precision - d.precision)
      some (mul64 d.value (pos p)))
    else (do
      p ← pow10 (d.precision - (out_precision + other.precision))
      some (div64 d.value (pos p)))

unfoldable pub div : Decimal → Decimal → ℕ → Option Decimal
unfolding div_numerator
div d other out_precision = if eqb_ℤ other.value (pos 0) then none else (do
  numerator ← div_numerator d other out_precision
  some (record { value = div64 numerator other.value; precision = out_precision }))

unfoldable pub min_of : Decimal → Decimal → Option Decimal
unfolding same_precision
min_of a b = same_precision a b (if leb_ℤ a.value b.value then a else b)

unfoldable pub max_of : Decimal → Decimal → Option Decimal
unfolding same_precision
max_of a b = same_precision a b (if leb_ℤ b.value a.value then a else b)

unfoldable pub equal : Decimal → Decimal → Option Bool
unfolding same_precision
equal d other = same_precision d other (eqb_ℤ d.value other.value)

unfoldable pub less_than : Decimal → Decimal → Option Bool
unfolding same_precision
less_than d other = same_precision d other (ltb_ℤ d.value other.value)

unfoldable pub less_than_or_equal : Decimal → Decimal → Option Bool
unfolding same_precision
less_than_or_equal d other = same_precision d other (leb_ℤ d.value other.value)

unfoldable pub greater_than : Decimal → Decimal → Option Bool
unfolding same_precision
greater_than d other = same_precision d other (ltb_ℤ other.value d.value)

unfoldable pub greater_than_or_equal : Decimal → Decimal → Option Bool
unfolding same_precision
greater_than_or_equal d other = same_precision d other (leb_ℤ other.value d.value)

unfoldable pub is_zero : Decimal → Bool
is_zero d = eqb_ℤ d.value (pos 0)

unfoldable pub is_positive : Decimal → Bool
is_positive d = ltb_ℤ (pos 0) d.value

-- `IsValidTick` and `IsValidLot` have one body.
unfoldable pub is_valid_tick : Decimal → Decimal → Option Bool
unfolding same_precision
is_valid_tick d tick =
    same_precision d tick (
      ltb_ℤ (pos 0) d.value && ltb_ℤ (pos 0) tick.value && eqb_ℤ (rem64 d.value tick.value) (pos 0))
