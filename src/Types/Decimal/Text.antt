-- ===== src/Types/Decimal/Text.antt =====
-- types/decimal.go: the printed form of a fixed-point number. `none` is the panic of an index into
-- the table of powers; `some none` is an error, without its text.
use clob.Base.{
  ℕ, ◌-◌, [], ◌∷◌, ◌++◌, Bool, true, false, ◌||◌, Option, none, some, ltb, ◌==◌, if◌then◌else◌,
  ◌>>=◌, length, replicate,
}
use clob.Base.Int.{ℤ, pos, is_negative, leb_ℤ, eqb_ℤ, add64, neg64, mul64, div64, rem64}
use clob.Base.Strconv.{Text, format_int, zero_padded, parse_int}
use clob.Types.Decimal.{Decimal, pow10, same_precision}

-- `s[:dotIdx]` and `s[dotIdx+1:]` for the first dot, or the text alone.
unfoldable pub split_dot : Text → Text × Option Text
split_dot [] = ([], none)
split_dot (c ∷ s) =
    let rest = split_dot s in if c == b'.' then ([], some s) else (c ∷ rest.0, rest.1)

abbrev pub or_empty : Option Text → Text
or_empty none = []
or_empty (some s) = s

-- An empty integer part stands for 0.
unfoldable pub parse_integer_part : Text → Option ℤ
parse_integer_part [] = parse_int (b'0' ∷ [])
parse_integer_part (c ∷ s) = parse_int (c ∷ s)

-- The fractional digits, with zeros up to the precision; none is 0.
unfoldable pub parse_fraction : Text → ℕ → Option ℤ
parse_fraction s precision =
    let padded = s ++ replicate (precision - length s) b'0' in
    if length padded == 0 then some (pos 0) else parse_int padded

-- The number that the integer part and the fractional digits make.
unfoldable pub parse_parts : Bool → Text → Text → ℕ → Option (Option Decimal)
unfolding parse_integer_part parse_fraction pow10
parse_parts negative int_part frac_part precision =
    if ltb precision (length frac_part) then some none else elim (parse_integer_part int_part) [
      | none ↦ some none
      | some iv ↦ elim (parse_fraction frac_part precision) [
        | none ↦ some none
        | some fv ↦ pow10 precision >>= λ p.
            let result = add64 (mul64 iv (pos p)) fv in
            some (
              some (record {
                value = if negative then neg64 result else result;
                precision = precision;
              }))
      ]
    ]

-- What follows the sign.
unfoldable pub parse_unsigned : Bool → Text → ℕ → Option (Option Decimal)
unfolding split_dot parse_parts
parse_unsigned negative s precision =
    let (int_part, frac_part) = split_dot s in
    parse_parts negative int_part (or_empty frac_part) precision

unfoldable pub parse_decimal : Text → ℕ → Option (Option Decimal)
unfolding parse_unsigned
parse_decimal [] precision = some none
parse_decimal (c ∷ s) precision =
    if c == b'-'
    then elim s [ [] ↦ some none | x ∷ xs ↦ parse_unsigned true (x ∷ xs) precision ]
    else parse_unsigned false (c ∷ s) precision

-- `MustDecimal` panics where ParseDecimal gives an error.
unfoldable pub must_decimal : Text → ℕ → Option Decimal
unfolding parse_decimal
must_decimal s precision = parse_decimal s precision >>= λ d. d

-- The magnitude of MinInt64 stays negative.
unfoldable pub to_text : Decimal → Option Text
unfolding pow10
to_text d =
    let a = if is_negative d.value then neg64 d.value else d.value in
    if d.precision == 0
    then some (format_int d.value)
    else (pow10 d.precision >>= λ p.
        let unsigned =
          format_int (div64 a (pos p)) ++ b'.' ∷ zero_padded d.precision (rem64 a (pos p)) in
        some (if is_negative d.value then b'-' ∷ unsigned else unsigned))

-- `UnmarshalJSON` of the string that the JSON holds: the digits after the first dot, 18 at most, are
-- the precision; without a dot it is that of the receiver.
unfoldable pub text_precision : Option Text → ℕ → ℕ
text_precision none kept = kept
text_precision (some frac) kept = if ltb 18 (length frac) then 18 else length frac

unfoldable pub unmarshal_text : Text → Decimal → Option (Option Decimal)
unfolding split_dot text_precision parse_decimal
unmarshal_text s d = parse_decimal s (text_precision ((split_dot s).1) d.precision)

unfoldable pub is_valid_lot : Decimal → Decimal → Option Bool
unfolding same_precision
is_valid_lot d lot_size = same_precision d lot_size (
    if leb_ℤ d.value (pos 0) || leb_ℤ lot_size.value (pos 0)
    then false
    else eqb_ℤ (rem64 d.value lot_size.value) (pos 0))
