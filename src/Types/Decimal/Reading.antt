-- ===== src/Types/Decimal/Reading.antt =====
-- types/decimal.go: what ParseDecimal reads of a printed number.
use clob.Base.{
  ℕ, suc, ◌+◌, ◌-◌, ◌*◌, ◌/◌, ◌%◌, ◌^◌, ◌≤◌, ◌<◌, ◌≡◌, refl, ap, ◌∙◌, [], ◌∷◌, ◌++◌, append-nil,
  Bool, true, false, none, some, arith, length, All, if◌then◌else◌,
}
use native.Mathlib.Nat.{div-add-mod, div-le_self, mod-lt, pow-le-pow_right}
use clob.Base.Int.{
  pos, int64_of_range, is_negative, ◌+ℤ◌, ◌*ℤ◌, neg64, int64, add64, mul64, div64, rem64,
}
use clob.Base.Strconv.{
  Text, IsDigit, format_nat, zero_padded, parse_int, zero_padded-IsPadded, format_nat-IsDigit,
  format_nat_not_empty, parse_int-format_nat, parse_int-digits,
}
use clob.Types.Decimal.{pow10}
use clob.Types.Decimal.Text.{
  split_dot, parse_integer_part, or_empty, parse_fraction, parse_parts, parse_unsigned,
  parse_decimal,
}

pub split_dot_digits : (s : Text) → All IsDigit s → split_dot s ≡ (s, none)
unfolding split_dot
split_dot_digits [] h = refl
split_dot_digits (c ∷ s) h = ground (arith, split_dot_digits s (h.1), h.0)

pub split_dot-append : (s t : Text) → All IsDigit s → split_dot (s ++ b'.' ∷ t) ≡ (s, some t)
unfolding split_dot
split_dot-append [] t h = refl
split_dot-append (c ∷ s) t h = ground (arith, split_dot-append s t (h.1), h.0)

-- The magnitude of a number, printed at a precision.
abbrev pub unsigned_text : ℕ → ℕ → Text
unsigned_text precision n =
    format_nat (n / 10 ^ precision) ++ b'.' ∷ zero_padded precision (pos (n % 10 ^ precision))

integer_part : (s : Text) → 0 < length s → parse_integer_part s ≡ parse_int s
unfolding parse_integer_part
integer_part [] h = ground arith
integer_part (c ∷ s) h = refl

-- A fraction of the full width is read as it is.
full_fraction : (s : Text) (w : ℕ) → length s ≡ suc w → parse_fraction s (suc w) ≡ parse_int s
unfolding parse_fraction
full_fraction s w h = rw (none_missing, append-nil s) (ground arith)
  where
    none_missing : suc w - length s ≡ 0
    none_missing = omega (arith, h)

no_fraction : parse_fraction [] 0 ≡ some (pos 0)
unfolding parse_fraction
no_fraction = refl

mul64_pos : (a b : ℕ) → a * b < 2 ^ 63 → mul64 (pos a) (pos b) ≡ pos (a * b)
unfolding mul64 int64 ◌*ℤ◌
mul64_pos a b h = ground arith

add64_pos : (a b : ℕ) → a + b < 2 ^ 63 → add64 (pos a) (pos b) ≡ pos (a + b)
unfolding add64 int64 ◌+ℤ◌
add64_pos a b h = ground arith

-- The number that the two parts make.
joined : (p n : ℕ) → n < 2 ^ 63 → add64 (mul64 (pos (n / p)) (pos p)) (pos (n % p)) ≡ pos n
joined p n fits = rw (mul64_pos (n / p) p (omega (arith, div-add-mod n p))) (
    add64_pos (n / p * p) (n % p) (omega (arith, div-add-mod n p))
    ∙ ap pos (omega (arith, div-add-mod n p)))

pub not_negative : (n : ℕ) → is_negative (pos n) ≡ false
not_negative n = ground arith

pub div64_pos : (n p : ℕ) → n < 2 ^ 63 → 0 < p → div64 (pos n) (pos p) ≡ pos (n / p)
unfolding div64 int64 mathlib.Core.Bool.xor
div64_pos n p h k =
    rw (not_negative n, not_negative p)
      (int64_of_range (pos (n / p))
        (omega (arith, div-le_self n p), omega (arith, div-le_self n p)))

pub rem64_pos : (n p : ℕ) → n < 2 ^ 63 → 0 < p → rem64 (pos n) (pos p) ≡ pos (n % p)
unfolding rem64 int64
rem64_pos n p h k = ground (arith, div-add-mod n p)

-- A power of ten from the table fits.
pub power_fits : (w : ℕ) → w ≤ 18 → (0 < 10 ^ w) × (10 ^ w < 2 ^ 63)
power_fits w h =
    let one_le : 10 ^ 0 ≤ 10 ^ w = pow-le-pow_right {n = 10} (omega arith) {i = 0} (omega arith) in
    let le_top : 10 ^ w ≤ 10 ^ 18 = pow-le-pow_right {n = 10} (omega arith) h in
    (omega (arith, one_le), omega (arith, le_top))

-- The two parts, if they are read.
parse_parts_read :
    (negative : Bool) (s t : Text) (w n : ℕ)
    → w ≤ 18
    → n < 2 ^ 63
    → length t ≤ w
    → parse_integer_part s ≡ some (pos (n / 10 ^ w))
    → parse_fraction t w ≡ some (pos (n % 10 ^ w))
    → parse_parts negative s t w
      ≡ some (some (record { value = if negative then neg64 (pos n) else pos n; precision = w }))
unfolding parse_parts pow10
parse_parts_read negative s t w n small fits short whole part =
    ground (arith, whole, part, short, joined (10 ^ w) n fits)

-- What stands behind the sign, read at the precision at which it was printed.
pub parse_unsigned_text :
    (negative : Bool) (w n : ℕ)
    → suc w ≤ 18
    → n < 2 ^ 63
    → parse_unsigned negative (unsigned_text (suc w) n) (suc w)
      ≡ some
          (some (record { value = if negative then neg64 (pos n) else pos n; precision = suc w }))
unfolding parse_unsigned
parse_unsigned_text negative w n small fits =
    let p = 10 ^ suc w in
    let (positive, in_range) = power_fits (suc w) small in
    let padded = zero_padded-IsPadded w (n % p) (mod-lt n positive) in
    let frac = zero_padded (suc w) (pos (n % p)) in
    let whole =
      integer_part (format_nat (n / p)) (format_nat_not_empty (n / p))
      ∙ parse_int-format_nat (n / p) (omega (arith, div-le_self n p)) in
    let part =
      full_fraction frac w padded.width
      ∙ parse_int-digits frac (n % p) (omega (arith, padded.width)) padded.all_digits padded.value
          (omega (arith, mod-lt n positive)) in
    ap (λ parts. parse_parts negative (parts.0) (or_empty (parts.1)) (suc w))
      (split_dot-append (format_nat (n / p)) frac (format_nat-IsDigit (n / p)))
    ∙ (parse_parts_read negative (format_nat (n / p)) frac (suc w) n small fits
        (omega (arith, padded.width)) whole part)

-- A number without a fraction.
pub parse_unsigned_whole :
    (negative : Bool) (n : ℕ)
    → n < 2 ^ 63
    → parse_unsigned negative (format_nat n) 0
      ≡ some (some (record { value = if negative then neg64 (pos n) else pos n; precision = 0 }))
unfolding parse_unsigned
parse_unsigned_whole negative n fits =
    let whole : parse_integer_part (format_nat n) ≡ some (pos (n / 10 ^ 0)) =
      integer_part (format_nat n) (format_nat_not_empty n)
      ∙ parse_int-format_nat n fits
      ∙ ap (λ k. some (pos k)) (omega arith) in
    ap (λ parts. parse_parts negative (parts.0) (or_empty (parts.1)) 0)
      (split_dot_digits (format_nat n) (format_nat-IsDigit n))
    ∙ parse_parts_read negative (format_nat n) [] 0 n (omega arith) fits (omega arith) whole
        (ap (λ k. some (pos k)) (omega arith))

pub parse_decimal_pos :
    (s t : Text) (w : ℕ)
    → 0 < length s
    → All IsDigit s
    → parse_decimal (s ++ t) w ≡ parse_unsigned false (s ++ t) w
unfolding parse_decimal
parse_decimal_pos [] t w l h = ground arith
parse_decimal_pos (c ∷ s) t w l h = ground (arith, h.0)

pub parse_decimal_neg :
    (s : Text) (w : ℕ) → 0 < length s → parse_decimal (b'-' ∷ s) w ≡ parse_unsigned true s w
unfolding parse_decimal
parse_decimal_neg [] w l = ground arith
parse_decimal_neg (c ∷ s) w l = refl
