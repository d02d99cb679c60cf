-- ===== src/Types/Decimal/RoundTrip.antt =====
-- types/decimal.go: what `String` prints is what ParseDecimal reads.
use clob.Base.{
  ℕ, zero, suc, ◌/◌, ◌%◌, ◌^◌, ◌≤◌, ◌<◌, ◌≡◌, refl, sym, ap, ◌∙◌, [], ◌∷◌, append-nil, true, false,
  some, arith, length, length-append,
}
use native.Mathlib.Nat.{mod-lt}
use clob.Base.Int.{ℤ, pos, negsuc, is_negative, magnitude, neg, neg64, int64}
use clob.Base.Strconv.{
  Text, format_nat, format_int, zero_padded, zero_padded-IsPadded, format_int_pos,
  format_nat-IsDigit, format_nat_not_empty,
}
use clob.Types.Decimal.{Decimal, pow10}
use clob.Types.Decimal.Text.{
  split_dot, text_precision, unmarshal_text, parse_unsigned, parse_decimal, to_text,
}
use clob.Types.Decimal.Reading.{
  split_dot_digits, split_dot-append, unsigned_text, div64_pos, rem64_pos, not_negative, power_fits,
  parse_unsigned_text, parse_unsigned_whole, parse_decimal_pos, parse_decimal_neg,
}

neg64_pos : (k : ℕ) → suc k < 2 ^ 63 → neg64 (pos (suc k)) ≡ negsuc k
unfolding neg64 neg int64
neg64_pos k h = ground arith

neg64_negsuc : (k : ℕ) → suc k < 2 ^ 63 → neg64 (negsuc k) ≡ pos (suc k)
unfolding neg64 neg int64
neg64_negsuc k h = ground arith

negsuc_negative : (k : ℕ) → is_negative (negsuc k) ≡ true
negsuc_negative k = ground arith

to_text_pos :
    (w n : ℕ)
    → suc w ≤ 18
    → n < 2 ^ 63
    → to_text (record { value = pos n; precision = suc w }) ≡ some (unsigned_text (suc w) n)
unfolding to_text pow10
to_text_pos w n small fits =
    let (positive, in_range) = power_fits (suc w) small in
    let p = 10 ^ suc w in
    rw (not_negative n) (
      ground (
        arith,
        small,
        div64_pos n p fits positive,
        rem64_pos n p fits positive,
        format_int_pos (n / p),
      ))

to_text_neg :
    (w k : ℕ)
    → suc w ≤ 18
    → suc k < 2 ^ 63
    → to_text (record { value = negsuc k; precision = suc w })
      ≡ some (b'-' ∷ unsigned_text (suc w) (suc k))
unfolding to_text pow10
to_text_neg w k small fits =
    let (positive, in_range) = power_fits (suc w) small in
    let p = 10 ^ suc w in
    rw (negsuc_negative k, neg64_negsuc k fits)
      (ground (
        arith,
        small,
        div64_pos (suc k) p fits positive,
        rem64_pos (suc k) p fits positive,
        format_int_pos (suc k / p),
      ))

text_precision_pos :
    (w n kept : ℕ)
    → suc w ≤ 18
    → text_precision ((split_dot (unsigned_text (suc w) n)).1) kept ≡ suc w
unfolding text_precision
text_precision_pos w n kept small =
    let (positive, in_range) = power_fits (suc w) small in
    let frac = zero_padded (suc w) (pos (n % 10 ^ suc w)) in
    let padded = zero_padded-IsPadded w (n % 10 ^ suc w) (mod-lt n positive) in
    ap (λ parts. text_precision (parts.1) kept)
      (split_dot-append (format_nat (n / 10 ^ suc w)) frac (format_nat-IsDigit (n / 10 ^ suc w)))
    ∙ ground (arith, padded.width, small)

text_precision_whole : (n kept : ℕ) → text_precision ((split_dot (format_nat n)).1) kept ≡ kept
unfolding text_precision
text_precision_whole n kept =
    ap (λ parts. text_precision (parts.1) kept)
      (split_dot_digits (format_nat n) (format_nat-IsDigit n))

split_dot_minus : (s : Text) → (split_dot (b'-' ∷ s)).1 ≡ (split_dot s).1
unfolding split_dot
split_dot_minus s = refl

-- `d` is printed as a text that ParseDecimal and, into `r`, UnmarshalJSON read as `d`.
pub record IsPrinted (d r : Decimal) : Type 0 where
  pub text : Text
  pub printed : to_text d ≡ some text
  pub parsed : parse_decimal text d.precision ≡ some (some d)
  pub unmarshalled : unmarshal_text text r ≡ some (some d)

read_back :
    (d r : Decimal) (s : Text)
    → to_text d ≡ some s
    → parse_decimal s d.precision ≡ some (some d)
    → text_precision ((split_dot s).1) r.precision ≡ d.precision
    → IsPrinted d r
unfolding unmarshal_text
read_back d r s e f g = record {
  text = s;
  printed = e;
  parsed = f;
  unmarshalled = ap (λ w. parse_decimal s w) g ∙ f;
}

to_text_whole : (v : ℤ) → to_text (record { value = v; precision = 0 }) ≡ some (format_int v)
unfolding to_text
to_text_whole v = refl

format_int_negsuc : (k : ℕ) → format_int (negsuc k) ≡ b'-' ∷ format_nat (suc k)
unfolding format_int
format_int_negsuc k = ground arith

print_at :
    (v : ℤ) (w : ℕ) (r : Decimal)
    → w ≤ 18
    → magnitude v < 2 ^ 63
    → (w ≡ 0 → r.precision ≡ 0)
    → IsPrinted (record { value = v; precision = w }) r
print_at (pos n) zero r small fits keeps =
    read_back _ r (format_nat n) (to_text_whole (pos n) ∙ ap some (format_int_pos n))
      (ap (λ s. parse_decimal s 0) (sym (append-nil (format_nat n)))
        ∙ parse_decimal_pos (format_nat n) [] 0 (format_nat_not_empty n) (format_nat-IsDigit n)
        ∙ ap (λ s. parse_unsigned false s 0) (append-nil (format_nat n))
        ∙ parse_unsigned_whole false n fits)
      (text_precision_whole n r.precision ∙ keeps refl)
print_at (negsuc k) zero r small fits keeps =
    read_back _ r (b'-' ∷ format_nat (suc k))
      (to_text_whole (negsuc k) ∙ ap some (format_int_negsuc k))
      (parse_decimal_neg (format_nat (suc k)) 0 (format_nat_not_empty (suc k))
        ∙ parse_unsigned_whole true (suc k) fits
        ∙ ap (λ v. some (some (record { value = v; precision = 0 }))) (neg64_pos k fits))
      (ap (λ f. text_precision f r.precision) (split_dot_minus (format_nat (suc k)))
        ∙ text_precision_whole (suc k) r.precision
        ∙ keeps refl)
print_at (pos n) (suc w) r small fits keeps =
    let q = n / 10 ^ suc w in
    read_back _ r (unsigned_text (suc w) n) (to_text_pos w n small fits)
      (parse_decimal_pos (format_nat q) _ (suc w) (format_nat_not_empty q) (format_nat-IsDigit q)
        ∙ parse_unsigned_text false w n small fits)
      (text_precision_pos w n r.precision small)
print_at (negsuc k) (suc w) r small fits keeps =
    read_back _ r (b'-' ∷ unsigned_text (suc w) (suc k)) (to_text_neg w k small fits)
      (parse_decimal_neg (unsigned_text (suc w) (suc k)) (suc w) (omega (arith, longer))
        ∙ parse_unsigned_text true w (suc k) small fits
        ∙ ap (λ v. some (some (record { value = v; precision = suc w }))) (neg64_pos k fits))
      (ap (λ f. text_precision f r.precision) (split_dot_minus (unsigned_text (suc w) (suc k)))
        ∙ text_precision_pos w (suc k) r.precision small)
  where
    longer : 0 < length (unsigned_text (suc w) (suc k))
    longer = omega (
      arith,
      format_nat_not_empty (suc k / 10 ^ suc w),
      length-append (format_nat (suc k / 10 ^ suc w))
          (b'.' ∷ zero_padded (suc w) (pos (suc k % 10 ^ suc w))),
    )

-- A number whose precision is at most 18 and whose mantissa is not MinInt64 is printed without
-- a panic, and ParseDecimal reads the text at that precision as the same number. So does UnmarshalJSON,
-- whatever its receiver held, unless the precision is 0: the receiver's must then be 0 as well.
pub text_reads_back :
    (d r : Decimal)
    → d.precision ≤ 18
    → magnitude d.value < 2 ^ 63
    → (d.precision ≡ 0 → r.precision ≡ 0)
    → IsPrinted d r
text_reads_back d r small fits keeps = print_at d.value d.precision r small fits keeps
