-- ===== src/Base/Strconv.antt =====
-- Decimal digits, as Go's strconv and fmt read and print them. A text is the list of its bytes.
use Prim.Native.Nat.{ℕ, zero, suc, ◌+◌, ◌-◌, ◌*◌, ◌/◌, ◌%◌, ◌^◌, ◌≤◌, ◌<◌}
use mathlib.Core.Path.{◌≡◌, refl, ap, ◌∙◌}
use mathlib.Core.Bool.{Bool, true, false, ◌||◌}
use mathlib.Core.List.{List, [], ◌∷◌, ◌++◌}
use mathlib.Core.Option.{Option, none, some}
use native.Mathlib.Omega.{arith}
use clob.Base.Tests.{ltb, leb, ◌==◌, if◌then◌else◌, ◌>>=◌}
use clob.Base.Lists.{length, length-append, replicate, All, All-append}
use clob.Base.Int.{ℤ, pos, is_negative, magnitude, signed}

abbrev pub Text : Type 0
Text = List ℕ

-- The digits of `n` before `out`, on fuel; those of 0 are none.
unfoldable pub digits : ℕ → ℕ → Text → Text
digits zero n out = out
digits (suc k) n out =
    let rest = digits k (n / 10) ((b'0' + n % 10) ∷ out) in if n == 0 then out else rest

-- A number is fuel enough for itself.
unfoldable pub format_nat : ℕ → Text
unfolding digits
format_nat n = if n == 0 then b'0' ∷ [] else digits n n []

-- `strconv.FormatInt(v, 10)`
unfoldable pub format_int : ℤ → Text
unfolding format_nat
format_int v = if is_negative v then b'-' ∷ format_nat (magnitude v) else format_nat (magnitude v)

-- `fmt.Sprintf("%0*d", w, v)`: the sign counts for the width.
unfoldable pub zero_padded : ℕ → ℤ → Text
unfolding format_nat
zero_padded w v =
    let ds = format_nat (magnitude v) in
    if is_negative v
    then b'-' ∷ (replicate (w - 1 - length ds) b'0' ++ ds)
    else replicate (w - length ds) b'0' ++ ds

-- The number that digits spell behind `n`, or `none` at another byte.
unfoldable pub scan : Text → ℕ → Option ℕ
scan [] n = some n
scan (c ∷ s) n =
    let rest = scan s (n * 10 + (c - b'0')) in if ltb c b'0' || ltb b'9' c then none else rest

-- The digits of a number of this sign, which must fit in 64 bits.
unfoldable pub parse_magnitude : Bool → Text → Option ℤ
unfolding scan
parse_magnitude negative [] = none
parse_magnitude negative (c ∷ s) = scan (c ∷ s) 0 >>= λ n.
    if leb n (if negative then 2 ^ 63 else 2 ^ 63 - 1) then some (signed negative n) else none

-- `strconv.ParseInt(s, 10, 64)`, with `none` for both of its errors.
unfoldable pub parse_int : Text → Option ℤ
unfolding parse_magnitude
parse_int [] = none
parse_int (c ∷ s) =
    if c == b'-'
    then parse_magnitude true s
    else if c == b'+'
    then parse_magnitude false s
    else parse_magnitude false (c ∷ s)

abbrev pub IsDigit : ℕ → Type 0
IsDigit c = (b'0' ≤ c) × (c ≤ b'9')

scan_last : (n : ℕ) (out : Text) → scan ((b'0' + n % 10) ∷ out) (n / 10) ≡ scan out n
unfolding scan
scan_last n out = ground arith

scan-digits : (k n : ℕ) (out : Text) → n ≤ k → scan (digits k n out) 0 ≡ scan out n
unfolding digits
scan-digits zero n out h = ground arith
scan-digits (suc k) n out h =
    ground (arith, scan-digits k (n / 10) ((b'0' + n % 10) ∷ out), scan_last n out)

digits-IsDigit : (k n : ℕ) (out : Text) → All IsDigit out → All IsDigit (digits k n out)
unfolding digits
digits-IsDigit zero n out h = h
digits-IsDigit (suc k) n out h = ground (arith, digits-IsDigit k (n / 10) ((b'0' + n % 10) ∷ out))

length-digits : (k w n : ℕ) (out : Text) → n < 10 ^ w → length (digits k n out) ≤ w + length out
unfolding digits
length-digits zero w n out h = omega arith
length-digits (suc k) zero n out h = ground arith
length-digits (suc k) (suc w) n out h =
    ground (arith, length-digits k w (n / 10) ((b'0' + n % 10) ∷ out))

digits_longer : (k n : ℕ) (out : Text) → length out ≤ length (digits k n out)
unfolding digits
digits_longer zero n out = omega arith
digits_longer (suc k) n out = ground (arith, digits_longer k (n / 10) ((b'0' + n % 10) ∷ out))

pub format_nat-IsDigit : (n : ℕ) → All IsDigit (format_nat n)
unfolding format_nat
format_nat-IsDigit n = ground (arith, digits-IsDigit n n [] tt)

pub scan-format_nat : (n : ℕ) → scan (format_nat n) 0 ≡ some n
unfolding format_nat scan
scan-format_nat n = ground (arith, scan-digits n n [] (omega arith))

-- At least one digit, and no more than the width that the number needs.
pub format_nat_not_empty : (n : ℕ) → 0 < length (format_nat n)
unfolding format_nat digits
format_nat_not_empty zero = omega arith
format_nat_not_empty (suc n) =
    ground (arith, digits_longer n (suc n / 10) ((b'0' + suc n % 10) ∷ []))

length-format_nat : (w n : ℕ) → n < 10 ^ suc w → length (format_nat n) ≤ suc w
unfolding format_nat
length-format_nat w n h = ground (arith, length-digits n (suc w) n [] h)

scan-zeros : (k : ℕ) (s : Text) → scan (replicate k b'0' ++ s) 0 ≡ scan s 0
unfolding scan
scan-zeros zero s = refl
scan-zeros (suc k) s = ground (arith, scan-zeros k s)

zeros-IsDigit : (k : ℕ) → All IsDigit (replicate k b'0')
zeros-IsDigit zero = tt
zeros-IsDigit (suc k) = ((omega arith, omega arith), zeros-IsDigit k)

length-zeros : (k : ℕ) → length {A = ℕ} (replicate k b'0') ≡ k
length-zeros zero = refl
length-zeros (suc k) = ap suc (length-zeros k)

-- What `%0*d` prints of a number that fits in the width: exactly that many digits, which spell it.
pub record IsPadded (w n : ℕ) (s : Text) : Type 0 where
  pub all_digits : All IsDigit s
  pub width : length s ≡ w
  pub value : scan s 0 ≡ some n

zero_padded_pos :
    (w n : ℕ) → zero_padded w (pos n) ≡ replicate (w - length (format_nat n)) b'0' ++ format_nat n
unfolding zero_padded
zero_padded_pos w n = ground arith

pub zero_padded-IsPadded :
    (w n : ℕ) → n < 10 ^ suc w → IsPadded (suc w) n (zero_padded (suc w) (pos n))
zero_padded-IsPadded w n h =
    let zs = replicate {A = ℕ} (suc w - length (format_nat n)) b'0' in
    rw (zero_padded_pos (suc w) n) (record {
      all_digits = All-append IsDigit zs (format_nat n) (zeros-IsDigit _) (format_nat-IsDigit n);
      width = omega (
        arith,
        length-append zs (format_nat n),
        length-zeros (suc w - length (format_nat n)),
        length-format_nat w n h,
      );
      value = scan-zeros _ (format_nat n) ∙ scan-format_nat n;
    })

pub format_int_pos : (n : ℕ) → format_int (pos n) ≡ format_nat n
unfolding format_int
format_int_pos n = ground arith

-- ParseInt of digits gives what they spell, if it is an int64.
pub parse_int-digits :
    (s : Text) (n : ℕ)
    → 0 < length s
    → All IsDigit s
    → scan s 0 ≡ some n
    → n < 2 ^ 63
    → parse_int s ≡ some (pos n)
unfolding parse_int
parse_int-digits [] n l d h fits = ground arith
parse_int-digits (c ∷ s) n l d h fits = ground (arith, h, fits, d.0)

pub parse_int-format_nat : (n : ℕ) → n < 2 ^ 63 → parse_int (format_nat n) ≡ some (pos n)
parse_int-format_nat n h =
    parse_int-digits (format_nat n) n (format_nat_not_empty n) (format_nat-IsDigit n)
      (scan-format_nat n) h
