-- ===== src/Types/Decimal/Laws.antt =====
-- Laws of the arithmetic of types/decimal.go and of its panics.
use clob.Base.{
  ◌&&◌, ◌⊎◌, ℕ, zero, suc, ◌-◌, ◌*◌, ◌/◌, ◌%◌, ◌^◌, ◌≤◌, ◌<◌, ◌≡◌, refl, ap, ◌∙◌, ◌↔◌, Bool, true,
  false, none, some, arith, lt→ltb, if◌then◌else◌, ◌>>=◌,
}
use clob.Base.Int.{
  ltb_ℤ, eqb_ℤ, ℤ, pos, negsuc, IsInt64, int64, add64, sub64, sub64-int64, int64_of_range, ◌+ℤ◌,
  ◌-ℤ◌, int_laws, magnitude, signed, of_pattern, is_negative, rem64, neg64, neg,
}
use mathlib.Core.Bool.{xor}
use native.Mathlib.Decide.{dec_lt}
use native.Mathlib.Nat.{pow-suc, div-add-mod, mul-mod_left}
use clob.Types.Decimal.{Decimal, add, sub, scaled_product, mul_qty, pow10, is_valid_tick}

add-sub-cancel : (a b : ℤ) → a +ℤ b -ℤ b ≡ a
add-sub-cancel a b = omega int_laws

sub64-add64 : (a b : ℤ) → IsInt64 a → sub64 (add64 a b) b ≡ a
unfolding add64 sub64 int64
sub64-add64 a b h = sub64-int64 (a +ℤ b) b ∙ ap int64 (add-sub-cancel a b) ∙ int64_of_range a h

-- `Add` and then `Sub` of the same number gives the first number back, also where the sum wraps
-- around, if both have the same precision and the first value is an int64.
sub-add :
    (a b : Decimal)
    → a.precision ≡ b.precision
    → IsInt64 a.value
    → (add a b >>= λ c. sub c b) ≡ some a
unfolding add sub
sub-add a b same range = ground (arith, sub64-add64 a.value b.value)

quotient_fits :
    (product divisor : ℕ) → 0 < divisor → product / divisor < 2 ^ 63 → product / 2 ^ 64 < divisor
quotient_fits product divisor h fits = grind arith

pub pow10_pos : (n : ℕ) → 0 < 10 ^ n
pow10_pos zero = omega arith
pow10_pos (suc n) = rw (pow-suc 10 n) (omega (arith, pow10_pos n))

sign_applied :
    (s : Bool) (q : ℕ)
    → q < 2 ^ 63
    → (if s then neg64 (of_pattern q) else of_pattern q) ≡ signed s q
unfolding neg64 neg int64
sign_applied true q h = ground arith
sign_applied false q h = ground arith

scaled_product_exact :
    (a b : ℤ) (divisor : ℕ)
    → 0 < divisor
    → magnitude a * magnitude b / divisor < 2 ^ 63
    → scaled_product a b divisor
      ≡ some (signed (xor (is_negative a) (is_negative b)) (magnitude a * magnitude b / divisor))
unfolding scaled_product
scaled_product_exact a b divisor h fits =
    rw (lt→ltb _ _ (quotient_fits (magnitude a * magnitude b) divisor h fits))
      (ap some (sign_applied (xor (is_negative a) (is_negative b)) _ fits))

-- `MulQty` is the product over ten to the precision of the quantity, truncated toward zero, if that
-- precision is at most 18 and the magnitude of the quotient is below 2 ^ 63.
pub mul_qty_exact :
    (d qty : Decimal)
    → qty.precision ≤ 18
    → magnitude d.value * magnitude qty.value / 10 ^ qty.precision < 2 ^ 63
    → mul_qty d qty
      ≡ some (record d {
        value =
            signed
              (xor (is_negative d.value) (is_negative qty.value))
              (magnitude d.value * magnitude qty.value / 10 ^ qty.precision);
      })
unfolding mul_qty pow10
mul_qty_exact d qty small fits = ground (
  arith,
  scaled_product_exact d.value qty.value (10 ^ qty.precision) (pow10_pos qty.precision) fits,
)

divides : (v n : ℕ) → v % suc n ≡ 0 → 0 < v → (k : ℕ) × (v ≡ suc k * suc n)
divides v n h p = (v / suc n - 1, grind (arith, div-add-mod v (suc n)))

multiple-mod : (k n : ℕ) → suc k * suc n % suc n ≡ 0
multiple-mod k n = mul-mod_left (suc k) (suc n)

tick_mantissa_iff :
    (v t : ℤ)
    → IsInt64 v
    → ((ltb_ℤ (pos 0) v && ltb_ℤ (pos 0) t && eqb_ℤ (rem64 v t) (pos 0)) ≡ true)
      ↔ ((k : ℕ) × (n : ℕ) × (t ≡ pos (suc n)) × (v ≡ pos (suc k * suc n)))
unfolding rem64 int64
tick_mantissa_iff (pos zero) t range =
    (λ h. absurd (ground arith), λ (k, n, e, f). absurd (ground arith))
tick_mantissa_iff (negsuc v) t range = (λ h. absurd (ground arith), λ (k, n, e, f). cc)
tick_mantissa_iff (pos (suc v)) (pos zero) range = (λ h. absurd (ground arith), λ (k, n, e, f). cc)
tick_mantissa_iff (pos (suc v)) (negsuc t) range = (λ h. absurd (ground arith), λ (k, n, e, f). cc)
tick_mantissa_iff (pos (suc v)) (pos (suc t)) range = (
  λ h. let d = divides (suc v) t (ground arith) (omega arith) in (d.0, t, refl, ap pos d.1),
  λ (k, n, e, f). ground (arith, multiple-mod k n),
)

-- `IsValidTick` accepts a price exactly if the tick is positive and the price is a positive multiple
-- of it, for an int64 price of the precision of the tick.
pub is_valid_tick_iff :
    (d tick : Decimal)
    → d.precision ≡ tick.precision
    → IsInt64 d.value
    → (is_valid_tick d tick ≡ some true)
      ↔ ((k : ℕ) × (n : ℕ) × (tick.value ≡ pos (suc n)) × (d.value ≡ pos (suc k * suc n)))
unfolding is_valid_tick
is_valid_tick_iff d tick same range =
    let spec = tick_mantissa_iff d.value tick.value range in
    (λ h. spec.0 (ground arith), λ m. ground (arith, spec.1 m))

quotient_wide :
    (product divisor : ℕ) → 0 < divisor → product / 2 ^ 64 < divisor → product / divisor < 2 ^ 64
quotient_wide product divisor h fits = grind arith

quotient_over :
    (product divisor : ℕ) → 0 < divisor → divisor ≤ product / 2 ^ 64 → 2 ^ 64 ≤ product / divisor
quotient_over product divisor h over = grind arith

-- The product of two words panics exactly if its quotient has more than 64 bits.
scaled_product_panics_iff :
    (a b : ℤ) (divisor : ℕ)
    → 0 < divisor
    → (scaled_product a b divisor ≡ none) ↔ (2 ^ 64 ≤ magnitude a * magnitude b / divisor)
unfolding scaled_product
scaled_product_panics_iff a b divisor h =
    let product = magnitude a * magnitude b in
    elim (dec_lt (product / 2 ^ 64) divisor) [
      | yes p ↦ (
        λ e. absurd (ground arith),
        λ big. absurd (omega (arith, quotient_wide product divisor h p)),
      )
      | no p ↦ (λ _. quotient_over product divisor h (omega arith), λ big. ground arith)
    ]

-- `MulQty` panics exactly if the precision of the quantity is above 18, or the magnitude of the
-- quotient has more than 64 bits.
pub mul_qty_panics_iff :
    (d qty : Decimal)
    → (mul_qty d qty ≡ none) ↔ (
        (18 < qty.precision)
        ⊎ (2 ^ 64 ≤ magnitude d.value * magnitude qty.value / 10 ^ qty.precision))
unfolding mul_qty pow10
mul_qty_panics_iff d qty =
    let spec = scaled_product_panics_iff d.value qty.value (10 ^ qty.precision) (pow10_pos _) in
    (λ h. ground (arith, spec.0), λ h. ground (arith, spec.1))
