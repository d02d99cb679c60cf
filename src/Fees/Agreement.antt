-- ===== src/Fees/Agreement.antt =====
-- fees/flatrate.go and fees/tiered.go: two ways to the notional value of a fill.
use clob.Base.{ℕ, ◌*◌, ◌/◌, ◌^◌, ◌≤◌, ◌<◌, ◌≡◌, refl, arith, Bool, true, false, Option, some}
use clob.Base.Int.{ℤ, pos, negsuc, ◌*ℤ◌, int64, mul64, div64, magnitude, signed, is_negative, eqb_ℤ}
use mathlib.Core.Bool.{xor}
use clob.Types.Decimal.{Decimal}
use clob.Types.Decimal.Laws.{mul_qty_exact, pow10_pos}
use clob.Config.{FeeSchedule, FeeTier}
use clob.Fees.{flat_rate_fees, tiered_fees, find_tier, tiered_notional, maker_rate, taker_rate}
use native.Mathlib.Nat.{pow-le-pow_right}

product_signed :
    (a b : ℤ)
    → magnitude a * magnitude b < 2 ^ 63
    → mul64 a b ≡ signed (xor (is_negative a) (is_negative b)) (magnitude a * magnitude b)
unfolding mul64 int64 ◌*ℤ◌ mathlib.Core.Bool.xor
product_signed (pos n) (pos m) h = ground arith
product_signed (pos n) (negsuc m) h = ground arith
product_signed (negsuc n) (pos m) h = ground arith
product_signed (negsuc n) (negsuc m) h = ground arith

quotient_signed :
    (s : Bool) (n d : ℕ) → 0 < d → n < 2 ^ 63 → div64 (signed s n) (pos d) ≡ signed s (n / d)
unfolding div64 int64 mathlib.Core.Bool.xor
quotient_signed true n d h fits = ground arith
quotient_signed false n d h fits = ground arith

scale_exact : (k : ℕ) → k ≤ 18 → int64 (pos (10 ^ k)) ≡ pos (10 ^ k)
unfolding int64
scale_exact k h = ground (arith, pow-le-pow_right {n = 10} (omega arith) h)

not_zero : (n : ℕ) → 0 < n → eqb_ℤ (pos n) (pos 0) ≡ false
not_zero n h = ground arith

quotient_small : (n d : ℕ) → 0 < d → n < 2 ^ 63 → n / d < 2 ^ 63
quotient_small n d h fits = grind arith

-- The tiers in force, as a schedule without tiers.
abbrev pub in_force : FeeSchedule → Option FeeTier → Option FeeTier → FeeSchedule
in_force schedule maker taker = record schedule {
  maker_fee_rate = maker_rate schedule maker;
  taker_fee_rate = taker_rate schedule taker;
}

-- Let the quantity have a precision of at most 18, and let the product of the two mantissas have a
-- magnitude below 2 ^ 63. Then the tiered calculator, once it has found the tiers of both users, gives
-- the fees that the flat calculator gives with the rates of these tiers.
pub tiered-flat :
    (schedule : FeeSchedule) (maker taker : Option FeeTier)
    (maker_volume taker_volume price qty : Decimal)
    → find_tier schedule.tiers maker_volume ≡ some maker
    → find_tier schedule.tiers taker_volume ≡ some taker
    → qty.precision ≤ 18
    → magnitude price.value * magnitude qty.value < 2 ^ 63
    → tiered_fees schedule maker_volume taker_volume price qty
      ≡ flat_rate_fees (in_force schedule maker taker) price qty
unfolding tiered_fees flat_rate_fees tiered_notional
tiered-flat schedule maker taker maker_volume taker_volume price qty m t small fits =
    let positive = pow10_pos qty.precision in
    let product = magnitude price.value * magnitude qty.value in
    let exact =
      mul_qty_exact price qty small (quotient_small product (10 ^ qty.precision) positive fits) in
    rw
      (
        m,
        t,
        exact,
        scale_exact qty.precision small,
        not_zero (10 ^ qty.precision) positive,
        product_signed price.value qty.value fits,
        quotient_signed (xor (is_negative price.value) (is_negative qty.value)) product
            (10 ^ qty.precision) positive fits,
      )
      refl
