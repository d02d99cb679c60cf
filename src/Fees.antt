-- ===== src/Fees.antt =====
-- fees/: the fees of a fill, from its price and its quantity. `none` is a panic: of `MulQty`, of a
-- comparison at different precisions, or of a division by a scale that wrapped around to 0.
pub mod Agreement
pub mod Tiers
use clob.Base.{ℕ, ◌^◌, List, [], ◌∷◌, Option, none, some, if◌then◌else◌, ◌>>=◌}
use clob.Base.Int.{ℤ, pos, int64, mul64, div64, eqb_ℤ}
use clob.Types.Decimal.{Decimal, zero_at, mul_qty, greater_than_or_equal}
use clob.Config.{FeeSchedule, FeeTier}

-- The currency of the schedule is left out.
pub record FeeResult : Type 0 where
  pub maker_fee : Decimal
  pub taker_fee : Decimal

-- A rate has four decimals.
unfoldable pub fee_at : ℤ → Decimal → ℕ → Decimal
fee_at notional rate precision = record {
  value = div64 (mul64 notional rate.value) (pos 10000);
  precision = precision;
}

unfoldable pub flat_rate_fees : FeeSchedule → Decimal → Decimal → Option FeeResult
unfolding fee_at
flat_rate_fees schedule price qty = do
  notional ← mul_qty price qty
  some (record {
    maker_fee = fee_at notional.value schedule.maker_fee_rate price.precision;
    taker_fee = fee_at notional.value schedule.taker_fee_rate price.precision;
  })

-- The last tier whose volume is reached; `current` is the match so far.
unfoldable pub find_tier_from : Option FeeTier → List FeeTier → Decimal → Option (Option FeeTier)
find_tier_from current [] volume = some current
find_tier_from current (tier ∷ tiers) volume =
    greater_than_or_equal volume tier.min_volume >>= λ reached.
    find_tier_from (if reached then some tier else current) tiers volume

unfoldable pub find_tier : List FeeTier → Decimal → Option (Option FeeTier)
unfolding find_tier_from
find_tier tiers volume = find_tier_from none tiers volume

abbrev pub maker_rate : FeeSchedule → Option FeeTier → Decimal
maker_rate schedule none = schedule.maker_fee_rate
maker_rate schedule (some tier) = tier.maker_fee_rate

abbrev pub taker_rate : FeeSchedule → Option FeeTier → Decimal
taker_rate schedule none = schedule.taker_fee_rate
taker_rate schedule (some tier) = tier.taker_fee_rate

-- The product of the mantissas is an int64 here, and so is the scale.
unfoldable pub tiered_notional : Decimal → Decimal → Option ℤ
tiered_notional price qty =
    let scale = int64 (pos (10 ^ qty.precision)) in
    if eqb_ℤ scale (pos 0) then none else some (div64 (mul64 price.value qty.value) scale)

-- The volumes of the maker and of the taker come from the volume provider.
unfoldable pub tiered_fees : FeeSchedule → Decimal → Decimal → Decimal → Decimal → Option FeeResult
unfolding find_tier tiered_notional fee_at
tiered_fees schedule maker_volume taker_volume price qty = do
  maker_tier ← find_tier schedule.tiers maker_volume
  taker_tier ← find_tier schedule.tiers taker_volume
  notional ← tiered_notional price qty
  some (record {
    maker_fee = fee_at notional (maker_rate schedule maker_tier) price.precision;
    taker_fee = fee_at notional (taker_rate schedule taker_tier) price.precision;
  })

unfoldable pub zero_fees : Decimal → FeeResult
zero_fees price = record {
  maker_fee = zero_at price.precision;
  taker_fee = zero_at price.precision;
}
