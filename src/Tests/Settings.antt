-- ===== src/Tests/Settings.antt =====
-- Runs of the properties of config/ and fees/ at concrete inputs.
use clob.Base.{ℕ, ◌≡◌, ◌↔◌, refl, [], ◌∷◌, some, arith}
use clob.Base.Int.{ℤ, pos}
use clob.Types.Decimal.{Decimal}
use clob.Config.{MarketConfig, FeeTier, tiered}
use clob.Config.Validate.{validate, with_defaults, IsUsable, validate-IsUsable}
use clob.Config.Acceptance.{IsAcceptable, validate_iff}
use clob.Fees.{find_tier}
use clob.Fees.Tiers.{IsHighest, find_tier-IsHighest}
use clob.Tests.{market}

abbrev decimal : ℕ → ℤ → Decimal
decimal p v = record { value = v; precision = p }

abbrev tier : ℤ → ℤ → FeeTier
tier volume rate = record {
  min_volume = decimal 2 volume;
  maker_fee_rate = decimal 4 rate;
  taker_fee_rate = decimal 4 rate;
}

-- Two tiers, and no limit on cascades set.
abbrev pub config : MarketConfig
config = record market {
  fee_schedule = record {
    maker_fee_rate = decimal 4 (pos 10);
    taker_fee_rate = decimal 4 (pos 20);
    fee_model = tiered;
    tiers = tier (pos 1000) (pos 9) ∷ tier (pos 50000) (pos 7) ∷ [];
  };
  max_cascade_depth = pos 0;
}

config_accepted : validate config ≡ some (some (with_defaults config))
unfolding validate clob.Types.Decimal.greater_than clob.Types.Decimal.same_precision
config_accepted = refl

validate-IsUsable_example :
    (with_defaults config ≡ with_defaults config) × IsUsable (with_defaults config)
validate-IsUsable_example = validate-IsUsable config (with_defaults config) config_accepted

validate_iff_example : (validate config ≡ some (some (with_defaults config))) ↔ IsAcceptable config
validate_iff_example = validate_iff config

found :
    find_tier config.fee_schedule.tiers (decimal 2 (pos 20000))
    ≡ some (some (tier (pos 1000) (pos 9)))
unfolding find_tier clob.Types.Decimal.greater_than_or_equal
found = refl

find_tier-IsHighest_example :
    IsHighest (decimal 2 (pos 20000)) config.fee_schedule.tiers (some (tier (pos 1000) (pos 9)))
find_tier-IsHighest_example =
    find_tier-IsHighest config.fee_schedule.tiers (decimal 2 (pos 20000))
      (some (tier (pos 1000) (pos 9))) (omega arith, tt) found
