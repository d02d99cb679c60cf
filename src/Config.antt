-- ===== src/Config.antt =====
-- config/market.go and config/fees.go: the description of a market, as far as the engine reads it.
pub mod Validate
pub mod Acceptance
use clob.Base.{ℕ, Bool, Option, List, ◌==◌}
use Prim.Native.Nat.{bit_and, bit_or, ◌-◌}
use clob.Base.Int.{ℤ}
use clob.Types.{StpMode}
use clob.Types.Decimal.{Decimal}

pub data DepthMode : Type 0 where
  reject_order treat_as_ioc : DepthMode

-- Why a market was halted.
pub data HaltType : Type 0 where
  halt_admin halt_circuit_breaker halt_cascade_limit : HaltType

pub record FeeTier : Type 0 where
  pub min_volume : Decimal
  pub maker_fee_rate : Decimal
  pub taker_fee_rate : Decimal

pub data FeeModel : Type 0 where
  flat tiered : FeeModel

pub record FeeSchedule : Type 0 where
  pub maker_fee_rate : Decimal
  pub taker_fee_rate : Decimal
  pub fee_model : FeeModel
  pub tiers : List FeeTier

pub record CircuitBreakerConfig : Type 0 where
  pub window_duration : ℤ
  pub max_move_percent : Decimal
  pub cooldown_period : ℤ

-- A negative MaxDepth acts as 0 does, as no limit. `auction_reference` is the reference price of the `Auction` section, if there is one.
pub record MarketConfig : Type 0 where
  pub market_id : ℕ
  pub price_precision : ℕ
  pub qty_precision : ℕ
  pub tick_size : Decimal
  pub lot_size : Decimal
  pub min_order_qty : Decimal
  pub max_order_qty : Decimal
  pub max_order_value : Decimal
  pub max_depth : ℕ
  pub max_depth_mode : DepthMode
  pub features : ℕ
  pub stp_mode : StpMode
  pub fee_schedule : FeeSchedule
  pub circuit_breaker : Option CircuitBreakerConfig
  pub auction_reference : Option Decimal
  pub max_cascade_depth : ℤ
  pub session_end : ℤ
  pub initial_order_seq : ℕ
  pub initial_event_seq : ℕ

-- config/features.go: a set of features is a word, and each feature is a bit.
abbrev pub feature_market_orders : ℕ
feature_market_orders = 1

abbrev pub feature_ioc : ℕ
feature_ioc = 2

abbrev pub feature_fok : ℕ
feature_fok = 4

abbrev pub feature_stop_orders : ℕ
feature_stop_orders = 8

abbrev pub feature_iceberg_orders : ℕ
feature_iceberg_orders = 16

abbrev pub feature_post_only : ℕ
feature_post_only = 32

abbrev pub feature_reduce_only : ℕ
feature_reduce_only = 64

abbrev pub feature_auctions : ℕ
feature_auctions = 128

unfoldable pub default_features : ℕ
default_features = bit_or feature_market_orders feature_ioc

unfoldable pub add_feature : ℕ → ℕ → ℕ
add_feature fs f = bit_or fs f

-- `fs &^ f`
unfoldable pub remove_feature : ℕ → ℕ → ℕ
remove_feature fs f = fs - bit_and fs f

-- `FeatureSet.Has`
unfoldable pub has_feature : MarketConfig → ℕ → Bool
has_feature cfg f = bit_and cfg.features f == f
