-- ===== src/Processor/Commands.antt =====
-- engine/commands.go: what the processor is told to do. The market's id, which only the registry of
-- engines reads to find the engine, and the reason of a halt, a text, are left out.
use clob.Base.{ℕ}
use clob.Base.Int.{ℤ}
use clob.Config.{MarketConfig}
use clob.Types.{Side, OrderType, Tif, StpMode}

pub record PlaceLimitOrder : Type 0 where
  pub order_id : ℕ
  pub user_id : ℕ
  pub side : Side
  pub price : ℤ
  pub qty : ℤ
  pub display_qty : ℤ
  pub tif : Tif
  pub flags : ℕ
  pub expire_at : ℤ
  pub stp_mode : StpMode

pub record PlaceMarketOrder : Type 0 where
  pub order_id : ℕ
  pub user_id : ℕ
  pub side : Side
  pub qty : ℤ
  pub tif : Tif
  pub flags : ℕ
  pub stp_mode : StpMode

pub record PlaceStopOrder : Type 0 where
  pub order_id : ℕ
  pub user_id : ℕ
  pub side : Side
  pub trigger_price : ℤ
  pub limit_price : ℤ
  pub qty : ℤ
  pub convert_to : OrderType
  pub tif : Tif
  pub expire_at : ℤ
  pub flags : ℕ
  pub stp_mode : StpMode

pub record CancelOrder : Type 0 where
  pub order_id : ℕ
  pub user_id : ℕ

pub data Command : Type 0 where
  place_limit_order : PlaceLimitOrder → Command
  place_market_order : PlaceMarketOrder → Command
  place_stop_order : PlaceStopOrder → Command
  cancel_order : CancelOrder → Command
  admin_halt_market admin_resume_market : Command
  admin_create_market : MarketConfig → Command
