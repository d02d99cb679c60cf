-- ===== src/Events.antt =====
-- events/events.go and the reasons of types/status.go: what the engine reports. Names, messages and
-- generated ids are left out; a market's id stands in every event.
pub mod Names
use clob.Base.{ℕ}
use clob.Base.Int.{ℤ}
use clob.Types.{Side, OrderType, Tif}
use clob.Types.Decimal.{Decimal}
use clob.Config.{HaltType}

pub data CancelReason : Type 0 where
  user_requested ioc_remainder fok_canceled self_trade expired market_closed admin_cancel :
      CancelReason

pub data RejectionReason : Type 0 where
  invalid_tick invalid_lot below_min_qty above_max_qty above_max_value : RejectionReason
  feature_disabled market_not_open post_only_would_cross fok_failed pool_exhausted : RejectionReason
  pre_order_hook invalid_side invalid_price duplicate_order_id stp_cancel_taker : RejectionReason
  max_depth order_not_found invalid_expiry reduce_only : RejectionReason

pub data Role : Type 0 where
  maker taker : Role

pub data DepthUpdateType : Type 0 where
  depth_add depth_modify depth_delete : DepthUpdateType

pub record OrderAccepted : Type 0 where
  pub order_id : ℕ
  pub user_id : ℕ
  pub side : Side
  pub order_type : OrderType
  pub price : ℤ
  pub stop_price : ℤ
  pub orig_qty : ℤ
  pub display_qty : ℤ
  pub tif : Tif
  pub flags : ℕ
  pub order_seq_num : ℕ

pub record OrderRested : Type 0 where
  pub order_id : ℕ
  pub user_id : ℕ
  pub side : Side
  pub price : ℤ
  pub remain_qty : ℤ
  pub display_qty : ℤ

pub record TradeFill : Type 0 where
  pub order_id : ℕ
  pub user_id : ℕ
  pub role : Role
  pub side : Side
  pub price : ℤ
  pub filled_qty : ℤ
  pub remain_qty : ℤ
  pub fee : Decimal

pub record TradeExecuted : Type 0 where
  pub maker_order_id : ℕ
  pub maker_user_id : ℕ
  pub maker_side : Side
  pub maker_remain_qty : ℤ
  pub maker_fee : Decimal
  pub taker_order_id : ℕ
  pub taker_user_id : ℕ
  pub taker_remain_qty : ℤ
  pub taker_fee : Decimal
  pub price : ℤ
  pub qty : ℤ

pub record OrderCanceled : Type 0 where
  pub order_id : ℕ
  pub user_id : ℕ
  pub side : Side
  pub price : ℤ
  pub canceled_qty : ℤ
  pub filled_qty : ℤ
  pub reason : CancelReason

pub record OrderRejected : Type 0 where
  pub order_id : ℕ
  pub user_id : ℕ
  pub reason : RejectionReason

pub record OrderExpired : Type 0 where
  pub order_id : ℕ
  pub user_id : ℕ
  pub side : Side
  pub price : ℤ
  pub expired_qty : ℤ

pub record StopTriggered : Type 0 where
  pub stop_order_id : ℕ
  pub user_id : ℕ
  pub trigger_price : ℤ
  pub converted_to : OrderType
  pub converted_price : ℤ

pub record DepthUpdate : Type 0 where
  pub side : Side
  pub price : ℤ
  pub new_total_qty : ℤ
  pub new_display_qty : ℤ
  pub new_order_count : ℕ
  pub update_type : DepthUpdateType

pub data EventBody : Type 0 where
  order_accepted : OrderAccepted → EventBody
  order_rested : OrderRested → EventBody
  trade_fill : TradeFill → EventBody
  trade_executed : TradeExecuted → EventBody
  order_canceled : OrderCanceled → EventBody
  order_rejected : OrderRejected → EventBody
  order_expired : OrderExpired → EventBody
  stop_triggered : StopTriggered → EventBody
  market_halted : HaltType → EventBody
  market_resumed : EventBody
  depth_update : DepthUpdate → EventBody
  auction_opened : ℤ → ℤ → EventBody
  auction_cleared : ℤ → ℤ → EventBody

-- `Base` with the event that embeds it.
pub record Event : Type 0 where
  pub seq_num : ℕ
  pub timestamp : ℤ
  pub market_id : ℕ
  pub body : EventBody
