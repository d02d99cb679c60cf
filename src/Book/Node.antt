-- ===== src/Book/Node.antt =====
-- book/node.go, types/fill.go and the records of book/matching.go. A node's market, its stop price
-- and its links are left out: a level holds its nodes in a list.
use clob.Base.{ℕ, Bool}
use clob.Base.Int.{ℤ}
use clob.Types.{Side, OrderType, Tif, StpMode}

pub record OrderNode : Type 0 where
  pub order_id : ℕ
  pub user_id : ℕ
  pub side : Side
  pub order_type : OrderType
  pub tif : Tif
  pub flags : ℕ
  pub stp_mode : StpMode
  pub price : ℤ
  pub orig_qty : ℤ
  pub remain_qty : ℤ
  pub filled_qty : ℤ
  pub display_qty : ℤ
  pub hidden_qty : ℤ
  pub orig_display_qty : ℤ
  pub seq_num : ℕ
  pub timestamp : ℤ
  pub expire_at : ℤ
  pub pool_index : ℕ

pub record Fill : Type 0 where
  pub maker_order_id : ℕ
  pub taker_order_id : ℕ
  pub maker_user_id : ℕ
  pub taker_user_id : ℕ
  pub maker_side : Side
  pub price : ℤ
  pub qty : ℤ
  pub maker_remain_qty : ℤ
  pub taker_remain_qty : ℤ
  pub maker_seq_num : ℕ
  pub taker_seq_num : ℕ
  pub timestamp : ℤ
  pub maker_level_total_qty : ℤ
  pub maker_level_display_qty : ℤ
  pub maker_level_order_count : ℕ
  pub maker_level_exists : Bool

pub data Disposition : Type 0 where
  fully_filled partial_fill_rested partial_fill_canceled : Disposition
  rested canceled rejected stp_canceled_taker : Disposition

pub record StpCanceled : Type 0 where
  pub order_id : ℕ
  pub user_id : ℕ
  pub side : Side
  pub price : ℤ
  pub remain_qty : ℤ
  pub filled_qty : ℤ
