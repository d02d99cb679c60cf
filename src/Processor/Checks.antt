-- ===== src/Processor/Checks.antt =====
-- engine/processor.go: the conditions under which an order is rejected, in the order of the source.
-- The prices and quantities of a command are at the precisions of the market; a comparison with a
-- setting at another precision panics.
use clob.Base.{
  ℕ, ◌^◌, ◌==◌, Bool, true, false, not, ◌&&◌, ◌||◌, Option, none, some, ltb, if◌then◌else◌,
}
use clob.Base.Int.{ℤ, pos, int64, ltb_ℤ, leb_ℤ, eqb_ℤ, mul64, div64, rem64}
use clob.Types.{
  Side, Tif, ioc, gtd, day, is_ioc, is_fok, can_rest, OrderType, limit, flag_post_only,
  flag_reduce_only, flag_iceberg, has_flag,
}
use clob.Types.Decimal.{Decimal}
use clob.Config.{
  MarketConfig, reject_order, treat_as_ioc, feature_market_orders, feature_ioc, feature_fok,
  feature_stop_orders, feature_iceberg_orders, feature_post_only, feature_reduce_only, has_feature,
}
use clob.Machine.{
  MarketState, pre_open, auction, open_state, halted, can_accept_limit_order,
  can_accept_market_order, can_accept_stop_order,
}
use clob.BTree.{BTree}
use clob.Positions.{would_increase}
use clob.Book.Level.{PriceLevel}
use clob.Book.Orders.{has_order, has_level, level_pool_full, would_cross, would_exceed_max_depth}
use clob.StopBook.{has_stop}
use clob.Auction.{has_auction_order}
use clob.Events.{
  RejectionReason, invalid_tick, invalid_lot, below_min_qty, above_max_qty, above_max_value,
  feature_disabled, market_not_open, post_only_would_cross, pool_exhausted, invalid_price,
  duplicate_order_id, invalid_expiry, reduce_only,
}
use clob.Processor.{Environment, Processor}
use clob.Processor.Commands.{PlaceLimitOrder, PlaceMarketOrder, PlaceStopOrder}

-- How a check ends that an order does not pass.
pub data Refusal : Type 0 where
  rejects : RejectionReason → Refusal
  panics : Refusal

abbrev pub reject_if : Bool → RejectionReason → Option Refusal
reject_if true reason = some (rejects reason)
reject_if false reason = none

abbrev pub panic_if : Bool → Option Refusal
panic_if true = some panics
panic_if false = none

-- The first check that refuses.
infixr 20 ◌or_else◌
abbrev pub ◌or_else◌ {ℓ} : {A : Type ℓ} → Option A → Option A → Option A
none or_else later = later
(some a) or_else later = some a

abbrev pub is_gtd : Tif → Bool
is_gtd gtd = true
is_gtd _ = false

abbrev pub is_day : Tif → Bool
is_day day = true
is_day _ = false

abbrev pub is_limit : OrderType → Bool
is_limit limit = true
is_limit _ = false

-- `IsValidTick` and `IsValidLot` on mantissas of one precision.
unfoldable pub is_multiple : ℤ → ℤ → Bool
is_multiple v step = ltb_ℤ (pos 0) v && ltb_ℤ (pos 0) step && eqb_ℤ (rem64 v step) (pos 0)

-- The notional value. The scale wraps around, and where it is 0 the division panics.
unfoldable pub order_value : MarketConfig → ℤ → ℤ → Option ℤ
order_value cfg price qty =
    let scale = int64 (pos (10 ^ cfg.qty_precision)) in
    if eqb_ℤ scale (pos 0) then none else some (div64 (mul64 price qty) scale)

-- A comparison with a bound that is set, and that has another precision than quantities have.
abbrev pub differs : MarketConfig → Decimal → Bool
differs cfg bound = not (eqb_ℤ bound.value (pos 0)) && not (bound.precision == cfg.qty_precision)

-- The bounds on the quantity that all orders have.
unfoldable pub check_qty : MarketConfig → ℤ → Option Refusal
check_qty cfg qty =
    reject_if (not (ltb_ℤ (pos 0) qty)) below_min_qty
    or_else panic_if (differs cfg cfg.min_order_qty)
    or_else reject_if
        (not (eqb_ℤ cfg.min_order_qty.value (pos 0)) && ltb_ℤ qty cfg.min_order_qty.value)
        below_min_qty
    or_else panic_if (differs cfg cfg.max_order_qty)
    or_else reject_if
        (not (eqb_ℤ cfg.max_order_qty.value (pos 0)) && ltb_ℤ cfg.max_order_qty.value qty)
        above_max_qty

abbrev pub value_above : Decimal → Option ℤ → Option Refusal
value_above bound none = some panics
value_above bound (some v) = reject_if (ltb_ℤ bound.value v) above_max_value

-- The bound on the value, with the price or the trigger price.
unfoldable pub check_value : MarketConfig → ℤ → ℤ → Option Refusal
unfolding order_value
check_value cfg price qty =
    if eqb_ℤ cfg.max_order_value.value (pos 0)
    then none
    else value_above cfg.max_order_value (order_value cfg price qty)

-- `IsValidTick` panics where the precisions differ.
unfoldable pub check_tick : MarketConfig → ℤ → Option Refusal
unfolding is_multiple
check_tick cfg price =
    panic_if (not (cfg.tick_size.precision == cfg.price_precision))
    or_else reject_if (not (is_multiple price cfg.tick_size.value)) invalid_tick

-- A price of a stop order, whose sign is tested before the tick.
unfoldable pub check_stop_price : MarketConfig → ℤ → Option Refusal
unfolding check_tick
check_stop_price cfg price =
    reject_if (not (ltb_ℤ (pos 0) price)) invalid_tick or_else check_tick cfg price

-- `IsValidLot`
unfoldable pub check_lot : MarketConfig → ℤ → Option Refusal
unfolding is_multiple
check_lot cfg qty =
    panic_if (not (cfg.lot_size.precision == cfg.qty_precision))
    or_else reject_if (not (is_multiple qty cfg.lot_size.value)) invalid_lot

unfoldable pub check_iceberg : MarketConfig → ℤ → ℤ → Option Refusal
unfolding check_lot
check_iceberg cfg display_qty qty =
    reject_if (not (ltb_ℤ (pos 0) display_qty)) invalid_lot
    or_else check_lot cfg display_qty
    or_else reject_if (leb_ℤ qty display_qty) invalid_lot

-- The end of a good-till-date or a day order.
unfoldable pub check_expiry : MarketConfig → ℤ → Tif → ℤ → Option Refusal
check_expiry cfg now tif expire_at =
    reject_if (is_gtd tif && leb_ℤ expire_at now) invalid_expiry
    or_else reject_if (is_day tif && eqb_ℤ cfg.session_end (pos 0)) feature_disabled
    or_else reject_if (is_day tif && leb_ℤ cfg.session_end now) invalid_expiry

-- `validateLimitOrder`
unfoldable pub validate_limit_order : MarketConfig → ℤ → PlaceLimitOrder → Option Refusal
unfolding check_qty check_value check_tick check_lot check_iceberg check_expiry
validate_limit_order cfg now cmd =
    reject_if (not (ltb_ℤ (pos 0) cmd.price)) invalid_price
    or_else check_qty cfg cmd.qty
    or_else check_value cfg cmd.price cmd.qty
    or_else check_tick cfg cmd.price
    or_else check_lot cfg cmd.qty
    or_else (if has_flag cmd.flags flag_iceberg
        then check_iceberg cfg cmd.display_qty cmd.qty
        else none)
    or_else check_expiry cfg now cmd.tif cmd.expire_at

-- A feature that an order asks for, by a flag.
unfoldable pub check_flag : MarketConfig → ℕ → ℕ → ℕ → Option Refusal
check_flag cfg flags flag feature =
    reject_if (has_flag flags flag && not (has_feature cfg feature)) feature_disabled

module _ {T S : Type 0} where
  unfoldable pub check_reduce_only : Processor T S → ℕ → ℕ → Side → ℤ → Option Refusal
  unfolding check_flag
  check_reduce_only p flags user_id side qty =
      check_flag p.book.config flags flag_reduce_only feature_reduce_only
      or_else reject_if
          (has_flag flags flag_reduce_only && would_increase p.positions user_id side qty)
          reduce_only

  unfoldable pub in_auction_book : Processor T S → ℕ → Bool
  in_auction_book p id = elim p.auction_book [ none ↦ false | some a ↦ has_auction_order a id ]

-- What the hook before an order says.
abbrev pub hook_refusal : Option RejectionReason → Option Refusal
hook_refusal none = none
hook_refusal (some reason) = some (rejects reason)

abbrev pub in_auction : MarketState → Bool
in_auction auction = true
in_auction _ = false

-- Where the guard for new levels stands: always if the market only queues, and, if it is open, for
-- an order that does not cross.
abbrev pub needs_level : MarketState → Bool → Bool
needs_level halted crossing = true
needs_level pre_open crossing = true
needs_level open_state crossing = not crossing
needs_level _ crossing = false

module _ {T S : Type 0} ⦃bt : BTree T PriceLevel⦄ where
  -- The checks of `processLimitOrder` up to the validation.
  unfoldable pub check_limit_order : ℤ → Processor T S → PlaceLimitOrder → Option Refusal
  unfolding check_flag check_reduce_only in_auction_book validate_limit_order
  check_limit_order now p cmd =
      let cfg = p.book.config in
      reject_if (not (can_accept_limit_order p.machine)) market_not_open
      or_else reject_if (is_ioc cmd.tif && not (has_feature cfg feature_ioc)) feature_disabled
      or_else reject_if (is_fok cmd.tif && not (has_feature cfg feature_fok)) feature_disabled
      or_else check_flag cfg cmd.flags flag_post_only feature_post_only
      or_else check_flag cfg cmd.flags flag_iceberg feature_iceberg_orders
      or_else check_reduce_only p cmd.flags cmd.user_id cmd.side cmd.qty
      or_else reject_if
          (has_order p.book cmd.order_id
            || has_stop p.stop_book cmd.order_id
            || in_auction_book p cmd.order_id)
          duplicate_order_id
      or_else validate_limit_order cfg now cmd

  unfoldable pub check_market_order : Processor T S → PlaceMarketOrder → Option Refusal
  unfolding check_reduce_only check_qty
  check_market_order p cmd =
      let cfg = p.book.config in
      reject_if (not (can_accept_market_order p.machine)) market_not_open
      or_else reject_if (not (has_feature cfg feature_market_orders)) feature_disabled
      or_else reject_if (has_flag cmd.flags flag_iceberg) feature_disabled
      or_else check_reduce_only p cmd.flags cmd.user_id cmd.side cmd.qty
      or_else reject_if (has_order p.book cmd.order_id || has_stop p.stop_book cmd.order_id)
          duplicate_order_id
      or_else check_qty cfg cmd.qty
      or_else reject_if (can_rest cmd.tif) feature_disabled

  unfoldable pub check_stop_order : ℤ → Processor T S → PlaceStopOrder → Option Refusal
  unfolding check_flag check_expiry check_qty check_value check_stop_price check_lot
  check_stop_order now p cmd =
      let cfg = p.book.config in
      reject_if (not (can_accept_stop_order p.machine)) market_not_open
      or_else reject_if (not (has_feature cfg feature_stop_orders)) feature_disabled
      or_else check_flag cfg cmd.flags flag_reduce_only feature_reduce_only
      or_else reject_if (has_order p.book cmd.order_id || has_stop p.stop_book cmd.order_id)
          duplicate_order_id
      or_else check_expiry cfg now cmd.tif cmd.expire_at
      or_else check_qty cfg cmd.qty
      or_else check_value cfg cmd.trigger_price cmd.qty
      or_else check_lot cfg cmd.qty
      or_else check_stop_price cfg cmd.trigger_price
      or_else (if is_limit cmd.convert_to then check_stop_price cfg cmd.limit_price else none)

  -- The limit on the depth of the book: the order, or what it is treated as, or a rejection.
  unfoldable pub apply_max_depth : Processor T S → PlaceLimitOrder → Option PlaceLimitOrder
  apply_max_depth p cmd =
      let cfg = p.book.config in
      if ltb 0 cfg.max_depth
        && can_rest cmd.tif
        && not (in_auction p.machine.state)
        && would_exceed_max_depth p.book cmd.price cmd.side
      then (elim cfg.max_depth_mode [
        | reject_order ↦ none
        | treat_as_ioc ↦ some (record cmd { tif = ioc })
      ])
      else some cmd

  -- A new price level that the pool cannot give.
  unfoldable pub lacks_level : Processor T S → PlaceLimitOrder → Bool
  lacks_level p cmd =
      can_rest cmd.tif
      && level_pool_full p.book
      && not (has_level p.book cmd.side cmd.price)
      && needs_level p.machine.state (would_cross p.book cmd.price cmd.side)

  -- The checks of `processLimitOrder` after the validation, the hook included.
  unfoldable pub check_placement : Environment → Processor T S → PlaceLimitOrder → Option Refusal
  unfolding lacks_level
  check_placement env p cmd =
      reject_if
        (has_flag cmd.flags flag_post_only
          && not (in_auction p.machine.state)
          && would_cross p.book cmd.price cmd.side)
        post_only_would_cross
      or_else reject_if (lacks_level p cmd) pool_exhausted
      or_else hook_refusal (
          env.pre_hook (record {
            user_id = cmd.user_id;
            order_id = cmd.order_id;
            side = cmd.side;
            order_type = limit;
            price = cmd.price;
            qty = cmd.qty;
            tif = cmd.tif;
            flags = cmd.flags;
          }))
