-- ===== src/Events/Names.antt =====
-- types/side.go, types/tif.go, types/ordertype.go, types/status.go, config/market.go and
-- statemachine/states.go: the names that the enumerations are printed with, and those that are read
-- back. A name is a text; the values that have no name are not in the model's types.
use clob.Base.{◌≡◌, refl, [], ◌∷◌, Bool, true, false, ◌&&◌, Option, none, some, ◌==◌, if◌then◌else◌}
use Prim.Native.Char.{code}
use Prim.Native.String.{String}
use clob.Base.Strconv.{Text}
use clob.Types.{
  Side, bid, ask, Tif, gtc, ioc, fok, gtd, day, OrderType, limit, market, stop, stop_limit, iceberg,
}
use clob.Config.{HaltType, halt_admin, halt_circuit_breaker, halt_cascade_limit}
use clob.Machine.{MarketState, pre_open, auction, open_state, halted, closed}
use clob.Events.{
  CancelReason, user_requested, ioc_remainder, fok_canceled, self_trade, expired, market_closed,
  admin_cancel, RejectionReason, invalid_tick, invalid_lot, below_min_qty, above_max_qty,
  above_max_value, feature_disabled, market_not_open, post_only_would_cross, fok_failed,
  pool_exhausted, pre_order_hook, invalid_side, invalid_price, duplicate_order_id, stp_cancel_taker,
  max_depth, order_not_found, invalid_expiry, reduce_only,
}

pub data OrderStatus : Type 0 where
  status_new status_rested status_partial_fill status_filled : OrderStatus
  status_canceled status_rejected status_expired : OrderStatus

abbrev pub codes : String → Text
codes String.[] = []
codes (String.◌∷◌ c s) = code c ∷ codes s

abbrev pub same_text : Text → Text → Bool
same_text [] [] = true
same_text [] (_ ∷ _) = false
same_text (_ ∷ _) [] = false
same_text (c ∷ s) (d ∷ t) = c == d && same_text s t

unfoldable pub side_text : Side → Text
side_text bid = codes "bid"
side_text ask = codes "ask"

-- `SideFromString`
unfoldable pub side_from_text : Text → Option Side
side_from_text s =
    if same_text s (codes "bid")
    then some bid
    else if same_text s (codes "ask")
    then some ask
    else none

unfoldable pub tif_text : Tif → Text
tif_text gtc = codes "GTC"
tif_text ioc = codes "IOC"
tif_text fok = codes "FOK"
tif_text gtd = codes "GTD"
tif_text day = codes "DAY"

unfoldable pub order_type_text : OrderType → Text
order_type_text limit = codes "limit"
order_type_text market = codes "market"
order_type_text stop = codes "stop"
order_type_text stop_limit = codes "stop_limit"
order_type_text iceberg = codes "iceberg"

-- `IsLimit` and `NeedsPrice`, which have the same body.
unfoldable pub needs_price : OrderType → Bool
needs_price limit = true
needs_price stop_limit = true
needs_price iceberg = true
needs_price _ = false

unfoldable pub needs_stop_price : OrderType → Bool
needs_stop_price stop = true
needs_stop_price stop_limit = true
needs_stop_price _ = false

unfoldable pub status_text : OrderStatus → Text
status_text status_new = codes "new"
status_text status_rested = codes "rested"
status_text status_partial_fill = codes "partial_fill"
status_text status_filled = codes "filled"
status_text status_canceled = codes "canceled"
status_text status_rejected = codes "rejected"
status_text status_expired = codes "expired"

unfoldable pub cancel_reason_text : CancelReason → Text
cancel_reason_text user_requested = codes "user_requested"
cancel_reason_text ioc_remainder = codes "ioc"
cancel_reason_text fok_canceled = codes "fok"
cancel_reason_text self_trade = codes "stp"
cancel_reason_text expired = codes "expired"
cancel_reason_text market_closed = codes "market_closed"
cancel_reason_text admin_cancel = codes "admin_cancel"

unfoldable pub rejection_text : RejectionReason → Text
rejection_text invalid_tick = codes "invalid_tick"
rejection_text invalid_lot = codes "invalid_lot"
rejection_text below_min_qty = codes "below_min_qty"
rejection_text above_max_qty = codes "above_max_qty"
rejection_text above_max_value = codes "above_max_value"
rejection_text feature_disabled = codes "feature_disabled"
rejection_text market_not_open = codes "market_not_open"
rejection_text post_only_would_cross = codes "post_only_would_cross"
rejection_text fok_failed = codes "fok_failed"
rejection_text pool_exhausted = codes "pool_exhausted"
rejection_text pre_order_hook = codes "pre_order_hook"
rejection_text invalid_side = codes "invalid_side"
rejection_text invalid_price = codes "invalid_price"
rejection_text duplicate_order_id = codes "duplicate_order_id"
rejection_text stp_cancel_taker = codes "stp_cancel_taker"
rejection_text max_depth = codes "max_depth"
rejection_text order_not_found = codes "order_not_found"
rejection_text invalid_expiry = codes "invalid_expiry"
rejection_text reduce_only = codes "reduce_only_would_increase_position"

-- The text that the JSON of a halt's type holds.
unfoldable pub halt_text : HaltType → Text
halt_text halt_circuit_breaker = codes "circuit_breaker"
halt_text halt_cascade_limit = codes "cascade_limit"
halt_text halt_admin = codes "admin"

unfoldable pub halt_from_text : Text → Option HaltType
halt_from_text s =
    if same_text s (codes "circuit_breaker")
    then some halt_circuit_breaker
    else if same_text s (codes "cascade_limit")
    then some halt_cascade_limit
    else if same_text s (codes "admin")
    then some halt_admin
    else none

unfoldable pub state_text : MarketState → Text
state_text pre_open = codes "PreOpen"
state_text auction = codes "Auction"
state_text open_state = codes "Open"
state_text halted = codes "Halted"
state_text closed = codes "Closed"

pub side_from_text-side_text : (s : Side) → side_from_text (side_text s) ≡ some s
unfolding side_from_text side_text
side_from_text-side_text bid = refl
side_from_text-side_text ask = refl

pub halt_from_text-halt_text : (h : HaltType) → halt_from_text (halt_text h) ≡ some h
unfolding halt_from_text halt_text
halt_from_text-halt_text halt_circuit_breaker = refl
halt_from_text-halt_text halt_cascade_limit = refl
halt_from_text-halt_text halt_admin = refl
