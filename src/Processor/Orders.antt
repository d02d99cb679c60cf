-- ===== src/Processor/Orders.antt =====
-- engine/processor.go: the handlers of limit and market commands. `now` is the time that a handler reads.
use clob.Base.{ℕ, [], Bool, true, false, Option, none, some, if◌then◌else◌, ◌>>=◌}
use clob.Base.Int.{ℤ, pos, sub64}
use clob.Types.{limit, market, flag_iceberg, has_flag}
use clob.Config.{MarketConfig}
use clob.Sequence.{next}
use clob.Machine.{MarketState, pre_open, halted}
use clob.BTree.{BTree}
use clob.Book.Node.{OrderNode, rested, canceled}
use clob.Book.Level.{PriceLevel}
use clob.Book.Orders.{release_node, place_resting}
use clob.StopBook.{StopLevel}
use clob.Auction.{AuctionBook, add_order}
use clob.Events.{max_depth, pool_exhausted, order_accepted}
use clob.Processor.{Environment, Processor, emit, reject_order}
use clob.Processor.Commands.{PlaceLimitOrder, PlaceMarketOrder}
use clob.Processor.Report.{match_and_report, report_disposition}
use clob.Processor.Checks.{
  rejects, panics, in_auction, is_day, check_limit_order, check_market_order, apply_max_depth,
  check_placement,
}
use clob.Processor.Cascade.{accept_node, take_node, after_match}

-- The node of a limit order: an iceberg shows its display quantity, and hides the rest.
unfoldable pub limit_node : MarketConfig → ℤ → ℕ → ℕ → PlaceLimitOrder → OrderNode
limit_node cfg now idx seq cmd =
    let iceberg = has_flag cmd.flags flag_iceberg in
    record {
      order_id = cmd.order_id;
      user_id = cmd.user_id;
      side = cmd.side;
      order_type = limit;
      tif = cmd.tif;
      flags = cmd.flags;
      stp_mode = cmd.stp_mode;
      price = cmd.price;
      orig_qty = cmd.qty;
      remain_qty = if iceberg then cmd.display_qty else cmd.qty;
      filled_qty = pos 0;
      display_qty = if iceberg then cmd.display_qty else cmd.qty;
      hidden_qty = if iceberg then sub64 cmd.qty cmd.display_qty else pos 0;
      orig_display_qty = if iceberg then cmd.display_qty else cmd.qty;
      seq_num = seq;
      timestamp = now;
      expire_at = if is_day cmd.tif then cfg.session_end else cmd.expire_at;
      pool_index = idx;
    }

unfoldable pub market_node : ℤ → ℕ → ℕ → PlaceMarketOrder → OrderNode
market_node now idx seq cmd = record {
  order_id = cmd.order_id;
  user_id = cmd.user_id;
  side = cmd.side;
  order_type = market;
  tif = cmd.tif;
  flags = cmd.flags;
  stp_mode = cmd.stp_mode;
  price = pos 0;
  orig_qty = cmd.qty;
  remain_qty = cmd.qty;
  filled_qty = pos 0;
  display_qty = cmd.qty;
  hidden_qty = pos 0;
  orig_display_qty = cmd.qty;
  seq_num = seq;
  timestamp = now;
  expire_at = pos 0;
  pool_index = idx;
}

-- Where orders queue until the market opens.
abbrev pub only_queues : MarketState → Bool
only_queues halted = true
only_queues pre_open = true
only_queues _ = false

module _ {T S : Type 0} where
  -- A limit order in an auction goes into the auction's book.
  unfoldable pub enter_auction : ℤ → PlaceLimitOrder → AuctionBook → Processor T S → Processor T S
  unfolding emit add_order
  enter_auction now cmd a p =
      let seq = next p.book.order_seq in
      let accepted =
        emit now (record p { book = record (p.book) { order_seq = seq } })
          (order_accepted (record {
            order_id = cmd.order_id;
            user_id = cmd.user_id;
            side = cmd.side;
            order_type = limit;
            price = cmd.price;
            stop_price = pos 0;
            orig_qty = cmd.qty;
            display_qty = cmd.qty;
            tif = cmd.tif;
            flags = cmd.flags;
            order_seq_num = seq.n;
          })) in
      record accepted {
        auction_book = some (
            add_order a (record {
              order_id = cmd.order_id;
              user_id = cmd.user_id;
              side = cmd.side;
              price = cmd.price;
              qty = cmd.qty;
              tif = cmd.tif;
              seq_num = seq.n;
            }));
      }

  abbrev pub auction_in_progress : Processor T S → Option AuctionBook
  auction_in_progress p = if in_auction p.machine.state then p.auction_book else none

module _ {T S : Type 0} ⦃bt : BTree T PriceLevel⦄ where
  -- A node that rests without a match; the error of an exhausted level pool is defensive.
  unfoldable pub queue_node : ℤ → OrderNode → Processor T S → Processor T S
  unfolding place_resting report_disposition
  queue_node now node p = elim (place_resting p.book node) [
    | none ↦
        report_disposition now node node.orig_qty [] canceled
          (record p { book = release_node p.book node })
    | some b ↦ report_disposition now node node.orig_qty [] rested (record p { book = b })
  ]

module _ {T S : Type 0} ⦃bt : BTree T PriceLevel⦄ ⦃st : BTree S StopLevel⦄ where
  -- A node that was accepted: it rests where the market only queues, or is matched.
  unfoldable pub run_limit_node :
      Environment → ℤ → OrderNode → Processor T S → Option (Processor T S)
  unfolding queue_node match_and_report after_match
  run_limit_node env now node p =
      if only_queues p.machine.state
      then some (queue_node now node p)
      else match_and_report env now node node.orig_qty p >>= after_match env now

  unfoldable pub place_limit_node :
      Environment → ℤ → PlaceLimitOrder → Processor T S → Option (Processor T S)
  unfolding take_node limit_node accept_node run_limit_node
  place_limit_node env now cmd p = elim (take_node p) [
    | none ↦ some (reject_order now p cmd.order_id cmd.user_id pool_exhausted)
    | some (idx, seq, q) ↦
        let node = limit_node p.book.config now idx seq cmd in
        run_limit_node env now node (accept_node now node q)
  ]

  -- A limit order that has passed the validation and the limit on depth.
  unfoldable pub route_limit_order :
      Environment → ℤ → PlaceLimitOrder → Processor T S → Option (Processor T S)
  unfolding check_placement enter_auction place_limit_node
  route_limit_order env now cmd p = elim (check_placement env p cmd) [
    | some (rejects reason) ↦ some (reject_order now p cmd.order_id cmd.user_id reason)
    | some panics ↦ none
    | none ↦ elim (auction_in_progress p) [
      | some a ↦ some (enter_auction now cmd a p)
      | none ↦ place_limit_node env now cmd p
    ]
  ]

  unfoldable pub process_limit_order :
      Environment → ℤ → PlaceLimitOrder → Processor T S → Option (Processor T S)
  unfolding check_limit_order apply_max_depth route_limit_order reject_order
  process_limit_order env now cmd p = elim (check_limit_order now p cmd) [
    | some (rejects reason) ↦ some (reject_order now p cmd.order_id cmd.user_id reason)
    | some panics ↦ none
    | none ↦ elim (apply_max_depth p cmd) [
      | none ↦ some (reject_order now p cmd.order_id cmd.user_id max_depth)
      | some cmd' ↦ route_limit_order env now cmd' p
    ]
  ]

  unfoldable pub process_market_order :
      Environment → ℤ → PlaceMarketOrder → Processor T S → Option (Processor T S)
  unfolding check_market_order take_node market_node accept_node match_and_report after_match
      reject_order
  process_market_order env now cmd p = elim (check_market_order p cmd) [
    | some (rejects reason) ↦ some (reject_order now p cmd.order_id cmd.user_id reason)
    | some panics ↦ none
    | none ↦ elim (take_node p) [
      | none ↦ some (reject_order now p cmd.order_id cmd.user_id pool_exhausted)
      | some (idx, seq, q) ↦
          let node = market_node now idx seq cmd in
          match_and_report env now node cmd.qty (accept_node now node q) >>= after_match env now
    ]
  ]
