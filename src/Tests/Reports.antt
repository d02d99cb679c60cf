-- ===== src/Tests/Reports.antt =====
-- Runs of the properties of engine/, positions and fees at concrete inputs.
use clob.Base.{
  ℕ, ◌+◌, ◌≡◌, ◌↔◌, ◌⊎◌, inl, inr, refl, ◌++◌, List, [], ◌∷◌, Option, none, some, arith, false,
}
use clob.Base.Int.{ℤ, pos, int64}
use clob.Types.{Side, bid, ask, gtc, disabled}
use clob.Types.Decimal.{Decimal}
use clob.Config.{FeeSchedule, FeeTier, halt_admin}
use clob.Machine.{auction, halted, open_state}
use clob.Book.Node.{Fill}
use clob.Book.Orders.{Outcome, match}
use clob.Positions.{get, apply_fills}
use clob.Positions.Net.{net, position_is_net}
use clob.Fees.{tiered_fees, flat_rate_fees, find_tier}
use clob.Fees.Agreement.{in_force, tiered-flat}
use clob.Events.{market_halted, market_resumed}
use clob.Types.{OrderType, limit, stop}
use clob.Processor.Recovery.{RecoveredOrder, seed_initial_orders}
use clob.Processor.Seeding.{IsQuiet, seed_initial_orders-IsQuiet}
use clob.Processor.Commands.{CancelOrder}
use clob.Processor.Cancel.{process_cancel_order}
use clob.Processor.Cancels.{CancelsOwn, users_cancel_their_own}
use clob.Auction.{AuctionOrder, AuctionBook}
use clob.Processor.{Processor, emit}
use clob.Processor.Checks.{validate_limit_order}
use clob.Processor.Report.{match_and_report}
use clob.Processor.Cascade.{check_stops, cascade_fuel}
use clob.Processor.Session.{process_admin_halt, process_admin_resume}
use clob.Processor.Fuel.{cascade_fuel_suffices}
use clob.Processor.Halts.{resume_undoes_halt, second_halt_forgets_auction}
use clob.Processor.Trades.{deals, executions, last_price, reports_what_was_matched}
use clob.Processor.Validation.{IsValid, validate_limit_order_iff}
use clob.Tests.{ListTree, list_btree, market, taker}
use clob.Tests.Processor.{StopTree, env, start, limit_order}

abbrev opened_market : Processor ListTree StopTree
opened_market = record start { machine = record { state = open_state } }

abbrev auction_market : Processor ListTree StopTree
auction_market = record start { machine = record { state = auction } }

abbrev auction_order : ℕ → Side → ℤ → AuctionOrder
auction_order id side price = record {
  order_id = id;
  user_id = id;
  side = side;
  price = price;
  qty = pos 5;
  tif = gtc;
  seq_num = id;
}

cascade_fuel_suffices_example :
    check_stops (cascade_fuel opened_market + 5) env (pos 1) 0 (pos 98) opened_market
    ≡ check_stops (cascade_fuel opened_market) env (pos 1) 0 (pos 98) opened_market
cascade_fuel_suffices_example = cascade_fuel_suffices 5 env (pos 1) (pos 98) opened_market

resume_undoes_halt_example :
    process_admin_resume (pos 2) (process_admin_halt (pos 1) auction_market)
    ≡ emit
        (pos 2)
        (record (emit
          (pos 1)
          (record auction_market { pre_halt_state = some auction })
          (market_halted halt_admin)) { machine = record { state = auction } })
        market_resumed
resume_undoes_halt_example = resume_undoes_halt (pos 1) (pos 2) auction_market (inr refl)

-- An auction in which two orders wait.
abbrev waiting_auction : AuctionBook
waiting_auction = record {
  bids = auction_order 31 bid (pos 101) ∷ [];
  asks = auction_order 32 ask (pos 99) ∷ [];
}

second_halt_forgets_auction_example :
    let p : Processor ListTree StopTree = record auction_market {
      auction_book = some waiting_auction;
    } in
    let twice =
      process_admin_resume (pos 3) (process_admin_halt (pos 2) (process_admin_halt (pos 1) p)) in
    ((process_admin_resume (pos 2) (process_admin_halt (pos 1) p)).machine.state ≡ auction)
    × (twice
        ≡ emit
            (pos 3)
            (record (emit
              (pos 1)
              (record p { pre_halt_state = some halted })
              (market_halted halt_admin)) { machine = record { state = open_state } })
            market_resumed)
    × (twice.auction_book ≡ some waiting_auction)
second_halt_forgets_auction_example =
    second_halt_forgets_auction (pos 1) (pos 2) (pos 3)
      (record auction_market { auction_book = some waiting_auction }) waiting_auction refl refl

validate_limit_order_iff_example :
    (validate_limit_order market (pos 1) limit_order ≡ none) ↔ IsValid market (pos 1) limit_order
validate_limit_order_iff_example = validate_limit_order_iff market (pos 1) limit_order

unfoldable reported : Option ℤ × Processor ListTree StopTree
unfolding match_and_report
reported = elim (match_and_report env (pos 1) taker (pos 8) opened_market) [
  | some r ↦ r
  | none ↦ (none, opened_market)
]

reported_after : match_and_report env (pos 1) taker (pos 8) opened_market ≡ some reported
unfolding reported match clob.Book.Tree.best clob.Processor.new_processor
    clob.Book.Match.sweep_level clob.Book.Match.visit clob.Book.Level.decremented
    clob.Base.Int.sub64 int64 clob.Base.Int.◌-ℤ◌ clob.Book.Level.unlink
    clob.Book.Level.decrement_qty clob.Book.Match.leave clob.Book.Tree.side_less
    clob.Pool.release_slot
reported_after = refl

reports_what_was_matched_example :
    (o : Outcome ListTree) × (match opened_market.book taker ≡ some o)
    × (reported.1.book ≡ o.book)
    × (reported.1.positions ≡ apply_fills [] o.fills)
    × (executions reported.1.events ≡ deals o.fills)
    × (reported.0 ≡ last_price none o.fills)
unfolding clob.Processor.new_processor executions
reports_what_was_matched_example =
    reports_what_was_matched env (pos 1) taker (pos 8) opened_market (reported.1) (reported.0)
      reported_after

abbrev fill : Fill
fill = record {
  maker_order_id = 1;
  taker_order_id = 2;
  maker_user_id = 7;
  taker_user_id = 9;
  maker_side = ask;
  price = pos 100;
  qty = pos 5;
  maker_remain_qty = pos 0;
  taker_remain_qty = pos 3;
  maker_seq_num = 1;
  taker_seq_num = 2;
  timestamp = pos 0;
  maker_level_total_qty = pos 0;
  maker_level_display_qty = pos 0;
  maker_level_order_count = 0;
  maker_level_exists = false;
}

position_is_net_example :
    get (apply_fills [] (fill ∷ fill ∷ [])) 7 ≡ int64 (net 7 (fill ∷ fill ∷ []))
position_is_net_example = position_is_net 7 (fill ∷ fill ∷ [])

abbrev decimal : ℕ → ℤ → Decimal
decimal p v = record { value = v; precision = p }

-- Fees fall once a volume of 100 is reached.
abbrev tier : FeeTier
tier = record {
  min_volume = decimal 2 (pos 10000);
  maker_fee_rate = decimal 4 (pos 5);
  taker_fee_rate = decimal 4 (pos 10);
}

abbrev schedule : FeeSchedule
schedule = record (market.fee_schedule) { tiers = tier ∷ [] }

tiered-flat_example :
    tiered_fees schedule
      (decimal 2 (pos 20000))
      (decimal 2 (pos 50))
      (decimal 2 (pos 150))
      (decimal 3 (pos 2500))
    ≡ flat_rate_fees
        (in_force schedule (some tier) none)
        (decimal 2 (pos 150))
        (decimal 3 (pos 2500))
unfolding find_tier clob.Types.Decimal.greater_than_or_equal
tiered-flat_example =
    tiered-flat schedule (some tier) none (decimal 2 (pos 20000)) (decimal 2 (pos 50))
      (decimal 2 (pos 150)) (decimal 3 (pos 2500)) refl refl (omega arith) (omega arith)

-- User 7 cancels its own order.
abbrev cancel_command : CancelOrder
cancel_command = record { order_id = 1; user_id = 7 }

unfoldable after_cancellation : Processor ListTree StopTree
unfolding process_cancel_order
after_cancellation = elim (process_cancel_order (pos 1) cancel_command opened_market) [
  | some q ↦ q
  | none ↦ opened_market
]

cancellation : process_cancel_order (pos 1) cancel_command opened_market ≡ some after_cancellation
unfolding after_cancellation clob.Book.Index.lookup clob.Processor.new_processor
    clob.Book.Tree.side_less
cancellation = refl

users_cancel_their_own_example :
    CancelsOwn cancel_command (pos 1) opened_market (some after_cancellation)
users_cancel_their_own_example =
    users_cancel_their_own (pos 1) cancel_command opened_market after_cancellation cancellation

-- A resting bid and a stop sell.
abbrev recovered : ℕ → OrderType → Side → RecoveredOrder
recovered id type side = record {
  order_id = id;
  user_id = 5;
  side = side;
  order_type = type;
  price = pos 90;
  stop_price = pos 85;
  remain_qty = pos 4;
  display_qty = pos 0;
  tif = gtc;
  flags = 0;
  expire_at = pos 0;
}

abbrev snapshot : List RecoveredOrder
snapshot = recovered 30 limit bid ∷ recovered 31 stop ask ∷ []

unfoldable seeded : Processor ListTree StopTree
unfolding seed_initial_orders
seeded = elim (seed_initial_orders (pos 1) snapshot start) [ some q ↦ q | none ↦ start ]

seeded_after : seed_initial_orders (pos 1) snapshot start ≡ some seeded
unfolding seeded clob.Processor.new_processor clob.StopBook.stop_less
seeded_after = refl

seed_initial_orders-IsQuiet_example : IsQuiet start seeded
seed_initial_orders-IsQuiet_example =
    seed_initial_orders-IsQuiet (pos 1) snapshot start seeded seeded_after
