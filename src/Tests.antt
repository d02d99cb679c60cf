-- ===== src/Tests.antt =====
-- Data for the runs of the properties: a B-tree as an ordered list, and a book with two asks.
pub mod Engines
pub mod Texts
pub mod Orders
pub mod Parts
pub mod Processor
pub mod Reports
pub mod Settings
use clob.Base.{
  ℕ, ◌+◌, suc, ◌*◌, ◌/◌, ◌^◌, ◌≤◌, ◌<◌, ◌≡◌, refl, ◌↔◌, ◌⊎◌, inl, inr, List, [], ◌∷◌, Bool, true,
  false, arith, All, Option, none, some, if◌then◌else◌, ◌>>=◌, head?, ◌==◌,
}
use clob.Base.Int.{min_ℤ, ℤ, pos, ◌≤ℤ◌, signed}
use clob.Types.{Side, bid, ask, gtc, limit, disabled, cancel_maker}
use clob.Types.Decimal.{Decimal, add, sub, mul_qty, is_valid_tick}
use clob.Types.Decimal.Laws.{mul_qty_exact, is_valid_tick_iff, mul_qty_panics_iff}
use clob.Config.{MarketConfig, flat, reject_order}
use clob.Sequence.{new_counter, advance}
use clob.Pool.{Pool, acquire, release, Slots, acquire_slot, release_slot}
use clob.Pool.Refinement.{slots, seen, acquire-slots, release-slots}
use clob.Machine.{
  MarketState, Machine, pre_open, auction, open_state, halted, closed, transition, can_match,
}
use clob.Machine.Lifecycle.{Run, stay, move, visited, reopening, auction_after_open}
use clob.BTree.{BTree, BTreeLaws, ordered_set, ordered_delete, ordered_get, IsOrder}
use clob.Auction.{AuctionOrder, AuctionBook, Swept, sweep}
use clob.Auction.Sweep.{IsAt, order_sum, eligible_bids, eligible_asks, sweep-volume}
use clob.Book.Node.{OrderNode, rejected}
use clob.Book.Level.{PriceLevel, append, unlink, decrement_qty, replenish_iceberg}
use clob.Book.Level.Laws.{
  IsLevel, append-IsLevel, unlink-IsLevel, decrement_qty-IsLevel, replenish_iceberg-IsLevel,
}
use clob.Book.Tree.{PriceLevelTree, side_less}
use clob.Book.Tree.Laws.{side_less-IsOrder}
use clob.Book.Index
use clob.Book.Index.{NodeRef}
use clob.Book.Match.Invariant.{IsFair, accepts, qty_sum}
use clob.Book.Orders.{OrderBook, Outcome, match}
use clob.Book.Orders.Placement.{IsReady, match_returns, match_uncrossed}

abbrev pub ListTreeOf : Type 0 → Type 0
ListTreeOf A = (A → A → Bool) × List A

abbrev pub ListTree : Type 0
ListTree = ListTreeOf PriceLevel

instance abbrev pub list_btree : {A : Type 0} → BTree (ListTreeOf A) A
list_btree = record {
  new = λ f. (f, []);
  less = λ t. t.0;
  set = λ t a. (t.0, ordered_set t.0 a t.1);
  delete = λ t a. (t.0, ordered_delete t.0 a t.1);
  get = λ t a. ordered_get t.0 a t.1;
  min = λ t. head? t.1;
  items = λ t. t.1;
}

pub list_laws : {A : Type 0} → BTreeLaws (list_btree {A = A})
list_laws = record {
  less-new = λ f. refl;
  less-set = λ t a. refl;
  less-delete = λ t a. refl;
  items-new = λ f h. refl;
  items-set = λ t a h. refl;
  items-delete = λ t a h. refl;
  get-items = λ t a h. refl;
  min-items = λ t h. refl;
}

abbrev pub rate : Decimal
rate = record { value = pos 0; precision = 8 }

abbrev pub market : MarketConfig
market = record {
  market_id = 1;
  price_precision = 2;
  qty_precision = 2;
  tick_size = record { value = pos 1; precision = 2 };
  lot_size = record { value = pos 1; precision = 2 };
  min_order_qty = record { value = pos 1; precision = 2 };
  max_order_qty = record { value = pos 100000; precision = 2 };
  max_order_value = record { value = pos 0; precision = 2 };
  max_depth = 0;
  max_depth_mode = reject_order;
  features = 0;
  stp_mode = cancel_maker;
  fee_schedule = record {
    maker_fee_rate = rate;
    taker_fee_rate = rate;
    fee_model = flat;
    tiers = [];
  };
  circuit_breaker = none;
  auction_reference = none;
  max_cascade_depth = pos 10;
  session_end = pos 0;
  initial_order_seq = 1;
  initial_event_seq = 1;
}

abbrev pub order : ℕ → ℕ → ℤ → ℤ → OrderNode
order id user price qty = record {
  order_id = id;
  user_id = user;
  side = ask;
  order_type = limit;
  tif = gtc;
  flags = 0;
  stp_mode = disabled;
  price = price;
  orig_qty = qty;
  remain_qty = qty;
  filled_qty = pos 0;
  display_qty = qty;
  hidden_qty = pos 0;
  orig_display_qty = pos 0;
  seq_num = id;
  timestamp = pos 0;
  expire_at = pos 0;
  pool_index = id;
}

-- An iceberg: 5 of 12 are shown.
abbrev pub iceberg_order : OrderNode
iceberg_order = record (order 2 8 (pos 101) (pos 5)) {
  hidden_qty = pos 7;
  orig_display_qty = pos 5;
}

abbrev pub first_level : PriceLevel
first_level = record {
  price = pos 100;
  total_qty = pos 5;
  display_qty = pos 5;
  order_count = 1;
  queue = order 1 7 (pos 100) (pos 5) ∷ [];
  pool_index = 0;
}

abbrev pub second_level : PriceLevel
second_level = record {
  price = pos 101;
  total_qty = pos 5;
  display_qty = pos 5;
  order_count = 1;
  queue = iceberg_order ∷ [];
  pool_index = 1;
}

abbrev pub free : Slots
free = record { free_slots = 3 ∷ 4 ∷ []; capacity = 5 }

abbrev pub book : OrderBook ListTree
book = record {
  bids = record { tree = (side_less bid, []); side = bid; count = 0 };
  asks = record { tree = (side_less ask, first_level ∷ second_level ∷ []); side = ask; count = 2 };
  index =
      (1, record { side = ask; price = pos 100 })
      ∷ (2, record { side = ask; price = pos 101 })
      ∷ [];
  node_pool = free;
  level_pool = free;
  config = market;
  order_seq = record { n = 2 };
}

-- It fills the first level and rests.
abbrev pub taker : OrderNode
taker = record (order 3 9 (pos 100) (pos 8)) { side = bid }
