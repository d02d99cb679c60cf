-- ===== src/Tests/Processor.antt =====
-- Runs of the properties of engine/processor.go and stopbook/ at concrete inputs.
use clob.Base.{
  ℕ, ◌≡◌, refl, ◌++◌, List, [], ◌∷◌, Bool, true, false, Option, none, some, arith, get_elem?,
  length,
}
use clob.Base.Int.{ℤ, pos}
use clob.Types.Decimal.{Decimal}
use clob.Types.{Side, bid, ask, gtc, limit, market as at_market, disabled}
use clob.Machine.{MarketState, Machine, pre_open, open_state, halted, new_machine}
use clob.BTree.Laws.{IsSorted}
use clob.Pool.{Slots}
use clob.Events.{Event, market_resumed}
use clob.StopBook.{StopNode, StopLevel, StopBook, stop_less, TriggeredOrder, check_triggers, fired}
use clob.StopBook.Triggers.{
  stop_less-IsOrder, orders_due, levels_kept, triggered_by, without, check_triggers_fires,
}
use clob.Processor.{Environment, Processor, new_processor}
use clob.Processor.Commands.{PlaceLimitOrder, place_limit_order, admin_resume_market}
use clob.Processor.Session.{dispatch, command, Runs, idle, turn}
use clob.Processor.Log.{Extends}
use clob.Processor.Log.Numbering.{log_is_gapless}
use clob.Processor.Log.Unopened.{NoTrade, unopened_markets_trade_nothing}
use clob.Tests.{ListTree, ListTreeOf, list_btree, list_laws, book}

abbrev pub StopTree : Type 0
StopTree = ListTreeOf StopLevel

abbrev slots : Slots
slots = record { free_slots = 3 ∷ 4 ∷ []; capacity = 5 }

abbrev stop : ℕ → Side → ℤ → StopNode
stop id side trigger = record {
  order_id = id;
  user_id = id;
  side = side;
  tif = gtc;
  flags = 0;
  stp_mode = disabled;
  trigger_price = trigger;
  limit_price = pos 0;
  qty = pos 2;
  convert_to = at_market;
  expire_at = pos 0;
  timestamp = pos 0;
  seq_num = id;
  pool_index = id;
}

abbrev stop_level : ℤ → List StopNode → StopLevel
stop_level price queue = record {
  price = price;
  queue = queue;
  order_count = length queue;
  pool_index = 0;
}

-- Sells at 99 and 95, a buy at 103.
abbrev stops : StopBook StopTree
stops = record {
  stop_sells = (
    stop_less ask,
    stop_level (pos 99) (stop 11 ask (pos 99) ∷ stop 12 ask (pos 99) ∷ [])
        ∷ stop_level (pos 95) (stop 13 ask (pos 95) ∷ [])
        ∷ [],
  );
  stop_buys = (stop_less bid, stop_level (pos 103) (stop 14 bid (pos 103) ∷ []) ∷ []);
  index =
      (11, record { side = ask; price = pos 99 })
      ∷ (12, record { side = ask; price = pos 99 })
      ∷ (13, record { side = ask; price = pos 95 })
      ∷ (14, record { side = bid; price = pos 103 })
      ∷ [];
  node_pool = slots;
  level_pool = slots;
  max_depth = pos 10;
}

sells-IsSorted : IsSorted list_btree (stop_less ask) stops.stop_sells
unfolding stop_less
sells-IsSorted = record { order = stop_less-IsOrder ask; compares = refl; ascending = (refl, tt) }

buys-IsSorted : IsSorted list_btree (stop_less bid) stops.stop_buys
buys-IsSorted = record { order = stop_less-IsOrder bid; compares = refl; ascending = tt }

check_triggers_fires_example :
    (ts : List TriggeredOrder) × (s' : StopBook StopTree) × (check_triggers stops (pos 98) 0
      ≡ some (fired ts s'))
    × (ts
        ≡ triggered_by
            (orders_due ask (pos 98) stops.stop_sells ++ orders_due bid (pos 98) stops.stop_buys))
    × (s'.stop_sells.1 ≡ levels_kept ask (pos 98) stops.stop_sells)
    × (s'.stop_buys.1 ≡ levels_kept bid (pos 98) stops.stop_buys)
    × IsSorted list_btree (stop_less ask) s'.stop_sells
    × IsSorted list_btree (stop_less bid) s'.stop_buys
    × (s'.index
        ≡ without stops.index
            (orders_due ask (pos 98) stops.stop_sells ++ orders_due bid (pos 98) stops.stop_buys))
check_triggers_fires_example =
    check_triggers_fires list_laws stops (pos 98) 0 sells-IsSorted buys-IsSorted (omega arith)

abbrev nothing : Decimal
nothing = record { value = pos 0; precision = 2 }

abbrev pub env : Environment
env = record {
  fee_calc = λ s f. some (record { maker_fee = nothing; taker_fee = nothing });
  pre_hook = λ o. none;
}

-- A new market with a book that was filled before.
abbrev pub start : Processor ListTree StopTree
start = new_processor book stops none none new_machine

abbrev pub limit_order : PlaceLimitOrder
limit_order = record {
  order_id = 20;
  user_id = 5;
  side = bid;
  price = pos 100;
  qty = pos 3;
  display_qty = pos 0;
  tif = gtc;
  flags = 0;
  expire_at = pos 0;
  stp_mode = disabled;
}

abbrev ended : Option (Processor ListTree StopTree) → Processor ListTree StopTree
ended (some q) = q
ended none = start

unfoldable queued : Processor ListTree StopTree
unfolding dispatch new_processor
queued = ended (dispatch env (pos 1) (place_limit_order limit_order) start)

queued_after : dispatch env (pos 1) (place_limit_order limit_order) start ≡ some queued
unfolding queued clob.Machine.can_accept_limit_order new_machine clob.Types.has_flag
    clob.Book.Orders.has_order clob.Book.Index.has clob.StopBook.has_stop clob.Base.Int.rem64
    clob.Base.Int.int64 clob.Types.can_rest clob.Book.Orders.level_pool_full clob.Pool.is_full
queued_after = refl

unopened_markets_trade_nothing_example : Extends NoTrade start queued
unfolding new_processor new_machine
unopened_markets_trade_nothing_example =
    unopened_markets_trade_nothing env (pos 1) (place_limit_order limit_order) start queued refl
      queued_after

-- The market opens.
unfoldable opened : Processor ListTree StopTree
unfolding dispatch queued
opened = ended (dispatch env (pos 2) admin_resume_market queued)

opened_after : dispatch env (pos 2) admin_resume_market queued ≡ some opened
unfolding opened
opened_after = refl

session : Runs env start opened
session =
    turn (turn idle (command (pos 1) (place_limit_order limit_order) queued queued_after))
      (command (pos 2) admin_resume_market opened opened_after)

abbrev resumed : Event
resumed = record { seq_num = 4; timestamp = pos 2; market_id = 1; body = market_resumed }

resumed_at : get_elem? opened.events 3 ≡ some resumed
unfolding opened clob.Machine.can_accept_limit_order new_machine clob.Types.has_flag
    clob.Book.Orders.has_order clob.Book.Index.has clob.StopBook.has_stop clob.Base.Int.rem64
    clob.Base.Int.int64 clob.Types.can_rest clob.Book.Orders.level_pool_full clob.Pool.is_full
    clob.Sequence.next clob.Sequence.new_counter
resumed_at = refl

log_is_gapless_example : resumed.seq_num ≡ 4
log_is_gapless_example =
    log_is_gapless env book stops none none new_machine opened 3 resumed session resumed_at
      (omega arith) (omega arith)
