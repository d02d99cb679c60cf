-- ===== src/Engine.antt =====
-- engine/engine.go: the queue of commands and the life cycle around a processor. The channel of
-- commands is a list, oldest first, and its capacity; the goroutine of the matching loop is the step
-- relation of Engine/Loop. A panic is `none`.
pub mod Options
pub mod Loop
pub mod Queue
pub mod Processing
pub mod Drain
pub mod Registry
use clob.Base.{
  ℕ, List, [], ◌∷◌, ◌++◌, Bool, true, false, Option, none, some, ltb, ◌==◌, if◌then◌else◌, length,
  ◌/◌, ◌&&◌, ◌>>=◌,
}
use clob.Base.Int.{ℤ, pos, eqb_ℤ}
use clob.Config.{MarketConfig, CircuitBreakerConfig, feature_auctions, has_feature}
use clob.Config.Validate.{validate}
use clob.Sequence.{new_counter, peek}
use clob.Pool.{Slots, new_slots, used_slots}
use clob.Machine.{MarketState, new_machine}
use clob.BTree.{BTree}
use clob.Book.Level.{PriceLevel}
use clob.Book.Tree.{DepthLevel}
use clob.Book.Orders.{OrderBook, new_order_book, snapshot, bbo, open_order_count}
use clob.StopBook.{StopLevel, StopBook, new_stop_book, stop_count}
use clob.Auction.{AuctionBook, new_auction_book}
use clob.Circuit.{CircuitBreaker, new_circuit_breaker}
use clob.Processor.{Environment, Processor, new_processor}
use clob.Processor.Commands.{Command}
use clob.Processor.Recovery.{RecoveredOrder, seed_initial_orders}
use clob.Engine.Options.{Settings, EngineOption, settings_of, environment_of, default_stop_pool}

-- The sentinels of engine.go and multiengine.go, and ErrInvalidConfig of config/market.go.
pub data EngineError : Type 0 where
  not_started already_started command_queue_full : EngineError
  invalid_config market_not_found market_already_exists : EngineError

pub data Result (A : Type 0) : Type 0 where
  ok : A → Result A
  err : EngineError → Result A

-- `quit` and `done` are channels that are only ever closed: each is noted as closed or not, as is the
-- channel of events. A timer is true until it has fired; both are false without an auction.
pub record Engine (T S : Type 0) : Type 0 where
  pub processor : Processor T S
  pub env : Environment
  pub cfg : MarketConfig
  pub commands : List Command
  pub command_capacity : ℕ
  pub open_timer : Bool
  pub clear_timer : Bool
  pub started : Bool
  pub quit_closed : Bool
  pub done_closed : Bool
  pub events_closed : Bool
  pub initial_orders : List RecoveredOrder

pub record EngineStats : Type 0 where
  pub market_id : ℕ
  pub state : MarketState
  pub order_seq : ℕ
  pub event_seq : ℕ
  pub node_pool_used : ℕ
  pub node_pool_capacity : ℕ
  pub level_pool_used : ℕ
  pub level_pool_capacity : ℕ
  pub open_orders : ℕ
  pub stop_orders : ℕ
  pub bid_levels : ℕ
  pub ask_levels : ℕ

abbrev is_set : {A : Type 0} → Option A → Bool
is_set none = false
is_set (some _) = true

abbrev breaker_of : Option CircuitBreakerConfig → Option CircuitBreaker
breaker_of none = none
breaker_of (some c) = some (new_circuit_breaker c)

-- An auction book needs the feature and the section on auctions.
abbrev pub auction_book_of : MarketConfig → Option AuctionBook
auction_book_of cfg =
    if has_feature cfg feature_auctions
    then elim cfg.auction_reference [ none ↦ none | some _ ↦ some new_auction_book ]
    else none

abbrev cascade_depth : MarketConfig → ℤ
cascade_depth cfg = if eqb_ℤ cfg.max_cascade_depth (pos 0) then pos 10 else cfg.max_cascade_depth

-- The test of `run` that arms the timers of an auction.
abbrev pub has_auction : {T S : Type 0} → Processor T S → Bool
has_auction p = is_set p.auction_book && is_set p.book.config.auction_reference

module _ {T S : Type 0} ⦃bt : BTree T PriceLevel⦄ ⦃st : BTree S StopLevel⦄ where
  -- What `New` makes of a configuration that Validate has accepted, and completed.
  unfoldable pub assemble : MarketConfig → Settings → Engine T S
  unfolding new_order_book new_stop_book new_processor
  assemble cfg o = record {
    processor =
        new_processor
          (new_order_book cfg (new_slots o.node_pool) (new_slots o.level_pool)
            (new_counter cfg.initial_order_seq))
          (new_stop_book (new_slots default_stop_pool) (new_slots (default_stop_pool / 10))
            (cascade_depth cfg))
          (auction_book_of cfg) (breaker_of cfg.circuit_breaker) new_machine;
    env = environment_of cfg o;
    cfg = cfg;
    commands = [];
    command_capacity = o.cmd_buffer;
    open_timer = false;
    clear_timer = false;
    started = false;
    quit_closed = false;
    done_closed = false;
    events_closed = false;
    initial_orders = o.initial_orders;
  }

  unfoldable pub new_engine : MarketConfig → List EngineOption → Option (Result (Engine T S))
  unfolding assemble
  new_engine cfg opts = validate cfg >>= λ v. elim v [
    | none ↦ some (err invalid_config)
    | some valid ↦ some (ok (assemble valid (settings_of opts)))
  ]

  -- The time is that of `time.Now` in seedInitialOrders.
  unfoldable pub start : ℤ → Engine T S → Option (Result (Engine T S))
  start now e =
      if e.started
      then some (err already_started)
      else (seed_initial_orders now e.initial_orders e.processor >>= λ p. some (
          ok (record e {
            started = true;
            processor = p;
            open_timer = has_auction p;
            clear_timer = has_auction p;
          })))

module _ {T S : Type 0} where
  -- A send that does not block: it needs room in the channel.
  unfoldable pub submit : Command → Engine T S → Result (Engine T S)
  submit c e =
      if e.started
      then (if ltb (length e.commands) e.command_capacity
          then ok (record e { commands = e.commands ++ c ∷ [] })
          else err command_queue_full)
      else err not_started

  -- `Close` up to its wait for the loop. Closing `quit` for the second time panics.
  unfoldable pub begin_close : Engine T S → Option (Result (Engine T S))
  begin_close e =
      if e.started
      then (if e.quit_closed then none else some (ok (record e { quit_closed = true })))
      else some (err not_started)

  -- The rest of `Close`, once the loop has closed `done`; the wait for it may last forever, which is
  -- `none` here as a second close of the channel of events is.
  unfoldable pub end_close : Engine T S → Option (Engine T S)
  end_close e =
      if e.done_closed
      then (if e.events_closed then none else some (record e { events_closed = true }))
      else none

module _ {T S : Type 0} ⦃bt : BTree T PriceLevel⦄ where
  -- Bids and asks of the event; its header carries the number 0.
  unfoldable pub engine_snapshot : ℕ → Engine T S → List DepthLevel × List DepthLevel
  engine_snapshot levels e = snapshot e.processor.book levels

  unfoldable pub engine_bbo : Engine T S → Option ℤ × Option ℤ
  engine_bbo e = bbo e.processor.book

  unfoldable pub stats : Engine T S → EngineStats
  unfolding peek used_slots
  stats e = record {
    market_id = e.cfg.market_id;
    state = e.processor.machine.state;
    order_seq = peek e.processor.book.order_seq;
    event_seq = peek e.processor.event_seq;
    node_pool_used = used_slots e.processor.book.node_pool;
    node_pool_capacity = e.processor.book.node_pool.capacity;
    level_pool_used = used_slots e.processor.book.level_pool;
    level_pool_capacity = e.processor.book.level_pool.capacity;
    open_orders = open_order_count e.processor.book;
    stop_orders = stop_count e.processor.stop_book;
    bid_levels = e.processor.book.bids.count;
    ask_levels = e.processor.book.asks.count;
  }
