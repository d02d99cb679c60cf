-- ===== src/Processor.antt =====
-- engine/processor.go: the owner of a market's state. A handler takes the processor and gives it back;
-- `none` is a panic, or a loop without end. What the event channel received is the list `events`.
pub mod Commands
pub mod Report
pub mod Checks
pub mod Cascade
pub mod Orders
pub mod Stops
pub mod Cancel
pub mod Session
pub mod Recovery
pub mod Seeding
pub mod Log
pub mod Cancels
pub mod Fuel
pub mod Halts
pub mod Trades
pub mod Validation
use clob.Base.{ℕ, List, [], ◌∷◌, ◌++◌, Bool, true, false, Option, none, some, if◌then◌else◌}
use clob.Base.Int.{ℤ}
use clob.Types.{Side, OrderType, Tif}
use clob.Config.{FeeSchedule, HaltType, MarketConfig}
use clob.Sequence.{Counter, next, new_counter}
use clob.Machine.{Machine, MarketState, halted, transition, new_machine}
use clob.Positions.{PositionTracker}
use clob.Book.Node.{Fill}
use clob.Book.Orders.{OrderBook}
use clob.StopBook.{StopBook}
use clob.Auction.{AuctionBook}
use clob.Circuit.{CircuitBreaker}
use clob.Fees.{FeeResult}
use clob.Events.{Event, EventBody, RejectionReason, order_rejected, market_halted}

-- hooks/preorder.go: what a hook is told of an order; it may reject it.
pub record OrderContext : Type 0 where
  pub user_id : ℕ
  pub order_id : ℕ
  pub side : Side
  pub order_type : OrderType
  pub price : ℤ
  pub qty : ℤ
  pub tif : Tif
  pub flags : ℕ

-- What the processor is given and does not implement: the fees of a fill, and the hook if there is one.
pub record Environment : Type 0 where
  pub fee_calc : FeeSchedule → Fill → Option FeeResult
  pub pre_hook : OrderContext → Option RejectionReason

-- The pool of nodes and the counter of orders are those of the book. `pre_halt_state` is `none`
-- until the market is halted for the first time.
pub record Processor (T S : Type 0) : Type 0 where
  pub book : OrderBook T
  pub stop_book : StopBook S
  pub auction_book : Option AuctionBook
  pub breaker : Option CircuitBreaker
  pub machine : Machine
  pub pre_halt_state : Option MarketState
  pub positions : PositionTracker
  pub event_seq : Counter
  pub events : List Event

module _ {T S : Type 0} where
  unfoldable pub new_processor :
      OrderBook T
      → StopBook S
      → Option AuctionBook
      → Option CircuitBreaker
      → Machine
      → Processor T S
  new_processor b sb ab breaker machine = record {
    book = b;
    stop_book = sb;
    auction_book = ab;
    breaker = breaker;
    machine = machine;
    pre_halt_state = none;
    positions = [];
    event_seq = new_counter b.config.initial_event_seq;
    events = [];
  }

  abbrev pub cfg_of : Processor T S → MarketConfig
  cfg_of p = p.book.config

  abbrev pub with_book : Processor T S → OrderBook T → Processor T S
  with_book p b = record p { book = b }

  -- `emit` of an event with the next sequence number.
  unfoldable pub emit : ℤ → Processor T S → EventBody → Processor T S
  emit now p body =
      let seq = next p.event_seq in
      record p {
        event_seq = seq;
        events =
            p.events
            ++ record {
              seq_num = seq.n;
              timestamp = now;
              market_id = p.book.config.market_id;
              body = body;
            }
              ∷ [];
      }

  unfoldable pub reject_order : ℤ → Processor T S → ℕ → ℕ → RejectionReason → Processor T S
  unfolding emit
  reject_order now p order_id user_id reason =
      emit now p
        (order_rejected (record { order_id = order_id; user_id = user_id; reason = reason }))

  -- The state before the halt is noted, also where the transition fails.
  unfoldable pub note_state : Processor T S → Processor T S
  note_state p = record p { pre_halt_state = some p.machine.state }

  unfoldable pub halt_market : ℤ → HaltType → Processor T S → Processor T S
  unfolding note_state emit
  halt_market now halt_type p = elim (transition p.machine halted) [
    | none ↦ note_state p
    | some m ↦ emit now (record (note_state p) { machine = m }) (market_halted halt_type)
  ]
