-- ===== src/Processor/Cascade.antt =====
-- engine/processor.go: stop orders that a trade fires, in a cascade of bounded depth, and the circuit
-- breaker.
use clob.Base.{
  ℕ, zero, suc, ◌+◌, List, [], ◌∷◌, Bool, true, false, Option, none, some, if◌then◌else◌, ◌>>=◌,
}
use clob.Base.Int.{ℤ, pos, pos_part}
use clob.Types.{market, limit, is_market, flag_iceberg, clear_flag}
use clob.Config.{halt_circuit_breaker, halt_cascade_limit}
use clob.Sequence.{next}
use clob.Pool.{acquire_slot}
use clob.Machine.{halted, transition}
use clob.BTree.{BTree}
use clob.Book.Node.{OrderNode}
use clob.Book.Level.{PriceLevel}
use clob.StopBook.{StopLevel, TriggeredOrder, check_triggers, cascade_limit, fired}
use clob.Circuit.{CircuitBreaker, check, set_last_halt}
use clob.Events.{pool_exhausted, order_accepted, stop_triggered, market_halted}
use clob.Processor.{Environment, Processor, emit, reject_order, note_state, halt_market}
use clob.Processor.Report.{match_and_report}

-- The node of a stop order that has fired.
unfoldable pub triggered_node : ℤ → ℕ → ℕ → TriggeredOrder → OrderNode
triggered_node now idx seq to = record {
  order_id = to.order_id;
  user_id = to.user_id;
  side = to.side;
  order_type = if is_market to.convert_to then market else limit;
  tif = to.tif;
  flags = clear_flag to.flags flag_iceberg;
  stp_mode = to.stp_mode;
  price = if is_market to.convert_to then pos 0 else to.limit_price;
  orig_qty = to.qty;
  remain_qty = to.qty;
  filled_qty = pos 0;
  display_qty = to.qty;
  hidden_qty = pos 0;
  orig_display_qty = to.qty;
  seq_num = seq;
  timestamp = now;
  expire_at = pos 0;
  pool_index = idx;
}

module _ {T S : Type 0} where
  -- `OrderAccepted` for a node; iceberg orders show a part only.
  unfoldable pub accept_node : ℤ → OrderNode → Processor T S → Processor T S
  unfolding emit
  accept_node now node p = emit now p (
      order_accepted (record {
        order_id = node.order_id;
        user_id = node.user_id;
        side = node.side;
        order_type = node.order_type;
        price = node.price;
        stop_price = pos 0;
        orig_qty = node.orig_qty;
        display_qty = node.display_qty;
        tif = node.tif;
        flags = node.flags;
        order_seq_num = node.seq_num;
      }))

  -- A slot for a node and the next order number, or `none` if the pool is exhausted.
  unfoldable pub take_node : Processor T S → Option (ℕ × ℕ × Processor T S)
  take_node p = do
    (idx, pool) ← acquire_slot p.book.node_pool
    some (
      idx,
      (next p.book.order_seq).n,
      record p { book = record (p.book) { node_pool = pool; order_seq = next p.book.order_seq } },
    )

  -- What follows the check of the circuit breaker: a halt, or nothing.
  unfoldable pub after_check : ℤ → Processor T S → Bool × CircuitBreaker → Processor T S
  unfolding emit note_state
  after_check now p (false, cb) = record p { breaker = some cb }
  after_check now p (true, cb) = elim (transition p.machine halted) [
    | none ↦ record (note_state p) { breaker = some cb }
    | some m ↦
        emit now (record (note_state p) { machine = m; breaker = some (set_last_halt cb now) })
          (market_halted halt_circuit_breaker)
  ]

  unfoldable pub check_with : ℤ → ℤ → Option CircuitBreaker → Processor T S → Option (Processor T S)
  unfolding after_check
  check_with now price none p = some p
  check_with now price (some cb) p =
      check cb (record { value = price; precision = p.book.config.price_precision }) now >>= λ r.
      some (after_check now p r)

  -- The circuit breaker after a trade, if there is one.
  unfoldable pub check_breaker : ℤ → ℤ → Processor T S → Option (Processor T S)
  unfolding check_with
  check_breaker now price p = check_with now price p.breaker p

module _ {T S : Type 0} ⦃bt : BTree T PriceLevel⦄ ⦃st : BTree S StopLevel⦄ where
  -- What `checkStopsAndBreaker` is to a trade at the next depth; nothing follows without a trade.
  abbrev pub follow :
      (ℤ → Processor T S → Option (Processor T S))
      → Option ℤ × Processor T S
      → Option (Processor T S)
  follow cascade (none, p) = some p
  follow cascade (some price, p) = cascade price p

  unfoldable pub process_triggered :
      Environment
      → ℤ
      → (ℤ → Processor T S → Option (Processor T S))
      → TriggeredOrder
      → Processor T S
      → Option (Processor T S)
  unfolding take_node triggered_node accept_node
  process_triggered env now cascade to p = elim (take_node p) [
    | none ↦ some (reject_order now p to.order_id to.user_id pool_exhausted)
    | some (idx, seq, q) ↦
        let node = triggered_node now idx seq to in
        match_and_report env now node to.qty (accept_node now node q) >>= follow cascade
  ]

  -- The orders that a trade at `price` has fired, one after the other.
  unfoldable pub process_all :
      Environment
      → ℤ
      → (ℤ → Processor T S → Option (Processor T S))
      → ℤ
      → List TriggeredOrder
      → Processor T S
      → Option (Processor T S)
  unfolding emit process_triggered
  process_all env now cascade price [] p = some p
  process_all env now cascade price (to ∷ rest) p =
      process_triggered env now cascade to (
        emit now p (
          stop_triggered (record {
            stop_order_id = to.order_id;
            user_id = to.user_id;
            trigger_price = price;
            converted_to = to.convert_to;
            converted_price = to.limit_price;
          })))
      >>= λ q. process_all env now cascade price rest q

  -- `checkStopsAndBreaker`, on fuel for the depths that are left.
  unfoldable pub check_stops : ℕ → Environment → ℤ → ℕ → ℤ → Processor T S → Option (Processor T S)
  unfolding process_all check_breaker halt_market
  check_stops zero env now depth price p = none
  check_stops (suc k) env now depth price p = check_triggers p.stop_book price depth >>= λ r.
      elim r [
        | cascade_limit ↦ some (halt_market now halt_cascade_limit p)
        | fired triggered stops ↦
            process_all env now (check_stops k env now (depth + 1)) price triggered
              (record p { stop_book = stops })
            >>= check_breaker now price
      ]

  -- One depth for each that the stop book allows, and one at which it refuses.
  abbrev pub cascade_fuel : Processor T S → ℕ
  cascade_fuel p = suc (pos_part p.stop_book.max_depth)

  -- After a match of an order that came from outside.
  unfoldable pub after_match : Environment → ℤ → Option ℤ × Processor T S → Option (Processor T S)
  unfolding check_stops
  after_match env now r = follow (check_stops (cascade_fuel r.1) env now 0) r
