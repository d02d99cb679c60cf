-- ===== src/Processor/Stops.antt =====
-- engine/processor.go: the handler of stop orders.
use clob.Base.{ℕ, Option, none, some, if◌then◌else◌, ◌>>=◌}
use clob.Base.Int.{ℤ}
use clob.Config.{MarketConfig}
use clob.Sequence.{next}
use clob.BTree.{BTree}
use clob.Book.Level.{PriceLevel}
use clob.StopBook.{StopNode, StopLevel, acquire_node, add_stop}
use clob.Events.{pool_exhausted, order_accepted}
use clob.Processor.{Processor, emit, reject_order}
use clob.Processor.Commands.{PlaceStopOrder}
use clob.Processor.Checks.{rejects, panics, is_day, check_stop_order}

unfoldable pub stop_node : MarketConfig → ℤ → ℕ → ℕ → PlaceStopOrder → StopNode
stop_node cfg now idx seq cmd = record {
  order_id = cmd.order_id;
  user_id = cmd.user_id;
  side = cmd.side;
  tif = cmd.tif;
  flags = cmd.flags;
  stp_mode = cmd.stp_mode;
  trigger_price = cmd.trigger_price;
  limit_price = cmd.limit_price;
  qty = cmd.qty;
  convert_to = cmd.convert_to;
  expire_at = if is_day cmd.tif then cfg.session_end else cmd.expire_at;
  timestamp = now;
  seq_num = seq;
  pool_index = idx;
}

module _ {T S : Type 0} ⦃bt : BTree T PriceLevel⦄ ⦃st : BTree S StopLevel⦄ where
  unfoldable pub accept_stop : ℤ → StopNode → Processor T S → Processor T S
  unfolding emit
  accept_stop now node p = emit now p (
      order_accepted (record {
        order_id = node.order_id;
        user_id = node.user_id;
        side = node.side;
        order_type = node.convert_to;
        price = node.limit_price;
        stop_price = node.trigger_price;
        orig_qty = node.qty;
        display_qty = node.qty;
        tif = node.tif;
        flags = node.flags;
        order_seq_num = node.seq_num;
      }))

  unfoldable pub process_stop_order : ℤ → PlaceStopOrder → Processor T S → Option (Processor T S)
  unfolding check_stop_order acquire_node stop_node add_stop accept_stop reject_order
  process_stop_order now cmd p = elim (check_stop_order now p cmd) [
    | some (rejects reason) ↦ some (reject_order now p cmd.order_id cmd.user_id reason)
    | some panics ↦ none
    | none ↦ elim (acquire_node p.stop_book) [
      | none ↦ some (reject_order now p cmd.order_id cmd.user_id pool_exhausted)
      | some (idx, stops) ↦
          let seq = next p.book.order_seq in
          let node = stop_node p.book.config now idx seq.n cmd in
          add_stop stops node >>= λ stops'. some (
            accept_stop now node
              (record p { stop_book = stops'; book = record (p.book) { order_seq = seq } }))
    ]
  ]
