-- ===== src/Processor/Cancel.antt =====
-- engine/processor.go: the handler of cancel commands, in the order book and then in the stop book.
use clob.Base.{Option, none, some, if◌then◌else◌}
use clob.Base.Int.{ℤ, pos, add64}
use clob.Types.{flag_iceberg, has_flag}
use clob.BTree.{BTree}
use clob.Book.Node.{OrderNode}
use clob.Book.Level.{PriceLevel}
use clob.Book.Orders.{
  CancelResult, removed, order_not_found, ownership_mismatch, dangling, release_node, cancel,
  level_info,
}
use clob.StopBook.{
  StopLevel, StopCancelResult, stop_removed, stop_not_found, stop_ownership_mismatch, stop_dangling,
  release_stop_node, cancel_stop,
}
use clob.Events.{
  order_not_found as not_found, user_requested, order_canceled, depth_update, depth_modify,
  depth_delete,
}
use clob.Processor.{Processor, emit, reject_order}
use clob.Processor.Commands.{CancelOrder}

module _ {T S : Type 0} ⦃bt : BTree T PriceLevel⦄ ⦃st : BTree S StopLevel⦄ where
  -- The events of an order that was canceled, and its slot.
  unfoldable pub report_cancel : ℤ → OrderNode → Processor T S → Processor T S
  unfolding emit level_info
  report_cancel now node p =
      let p1 = emit now p (
        order_canceled (record {
          order_id = node.order_id;
          user_id = node.user_id;
          side = node.side;
          price = node.price;
          canceled_qty =
              if has_flag node.flags flag_iceberg
              then add64 node.remain_qty node.hidden_qty
              else node.remain_qty;
          filled_qty = node.filled_qty;
          reason = user_requested;
        })) in
      let level = level_info p.book node.side node.price in
      let p2 = emit now p1 (
        depth_update (record {
          side = node.side;
          price = node.price;
          new_total_qty = elim level [ none ↦ pos 0 | some l ↦ l.0 ];
          new_display_qty = elim level [ none ↦ pos 0 | some l ↦ l.1 ];
          new_order_count = elim level [ none ↦ 0 | some l ↦ l.2 ];
          update_type = elim level [ none ↦ depth_delete | some _ ↦ depth_modify ];
        })) in
      record p2 { book = release_node p2.book node }

  unfoldable pub report_stop_cancel :
      ℤ → CancelOrder → Processor T S → StopCancelResult S → Option (Processor T S)
  unfolding emit release_stop_node
  report_stop_cancel now cmd p (stop_removed node stops) =
      let p1 =
        emit now (record p { stop_book = stops })
          (order_canceled (record {
            order_id = cmd.order_id;
            user_id = cmd.user_id;
            side = node.side;
            price = node.trigger_price;
            canceled_qty = node.qty;
            filled_qty = pos 0;
            reason = user_requested;
          })) in
      some (record p1 { stop_book = release_stop_node p1.stop_book node.pool_index })
  report_stop_cancel now cmd p stop_not_found =
      some (reject_order now p cmd.order_id cmd.user_id not_found)
  report_stop_cancel now cmd p stop_ownership_mismatch =
      some (reject_order now p cmd.order_id cmd.user_id not_found)
  report_stop_cancel now cmd p stop_dangling = none

  -- The stop book's turn, if the order is not in the order book.
  unfoldable pub cancel_in_stop_book : ℤ → CancelOrder → Processor T S → Option (Processor T S)
  unfolding cancel_stop report_stop_cancel
  cancel_in_stop_book now cmd p =
      report_stop_cancel now cmd p (cancel_stop p.stop_book cmd.order_id cmd.user_id)

  unfoldable pub after_cancel :
      ℤ → CancelOrder → Processor T S → CancelResult T → Option (Processor T S)
  unfolding report_cancel cancel_in_stop_book reject_order
  after_cancel now cmd p (removed node b) = some (report_cancel now node (record p { book = b }))
  after_cancel now cmd p ownership_mismatch =
      some (reject_order now p cmd.order_id cmd.user_id not_found)
  after_cancel now cmd p order_not_found = cancel_in_stop_book now cmd p
  after_cancel now cmd p dangling = none

  unfoldable pub process_cancel_order : ℤ → CancelOrder → Processor T S → Option (Processor T S)
  unfolding cancel after_cancel
  process_cancel_order now cmd p = after_cancel now cmd p (cancel p.book cmd.order_id cmd.user_id)
