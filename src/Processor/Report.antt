-- ===== src/Processor/Report.antt =====
-- engine/processor.go: the events of fills, of self-trade cancels and of what became of an order, and
-- the match that they report.
use clob.Base.{ℕ, List, [], ◌∷◌, Option, none, some, if◌then◌else◌, ◌>>=◌}
use clob.Base.Int.{ℤ, pos, add64, sub64}
use clob.Types.{opposite}
use clob.BTree.{BTree}
use clob.Positions.{apply_fill}
use clob.Fees.{FeeResult}
use clob.Book.Node.{
  OrderNode, Fill, StpCanceled, Disposition, fully_filled, partial_fill_rested,
  partial_fill_canceled, rested, canceled, rejected, stp_canceled_taker,
}
use clob.Book.Level.{PriceLevel}
use clob.Book.Orders.{match, order_rest_info, level_info}
use clob.Events.{
  CancelReason, ioc_remainder, self_trade, fok_failed, maker, taker, DepthUpdateType, depth_add,
  depth_modify, depth_delete, order_rested, trade_fill, trade_executed, order_canceled,
  depth_update,
}
use clob.Processor.{Environment, Processor, emit, reject_order}

abbrev pub filled_sum : List Fill → ℤ → ℤ
filled_sum [] acc = acc
filled_sum (f ∷ fs) acc = filled_sum fs (add64 acc f.qty)

module _ {T S : Type 0} where
  -- The four events of a fill.
  unfoldable pub emit_fill : ℤ → Fill → FeeResult → Processor T S → Processor T S
  unfolding emit
  emit_fill now f fees p =
      let p1 = emit now p (
        trade_fill (record {
          order_id = f.maker_order_id;
          user_id = f.maker_user_id;
          role = maker;
          side = f.maker_side;
          price = f.price;
          filled_qty = f.qty;
          remain_qty = f.maker_remain_qty;
          fee = fees.maker_fee;
        })) in
      let p2 = emit now p1 (
        trade_fill (record {
          order_id = f.taker_order_id;
          user_id = f.taker_user_id;
          role = taker;
          side = opposite f.maker_side;
          price = f.price;
          filled_qty = f.qty;
          remain_qty = f.taker_remain_qty;
          fee = fees.taker_fee;
        })) in
      let p3 = emit now p2 (
        trade_executed (record {
          maker_order_id = f.maker_order_id;
          maker_user_id = f.maker_user_id;
          maker_side = f.maker_side;
          maker_remain_qty = f.maker_remain_qty;
          maker_fee = fees.maker_fee;
          taker_order_id = f.taker_order_id;
          taker_user_id = f.taker_user_id;
          taker_remain_qty = f.taker_remain_qty;
          taker_fee = fees.taker_fee;
          price = f.price;
          qty = f.qty;
        })) in
      emit now p3 (
        depth_update (record {
          side = f.maker_side;
          price = f.price;
          new_total_qty = f.maker_level_total_qty;
          new_display_qty = f.maker_level_display_qty;
          new_order_count = f.maker_level_order_count;
          update_type = if f.maker_level_exists then depth_modify else depth_delete;
        }))

  -- One round of `emitFillEvents`.
  unfoldable pub report_fill : Environment → ℤ → Fill → Processor T S → Option (Processor T S)
  unfolding emit_fill
  report_fill env now f p = do
    fees ← env.fee_calc p.book.config.fee_schedule (record f { timestamp = now })
    some (
        emit_fill now f fees
          (record p { positions = apply_fill p.positions (record f { timestamp = now }) }))

  -- `emitFillEvents` with the last price, which is `last` if there is no fill.
  unfoldable pub report_fills :
      Environment → ℤ → Option ℤ → List Fill → Processor T S → Option (Option ℤ × Processor T S)
  unfolding report_fill
  report_fills env now last [] p = some (last, p)
  report_fills env now last (f ∷ fs) p =
      report_fill env now f p >>= λ q. report_fills env now (some f.price) fs q

  -- `emitSTPCancels`
  unfoldable pub report_stp_cancels : ℤ → List StpCanceled → Processor T S → Processor T S
  unfolding emit
  report_stp_cancels now [] p = p
  report_stp_cancels now (c ∷ cs) p = report_stp_cancels now cs (
      emit now p (
        order_canceled (record {
          order_id = c.order_id;
          user_id = c.user_id;
          side = c.side;
          price = c.price;
          canceled_qty = c.remain_qty;
          filled_qty = c.filled_qty;
          reason = self_trade;
        })))

  -- An order whose remainder is dropped.
  unfoldable pub report_canceled :
      ℤ → OrderNode → ℤ → List Fill → CancelReason → Processor T S → Processor T S
  unfolding emit
  report_canceled now order orig_qty fills reason p =
      let filled = filled_sum fills (pos 0) in
      emit now p (
        order_canceled (record {
          order_id = order.order_id;
          user_id = order.user_id;
          side = order.side;
          price = order.price;
          canceled_qty = sub64 orig_qty filled;
          filled_qty = filled;
          reason = reason;
        }))

module _ {T S : Type 0} ⦃bt : BTree T PriceLevel⦄ where
  -- An order that rests, with the state of the book after the match; zeros if it is not found.
  unfoldable pub report_rested : ℤ → OrderNode → DepthUpdateType → Processor T S → Processor T S
  unfolding emit order_rest_info level_info
  report_rested now order update_type p =
      let info : ℤ × ℤ = elim (order_rest_info p.book order.order_id) [
        | none ↦ (pos 0, pos 0)
        | some i ↦ i
      ] in
      let level : ℤ × ℤ × ℕ = elim (level_info p.book order.side order.price) [
        | none ↦ (pos 0, pos 0, 0)
        | some l ↦ l
      ] in
      let p1 = emit now p (
        order_rested (record {
          order_id = order.order_id;
          user_id = order.user_id;
          side = order.side;
          price = order.price;
          remain_qty = info.0;
          display_qty = info.1;
        })) in
      emit now p1 (
        depth_update (record {
          side = order.side;
          price = order.price;
          new_total_qty = level.0;
          new_display_qty = level.1;
          new_order_count = level.2;
          update_type = update_type;
        }))

  -- `emitDisposition`; the ids, the side and the price are those of the order as it came.
  unfoldable pub report_disposition :
      ℤ → OrderNode → ℤ → List Fill → Disposition → Processor T S → Processor T S
  unfolding report_rested report_canceled reject_order
  report_disposition now order orig_qty fills rested p = report_rested now order depth_add p
  report_disposition now order orig_qty fills partial_fill_rested p =
      report_rested now order depth_modify p
  report_disposition now order orig_qty fills fully_filled p = p
  report_disposition now order orig_qty fills canceled p =
      report_canceled now order orig_qty fills ioc_remainder p
  report_disposition now order orig_qty fills partial_fill_canceled p =
      report_canceled now order orig_qty fills ioc_remainder p
  report_disposition now order orig_qty fills stp_canceled_taker p =
      report_canceled now order orig_qty fills self_trade p
  report_disposition now order orig_qty fills rejected p =
      reject_order now p order.order_id order.user_id fok_failed

  -- `PlaceLimit` or `PlaceMarket` with all that it makes the processor report.
  unfoldable pub match_and_report :
      Environment → ℤ → OrderNode → ℤ → Processor T S → Option (Option ℤ × Processor T S)
  unfolding report_fills report_stp_cancels report_disposition
  match_and_report env now node orig_qty p = do
    o ← match p.book node
    (last, q) ← report_fills env now none o.fills (record p { book = o.book })
    some (
      last,
      report_disposition now node orig_qty o.fills o.disposition
          (report_stp_cancels now o.cancels q),
    )
