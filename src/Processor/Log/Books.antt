-- ===== src/Processor/Log/Books.antt =====
-- What expiry, stop orders and cancellations append to the log: no trades.
use clob.Base.{
  ℕ, ◌≡◌, refl, ◌∙◌, [], ◌∷◌, append_assoc, false, Option, none, some, ◌>>=◌, Option-cases, inl,
  inr,
}
use clob.Base.Int.{ℤ}
use clob.Sequence.{next}
use clob.BTree.{BTree}
use clob.Book.Node.{OrderNode}
use clob.Book.Level.{PriceLevel}
use clob.Book.Orders.{
  OrderBook, CancelResult, removed, order_not_found, ownership_mismatch, dangling, cancel,
  expire_gtd,
}
use clob.StopBook.{
  StopNode, StopLevel, StopBook, StopCancelResult, stop_removed, stop_not_found,
  stop_ownership_mismatch, stop_dangling, acquire_node, add_stop, cancel_stop, expire_stops,
  release_stop_node,
}
use clob.StopBook.Depth.{
  SameDepth, AcquiredDepth, CanceledDepth, acquire_node-depth, add_stop-depth, cancel_stop-depth,
  expire_all_stops-depth,
}
use clob.Events.{EventBody, pool_exhausted}
use clob.Processor.{Processor, emit, reject_order}
use clob.Processor.Commands.{PlaceStopOrder, CancelOrder}
use clob.Processor.Checks.{rejects, panics, check_stop_order}
use clob.Processor.Stops.{stop_node, accept_stop, process_stop_order}
use clob.Processor.Cancel.{
  report_cancel, report_stop_cancel, cancel_in_stop_book, after_cancel, process_cancel_order,
}
use clob.Processor.Session.{report_expired, run_expiry_check}
use clob.Processor.Log.{Extends, Extends-quiet, Extends-trans, emit-Extends, ExtendsIf}
use clob.Processor.Log.Plain.{
  is_trade, reject_order-Extends, report_expired-Extends, report_expired_stops-Extends,
}

module _ {T S : Type 0} ⦃bt : BTree T PriceLevel⦄ ⦃st : BTree S StopLevel⦄ (P : EventBody → Type 0)
    (plain : (b : EventBody) → is_trade b ≡ false → P b) where
  pub accept_stop-Extends :
      (now : ℤ) (n : StopNode) (p : Processor T S) → Extends P p (accept_stop now n p)
  unfolding accept_stop
  accept_stop-Extends now n p = emit-Extends P now p _ (plain _ refl)

  report_cancel-Extends :
      (now : ℤ) (n : OrderNode) (p : Processor T S) → Extends P p (report_cancel now n p)
  unfolding report_cancel emit
  report_cancel-Extends now n p = record {
    added = _ ∷ _ ∷ [];
    appended = append_assoc p.events _ _;
    numbered = (refl, (refl, refl));
    allowed = (plain _ refl, (plain _ refl, tt));
    same_depth = refl;
  }

  pub run_expiry_check-Extends :
      (now : ℤ) (p : Processor T S) → Extends P p (run_expiry_check now p)
  unfolding run_expiry_check expire_stops
  run_expiry_check-Extends now p =
      let b = expire_gtd p.book now in
      let q0 : Processor T S = record p { book = b.1 } in
      let q1 = report_expired now b.0 q0 in
      let s = expire_stops q1.stop_book now in
      let q2 : Processor T S = record q1 { stop_book = s.1 } in
      Extends-trans P p q0 _ (Extends-quiet P p q0 refl refl refl) (
        Extends-trans P q0 q1 _ (report_expired-Extends P plain now b.0 q0) (
          Extends-trans P q1 q2 _
            (Extends-quiet P q1 q2 refl refl
              (expire_all_stops-depth now q1.stop_book.index ([], q1.stop_book)))
            (report_expired_stops-Extends P plain now s.0 q2)))

  -- A stop order that the stop book takes in.
  added_stop-ExtendsIf :
      (now : ℤ) (n : StopNode) (p : Processor T S) (book : OrderBook T) (s : StopBook S)
      (m : Option (StopBook S))
      → s.max_depth ≡ p.stop_book.max_depth
      → SameDepth s m
      → ExtendsIf P p (
          m >>= λ s'. some (
            accept_stop now n
              (record p { stop_book = s'; book = record book { config = p.book.config } })))
  added_stop-ExtendsIf now n p book s none d h = tt
  added_stop-ExtendsIf now n p book s (some s') d h =
      Extends-trans P p _ _ (Extends-quiet P p _ refl refl (h ∙ d)) (accept_stop-Extends now n _)

  pub process_stop_order-ExtendsIf :
      (now : ℤ) (c : PlaceStopOrder) (p : Processor T S)
      → ExtendsIf P p (process_stop_order now c p)
  unfolding process_stop_order
  process_stop_order-ExtendsIf now c p = elim (Option-cases (check_stop_order now p c)) [
    | inr (rejects reason, e) ↦
        rw (e, process_stop_order) (reject_order-Extends P plain now p _ _ _)
    | inr (panics, e) ↦ rw (e, process_stop_order) tt
    | inl e ↦
        rw (e, process_stop_order)
          (acquired (acquire_node p.stop_book) (acquire_node-depth p.stop_book))
  ]
    where
      acquired :
          (a : Option (ℕ × StopBook S))
          → AcquiredDepth p.stop_book a
          → ExtendsIf P p (elim a [
            | none ↦ some (reject_order now p c.order_id c.user_id pool_exhausted)
            | some (idx, stops) ↦
                let seq = next p.book.order_seq in
                let node = stop_node p.book.config now idx seq.n c in
                add_stop stops node >>= λ stops'. some (
                  accept_stop now node
                    (record p { stop_book = stops'; book = record (p.book) { order_seq = seq } }))
          ])
      acquired none h = reject_order-Extends P plain now p _ _ _
      acquired (some (i, s)) h =
          added_stop-ExtendsIf now (stop_node p.book.config now i (next p.book.order_seq).n c) p
            (record (p.book) { order_seq = next p.book.order_seq }) s
            (add_stop s (stop_node p.book.config now i (next p.book.order_seq).n c)) h
            (add_stop-depth s (stop_node p.book.config now i (next p.book.order_seq).n c))

  canceled_stop-ExtendsIf :
      (now : ℤ) (c : CancelOrder) (p : Processor T S) (r : StopCancelResult S)
      → CanceledDepth p.stop_book r
      → ExtendsIf P p (report_stop_cancel now c p r)
  unfolding report_stop_cancel release_stop_node
  canceled_stop-ExtendsIf now c p (stop_removed n s) h =
      Extends-trans P p (record p { stop_book = s }) _ (Extends-quiet P p _ refl refl h)
        (Extends-trans P _ _ _ (emit-Extends P now _ _ (plain _ refl))
          (Extends-quiet P _ _ refl refl refl))
  canceled_stop-ExtendsIf now c p stop_not_found h = reject_order-Extends P plain now p _ _ _
  canceled_stop-ExtendsIf now c p stop_ownership_mismatch h =
      reject_order-Extends P plain now p _ _ _
  canceled_stop-ExtendsIf now c p stop_dangling h = tt

  canceled_order-ExtendsIf :
      (now : ℤ) (c : CancelOrder) (p : Processor T S) (r : CancelResult T)
      → ExtendsIf P p (after_cancel now c p r)
  unfolding after_cancel cancel_in_stop_book
  canceled_order-ExtendsIf now c p (removed n b) =
      Extends-trans P p (record p { book = b }) _ (Extends-quiet P p _ refl refl refl)
        (report_cancel-Extends now n _)
  canceled_order-ExtendsIf now c p order_not_found =
      canceled_stop-ExtendsIf now c p (cancel_stop p.stop_book c.order_id c.user_id)
        (cancel_stop-depth p.stop_book c.order_id c.user_id)
  canceled_order-ExtendsIf now c p ownership_mismatch = reject_order-Extends P plain now p _ _ _
  canceled_order-ExtendsIf now c p dangling = tt

  pub process_cancel_order-ExtendsIf :
      (now : ℤ) (c : CancelOrder) (p : Processor T S) → ExtendsIf P p (process_cancel_order now c p)
  unfolding process_cancel_order
  process_cancel_order-ExtendsIf now c p =
      canceled_order-ExtendsIf now c p (cancel p.book c.order_id c.user_id)
