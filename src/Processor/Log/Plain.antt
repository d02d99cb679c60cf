-- ===== src/Processor/Log/Plain.antt =====
-- What the actions of engine/processor.go that trade nothing append to the log.
use clob.Base.{
  ℕ, ◌≡◌, refl, List, [], ◌∷◌, Bool, true, false, Option, none, some, ◌>>=◌, Option-cases, inl, inr,
}
use clob.Base.Int.{ℤ}
use clob.Config.{HaltType}
use clob.Machine.{auction, open_state, halted, transition}
use clob.BTree.{BTree}
use clob.Circuit.{CircuitBreaker, check}
use clob.Book.Node.{
  OrderNode, Fill, StpCanceled, Disposition, fully_filled, partial_fill_rested,
  partial_fill_canceled, rested, canceled, rejected, stp_canceled_taker,
}
use clob.Book.Level.{PriceLevel}
use clob.Book.Orders.{place_resting, release_node}
use clob.StopBook.{StopNode, release_stop_node}
use clob.Auction.{AuctionOrder, AuctionBook}
use clob.Events.{
  EventBody, RejectionReason, CancelReason, DepthUpdateType, trade_fill, trade_executed,
  auction_cleared,
}
use clob.Processor.{Processor, emit, reject_order, note_state, halt_market}
use clob.Processor.Commands.{PlaceLimitOrder}
use clob.Processor.Report.{report_stp_cancels, report_canceled, report_rested, report_disposition}
use clob.Processor.Cascade.{accept_node, after_check, check_with, check_breaker}
use clob.Processor.Orders.{enter_auction, queue_node}
use clob.Processor.Session.{
  resume_target, process_admin_halt, process_admin_resume, open_auction, report_expired,
  report_expired_stops, report_dropped, close_auction,
}
use clob.Processor.Log.{
  Extends, Extends-quiet, Extends-same, Extends-trans, emit-Extends, emit_after-Extends, ExtendsIf,
}

abbrev pub is_trade : EventBody → Bool
is_trade (trade_fill _) = true
is_trade (trade_executed _) = true
is_trade _ = false

module _ {T S : Type 0} (P : EventBody → Type 0)
    (plain : (b : EventBody) → is_trade b ≡ false → P b) where
  pub reject_order-Extends :
      (now : ℤ) (p : Processor T S) (id user : ℕ) (reason : RejectionReason)
      → Extends P p (reject_order now p id user reason)
  unfolding reject_order
  reject_order-Extends now p id user reason = emit-Extends P now p _ (plain _ refl)

  pub accept_node-Extends :
      (now : ℤ) (n : OrderNode) (p : Processor T S) → Extends P p (accept_node now n p)
  unfolding accept_node
  accept_node-Extends now n p = emit-Extends P now p _ (plain _ refl)

  pub note_state-Extends : (p : Processor T S) → Extends P p (note_state p)
  unfolding note_state
  note_state-Extends p = Extends-quiet P p _ refl refl refl

  pub halt_market-Extends :
      (now : ℤ) (h : HaltType) (p : Processor T S) → Extends P p (halt_market now h p)
  unfolding halt_market note_state
  halt_market-Extends now h p = elim (Option-cases (transition p.machine halted)) [
    | inl e ↦ rw (e, halt_market) (note_state-Extends p)
    | inr (m, e) ↦
        rw (e, halt_market)
          (emit_after-Extends P now p _ _ (Extends-quiet P p _ refl refl refl) (plain _ refl))
  ]

  pub report_stp_cancels-Extends :
      (now : ℤ) (cs : List StpCanceled) (p : Processor T S)
      → Extends P p (report_stp_cancels now cs p)
  unfolding report_stp_cancels
  report_stp_cancels-Extends now [] p = Extends-same P p
  report_stp_cancels-Extends now (c ∷ cs) p =
      Extends-trans P p _ _ (emit-Extends P now p _ (plain _ refl))
        (report_stp_cancels-Extends now cs _)

  report_canceled-Extends :
      (now : ℤ) (n : OrderNode) (qty : ℤ) (fs : List Fill) (r : CancelReason) (p : Processor T S)
      → Extends P p (report_canceled now n qty fs r p)
  unfolding report_canceled
  report_canceled-Extends now n qty fs r p = emit-Extends P now p _ (plain _ refl)

  pub report_expired-Extends :
      (now : ℤ) (ns : List OrderNode) (p : Processor T S) → Extends P p (report_expired now ns p)
  unfolding report_expired
  report_expired-Extends now [] p = Extends-same P p
  report_expired-Extends now (n ∷ ns) p =
      Extends-trans P p _ _
        (Extends-trans P p _ _ (emit-Extends P now p _ (plain _ refl))
          (Extends-quiet P _ _ refl refl refl))
        (report_expired-Extends now ns _)

  pub report_expired_stops-Extends :
      (now : ℤ) (ns : List StopNode) (p : Processor T S)
      → Extends P p (report_expired_stops now ns p)
  unfolding report_expired_stops release_stop_node
  report_expired_stops-Extends now [] p = Extends-same P p
  report_expired_stops-Extends now (n ∷ ns) p =
      Extends-trans P p _ _
        (Extends-trans P p _ _ (emit-Extends P now p _ (plain _ refl))
          (Extends-quiet P _ _ refl refl refl))
        (report_expired_stops-Extends now ns _)

  pub report_dropped-Extends :
      (now : ℤ) (os : List AuctionOrder) (p : Processor T S) → Extends P p (report_dropped now os p)
  unfolding report_dropped
  report_dropped-Extends now [] p = Extends-same P p
  report_dropped-Extends now (o ∷ os) p =
      Extends-trans P p _ _ (emit-Extends P now p _ (plain _ refl))
        (report_dropped-Extends now os _)

  pub open_auction-Extends : (now : ℤ) (p : Processor T S) → Extends P p (open_auction now p)
  unfolding open_auction
  open_auction-Extends now p = elim (Option-cases (transition p.machine auction)) [
    | inl e ↦ rw (e, open_auction) (Extends-same P p)
    | inr (m, e) ↦
        rw (e, open_auction)
          (emit_after-Extends P now p _ _ (Extends-quiet P p _ refl refl refl) (plain _ refl))
  ]

  pub close_auction-Extends :
      (now : ℤ) (c : ℤ × ℤ) (p : Processor T S) → Extends P p (close_auction now c p)
  unfolding close_auction
  close_auction-Extends now c p =
      let cleared = emit now p (auction_cleared c.0 c.1) in
      let v : Extends P p cleared = emit-Extends P now p _ (plain _ refl) in
      elim (Option-cases (transition cleared.machine open_state)) [
        | inl e ↦ rw (e, close_auction) v
        | inr (m, e) ↦
            rw (e, close_auction)
              (Extends-trans P p cleared _ v (Extends-quiet P cleared _ refl refl refl))
      ]

  pub process_admin_halt-Extends :
      (now : ℤ) (p : Processor T S) → Extends P p (process_admin_halt now p)
  unfolding process_admin_halt
  process_admin_halt-Extends now p = halt_market-Extends now _ p

  pub process_admin_resume-Extends :
      (now : ℤ) (p : Processor T S) → Extends P p (process_admin_resume now p)
  unfolding process_admin_resume
  process_admin_resume-Extends now p =
      elim (Option-cases (transition p.machine (resume_target p.pre_halt_state))) [
        | inl e ↦ rw (e, process_admin_resume) (Extends-same P p)
        | inr (m, e) ↦
            rw (e, process_admin_resume)
              (emit_after-Extends P now p _ _ (Extends-quiet P p _ refl refl refl) (plain _ refl))
      ]

  pub enter_auction-Extends :
      (now : ℤ) (c : PlaceLimitOrder) (a : AuctionBook) (p : Processor T S)
      → Extends P p (enter_auction now c a p)
  unfolding enter_auction emit
  enter_auction-Extends now c a p = record {
    added = _;
    appended = refl;
    numbered = (refl, refl);
    allowed = (plain _ refl, tt);
    same_depth = refl;
  }

  after_check-Extends :
      (now : ℤ) (p : Processor T S) (r : Bool × CircuitBreaker) → Extends P p (after_check now p r)
  unfolding after_check note_state
  after_check-Extends now p (false, cb) = Extends-quiet P p _ refl refl refl
  after_check-Extends now p (true, cb) = elim (Option-cases (transition p.machine halted)) [
    | inl e ↦ rw (e, after_check) (Extends-quiet P p _ refl refl refl)
    | inr (m, e) ↦
        rw (e, after_check)
          (emit_after-Extends P now p _ _ (Extends-quiet P p _ refl refl refl) (plain _ refl))
  ]

  check_with-ExtendsIf :
      (now price : ℤ) (cb : Option CircuitBreaker) (p : Processor T S)
      → ExtendsIf P p (check_with now price cb p)
  unfolding check_with
  check_with-ExtendsIf now price none p = Extends-same P p
  check_with-ExtendsIf now price (some cb) p =
      go (check cb (record { value = price; precision = p.book.config.price_precision }) now)
    where
      go :
          (r : Option (Bool × CircuitBreaker))
          → ExtendsIf P p (r >>= λ x. some (after_check now p x))
      go none = tt
      go (some r) = after_check-Extends now p r

  pub check_breaker-ExtendsIf :
      (now price : ℤ) (p : Processor T S) → ExtendsIf P p (check_breaker now price p)
  unfolding check_breaker
  check_breaker-ExtendsIf now price p = check_with-ExtendsIf now price p.breaker p

module _ {T S : Type 0} ⦃bt : BTree T PriceLevel⦄ (P : EventBody → Type 0)
    (plain : (b : EventBody) → is_trade b ≡ false → P b) where
  report_rested-Extends :
      (now : ℤ) (n : OrderNode) (u : DepthUpdateType) (p : Processor T S)
      → Extends P p (report_rested now n u p)
  unfolding report_rested
  report_rested-Extends now n u p =
      Extends-trans P p _ _ (emit-Extends P now p _ (plain _ refl))
        (emit-Extends P now _ _ (plain _ refl))

  pub report_disposition-Extends :
      (now : ℤ) (n : OrderNode) (qty : ℤ) (fs : List Fill) (d : Disposition) (p : Processor T S)
      → Extends P p (report_disposition now n qty fs d p)
  unfolding report_disposition
  report_disposition-Extends now n qty fs rested p = report_rested-Extends now n _ p
  report_disposition-Extends now n qty fs partial_fill_rested p = report_rested-Extends now n _ p
  report_disposition-Extends now n qty fs fully_filled p = Extends-same P p
  report_disposition-Extends now n qty fs canceled p =
      report_canceled-Extends P plain now n qty fs _ p
  report_disposition-Extends now n qty fs partial_fill_canceled p =
      report_canceled-Extends P plain now n qty fs _ p
  report_disposition-Extends now n qty fs stp_canceled_taker p =
      report_canceled-Extends P plain now n qty fs _ p
  report_disposition-Extends now n qty fs rejected p = reject_order-Extends P plain now p _ _ _

  pub queue_node-Extends :
      (now : ℤ) (n : OrderNode) (p : Processor T S) → Extends P p (queue_node now n p)
  unfolding queue_node
  queue_node-Extends now n p = elim (Option-cases (place_resting p.book n)) [
    | inl e ↦
        rw (e, queue_node)
          (Extends-trans P p (record p { book = release_node p.book n }) _
            (Extends-quiet P p _ refl refl refl)
            (report_disposition-Extends now n n.orig_qty [] canceled _))
    | inr (b, e) ↦
        rw (e, queue_node)
          (Extends-trans P p (record p { book = b }) _ (Extends-quiet P p _ refl refl refl)
            (report_disposition-Extends now n n.orig_qty [] rested _))
  ]
