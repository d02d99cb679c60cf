-- ===== src/Processor/Log/Handlers.antt =====
-- What the handlers of engine/processor.go append to the log, turn by turn.
use clob.Base.{refl, subst, List, [], ◌∷◌, Option, none, some, Option-cases, inl, inr, Bool-cases}
use clob.Base.Int.{ℤ}
use clob.Sequence.{next}
use clob.Pool.{acquire_slot}
use clob.Machine.{MarketState, pre_open, auction, open_state, halted, closed}
use clob.BTree.{BTree}
use clob.Book.Node.{OrderNode}
use clob.Book.Level.{PriceLevel}
use clob.StopBook.{StopLevel}
use clob.Auction.{AuctionOrder, AuctionBook, sweep, compute_clearing_price}
use clob.Events.{EventBody}
use clob.Processor.{Environment, Processor}
use clob.Processor.Commands.{
  Command, place_limit_order, place_market_order, place_stop_order, cancel_order, admin_halt_market,
  admin_resume_market, admin_create_market, PlaceLimitOrder, PlaceMarketOrder,
}
use clob.Processor.Report.{report_fills}
use clob.Processor.Checks.{
  rejects, panics, check_limit_order, check_market_order, apply_max_depth, check_placement,
}
use clob.Processor.Cascade.{accept_node, take_node}
use clob.Processor.Orders.{
  limit_node, market_node, only_queues, auction_in_progress, run_limit_node, place_limit_node,
  route_limit_order, process_limit_order, process_market_order,
}
use clob.Processor.Session.{
  carried_node, carry_over, carry_all, run_auction, clear_auction, dispatch, open_auction,
  reference_price, or_zero, Turn, command, expiry_tick, auction_opens, auction_clears, Runs, idle,
  turn,
}
use clob.Processor.Log.{
  Extends, Extends-quiet, Extends-same, Extends-trans, ExtendsIf, ExtendsIf-after, ExtendsIf-bind,
  ExtendsBoth-bind, ExtendsIf-ask, ExtendsIf-some,
}
use clob.Processor.Log.Trading.{
  plain, taken, matched_node-ExtendsIf, after_match-ExtendsIf, report_fills-ExtendsBoth,
}
use clob.Processor.Log.Plain.{
  reject_order-Extends, report_dropped-Extends, open_auction-Extends, close_auction-Extends,
  process_admin_halt-Extends, process_admin_resume-Extends, enter_auction-Extends,
  queue_node-Extends,
}
use clob.Processor.Log.Books.{
  run_expiry_check-Extends, process_stop_order-ExtendsIf, process_cancel_order-ExtendsIf,
}

module _ {T S : Type 0} ⦃bt : BTree T PriceLevel⦄ ⦃st : BTree S StopLevel⦄ (P : EventBody → Type 0)
    (all : (b : EventBody) → P b) where
  run_limit_node-ExtendsIf :
      (env : Environment) (now : ℤ) (n : OrderNode) (p : Processor T S)
      → ExtendsIf P p (run_limit_node env now n p)
  unfolding run_limit_node
  run_limit_node-ExtendsIf env now n p = elim (Bool-cases (only_queues p.machine.state)) [
    | inl e ↦ rw (e, ExtendsIf) (queue_node-Extends P (plain all) now n p)
    | inr e ↦
        rw (e, ExtendsIf)
          (matched_node-ExtendsIf P all env now n n.orig_qty p p _ (Extends-same P p)
            (after_match-ExtendsIf P all env now))
  ]

  place_limit_node-ExtendsIf :
      (env : Environment) (now : ℤ) (c : PlaceLimitOrder) (p : Processor T S)
      → ExtendsIf P p (place_limit_node env now c p)
  unfolding place_limit_node take_node
  place_limit_node-ExtendsIf env now c p = elim (Option-cases (acquire_slot p.book.node_pool)) [
    | inl e ↦ rw (e, ExtendsIf) (reject_order-Extends P (plain all) now p _ _ _)
    | inr ((i, pool), e) ↦
        rw (e, ExtendsIf)
          (ExtendsIf-after P p _ _
            (taken P all p pool (limit_node p.book.config now i (next p.book.order_seq).n c) now)
            (run_limit_node-ExtendsIf env now
              (limit_node p.book.config now i (next p.book.order_seq).n c)
              (accept_node now (limit_node p.book.config now i (next p.book.order_seq).n c)
                (record p {
                  book = record (p.book) { node_pool = pool; order_seq = next p.book.order_seq };
                }))))
  ]

  route_limit_order-ExtendsIf :
      (env : Environment) (now : ℤ) (c : PlaceLimitOrder) (p : Processor T S)
      → ExtendsIf P p (route_limit_order env now c p)
  unfolding route_limit_order
  route_limit_order-ExtendsIf env now c p = elim (Option-cases (check_placement env p c)) [
    | inr (rejects reason, e) ↦ rw (e, ExtendsIf) (reject_order-Extends P (plain all) now p _ _ _)
    | inr (panics, e) ↦ rw (e, ExtendsIf) tt
    | inl e ↦ elim (Option-cases (auction_in_progress p)) [
      | inr (a, f) ↦ rw (e, f, ExtendsIf) (enter_auction-Extends P (plain all) now c a p)
      | inl f ↦ rw (e, f, ExtendsIf) (place_limit_node-ExtendsIf env now c p)
    ]
  ]

  process_limit_order-ExtendsIf :
      (env : Environment) (now : ℤ) (c : PlaceLimitOrder) (p : Processor T S)
      → ExtendsIf P p (process_limit_order env now c p)
  unfolding process_limit_order
  process_limit_order-ExtendsIf env now c p = elim (Option-cases (check_limit_order now p c)) [
    | inr (rejects reason, e) ↦ rw (e, ExtendsIf) (reject_order-Extends P (plain all) now p _ _ _)
    | inr (panics, e) ↦ rw (e, ExtendsIf) tt
    | inl e ↦ elim (Option-cases (apply_max_depth p c)) [
      | inl f ↦ rw (e, f, ExtendsIf) (reject_order-Extends P (plain all) now p _ _ _)
      | inr (c', f) ↦ rw (e, f, ExtendsIf) (route_limit_order-ExtendsIf env now c' p)
    ]
  ]

  process_market_order-ExtendsIf :
      (env : Environment) (now : ℤ) (c : PlaceMarketOrder) (p : Processor T S)
      → ExtendsIf P p (process_market_order env now c p)
  unfolding process_market_order take_node
  process_market_order-ExtendsIf env now c p = elim (Option-cases (check_market_order p c)) [
    | inr (rejects reason, e) ↦ rw (e, ExtendsIf) (reject_order-Extends P (plain all) now p _ _ _)
    | inr (panics, e) ↦ rw (e, ExtendsIf) tt
    | inl e ↦ elim (Option-cases (acquire_slot p.book.node_pool)) [
      | inl f ↦ rw (e, f, ExtendsIf) (reject_order-Extends P (plain all) now p _ _ _)
      | inr ((i, pool), f) ↦
          rw (e, f, ExtendsIf)
            (matched_node-ExtendsIf P all env now _ c.qty p _ _
              (taken P all p pool (market_node now i (next p.book.order_seq).n c) now)
              (after_match-ExtendsIf P all env now))
    ]
  ]

  dispatch-ExtendsIf :
      (env : Environment) (now : ℤ) (c : Command) (p : Processor T S)
      → ExtendsIf P p (dispatch env now c p)
  unfolding dispatch
  dispatch-ExtendsIf env now (place_limit_order c) p = process_limit_order-ExtendsIf env now c p
  dispatch-ExtendsIf env now (place_market_order c) p = process_market_order-ExtendsIf env now c p
  dispatch-ExtendsIf env now (place_stop_order c) p =
      process_stop_order-ExtendsIf P (plain all) now c p
  dispatch-ExtendsIf env now (cancel_order c) p =
      process_cancel_order-ExtendsIf P (plain all) now c p
  dispatch-ExtendsIf env now admin_halt_market p = process_admin_halt-Extends P (plain all) now p
  dispatch-ExtendsIf env now admin_resume_market p =
      process_admin_resume-Extends P (plain all) now p
  dispatch-ExtendsIf env now (admin_create_market c) p = Extends-same P p

  carry_over-ExtendsIf :
      (env : Environment) (now : ℤ) (o : AuctionOrder) (p : Processor T S)
      → ExtendsIf P p (carry_over env now o p)
  unfolding carry_over
  carry_over-ExtendsIf env now o p = elim (Option-cases (acquire_slot p.book.node_pool)) [
    | inl e ↦ rw (e, ExtendsIf) (reject_order-Extends P (plain all) now p _ _ _)
    | inr ((i, pool), e) ↦
        rw (e, ExtendsIf)
          (matched_node-ExtendsIf P all env now (carried_node i o) o.qty p _ _
            (Extends-quiet P p _ refl refl refl) (λ last r. Extends-same P r))
  ]

  carry_all-ExtendsIf :
      (env : Environment) (now : ℤ) (os : List AuctionOrder) (p : Processor T S)
      → ExtendsIf P p (carry_all env now os p)
  unfolding carry_all
  carry_all-ExtendsIf env now [] p = Extends-same P p
  carry_all-ExtendsIf env now (o ∷ os) p =
      ExtendsIf-bind P p _ _ (carry_over-ExtendsIf env now o p) (carry_all-ExtendsIf env now os)

  run_auction-ExtendsIf :
      (env : Environment) (now : ℤ) (a : AuctionBook) (p : Processor T S)
      → ExtendsIf P p (run_auction env now a p)
  unfolding run_auction
  run_auction-ExtendsIf env now a p =
      ExtendsIf-ask P p (compute_clearing_price a p.book.config.price_precision (reference_price p))
        _
        (λ answer.
          let cleared = or_zero answer in
          ExtendsIf-ask P p (sweep a cleared.0) _ (λ swept.
            ExtendsBoth-bind P p (report_fills env now none swept.fills p) _
              (report_fills-ExtendsBoth P all env now none swept.fills p)
              (λ last q.
                ExtendsIf-bind P q (carry_all env now swept.unmatched q) _
                  (carry_all-ExtendsIf env now swept.unmatched q)
                  (λ r.
                    Extends-trans P r _ _
                      (report_dropped-Extends P (plain all) now swept.canceled r)
                      (close_auction-Extends P (plain all) now cleared _)))))

  opened_auction-Extends :
      (now : ℤ) (p : Processor T S) (s : MarketState)
      → Extends P p (elim s [ pre_open ↦ open_auction now p | _ ↦ p ])
  opened_auction-Extends now p pre_open = open_auction-Extends P (plain all) now p
  opened_auction-Extends now p auction = Extends-same P p
  opened_auction-Extends now p open_state = Extends-same P p
  opened_auction-Extends now p halted = Extends-same P p
  opened_auction-Extends now p closed = Extends-same P p

  cleared-ExtendsIf :
      (env : Environment) (now : ℤ) (q : Processor T S) (s : MarketState) (a : Option AuctionBook)
      → ExtendsIf P q (elim s [
        | auction ↦ elim a [ none ↦ none | some b ↦ run_auction env now b q ]
        | _ ↦ some q
      ])
  cleared-ExtendsIf env now q pre_open a = Extends-same P q
  cleared-ExtendsIf env now q auction none = tt
  cleared-ExtendsIf env now q auction (some b) = run_auction-ExtendsIf env now b q
  cleared-ExtendsIf env now q open_state a = Extends-same P q
  cleared-ExtendsIf env now q halted a = Extends-same P q
  cleared-ExtendsIf env now q closed a = Extends-same P q

  clear_auction-ExtendsIf :
      (env : Environment) (now : ℤ) (p : Processor T S) → ExtendsIf P p (clear_auction env now p)
  unfolding clear_auction
  clear_auction-ExtendsIf env now p =
      let q : Processor T S = elim p.machine.state [ pre_open ↦ open_auction now p | _ ↦ p ] in
      ExtendsIf-after P p q _ (opened_auction-Extends now p p.machine.state)
        (cleared-ExtendsIf env now q q.machine.state q.auction_book)

  Turn-Extends : {env : Environment} {p q : Processor T S} → Turn env p q → Extends P p q
  Turn-Extends {env} {p} (command now c q e) =
      ExtendsIf-some P p q _ (dispatch-ExtendsIf env now c p) e
  Turn-Extends {env} {p} (expiry_tick now q e) =
      subst (Extends P p) e (run_expiry_check-Extends P (plain all) now p)
  Turn-Extends {env} {p} (auction_opens now q e) =
      subst (Extends P p) e (open_auction-Extends P (plain all) now p)
  Turn-Extends {env} {p} (auction_clears now q e) =
      ExtendsIf-some P p q _ (clear_auction-ExtendsIf env now p) e

  pub Runs-Extends : {env : Environment} {p q : Processor T S} → Runs env p q → Extends P p q
  Runs-Extends {env} {p} idle = Extends-same P p
  Runs-Extends {env} {p} (turn {q} {r} rs t) =
      Extends-trans P p q r (Runs-Extends rs) (Turn-Extends t)
