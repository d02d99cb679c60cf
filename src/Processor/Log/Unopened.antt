-- ===== src/Processor/Log/Unopened.antt =====
-- engine/processor.go: the commands that reach a market that is not open.
use clob.Base.{
  ◌≡◌, refl, sym, arith, not, Bool, true, false, Option, none, some, Option-cases, inl, inr,
  if◌then◌else◌,
}
use clob.Base.Int.{ℤ}
use clob.Sequence.{next}
use clob.Pool.{acquire_slot}
use clob.Machine.{
  MarketState, pre_open, auction, open_state, halted, closed, can_accept_limit_order,
  can_accept_market_order,
}
use clob.BTree.{BTree}
use clob.Book.Level.{PriceLevel}
use clob.StopBook.{StopLevel}
use clob.Auction.{AuctionBook}
use clob.Events.{EventBody, RejectionReason, market_not_open}
use clob.Processor.{Environment, Processor}
use clob.Processor.Commands.{
  Command, place_limit_order, place_market_order, place_stop_order, cancel_order, admin_halt_market,
  admin_resume_market, admin_create_market, PlaceLimitOrder, PlaceMarketOrder,
}
use clob.Processor.Checks.{
  rejects, panics, Refusal, in_auction, reject_if, ◌or_else◌, check_limit_order, check_market_order,
  apply_max_depth, check_placement,
}
use clob.Processor.Cascade.{accept_node, take_node}
use clob.Processor.Orders.{
  limit_node, only_queues, auction_in_progress, run_limit_node, place_limit_node, route_limit_order,
  process_limit_order, process_market_order,
}
use clob.Processor.Session.{dispatch}
use clob.Processor.Log.{
  Extends, Extends-same, Extends-quiet, Extends-trans, ExtendsIf, ExtendsIf-some,
}
use clob.Processor.Log.Plain.{
  is_trade, reject_order-Extends, accept_node-Extends, enter_auction-Extends, queue_node-Extends,
  process_admin_halt-Extends, process_admin_resume-Extends,
}
use clob.Processor.Log.Books.{process_stop_order-ExtendsIf, process_cancel_order-ExtendsIf}

abbrev pub NoTrade : EventBody → Type 0
NoTrade b = is_trade b ≡ false

no_trade : (b : EventBody) → is_trade b ≡ false → NoTrade b
no_trade b h = h

-- A market that does not match what comes in: it is not open, and, if it holds an auction, it has the
-- auction's book.
abbrev pub unopened : MarketState → Option AuctionBook → Bool
unopened open_state a = false
unopened auction none = false
unopened auction (some _) = true
unopened _ a = true

only_queues-unopened :
    (s : MarketState) (a : Option AuctionBook)
    → unopened s a ≡ true
    → (if in_auction s then a else none) ≡ none
    → can_accept_limit_order (record { state = s }) ≡ true
    → only_queues s ≡ true
unfolding can_accept_limit_order
only_queues-unopened pre_open a h i j = refl
only_queues-unopened halted a h i j = refl
only_queues-unopened open_state a h i j = h
only_queues-unopened closed a h i j = j
only_queues-unopened auction none h i j = h
only_queues-unopened auction (some x) h i j = ground arith

no_market_order :
    (s : MarketState) (a : Option AuctionBook)
    → unopened s a ≡ true
    → can_accept_market_order (record { state = s }) ≡ false
unfolding can_accept_market_order
no_market_order pre_open a h = refl
no_market_order auction a h = refl
no_market_order open_state a h = sym h
no_market_order halted a h = refl
no_market_order closed a h = refl

first_passes :
    (b : Bool) (reason : RejectionReason) (later : Option Refusal)
    → (reject_if (not b) reason or_else later) ≡ none
    → b ≡ true
first_passes true reason later e = refl
first_passes false reason later e = ground arith

module _ {T S : Type 0} ⦃bt : BTree T PriceLevel⦄ ⦃st : BTree S StopLevel⦄ where
  place_unopened :
      (env : Environment) (now : ℤ) (c : PlaceLimitOrder) (p : Processor T S)
      → only_queues p.machine.state ≡ true
      → ExtendsIf NoTrade p (place_limit_node env now c p)
  unfolding place_limit_node take_node run_limit_node accept_node
  place_unopened env now c p h = elim (Option-cases (acquire_slot p.book.node_pool)) [
    | inl e ↦ rw (e, ExtendsIf) (reject_order-Extends NoTrade no_trade now p _ _ _)
    | inr ((i, pool), e) ↦
        let q : Processor T S = record p {
          book = record (p.book) { node_pool = pool; order_seq = next p.book.order_seq };
        } in
        let n = limit_node p.book.config now i (next p.book.order_seq).n c in
        rw (e, h, ExtendsIf)
          (Extends-trans NoTrade p q _ (Extends-quiet NoTrade p q refl refl refl) (
            Extends-trans NoTrade q (accept_node now n q) _
              (accept_node-Extends NoTrade no_trade now n q)
              (queue_node-Extends NoTrade no_trade now n (accept_node now n q))))
  ]

  limit_unopened :
      (env : Environment) (now : ℤ) (c : PlaceLimitOrder) (p : Processor T S)
      → unopened p.machine.state p.auction_book ≡ true
      → can_accept_limit_order p.machine ≡ true
      → ExtendsIf NoTrade p (route_limit_order env now c p)
  unfolding route_limit_order
  limit_unopened env now c p h ok = elim (Option-cases (check_placement env p c)) [
    | inr (rejects reason, e) ↦
        rw (e, ExtendsIf) (reject_order-Extends NoTrade no_trade now p _ _ _)
    | inr (panics, e) ↦ rw (e, ExtendsIf) tt
    | inl e ↦ elim (Option-cases (auction_in_progress p)) [
      | inr (a, f) ↦ rw (e, f, ExtendsIf) (enter_auction-Extends NoTrade no_trade now c a p)
      | inl f ↦
          rw (e, f, ExtendsIf)
            (place_unopened env now c p
              (only_queues-unopened p.machine.state p.auction_book h f ok))
    ]
  ]

  process_limit_unopened :
      (env : Environment) (now : ℤ) (c : PlaceLimitOrder) (p : Processor T S)
      → unopened p.machine.state p.auction_book ≡ true
      → ExtendsIf NoTrade p (process_limit_order env now c p)
  unfolding process_limit_order check_limit_order
  process_limit_unopened env now c p h = elim (Option-cases (check_limit_order now p c)) [
    | inr (rejects reason, e) ↦
        rw (e, ExtendsIf) (reject_order-Extends NoTrade no_trade now p _ _ _)
    | inr (panics, e) ↦ rw (e, ExtendsIf) tt
    | inl e ↦ elim (Option-cases (apply_max_depth p c)) [
      | inl f ↦ rw (e, f, ExtendsIf) (reject_order-Extends NoTrade no_trade now p _ _ _)
      | inr (c', f) ↦ rw (e, f, ExtendsIf) (limit_unopened env now c' p h (first_passes _ _ _ e))
    ]
  ]

  process_market_unopened :
      (env : Environment) (now : ℤ) (c : PlaceMarketOrder) (p : Processor T S)
      → can_accept_market_order p.machine ≡ false
      → ExtendsIf NoTrade p (process_market_order env now c p)
  unfolding process_market_order check_market_order
  process_market_unopened env now c p h =
      rw (h, ExtendsIf)
        (reject_order-Extends NoTrade no_trade now p c.order_id c.user_id market_not_open)

  dispatch-unopened :
      (env : Environment) (now : ℤ) (c : Command) (p : Processor T S)
      → unopened p.machine.state p.auction_book ≡ true
      → ExtendsIf NoTrade p (dispatch env now c p)
  unfolding dispatch
  dispatch-unopened env now (place_limit_order c) p h = process_limit_unopened env now c p h
  dispatch-unopened env now (place_market_order c) p h =
      process_market_unopened env now c p (no_market_order p.machine.state p.auction_book h)
  dispatch-unopened env now (place_stop_order c) p h =
      process_stop_order-ExtendsIf NoTrade no_trade now c p
  dispatch-unopened env now (cancel_order c) p h =
      process_cancel_order-ExtendsIf NoTrade no_trade now c p
  dispatch-unopened env now admin_halt_market p h =
      process_admin_halt-Extends NoTrade no_trade now p
  dispatch-unopened env now admin_resume_market p h =
      process_admin_resume-Extends NoTrade no_trade now p
  dispatch-unopened env now (admin_create_market c) p h = Extends-same NoTrade p

  -- Take a market that is not open, and that has an auction book if it holds an auction. If a command
  -- of whatever kind is handled without a panic, then the events that were sent before are still there,
  -- what is appended to them holds no fill and no trade, and it is numbered without a gap.
  pub unopened_markets_trade_nothing :
      (env : Environment) (now : ℤ) (c : Command) (p q : Processor T S)
      → unopened p.machine.state p.auction_book ≡ true
      → dispatch env now c p ≡ some q
      → Extends NoTrade p q
  unopened_markets_trade_nothing env now c p q h e =
      ExtendsIf-some NoTrade p q _ (dispatch-unopened env now c p h) e
