-- ===== src/Processor/Session.antt =====
-- engine/processor.go: halts and resumptions, expiry, auctions, and the dispatch of commands and
-- timers.
use clob.Base.{ℕ, ◌≡◌, List, [], ◌∷◌, Option, none, some, ◌>>=◌}
use clob.Base.Int.{ℤ, pos}
use clob.Types.{gtc, limit, disabled}
use clob.Config.{halt_admin}
use clob.Machine.{MarketState, pre_open, auction, open_state, transition}
use clob.BTree.{BTree}
use clob.Book.Node.{OrderNode}
use clob.Book.Level.{PriceLevel}
use clob.Book.Orders.{release_node, expire_gtd}
use clob.Pool.{acquire_slot}
use clob.StopBook.{StopNode, StopLevel, release_stop_node, expire_stops}
use clob.Types.Decimal.{Decimal}
use clob.Auction.{AuctionOrder, AuctionBook, compute_clearing_price, sweep}
use clob.Events.{
  pool_exhausted, ioc_remainder, order_expired, order_canceled, market_resumed, auction_opened,
  auction_cleared,
}
use clob.Processor.{Environment, Processor, emit, reject_order, halt_market}
use clob.Processor.Commands.{
  Command, place_limit_order, place_market_order, place_stop_order, cancel_order, admin_halt_market,
  admin_resume_market, admin_create_market,
}
use clob.Processor.Report.{report_fills, match_and_report}
use clob.Processor.Orders.{process_limit_order, process_market_order}
use clob.Processor.Stops.{process_stop_order}
use clob.Processor.Cancel.{process_cancel_order}

-- The state that a resumption aims at.
abbrev pub resume_target : Option MarketState → MarketState
resume_target (some auction) = auction
resume_target _ = open_state

-- The node of an order that an auction has left over. It keeps its order number.
unfoldable pub carried_node : ℕ → AuctionOrder → OrderNode
carried_node idx o = record {
  order_id = o.order_id;
  user_id = o.user_id;
  side = o.side;
  order_type = limit;
  tif = gtc;
  flags = 0;
  stp_mode = disabled;
  price = o.price;
  orig_qty = o.qty;
  remain_qty = o.qty;
  filled_qty = pos 0;
  display_qty = o.qty;
  hidden_qty = pos 0;
  orig_display_qty = o.qty;
  seq_num = o.seq_num;
  timestamp = pos 0;
  expire_at = pos 0;
  pool_index = idx;
}

-- The price and the quantity that are reported: 0 if there are none.
abbrev pub or_zero : Option (ℤ × ℤ) → ℤ × ℤ
or_zero none = (pos 0, pos 0)
or_zero (some c) = c

module _ {T S : Type 0} where
  unfoldable pub process_admin_halt : ℤ → Processor T S → Processor T S
  unfolding halt_market
  process_admin_halt now p = halt_market now halt_admin p

  unfoldable pub process_admin_resume : ℤ → Processor T S → Processor T S
  unfolding emit transition
  process_admin_resume now p = elim (transition p.machine (resume_target p.pre_halt_state)) [
    | none ↦ p
    | some m ↦ emit now (record p { machine = m }) market_resumed
  ]

  unfoldable pub open_auction : ℤ → Processor T S → Processor T S
  unfolding emit transition
  open_auction now p = elim (transition p.machine auction) [
    | none ↦ p
    | some m ↦ emit now (record p { machine = m }) (auction_opened (pos 0) (pos 0))
  ]

  unfoldable pub report_expired : ℤ → List OrderNode → Processor T S → Processor T S
  unfolding emit
  report_expired now [] p = p
  report_expired now (n ∷ ns) p =
      let q = emit now p (
        order_expired (record {
          order_id = n.order_id;
          user_id = n.user_id;
          side = n.side;
          price = n.price;
          expired_qty = n.remain_qty;
        })) in
      report_expired now ns (record q { book = release_node q.book n })

  unfoldable pub report_expired_stops : ℤ → List StopNode → Processor T S → Processor T S
  unfolding emit release_stop_node
  report_expired_stops now [] p = p
  report_expired_stops now (n ∷ ns) p =
      let q = emit now p (
        order_expired (record {
          order_id = n.order_id;
          user_id = n.user_id;
          side = n.side;
          price = n.trigger_price;
          expired_qty = n.qty;
        })) in
      report_expired_stops now ns
        (record q { stop_book = release_stop_node q.stop_book n.pool_index })

  -- The orders of an auction that cannot stay; nothing of a partial fill is reported.
  unfoldable pub report_dropped : ℤ → List AuctionOrder → Processor T S → Processor T S
  unfolding emit
  report_dropped now [] p = p
  report_dropped now (o ∷ os) p = report_dropped now os (
      emit now p (
        order_canceled (record {
          order_id = o.order_id;
          user_id = o.user_id;
          side = o.side;
          price = o.price;
          canceled_qty = o.qty;
          filled_qty = pos 0;
          reason = ioc_remainder;
        })))

  abbrev pub reference_price : Processor T S → Decimal
  reference_price p = elim p.book.config.auction_reference [
    | none ↦ record { value = pos 0; precision = p.book.config.price_precision }
    | some d ↦ d
  ]

  -- The end of `clearAuction`: continuous trading, if the market may go there.
  unfoldable pub close_auction : ℤ → ℤ × ℤ → Processor T S → Processor T S
  unfolding emit transition
  close_auction now cleared p =
      let q = emit now p (auction_cleared cleared.0 cleared.1) in
      elim (transition q.machine open_state) [ none ↦ q | some m ↦ record q { machine = m } ]

module _ {T S : Type 0} ⦃bt : BTree T PriceLevel⦄ where
  -- An order that an auction has left over, matched and rested in the order book.
  unfoldable pub carry_over :
      Environment → ℤ → AuctionOrder → Processor T S → Option (Processor T S)
  unfolding carried_node match_and_report
  carry_over env now o p = elim (acquire_slot p.book.node_pool) [
    | none ↦ some (reject_order now p o.order_id o.user_id pool_exhausted)
    | some (idx, pool) ↦
        match_and_report env now (carried_node idx o) o.qty
          (record p { book = record (p.book) { node_pool = pool } })
        >>= λ r. some (r.1)
  ]

  unfoldable pub carry_all :
      Environment → ℤ → List AuctionOrder → Processor T S → Option (Processor T S)
  unfolding carry_over
  carry_all env now [] p = some p
  carry_all env now (o ∷ os) p = carry_over env now o p >>= λ q. carry_all env now os q

  -- A market in auction: the sweep at the clearing price, or at 0 if no orders cross.
  unfoldable pub run_auction :
      Environment → ℤ → AuctionBook → Processor T S → Option (Processor T S)
  unfolding compute_clearing_price sweep report_fills carry_all report_dropped close_auction
  run_auction env now a p = do
    answer ← compute_clearing_price a p.book.config.price_precision (reference_price p)
    let cleared = or_zero answer
    swept ← sweep a cleared.0
    (_, q) ← report_fills env now none swept.fills p
    r ← carry_all env now swept.unmatched q
    some (close_auction now cleared (report_dropped now swept.canceled r))

  -- `none` for a missing auction book: only a market that has one clears auctions.
  unfoldable pub clear_auction : Environment → ℤ → Processor T S → Option (Processor T S)
  unfolding open_auction run_auction
  clear_auction env now p =
      let q : Processor T S = elim p.machine.state [ pre_open ↦ open_auction now p | _ ↦ p ] in
      elim q.machine.state [
        | auction ↦ elim q.auction_book [ none ↦ none | some a ↦ run_auction env now a q ]
        | _ ↦ some q
      ]

module _ {T S : Type 0} ⦃bt : BTree T PriceLevel⦄ ⦃st : BTree S StopLevel⦄ where
  unfoldable pub run_expiry_check : ℤ → Processor T S → Processor T S
  unfolding expire_gtd report_expired expire_stops report_expired_stops
  run_expiry_check now p =
      let (expired, b) = expire_gtd p.book now in
      let q = report_expired now expired (record p { book = b }) in
      let (expired_stops, s) = expire_stops q.stop_book now in
      report_expired_stops now expired_stops (record q { stop_book = s })

  unfoldable pub dispatch : Environment → ℤ → Command → Processor T S → Option (Processor T S)
  unfolding process_limit_order process_market_order process_stop_order process_cancel_order
      process_admin_halt process_admin_resume
  dispatch env now (place_limit_order c) p = process_limit_order env now c p
  dispatch env now (place_market_order c) p = process_market_order env now c p
  dispatch env now (place_stop_order c) p = process_stop_order now c p
  dispatch env now (cancel_order c) p = process_cancel_order now c p
  dispatch env now admin_halt_market p = some (process_admin_halt now p)
  dispatch env now admin_resume_market p = some (process_admin_resume now p)
  -- The switch has no case for it.
  dispatch env now (admin_create_market c) p = some p

  -- One turn of the loop of `run`, whichever channel is ready.
  pub data Turn (env : Environment) (p : Processor T S) : Processor T S → Type 0 where
    command :
        (now : ℤ) (c : Command) (q : Processor T S) → dispatch env now c p ≡ some q → Turn env p q
    expiry_tick : (now : ℤ) (q : Processor T S) → run_expiry_check now p ≡ q → Turn env p q
    auction_opens : (now : ℤ) (q : Processor T S) → open_auction now p ≡ q → Turn env p q
    auction_clears : (now : ℤ) (q : Processor T S) → clear_auction env now p ≡ some q → Turn env p q

  -- What a processor comes to, turn by turn.
  pub data Runs (env : Environment) (p : Processor T S) : Processor T S → Type 0 where
    idle : Runs env p p
    turn : {q r : Processor T S} → Runs env p q → Turn env q r → Runs env p r
