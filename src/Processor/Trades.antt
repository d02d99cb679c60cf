-- ===== src/Processor/Trades.antt =====
-- engine/processor.go: the trades that the processor reports, against those that the order book made.
use clob.Base.{
  ℕ, ◌≡◌, refl, sym, ap, subst, ◌∙◌, List, [], ◌∷◌, ◌++◌, append_assoc, append-nil, Option, none,
  some, ◌>>=◌, Option-cases, inl, inr,
}
use clob.Base.Int.{ℤ}
use clob.BTree.{BTree}
use clob.Fees.{FeeResult}
use clob.Positions.{apply_fill, apply_fills, maker_delta, taker_delta}
use clob.Book.Node.{
  OrderNode, Fill, StpCanceled, Disposition, fully_filled, partial_fill_rested,
  partial_fill_canceled, rested, canceled, rejected, stp_canceled_taker,
}
use clob.Book.Level.{PriceLevel}
use clob.Book.Orders.{Outcome, match}
use clob.Events.{Event, EventBody, trade_executed}
use clob.Processor.{Environment, Processor, emit, reject_order}
use clob.Processor.Report.{
  emit_fill, report_fill, report_fills, report_stp_cancels, report_rested, report_canceled,
  report_disposition, match_and_report,
}

-- Who traded with whom, at which price, and how much.
pub record Deal : Type 0 where
  pub maker_order_id : ℕ
  pub maker_user_id : ℕ
  pub taker_order_id : ℕ
  pub taker_user_id : ℕ
  pub price : ℤ
  pub qty : ℤ

unfoldable pub deals : List Fill → List Deal
deals [] = []
deals (f ∷ fs) =
    record {
      maker_order_id = f.maker_order_id;
      maker_user_id = f.maker_user_id;
      taker_order_id = f.taker_order_id;
      taker_user_id = f.taker_user_id;
      price = f.price;
      qty = f.qty;
    }
    ∷ deals fs

abbrev executed : EventBody → List Deal
executed (trade_executed e) =
    record {
      maker_order_id = e.maker_order_id;
      maker_user_id = e.maker_user_id;
      taker_order_id = e.taker_order_id;
      taker_user_id = e.taker_user_id;
      price = e.price;
      qty = e.qty;
    }
    ∷ []
executed _ = []

-- The deals that a log tells of.
unfoldable pub executions : List Event → List Deal
executions [] = []
executions (e ∷ es) = executed e.body ++ executions es

executions-append : (xs ys : List Event) → executions (xs ++ ys) ≡ executions xs ++ executions ys
unfolding executions
executions-append [] ys = refl
executions-append (x ∷ xs) ys =
    ap (λ d. executed x.body ++ d) (executions-append xs ys)
    ∙ sym (append_assoc (executed x.body) (executions xs) (executions ys))

abbrev pub last_price : Option ℤ → List Fill → Option ℤ
last_price last [] = last
last_price last (f ∷ fs) = last_price (some f.price) fs

module _ {T S : Type 0} where
  -- From `p` to `q` the market has made some deals, whose fills it has booked.
  pub record Booked (p : Processor T S) (fs : List Fill) (q : Processor T S) : Type 0 where
    pub book : q.book ≡ p.book
    pub positions : q.positions ≡ apply_fills p.positions fs
    pub told : executions q.events ≡ executions p.events ++ deals fs

  silent_emit :
      (now : ℤ) (p : Processor T S) (body : EventBody)
      → executed body ≡ []
      → executions (emit now p body).events ≡ executions p.events
  unfolding emit executions
  silent_emit now p body h = executions-append p.events _ ∙ rw h (append-nil (executions p.events))

  emit-Booked :
      (now : ℤ) (p : Processor T S) (body : EventBody)
      → executed body ≡ []
      → Booked p [] (emit now p body)
  unfolding emit apply_fills deals
  emit-Booked now p body h = record {
    book = refl;
    positions = refl;
    told = silent_emit now p body h ∙ sym (append-nil (executions p.events));
  }

  Booked-same : (p : Processor T S) → Booked p [] p
  unfolding apply_fills deals
  Booked-same p = record {
    book = refl;
    positions = refl;
    told = sym (append-nil (executions p.events));
  }

  Booked-then :
      (p : Processor T S) (fs : List Fill) (q r : Processor T S)
      → Booked p fs q
      → Booked q [] r
      → Booked p fs r
  unfolding apply_fills deals
  Booked-then p fs q r v w = record {
    book = w.book ∙ v.book;
    positions = w.positions ∙ v.positions;
    told = w.told ∙ append-nil (executions q.events) ∙ v.told;
  }

  report_stp_cancels-Booked :
      (now : ℤ) (cs : List StpCanceled) (p : Processor T S)
      → Booked p [] (report_stp_cancels now cs p)
  unfolding report_stp_cancels
  report_stp_cancels-Booked now [] p = Booked-same p
  report_stp_cancels-Booked now (c ∷ cs) p =
      Booked-then p [] _ _ (emit-Booked now p _ refl) (report_stp_cancels-Booked now cs _)

  emit_fill-told :
      (now : ℤ) (f : Fill) (fees : FeeResult) (p : Processor T S)
      → executions (emit_fill now f fees p).events ≡ executions p.events ++ deals (f ∷ [])
  unfolding emit_fill emit deals executions
  emit_fill-told now f fees p = simp (executions-append, append-nil)

  emit_fill-Booked :
      (now : ℤ) (f : Fill) (fees : FeeResult) (p : Processor T S)
      → Booked p (f ∷ []) (
          emit_fill now f fees
            (record p { positions = apply_fill p.positions (record f { timestamp = now }) }))
  unfolding emit_fill emit apply_fills apply_fill maker_delta taker_delta
  emit_fill-Booked now f fees p = record {
    book = refl;
    positions = refl;
    told =
        emit_fill-told now f fees
          (record p { positions = apply_fill p.positions (record f { timestamp = now }) });
  }

  Booked-cons :
      (p q r : Processor T S) (f : Fill) (fs : List Fill)
      → Booked p (f ∷ []) q
      → Booked q fs r
      → Booked p (f ∷ fs) r
  unfolding apply_fills deals
  Booked-cons p q r f fs v w = record {
    book = w.book ∙ v.book;
    positions = w.positions ∙ ap (λ x. apply_fills x fs) v.positions;
    told =
        w.told
        ∙ ap (λ x. x ++ deals fs) v.told
        ∙ append_assoc (executions p.events) (deals (f ∷ [])) (deals fs);
  }

  -- The same of an action that gives a price and may panic.
  abbrev Tells : Processor T S → List Fill → Option ℤ → Option (Option ℤ × Processor T S) → Type 0
  Tells p fs price none = Unit
  Tells p fs price (some (last, q)) = Booked p fs q × (last ≡ price)

  Tells-cons :
      (p q : Processor T S) (f : Fill) (fs : List Fill) (price : Option ℤ)
      (m : Option (Option ℤ × Processor T S))
      → Booked p (f ∷ []) q
      → Tells q fs price m
      → Tells p (f ∷ fs) price m
  Tells-cons p q f fs price none v w = tt
  Tells-cons p q f fs price (some (last, r)) v w = (Booked-cons p q r f fs v (w.0), w.1)

  report_fills-Tells :
      (env : Environment) (now : ℤ) (last : Option ℤ) (fs : List Fill) (p : Processor T S)
      → Tells p fs (last_price last fs) (report_fills env now last fs p)
  unfolding report_fills report_fill
  report_fills-Tells env now last [] p = (Booked-same p, refl)
  report_fills-Tells env now last (f ∷ fs) p =
      elim (Option-cases (env.fee_calc p.book.config.fee_schedule (record f { timestamp = now }))) [
        | inl e ↦ rw (e, Tells) tt
        | inr (fees, e) ↦
            let q =
              emit_fill now f fees
                (record p { positions = apply_fill p.positions (record f { timestamp = now }) }) in
            rw (e, Tells)
              (Tells-cons p q f fs _ _ (emit_fill-Booked now f fees p)
                (report_fills-Tells env now (some f.price) fs q))
      ]

module _ {T S : Type 0} ⦃bt : BTree T PriceLevel⦄ where
  report_disposition-Booked :
      (now : ℤ) (n : OrderNode) (qty : ℤ) (fs : List Fill) (d : Disposition) (p : Processor T S)
      → Booked p [] (report_disposition now n qty fs d p)
  unfolding report_disposition report_rested report_canceled reject_order
  report_disposition-Booked now n qty fs rested p =
      Booked-then p [] _ _ (emit-Booked now p _ refl) (emit-Booked now _ _ refl)
  report_disposition-Booked now n qty fs partial_fill_rested p =
      Booked-then p [] _ _ (emit-Booked now p _ refl) (emit-Booked now _ _ refl)
  report_disposition-Booked now n qty fs fully_filled p = Booked-same p
  report_disposition-Booked now n qty fs canceled p = emit-Booked now p _ refl
  report_disposition-Booked now n qty fs partial_fill_canceled p = emit-Booked now p _ refl
  report_disposition-Booked now n qty fs stp_canceled_taker p = emit-Booked now p _ refl
  report_disposition-Booked now n qty fs rejected p = emit-Booked now p _ refl

  abbrev Reported : OrderNode → Processor T S → Option (Option ℤ × Processor T S) → Type 0
  Reported n p none = Unit
  Reported n p (some (last, q)) =
      (o : Outcome T) × (match p.book n ≡ some o)
      × (q.book ≡ o.book)
      × (q.positions ≡ apply_fills p.positions o.fills)
      × (executions q.events ≡ executions p.events ++ deals o.fills)
      × (last ≡ last_price none o.fills)

  disposed :
      (now : ℤ) (n : OrderNode) (qty : ℤ) (p : Processor T S) (o : Outcome T)
      (r : Option (Option ℤ × Processor T S))
      → match p.book n ≡ some o
      → Tells (record p { book = o.book }) o.fills (last_price none o.fills) r
      → Reported n p (
          r >>= λ x. some (
            x.0,
            report_disposition now n qty o.fills o.disposition
                (report_stp_cancels now o.cancels x.1),
          ))
  disposed now n qty p o none e v = tt
  disposed now n qty p o (some (last, q)) e v =
      let canceled_makers = report_stp_cancels now o.cancels q in
      let w =
        Booked-then (record p { book = o.book }) o.fills q _ (v.0)
          (Booked-then q [] canceled_makers _ (report_stp_cancels-Booked now o.cancels q)
            (report_disposition-Booked now n qty o.fills o.disposition canceled_makers)) in
      (o, e, w.book, w.positions, w.told, v.1)

  match_and_report-Reported :
      (env : Environment) (now : ℤ) (n : OrderNode) (qty : ℤ) (p : Processor T S)
      → Reported n p (match_and_report env now n qty p)
  unfolding match_and_report
  match_and_report-Reported env now n qty p = elim (Option-cases (match p.book n)) [
    | inl e ↦ rw (e, Reported) tt
    | inr (o, e) ↦
        subst
          (λ m. Reported n p (
            m >>= λ o. report_fills env now none o.fills (record p { book = o.book }) >>= λ x.
            some (
              x.0,
              report_disposition now n qty o.fills o.disposition
                  (report_stp_cancels now o.cancels x.1),
            )))
          (sym e)
          (disposed now n qty p o _ e
            (report_fills-Tells env now none o.fills (record p { book = o.book })))
  ]

  -- If an order is matched and reported without a panic, then the order book has matched it, the book is
  -- the one that the match left, the positions are those before with every fill of the match applied,
  -- the log tells of exactly the deals of these fills, in order and after those before, and the price
  -- that drives the stop orders is that of the last fill, or none.
  pub reports_what_was_matched :
      (env : Environment) (now : ℤ) (n : OrderNode) (qty : ℤ) (p q : Processor T S)
      (last : Option ℤ)
      → match_and_report env now n qty p ≡ some (last, q)
      → (o : Outcome T) × (match p.book n ≡ some o)
        × (q.book ≡ o.book)
        × (q.positions ≡ apply_fills p.positions o.fills)
        × (executions q.events ≡ executions p.events ++ deals o.fills)
        × (last ≡ last_price none o.fills)
  unfolding match_and_report
  reports_what_was_matched env now n qty p q last h =
      subst (Reported n p) h (match_and_report-Reported env now n qty p)
