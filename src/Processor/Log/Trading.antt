-- ===== src/Processor/Log/Trading.antt =====
-- What the actions of engine/processor.go that may trade append to the log, and so every action.
use clob.Base.{
  ℕ, zero, suc, ◌+◌, ◌≡◌, refl, List, [], ◌∷◌, false, Option, none, some, ◌>>=◌, Option-cases, inl,
  inr,
}
use clob.Base.Int.{ℤ}
use clob.Config.{halt_cascade_limit}
use clob.Sequence.{next}
use clob.Pool.{Slots, acquire_slot}
use clob.BTree.{BTree}
use clob.Book.Node.{OrderNode, Fill}
use clob.Book.Level.{PriceLevel}
use clob.Book.Orders.{match}
use clob.StopBook.{StopLevel, TriggeredOrder, TriggerResult, cascade_limit, fired, check_triggers}
use clob.StopBook.Depth.{TriggeredDepth, check_triggers-depth}
use clob.Fees.{FeeResult}
use clob.Events.{EventBody}
use clob.Processor.{Environment, Processor, halt_market}
use clob.Processor.Report.{emit_fill, report_fill, report_fills, match_and_report}
use clob.Processor.Cascade.{
  accept_node, take_node, triggered_node, follow, process_triggered, process_all, check_stops,
  check_breaker, cascade_fuel, after_match,
}
use clob.Processor.Log.{
  Extends, Extends-quiet, Extends-same, Extends-trans, emit-Extends, ExtendsIf, ExtendsIf-after,
  ExtendsIf-bind, ExtendsBoth, ExtendsBoth-after, ExtendsBoth-after_if, ExtendsBoth-bind,
  ExtendsBoth-then, ExtendsIf-ask, ExtendsBoth-ask,
}
use clob.Processor.Log.Plain.{
  is_trade, reject_order-Extends, accept_node-Extends, halt_market-Extends,
  report_stp_cancels-Extends, check_breaker-ExtendsIf, report_disposition-Extends,
}

module _ {T S : Type 0} (P : EventBody → Type 0) (all : (b : EventBody) → P b) where
  emit_fill-Extends :
      (now : ℤ) (f : Fill) (fees : FeeResult) (p : Processor T S)
      → Extends P p (emit_fill now f fees p)
  unfolding emit_fill
  emit_fill-Extends now f fees p = Extends-trans P p _ _ (emit-Extends P now p _ (all _)) (
      Extends-trans P _ _ _ (emit-Extends P now _ _ (all _))
        (Extends-trans P _ _ _ (emit-Extends P now _ _ (all _)) (emit-Extends P now _ _ (all _))))

  report_fill-ExtendsIf :
      (env : Environment) (now : ℤ) (f : Fill) (p : Processor T S)
      → ExtendsIf P p (report_fill env now f p)
  unfolding report_fill
  report_fill-ExtendsIf env now f p =
      ExtendsIf-ask P p (env.fee_calc p.book.config.fee_schedule (record f { timestamp = now })) _
        (λ fees.
          Extends-trans P p _ _ (Extends-quiet P p _ refl refl refl)
            (emit_fill-Extends now f fees _))

  pub report_fills-ExtendsBoth :
      (env : Environment) (now : ℤ) (last : Option ℤ) (fs : List Fill) (p : Processor T S)
      → ExtendsBoth P p (report_fills env now last fs p)
  unfolding report_fills
  report_fills-ExtendsBoth env now last [] p = Extends-same P p
  report_fills-ExtendsBoth env now last (f ∷ fs) p =
      ExtendsBoth-after_if P p (report_fill env now f p) _ (report_fill-ExtendsIf env now f p)
        (report_fills-ExtendsBoth env now (some f.price) fs)

module _ {P : EventBody → Type 0} (all : (b : EventBody) → P b) where
  pub plain : (b : EventBody) → is_trade b ≡ false → P b
  plain b e = all b

module _ {T S : Type 0} ⦃bt : BTree T PriceLevel⦄ (P : EventBody → Type 0)
    (all : (b : EventBody) → P b) where
  pub match_and_report-ExtendsBoth :
      (env : Environment) (now : ℤ) (n : OrderNode) (qty : ℤ) (p : Processor T S)
      → ExtendsBoth P p (match_and_report env now n qty p)
  unfolding match_and_report
  match_and_report-ExtendsBoth env now n qty p = ExtendsBoth-ask P p (match p.book n) _ (λ o.
      let q : Processor T S = record p { book = o.book } in
      ExtendsBoth-then P p (report_fills env now none o.fills q) _
        (ExtendsBoth-after P p q _ (Extends-quiet P p q refl refl refl)
          (report_fills-ExtendsBoth P all env now none o.fills q))
        (λ last r.
          Extends-trans P r _ _ (report_stp_cancels-Extends P (plain all) now o.cancels r)
            (report_disposition-Extends P (plain all) now n qty o.fills o.disposition _)))

module _ {T S : Type 0} ⦃bt : BTree T PriceLevel⦄ ⦃st : BTree S StopLevel⦄ (P : EventBody → Type 0)
    (all : (b : EventBody) → P b) where
  follow-ExtendsIf :
      (cascade : ℤ → Processor T S → Option (Processor T S))
      → ((price : ℤ) (q : Processor T S) → ExtendsIf P q (cascade price q))
      → (last : Option ℤ) (q : Processor T S) → ExtendsIf P q (follow cascade (last, q))
  follow-ExtendsIf cascade h none q = Extends-same P q
  follow-ExtendsIf cascade h (some price) q = h price q

  -- A node that is accepted, matched, and then followed by something.
  pub matched_node-ExtendsIf :
      (env : Environment) (now : ℤ) (n : OrderNode) (qty : ℤ) (p q : Processor T S)
      (f : Option ℤ × Processor T S → Option (Processor T S))
      → Extends P p q
      → ((last : Option ℤ) (r : Processor T S) → ExtendsIf P r (f (last, r)))
      → ExtendsIf P p (match_and_report env now n qty q >>= f)
  matched_node-ExtendsIf env now n qty p q f v w = ExtendsIf-after P p q _ v (
      ExtendsBoth-bind P q (match_and_report env now n qty q) f
        (match_and_report-ExtendsBoth P all env now n qty q) w)

  -- The slot and the number of an order that is taken in.
  pub taken :
      (p : Processor T S) (pool : Slots) (n : OrderNode) (now : ℤ)
      → Extends P p (
          accept_node now n (record p {
            book = record (p.book) { node_pool = pool; order_seq = next p.book.order_seq };
          }))
  taken p pool n now =
      Extends-trans P p _ _ (Extends-quiet P p _ refl refl refl)
        (accept_node-Extends P (plain all) now n _)

  pub process_triggered-ExtendsIf :
      (env : Environment) (now : ℤ) (cascade : ℤ → Processor T S → Option (Processor T S))
      (to : TriggeredOrder)
      → ((price : ℤ) (q : Processor T S) → ExtendsIf P q (cascade price q))
      → (p : Processor T S) → ExtendsIf P p (process_triggered env now cascade to p)
  unfolding process_triggered take_node
  process_triggered-ExtendsIf env now cascade to h p =
      elim (Option-cases (acquire_slot p.book.node_pool)) [
        | inl e ↦ rw (e, ExtendsIf) (reject_order-Extends P (plain all) now p _ _ _)
        | inr ((i, pool), e) ↦
            rw (e, ExtendsIf)
              (matched_node-ExtendsIf env now _ to.qty p _ _
                (taken p pool (triggered_node now i (next p.book.order_seq).n to) now)
                (follow-ExtendsIf cascade h))
      ]

  process_all-ExtendsIf :
      (env : Environment) (now : ℤ) (cascade : ℤ → Processor T S → Option (Processor T S))
      (price : ℤ) (tos : List TriggeredOrder)
      → ((price : ℤ) (q : Processor T S) → ExtendsIf P q (cascade price q))
      → (p : Processor T S) → ExtendsIf P p (process_all env now cascade price tos p)
  unfolding process_all
  process_all-ExtendsIf env now cascade price [] h p = Extends-same P p
  process_all-ExtendsIf env now cascade price (to ∷ tos) h p =
      ExtendsIf-bind P p _ _
        (ExtendsIf-after P p _ _ (emit-Extends P now p _ (all _))
          (process_triggered-ExtendsIf env now cascade to h _))
        (process_all-ExtendsIf env now cascade price tos h)

  -- What `checkStopsAndBreaker` does with the stop orders that a trade fires.
  cascade-ExtendsIf :
      (env : Environment) (now price : ℤ) (cascade : ℤ → Processor T S → Option (Processor T S))
      (p : Processor T S)
      → ((price : ℤ) (q : Processor T S) → ExtendsIf P q (cascade price q))
      → (r : Option (TriggerResult S)) → TriggeredDepth p.stop_book r
      → ExtendsIf P p (
          r >>= λ x. elim x [
            | cascade_limit ↦ some (halt_market now halt_cascade_limit p)
            | fired triggered stops ↦
                process_all env now cascade price triggered (record p { stop_book = stops })
                >>= check_breaker now price
          ])
  cascade-ExtendsIf env now price cascade p h none d = tt
  cascade-ExtendsIf env now price cascade p h (some cascade_limit) d =
      halt_market-Extends P (plain all) now _ p
  cascade-ExtendsIf env now price cascade p h (some (fired ts s)) d =
      ExtendsIf-after P p (record p { stop_book = s }) _ (Extends-quiet P p _ refl refl d)
        (ExtendsIf-bind P _ _ _ (process_all-ExtendsIf env now cascade price ts h _)
          (check_breaker-ExtendsIf P (plain all) now price))

  pub check_stops-ExtendsIf :
      (k : ℕ) (env : Environment) (now : ℤ) (depth : ℕ) (price : ℤ) (p : Processor T S)
      → ExtendsIf P p (check_stops k env now depth price p)
  unfolding check_stops
  check_stops-ExtendsIf zero env now depth price p = tt
  check_stops-ExtendsIf (suc k) env now depth price p =
      cascade-ExtendsIf env now price (check_stops k env now (depth + 1)) p
        (check_stops-ExtendsIf k env now (depth + 1)) (check_triggers p.stop_book price depth)
        (check_triggers-depth p.stop_book price depth)

  pub after_match-ExtendsIf :
      (env : Environment) (now : ℤ) (last : Option ℤ) (q : Processor T S)
      → ExtendsIf P q (after_match env now (last, q))
  unfolding after_match
  after_match-ExtendsIf env now last q =
      follow-ExtendsIf (check_stops (cascade_fuel q) env now 0)
        (check_stops-ExtendsIf (cascade_fuel q) env now 0) last q
