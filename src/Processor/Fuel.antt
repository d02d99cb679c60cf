-- ===== src/Processor/Fuel.antt =====
-- engine/processor.go, `checkStopsAndBreaker`: the fuel of the cascade is enough.
use clob.Base.{
  ℕ, zero, suc, ◌+◌, ◌≡◌, refl, ap, ◌∙◌, arith, List, [], ◌∷◌, true, Option, none, some, ◌>>=◌,
  Option-cases, inl, inr,
}
use clob.Base.Int.{ℤ, pos, leb_ℤ, ◌≤ℤ◌, pos_part}
use clob.Config.{halt_cascade_limit}
use clob.Sequence.{next}
use clob.Pool.{acquire_slot}
use clob.BTree.{BTree}
use clob.Book.Level.{PriceLevel}
use clob.StopBook.{StopLevel, TriggeredOrder, TriggerResult, cascade_limit, fired, check_triggers}
use clob.StopBook.Depth.{TriggeredDepth, check_triggers-depth}
use clob.Events.{EventBody}
use clob.Processor.{Environment, Processor, emit, halt_market}
use clob.Processor.Report.{match_and_report}
use clob.Processor.Cascade.{
  triggered_node, accept_node, take_node, follow, process_triggered, process_all, check_stops,
  check_breaker, cascade_fuel,
}
use clob.Processor.Log.{ExtendsIf, ExtendsBoth}
use clob.Processor.Log.Trading.{
  match_and_report-ExtendsBoth, process_triggered-ExtendsIf, check_stops-ExtendsIf,
}

abbrev Anything : EventBody → Type 0
Anything b = Unit

abbrev Cascade : Type 0 → Type 0 → Type 0
Cascade T S = ℤ → Processor T S → Option (Processor T S)

-- Two cascades that do the same to processors with the limit `d`.
abbrev Agree : {T S : Type 0} → ℤ → Cascade T S → Cascade T S → Type 0
Agree {T} {S} d f g =
    (price : ℤ) (q : Processor T S) → q.stop_book.max_depth ≡ d → f price q ≡ g price q

suc_plus : (a b : ℕ) → suc a + b ≡ suc (a + b)
suc_plus a b = omega arith

module _ {T S : Type 0} ⦃bt : BTree T PriceLevel⦄ ⦃st : BTree S StopLevel⦄ where
  abbrev after_triggers :
      Environment
      → ℤ
      → ℤ
      → Cascade T S
      → Processor T S
      → Option (TriggerResult S)
      → Option (Processor T S)
  after_triggers env now price cascade p r = r >>= λ x. elim x [
    | cascade_limit ↦ some (halt_market now halt_cascade_limit p)
    | fired triggered stops ↦
        process_all env now cascade price triggered (record p { stop_book = stops })
        >>= check_breaker now price
  ]

  Agree-follow :
      (d : ℤ) (f g : Cascade T S) (m : Option (Option ℤ × Processor T S)) (p : Processor T S)
      → Agree d f g
      → p.stop_book.max_depth ≡ d
      → ExtendsBoth Anything p m
      → (m >>= follow f) ≡ (m >>= follow g)
  Agree-follow d f g none p h e v = refl
  Agree-follow d f g (some (none, q)) p h e v = refl
  Agree-follow d f g (some (some price, q)) p h e v = h price q (v.same_depth ∙ e)

  process_triggered-Agree :
      (env : Environment) (now : ℤ) (to : TriggeredOrder) (d : ℤ) (f g : Cascade T S)
      (p : Processor T S)
      → Agree d f g
      → p.stop_book.max_depth ≡ d
      → process_triggered env now f to p ≡ process_triggered env now g to p
  unfolding process_triggered take_node accept_node emit
  process_triggered-Agree env now to d f g p h e =
      elim (Option-cases (acquire_slot p.book.node_pool)) [
        | inl i ↦ rw (i, process_triggered) refl
        | inr ((idx, pool), i) ↦
            let n = triggered_node now idx (next p.book.order_seq).n to in
            let q : Processor T S = accept_node now n (record p {
              book = record (p.book) { node_pool = pool; order_seq = next p.book.order_seq };
            }) in
            rw (i, process_triggered)
              (Agree-follow d f g (match_and_report env now n to.qty q) q h e
                (match_and_report-ExtendsBoth Anything (λ _. tt) env now n to.qty q))
      ]

  bind_same :
      (m : Option (Processor T S)) (f g : Processor T S → Option (Processor T S))
      (p : Processor T S)
      → ExtendsIf Anything p m
      → ((q : Processor T S) → q.stop_book.max_depth ≡ p.stop_book.max_depth → f q ≡ g q)
      → (m >>= f) ≡ (m >>= g)
  bind_same none f g p v h = refl
  bind_same (some q) f g p v h = h q v.same_depth

  process_all-Agree :
      (env : Environment) (now price : ℤ) (tos : List TriggeredOrder) (d : ℤ) (f g : Cascade T S)
      (p : Processor T S)
      → Agree d f g
      → ((price : ℤ) (q : Processor T S) → ExtendsIf Anything q (g price q))
      → p.stop_book.max_depth ≡ d
      → process_all env now f price tos p ≡ process_all env now g price tos p
  unfolding process_all emit
  process_all-Agree env now price [] d f g p h v e = refl
  process_all-Agree env now price (to ∷ tos) d f g p h v e =
      ap (λ m. m >>= λ q. process_all env now f price tos q)
        (process_triggered-Agree env now to d f g _ h e)
      ∙ bind_same (process_triggered env now g to _) _ _ _
          (process_triggered-ExtendsIf Anything (λ _. tt) env now g to v _)
          (λ q same. process_all-Agree env now price tos d f g q h v (same ∙ e))

  -- One step of the cascade, given that what it calls at the next depth agrees.
  cascade_step :
      (env : Environment) (now price : ℤ) (d : ℤ) (f g : Cascade T S) (p : Processor T S)
      → Agree d f g
      → ((price : ℤ) (q : Processor T S) → ExtendsIf Anything q (g price q))
      → p.stop_book.max_depth ≡ d
      → (r : Option (TriggerResult S)) → TriggeredDepth p.stop_book r
      → after_triggers env now price f p r ≡ after_triggers env now price g p r
  cascade_step env now price d f g p h v e none same = refl
  cascade_step env now price d f g p h v e (some cascade_limit) same = refl
  cascade_step env now price d f g p h v e (some (fired ts s)) same =
      ap (λ m. m >>= check_breaker now price)
        (process_all-Agree env now price ts d f g (record p { stop_book = s }) h v (same ∙ e))

  -- Fuel beyond the depths that are left changes nothing.
  check_stops-more_fuel :
      (k extra : ℕ) (env : Environment) (now : ℤ) (depth : ℕ) (price : ℤ) (d : ℤ)
      (p : Processor T S)
      → p.stop_book.max_depth ≡ d
      → d ≤ℤ pos (depth + k)
      → check_stops (suc (k + extra)) env now depth price p
        ≡ check_stops (suc k) env now depth price p
  unfolding check_stops check_triggers
  check_stops-more_fuel zero extra env now depth price d p e h =
      let deep : leb_ℤ p.stop_book.max_depth (pos depth) ≡ true = ground arith in rw deep refl
  check_stops-more_fuel (suc k) extra env now depth price d p e h =
      cascade_step env now price d (check_stops (suc k + extra) env now (depth + 1))
        (check_stops (suc k) env now (depth + 1)) p
        (λ x q same.
          ap (λ n. check_stops n env now (depth + 1) x q) (suc_plus k extra)
          ∙ check_stops-more_fuel k extra env now (depth + 1) x d q same (omega arith))
        (check_stops-ExtendsIf Anything (λ _. tt) (suc k) env now (depth + 1)) e
        (check_triggers p.stop_book price depth) (check_triggers-depth p.stop_book price depth)

  -- After a trade, the cascade of stop orders runs on `max_depth + 1` rounds of fuel, and on one
  -- if that limit is negative. More fuel gives the
  -- same result: no cascade is cut off by the model, only by the limit on its depth, a panic, or a
  -- match that does not end.
  pub cascade_fuel_suffices :
      (extra : ℕ) (env : Environment) (now price : ℤ) (p : Processor T S)
      → check_stops (cascade_fuel p + extra) env now 0 price p
        ≡ check_stops (cascade_fuel p) env now 0 price p
  cascade_fuel_suffices extra env now price p =
      ap (λ n. check_stops n env now 0 price p) (suc_plus (pos_part p.stop_book.max_depth) extra)
      ∙ check_stops-more_fuel (pos_part p.stop_book.max_depth) extra env now 0 price
          p.stop_book.max_depth p refl (omega arith)
