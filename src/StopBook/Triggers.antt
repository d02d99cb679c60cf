-- ===== src/StopBook/Triggers.antt =====
-- What `CheckTriggers` of stopbook/stopbook.go fires.
use clob.Base.{
  ℕ, zero, suc, ◌<◌, ◌≡◌, refl, sym, ap, subst, ◌∙◌, inl, inr, List, [], ◌∷◌, ◌++◌, true, false,
  not, arith, append-nil, append_assoc, Bool-cases, none, some, head?, length, filter,
}
use clob.Base.Int.{ℤ, pos, leb_ℤ, ◌<ℤ◌}
use clob.Types.{Side, bid, ask}
use clob.Pool.{release_slot}
use clob.BTree.{BTree, BTreeLaws, IsOrder, Ascending}
use clob.BTree.Laws.{IsSorted, min_sorted, delete_first, delete_first-IsSorted}
use clob.Book.Index
use clob.Book.Index.{OrderIndex, NodeRef}
use clob.StopBook.{
  StopNode, StopLevel, TriggeredOrder, StopBook, Draining, convert_to_triggered, stop_less, fires,
  drain_nodes, drain_level, drain, draining, drain_fuel, after_loops, check_triggers, fired,
}

pub stop_less-IsOrder : (side : Side) → IsOrder (stop_less side)
unfolding stop_less
stop_less-IsOrder bid = record {
  irrefl = λ a. ground arith;
  trans = λ a b c h k. ground arith;
  split = λ a b c h k. ground arith;
}
stop_less-IsOrder ask = record {
  irrefl = λ a. ground arith;
  trans = λ a b c h k. ground arith;
  split = λ a b c h k. ground arith;
}

-- The orders of some levels, in the order in which the levels and their queues hold them.
abbrev pub orders_in : List StopLevel → List StopNode
orders_in [] = []
orders_in (l ∷ ls) = l.queue ++ orders_in ls

abbrev pub triggered_by : List StopNode → List TriggeredOrder
triggered_by [] = []
triggered_by (n ∷ ns) = convert_to_triggered n ∷ triggered_by ns

triggered_by-append :
    (xs ys : List StopNode) → triggered_by (xs ++ ys) ≡ triggered_by xs ++ triggered_by ys
triggered_by-append [] ys = refl
triggered_by-append (x ∷ xs) ys = ap (λ r. convert_to_triggered x ∷ r) (triggered_by-append xs ys)

-- The index without the ids of some orders.
abbrev pub without : OrderIndex → List StopNode → OrderIndex
without idx [] = idx
without idx (n ∷ ns) = without (Index.delete idx n.order_id) ns

without-append :
    (idx : OrderIndex) (xs ys : List StopNode)
    → without idx (xs ++ ys) ≡ without (without idx xs) ys
without-append idx [] ys = refl
without-append idx (x ∷ xs) ys = without-append (Index.delete idx x.order_id) xs ys

-- A level further from the market than one that does not fire does not fire.
fires_first :
    (side : Side) (last : ℤ) (l m : StopLevel)
    → stop_less side l m ≡ true
    → fires side last l ≡ false
    → fires side last m ≡ false
unfolding stop_less fires
fires_first bid last l m h k = ground arith
fires_first ask last l m h k = ground arith

none_fires :
    (side : Side) (last : ℤ) (l : StopLevel) (ls : List StopLevel)
    → Ascending (stop_less side) (l ∷ ls)
    → fires side last l ≡ false
    → (filter (fires side last) (l ∷ ls) ≡ [])
      × (filter (λ x. not (fires side last x)) (l ∷ ls) ≡ l ∷ ls)
none_fires side last l [] h k = (rw k, rw k)
none_fires side last l (m ∷ ls) h k =
    let r = none_fires side last m ls h.1 (fires_first side last l m h.0 k) in
    (rw k r.0, rw k (ap (λ x. l ∷ x) r.1))

module _ {S : Type 0} where
  drain_nodes_lem :
      (ns : List StopNode) (d : Draining S)
      → ((drain_nodes ns d).tree ≡ d.tree)
        × ((drain_nodes ns d).triggered ≡ d.triggered ++ triggered_by ns)
        × ((drain_nodes ns d).index ≡ without d.index ns)
  unfolding drain_nodes
  drain_nodes_lem [] d = (refl, sym (append-nil d.triggered), refl)
  drain_nodes_lem (n ∷ ns) d =
      let next : Draining S = record d {
        triggered = d.triggered ++ convert_to_triggered n ∷ [];
        index = Index.delete d.index n.order_id;
        node_pool = release_slot n.pool_index d.node_pool;
      } in
      let r = drain_nodes_lem ns next in
      (r.0, r.1 ∙ append_assoc d.triggered (convert_to_triggered n ∷ []) (triggered_by ns), r.2)

module _ {S : Type 0} ⦃bt : BTree S StopLevel⦄ (laws : BTreeLaws bt) (side : Side) (last : ℤ) where
  -- What a loop of `CheckTriggers` makes of the levels of its side.
  record IsDrained (d : Draining S) (ls : List StopLevel) (e : Draining S) : Type 0 where
    due : e.triggered ≡ d.triggered ++ triggered_by (orders_in (filter (fires side last) ls))
    kept : bt.items e.tree ≡ filter (λ l. not (fires side last l)) ls
    unindexed : e.index ≡ without d.index (orders_in (filter (fires side last) ls))
    sorted : IsSorted bt (stop_less side) e.tree

  drain_level_lem :
      (d : Draining S) (l : StopLevel)
      → ((drain_level d l).tree ≡ bt.delete d.tree l)
        × ((drain_level d l).triggered ≡ d.triggered ++ triggered_by l.queue)
        × ((drain_level d l).index ≡ without d.index l.queue)
  unfolding drain_level
  drain_level_lem d l = let r = drain_nodes_lem l.queue d in (refl, r.1, r.2)

  drain_total :
      (k : ℕ) (d : Draining S) (ls : List StopLevel)
      → IsSorted bt (stop_less side) d.tree
      → bt.items d.tree ≡ ls
      → length ls < k
      → (e : Draining S) × (drain k side last d ≡ some e) × IsDrained d ls e
  unfolding drain
  drain_total zero d ls v e h = elim h [ ]
  drain_total (suc k) d [] v e h =
      let first : bt.min d.tree ≡ none =
        min_sorted bt laws (stop_less side) d.tree v ∙ ap head? e in
      (
        d,
        rw (first, drain) refl,
        record { due = sym (append-nil d.triggered); kept = e; unindexed = refl; sorted = v },
      )
  drain_total (suc k) d (l ∷ ls) v e h =
      let first : bt.min d.tree ≡ some l =
        min_sorted bt laws (stop_less side) d.tree v ∙ ap head? e in
      elim (Bool-cases (fires side last l)) [
        | inr stays ↦
            let none_left =
              none_fires side last l ls (subst (Ascending (stop_less side)) e v.ascending) stays in
            (
              d,
              rw (first, stays, drain) refl,
              record {
                due = rw none_left.0 (sym (append-nil d.triggered));
                kept = e ∙ sym none_left.1;
                unindexed = rw none_left.0 refl;
                sorted = v;
              },
            )
        | inl goes ↦
            let n = drain_level_lem d l in
            let (r, done, s) =
              drain_total k (drain_level d l) ls
                (subst (IsSorted bt (stop_less side)) (sym n.0)
                  (delete_first-IsSorted bt laws (stop_less side) d.tree v l ls e))
                (rw n.0 (delete_first bt laws (stop_less side) d.tree v l ls e)) (omega arith) in
            (
              r,
              rw (first, goes, drain) done,
              record {
                due = rw goes (
                    s.due
                    ∙ ap (λ x. x ++ triggered_by (orders_in (filter (fires side last) ls))) n.1
                    ∙ append_assoc d.triggered (triggered_by l.queue) _
                    ∙ ap (λ x. d.triggered ++ x)
                        (sym
                          (triggered_by-append l.queue (orders_in (filter (fires side last) ls)))));
                kept = rw goes s.kept;
                unindexed = rw goes (
                    s.unindexed
                    ∙ ap (λ x. without x (orders_in (filter (fires side last) ls))) n.2
                    ∙ sym
                        (without-append d.index l.queue (orders_in (filter (fires side last) ls))));
                sorted = s.sorted;
              },
            )
      ]

module _ {S : Type 0} ⦃bt : BTree S StopLevel⦄ where
  -- The orders of a side that the last trade fires, by level and then by age, and the other levels.
  abbrev pub orders_due : Side → ℤ → S → List StopNode
  orders_due side last tree = orders_in (filter (fires side last) (bt.items tree))

  abbrev pub levels_kept : Side → ℤ → S → List StopLevel
  levels_kept side last tree = filter (λ l. not (fires side last l)) (bt.items tree)

  module _ (laws : BTreeLaws bt) (s : StopBook S) (last : ℤ) (depth : ℕ) where
    -- With a B-tree that obeys its laws, let both trees of the stop book be in the order of their
    -- comparators, and let the depth be below the limit. Then `CheckTriggers` returns: the orders of
    -- the stop sells whose trigger is at or above the last price and then those of the stop buys
    -- whose trigger is at or below it, each side by level and then by age. Exactly the other levels
    -- stay, both trees stay in order, and the index loses exactly the ids of the orders that fired.
    pub check_triggers_fires :
        IsSorted bt (stop_less ask) s.stop_sells
        → IsSorted bt (stop_less bid) s.stop_buys
        → pos depth <ℤ s.max_depth
        → let due = orders_due ask last s.stop_sells ++ orders_due bid last s.stop_buys in
          (ts : List TriggeredOrder) × (s' : StopBook S) × (check_triggers s last depth
            ≡ some (fired ts s'))
          × (ts ≡ triggered_by due)
          × (bt.items s'.stop_sells ≡ levels_kept ask last s.stop_sells)
          × (bt.items s'.stop_buys ≡ levels_kept bid last s.stop_buys)
          × IsSorted bt (stop_less ask) s'.stop_sells
          × IsSorted bt (stop_less bid) s'.stop_buys
          × (s'.index ≡ without s.index due)
    unfolding check_triggers
    check_triggers_fires sells buys h =
        let (d, sold, v) =
          drain_total laws ask last (drain_fuel s.stop_sells) (draining s) (bt.items s.stop_sells)
            sells refl (omega arith) in
        let rest : Draining S = record d { tree = s.stop_buys } in
        let (e, bought, w) =
          drain_total laws bid last (drain_fuel s.stop_buys) rest (bt.items s.stop_buys) buys refl
            (omega arith) in
        (
          e.triggered,
          after_loops s d e,
          rw (not_deep, sold, bought) refl,
          w.due
              ∙ ap (λ x. x ++ triggered_by (orders_due bid last s.stop_buys)) v.due
              ∙ sym (triggered_by-append (orders_due ask last s.stop_sells) _),
          v.kept,
          w.kept,
          v.sorted,
          w.sorted,
          w.unindexed
              ∙ ap (λ x. without x (orders_due bid last s.stop_buys)) v.unindexed
              ∙ sym (without-append s.index (orders_due ask last s.stop_sells) _),
        )
      where
        not_deep : leb_ℤ s.max_depth (pos depth) ≡ false
        not_deep = ground arith
