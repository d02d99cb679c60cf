-- ===== src/Book/Orders/Placement.antt =====
-- `match` of book/matching.go, from the order book to its outcome.
use clob.Base.{
  suc, ◌≡◌, refl, sym, subst, ◌∙◌, inl, inr, [], Bool, true, false, not, ◌&&◌, arith, All,
  Bool-cases, Option-cases, Option, none, some, head?,
}
use clob.Base.Int.{pos, ◌≤ℤ◌, int_laws}
use clob.Types.{Side, bid, ask, is_ioc, is_fok, is_market}
use clob.Pool.{Slots}
use clob.Book.Index
use clob.Book.Index.{NodeRef, OrderIndex}
use clob.BTree.{BTree, BTreeLaws}
use clob.Book.Node.{OrderNode, Disposition, partial_fill_rested, rested, rejected}
use clob.Book.Level.{PriceLevel}
use clob.Book.Tree.{PriceLevelTree, get_or_create}
use clob.Book.Tree.Laws.{IsTree}
use clob.Book.Match.{Matching, match_loop, is_zero, can_fill_full}
use clob.Book.Match.Invariant.{IsFair, accepts, qty_sum, max64}
use clob.Book.Match.Outer.{IsStocked, InMatch, Settled, crosses-accepts}
use clob.Book.Match.Rounds.{IsNamed}
use clob.Book.Match.Total.{LevelsNamed, match_loop_total}
use clob.Book.Orders.{
  OrderBook, Outcome, tree_of, with_tree, opposite_of, release_node, matching_of, after_matching,
  rest_node, dispose, match,
}

-- Whether a disposition leaves the taker in the book.
abbrev pub rests : Disposition → Bool
rests partial_fill_rested = true
rests rested = true
rests _ = false

module _ {T : Type 0} ⦃bt : BTree T PriceLevel⦄ where
  -- What `match` asks of the book and of the taker.
  pub record IsReady (b : OrderBook T) (incoming : OrderNode) : Type 0 where
    pub tree : IsTree (opposite_of b incoming.side)
    pub stocked : IsStocked (bt.items (opposite_of b incoming.side).tree)
    pub named : LevelsNamed (bt.items (opposite_of b incoming.side).tree)
    pub market_named : IsNamed b.config.stp_mode
    pub taker_named : IsNamed incoming.stp_mode
    pub open_qty : pos 0 ≤ℤ incoming.remain_qty
    pub open_bounded : incoming.remain_qty ≤ℤ max64

  pub dispose-fills :
      (b : OrderBook T) (stopped : Bool) (m : Matching T) → (dispose b stopped m).fills ≡ m.fills
  unfolding dispose
  dispose-fills b stopped m = ground (arith)

  with_tree-opposite :
      (b : OrderBook T) (s : Side) (t : PriceLevelTree T) (pool : Slots) (index : OrderIndex)
      → opposite_of (record (with_tree b s t) { level_pool = pool; index = index }) s
        ≡ opposite_of b s
  with_tree-opposite b bid t pool index = refl
  with_tree-opposite b ask t pool index = refl

  after_matching-opposite :
      (b : OrderBook T) (s : Side) (m : Matching T)
      → opposite_of (after_matching b s m) s ≡ m.opposite
  after_matching-opposite b bid m = refl
  after_matching-opposite b ask m = refl

  abbrev KeptIf : PriceLevelTree T → Side → Option (OrderBook T) → Type 0
  KeptIf t s none = Unit
  KeptIf t s (some b') = opposite_of b' s ≡ t

  -- The other side of the book is not touched when the taker rests.
  rest_node-KeptIf :
      (b : OrderBook T) (n : OrderNode) → KeptIf (opposite_of b n.side) n.side (rest_node b n)
  unfolding rest_node
  rest_node-KeptIf b n =
      elim (Option-cases (get_or_create (tree_of b n.side) n.price b.level_pool)) [
        | inl e ↦ rw (e, KeptIf) tt
        | inr ((level, created, tree, pool), e) ↦
            rw (e, KeptIf)
              (with_tree-opposite b n.side _ pool
                (Index.put b.index n.order_id (record { side = n.side; price = n.price })))
      ]

  -- A taker rests only if the loops have not stopped it and left something open.
  dispose-rests :
      (b : OrderBook T) (stopped : Bool) (m : Matching T)
      → rests (dispose b stopped m).disposition ≡ true
      → (stopped ≡ false)
        × (is_zero m.incoming.remain_qty ≡ false)
        × (opposite_of (dispose b stopped m).book m.incoming.side ≡ m.opposite)
  unfolding dispose
  dispose-rests b true m h = absurd (ground arith)
  dispose-rests b false m h = elim (Bool-cases (is_zero m.incoming.remain_qty)) [
    | inl filled ↦ absurd (ground arith)
    | inr unfilled ↦ elim (Bool-cases (is_ioc m.incoming.tif)) [
      | inl is ↦ absurd (ground arith)
      | inr not_ioc ↦ elim (Bool-cases (is_market m.incoming.order_type)) [
        | inl is ↦ absurd (ground arith)
        | inr not_market ↦
            let after = after_matching b m.incoming.side m in
            elim (Option-cases (rest_node after m.incoming)) [
              | inl e ↦ absurd (ground arith)
              | inr (resting, e) ↦ (
                refl,
                unfilled,
                rw (unfilled, not_ioc, not_market, e)
                    (subst (KeptIf (opposite_of after m.incoming.side) m.incoming.side) e
                        (rest_node-KeptIf after m.incoming)
                      ∙ after_matching-opposite b m.incoming.side m),
              )
            ]
      ]
    ]
  ]

  module _ (laws : BTreeLaws bt) (b : OrderBook T) (incoming : OrderNode) where
    matching-InMatch :
        IsReady b incoming → InMatch incoming incoming.remain_qty (matching_of b incoming)
    matching-InMatch v = record {
      tree = v.tree;
      stocked = v.stocked;
      open_qty = v.open_qty;
      open_bounded = v.open_bounded;
      balance = omega int_laws;
      fair = tt;
      same = (refl, refl, refl, refl);
    }

    -- What the loops give to `dispose`.
    pub matched :
        IsReady b incoming
        → (stopped : Bool) × (m : Matching T) × (match_loop
              (suc (opposite_of b incoming.side).count)
              b.config.stp_mode
              (matching_of b incoming)
            ≡ some (stopped, m))
          × Settled laws incoming incoming.remain_qty stopped m
    matched v =
        match_loop_total laws incoming incoming.remain_qty b.config.stp_mode v.market_named
          v.taker_named (suc (opposite_of b incoming.side).count) (matching_of b incoming)
          (matching-InMatch v) v.named (omega (arith, v.tree.counted))

    -- An outcome of a match that may be kept.
    pub record IsSound (o : Outcome T) : Type 0 where
      pub fair : All (IsFair incoming) o.fills
      pub within : qty_sum o.fills ≤ℤ incoming.remain_qty
      pub uncrossed :
          rests o.disposition ≡ true
          → (l : PriceLevel) → head? (bt.items (opposite_of o.book incoming.side).tree) ≡ some l
          → accepts incoming l.price ≡ false

    dispose-IsSound :
        (stopped : Bool) (m : Matching T)
        → Settled laws incoming incoming.remain_qty stopped m
        → IsSound (dispose b stopped m)
    dispose-IsSound stopped m v = record {
      fair = subst (All (IsFair incoming)) (sym (dispose-fills b stopped m)) v.inv.fair;
      within = rw (dispose-fills b stopped m) (omega (int_laws, v.inv.balance, v.inv.open_qty));
      uncrossed = λ h l first.
          let r = dispose-rests b stopped m h in
          let at : head? (bt.items m.opposite.tree) ≡ some l =
            subst (λ t. head? (bt.items t.tree) ≡ some l)
              (subst (λ x. opposite_of (dispose b stopped m).book x ≡ m.opposite) v.inv.same.0 r.2)
              first in
          sym (crosses-accepts m.incoming incoming l v.inv.same)
          ∙ v.uncrossed r.0 (ground (arith, v.inv.open_qty, r.1)) l at;
    }

    -- The outcome of a fill-or-kill order that the book cannot fill.
    abbrev pub refused : Outcome T
    refused = record {
      fills = [];
      cancels = [];
      disposition = rejected;
      book = release_node b incoming;
    }

    refused-IsSound : pos 0 ≤ℤ incoming.remain_qty → IsSound refused
    refused-IsSound h = record { fair = tt; within = h; uncrossed = λ k. absurd (ground arith) }

    match-IsSound : IsReady b incoming → (o : Outcome T) × (match b incoming ≡ some o) × IsSound o
    unfolding match
    match-IsSound v =
        let (stopped, m, returned, settled) = matched v in
        elim (Bool-cases
          (is_fok incoming.tif && not (can_fill_full (opposite_of b incoming.side) incoming))) [
            | inl unfillable ↦ (refused, rw unfillable refl, refused-IsSound v.open_qty)
            | inr goes ↦
                (dispose b stopped m, rw (goes, returned) refl, dispose-IsSound stopped m settled)
          ]

    -- With a B-tree that obeys its laws, let the side of the book that a taker meets be a proper tree
    -- of resting orders, let every self-trade mode be a named one, and let the taker's open quantity
    -- be within 0 and 2^63 - 1. Then `match` returns; every fill is of a positive quantity at a
    -- price that the taker accepts; and the fills do not add up to more than the open quantity.
    pub match_returns :
        IsReady b incoming
        → (o : Outcome T) × (match b incoming ≡ some o)
          × All (IsFair incoming) o.fills
          × (qty_sum o.fills ≤ℤ incoming.remain_qty)
    match_returns v = let (o, e, sound) = match-IsSound v in (o, e, sound.fair, sound.within)

    -- With a B-tree that obeys its laws, let the side of the book that a taker meets be a proper tree
    -- of resting orders, let every self-trade mode be a named one, and let the taker's open quantity
    -- be within 0 and 2^63 - 1. If `match` then leaves the taker resting in the book, the best level
    -- of the other side, if there is one, is at a price that the taker does not accept.
    pub match_uncrossed :
        IsReady b incoming
        → (o : Outcome T) → match b incoming ≡ some o
        → rests o.disposition ≡ true
        → (l : PriceLevel) → head? (bt.items (opposite_of o.book incoming.side).tree) ≡ some l
        → accepts incoming l.price ≡ false
    match_uncrossed v o e =
        let (o', e', sound) = match-IsSound v in
        let same : o' ≡ o = cc (e, e') in (subst IsSound same sound).uncrossed
