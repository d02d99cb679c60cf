-- ===== src/Book/Orders/Priority.antt =====
-- `match` of book/matching.go: which resting orders an incoming order trades with.
use clob.Base.{ℕ, suc, ◌≡◌, refl, sym, subst, inl, inr, List, ◌++◌, not, ◌&&◌, Bool-cases, some}
use clob.BTree.{BTree, BTreeLaws}
use clob.Book.Node.{OrderNode}
use clob.Book.Level.{PriceLevel}
use clob.Types.{is_fok}
use clob.Book.Match.{can_fill_full}
use clob.Book.Match.Turns.{makers}
use clob.Book.Match.Priority.{
  level_ids, LevelsPlain, InLine, InOrder, InOrderIf, match_loop-InOrderIf,
}
use clob.Book.Orders.{OrderBook, Outcome, opposite_of, matching_of, dispose, match}
use clob.Book.Orders.Placement.{IsReady, dispose-fills, matched, refused}

module _ {T : Type 0} ⦃bt : BTree T PriceLevel⦄ (laws : BTreeLaws bt) (b : OrderBook T)
    (incoming : OrderNode) where
  -- The orders on the side that `incoming` meets, the best level first and each queue from its head.
  abbrev pub line : List ℕ
  line = level_ids (bt.items (opposite_of b incoming.side).tree)

  matching-InLine :
      IsReady b incoming
      → LevelsPlain incoming.user_id (bt.items (opposite_of b incoming.side).tree)
      → InLine laws incoming.user_id line (matching_of b incoming)
  matching-InLine v p = record { tree = v.tree; taker = refl; plain = p; track = inl refl }

  -- With a B-tree that obeys its laws, let the side of the book that a taker meets be a proper tree
  -- of resting orders, let every self-trade mode be a named one, and let the taker's open quantity
  -- be within 0 and 2^63 - 1. Let no order on that side hide a part of its quantity, and none be of
  -- the taker's own user. Then `match` returns, and the orders that the fills are with, in the order
  -- of the fills, are the first ones of that side, the best level first and each level's queue from
  -- its head: none is passed over.
  pub fills_by_priority :
      IsReady b incoming
      → LevelsPlain incoming.user_id (bt.items (opposite_of b incoming.side).tree)
      → (o : Outcome T) × (match b incoming ≡ some o)
        × ((later : List ℕ) × (line ≡ makers o.fills ++ later))
  unfolding match
  fills_by_priority v p =
      let (stopped, m, returned, settled) = matched laws b incoming v in
      let ordered : InOrder line m.fills = subst (InOrderIf laws incoming.user_id line) returned (
        match_loop-InOrderIf laws incoming.user_id line b.config.stp_mode
          (suc (opposite_of b incoming.side).count) (matching_of b incoming)
          (matching-InLine v p)) in
      elim (Bool-cases
        (is_fok incoming.tif && not (can_fill_full (opposite_of b incoming.side) incoming))) [
          | inl unfillable ↦ (refused laws b incoming, rw unfillable refl, (line, refl))
          | inr goes ↦ (
            dispose b stopped m,
            rw (goes, returned) refl,
            subst (InOrder line) (sym (dispose-fills b stopped m)) ordered,
          )
        ]
