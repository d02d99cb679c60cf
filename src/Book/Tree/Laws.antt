-- ===== src/Book/Tree/Laws.antt =====
-- The tree of one side as the ordered list of its levels.
use clob.Base.{◌≡◌, sym, ap, subst, ◌∙◌, List, [], ◌∷◌, false, arith, length, head?}
use clob.Types.{Side, bid, ask}
use clob.Book.Level.{PriceLevel}
use clob.BTree.{BTree, BTreeLaws, IsOrder, Ascending}
use clob.Book.Tree.{PriceLevelTree, side_less, sentinel, new_tree, best, delete, write_back}

-- The comparators of both sides are strict weak orders, as the B-tree asks of them.
pub side_less-IsOrder : (side : Side) → IsOrder (side_less side)
unfolding side_less
side_less-IsOrder bid = record {
  irrefl = λ a. ground arith;
  trans = λ a b c h k. ground arith;
  split = λ a b c h k. ground arith;
}
side_less-IsOrder ask = record {
  irrefl = λ a. ground arith;
  trans = λ a b c h k. ground arith;
  split = λ a b c h k. ground arith;
}

less_same : (side : Side) (a b : PriceLevel) → a.price ≡ b.price → side_less side a b ≡ false
unfolding side_less
less_same bid a b e = ground arith
less_same ask a b e = ground arith

less_at_price :
    (side : Side) (a b c : PriceLevel) → b.price ≡ a.price → side_less side b c ≡ side_less side a c
unfolding side_less
less_at_price bid a b c e = rw e
less_at_price ask a b c e = rw e

Ascending-tail :
    (side : Side) (l : PriceLevel) (ls : List PriceLevel)
    → Ascending (side_less side) (l ∷ ls)
    → Ascending (side_less side) ls
Ascending-tail side l [] h = tt
Ascending-tail side l (x ∷ ls) h = h.1

Ascending-replace :
    (side : Side) (l l' : PriceLevel) (ls : List PriceLevel)
    → l'.price ≡ l.price
    → Ascending (side_less side) (l ∷ ls)
    → Ascending (side_less side) (l' ∷ ls)
Ascending-replace side l l' [] e h = tt
Ascending-replace side l l' (x ∷ ls) e h = (less_at_price side l l' x e ∙ h.0, h.1)

module _ {T : Type 0} ⦃bt : BTree T PriceLevel⦄ where
  -- A tree with the comparator of its side, its levels in order, and the right count.
  pub record IsTree (t : PriceLevelTree T) : Type 0 where
    pub order : bt.less t.tree ≡ side_less t.side
    pub ascending : Ascending (side_less t.side) (bt.items t.tree)
    pub counted : t.count ≡ length (bt.items t.tree)

  module _ (laws : BTreeLaws bt) where
    less-IsOrder : (t : PriceLevelTree T) → IsTree t → IsOrder (bt.less t.tree)
    less-IsOrder t v = subst IsOrder (sym v.order) (side_less-IsOrder t.side)

    pub new_tree-IsTree : (side : Side) → IsTree (new_tree side)
    unfolding new_tree
    new_tree-IsTree side =
        let empty = laws.items-new (side_less side) (side_less-IsOrder side) in
        record {
          order = laws.less-new (side_less side);
          ascending = rw empty tt;
          counted = rw empty;
        }

    -- `Best` is the first level.
    pub best-items : (t : PriceLevelTree T) → IsTree t → best t ≡ head? (bt.items t.tree)
    unfolding best
    best-items t v = laws.min-items t.tree (less-IsOrder t v)

    -- `Delete` at the price of the first level leaves the others.
    pub items-delete_best :
        (t : PriceLevelTree T) (l : PriceLevel) (ls : List PriceLevel)
        → IsTree t
        → bt.items t.tree ≡ l ∷ ls
        → bt.items (delete t l.price).tree ≡ ls
    unfolding delete sentinel
    items-delete_best t l ls v e =
        rw (laws.items-delete t.tree (sentinel l.price) (less-IsOrder t v), v.order, e)
          (ground
            (arith, less_same t.side l (sentinel l.price), less_same t.side (sentinel l.price) l))

    -- The first level is replaced by one at its price.
    pub items-write_back_best :
        (t : PriceLevelTree T) (l l' : PriceLevel) (ls : List PriceLevel)
        → IsTree t
        → bt.items t.tree ≡ l ∷ ls
        → l'.price ≡ l.price
        → bt.items (write_back t l').tree ≡ l' ∷ ls
    unfolding write_back
    items-write_back_best t l l' ls v e p =
        rw (laws.items-set t.tree l' (less-IsOrder t v), v.order, e)
          (ground (arith, less_same t.side l l', less_same t.side l' l))

    pub delete_best-IsTree :
        (t : PriceLevelTree T) (l : PriceLevel) (ls : List PriceLevel)
        → IsTree t
        → bt.items t.tree ≡ l ∷ ls
        → IsTree (delete t l.price)
    unfolding delete
    delete_best-IsTree t l ls v e =
        let rest = items-delete_best t l ls v e in
        record {
          order = laws.less-delete t.tree _ ∙ v.order;
          ascending =
              subst (Ascending (side_less t.side)) (sym rest)
                (Ascending-tail t.side l ls (subst (Ascending (side_less t.side)) e v.ascending));
          counted = omega (arith, v.counted, ap length e, ap length rest);
        }

    pub write_back_best-IsTree :
        (t : PriceLevelTree T) (l l' : PriceLevel) (ls : List PriceLevel)
        → IsTree t
        → bt.items t.tree ≡ l ∷ ls
        → l'.price ≡ l.price
        → IsTree (write_back t l')
    unfolding write_back
    write_back_best-IsTree t l l' ls v e p =
        let rest = items-write_back_best t l l' ls v e p in
        record {
          order = laws.less-set t.tree l' ∙ v.order;
          ascending = subst (Ascending (side_less t.side)) (sym rest) (
              Ascending-replace t.side l l' ls p
                (subst (Ascending (side_less t.side)) e v.ascending));
          counted = omega (arith, v.counted, ap length e, ap length rest);
        }
