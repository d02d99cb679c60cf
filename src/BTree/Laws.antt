-- ===== src/BTree/Laws.antt =====
-- The first item of a B-tree.
use clob.Base.{◌≡◌, sym, subst, ◌∙◌, List, [], ◌∷◌, Bool, head?}
use clob.BTree.{BTree, BTreeLaws, IsOrder, Ascending}

pub Ascending-tail_of :
    {A : Type 0} (less : A → A → Bool) (x : A) (xs : List A)
    → Ascending less (x ∷ xs)
    → Ascending less xs
Ascending-tail_of less x [] h = tt
Ascending-tail_of less x (y ∷ ys) h = h.1

-- A tree with a given comparator that is an order, and its items in that order.
pub record IsSorted {T A : Type 0} (bt : BTree T A) (less : A → A → Bool) (t : T) : Type 0 where
  pub order : IsOrder less
  pub compares : bt.less t ≡ less
  pub ascending : Ascending less (bt.items t)

module _ {T A : Type 0} (bt : BTree T A) (laws : BTreeLaws bt) (less : A → A → Bool) (t : T)
    (v : IsSorted bt less t) where
  order_of : IsOrder (bt.less t)
  order_of = subst IsOrder (sym v.compares) v.order

  pub min_sorted : bt.min t ≡ head? (bt.items t)
  min_sorted = laws.min-items t order_of

  pub delete_first : (x : A) (xs : List A) → bt.items t ≡ x ∷ xs → bt.items (bt.delete t x) ≡ xs
  delete_first x xs e = rw (laws.items-delete t x order_of, v.compares, e, v.order.irrefl x)

  pub delete_first-IsSorted :
      (x : A) (xs : List A) → bt.items t ≡ x ∷ xs → IsSorted bt less (bt.delete t x)
  delete_first-IsSorted x xs e = record {
    order = v.order;
    compares = laws.less-delete t x ∙ v.compares;
    ascending =
        subst (Ascending less) (sym (delete_first x xs e))
          (Ascending-tail_of less x xs (subst (Ascending less) e v.ascending));
  }
