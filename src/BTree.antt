-- ===== src/BTree.antt =====
-- The interface of github.com/tidwall/btree (BTreeG), as far as book/tree.go and
-- stopbook/stopbook.go use it: items in the order of the comparator that the tree was made with,
-- at most one of each class of items that the comparator does not tell apart.
pub mod Laws
use clob.Base.{List, [], ◌∷◌, Bool, true, false, Option, none, some, ◌≡◌, if◌then◌else◌, head?}

-- `items` is what `Scan` visits, in order; `less` is the comparator of the tree.
pub record BTree (T A : Type 0) : Type 0 where
  pub new : (A → A → Bool) → T
  pub less : T → A → A → Bool
  pub set : T → A → T
  pub delete : T → A → T
  pub get : T → A → Option A
  pub min : T → Option A
  pub items : T → List A

-- A comparator as the library asks for it: a strict weak order.
pub record IsOrder {A : Type 0} (less : A → A → Bool) : Type 0 where
  pub irrefl : (a : A) → less a a ≡ false
  pub trans : (a b c : A) → less a b ≡ true → less b c ≡ true → less a c ≡ true
  pub split : (a b c : A) → less a c ≡ true → less b c ≡ false → less a b ≡ true

module _ {A : Type 0} (less : A → A → Bool) where
  -- The place of `a` among items in order: a new item, or in place of the one that is its equal.
  abbrev pub ordered_set : A → List A → List A
  ordered_set a [] = a ∷ []
  ordered_set a (x ∷ xs) =
      if less x a then x ∷ ordered_set a xs else if less a x then a ∷ x ∷ xs else a ∷ xs

  abbrev pub ordered_delete : A → List A → List A
  ordered_delete a [] = []
  ordered_delete a (x ∷ xs) =
      if less x a then x ∷ ordered_delete a xs else if less a x then x ∷ xs else xs

  abbrev pub ordered_get : A → List A → Option A
  ordered_get a [] = none
  ordered_get a (x ∷ xs) = if less x a then ordered_get a xs else if less a x then none else some x

  -- Each item comes before the next.
  abbrev pub Ascending : List A → Type 0
  Ascending [] = Unit {0}
  Ascending (x ∷ []) = Unit {0}
  Ascending (x ∷ y ∷ ys) = (less x y ≡ true) × Ascending (y ∷ ys)

-- What the library documents of a tree whose comparator is an order.
pub record BTreeLaws {T A : Type 0} (bt : BTree T A) : Type 0 where
  pub less-new : (f : A → A → Bool) → bt.less (bt.new f) ≡ f
  pub less-set : (t : T) (a : A) → bt.less (bt.set t a) ≡ bt.less t
  pub less-delete : (t : T) (a : A) → bt.less (bt.delete t a) ≡ bt.less t
  pub items-new : (f : A → A → Bool) → IsOrder f → bt.items (bt.new f) ≡ []
  pub items-set :
      (t : T) (a : A)
      → IsOrder (bt.less t)
      → bt.items (bt.set t a) ≡ ordered_set (bt.less t) a (bt.items t)
  pub items-delete :
      (t : T) (a : A)
      → IsOrder (bt.less t)
      → bt.items (bt.delete t a) ≡ ordered_delete (bt.less t) a (bt.items t)
  pub get-items :
      (t : T) (a : A) → IsOrder (bt.less t) → bt.get t a ≡ ordered_get (bt.less t) a (bt.items t)
  pub min-items : (t : T) → IsOrder (bt.less t) → bt.min t ≡ head? (bt.items t)
