-- ===== src/Book/Index.antt =====
-- book/index.go: the resting orders by id. A pointer to a resting node is the place where it
-- stands: its side and its price, where the level holds it under its id.
use clob.Base.{
  ℕ, ◌≡◌, refl, List, [], ◌∷◌, Bool, true, false, Option, none, some, ◌==◌, if◌then◌else◌, arith,
}
use clob.Base.Int.{ℤ}
use clob.Types.{Side}

pub record NodeRef : Type 0 where
  pub side : Side
  pub price : ℤ

abbrev pub OrderIndex : Type 0
OrderIndex = List (ℕ × NodeRef)

unfoldable pub lookup : OrderIndex → ℕ → Option NodeRef
lookup [] id = none
lookup ((j, r) ∷ idx) id = if j == id then some r else lookup idx id

unfoldable pub put : OrderIndex → ℕ → NodeRef → OrderIndex
put [] id r = (id, r) ∷ []
put ((j, s) ∷ idx) id r = if j == id then (id, r) ∷ idx else (j, s) ∷ put idx id r

unfoldable pub delete : OrderIndex → ℕ → OrderIndex
delete [] id = []
delete ((j, s) ∷ idx) id = if j == id then delete idx id else (j, s) ∷ delete idx id

unfoldable pub has : OrderIndex → ℕ → Bool
unfolding lookup
has idx id = elim (lookup idx id) [ none ↦ false | some _ ↦ true ]

-- After `Put` of an id, `Get` of that id gives the new entry, and of any other id what it gave before.
pub lookup-put :
    (idx : OrderIndex) (i j : ℕ) (r : NodeRef)
    → lookup (put idx i r) j ≡ (if i == j then some r else lookup idx j)
unfolding lookup put
lookup-put [] i j r = refl
lookup-put ((k, s) ∷ idx) i j r = ground (arith, lookup-put idx i j r)

-- After `Delete` of an id, `Get` of that id gives nothing, and of any other id what it gave before.
pub lookup-delete :
    (idx : OrderIndex) (i j : ℕ) → lookup (delete idx i) j ≡ (if i == j then none else lookup idx j)
unfolding lookup delete
lookup-delete [] i j = ground arith
lookup-delete ((k, s) ∷ idx) i j = ground (arith, lookup-delete idx i j)
