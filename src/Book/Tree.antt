-- ===== src/Book/Tree.antt =====
-- book/tree.go: the price levels of one side, best price first. The B-tree of tidwall/btree is an
-- interface: its operations are an argument, and its documented behaviour is `BTreeLaws`.
pub mod Laws
use clob.Base.{
  ℕ, zero, suc, ◌+◌, ◌-◌, List, [], ◌∷◌, Bool, true, false, Option, none, some, ltb, ◌==◌, take,
  map, if◌then◌else◌,
}
use clob.Base.Int.{ℤ, pos, ltb_ℤ, leb_ℤ}
use clob.Types.{Side, bid, ask}
use clob.Pool.{Slots, acquire_slot}
use clob.Book.Level.{PriceLevel}
use clob.BTree.{BTree}

-- The comparators of the two sides: the better price comes first.
unfoldable pub side_less : Side → PriceLevel → PriceLevel → Bool
side_less bid a b = ltb_ℤ b.price a.price
side_less ask a b = ltb_ℤ a.price b.price

-- A key to look a level up by its price.
unfoldable pub sentinel : ℤ → PriceLevel
sentinel price = record {
  price = price;
  total_qty = pos 0;
  display_qty = pos 0;
  order_count = 0;
  queue = [];
  pool_index = 0;
}

pub record PriceLevelTree (T : Type 0) : Type 0 where
  pub tree : T
  pub side : Side
  pub count : ℕ

pub record DepthLevel : Type 0 where
  pub price : ℤ
  pub total_qty : ℤ
  pub display_qty : ℤ
  pub order_count : ℕ

abbrev pub depth_level : PriceLevel → DepthLevel
depth_level l = record {
  price = l.price;
  total_qty = l.total_qty;
  display_qty = l.display_qty;
  order_count = l.order_count;
}

-- `Scan` with a callback that stops the walk by `false` and keeps a state.
abbrev pub scan {ℓ} : {S : Type ℓ} → (PriceLevel → S → S × Bool) → List PriceLevel → S → S
scan f [] s = s
scan f (l ∷ ls) s = let rest = scan f ls (f l s).0 in if (f l s).1 then rest else (f l s).0

module _ {T : Type 0} ⦃bt : BTree T PriceLevel⦄ where
  unfoldable pub new_tree : Side → PriceLevelTree T
  unfolding side_less
  new_tree side = record { tree = bt.new (side_less side); side = side; count = 0 }

  unfoldable pub best : PriceLevelTree T → Option PriceLevel
  best t = bt.min t.tree

  unfoldable pub insert : PriceLevelTree T → PriceLevel → PriceLevelTree T
  insert t level = record t { tree = bt.set t.tree level; count = t.count + 1 }

  unfoldable pub delete : PriceLevelTree T → ℤ → PriceLevelTree T
  unfolding sentinel
  delete t price = record t { tree = bt.delete t.tree (sentinel price); count = t.count - 1 }

  unfoldable pub get : PriceLevelTree T → ℤ → Option PriceLevel
  unfolding sentinel
  get t price = bt.get t.tree (sentinel price)

  -- The tree holds pointers. A level that was changed in place is put back under its price.
  unfoldable pub write_back : PriceLevelTree T → PriceLevel → PriceLevelTree T
  write_back t level = record t { tree = bt.set t.tree level }

  -- The level, whether it is new, the tree and the pool of levels; `none` if the pool is exhausted.
  unfoldable pub get_or_create :
      PriceLevelTree T → ℤ → Slots → Option (PriceLevel × Bool × PriceLevelTree T × Slots)
  unfolding get insert sentinel acquire_slot
  get_or_create t price pool = elim (get t price) [
    | some level ↦ some (level, false, t, pool)
    | none ↦ elim (acquire_slot pool) [
      | none ↦ none
      | some (idx, pool') ↦
          let level = record (sentinel price) { pool_index = idx } in
          some (level, true, insert t level, pool')
    ]
  ]

  -- The callback of `Depth` stops once `n` levels are collected.
  unfoldable pub depth : PriceLevelTree T → ℕ → List DepthLevel
  depth t n = map depth_level (take n (bt.items t.tree))

  unfoldable pub iterate {ℓ} : {S : Type ℓ} → PriceLevelTree T → (PriceLevel → S → S × Bool) → S → S
  iterate t f s = scan f (bt.items t.tree) s
