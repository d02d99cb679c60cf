-- ===== src/Book/Level.antt =====
-- book/level.go: the queue of orders at one price, oldest first, with totals kept as it changes.
-- The links `prev` and `next` are the order of the list, and a node is found by its order id.
pub mod Laws
use clob.Base.{
  ℕ, ◌+◌, ◌-◌, List, [], ◌∷◌, ◌++◌, Bool, true, false, Option, none, some, ◌==◌, if◌then◌else◌,
}
use clob.Base.Int.{ℤ, add64, sub64, min_ℤ}
use clob.Book.Node.{OrderNode}

pub record PriceLevel : Type 0 where
  pub price : ℤ
  pub total_qty : ℤ
  pub display_qty : ℤ
  pub order_count : ℕ
  pub queue : List OrderNode
  pub pool_index : ℕ

-- The node with an id, the queue without it, and the queue with the node written back.
abbrev pub find_node : ℕ → List OrderNode → Option OrderNode
find_node id [] = none
find_node id (n ∷ ns) = if n.order_id == id then some n else find_node id ns

abbrev pub remove_node : ℕ → List OrderNode → List OrderNode
remove_node id [] = []
remove_node id (n ∷ ns) = if n.order_id == id then ns else n ∷ remove_node id ns

abbrev pub set_node : OrderNode → List OrderNode → List OrderNode
set_node m [] = []
set_node m (n ∷ ns) = if n.order_id == m.order_id then m ∷ ns else n ∷ set_node m ns

unfoldable pub append : PriceLevel → OrderNode → PriceLevel
append l node = record l {
  queue = l.queue ++ node ∷ [];
  total_qty = add64 l.total_qty node.remain_qty;
  display_qty = add64 l.display_qty node.display_qty;
  order_count = l.order_count + 1;
}

unfoldable pub unlink : PriceLevel → OrderNode → PriceLevel
unlink l node = record l {
  queue = remove_node node.order_id l.queue;
  total_qty = sub64 l.total_qty node.remain_qty;
  display_qty = sub64 l.display_qty node.display_qty;
  order_count = l.order_count - 1;
}

-- The node after `DecrementQty`.
unfoldable pub decremented : OrderNode → ℤ → OrderNode
decremented node fill_qty = record node {
  remain_qty = sub64 node.remain_qty fill_qty;
  filled_qty = add64 node.filled_qty fill_qty;
  display_qty = sub64 node.display_qty (min_ℤ fill_qty node.display_qty);
}

unfoldable pub decrement_qty : PriceLevel → OrderNode → ℤ → PriceLevel
unfolding decremented
decrement_qty l node fill_qty = record l {
  queue = set_node (decremented node fill_qty) l.queue;
  total_qty = sub64 l.total_qty fill_qty;
  display_qty = sub64 l.display_qty (min_ℤ fill_qty node.display_qty);
}

-- The node after `ReplenishIceberg`.
unfoldable pub replenished : OrderNode → ℕ → OrderNode
replenished node new_seq_num =
    let replenish = min_ℤ node.hidden_qty node.orig_display_qty in
    record node {
      hidden_qty = sub64 node.hidden_qty replenish;
      remain_qty = replenish;
      display_qty = replenish;
      seq_num = new_seq_num;
    }

-- Taken out of its place with the old quantities, and put at the tail with the new ones.
unfoldable pub replenish_iceberg : PriceLevel → OrderNode → ℕ → PriceLevel
unfolding unlink append replenished
replenish_iceberg l node new_seq_num = append (unlink l node) (replenished node new_seq_num)

abbrev pub is_empty : PriceLevel → Bool
is_empty l = elim l.queue [ [] ↦ true | _ ∷ _ ↦ false ]
