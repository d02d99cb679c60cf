-- ===== src/StopBook.antt =====
-- stopbook/: the stop orders that wait for a price. Levels are ordered by their trigger price, and a
-- pointer to a node is its side, price and id, as in the order book.
pub mod Triggers
pub mod Depth
use clob.Base.{
  ℕ, zero, suc, ◌+◌, ◌-◌, List, [], ◌∷◌, ◌++◌, Bool, true, false, ◌&&◌, Option, none, some, leb,
  ◌==◌, if◌then◌else◌, ◌>>=◌, length,
}
use clob.Base.Int.{ℤ, pos, ltb_ℤ, leb_ℤ}
use clob.Types.{Side, bid, ask, OrderType, Tif, StpMode}
use clob.Pool.{Slots, acquire_slot, release_slot}
use clob.BTree.{BTree}
use clob.Book.Index
use clob.Book.Index.{OrderIndex, NodeRef}

pub record StopNode : Type 0 where
  pub order_id : ℕ
  pub user_id : ℕ
  pub side : Side
  pub tif : Tif
  pub flags : ℕ
  pub stp_mode : StpMode
  pub trigger_price : ℤ
  pub limit_price : ℤ
  pub qty : ℤ
  pub convert_to : OrderType
  pub expire_at : ℤ
  pub timestamp : ℤ
  pub seq_num : ℕ
  pub pool_index : ℕ

pub record StopLevel : Type 0 where
  pub price : ℤ
  pub queue : List StopNode
  pub order_count : ℕ
  pub pool_index : ℕ

abbrev pub find_stop : ℕ → List StopNode → Option StopNode
find_stop id [] = none
find_stop id (n ∷ ns) = if n.order_id == id then some n else find_stop id ns

abbrev pub remove_stop : ℕ → List StopNode → List StopNode
remove_stop id [] = []
remove_stop id (n ∷ ns) = if n.order_id == id then ns else n ∷ remove_stop id ns

unfoldable pub append_stop : StopLevel → StopNode → StopLevel
append_stop l node = record l { queue = l.queue ++ node ∷ []; order_count = l.order_count + 1 }

unfoldable pub unlink_stop : StopLevel → StopNode → StopLevel
unlink_stop l node = record l {
  queue = remove_stop node.order_id l.queue;
  order_count = l.order_count - 1;
}

abbrev pub no_stops : StopLevel → Bool
no_stops l = elim l.queue [ [] ↦ true | _ ∷ _ ↦ false ]

-- A stop order that has fired. Its market is left out.
pub record TriggeredOrder : Type 0 where
  pub order_id : ℕ
  pub user_id : ℕ
  pub side : Side
  pub convert_to : OrderType
  pub limit_price : ℤ
  pub qty : ℤ
  pub tif : Tif
  pub flags : ℕ
  pub stp_mode : StpMode

unfoldable pub convert_to_triggered : StopNode → TriggeredOrder
convert_to_triggered n = record {
  order_id = n.order_id;
  user_id = n.user_id;
  side = n.side;
  convert_to = n.convert_to;
  limit_price = n.limit_price;
  qty = n.qty;
  tif = n.tif;
  flags = n.flags;
  stp_mode = n.stp_mode;
}

-- Stop sells: the highest trigger comes first. Stop buys: the lowest.
unfoldable pub stop_less : Side → StopLevel → StopLevel → Bool
stop_less ask a b = ltb_ℤ b.price a.price
stop_less bid a b = ltb_ℤ a.price b.price

abbrev pub stop_key : ℤ → StopLevel
stop_key price = record { price = price; queue = []; order_count = 0; pool_index = 0 }

-- Whether the last trade fires a level: sells at or below the trigger, buys at or above it.
unfoldable pub fires : Side → ℤ → StopLevel → Bool
fires ask last l = leb_ℤ last l.price
fires bid last l = leb_ℤ l.price last

pub record StopBook (S : Type 0) : Type 0 where
  pub stop_sells : S
  pub stop_buys : S
  pub index : OrderIndex
  pub node_pool : Slots
  pub level_pool : Slots
  pub max_depth : ℤ

-- `CancelStop`: the node that was removed and the book, or an error. `dangling` is a nil pointer.
pub data StopCancelResult (S : Type 0) : Type 0 where
  stop_removed : StopNode → StopBook S → StopCancelResult S
  stop_not_found stop_ownership_mismatch stop_dangling : StopCancelResult S

-- What the loops of `CheckTriggers` work on: the tree of a side, and what they write.
pub record Draining (S : Type 0) : Type 0 where
  pub tree : S
  pub index : OrderIndex
  pub node_pool : Slots
  pub level_pool : Slots
  pub triggered : List TriggeredOrder

-- `CheckTriggers`: ErrCascadeLimit, or the orders that have fired and the book without them.
pub data TriggerResult (S : Type 0) : Type 0 where
  cascade_limit : TriggerResult S
  fired : List TriggeredOrder → StopBook S → TriggerResult S

module _ {S : Type 0} where
  abbrev pub stops_of : StopBook S → Side → S
  stops_of s ask = s.stop_sells
  stops_of s bid = s.stop_buys

  abbrev pub with_stops : StopBook S → Side → S → StopBook S
  with_stops s ask t = record s { stop_sells = t }
  with_stops s bid t = record s { stop_buys = t }

  unfoldable pub has_stop : StopBook S → ℕ → Bool
  has_stop s id = Index.has s.index id

  -- `Len`
  unfoldable pub stop_count : StopBook S → ℕ
  stop_count s = length s.index

  -- `AcquireNode` and `ReleaseNode`
  unfoldable pub acquire_node : StopBook S → Option (ℕ × StopBook S)
  unfolding acquire_slot
  acquire_node s = do
    (idx, pool) ← acquire_slot s.node_pool
    some (idx, record s { node_pool = pool })

  unfoldable pub release_stop_node : StopBook S → ℕ → StopBook S
  unfolding release_slot
  release_stop_node s idx = record s { node_pool = release_slot idx s.node_pool }

  -- The nodes of a level that has fired, from its head.
  unfoldable pub drain_nodes : List StopNode → Draining S → Draining S
  unfolding convert_to_triggered
  drain_nodes [] d = d
  drain_nodes (n ∷ ns) d = drain_nodes ns (record d {
    triggered = d.triggered ++ convert_to_triggered n ∷ [];
    index = Index.delete d.index n.order_id;
    node_pool = release_slot n.pool_index d.node_pool;
  })

module _ {S : Type 0} ⦃bt : BTree S StopLevel⦄ where
  unfoldable pub new_stop_book : Slots → Slots → ℤ → StopBook S
  unfolding stop_less
  new_stop_book nodes levels max_cascade_depth = record {
    stop_sells = bt.new (stop_less ask);
    stop_buys = bt.new (stop_less bid);
    index = [];
    node_pool = nodes;
    level_pool = levels;
    max_depth = max_cascade_depth;
  }

  -- The level at a price, a new one from the pool if there is none; `none` if the pool is exhausted.
  unfoldable pub stop_level_at : S → ℤ → Slots → Option (StopLevel × Slots)
  unfolding acquire_slot
  stop_level_at tree price pool = elim (bt.get tree (stop_key price)) [
    | some level ↦ some (level, pool)
    | none ↦ do
      (idx, pool') ← acquire_slot pool
      some (record (stop_key price) { pool_index = idx }, pool')
  ]

  -- `none` is the panic of an exhausted level pool.
  unfoldable pub add_stop : StopBook S → StopNode → Option (StopBook S)
  unfolding stop_level_at append_stop
  add_stop s node = do
    (level, pool) ← stop_level_at (stops_of s node.side) node.trigger_price s.level_pool
    some (record (with_stops s node.side (bt.set (stops_of s node.side) (append_stop level node))) {
      level_pool = pool;
      index =
          Index.put s.index node.order_id (record { side = node.side; price = node.trigger_price });
    })

  unfoldable pub resolve_stop : StopBook S → ℕ → NodeRef → Option (StopLevel × StopNode)
  resolve_stop s id r = do
    level ← bt.get (stops_of s r.side) (stop_key r.price)
    node ← find_stop id level.queue
    some (level, node)

  -- Out of the index and of its level; an empty level goes, with its slot.
  unfoldable pub take_out_stop : StopBook S → StopLevel → StopNode → StopBook S
  unfolding unlink_stop
  take_out_stop s level node =
      let rest = unlink_stop level node in
      let out = record s { index = Index.delete s.index node.order_id } in
      if no_stops rest
      then record (with_stops out node.side (bt.delete (stops_of s node.side) rest)) {
        level_pool = release_slot level.pool_index s.level_pool;
      }
      else with_stops out node.side (bt.set (stops_of s node.side) rest)

  unfoldable pub cancel_stop : StopBook S → ℕ → ℕ → StopCancelResult S
  unfolding resolve_stop take_out_stop
  cancel_stop s order_id user_id = elim (Index.lookup s.index order_id) [
    | none ↦ stop_not_found
    | some r ↦ elim (resolve_stop s order_id r) [
      | none ↦ stop_dangling
      | some (level, node) ↦
          if node.user_id == user_id
          then stop_removed node (take_out_stop s level node)
          else stop_ownership_mismatch
    ]
  ]

  -- A level that has fired, drained and deleted.
  unfoldable pub drain_level : Draining S → StopLevel → Draining S
  unfolding drain_nodes
  drain_level d level =
      let out = drain_nodes level.queue d in
      record out {
        tree = bt.delete d.tree level;
        level_pool = release_slot level.pool_index d.level_pool;
      }

  -- A loop of `CheckTriggers`, on fuel.
  unfoldable pub drain : ℕ → Side → ℤ → Draining S → Option (Draining S)
  unfolding drain_level fires
  drain zero side last d = none
  drain (suc k) side last d = elim (bt.min d.tree) [
    | none ↦ some d
    | some level ↦ elim (fires side last level) [
      | true ↦ drain k side last (drain_level d level)
      | false ↦ some d
    ]
  ]

  abbrev pub draining : StopBook S → Draining S
  draining s = record {
    tree = s.stop_sells;
    index = s.index;
    node_pool = s.node_pool;
    level_pool = s.level_pool;
    triggered = [];
  }

  -- One round for each level of the side, and one more.
  abbrev pub drain_fuel : S → ℕ
  drain_fuel tree = suc (length (bt.items tree))

  -- The book after the loop of the sells, `d`, and that of the buys, `e`.
  abbrev pub after_loops : StopBook S → Draining S → Draining S → StopBook S
  after_loops s d e = record s {
    stop_sells = d.tree;
    stop_buys = e.tree;
    index = e.index;
    node_pool = e.node_pool;
    level_pool = e.level_pool;
  }

  -- Both loops: the sells, and then the buys.
  unfoldable pub fire_stops : StopBook S → ℤ → Option (List TriggeredOrder × StopBook S)
  unfolding drain
  fire_stops s last = do
    d ← drain (drain_fuel s.stop_sells) ask last (draining s)
    e ← drain (drain_fuel s.stop_buys) bid last (record d { tree = s.stop_buys })
    some (e.triggered, after_loops s d e)

  -- `none` would be a loop without end.
  unfoldable pub check_triggers : StopBook S → ℤ → ℕ → Option (TriggerResult S)
  unfolding fire_stops
  check_triggers s last_trade_price depth =
      if leb_ℤ s.max_depth (pos depth)
      then some cascade_limit
      else do (triggered, s') ← fire_stops s last_trade_price; some (fired triggered s')

  -- One entry of the scan of `ExpireGTD`.
  unfoldable pub expire_stop :
      ℤ → ℕ × NodeRef → List StopNode × StopBook S → List StopNode × StopBook S
  unfolding resolve_stop take_out_stop
  expire_stop now (id, r) (expired, s) = elim (resolve_stop s id r) [
    | none ↦ (expired, s)
    | some (level, node) ↦
        if ltb_ℤ (pos 0) node.expire_at && leb_ℤ node.expire_at now
        then (expired ++ node ∷ [], take_out_stop s level node)
        else (expired, s)
  ]

  unfoldable pub expire_all_stops :
      ℤ → OrderIndex → List StopNode × StopBook S → List StopNode × StopBook S
  unfolding expire_stop
  expire_all_stops now [] s = s
  expire_all_stops now (e ∷ es) s = expire_all_stops now es (expire_stop now e s)

  -- `ExpireGTD`: the map's entries are visited in some order.
  unfoldable pub expire_stops : StopBook S → ℤ → List StopNode × StopBook S
  unfolding expire_all_stops
  expire_stops s now = expire_all_stops now s.index ([], s)
