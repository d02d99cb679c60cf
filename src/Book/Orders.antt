-- ===== src/Book/Orders.antt =====
-- book/book.go and the entry of book/matching.go: the order book of a market.
pub mod Placement
pub mod Priority
use clob.Base.{
  ℕ, zero, suc, ◌+◌, ◌-◌, List, [], ◌∷◌, ◌++◌, Bool, true, false, not, ◌&&◌, Option, none, some,
  ltb, leb, ◌==◌, if◌then◌else◌, ◌>>=◌, length, get_elem?,
}
use clob.Base.Int.{ℤ, pos, ltb_ℤ, leb_ℤ, add64}
use clob.Types.{Side, bid, ask, is_bid, is_ioc, is_fok, is_market}
use clob.Config.{MarketConfig}
use clob.Sequence.{Counter}
use clob.Pool.{Slots, release_slot, is_full}
use clob.BTree.{BTree}
use clob.Book.Node.{
  OrderNode, Fill, StpCanceled, Disposition, fully_filled, partial_fill_rested,
  partial_fill_canceled, rested, canceled, rejected, stp_canceled_taker,
}
use clob.Book.Level.{PriceLevel, append, unlink, find_node, is_empty}
use clob.Book.Tree.{
  PriceLevelTree, DepthLevel, new_tree, best, get, get_or_create, delete, write_back, depth,
}
use clob.Book.Index.{OrderIndex, NodeRef}
use clob.Book.Index
use clob.Book.Match.{Matching, match_loop, can_fill_full, is_positive, is_zero}

pub record OrderBook (T : Type 0) : Type 0 where
  pub bids : PriceLevelTree T
  pub asks : PriceLevelTree T
  pub index : OrderIndex
  pub node_pool : Slots
  pub level_pool : Slots
  pub config : MarketConfig
  pub order_seq : Counter

-- `Cancel`: the node that was removed and the book, or an error. `dangling` is a nil pointer.
pub data CancelResult (T : Type 0) : Type 0 where
  removed : OrderNode → OrderBook T → CancelResult T
  order_not_found ownership_mismatch dangling : CancelResult T

-- What `match` returns.
pub record Outcome (T : Type 0) : Type 0 where
  pub fills : List Fill
  pub cancels : List StpCanceled
  pub disposition : Disposition
  pub book : OrderBook T

abbrev pub has_fills : List Fill → Bool
has_fills [] = false
has_fills (_ ∷ _) = true

abbrev price_of : Option PriceLevel → Option ℤ
price_of none = none
price_of (some l) = some l.price

abbrev worse_than : Side → ℤ → DepthLevel → Bool
worse_than bid price worst = ltb_ℤ price worst.price
worse_than ask price worst = ltb_ℤ worst.price price

module _ {T : Type 0} where
  abbrev pub tree_of : OrderBook T → Side → PriceLevelTree T
  tree_of b bid = b.bids
  tree_of b ask = b.asks

  abbrev pub with_tree : OrderBook T → Side → PriceLevelTree T → OrderBook T
  with_tree b bid t = record b { bids = t }
  with_tree b ask t = record b { asks = t }

  -- The side that an incoming order trades with.
  abbrev pub opposite_of : OrderBook T → Side → PriceLevelTree T
  opposite_of b bid = b.asks
  opposite_of b ask = b.bids

  abbrev pub with_opposite : OrderBook T → Side → PriceLevelTree T → OrderBook T
  with_opposite b bid t = record b { asks = t }
  with_opposite b ask t = record b { bids = t }

  abbrev pub release_node : OrderBook T → OrderNode → OrderBook T
  release_node b n = record b { node_pool = release_slot n.pool_index b.node_pool }

  abbrev pub matching_of : OrderBook T → OrderNode → Matching T
  matching_of b incoming = record {
    incoming = incoming;
    opposite = opposite_of b incoming.side;
    index = b.index;
    node_pool = b.node_pool;
    level_pool = b.level_pool;
    order_seq = b.order_seq;
    fills = [];
    cancels = [];
  }

  abbrev pub after_matching : OrderBook T → Side → Matching T → OrderBook T
  after_matching b side m =
      with_opposite
        (record b {
          index = m.index;
          node_pool = m.node_pool;
          level_pool = m.level_pool;
          order_seq = m.order_seq;
        })
        side m.opposite

module _ {T : Type 0} ⦃bt : BTree T PriceLevel⦄ where
  unfoldable pub new_order_book : MarketConfig → Slots → Slots → Counter → OrderBook T
  new_order_book cfg nodes levels seq = record {
    bids = new_tree bid;
    asks = new_tree ask;
    index = [];
    node_pool = nodes;
    level_pool = levels;
    config = cfg;
    order_seq = seq;
  }

  -- `none` if the level pool is exhausted. A new level's totals are zero.
  unfoldable pub rest_node : OrderBook T → OrderNode → Option (OrderBook T)
  unfolding get_or_create append write_back
  rest_node b node = elim (get_or_create (tree_of b node.side) node.price b.level_pool) [
    | none ↦ none
    | some (level, created, tree, pool) ↦
        let filled = append level node in
        some (record (with_tree b node.side (write_back tree filled)) {
          level_pool = pool;
          index = Index.put b.index node.order_id (record { side = node.side; price = node.price });
        })
  ]

  -- What becomes of the taker once the loops have ended.
  unfoldable pub dispose : OrderBook T → Bool → Matching T → Outcome T
  unfolding rest_node
  dispose b stopped m =
      let incoming = m.incoming in
      let book = after_matching b incoming.side m in
      let done = λ (d : Disposition) (c : OrderBook T).
        let o : Outcome T = record {
          fills = m.fills;
          cancels = m.cancels;
          disposition = d;
          book = c;
        } in
        o in
      let dropped : Disposition = if has_fills m.fills then partial_fill_canceled else canceled in
      if stopped
      then done stp_canceled_taker (release_node book incoming)
      else if is_zero incoming.remain_qty
      then done fully_filled (release_node book incoming)
      else if is_ioc incoming.tif
      then done dropped (release_node book incoming)
      else if is_market incoming.order_type
      then done canceled (release_node book incoming)
      else (elim (rest_node book incoming) [
        | none ↦ done dropped (release_node book incoming)
        | some resting ↦ done (if has_fills m.fills then partial_fill_rested else rested) resting
      ])

  -- `match`. The fuel is one round for each level of the other side, and one more.
  unfoldable pub match : OrderBook T → OrderNode → Option (Outcome T)
  unfolding can_fill_full match_loop dispose
  match b incoming =
      let opposite = opposite_of b incoming.side in
      if is_fok incoming.tif && not (can_fill_full opposite incoming)
      then some (record {
        fills = [];
        cancels = [];
        disposition = rejected;
        book = release_node b incoming;
      })
      else do
        (stopped, m) ← match_loop (suc opposite.count) b.config.stp_mode (matching_of b incoming)
        some (dispose b stopped m)

  unfoldable pub place_resting : OrderBook T → OrderNode → Option (OrderBook T)
  unfolding rest_node
  place_resting b node = rest_node b node

  unfoldable pub has_level : OrderBook T → Side → ℤ → Bool
  has_level b side price = elim (get (tree_of b side) price) [ none ↦ false | some _ ↦ true ]

  unfoldable pub level_pool_full : OrderBook T → Bool
  level_pool_full b = is_full b.level_pool

  -- A level after a node was taken out: an empty one goes, with its slot.
  unfoldable pub settle_level : OrderBook T → Side → PriceLevel → OrderBook T
  unfolding delete write_back
  settle_level b side level =
      if is_empty level
      then record (with_tree b side (delete (tree_of b side) level.price)) {
        level_pool = release_slot level.pool_index b.level_pool;
      }
      else with_tree b side (write_back (tree_of b side) level)

  -- The level and the node that a pointer leads to.
  unfoldable pub resolve : OrderBook T → ℕ → NodeRef → Option (PriceLevel × OrderNode)
  unfolding get
  resolve b id r = do
    level ← get (tree_of b r.side) r.price
    node ← find_node id level.queue
    some (level, node)

  -- Unlinked from its level and taken out of the index.
  unfoldable pub take_out : OrderBook T → PriceLevel → OrderNode → OrderBook T
  unfolding unlink settle_level
  take_out b level node =
      settle_level (record b { index = Index.delete b.index node.order_id }) node.side
        (unlink level node)

  unfoldable pub cancel : OrderBook T → ℕ → ℕ → CancelResult T
  unfolding resolve take_out
  cancel b order_id user_id = elim (Index.lookup b.index order_id) [
    | none ↦ order_not_found
    | some r ↦ elim (resolve b order_id r) [
      | none ↦ dangling
      | some (level, node) ↦
          if node.user_id == user_id
          then removed node (take_out b level node)
          else ownership_mismatch
    ]
  ]

  unfoldable pub has_order : OrderBook T → ℕ → Bool
  has_order b id = Index.has b.index id

  unfoldable pub would_cross : OrderBook T → ℤ → Side → Bool
  unfolding best
  would_cross b price bid = elim (best b.asks) [ none ↦ false | some l ↦ leb_ℤ l.price price ]
  would_cross b price ask = elim (best b.bids) [ none ↦ false | some l ↦ leb_ℤ price l.price ]

  -- The best prices; `none` where a side is empty.
  unfoldable pub bbo : OrderBook T → Option ℤ × Option ℤ
  bbo b = (price_of (best b.bids), price_of (best b.asks))

  unfoldable pub snapshot : OrderBook T → ℕ → List DepthLevel × List DepthLevel
  snapshot b levels = (depth b.bids levels, depth b.asks levels)

  -- One entry of the scan of `ExpireGTD`.
  unfoldable pub expire_entry :
      ℤ → ℕ × NodeRef → List OrderNode × OrderBook T → List OrderNode × OrderBook T
  unfolding resolve take_out
  expire_entry now (id, r) (expired, b) = elim (resolve b id r) [
    | none ↦ (expired, b)
    | some (level, node) ↦
        if ltb_ℤ (pos 0) node.expire_at && leb_ℤ node.expire_at now
        then (expired ++ node ∷ [], take_out b level node)
        else (expired, b)
  ]

  unfoldable pub expire_all :
      ℤ → OrderIndex → List OrderNode × OrderBook T → List OrderNode × OrderBook T
  expire_all now [] s = s
  expire_all now (e ∷ es) s = expire_all now es (expire_entry now e s)

  -- The map's entries are visited in some order.
  unfoldable pub expire_gtd : OrderBook T → ℤ → List OrderNode × OrderBook T
  unfolding expire_all
  expire_gtd b now = expire_all now b.index ([], b)

  -- The whole of what rests, and the visible part.
  unfoldable pub order_rest_info : OrderBook T → ℕ → Option (ℤ × ℤ)
  unfolding resolve
  order_rest_info b id = do
    r ← Index.lookup b.index id
    (_, node) ← resolve b id r
    some (
      if is_positive node.hidden_qty
          then add64 node.remain_qty node.hidden_qty
          else node.remain_qty,
      node.display_qty,
    )

  unfoldable pub level_info : OrderBook T → Side → ℤ → Option (ℤ × ℤ × ℕ)
  unfolding get
  level_info b side price = do
    level ← get (tree_of b side) price
    some (level.total_qty, level.display_qty, level.order_count)

  unfoldable pub would_exceed_max_depth : OrderBook T → ℤ → Side → Bool
  unfolding has_level depth
  would_exceed_max_depth b price side =
      let max_depth = b.config.max_depth in
      if max_depth == 0
      then false
      else if ltb (tree_of b side).count max_depth
      then false
      else if has_level b side price
      then false
      else (elim (get_elem? (depth (tree_of b side) max_depth) (max_depth - 1)) [
        | none ↦ false
        | some worst ↦ worse_than side price worst
      ])

  unfoldable pub open_order_count : OrderBook T → ℕ
  open_order_count b = length b.index
