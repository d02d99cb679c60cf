-- ===== src/Book/Match.antt =====
-- book/matching.go: the match loop. A maker is found through the cursor of the inner loop, which is
-- the head of the level's `queue` here; the nodes that the cursor has passed over stand apart.
pub mod Invariant
pub mod Loop
pub mod Outer
pub mod Rounds
pub mod Total
pub mod Turns
pub mod Priority
use clob.Base.{
  ℕ, zero, suc, ◌+◌, List, [], ◌∷◌, ◌++◌, Bool, true, false, not, ◌&&◌, Option, none, some, ltb,
  leb, ◌==◌, if◌then◌else◌, ◌>>=◌,
}
use clob.Base.Int.{ℤ, pos, magnitude, ltb_ℤ, leb_ℤ, eqb_ℤ, add64, sub64, min_ℤ}
use clob.Types.{
  Side, is_bid, Tif, is_ioc, is_fok, OrderType, is_market, StpMode, disabled, cancel_both,
  cancel_maker, cancel_taker, decrement_cancel, is_disabled,
}
use clob.Sequence.{Counter, next}
use clob.Pool.{Slots, release_slot}
use clob.BTree.{BTree}
use clob.Book.Node.{OrderNode, Fill, Disposition, StpCanceled}
use clob.Book.Level.{
  PriceLevel, append, unlink, decremented, decrement_qty, replenish_iceberg, is_empty,
}
use clob.Book.Tree.{PriceLevelTree, best, delete, write_back, iterate}
use clob.Book.Index.{OrderIndex}
use clob.Book.Index

abbrev pub is_positive : ℤ → Bool
is_positive q = ltb_ℤ (pos 0) q

abbrev pub is_zero : ℤ → Bool
is_zero q = eqb_ℤ q (pos 0)

unfoldable pub crosses : OrderNode → PriceLevel → Bool
crosses incoming level =
    if is_market incoming.order_type
    then true
    else if is_bid incoming.side
    then leb_ℤ level.price incoming.price
    else leb_ℤ incoming.price level.price

unfoldable pub effective_stp_mode : StpMode → OrderNode → OrderNode → StpMode
effective_stp_mode market_mode incoming maker =
    if not (is_disabled incoming.stp_mode)
    then incoming.stp_mode
    else if not (is_disabled maker.stp_mode)
    then maker.stp_mode
    else market_mode

unfoldable pub stp_enabled : StpMode → OrderNode → OrderNode → Bool
unfolding effective_stp_mode
stp_enabled market_mode incoming maker =
    if incoming.user_id == maker.user_id
    then not (is_disabled (effective_stp_mode market_mode incoming maker))
    else false

-- What the inner loop works on: the taker, the level from the cursor on, the nodes that the cursor
-- has passed, and what it writes.
pub record Sweep : Type 0 where
  pub incoming : OrderNode
  pub level : PriceLevel
  pub passed : List OrderNode
  pub index : OrderIndex
  pub node_pool : Slots
  pub order_seq : Counter
  pub fills : List Fill
  pub cancels : List StpCanceled

-- How a round of the inner loop ends: another round, the end of the inner loop, or `goto done`.
pub data Flow : Type 0 where
  again level_done stop_all : Flow

-- `cancelMakerNode`
unfoldable pub cancel_maker_node : Sweep → OrderNode → Sweep
cancel_maker_node s maker = record s {
  level = unlink s.level maker;
  index = Index.delete s.index maker.order_id;
  node_pool = release_slot maker.pool_index s.node_pool;
  cancels =
      s.cancels
      ++ record {
        order_id = maker.order_id;
        user_id = maker.user_id;
        side = maker.side;
        price = s.level.price;
        remain_qty = maker.remain_qty;
        filled_qty = maker.filled_qty;
      }
        ∷ [];
}

unfoldable pub zero_incoming : Sweep → Sweep
zero_incoming s = record s { incoming = record (s.incoming) { remain_qty = pos 0 } }

-- The cursor moves past `maker`, which stays in the level.
unfoldable pub pass_over : Sweep → OrderNode → List OrderNode → Sweep
pass_over s maker rest = record s {
  level = record (s.level) { queue = rest };
  passed = s.passed ++ maker ∷ [];
}

-- `applySTP`: `maker` is at the cursor, and `rest` comes after it. An empty level is cleaned up
-- where the level is left.
unfoldable pub apply_stp : Sweep → OrderNode → List OrderNode → StpMode → Flow × Sweep
unfolding cancel_maker_node zero_incoming pass_over
apply_stp s maker rest cancel_both = (stop_all, zero_incoming (cancel_maker_node s maker))
apply_stp s maker rest cancel_maker = (again, cancel_maker_node s maker)
apply_stp s maker rest cancel_taker = (stop_all, zero_incoming s)
apply_stp s maker rest decrement_cancel =
    let taker = s.incoming in
    if ltb_ℤ taker.remain_qty maker.remain_qty
    then (
      stop_all,
      zero_incoming (record s { level = decrement_qty (s.level) maker taker.remain_qty }),
    )
    else (
      again,
      cancel_maker_node
          (record s {
            incoming = record taker {
              remain_qty = sub64 taker.remain_qty maker.remain_qty;
              filled_qty = add64 taker.filled_qty maker.remain_qty;
            };
          })
          maker,
    )
apply_stp s maker rest _ = (again, pass_over s maker rest)

-- The fill of `qty` between the taker and a maker, both after their quantities have changed.
unfoldable pub make_fill : OrderNode → OrderNode → ℤ → ℤ → Fill
make_fill incoming maker price qty = record {
  maker_order_id = maker.order_id;
  taker_order_id = incoming.order_id;
  maker_user_id = maker.user_id;
  taker_user_id = incoming.user_id;
  maker_side = maker.side;
  price = price;
  qty = qty;
  maker_remain_qty = maker.remain_qty;
  taker_remain_qty = incoming.remain_qty;
  maker_seq_num = maker.seq_num;
  taker_seq_num = incoming.seq_num;
  timestamp = pos 0;
  maker_level_total_qty = pos 0;
  maker_level_display_qty = pos 0;
  maker_level_order_count = 0;
  maker_level_exists = false;
}

-- The state of the level after all changes of a fill; it counts the nodes that were passed, too.
unfoldable pub with_level : Fill → Bool → PriceLevel → Fill
with_level f exists level =
    if exists
    then record f {
      maker_level_exists = true;
      maker_level_total_qty = level.total_qty;
      maker_level_display_qty = level.display_qty;
      maker_level_order_count = level.order_count;
    }
    else f

-- The whole level: what was passed, and what is left from the cursor on.
unfoldable pub whole_level : Sweep → PriceLevel
whole_level s = record (s.level) { queue = s.passed ++ s.level.queue }

-- Both sides after the exchange of `qty`.
unfoldable pub exchange : Sweep → OrderNode → ℤ → Sweep
exchange s maker qty = record s {
  incoming = record (s.incoming) {
    remain_qty = sub64 s.incoming.remain_qty qty;
    filled_qty = add64 s.incoming.filled_qty qty;
  };
  level = decrement_qty s.level maker qty;
}

-- An exhausted slice of an iceberg: the next one goes to the tail, and the cursor to the head.
unfoldable pub next_slice : Sweep → OrderNode → Fill → Sweep
unfolding with_level
next_slice s node f =
    let seq = next s.order_seq in
    let level = replenish_iceberg s.level node seq.n in
    record s {
      level = record level { queue = s.passed ++ level.queue };
      passed = [];
      order_seq = seq;
      fills = s.fills ++ with_level f true level ∷ [];
    }

-- A maker that is exhausted leaves the book.
unfoldable pub maker_gone : Sweep → OrderNode → Fill → Sweep
unfolding with_level whole_level
maker_gone s node f =
    let gone = record s {
      level = unlink s.level node;
      index = Index.delete s.index node.order_id;
      node_pool = release_slot node.pool_index s.node_pool;
    } in
    record gone {
      fills = s.fills ++ with_level f (not (is_empty (whole_level gone))) gone.level ∷ [];
    }

-- A maker of which something is left.
unfoldable pub maker_left : Sweep → Fill → Sweep
unfolding with_level
maker_left s f = record s { fills = s.fills ++ with_level f true s.level ∷ [] }

-- The fill of a maker at the cursor.
unfoldable pub trade : Sweep → OrderNode → Flow × Sweep
unfolding make_fill exchange next_slice maker_gone maker_left
trade s maker =
    let qty = min_ℤ maker.remain_qty s.incoming.remain_qty in
    let node = decremented maker qty in
    let hit = exchange s maker qty in
    let f = make_fill hit.incoming node s.level.price qty in
    if is_zero node.remain_qty
    then if is_positive node.hidden_qty
      then (again, next_slice hit node f)
      else (again, maker_gone hit node f)
    else (level_done, maker_left hit f)

-- One round of the inner loop with `maker` at the cursor.
unfoldable pub visit : StpMode → Sweep → OrderNode → List OrderNode → Flow × Sweep
unfolding stp_enabled apply_stp trade
visit market_mode s maker rest =
    if stp_enabled market_mode s.incoming maker
    then apply_stp s maker rest (effective_stp_mode market_mode s.incoming maker)
    else trade s maker

-- What follows a round: another one, or the end.
abbrev pub proceed : (Sweep → Option (Flow × Sweep)) → Flow × Sweep → Option (Flow × Sweep)
proceed continue (again, s) = continue s
proceed continue (level_done, s) = some (level_done, s)
proceed continue (stop_all, s) = some (stop_all, s)

-- The inner loop, on fuel: `none` if the fuel runs out.
unfoldable pub sweep_level : ℕ → StpMode → Sweep → Option (Flow × Sweep)
sweep_level zero market_mode s = none
sweep_level (suc k) market_mode s = elim s.level.queue [
  | [] ↦ some (level_done, s)
  | maker ∷ rest ↦
      if is_positive s.incoming.remain_qty
      then proceed (sweep_level k market_mode) (visit market_mode s maker rest)
      else some (level_done, s)
]

-- Rounds that suffice for a level: one for each node and one for each further slice of an iceberg.
abbrev pub rounds : List OrderNode → ℕ
rounds [] = 1
rounds (n ∷ ns) = suc (magnitude n.hidden_qty) + rounds ns

-- What the outer loop works on.
pub record Matching (T : Type 0) : Type 0 where
  pub incoming : OrderNode
  pub opposite : PriceLevelTree T
  pub index : OrderIndex
  pub node_pool : Slots
  pub level_pool : Slots
  pub order_seq : Counter
  pub fills : List Fill
  pub cancels : List StpCanceled

abbrev pub enter : {T : Type 0} → Matching T → PriceLevel → Sweep
enter m level = record {
  incoming = m.incoming;
  level = level;
  passed = [];
  index = m.index;
  node_pool = m.node_pool;
  order_seq = m.order_seq;
  fills = m.fills;
  cancels = m.cancels;
}

module _ {T : Type 0} ⦃bt : BTree T PriceLevel⦄ where
  -- A level that was left: an empty one goes, with its slot.
  unfoldable pub leave : Matching T → Sweep → Matching T
  unfolding whole_level delete write_back
  leave m s =
      let level = whole_level s in
      let kept = record m {
        incoming = s.incoming;
        index = s.index;
        node_pool = s.node_pool;
        order_seq = s.order_seq;
        fills = s.fills;
        cancels = s.cancels;
      } in
      if is_empty level
      then record kept {
        opposite = delete m.opposite level.price;
        level_pool = release_slot level.pool_index m.level_pool;
      }
      else record kept { opposite = write_back m.opposite level }

  -- What follows the inner loop: the next level, or `done` with whether self-trade prevention
  -- stopped the taker.
  abbrev pub after_level :
      (Matching T → Option (Bool × Matching T))
      → Matching T
      → Option (Flow × Sweep)
      → Option (Bool × Matching T)
  after_level continue m none = none
  after_level continue m (some (again, s)) = none
  after_level continue m (some (level_done, s)) = continue (leave m s)
  after_level continue m (some (stop_all, s)) = some (is_zero s.incoming.remain_qty, leave m s)

  -- The outer loop, on fuel.
  unfoldable pub match_loop : ℕ → StpMode → Matching T → Option (Bool × Matching T)
  match_loop zero market_mode m = none
  match_loop (suc k) market_mode m =
      if is_positive m.incoming.remain_qty
      then (elim (best m.opposite) [
        | none ↦ some (false, m)
        | some level ↦
            if crosses m.incoming level
            then after_level (match_loop k market_mode) m
                (sweep_level (rounds level.queue) market_mode (enter m level))
            else some (false, m)
      ])
      else some (false, m)

  -- The dry run of a fill-or-kill order: the levels that cross, until they hold enough.
  unfoldable pub can_fill_full : PriceLevelTree T → OrderNode → Bool
  unfolding iterate crosses
  can_fill_full opposite incoming = leb_ℤ incoming.remain_qty (
      iterate opposite
        (λ level available.
          if crosses incoming level
          then (
            add64 available level.total_qty,
            ltb_ℤ (add64 available level.total_qty) incoming.remain_qty,
          )
          else (available, false))
        (pos 0))
