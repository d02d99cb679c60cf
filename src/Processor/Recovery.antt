-- ===== src/Processor/Recovery.antt =====
-- engine/recovery.go: orders that rest again after a restart.
use clob.Base.{ℕ, List, [], ◌∷◌, ◌&&◌, Option, none, some, if◌then◌else◌, ◌>>=◌}
use clob.Base.Int.{ℤ, pos, ltb_ℤ, sub64}
use clob.Types.{
  Side, OrderType, limit, market, stop, stop_limit, iceberg, Tif, disabled, flag_iceberg, has_flag,
}
use clob.Sequence.{next}
use clob.BTree.{BTree}
use clob.Book.Node.{OrderNode}
use clob.Book.Level.{PriceLevel}
use clob.Book.Orders.{release_node, place_resting}
use clob.StopBook.{StopNode, StopLevel, acquire_node, add_stop}
use clob.Processor.{Processor}
use clob.Processor.Cascade.{take_node}

pub record RecoveredOrder : Type 0 where
  pub order_id : ℕ
  pub user_id : ℕ
  pub side : Side
  pub order_type : OrderType
  pub price : ℤ
  pub stop_price : ℤ
  pub remain_qty : ℤ
  pub display_qty : ℤ
  pub flags : ℕ
  pub tif : Tif
  pub expire_at : ℤ

-- The zero value of the self-trade mode is `disabled`.
unfoldable pub recovered_stop : ℤ → ℕ → ℕ → OrderType → ℤ → RecoveredOrder → StopNode
recovered_stop now idx seq convert_to limit_price ro = record {
  order_id = ro.order_id;
  user_id = ro.user_id;
  side = ro.side;
  tif = ro.tif;
  flags = ro.flags;
  stp_mode = disabled;
  trigger_price = ro.stop_price;
  limit_price = limit_price;
  qty = ro.remain_qty;
  convert_to = convert_to;
  expire_at = ro.expire_at;
  timestamp = now;
  seq_num = seq;
  pool_index = idx;
}

unfoldable pub recovered_node : ℤ → ℕ → ℕ → RecoveredOrder → OrderNode
recovered_node now idx seq ro =
    let hides =
      has_flag ro.flags flag_iceberg
      && ltb_ℤ (pos 0) ro.display_qty
      && ltb_ℤ ro.display_qty ro.remain_qty in
    record {
      order_id = ro.order_id;
      user_id = ro.user_id;
      side = ro.side;
      order_type = limit;
      tif = ro.tif;
      flags = ro.flags;
      stp_mode = disabled;
      price = ro.price;
      orig_qty = ro.remain_qty;
      remain_qty = if hides then ro.display_qty else ro.remain_qty;
      filled_qty = pos 0;
      display_qty = if hides then ro.display_qty else ro.remain_qty;
      hidden_qty = if hides then sub64 ro.remain_qty ro.display_qty else pos 0;
      orig_display_qty = if hides then ro.display_qty else ro.remain_qty;
      seq_num = seq;
      timestamp = now;
      expire_at = ro.expire_at;
      pool_index = idx;
    }

module _ {T S : Type 0} ⦃st : BTree S StopLevel⦄ where
  unfoldable pub seed_stop :
      ℤ → OrderType → ℤ → RecoveredOrder → Processor T S → Option (Processor T S)
  unfolding acquire_node recovered_stop add_stop
  seed_stop now convert_to limit_price ro p = elim (acquire_node p.stop_book) [
    | none ↦ some p
    | some (idx, stops) ↦
        let seq = next p.book.order_seq in
        add_stop stops (recovered_stop now idx seq.n convert_to limit_price ro) >>= λ stops'.
        some (record p { stop_book = stops'; book = record (p.book) { order_seq = seq } })
  ]

module _ {T S : Type 0} ⦃bt : BTree T PriceLevel⦄ where
  unfoldable pub seed_resting : ℤ → RecoveredOrder → Processor T S → Processor T S
  unfolding take_node recovered_node place_resting
  seed_resting now ro p = elim (take_node p) [
    | none ↦ p
    | some (idx, seq, q) ↦
        let node = recovered_node now idx seq ro in
        elim (place_resting q.book node) [
          | none ↦ record q { book = release_node q.book node }
          | some b ↦ record q { book = b }
        ]
  ]

module _ {T S : Type 0} ⦃bt : BTree T PriceLevel⦄ ⦃st : BTree S StopLevel⦄ where
  unfoldable pub seed_order : ℤ → RecoveredOrder → Processor T S → Option (Processor T S)
  unfolding seed_stop seed_resting
  seed_order now ro p = elim ro.order_type [
    | stop ↦ seed_stop now market (pos 0) ro p
    | stop_limit ↦ seed_stop now limit ro.price ro p
    | market ↦ some p
    | limit ↦ some (seed_resting now ro p)
    | iceberg ↦ some (seed_resting now ro p)
  ]

  -- `none` is the panic of a stop book whose level pool is exhausted.
  unfoldable pub seed_initial_orders :
      ℤ → List RecoveredOrder → Processor T S → Option (Processor T S)
  unfolding seed_order
  seed_initial_orders now [] p = some p
  seed_initial_orders now (ro ∷ rest) p =
      seed_order now ro p >>= λ q. seed_initial_orders now rest q
