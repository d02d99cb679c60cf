-- ===== src/StopBook/Depth.antt =====
-- The limit on the depth of a cascade is set once: no operation of stopbook/stopbook.go changes it.
use clob.Base.{
  ℕ, ◌≡◌, refl, ◌∙◌, ◌&&◌, List, [], ◌∷◌, Option, none, some, Bool-cases, Option-cases, inl, inr,
  ◌==◌,
}
use clob.Base.Int.{ℤ, pos, ltb_ℤ, leb_ℤ}
use clob.Types.{Side, bid, ask}
use clob.Pool.{acquire_slot}
use clob.BTree.{BTree}
use clob.Book.Index
use clob.Book.Index.{OrderIndex, NodeRef}
use clob.StopBook.{
  StopNode, StopLevel, StopBook, StopCancelResult, stop_removed, with_stops, stops_of, no_stops,
  unlink_stop, acquire_node, stop_level_at, add_stop, resolve_stop, take_out_stop, cancel_stop,
  TriggerResult, fired, check_triggers, fire_stops, drain, drain_fuel, draining, expire_stop,
  expire_all_stops,
}

module _ {S : Type 0} where
  with_stops_depth :
      (s : StopBook S) (side : Side) (t : S) → (with_stops s side t).max_depth ≡ s.max_depth
  with_stops_depth s bid t = refl
  with_stops_depth s ask t = refl

  abbrev pub SameDepth : StopBook S → Option (StopBook S) → Type 0
  SameDepth s none = Unit
  SameDepth s (some r) = r.max_depth ≡ s.max_depth

  abbrev pub AcquiredDepth : StopBook S → Option (ℕ × StopBook S) → Type 0
  AcquiredDepth s none = Unit
  AcquiredDepth s (some (i, r)) = r.max_depth ≡ s.max_depth

  abbrev pub CanceledDepth : StopBook S → StopCancelResult S → Type 0
  CanceledDepth s (stop_removed n r) = r.max_depth ≡ s.max_depth
  CanceledDepth s _ = Unit

  abbrev pub TriggeredDepth : StopBook S → Option (TriggerResult S) → Type 0
  TriggeredDepth s (some (fired ts r)) = r.max_depth ≡ s.max_depth
  TriggeredDepth s _ = Unit

  pub acquire_node-depth : (s : StopBook S) → AcquiredDepth s (acquire_node s)
  unfolding acquire_node
  acquire_node-depth s = elim (Option-cases (acquire_slot s.node_pool)) [
    | inl e ↦ rw (e, AcquiredDepth) tt
    | inr ((i, pool), e) ↦ rw (e, AcquiredDepth) refl
  ]

module _ {S : Type 0} ⦃bt : BTree S StopLevel⦄ where
  pub add_stop-depth : (s : StopBook S) (n : StopNode) → SameDepth s (add_stop s n)
  unfolding add_stop
  add_stop-depth s n =
      elim (Option-cases (stop_level_at (stops_of s n.side) n.trigger_price s.level_pool)) [
        | inl e ↦ rw (e, SameDepth) tt
        | inr ((l, pool), e) ↦ rw (e, SameDepth) (with_stops_depth s n.side _)
      ]

  take_out_stop-depth :
      (s : StopBook S) (l : StopLevel) (n : StopNode)
      → (take_out_stop s l n).max_depth ≡ s.max_depth
  unfolding take_out_stop
  take_out_stop-depth s l n = elim (Bool-cases (no_stops (unlink_stop l n))) [
    | inl e ↦
        rw e (with_stops_depth (record s { index = Index.delete s.index n.order_id }) n.side _)
    | inr e ↦
        rw e (with_stops_depth (record s { index = Index.delete s.index n.order_id }) n.side _)
  ]

  pub cancel_stop-depth : (s : StopBook S) (id user : ℕ) → CanceledDepth s (cancel_stop s id user)
  unfolding cancel_stop
  cancel_stop-depth s id user = elim (Option-cases (Index.lookup s.index id)) [
    | inl e ↦ rw (e, CanceledDepth) tt
    | inr (r, e) ↦ elim (Option-cases (resolve_stop s id r)) [
      | inl f ↦ rw (e, f, CanceledDepth) tt
      | inr ((l, n), f) ↦ elim (Bool-cases (n.user_id == user)) [
        | inl own ↦ rw (e, f, own, CanceledDepth) (take_out_stop-depth s l n)
        | inr alien ↦ rw (e, f, alien, CanceledDepth) tt
      ]
    ]
  ]

  pub check_triggers-depth :
      (s : StopBook S) (price : ℤ) (depth : ℕ) → TriggeredDepth s (check_triggers s price depth)
  unfolding check_triggers fire_stops
  check_triggers-depth s price depth = elim (Bool-cases (leb_ℤ s.max_depth (pos depth))) [
    | inl deep ↦ rw (deep, TriggeredDepth) tt
    | inr shallow ↦ elim (Option-cases (drain (drain_fuel s.stop_sells) ask price (draining s))) [
      | inl e ↦ rw (shallow, e, TriggeredDepth) tt
      | inr (d, e) ↦
          elim (Option-cases
            (drain (drain_fuel s.stop_buys) bid price (record d { tree = s.stop_buys }))) [
              | inl f ↦ rw (shallow, e, f, TriggeredDepth) tt
              | inr (d', f) ↦ rw (shallow, e, f, TriggeredDepth) refl
            ]
    ]
  ]

  expire_stop-depth :
      (now : ℤ) (e : ℕ × NodeRef) (r : List StopNode × StopBook S)
      → (expire_stop now e r).1.max_depth ≡ r.1.max_depth
  unfolding expire_stop
  expire_stop-depth now (id, r) (ns, s) = elim (Option-cases (resolve_stop s id r)) [
    | inl e ↦ rw (e, expire_stop) refl
    | inr ((l, n), e) ↦ elim (Bool-cases (ltb_ℤ (pos 0) n.expire_at && leb_ℤ n.expire_at now)) [
      | inl due ↦ rw (e, due, expire_stop) (take_out_stop-depth s l n)
      | inr waits ↦ rw (e, waits, expire_stop) refl
    ]
  ]

  pub expire_all_stops-depth :
      (now : ℤ) (es : OrderIndex) (r : List StopNode × StopBook S)
      → (expire_all_stops now es r).1.max_depth ≡ r.1.max_depth
  unfolding expire_all_stops
  expire_all_stops-depth now [] r = refl
  expire_all_stops-depth now (e ∷ es) r =
      expire_all_stops-depth now es (expire_stop now e r) ∙ expire_stop-depth now e r
