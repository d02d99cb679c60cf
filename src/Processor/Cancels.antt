-- ===== src/Processor/Cancels.antt =====
-- engine/processor.go, `processCancelOrder`: who cancels what.
use clob.Base.{
  ℕ, ◌≡◌, refl, sym, ap, subst, ◌∙◌, ◌⊎◌, inl, inr, List, [], ◌∷◌, true, false, Option, none, some,
  ◌==◌, arith, Bool-cases, Option-cases,
}
use clob.Base.Int.{ℤ}
use clob.Types.{Side, bid, ask}
use clob.BTree.{BTree}
use clob.Book.Index
use clob.Book.Index.{OrderIndex, NodeRef}
use clob.Book.Node.{OrderNode}
use clob.Book.Level.{PriceLevel, find_node, is_empty, unlink}
use clob.Book.Tree.{get}
use clob.Book.Orders.{
  OrderBook, tree_of, CancelResult, removed, order_not_found, ownership_mismatch, dangling, cancel,
  resolve, take_out, settle_level, has_order,
}
use clob.StopBook.{
  StopNode, StopLevel, StopBook, StopCancelResult, stop_removed, stop_not_found,
  stop_ownership_mismatch, stop_dangling, cancel_stop, resolve_stop, take_out_stop, has_stop,
  find_stop, stops_of, stop_key, with_stops, no_stops, unlink_stop, release_stop_node,
}
use clob.Events.{order_not_found as not_found}
use clob.Processor.{Processor, emit, reject_order}
use clob.Processor.Commands.{CancelOrder}
use clob.Processor.Cancel.{
  report_cancel, report_stop_cancel, cancel_in_stop_book, after_cancel, process_cancel_order,
}

same_id : (a b : ℕ) → (a == b) ≡ true → a ≡ b
same_id a b h = ground arith

find_node_id :
    (id : ℕ) (ns : List OrderNode) (n : OrderNode) → find_node id ns ≡ some n → n.order_id ≡ id
find_node_id id [] n h = ground arith
find_node_id id (m ∷ ns) n h = elim (Bool-cases (m.order_id == id)) [
  | inl e ↦
      sym (ap (λ o. elim o [ none ↦ m.order_id | some x ↦ x.order_id ]) (rw e at h))
      ∙ same_id m.order_id id e
  | inr e ↦ find_node_id id ns n (rw e at h)
]

find_stop_id :
    (id : ℕ) (ns : List StopNode) (n : StopNode) → find_stop id ns ≡ some n → n.order_id ≡ id
find_stop_id id [] n h = ground arith
find_stop_id id (m ∷ ns) n h = elim (Bool-cases (m.order_id == id)) [
  | inl e ↦
      sym (ap (λ o. elim o [ none ↦ m.order_id | some x ↦ x.order_id ]) (rw e at h))
      ∙ same_id m.order_id id e
  | inr e ↦ find_stop_id id ns n (rw e at h)
]

self : (a : ℕ) → (a == a) ≡ true
self a = ground arith

not_there : (idx : OrderIndex) (id : ℕ) → Index.lookup idx id ≡ none → Index.has idx id ≡ false
unfolding Index.has
not_there idx id e = rw (e, Index.has) refl

gone : (idx : OrderIndex) (id : ℕ) → Index.has (Index.delete idx id) id ≡ false
gone idx id = not_there (Index.delete idx id) id (Index.lookup-delete idx id id ∙ rw (self id) refl)

module _ {T : Type 0} ⦃bt : BTree T PriceLevel⦄ where
  settled_index :
      (b : OrderBook T) (side : Side) (l : PriceLevel) → (settle_level b side l).index ≡ b.index
  unfolding settle_level
  settled_index b bid l = elim (Bool-cases (is_empty l)) [ inl e ↦ rw e refl | inr e ↦ rw e refl ]
  settled_index b ask l = elim (Bool-cases (is_empty l)) [ inl e ↦ rw e refl | inr e ↦ rw e refl ]

  -- What a cancellation in the order book has to do with its order.
  abbrev OwnCancel : OrderBook T → ℕ → ℕ → CancelResult T → Type 0
  OwnCancel b id user (removed n b') =
      (n.order_id ≡ id) × (n.user_id ≡ user) × (has_order b' id ≡ false)
  OwnCancel b id user order_not_found = has_order b id ≡ false
  OwnCancel b id user _ = Unit

  taken_out :
      (b : OrderBook T) (l : PriceLevel) (n : OrderNode)
      → has_order (take_out b l n) n.order_id ≡ false
  unfolding take_out has_order
  taken_out b l n =
      ap (λ i. Index.has i n.order_id)
        (settled_index (record b { index = Index.delete b.index n.order_id }) n.side (unlink l n))
      ∙ gone b.index n.order_id

  resolved_id :
      (b : OrderBook T) (id : ℕ) (r : NodeRef) (l : PriceLevel) (n : OrderNode)
      → resolve b id r ≡ some (l, n)
      → n.order_id ≡ id
  unfolding resolve
  resolved_id b id r l n h = elim (Option-cases (get (tree_of b r.side) r.price)) [
    | inl e ↦ ground (arith, rw (e) at h)
    | inr (k, e) ↦ elim (Option-cases (find_node id k.queue)) [
      | inl f ↦ ground (arith, rw (e, f) at h)
      | inr (m, f) ↦
          sym (ap (λ o. elim o [ none ↦ m.order_id | some x ↦ x.1.order_id ]) (rw (e, f) at h))
          ∙ find_node_id id k.queue m f
    ]
  ]

  cancel-OwnCancel : (b : OrderBook T) (id user : ℕ) → OwnCancel b id user (cancel b id user)
  unfolding cancel has_order
  cancel-OwnCancel b id user = elim (Option-cases (Index.lookup b.index id)) [
    | inl e ↦ rw (e, OwnCancel) (not_there b.index id e)
    | inr (r, e) ↦ elim (Option-cases (resolve b id r)) [
      | inl f ↦ rw (e, f, OwnCancel) tt
      | inr ((l, n), f) ↦ elim (Bool-cases (n.user_id == user)) [
        | inl own ↦
            let same = resolved_id b id r l n f in
            rw (e, f, own, OwnCancel)
              (
                same,
                same_id n.user_id user own,
                subst (λ x. has_order (take_out b l n) x ≡ false) same (taken_out b l n),
              )
        | inr alien ↦ rw (e, f, alien, OwnCancel) tt
      ]
    ]
  ]

module _ {S : Type 0} ⦃st : BTree S StopLevel⦄ where
  abbrev OwnStopCancel : StopBook S → ℕ → ℕ → StopCancelResult S → Type 0
  OwnStopCancel s id user (stop_removed n s') =
      (n.order_id ≡ id) × (n.user_id ≡ user) × (has_stop s' id ≡ false)
  OwnStopCancel s id user _ = Unit

  with_stops_index : (s : StopBook S) (side : Side) (t : S) → (with_stops s side t).index ≡ s.index
  with_stops_index s bid t = refl
  with_stops_index s ask t = refl

  stop_taken_out :
      (s : StopBook S) (l : StopLevel) (n : StopNode)
      → (take_out_stop s l n).index ≡ Index.delete s.index n.order_id
  unfolding take_out_stop
  stop_taken_out s l n = elim (Bool-cases (no_stops (unlink_stop l n))) [
    | inl e ↦
        rw e (with_stops_index (record s { index = Index.delete s.index n.order_id }) n.side _)
    | inr e ↦
        rw e (with_stops_index (record s { index = Index.delete s.index n.order_id }) n.side _)
  ]

  resolved_stop_id :
      (s : StopBook S) (id : ℕ) (r : NodeRef) (l : StopLevel) (n : StopNode)
      → resolve_stop s id r ≡ some (l, n)
      → n.order_id ≡ id
  unfolding resolve_stop
  resolved_stop_id s id r l n h =
      elim (Option-cases (st.get (stops_of s r.side) (stop_key r.price))) [
        | inl e ↦ ground (arith, rw e at h)
        | inr (k, e) ↦ elim (Option-cases (find_stop id k.queue)) [
          | inl f ↦ ground (arith, rw (e, f) at h)
          | inr (m, f) ↦
              sym (ap (λ o. elim o [ none ↦ m.order_id | some x ↦ x.1.order_id ]) (rw (e, f) at h))
              ∙ find_stop_id id k.queue m f
        ]
      ]

  cancel_stop-OwnStopCancel :
      (s : StopBook S) (id user : ℕ) → OwnStopCancel s id user (cancel_stop s id user)
  unfolding cancel_stop has_stop
  cancel_stop-OwnStopCancel s id user = elim (Option-cases (Index.lookup s.index id)) [
    | inl e ↦ rw (e, OwnStopCancel) tt
    | inr (r, e) ↦ elim (Option-cases (resolve_stop s id r)) [
      | inl f ↦ rw (e, f, OwnStopCancel) tt
      | inr ((l, n), f) ↦ elim (Bool-cases (n.user_id == user)) [
        | inl own ↦
            let same = resolved_stop_id s id r l n f in
            rw (e, f, own, OwnStopCancel)
              (
                same,
                same_id n.user_id user own,
                ap (λ i. Index.has i id) (stop_taken_out s l n)
                    ∙ subst (λ x. Index.has (Index.delete s.index x) id ≡ false) (sym same)
                        (gone s.index id),
              )
        | inr alien ↦ rw (e, f, alien, OwnStopCancel) tt
      ]
    ]
  ]

module _ {T S : Type 0} ⦃bt : BTree T PriceLevel⦄ ⦃st : BTree S StopLevel⦄ where
  -- What a cancel command may do: nothing but a rejection, or the removal of an order of its sender.
  abbrev pub CancelsOwn : CancelOrder → ℤ → Processor T S → Option (Processor T S) → Type 0
  CancelsOwn c now p none = Unit
  CancelsOwn c now p (some q) =
      (q ≡ reject_order now p c.order_id c.user_id not_found)
      ⊎ ((n : OrderNode) × (b : OrderBook T) × (cancel p.book c.order_id c.user_id ≡ removed n b)
          × (n.order_id ≡ c.order_id)
          × (n.user_id ≡ c.user_id)
          × (has_order q.book c.order_id ≡ false))
      ⊎ ((n : StopNode) × (s : StopBook S) × (has_order p.book c.order_id ≡ false)
          × (cancel_stop p.stop_book c.order_id c.user_id ≡ stop_removed n s)
          × (n.order_id ≡ c.order_id)
          × (n.user_id ≡ c.user_id)
          × (has_stop q.stop_book c.order_id ≡ false))

  stop_result :
      (now : ℤ) (c : CancelOrder) (p : Processor T S) (r : StopCancelResult S)
      → has_order p.book c.order_id ≡ false
      → cancel_stop p.stop_book c.order_id c.user_id ≡ r
      → OwnStopCancel p.stop_book c.order_id c.user_id r
      → CancelsOwn c now p (report_stop_cancel now c p r)
  unfolding report_stop_cancel release_stop_node emit has_stop
  stop_result now c p (stop_removed n s) h e v = inr (inr (n, s, h, e, v.0, v.1, v.2))
  stop_result now c p stop_not_found h e v = inl refl
  stop_result now c p stop_ownership_mismatch h e v = inl refl
  stop_result now c p stop_dangling h e v = tt

  book_result :
      (now : ℤ) (c : CancelOrder) (p : Processor T S) (r : CancelResult T)
      → cancel p.book c.order_id c.user_id ≡ r
      → OwnCancel p.book c.order_id c.user_id r
      → CancelsOwn c now p (after_cancel now c p r)
  unfolding after_cancel report_cancel cancel_in_stop_book emit has_order
  book_result now c p (removed n b) e v = inr (inl (n, b, e, v.0, v.1, v.2))
  book_result now c p order_not_found e v =
      stop_result now c p (cancel_stop p.stop_book c.order_id c.user_id) v refl
        (cancel_stop-OwnStopCancel p.stop_book c.order_id c.user_id)
  book_result now c p ownership_mismatch e v = inl refl
  book_result now c p dangling e v = tt

  -- If a cancel command is handled without a panic, then one of three things has happened. The command
  -- was rejected as for an unknown order, and nothing else has changed, whether the order exists or
  -- not. Or an order of the book was removed that has the id asked for and belongs to the sender,
  -- and the book has that id no more. Or the book does not have the id, and the same holds of a stop
  -- order and the stop book.
  pub users_cancel_their_own :
      (now : ℤ) (c : CancelOrder) (p q : Processor T S)
      → process_cancel_order now c p ≡ some q
      → CancelsOwn c now p (some q)
  unfolding process_cancel_order
  users_cancel_their_own now c p q h = subst (CancelsOwn c now p) h (
      book_result now c p (cancel p.book c.order_id c.user_id) refl
        (cancel-OwnCancel p.book c.order_id c.user_id))
