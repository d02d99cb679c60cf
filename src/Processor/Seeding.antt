-- ===== src/Processor/Seeding.antt =====
-- engine/recovery.go, `seedInitialOrders`: what a recovery leaves alone.
use clob.Base.{
  ℕ, true, ◌==◌, Bool-cases, ap, ◌≡◌, refl, subst, ◌∙◌, List, [], ◌∷◌, Option, none, some, ◌>>=◌,
  Option-cases, inl, inr,
}
use clob.Base.Int.{ℤ, pos}
use clob.Types.{OrderType, market, limit, stop, stop_limit, iceberg}
use clob.BTree.{BTree}
use clob.Book.Level.{PriceLevel}
use clob.Book.Index
use clob.Book.Index.{OrderIndex, NodeRef}
use clob.Book.Node.{OrderNode}
use clob.Book.Tree.{get_or_create}
use clob.Book.Orders.{OrderBook, place_resting, rest_node, release_node, tree_of}
use clob.Sequence.{next}
use clob.Processor.Cascade.{take_node}
use clob.Pool.{acquire_slot}
use clob.StopBook.{StopNode, StopLevel, StopBook, acquire_node, add_stop, stop_level_at, stops_of}
use clob.Processor.{Processor}
use clob.Processor.Recovery.{
  RecoveredOrder, recovered_stop, recovered_node, seed_stop, seed_resting, seed_order,
  seed_initial_orders,
}

has-put :
    (idx : OrderIndex) (i j : ℕ) (r : NodeRef)
    → Index.has idx j ≡ true
    → Index.has (Index.put idx i r) j ≡ true
unfolding Index.has
has-put idx i j r h = elim (Bool-cases (i == j)) [
  | inl e ↦ rw (Index.lookup-put idx i j r, e, Index.has) refl
  | inr e ↦ rw (Index.lookup-put idx i j r, e, Index.has) h
]

module _ {T S : Type 0} where
  -- The log, its counter, the state of the market, the positions and the auction book are the same, and
  -- no order has left the order book or the stop book.
  pub record IsQuiet (p q : Processor T S) : Type 0 where
    pub events : q.events ≡ p.events
    pub event_seq : q.event_seq ≡ p.event_seq
    pub machine : q.machine ≡ p.machine
    pub positions : q.positions ≡ p.positions
    pub auction_book : q.auction_book ≡ p.auction_book
    pub orders_stay : (id : ℕ) → Index.has p.book.index id ≡ true → Index.has q.book.index id ≡ true
    pub stops_stay :
        (id : ℕ) → Index.has p.stop_book.index id ≡ true → Index.has q.stop_book.index id ≡ true

  IsQuiet-same : (p : Processor T S) → IsQuiet p p
  IsQuiet-same p = record {
    events = refl;
    event_seq = refl;
    machine = refl;
    positions = refl;
    auction_book = refl;
    orders_stay = λ id h. h;
    stops_stay = λ id h. h;
  }

  IsQuiet-trans : (p q r : Processor T S) → IsQuiet p q → IsQuiet q r → IsQuiet p r
  IsQuiet-trans p q r v w = record {
    events = w.events ∙ v.events;
    event_seq = w.event_seq ∙ v.event_seq;
    machine = w.machine ∙ v.machine;
    positions = w.positions ∙ v.positions;
    auction_book = w.auction_book ∙ v.auction_book;
    orders_stay = λ id h. w.orders_stay id (v.orders_stay id h);
    stops_stay = λ id h. w.stops_stay id (v.stops_stay id h);
  }

  abbrev pub QuietIf : Processor T S → Option (Processor T S) → Type 0
  QuietIf p none = Unit
  QuietIf p (some q) = IsQuiet p q

module _ {S : Type 0} ⦃st : BTree S StopLevel⦄ where
  abbrev StopsStayIf : StopBook S → Option (StopBook S) → Type 0
  StopsStayIf s none = Unit
  StopsStayIf s (some t) = (id : ℕ) → Index.has s.index id ≡ true → Index.has t.index id ≡ true

  add_stop-StopsStayIf : (s : StopBook S) (n : StopNode) → StopsStayIf s (add_stop s n)
  unfolding add_stop
  add_stop-StopsStayIf s n =
      elim (Option-cases (stop_level_at (stops_of s n.side) n.trigger_price s.level_pool)) [
        | inl e ↦ rw (e, StopsStayIf) tt
        | inr ((level, pool), e) ↦ rw (e, StopsStayIf) (λ id h. has-put s.index n.order_id id _ h)
      ]

  -- The index alone says which stop orders there are.
  StopsStayIf-from :
      (r s : StopBook S) (m : Option (StopBook S))
      → s.index ≡ r.index
      → StopsStayIf s m
      → StopsStayIf r m
  StopsStayIf-from r s none e h = tt
  StopsStayIf-from r s (some t) e h = λ id k. h id (ap (λ x. Index.has x id) e ∙ k)

module _ {T : Type 0} ⦃bt : BTree T PriceLevel⦄ where
  abbrev OrdersStayIf : OrderBook T → Option (OrderBook T) → Type 0
  OrdersStayIf b none = Unit
  OrdersStayIf b (some c) = (id : ℕ) → Index.has b.index id ≡ true → Index.has c.index id ≡ true

  place_resting-OrdersStayIf :
      (b : OrderBook T) (n : OrderNode) → OrdersStayIf b (place_resting b n)
  unfolding place_resting rest_node
  place_resting-OrdersStayIf b n =
      elim (Option-cases (get_or_create (tree_of b n.side) n.price b.level_pool)) [
        | inl e ↦ rw (e, OrdersStayIf) tt
        | inr ((level, created, tree, pool), e) ↦
            rw (e, OrdersStayIf) (λ id h. has-put b.index n.order_id id _ h)
      ]

module _ {T S : Type 0} ⦃bt : BTree T PriceLevel⦄ ⦃st : BTree S StopLevel⦄ where
  added-QuietIf :
      (p : Processor T S) (b : OrderBook T) (m : Option (StopBook S))
      → ((id : ℕ) → Index.has p.book.index id ≡ true → Index.has b.index id ≡ true)
      → StopsStayIf p.stop_book m
      → QuietIf p (m >>= λ s. some (record p { stop_book = s; book = b }))
  added-QuietIf p b none h k = tt
  added-QuietIf p b (some s) h k = record {
    events = refl;
    event_seq = refl;
    machine = refl;
    positions = refl;
    auction_book = refl;
    orders_stay = h;
    stops_stay = k;
  }

  rested-IsQuiet :
      (p : Processor T S) (b : OrderBook T)
      → ((id : ℕ) → Index.has p.book.index id ≡ true → Index.has b.index id ≡ true)
      → IsQuiet p (record p { book = b })
  rested-IsQuiet p b h = record {
    events = refl;
    event_seq = refl;
    machine = refl;
    positions = refl;
    auction_book = refl;
    orders_stay = h;
    stops_stay = λ id k. k;
  }

  seed_stop-QuietIf :
      (now : ℤ) (t : OrderType) (price : ℤ) (ro : RecoveredOrder) (p : Processor T S)
      → QuietIf p (seed_stop now t price ro p)
  unfolding seed_stop acquire_node
  seed_stop-QuietIf now t price ro p = elim (Option-cases (acquire_slot p.stop_book.node_pool)) [
    | inl e ↦ rw (e, QuietIf) (IsQuiet-same p)
    | inr ((i, pool), e) ↦
        let n = next p.book.order_seq in
        let s : StopBook S = record (p.stop_book) { node_pool = pool } in
        let stop_order = recovered_stop now i n.n t price ro in
        rw (e, QuietIf)
          (added-QuietIf p (record (p.book) { order_seq = n }) (add_stop s stop_order) (λ id h. h)
            (StopsStayIf-from p.stop_book s (add_stop s stop_order) refl
              (add_stop-StopsStayIf s stop_order)))
  ]

  seed_resting-IsQuiet :
      (now : ℤ) (ro : RecoveredOrder) (p : Processor T S) → IsQuiet p (seed_resting now ro p)
  unfolding seed_resting take_node
  seed_resting-IsQuiet now ro p = elim (Option-cases (acquire_slot p.book.node_pool)) [
    | inl e ↦ rw (e, seed_resting) (IsQuiet-same p)
    | inr ((i, pool), e) ↦
        let n = next p.book.order_seq in
        let b : OrderBook T = record (p.book) { node_pool = pool; order_seq = n } in
        let node = recovered_node now i n.n ro in
        elim (Option-cases (place_resting b node)) [
          | inl f ↦ rw (e, f, seed_resting) (rested-IsQuiet p (release_node b node) (λ id h. h))
          | inr (c, f) ↦
              rw (e, f, seed_resting)
                (rested-IsQuiet p c (subst (OrdersStayIf b) f (place_resting-OrdersStayIf b node)))
        ]
  ]

  seed_order-QuietIf :
      (now : ℤ) (ro : RecoveredOrder) (p : Processor T S) (t : OrderType)
      → QuietIf p (elim t [
        | stop ↦ seed_stop now market (pos 0) ro p
        | stop_limit ↦ seed_stop now limit ro.price ro p
        | market ↦ some p
        | limit ↦ some (seed_resting now ro p)
        | iceberg ↦ some (seed_resting now ro p)
      ])
  seed_order-QuietIf now ro p stop = seed_stop-QuietIf now market (pos 0) ro p
  seed_order-QuietIf now ro p stop_limit = seed_stop-QuietIf now limit ro.price ro p
  seed_order-QuietIf now ro p market = IsQuiet-same p
  seed_order-QuietIf now ro p limit = seed_resting-IsQuiet now ro p
  seed_order-QuietIf now ro p iceberg = seed_resting-IsQuiet now ro p

  QuietIf-bind :
      (p : Processor T S) (m : Option (Processor T S)) (f : Processor T S → Option (Processor T S))
      → QuietIf p m
      → ((q : Processor T S) → QuietIf q (f q))
      → QuietIf p (m >>= f)
  QuietIf-bind p none f v w = tt
  QuietIf-bind p (some q) f v w = after (f q) (w q)
    where
      after : (m : Option (Processor T S)) → QuietIf q m → QuietIf p m
      after none x = tt
      after (some r) x = IsQuiet-trans p q r v x

  seeded :
      (now : ℤ) (ros : List RecoveredOrder) (p : Processor T S)
      → QuietIf p (seed_initial_orders now ros p)
  unfolding seed_initial_orders seed_order
  seeded now [] p = IsQuiet-same p
  seeded now (ro ∷ ros) p =
      QuietIf-bind p (seed_order now ro p) _ (seed_order-QuietIf now ro p ro.order_type)
        (seeded now ros)

  -- If the recovered orders, whatever they are, are seeded without a panic, then no order that was in the
  -- order book or in the stop book has left it, no event was sent and no event number used, and the
  -- positions, the state of the market and its auction book are the same.
  pub seed_initial_orders-IsQuiet :
      (now : ℤ) (ros : List RecoveredOrder) (p q : Processor T S)
      → seed_initial_orders now ros p ≡ some q
      → IsQuiet p q
  seed_initial_orders-IsQuiet now ros p q h = subst (QuietIf p) h (seeded now ros p)
