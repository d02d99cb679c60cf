-- ===== src/Auction/Sweep.antt =====
-- What `Sweep` of auction/sweep.go fills.
use clob.Base.{
  ℕ, zero, suc, ◌+◌, ◌*◌, ◌≤◌, ◌<◌, ◌≡◌, refl, sym, subst, ◌∙◌, ◌⊎◌, inl, inr, List, [], ◌∷◌, Bool,
  true, false, arith, All, All-append, Bool-cases, some, if◌then◌else◌, length, filter,
}
use clob.Base.Int.{ℤ, pos, int64, ◌+ℤ◌, ◌-ℤ◌, ◌≤ℤ◌, ltb_ℤ, leb_ℤ, eqb_ℤ, sub64, min_ℤ, int_laws}
use clob.Book.Node.{Fill}
use clob.Book.Match.Invariant.{qty_sum, qty_sum-append, max64, remain_after}
use clob.Auction.{
  AuctionOrder, AuctionBook, Pairing, Swept, auction_fill, pair_step, pair_all, sweep_fuel,
  settle_sweep, sweep,
}

abbrev pub order_sum : List AuctionOrder → ℤ
order_sum [] = pos 0
order_sum (o ∷ os) = o.qty +ℤ order_sum os

-- A quantity that is not negative and that an int64 holds.
abbrev pub IsOpen : AuctionOrder → Type 0
IsOpen o = (pos 0 ≤ℤ o.qty) × (o.qty ≤ℤ max64)

-- A fill of something at the clearing price.
abbrev pub IsAt : ℤ → Fill → Type 0
IsAt price f = (pos 1 ≤ℤ f.qty) × (f.price ≡ price)

record IsBalanced (price b a : ℤ) (p : Pairing) : Type 0 where
  open_bids : All IsOpen p.bids
  open_asks : All IsOpen p.asks
  bid_balance : order_sum p.bids +ℤ qty_sum p.fills ≡ b
  ask_balance : order_sum p.asks +ℤ qty_sum p.fills ≡ a
  at_price : All (IsAt price) p.fills

-- Rounds that an order may still take.
abbrev weight : List AuctionOrder → ℕ
weight [] = 0
weight (o ∷ os) = (if eqb_ℤ o.qty (pos 0) then 1 else 2) + weight os

abbrev weight_of : Pairing → ℕ
weight_of p = weight p.bids + weight p.asks

weight_bound : (os : List AuctionOrder) → weight os ≤ 2 * length os
weight_bound [] = omega arith
weight_bound (o ∷ os) = ground (arith, weight_bound os)

order_sum_open : (os : List AuctionOrder) → All IsOpen os → pos 0 ≤ℤ order_sum os
order_sum_open [] h = omega arith
order_sum_open (o ∷ os) h = omega (int_laws, h.0.0, order_sum_open os h.1)

filter-IsOpen :
    (p : AuctionOrder → Bool) (os : List AuctionOrder) → All IsOpen os → All IsOpen (filter p os)
filter-IsOpen p [] h = tt
filter-IsOpen p (o ∷ os) h = elim (Bool-cases (p o)) [
  | inl e ↦ rw e (h.0, filter-IsOpen p os h.1)
  | inr e ↦ rw e (filter-IsOpen p os h.1)
]

self_zero : (q : ℤ) → sub64 q q ≡ pos 0
unfolding sub64 ◌-ℤ◌ int64
self_zero q = ground arith

cost_bound : (c : Bool) → (if c then 1 else 2) ≤ 2
cost_bound true = omega arith
cost_bound false = omega arith

moved : (q t s f : ℤ) → q -ℤ t +ℤ s +ℤ (f +ℤ (t +ℤ pos 0)) ≡ q +ℤ s +ℤ f
moved q t s f = omega int_laws

dropped : (q s f : ℤ) → eqb_ℤ q (pos 0) ≡ true → s +ℤ f ≡ q +ℤ s +ℤ f
dropped q s f h = let e : q ≡ pos 0 = ground arith in rw e (omega int_laws)

module _ (price total_bid total_ask : ℤ) (b : AuctionOrder) (bs : List AuctionOrder)
    (a : AuctionOrder) (rest : List AuctionOrder) (fills : List Fill)
    (v : IsBalanced price total_bid total_ask
      (record { bids = b ∷ bs; asks = a ∷ rest; fills = fills })) where
  abbrev taken : ℤ
  taken = if ltb_ℤ a.qty b.qty then a.qty else b.qty

  taken_bounds :
      eqb_ℤ b.qty (pos 0) ≡ false
      → eqb_ℤ a.qty (pos 0) ≡ false
      → (pos 1 ≤ℤ taken) × (taken ≤ℤ b.qty) × (taken ≤ℤ a.qty)
  taken_bounds h k =
      let x = v.open_bids.0.0 in
      let y = v.open_asks.0.0 in
      elim (Bool-cases (ltb_ℤ a.qty b.qty)) [
        | inl e ↦ rw e (ground arith, ground arith, ground arith)
        | inr e ↦ rw e (ground arith, ground arith, ground arith)
      ]

  pair_step-IsBalanced : IsBalanced price total_bid total_ask (pair_step price b bs a rest fills)
  unfolding pair_step auction_fill
  pair_step-IsBalanced = elim (Bool-cases (eqb_ℤ b.qty (pos 0))) [
    | inl gone ↦ rw gone (record {
      open_bids = v.open_bids.1;
      open_asks = v.open_asks;
      bid_balance = dropped b.qty (order_sum bs) (qty_sum fills) gone ∙ v.bid_balance;
      ask_balance = v.ask_balance;
      at_price = v.at_price;
    })
    | inr bid_left ↦ elim (Bool-cases (eqb_ℤ a.qty (pos 0))) [
      | inl gone ↦
          rw (bid_left, gone)
            (record {
              open_bids = v.open_bids;
              open_asks = v.open_asks.1;
              bid_balance = v.bid_balance;
              ask_balance = dropped a.qty (order_sum rest) (qty_sum fills) gone ∙ v.ask_balance;
              at_price = v.at_price;
            })
      | inr ask_left ↦
          let t = taken_bounds bid_left ask_left in
          let eb = remain_after b.qty taken (omega (arith, t.0)) t.1 v.open_bids.0.1 in
          let ea = remain_after a.qty taken (omega (arith, t.0)) t.2 v.open_asks.0.1 in
          rw (bid_left, ask_left)
            (record {
              open_bids = (
                (rw eb (omega (int_laws, t.1)), rw eb (omega (int_laws, t.0, v.open_bids.0.1))),
                v.open_bids.1,
              );
              open_asks = (
                (rw ea (omega (int_laws, t.2)), rw ea (omega (int_laws, t.0, v.open_asks.0.1))),
                v.open_asks.1,
              );
              bid_balance =
                  rw (eb, qty_sum-append)
                    (moved b.qty taken (order_sum bs) (qty_sum fills) ∙ v.bid_balance);
              ask_balance =
                  rw (ea, qty_sum-append)
                    (moved a.qty taken (order_sum rest) (qty_sum fills) ∙ v.ask_balance);
              at_price = All-append (IsAt price) fills _ v.at_price ((t.0, refl), tt);
            })
    ]
  ]

  pair_step_lighter :
      weight_of (pair_step price b bs a rest fills) < weight (b ∷ bs) + weight (a ∷ rest)
  unfolding pair_step
  pair_step_lighter = elim (Bool-cases (eqb_ℤ b.qty (pos 0))) [
    | inl gone ↦ rw (gone, weight_of) (omega arith)
    | inr bid_left ↦ elim (Bool-cases (eqb_ℤ a.qty (pos 0))) [
      | inl gone ↦ rw (bid_left, gone, weight_of) (omega (arith, cost_bound (eqb_ℤ b.qty (pos 0))))
      | inr ask_left ↦ elim (Bool-cases (ltb_ℤ a.qty b.qty)) [
        | inl less ↦ rw (bid_left, ask_left, less, self_zero, weight_of) (omega (arith, cost_bound))
        | inr least ↦
            rw (bid_left, ask_left, least, self_zero, weight_of) (omega (arith, cost_bound))
      ]
    ]
  ]

pair_all_total :
    (price b a : ℤ) (k : ℕ) (xs ys : List AuctionOrder) (fs : List Fill)
    → IsBalanced price b a (record { bids = xs; asks = ys; fills = fs })
    → weight xs + weight ys < k
    → (q : Pairing) × (pair_all k price (record { bids = xs; asks = ys; fills = fs }) ≡ some q)
      × IsBalanced price b a q
      × ((q.bids ≡ []) ⊎ (q.asks ≡ []))
unfolding pair_all
pair_all_total price b a zero xs ys fs v h = elim h [ ]
pair_all_total price b a (suc k) [] ys fs v h = (_, refl, v, inl refl)
pair_all_total price b a (suc k) (x ∷ xs) [] fs v h = (_, refl, v, inr refl)
pair_all_total price b a (suc k) (x ∷ xs) (y ∷ ys) fs v h =
    let p = pair_step price x xs y ys fs in
    pair_all_total price b a k p.bids p.asks p.fills (pair_step-IsBalanced price b a x xs y ys fs v)
      (omega (arith, pair_step_lighter price b a x xs y ys fs v))

abbrev pub eligible_bids : AuctionBook → ℤ → List AuctionOrder
eligible_bids a price = filter (λ o. leb_ℤ price o.price) a.bids

abbrev pub eligible_asks : AuctionBook → ℤ → List AuctionOrder
eligible_asks a price = filter (λ o. leb_ℤ o.price price) a.asks

min_left : (b a : ℤ) → b ≤ℤ a → min_ℤ b a ≡ b
min_left b a h = ground arith

min_right : (b a : ℤ) → a ≤ℤ b → min_ℤ b a ≡ a
min_right b a h = ground arith

exhausted : (os : List AuctionOrder) (f t : ℤ) → order_sum os +ℤ f ≡ t → os ≡ [] → f ≡ t
exhausted os f t h e = omega int_laws ∙ subst (λ x. order_sum x +ℤ f ≡ t) e h

covered : (s f t : ℤ) → pos 0 ≤ℤ s → s +ℤ f ≡ t → f ≤ℤ t
covered s f t h e = subst (λ x. f ≤ℤ x) e (omega (int_laws, h))

volume_of_balance :
    (price b a : ℤ) (q : Pairing)
    → IsBalanced price b a q
    → (q.bids ≡ []) ⊎ (q.asks ≡ [])
    → qty_sum q.fills ≡ min_ℤ b a
volume_of_balance price b a q v (inl e) =
    let f = exhausted q.bids (qty_sum q.fills) b v.bid_balance e in
    let c =
      covered (order_sum q.asks) (qty_sum q.fills) a (order_sum_open q.asks v.open_asks)
        v.ask_balance in
    f ∙ sym (min_left b a (subst (λ x. x ≤ℤ a) f c))
volume_of_balance price b a q v (inr e) =
    let f = exhausted q.asks (qty_sum q.fills) a v.ask_balance e in
    let c =
      covered (order_sum q.bids) (qty_sum q.fills) b (order_sum_open q.bids v.open_bids)
        v.bid_balance in
    f ∙ sym (min_right b a (subst (λ x. x ≤ℤ b) f c))

-- If every order of the auction book has a quantity of 0 to 2 ^ 63 - 1, then `Sweep` returns; each
-- fill is of a positive quantity at the clearing price; and the fills add up to the smaller one of
-- the quantities of the bids at or above and of the asks at or below the clearing price.
pub sweep-volume :
    (a : AuctionBook) (price : ℤ)
    → All IsOpen a.bids
    → All IsOpen a.asks
    → (r : Swept) × (sweep a price ≡ some r)
      × All (IsAt price) r.fills
      × (qty_sum r.fills
          ≡ min_ℤ (order_sum (eligible_bids a price)) (order_sum (eligible_asks a price)))
unfolding sweep settle_sweep
sweep-volume a price h k =
    let bs = eligible_bids a price in
    let os = eligible_asks a price in
    let b = order_sum bs in
    let o = order_sum os in
    let v : IsBalanced price b o (record { bids = bs; asks = os; fills = [] }) = record {
      open_bids = filter-IsOpen _ a.bids h;
      open_asks = filter-IsOpen _ a.asks k;
      bid_balance = omega int_laws;
      ask_balance = omega int_laws;
      at_price = tt;
    } in
    let (q, e, w, ends) =
      pair_all_total price b o (sweep_fuel bs os) bs os [] v
        (omega (arith, weight_bound bs, weight_bound os)) in
    (settle_sweep a price q, rw e refl, w.at_price, volume_of_balance price b o q w ends)
