-- ===== src/Auction.antt =====
-- auction/: the orders of a call auction, its clearing price and the sweep at that price. Prices and
-- quantities are int64 mantissas at the market's precisions.
pub mod Sweep
pub mod Candidates
pub mod Equilibrium
use clob.Base.{
  ℕ, zero, suc, ◌+◌, ◌*◌, List, [], ◌∷◌, ◌++◌, Bool, true, false, not, ◌&&◌, ◌||◌, Option, none,
  some, ltb, ◌==◌, if◌then◌else◌, length, filter, map, ◌>>=◌,
}
use clob.Base.Int.{ℤ, pos, ltb_ℤ, leb_ℤ, eqb_ℤ, add64, sub64, neg64, is_negative}
use clob.Types.{Side, bid, ask, is_bid, Tif, is_gtc}
use clob.Types.Decimal.{Decimal}
use clob.Book.Node.{Fill}

pub record AuctionOrder : Type 0 where
  pub order_id : ℕ
  pub user_id : ℕ
  pub side : Side
  pub price : ℤ
  pub qty : ℤ
  pub tif : Tif
  pub seq_num : ℕ

pub record AuctionBook : Type 0 where
  pub bids : List AuctionOrder
  pub asks : List AuctionOrder

unfoldable pub new_auction_book : AuctionBook
new_auction_book = record { bids = []; asks = [] }

-- The orders of the two sorts: the better price first, and then the lower sequence number.
unfoldable pub comes_before : Side → AuctionOrder → AuctionOrder → Bool
comes_before bid a b =
    if eqb_ℤ a.price b.price then ltb a.seq_num b.seq_num else ltb_ℤ b.price a.price
comes_before ask a b =
    if eqb_ℤ a.price b.price then ltb a.seq_num b.seq_num else ltb_ℤ a.price b.price

-- Sorting a sorted slice with one more element: the element goes to its place. Orders that the
-- comparison does not tell apart would have equal sequence numbers, which the counter excludes.
unfoldable pub place : Side → AuctionOrder → List AuctionOrder → List AuctionOrder
unfolding comes_before
place side o [] = o ∷ []
place side o (x ∷ xs) = if comes_before side o x then o ∷ x ∷ xs else x ∷ place side o xs

unfoldable pub add_order : AuctionBook → AuctionOrder → AuctionBook
unfolding place
add_order a o =
    if is_bid o.side
    then record a { bids = place bid o a.bids }
    else record a { asks = place ask o a.asks }

abbrev pub has_id : ℕ → List AuctionOrder → Bool
has_id id [] = false
has_id id (o ∷ os) = o.order_id == id || has_id id os

unfoldable pub has_auction_order : AuctionBook → ℕ → Bool
has_auction_order a id = has_id id a.bids || has_id id a.asks

abbrev pub sum64 : List AuctionOrder → ℤ → ℤ
sum64 [] acc = acc
sum64 (o ∷ os) acc = sum64 os (add64 acc o.qty)

abbrev pub abs64 : ℤ → ℤ
abs64 a = if is_negative a then neg64 a else a

-- The distinct prices, ascending.
abbrev pub insert_price : ℤ → List ℤ → List ℤ
insert_price p [] = p ∷ []
insert_price p (q ∷ qs) =
    if ltb_ℤ p q then p ∷ q ∷ qs else if eqb_ℤ p q then q ∷ qs else q ∷ insert_price p qs

abbrev pub candidates : List AuctionOrder → List ℤ
candidates [] = []
candidates (o ∷ os) = insert_price o.price (candidates os)

-- The best candidate so far.
pub record Clearing : Type 0 where
  pub best_price : ℤ
  pub best_qty : ℤ
  pub best_imbalance : ℤ
  pub found : Bool

-- One candidate price of the loop; a reference price of 0 is no reference price.
unfoldable pub consider : AuctionBook → ℤ → Clearing → ℤ → Clearing
consider a ref_price best candidate =
    let cum_bid = sum64 (filter (λ o. leb_ℤ candidate o.price) a.bids) (pos 0) in
    let cum_ask = sum64 (filter (λ o. leb_ℤ o.price candidate) a.asks) (pos 0) in
    let exec_qty = if ltb_ℤ cum_ask cum_bid then cum_ask else cum_bid in
    let imbalance = abs64 (sub64 cum_bid cum_ask) in
    let dist_cand = abs64 (sub64 candidate ref_price) in
    let dist_best = abs64 (sub64 best.best_price ref_price) in
    let same = eqb_ℤ exec_qty best.best_qty in
    let nearer =
      ltb_ℤ dist_cand dist_best || (eqb_ℤ dist_cand dist_best && eqb_ℤ candidate ref_price) in
    let better_ref =
      not (eqb_ℤ ref_price (pos 0))
      && best.found
      && same
      && eqb_ℤ imbalance best.best_imbalance
      && nearer in
    let better =
      not best.found
      || ltb_ℤ best.best_qty exec_qty
      || (same && ltb_ℤ imbalance best.best_imbalance)
      || better_ref in
    if eqb_ℤ exec_qty (pos 0)
    then best
    else if better
    then record {
      best_price = candidate;
      best_qty = exec_qty;
      best_imbalance = imbalance;
      found = true;
    }
    else best

-- Whether the loop compares the distances of a candidate and of the best one from the reference price.
unfoldable pub compares_ref : AuctionBook → ℤ → Clearing → ℤ → Bool
compares_ref a ref_price best candidate =
    let cum_bid = sum64 (filter (λ o. leb_ℤ candidate o.price) a.bids) (pos 0) in
    let cum_ask = sum64 (filter (λ o. leb_ℤ o.price candidate) a.asks) (pos 0) in
    let exec_qty = if ltb_ℤ cum_ask cum_bid then cum_ask else cum_bid in
    not (eqb_ℤ exec_qty (pos 0))
    && not (eqb_ℤ ref_price (pos 0))
    && best.found
    && eqb_ℤ exec_qty best.best_qty
    && eqb_ℤ (abs64 (sub64 cum_bid cum_ask)) best.best_imbalance

-- The loop over the candidates. `mixed` tells that the reference price has another precision than the
-- candidates; comparing with it is then a panic, `none`.
unfoldable pub consider_all : AuctionBook → Bool → ℤ → Clearing → List ℤ → Option Clearing
unfolding consider compares_ref
consider_all a mixed ref_price best [] = some best
consider_all a mixed ref_price best (p ∷ ps) =
    let later = consider_all a mixed ref_price (consider a ref_price best p) ps in
    if mixed && compares_ref a ref_price best p then none else later

abbrev pub no_orders : List AuctionOrder → Bool
no_orders [] = true
no_orders (_ ∷ _) = false

-- With the precision of prices. `none` is a panic, and `some none` says that there is no clearing
-- price.
unfoldable pub compute_clearing_price : AuctionBook → ℕ → Decimal → Option (Option (ℤ × ℤ))
unfolding consider_all
compute_clearing_price a price_precision ref_price =
    let start : Clearing = record {
      best_price = pos 0;
      best_qty = pos 0;
      best_imbalance = pos 0;
      found = false;
    } in
    if no_orders a.bids || no_orders a.asks then some none else (do
      best ←
          consider_all a (not (ref_price.precision == price_precision)) ref_price.value start
            (candidates (a.bids ++ a.asks))
      some (if best.found then some (best.best_price, best.best_qty) else none))

-- The loop of `Sweep`: the orders from the two positions on, with what is left of each as its
-- quantity, and the fills. Nothing is left of an order that a position has passed.
pub record Pairing : Type 0 where
  pub bids : List AuctionOrder
  pub asks : List AuctionOrder
  pub fills : List Fill

abbrev pub with_qty : AuctionOrder → ℤ → AuctionOrder
with_qty o q = record o { qty = q }

unfoldable pub auction_fill : ℤ → AuctionOrder → AuctionOrder → ℤ → Fill
auction_fill price b a qty = record {
  maker_order_id = a.order_id;
  taker_order_id = b.order_id;
  maker_user_id = a.user_id;
  taker_user_id = b.user_id;
  maker_side = ask;
  price = price;
  qty = qty;
  maker_remain_qty = sub64 a.qty qty;
  taker_remain_qty = sub64 b.qty qty;
  maker_seq_num = a.seq_num;
  taker_seq_num = b.seq_num;
  timestamp = pos 0;
  maker_level_total_qty = pos 0;
  maker_level_display_qty = pos 0;
  maker_level_order_count = 0;
  maker_level_exists = false;
}

-- One round of the loop with an order at each position.
unfoldable pub pair_step :
    ℤ → AuctionOrder → List AuctionOrder → AuctionOrder → List AuctionOrder → List Fill → Pairing
unfolding auction_fill
pair_step price b bs a asks fills =
    let qty = if ltb_ℤ a.qty b.qty then a.qty else b.qty in
    if eqb_ℤ b.qty (pos 0)
    then record { bids = bs; asks = a ∷ asks; fills = fills }
    else if eqb_ℤ a.qty (pos 0)
    then record { bids = b ∷ bs; asks = asks; fills = fills }
    else record {
      bids = with_qty b (sub64 b.qty qty) ∷ bs;
      asks = with_qty a (sub64 a.qty qty) ∷ asks;
      fills = fills ++ auction_fill price b a qty ∷ [];
    }

-- The loop, on fuel.
unfoldable pub pair_all : ℕ → ℤ → Pairing → Option Pairing
unfolding pair_step
pair_all zero price p = none
pair_all (suc k) price p = elim p.bids [
  | [] ↦ some p
  | b ∷ bs ↦ elim p.asks [
    | [] ↦ some p
    | a ∷ rest ↦ pair_all k price (pair_step price b bs a rest p.fills)
  ]
]

pub record Swept : Type 0 where
  pub fills : List Fill
  pub unmatched : List AuctionOrder
  pub canceled : List AuctionOrder

-- Fuel: each order is passed once, and each but the passed ones is exhausted once.
abbrev pub sweep_fuel : List AuctionOrder → List AuctionOrder → ℕ
sweep_fuel bids asks = suc (2 * (length bids + length asks))

-- What `Sweep` returns after its loop: open orders that are gtc stay, and others are canceled.
unfoldable pub settle_sweep : AuctionBook → ℤ → Pairing → Swept
settle_sweep a price p =
    let left =
      filter (λ o. not (eqb_ℤ o.qty (pos 0))) p.bids
      ++ filter (λ o. not (eqb_ℤ o.qty (pos 0))) p.asks
      ++ filter (λ o. ltb_ℤ o.price price) a.bids
      ++ filter (λ o. ltb_ℤ price o.price) a.asks in
    record {
      fills = p.fills;
      unmatched = filter (λ o. is_gtc o.tif) left;
      canceled = filter (λ o. not (is_gtc o.tif)) left;
    }

unfoldable pub sweep : AuctionBook → ℤ → Option Swept
unfolding pair_all settle_sweep
sweep a price =
    let bids = filter (λ o. leb_ℤ price o.price) a.bids in
    let asks = filter (λ o. leb_ℤ o.price price) a.asks in
    do
      p ← pair_all (sweep_fuel bids asks) price (record { bids = bids; asks = asks; fills = [] })
      some (settle_sweep a price p)
