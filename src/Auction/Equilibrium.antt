-- ===== src/Auction/Equilibrium.antt =====
-- auction/equilibrium.go: the clearing price is the best of the prices of the orders.
use clob.Base.{
  ℕ, ◌≡◌, ◌≢◌, ◌⊎◌, List, [], ◌++◌, Bool, true, false, not, Option, none, some, map, if◌then◌else◌,
  All,
}
use mathlib.Core.List.{Memᴰ}
use clob.Base.Int.{ℤ, pos, ltb_ℤ, eqb_ℤ, sub64}
use clob.Types.Decimal.{Decimal}
use clob.Auction.{AuctionBook, Clearing, sum64, abs64}
use clob.Auction.Sweep.{eligible_bids, eligible_asks}
use clob.Auction.Candidates.{NotBeaten, is_better}

-- The quantity that trades at a price, and the quantity that is left over.
abbrev pub volume : AuctionBook → ℤ → ℤ
volume a price =
    let cum_bid = sum64 (eligible_bids a price) (pos 0) in
    let cum_ask = sum64 (eligible_asks a price) (pos 0) in
    if ltb_ℤ cum_ask cum_bid then cum_ask else cum_bid

abbrev pub imbalance : AuctionBook → ℤ → ℤ
imbalance a price =
    abs64 (sub64 (sum64 (eligible_bids a price) (pos 0)) (sum64 (eligible_asks a price) (pos 0)))

abbrev pub distance : ℤ → ℤ → ℤ
distance ref_price price = abs64 (sub64 price ref_price)

-- A reference price of 0 is none.
abbrev pub has_ref : ℤ → Bool
has_ref ref_price = not (eqb_ℤ ref_price (pos 0))

-- The price is not beaten by another.
abbrev pub NotBeatenBy : AuctionBook → ℤ → ℤ → ℤ → Type 0
NotBeatenBy a ref_price price other =
    NotBeaten (has_ref ref_price) (volume a other) (imbalance a other) (distance ref_price other)
      (volume a price) (imbalance a price) (distance ref_price price)

-- What is known of the best candidate, or that there is none yet, after the prices `seen`.
abbrev ChosenIf : AuctionBook → ℤ → List ℤ → Bool → ℤ → ℤ → ℤ → Type 0
ChosenIf a ref_price seen false p q j = All (λ c. volume a c ≡ pos 0) seen
ChosenIf a ref_price seen true p q j =
    (q ≡ volume a p)
    × (j ≡ imbalance a p)
    × (eqb_ℤ q (pos 0) ≡ false)
    × Memᴰ p seen
    × All (NotBeatenBy a ref_price p) seen

abbrev Chosen : AuctionBook → ℤ → List ℤ → Clearing → Type 0
Chosen a ref_price seen b =
    ChosenIf a ref_price seen b.found b.best_price b.best_qty b.best_imbalance

abbrev candidate : AuctionBook → ℤ → Clearing
candidate a p = record {
  best_price = p;
  best_qty = volume a p;
  best_imbalance = imbalance a p;
  found = true;
}

module _ (a : AuctionBook) (ref_price p : ℤ) (seen : List ℤ) where
  -- The test against a best candidate of this price, quantity and imbalance.
  abbrev beats : Bool → ℤ → ℤ → ℤ → Bool
  beats found bp bq bi =
      is_better (has_ref ref_price) found (eqb_ℤ p ref_price) (volume a p) (imbalance a p)
        (distance ref_price p) bq bi (distance ref_price bp)

-- What the loop leaves: a best candidate of all prices; a panic only if precisions differ and there is
-- a reference price.
abbrev ChosenAll : AuctionBook → Bool → ℤ → List ℤ → Option Clearing → Type 0
ChosenAll a mixed ref_price seen none = (mixed ≡ true) × (has_ref ref_price ≡ true)
ChosenAll a mixed ref_price seen (some b) = Chosen a ref_price seen b

-- What ComputeClearingPrice promises of its result.
abbrev pub IsClearing : AuctionBook → ℕ → Decimal → Option (Option (ℤ × ℤ)) → Type 0
IsClearing a price_precision ref none =
    (ref.precision ≢ price_precision) × (has_ref ref.value ≡ true)
IsClearing a price_precision ref (some none) =
    (a.bids ≡ []) ⊎ (a.asks ≡ []) ⊎ All (λ o. volume a o.price ≡ pos 0) (a.bids ++ a.asks)
IsClearing a price_precision ref (some (some (p, q))) =
    (a.bids ≢ [])
    × (a.asks ≢ [])
    × (q ≡ volume a p)
    × (q ≢ pos 0)
    × Memᴰ p (map (λ o. o.price) (a.bids ++ a.asks))
    × All (λ o. NotBeatenBy a ref.value p o.price) (a.bids ++ a.asks)
