-- ===== src/Tests/Parts.antt =====
-- Runs of the properties of pool/, types/, statemachine/ and auction/ at concrete inputs.
use clob.Base.{
  ℕ, suc, ◌*◌, ◌/◌, ◌^◌, ◌≤◌, ◌<◌, ◌≡◌, refl, ◌↔◌, ◌⊎◌, List, [], ◌∷◌, true, arith, All, none, some,
}
use clob.Base.Int.{min_ℤ, ℤ, pos}
use clob.Types.{Side, bid, ask, gtc}
use clob.Types.Decimal.{Decimal, mul_qty, is_valid_tick}
use clob.Types.Decimal.Laws.{mul_qty_exact, is_valid_tick_iff, mul_qty_panics_iff}
use clob.Pool.{Pool, acquire, release, acquire_slot, release_slot}
use clob.Pool.Refinement.{slots, seen, acquire-slots, release-slots}
use clob.Machine.{
  MarketState, Machine, pre_open, auction, open_state, halted, closed, transition, can_match,
}
use clob.Machine.Lifecycle.{Run, stay, move, visited, reopening, auction_after_open}
use clob.Auction.{AuctionOrder, AuctionBook, Swept, sweep}
use clob.Auction.Sweep.{IsAt, order_sum, eligible_bids, eligible_asks, sweep-volume}
use clob.Book.Match.Invariant.{qty_sum}

-- Three slots, of which one is in use.
abbrev pool : Pool ℕ
pool = record { store = 0 ∷ 0 ∷ 9 ∷ []; free = 2 ∷ 1 ∷ 0 ∷ []; top = 2; capacity = 3 }

acquire-slots_example : seen (acquire 0 pool) ≡ acquire_slot (slots pool)
acquire-slots_example = acquire-slots 0 pool

release-slots_example :
    (q : Pool ℕ) × (release 2 pool ≡ some q) × (slots q ≡ release_slot 2 (slots pool))
release-slots_example = release-slots 2 pool (omega arith)

abbrev decimal : ℤ → Decimal
decimal v = record { value = v; precision = 2 }

mul_qty_exact_example : mul_qty (decimal (pos 150)) (decimal (pos 250)) ≡ some (decimal (pos 375))
unfolding mathlib.Core.Bool.xor
mul_qty_exact_example =
    mul_qty_exact (decimal (pos 150)) (decimal (pos 250)) (omega arith) (omega arith)

is_valid_tick_iff_example :
    (is_valid_tick (decimal (pos 150)) (decimal (pos 25)) ≡ some true)
    ↔ ((k : ℕ) × (n : ℕ) × (pos 25 ≡ pos (suc n)) × (pos 150 ≡ pos (suc k * suc n)))
is_valid_tick_iff_example =
    is_valid_tick_iff (decimal (pos 150)) (decimal (pos 25)) refl (omega arith)

mul_qty_panics_iff_example :
    (mul_qty (decimal (pos 150)) (decimal (pos 250)) ≡ none)
    ↔ ((18 < 2) ⊎ (2 ^ 64 ≤ 150 * 250 / 10 ^ 2))
mul_qty_panics_iff_example = mul_qty_panics_iff (decimal (pos 150)) (decimal (pos 250))

abbrev at : MarketState → Machine
at s = record { state = s }

next_session : Run (at closed) (at open_state)
unfolding transition
next_session =
    move (at closed) (at pre_open) pre_open (at open_state) refl
      (move (at pre_open) (at open_state) open_state (at open_state) refl (stay (at open_state)))

reopening_example :
    (rest : List MarketState) × (visited (at closed) (at open_state) next_session ≡ pre_open ∷ rest)
unfolding can_match
reopening_example = reopening (at closed) (at open_state) next_session refl refl

interruption : Run (at open_state) (at auction)
unfolding transition
interruption =
    move (at open_state) (at halted) halted (at auction) refl
      (move (at halted) (at auction) auction (at auction) refl (stay (at auction)))

auction_after_open_example :
    (rest : List MarketState) × ((visited (at open_state) (at auction) interruption ≡ halted ∷ rest)
      ⊎ (visited (at open_state) (at auction) interruption ≡ closed ∷ rest))
auction_after_open_example = auction_after_open (at open_state) (at auction) interruption refl refl

abbrev auction_order : ℕ → Side → ℤ → ℤ → AuctionOrder
auction_order id side price qty = record {
  order_id = id;
  user_id = id;
  side = side;
  price = price;
  qty = qty;
  tif = gtc;
  seq_num = id;
}

-- Of 12 bid and 9 offered, 7 are bid at 100 or above, and 6 are offered at 100 or below.
abbrev auction_book : AuctionBook
auction_book = record {
  bids =
      auction_order 1 bid (pos 101) (pos 4)
      ∷ auction_order 2 bid (pos 100) (pos 3)
      ∷ auction_order 3 bid (pos 99) (pos 5)
      ∷ [];
  asks = auction_order 4 ask (pos 98) (pos 6) ∷ auction_order 5 ask (pos 102) (pos 3) ∷ [];
}

sweep-volume_example :
    (r : Swept) × (sweep auction_book (pos 100) ≡ some r)
    × All (IsAt (pos 100)) r.fills
    × (qty_sum r.fills
        ≡ min_ℤ
            (order_sum (eligible_bids auction_book (pos 100)))
            (order_sum (eligible_asks auction_book (pos 100))))
sweep-volume_example =
    sweep-volume auction_book (pos 100)
      ((omega arith, omega arith), ((omega arith, omega arith), ((omega arith, omega arith), tt)))
      ((omega arith, omega arith), ((omega arith, omega arith), tt))
