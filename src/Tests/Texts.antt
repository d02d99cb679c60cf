-- ===== src/Tests/Texts.antt =====
-- Runs of the properties of printed numbers, of the price window and of the clearing price at concrete
-- inputs.
use clob.Base.{
  ℕ, ◌≡◌, Bool, true, false, ◌≤◌, ◌*◌, ◌^◌, suc, length, ◌↔◌, refl, List, [], ◌∷◌, Option, some,
  none, arith,
}
use clob.Base.Int.{ℤ, pos, negsuc}
use clob.Types.{Side, bid, ask, gtc}
use clob.Types.Decimal.{Decimal}
use clob.Types.Decimal.Text.{to_text, parse_decimal}
use clob.Types.Decimal.RoundTrip.{IsPrinted, text_reads_back}
use clob.Circuit.{CircuitBreaker, new_rolling_window, add_sample, oldest_price, in_cooldown, check}
use clob.Circuit.Threshold.{apart, breaker_halts_iff}
use clob.Circuit.Ring.{new_ring}
use clob.Circuit.Refinement.{
  WindowCall, add_call, reset_call, ring_after, window_after, IsSeenAs, ring_is_window,
}
use clob.Auction.{AuctionOrder, AuctionBook, compute_clearing_price}
use clob.Events.Names.{codes}

abbrev decimal : ℤ → ℕ → Decimal
decimal v p = record { value = v; precision = p }

-- -101.05
abbrev amount : Decimal
amount = decimal (negsuc 10104) 2

amount_text : to_text amount ≡ some (codes "-101.05")
unfolding to_text clob.Base.Strconv.format_int clob.Base.Strconv.zero_padded clob.Base.Int.div64
    clob.Base.Int.int64 mathlib.Core.Bool.xor clob.Base.Int.neg64 clob.Base.Int.neg
    clob.Base.Int.rem64
amount_text = refl

two_signs : parse_decimal (codes "--5") 0 ≡ some (some (decimal (pos 5) 0))
unfolding parse_decimal clob.Base.Strconv.parse_int clob.Base.Int.neg64 clob.Base.Int.int64
    clob.Base.Int.neg clob.Base.Int.add64 clob.Base.Int.◌+ℤ◌ clob.Base.Int.mul64 clob.Base.Int.◌*ℤ◌
two_signs = refl

signed_fraction : parse_decimal (codes "1.-5") 2 ≡ some (some (decimal (pos 95) 2))
unfolding parse_decimal clob.Base.Strconv.parse_int clob.Base.Int.add64 clob.Base.Int.int64
    clob.Base.Int.◌+ℤ◌ clob.Base.Int.mul64 clob.Base.Int.◌*ℤ◌
signed_fraction = refl

text_reads_back_example : IsPrinted amount (decimal (pos 0) 7)
text_reads_back_example =
    text_reads_back amount (decimal (pos 0) 7) (omega arith) (omega arith) (λ e. omega (arith, e))

abbrev calls : List WindowCall
calls =
    add_call (decimal (pos 100) 2) (pos 1)
    ∷ reset_call
    ∷ add_call (decimal (pos 101) 2) (pos 2)
    ∷ add_call (decimal (pos 103) 2) (pos 90)
    ∷ []

ring_is_window_example :
    IsSeenAs
      (ring_after calls (new_ring (pos 50)))
      (window_after calls (new_rolling_window (pos 50)))
ring_is_window_example = ring_is_window (pos 50) calls

abbrev offer : ℕ → Side → ℤ → ℤ → AuctionOrder
offer id side price qty = record {
  order_id = id;
  user_id = id;
  side = side;
  price = price;
  qty = qty;
  tif = gtc;
  seq_num = id;
}

abbrev offers : AuctionBook
offers = record {
  bids = offer 1 bid (pos 102) (pos 5) ∷ offer 2 bid (pos 100) (pos 4) ∷ [];
  asks = offer 3 ask (pos 99) (pos 3) ∷ offer 4 ask (pos 101) (pos 6) ∷ [];
}

clears_at : compute_clearing_price offers 2 (decimal (pos 100) 2) ≡ some (some (pos 101, pos 5))
unfolding compute_clearing_price clob.Base.Int.add64 clob.Base.Int.int64 clob.Base.Int.◌+ℤ◌
    clob.Base.Int.sub64 clob.Base.Int.◌-ℤ◌ clob.Base.Int.neg64 clob.Base.Int.neg
clears_at = refl

-- One price of 100.00, and a limit of 0.1000.
abbrev breaker : CircuitBreaker
breaker = record {
  window = record {
    samples = record { price = decimal (pos 10000) 2; timestamp = pos 1 } ∷ [];
    duration = pos 60;
  };
  cfg = record {
    window_duration = pos 60;
    max_move_percent = decimal (pos 1000) 4;
    cooldown_period = pos 30;
  };
  last_halt = pos 0;
}

breaker_oldest :
    oldest_price (add_sample breaker.window (decimal (pos 11500) 2) (pos 2))
    ≡ some (decimal (pos 10000) 2)
unfolding oldest_price add_sample clob.Base.Int.sub64 clob.Base.Int.int64 clob.Base.Int.◌-ℤ◌
breaker_oldest = refl

breaker_halts_iff_example :
    (halt : Bool) × (check breaker (decimal (pos 11500) 2) (pos 2)
      ≡ some (
        halt,
        record breaker { window = add_sample breaker.window (decimal (pos 11500) 2) (pos 2) },
      ))
    × ((halt ≡ true) ↔ (
        (in_cooldown breaker (pos 2) ≡ false)
        × (2 ≤ length (add_sample breaker.window (decimal (pos 11500) 2) (pos 2)).samples)
        × (1001 * 10000 ≤ apart 11500 10000 * 10 ^ 4)))
breaker_halts_iff_example =
    breaker_halts_iff breaker (decimal (pos 11500) 2) (decimal (pos 10000) 2) (pos 2) 11500 9999
      1000 refl refl refl refl refl (omega arith) (omega arith) breaker_oldest
