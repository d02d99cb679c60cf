-- ===== src/Circuit.antt =====
-- circuit/: the rolling window of prices and the circuit breaker. The window is the list of its
-- samples, oldest first, which the buffer of Circuit/Ring stands for.
pub mod Ring
pub mod Refinement
pub mod Threshold
use clob.Base.{
  ℕ, List, [], ◌∷◌, ◌++◌, Bool, false, ◌&&◌, ◌||◌, Option, none, some, ltb, if◌then◌else◌, length,
  ◌>>=◌,
}
use clob.Base.Int.{ℤ, pos, ltb_ℤ, leb_ℤ, sub64}
use clob.Types.Decimal.{Decimal, abs, sub, div, greater_than, is_zero}
use clob.Config.{CircuitBreakerConfig}

pub record PriceSample : Type 0 where
  pub price : Decimal
  pub timestamp : ℤ

pub record RollingWindow : Type 0 where
  pub samples : List PriceSample
  pub duration : ℤ

abbrev pub max_samples : ℕ
max_samples = 10000

unfoldable pub new_rolling_window : ℤ → RollingWindow
new_rolling_window duration = record { samples = []; duration = duration }

-- The oldest samples before the cutoff go, up to the first one that is not before it.
unfoldable pub evict : ℤ → List PriceSample → List PriceSample
evict cutoff [] = []
evict cutoff (s ∷ ss) = if leb_ℤ cutoff s.timestamp then s ∷ ss else evict cutoff ss

abbrev pub without_oldest : List PriceSample → List PriceSample
without_oldest [] = []
without_oldest (_ ∷ ss) = ss

abbrev pub last_price : List PriceSample → Option Decimal
last_price [] = none
last_price (s ∷ []) = some s.price
last_price (s ∷ t ∷ ts) = last_price (t ∷ ts)

-- A full buffer overwrites its oldest sample.
unfoldable pub add_sample : RollingWindow → Decimal → ℤ → RollingWindow
unfolding evict
add_sample w price now =
    let kept = if ltb (length w.samples) max_samples then w.samples else without_oldest w.samples in
    record w {
      samples =
          evict (sub64 now w.duration) (kept ++ record { price = price; timestamp = now } ∷ []);
    }

unfoldable pub oldest_price : RollingWindow → Option Decimal
oldest_price w = elim w.samples [ [] ↦ none | s ∷ _ ↦ some s.price ]

-- `NewestPrice`
unfoldable pub newest_price : RollingWindow → Option Decimal
newest_price w = last_price w.samples

-- `Len`
unfoldable pub window_len : RollingWindow → ℕ
window_len w = length w.samples

unfoldable pub reset : RollingWindow → RollingWindow
reset w = record w { samples = [] }

pub record CircuitBreaker : Type 0 where
  pub window : RollingWindow
  pub cfg : CircuitBreakerConfig
  pub last_halt : ℤ

unfoldable pub new_circuit_breaker : CircuitBreakerConfig → CircuitBreaker
unfolding new_rolling_window
new_circuit_breaker cfg = record {
  window = new_rolling_window cfg.window_duration;
  cfg = cfg;
  last_halt = pos 0;
}

unfoldable pub in_cooldown : CircuitBreaker → ℤ → Bool
in_cooldown cb now =
    ltb_ℤ (pos 0) cb.cfg.cooldown_period
    && ltb_ℤ (pos 0) cb.last_halt
    && ltb_ℤ (sub64 now cb.last_halt) cb.cfg.cooldown_period

-- The move from the oldest price, with four decimals, against the threshold.
unfoldable pub exceeds : CircuitBreaker → Decimal → Decimal → Option Bool
exceeds cb oldest trade_price = do
  diff ← sub trade_price oldest
  move ← div (abs diff) oldest 4
  greater_than move cb.cfg.max_move_percent

-- Whether the market is to be halted, and the breaker; `none` is a panic of the decimals.
unfoldable pub check : CircuitBreaker → Decimal → ℤ → Option (Bool × CircuitBreaker)
unfolding add_sample in_cooldown oldest_price exceeds
check cb trade_price now =
    let next = record cb { window = add_sample cb.window trade_price now } in
    if in_cooldown cb now || ltb (length next.window.samples) 2
    then some (false, next)
    else (elim (oldest_price next.window) [
      | none ↦ some (false, next)
      | some oldest ↦
          if is_zero oldest
          then some (false, next)
          else (exceeds cb oldest trade_price >>= λ halt. some (halt, next))
    ])

unfoldable pub set_last_halt : CircuitBreaker → ℤ → CircuitBreaker
unfolding reset
set_last_halt cb ts = record cb { last_halt = ts; window = reset cb.window }
