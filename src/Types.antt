-- ===== src/Types.antt =====
-- The enumerations and identifiers of types/ and the self-trade modes of config/market.go.
-- Identifiers are strings that the engine only compares, so they are numbers here.
pub mod Decimal
use clob.Base.{ℕ, ◌-◌, ◌≡◌, refl, Bool, true, false, ◌||◌, ◌==◌, arith}
use Prim.Native.Nat.{bit_and, bit_or}

-- types/side.go
pub data Side : Type 0 where
  bid ask : Side

abbrev pub is_bid : Side → Bool
is_bid bid = true
is_bid ask = false

unfoldable pub opposite : Side → Side
opposite bid = ask
opposite ask = bid

-- types/tif.go
pub data Tif : Type 0 where
  gtc ioc fok gtd day : Tif

abbrev pub is_ioc : Tif → Bool
is_ioc ioc = true
is_ioc _ = false

abbrev pub is_fok : Tif → Bool
is_fok fok = true
is_fok _ = false

abbrev pub is_gtc : Tif → Bool
is_gtc gtc = true
is_gtc _ = false

unfoldable pub can_rest : Tif → Bool
can_rest gtc = true
can_rest gtd = true
can_rest day = true
can_rest _ = false

-- types/ordertype.go
pub data OrderType : Type 0 where
  limit market stop stop_limit iceberg : OrderType

abbrev pub is_market : OrderType → Bool
is_market market = true
is_market _ = false

-- config/market.go. The field is a byte that nothing validates: `other` is a value with no name.
pub data StpMode : Type 0 where
  disabled cancel_both cancel_maker cancel_taker decrement_cancel : StpMode
  other : ℕ → StpMode

abbrev pub is_disabled : StpMode → Bool
is_disabled disabled = true
is_disabled _ = false

-- types/flags.go: order flags are a word, and each flag is a bit.
abbrev pub flag_post_only : ℕ
flag_post_only = 1

abbrev pub flag_reduce_only : ℕ
flag_reduce_only = 2

abbrev pub flag_iceberg : ℕ
flag_iceberg = 4

-- `OrderFlags.Has`
unfoldable pub has_flag : ℕ → ℕ → Bool
has_flag flags f = bit_and flags f == f

-- `OrderFlags.Set`
unfoldable pub set_flag : ℕ → ℕ → ℕ
set_flag flags f = bit_or flags f

-- `flags &^ f`
unfoldable pub clear_flag : ℕ → ℕ → ℕ
clear_flag flags f = flags - bit_and flags f
