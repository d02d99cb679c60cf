-- ===== src/Positions.antt =====
-- engine/positions.go: the net position of each user, as an int64 at the market's quantity precision.
pub mod Net
use clob.Base.{ℕ, List, [], ◌∷◌, Bool, ◌==◌, if◌then◌else◌}
use clob.Base.Int.{ℤ, pos, ltb_ℤ, add64, sub64, neg64}
use clob.Types.{Side, bid, ask, is_bid}
use clob.Book.Node.{Fill}

-- The map from users to positions; a user that has no entry is at zero.
abbrev pub PositionTracker : Type 0
PositionTracker = List (ℕ × ℤ)

unfoldable pub get : PositionTracker → ℕ → ℤ
get [] user = pos 0
get ((u, p) ∷ pt) user = if u == user then p else get pt user

unfoldable pub set_position : PositionTracker → ℕ → ℤ → PositionTracker
set_position [] user p = (user, p) ∷ []
set_position ((u, q) ∷ pt) user p =
    if u == user then (u, p) ∷ pt else (u, q) ∷ set_position pt user p

unfoldable pub add : PositionTracker → ℕ → ℤ → PositionTracker
unfolding get set_position
add pt user delta = set_position pt user (add64 (get pt user) delta)

unfoldable pub maker_delta : Fill → ℤ
maker_delta f = if is_bid f.maker_side then f.qty else neg64 f.qty

unfoldable pub taker_delta : Fill → ℤ
taker_delta f = if is_bid f.maker_side then neg64 f.qty else f.qty

unfoldable pub apply_fill : PositionTracker → Fill → PositionTracker
unfolding add maker_delta taker_delta
apply_fill pt f = add (add pt f.maker_user_id (maker_delta f)) f.taker_user_id (taker_delta f)

-- The fills of a market, in order.
unfoldable pub apply_fills : PositionTracker → List Fill → PositionTracker
unfolding apply_fill
apply_fills pt [] = pt
apply_fills pt (f ∷ fs) = apply_fills (apply_fill pt f) fs

unfoldable pub would_increase : PositionTracker → ℕ → Side → ℤ → Bool
unfolding get
would_increase pt user bid qty = ltb_ℤ (pos 0) (add64 (get pt user) qty)
would_increase pt user ask qty = ltb_ℤ (sub64 (get pt user) qty) (pos 0)
