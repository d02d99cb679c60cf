-- ===== src/Base/Int.antt =====
-- Signed integers over the native numbers, and Go's int64 arithmetic on them: each operation
-- wraps around modulo 2 ^ 64, and division truncates toward zero.
use Prim.Native.Nat.{ℕ, suc, ◌+◌, ◌-◌, ◌*◌, ◌/◌, ◌%◌, ◌^◌, ◌≤◌, ◌<◌}
use mathlib.Core.Path.{◌≡◌}
use mathlib.Core.Bool.{Bool, true, false, xor}
use native.Mathlib.Omega.{arith}
use clob.Base.Tests.{ltb, leb, ◌==◌, if◌then◌else◌}

-- `negsuc n` is -(n + 1).
pub data ℤ : Type 0 where
  pos : ℕ → ℤ
  negsuc : ℕ → ℤ

abbrev pub pos_part : ℤ → ℕ
pos_part (pos n) = n
pos_part (negsuc n) = 0

abbrev pub neg_part : ℤ → ℕ
neg_part (pos n) = 0
neg_part (negsuc n) = suc n

-- a - b, as an integer.
abbrev pub sub_ℕ : ℕ → ℕ → ℤ
sub_ℕ a b = if leb b a then pos (a - b) else negsuc (b - a - 1)

infixl 65 ◌+ℤ◌ ◌-ℤ◌
infixl 70 ◌*ℤ◌
infix 50 ◌≤ℤ◌ ◌<ℤ◌
unfoldable pub ◌+ℤ◌ : ℤ → ℤ → ℤ
a +ℤ b = sub_ℕ (pos_part a + pos_part b) (neg_part a + neg_part b)

unfoldable pub ◌-ℤ◌ : ℤ → ℤ → ℤ
a -ℤ b = sub_ℕ (pos_part a + neg_part b) (neg_part a + pos_part b)

unfoldable pub ◌*ℤ◌ : ℤ → ℤ → ℤ
a *ℤ b =
    sub_ℕ (pos_part a * pos_part b + neg_part a * neg_part b)
      (pos_part a * neg_part b + neg_part a * pos_part b)

unfoldable pub neg : ℤ → ℤ
neg a = sub_ℕ (neg_part a) (pos_part a)

abbrev pub ◌≤ℤ◌ : ℤ → ℤ → Type 0
a ≤ℤ b = pos_part a + neg_part b ≤ pos_part b + neg_part a

abbrev pub ◌<ℤ◌ : ℤ → ℤ → Type 0
a <ℤ b = pos_part a + neg_part b < pos_part b + neg_part a

abbrev pub ltb_ℤ : ℤ → ℤ → Bool
ltb_ℤ a b = ltb (pos_part a + neg_part b) (pos_part b + neg_part a)

abbrev pub leb_ℤ : ℤ → ℤ → Bool
leb_ℤ a b = leb (pos_part a + neg_part b) (pos_part b + neg_part a)

abbrev pub eqb_ℤ : ℤ → ℤ → Bool
eqb_ℤ a b = pos_part a + neg_part b == pos_part b + neg_part a

-- |a|, as a number.
abbrev pub magnitude : ℤ → ℕ
magnitude (pos n) = n
magnitude (negsuc n) = suc n

-- The integer with this sign and magnitude.
abbrev pub signed : Bool → ℕ → ℤ
signed true n = sub_ℕ 0 n
signed false n = pos n

pub +ℤ_parts :
    (a b : ℤ)
    → pos_part (a +ℤ b) + neg_part a + neg_part b ≡ neg_part (a +ℤ b) + pos_part a + pos_part b
unfolding ◌+ℤ◌
+ℤ_parts a b = ground arith

pub -ℤ_parts :
    (a b : ℤ)
    → pos_part (a -ℤ b) + neg_part a + pos_part b ≡ neg_part (a -ℤ b) + pos_part a + neg_part b
unfolding ◌-ℤ◌
-ℤ_parts a b = ground arith

pub neg_parts : (a : ℤ) → pos_part (neg a) + pos_part a ≡ neg_part (neg a) + neg_part a
unfolding neg
neg_parts a = ground arith

pub eq_of_parts : (a b : ℤ) → pos_part a + neg_part b ≡ pos_part b + neg_part a → a ≡ b
eq_of_parts a b h = ground arith

pub ruleset int_laws = (arith, +ℤ_parts, -ℤ_parts, neg_parts, eq_of_parts)

-- The bit pattern of an int64, 0 up to 2 ^ 64.
abbrev pub pattern64 : ℤ → ℕ
pattern64 (pos n) = n % 2 ^ 64
pattern64 (negsuc n) = 2 ^ 64 - 1 - n % 2 ^ 64

-- The int64 that a pattern stands for.
abbrev pub of_pattern : ℕ → ℤ
of_pattern w = if ltb w (2 ^ 63) then pos w else negsuc (2 ^ 64 - w - 1)

-- The value that an int64 keeps of an integer.
unfoldable pub int64 : ℤ → ℤ
int64 a = of_pattern (pattern64 a)

-- The integers that an int64 holds.
abbrev pub IsInt64 : ℤ → Type 0
IsInt64 a = (negsuc (2 ^ 63 - 1) ≤ℤ a) × (a ≤ℤ pos (2 ^ 63 - 1))

pub int64_of_range : (a : ℤ) → IsInt64 a → int64 a ≡ a
unfolding int64
int64_of_range (pos n) h = ground arith
int64_of_range (negsuc n) h = ground arith

pub int64-IsInt64 : (a : ℤ) → IsInt64 (int64 a)
unfolding int64
int64-IsInt64 (pos n) = ground arith
int64-IsInt64 (negsuc n) = ground arith

-- Go's `a + b`, `a - b`, `-a` and `a * b` on int64.
unfoldable pub add64 : ℤ → ℤ → ℤ
add64 a b = int64 (a +ℤ b)

unfoldable pub sub64 : ℤ → ℤ → ℤ
sub64 a b = int64 (a -ℤ b)

unfoldable pub neg64 : ℤ → ℤ
neg64 a = int64 (neg a)

unfoldable pub mul64 : ℤ → ℤ → ℤ
mul64 a b = int64 (a *ℤ b)

abbrev pub is_negative : ℤ → Bool
is_negative a = ltb_ℤ a (pos 0)

-- Go's `a / b` and `a % b`, which truncate toward zero; the source never divides by 0 here.
unfoldable pub div64 : ℤ → ℤ → ℤ
div64 a b = int64 (signed (xor (is_negative a) (is_negative b)) (magnitude a / magnitude b))

unfoldable pub rem64 : ℤ → ℤ → ℤ
rem64 a b = int64 (signed (is_negative a) (magnitude a % magnitude b))

abbrev pub min_ℤ : ℤ → ℤ → ℤ
min_ℤ a b = if leb_ℤ a b then a else b

pub add64_of_range : (a b : ℤ) → IsInt64 (a +ℤ b) → add64 a b ≡ a +ℤ b
unfolding add64
add64_of_range a b h = int64_of_range (a +ℤ b) h

pub sub64_of_range : (a b : ℤ) → IsInt64 (a -ℤ b) → sub64 a b ≡ a -ℤ b
unfolding sub64
sub64_of_range a b h = int64_of_range (a -ℤ b) h

-- A wrapped operand gives the same wrapped result.
pub add64-int64 : (a b : ℤ) → add64 (int64 a) b ≡ add64 a b
unfolding add64 int64 ◌+ℤ◌
add64-int64 (pos n) (pos m) = ground arith
add64-int64 (pos n) (negsuc m) = ground arith
add64-int64 (negsuc n) (pos m) = ground arith
add64-int64 (negsuc n) (negsuc m) = ground arith

pub sub64-int64 : (a b : ℤ) → sub64 (int64 a) b ≡ sub64 a b
unfolding sub64 int64 ◌-ℤ◌
sub64-int64 (pos n) (pos m) = ground arith
sub64-int64 (pos n) (negsuc m) = ground arith
sub64-int64 (negsuc n) (pos m) = ground arith
sub64-int64 (negsuc n) (negsuc m) = ground arith
