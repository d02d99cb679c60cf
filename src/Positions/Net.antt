-- ===== src/Positions/Net.antt =====
-- engine/positions.go: a position against the fills that led to it.
use clob.Base.{
  ℕ, ◌≡◌, refl, ap, ◌∙◌, arith, List, [], ◌∷◌, true, ◌==◌, if◌then◌else◌, Bool-cases, inl, inr,
}
use clob.Base.Int.{ℤ, pos, ◌+ℤ◌, neg, int64, add64, neg64, add64-int64, int_laws}
use clob.Types.{is_bid}
use clob.Book.Node.{Fill}
use clob.Positions.{
  PositionTracker, get, set_position, add, maker_delta, taker_delta, apply_fill, apply_fills,
}

-- What a fill brings to its maker, without bounds on the size of integers; its taker gets the opposite.
unfoldable brings : Fill → ℤ
brings f = if is_bid f.maker_side then f.qty else neg f.qty

unfoldable share : ℕ → Fill → ℤ
unfolding brings
share user f =
    (if f.maker_user_id == user then brings f else pos 0)
    +ℤ (if f.taker_user_id == user then neg (brings f) else pos 0)

-- All that a user bought, less all that it sold.
unfoldable pub net : ℕ → List Fill → ℤ
unfolding share
net user [] = pos 0
net user (f ∷ fs) = share user f +ℤ net user fs

get-set_position :
    (pt : PositionTracker) (v user : ℕ) (p : ℤ)
    → get (set_position pt v p) user ≡ (if v == user then p else get pt user)
unfolding get set_position
get-set_position [] v user p = refl
get-set_position ((u, q) ∷ pt) v user p = ground (arith, get-set_position pt v user p)

add64_comm : (a b : ℤ) → add64 a b ≡ add64 b a
unfolding add64
add64_comm a b = ap int64 (grind int_laws)

add64_right : (a b : ℤ) → add64 a (int64 b) ≡ add64 a b
add64_right a b = add64_comm a (int64 b) ∙ add64-int64 b a ∙ add64_comm b a

+ℤ_zero : (n : ℤ) → n ≡ n +ℤ pos 0
+ℤ_zero n = grind int_laws

+ℤ_assoc : (a b c d : ℤ) → a +ℤ b +ℤ c +ℤ d ≡ a +ℤ (b +ℤ c +ℤ d)
+ℤ_assoc a b c d = grind int_laws

neg-neg : (a : ℤ) → a ≡ neg (neg a)
neg-neg a = grind int_laws

same_user : (v user : ℕ) → (v == user) ≡ true → v ≡ user
same_user v user h = ground arith

-- A change of one position, by an amount or by what an int64 keeps of it.
get-add :
    (pt : PositionTracker) (v user : ℕ) (n d e : ℤ)
    → get pt user ≡ int64 n
    → ((a : ℤ) → add64 a d ≡ add64 a e)
    → get (add pt v d) user ≡ int64 (n +ℤ (if v == user then e else pos 0))
unfolding add add64
get-add pt v user n d e h same = elim (Bool-cases (v == user)) [
  | inl own ↦
      get-set_position pt v user _
      ∙ rw own (
          same (get pt v)
          ∙ ap (λ a. add64 a e) (ap (get pt) (same_user v user own) ∙ h)
          ∙ add64-int64 n e)
  | inr other ↦ get-set_position pt v user _ ∙ rw other (h ∙ ap int64 (+ℤ_zero n))
]

same_maker : (f : Fill) (a : ℤ) → add64 a (maker_delta f) ≡ add64 a (brings f)
unfolding maker_delta brings neg64
same_maker f a = elim (Bool-cases (is_bid f.maker_side)) [
  | inl bought ↦ rw bought refl
  | inr sold ↦ rw sold (add64_right a (neg f.qty))
]

same_taker : (f : Fill) (a : ℤ) → add64 a (taker_delta f) ≡ add64 a (neg (brings f))
unfolding taker_delta brings neg64
same_taker f a = elim (Bool-cases (is_bid f.maker_side)) [
  | inl bought ↦ rw bought (add64_right a (neg f.qty))
  | inr sold ↦ rw sold (ap (add64 a) (neg-neg f.qty))
]

position_after :
    (user : ℕ) (fs : List Fill) (n : ℤ) (pt : PositionTracker)
    → get pt user ≡ int64 n
    → get (apply_fills pt fs) user ≡ int64 (n +ℤ net user fs)
unfolding apply_fills apply_fill net share
position_after user [] n pt h = h ∙ ap int64 (+ℤ_zero n)
position_after user (f ∷ fs) n pt h =
    let made = get-add pt f.maker_user_id user n _ (brings f) h (same_maker f) in
    position_after user fs _ _
      (get-add _ f.taker_user_id user _ _ (neg (brings f)) made (same_taker f))
    ∙ ap int64 (+ℤ_assoc n _ _ (net user fs))

-- Take a market's fills in order, from no positions. The position of a user is all that the user
-- bought less all that the user sold, as an int64 keeps it. No condition on the fills is needed: it
-- holds where a user trades with itself, and where a sum overflows on the way.
pub position_is_net :
    (user : ℕ) (fs : List Fill) → get (apply_fills [] fs) user ≡ int64 (net user fs)
unfolding get int64
position_is_net user fs = position_after user fs (pos 0) [] refl ∙ ap int64 (+ℤ_left (net user fs))
  where
    +ℤ_left : (a : ℤ) → pos 0 +ℤ a ≡ a
    +ℤ_left a = grind int_laws
