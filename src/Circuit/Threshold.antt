-- ===== src/Circuit/Threshold.antt =====
-- circuit/breaker.go: when Check halts the market.
use native.Mathlib.Nat.{div-le_self, le-div_iff_mul-le}
use clob.Base.{
  ℕ, suc, ◌+◌, ◌-◌, ◌*◌, ◌/◌, ◌^◌, ◌≤◌, ◌<◌, ◌≡◌, refl, ap, ◌∙◌, ◌↔◌, inl, inr, Bool, true, false,
  arith, Bool-cases, some, ltb, lt→ltb, ltb→lt, length,
}
use clob.Base.Int.{
  ℤ, pos, negsuc, ◌-ℤ◌, ◌*ℤ◌, sub64, mul64, div64, neg, neg64, int64, int64_of_range, is_negative,
}
use mathlib.Core.Bool.{xor}
use clob.Types.Decimal.{
  Decimal, abs, sub, div, div_numerator, greater_than, is_zero, same_precision, pow10,
}
use clob.Circuit.{CircuitBreaker, add_sample, oldest_price, in_cooldown, exceeds, check}

-- How far two prices are apart.
abbrev pub apart : ℕ → ℕ → ℕ
apart a b = (a - b) + (b - a)

upward : (p o : ℕ) → o ≤ p → p < 2 ^ 63 → sub64 (pos p) (pos o) ≡ pos (apart p o)
unfolding sub64 int64 ◌-ℤ◌
upward p o h k = ground arith

downward : (p o : ℕ) → p < o → o < 2 ^ 63 → sub64 (pos p) (pos o) ≡ negsuc (apart p o - 1)
unfolding sub64 int64 ◌-ℤ◌
downward p o h k = ground arith

abs_of_pos :
    (n k : ℕ)
    → abs (record { value = pos n; precision = k }) ≡ record { value = pos n; precision = k }
unfolding abs
abs_of_pos n k = ground arith

abs_of_negsuc :
    (n k : ℕ)
    → n < 2 ^ 63 - 1
    → abs (record { value = negsuc n; precision = k })
      ≡ record { value = pos (suc n); precision = k }
unfolding abs neg64 int64 neg
abs_of_negsuc n k h = ground arith

abs_difference :
    (d : Decimal) (p o : ℕ)
    → p < 2 ^ 63
    → o < 2 ^ 63
    → abs (record d { value = sub64 (pos p) (pos o) }) ≡ record d { value = pos (apart p o) }
abs_difference d p o h k = elim (Bool-cases (ltb p o)) [
  | inr up ↦ rw (upward p o (ground arith) h) (abs_of_pos (apart p o) d.precision)
  | inl down ↦ rw (downward p o (ground arith) k) (
      abs_of_negsuc (apart p o - 1) d.precision (ground arith)
      ∙ ap (λ n. record d { value = pos n }) (ground arith))
]

ratio : (n o : ℕ) → n < 2 ^ 63 → div64 (pos n) (pos (suc o)) ≡ pos (n / suc o)
unfolding div64 xor
ratio n o h =
    let over : is_negative (pos n) ≡ false = ground arith in
    let under : is_negative (pos (suc o)) ≡ false = ground arith in
    rw (over, under)
      (int64_of_range (pos (n / suc o)) (omega arith, omega (arith, div-le_self n (suc o))))

above_iff : (m n o : ℕ) → (m < n / suc o) ↔ (suc m * suc o ≤ n)
above_iff m n o = le-div_iff_mul-le (omega arith)

times : (n k : ℕ) → n * k < 2 ^ 63 → mul64 (pos n) (pos k) ≡ pos (n * k)
unfolding mul64 int64 ◌*ℤ◌
times n k h = ground arith

-- The move in units of the fourth decimal.
move_of :
    (d e : Decimal) (n o : ℕ)
    → d.precision ≡ e.precision
    → d.value ≡ pos n
    → e.value ≡ pos (suc o)
    → n * 10 ^ 4 < 2 ^ 63
    → div d e 4 ≡ some (record { value = pos (n * 10 ^ 4 / suc o); precision = 4 })
unfolding div div_numerator pow10
move_of d e n o same dv ev h =
    rw (dv, ev, same) (ground (arith, times n (10 ^ 4) h, ratio (n * 10 ^ 4) o h))

taken_from :
    (d e : Decimal) (p o : ℕ)
    → d.precision ≡ e.precision
    → d.value ≡ pos p
    → e.value ≡ pos o
    → sub d e ≡ some (record d { value = sub64 (pos p) (pos o) })
unfolding sub same_precision
taken_from d e p o same dv ev = rw (dv, ev, same) (ground arith)

over_limit :
    (q m : ℕ) (limit : Decimal)
    → limit.precision ≡ 4
    → limit.value ≡ pos m
    → greater_than (record { value = pos q; precision = 4 }) limit ≡ some (ltb m q)
unfolding greater_than same_precision
over_limit q m limit lp lv = rw (lp, lv) (ground arith)

module _ (cb : CircuitBreaker) (trade oldest : Decimal) (now : ℤ) (p o m : ℕ)
    (same : trade.precision ≡ oldest.precision) (tv : trade.value ≡ pos p)
    (ov : oldest.value ≡ pos (suc o)) (mp : cb.cfg.max_move_percent.precision ≡ 4)
    (mv : cb.cfg.max_move_percent.value ≡ pos m) (ph : p * 10 ^ 4 < 2 ^ 63)
    (oh : suc o * 10 ^ 4 < 2 ^ 63) where
  moved : exceeds cb oldest trade ≡ some (ltb m (apart p (suc o) * 10 ^ 4 / suc o))
  unfolding exceeds
  moved =
      rw
        (
          taken_from trade oldest p (suc o) same tv ov,
          abs_difference trade p (suc o) (omega (arith, ph)) (omega (arith, oh)),
          move_of (record trade { value = pos (apart p (suc o)) }) oldest (apart p (suc o)) o same
              refl ov (omega (arith, ph, oh)),
        )
        (over_limit (apart p (suc o) * 10 ^ 4 / suc o) m cb.cfg.max_move_percent mp mv)

  oldest_counts : is_zero oldest ≡ false
  unfolding is_zero
  oldest_counts = rw ov (ground arith)

  -- Let the price of a trade and the oldest price of the window that it joins have one precision, let
  -- the first be p and the second o + 1 in units of that precision, each below 2^63 when scaled by
  -- 10^4, and let the limit be m in units of the fourth decimal. Then `Check` does not panic: it adds
  -- the price to the window, and it halts the market exactly if no cooldown runs, the window holds two
  -- prices or more, and the distance of the two prices, scaled by 10^4, is at least m + 1 times the
  -- oldest price. A move beyond the limit by less than one unit of the fourth decimal does not halt.
  pub breaker_halts_iff :
      oldest_price (add_sample cb.window trade now) ≡ some oldest
      → (halt : Bool) × (check cb trade now
          ≡ some (halt, record cb { window = add_sample cb.window trade now }))
        × ((halt ≡ true) ↔ (
            (in_cooldown cb now ≡ false)
            × (2 ≤ length (add_sample cb.window trade now).samples)
            × (suc m * suc o ≤ apart p (suc o) * 10 ^ 4)))
  unfolding check
  breaker_halts_iff e =
      let w = add_sample cb.window trade now in
      let q = apart p (suc o) * 10 ^ 4 / suc o in
      elim (Bool-cases (in_cooldown cb now)) [
        | inl cool ↦ (
          false,
          rw cool refl,
          (λ h. absurd (ground arith), λ (warm, _, _). absurd (ground (arith, warm, cool))),
        )
        | inr warm ↦ elim (Bool-cases (ltb (length w.samples) 2)) [
          | inl short ↦ (
            false,
            rw (warm, short) refl,
            (λ h. absurd (ground arith), λ (_, enough, _). absurd (ground (arith, enough, short))),
          )
          | inr long ↦ (
            ltb m q,
            rw (warm, long, e, oldest_counts, moved) refl,
            (
              λ h. (
                warm,
                ground (arith, long),
                (above_iff m (apart p (suc o) * 10 ^ 4) o).0 (ltb→lt m q h),
              ),
              λ (_, _, far). lt→ltb m q ((above_iff m (apart p (suc o) * 10 ^ 4) o).1 far),
            ),
          )
        ]
      ]
