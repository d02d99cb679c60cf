-- ===== src/Processor/Validation.antt =====
-- engine/processor.go, `validateLimitOrder`: which limit orders pass.
use clob.Base.{
  ◌≡◌, ◌≢◌, refl, sym, subst, arith, ◌↔◌, ◌⊎◌, inl, inr, Bool, true, false, ◌&&◌, not, Option, none,
  some, if◌then◌else◌, Bool-cases, Option-cases, ℕ, ◌==◌,
}
use clob.Base.Int.{ℤ, pos, ◌≤ℤ◌, ◌<ℤ◌, ltb_ℤ, leb_ℤ, eqb_ℤ, eq_of_parts}
use clob.Types.{Tif, flag_iceberg, has_flag}
use clob.Types.Decimal.{Decimal}
use clob.Config.{MarketConfig}
use clob.Events.{RejectionReason}
use clob.Processor.Commands.{PlaceLimitOrder}
use clob.Processor.Checks.{
  Refusal, panic_if, differs, check_tick, check_lot, reject_if, ◌or_else◌, is_multiple, order_value,
  check_qty, check_value, check_iceberg, check_expiry, validate_limit_order, is_gtd, is_day,
}

-- What a market asks of a limit order at a time: each limit that is zero is not set.
pub record IsValid (cfg : MarketConfig) (now : ℤ) (c : PlaceLimitOrder) : Type 0 where
  pub priced : pos 0 <ℤ c.price
  pub sized : pos 0 <ℤ c.qty
  pub not_small :
      (cfg.min_order_qty.value ≡ pos 0)
      ⊎ ((cfg.min_order_qty.precision ≡ cfg.qty_precision) × (cfg.min_order_qty.value ≤ℤ c.qty))
  pub not_large :
      (cfg.max_order_qty.value ≡ pos 0)
      ⊎ ((cfg.max_order_qty.precision ≡ cfg.qty_precision) × (c.qty ≤ℤ cfg.max_order_qty.value))
  pub affordable :
      (cfg.max_order_value.value ≡ pos 0)
      ⊎ ((v : ℤ) × (order_value cfg c.price c.qty ≡ some v) × (v ≤ℤ cfg.max_order_value.value))
  pub on_tick :
      (cfg.tick_size.precision ≡ cfg.price_precision)
      × (is_multiple c.price cfg.tick_size.value ≡ true)
  pub in_lots :
      (cfg.lot_size.precision ≡ cfg.qty_precision) × (is_multiple c.qty cfg.lot_size.value ≡ true)
  pub slice :
      (has_flag c.flags flag_iceberg ≡ false)
      ⊎ ((is_multiple c.display_qty cfg.lot_size.value ≡ true) × (c.display_qty <ℤ c.qty))
  pub alive : ((is_gtd c.tif ≡ false) ⊎ (now <ℤ c.expire_at))
  pub in_session : ((is_day c.tif ≡ false) ⊎ ((cfg.session_end ≢ pos 0) × (now <ℤ cfg.session_end)))

pass : (m n : Option Refusal) → (m or_else n) ≡ none → (m ≡ none) × (n ≡ none)
pass none n h = (refl, h)
pass (some r) n h = ground arith

both_pass : (m n : Option Refusal) → m ≡ none → n ≡ none → (m or_else n) ≡ none
both_pass none n h k = k
both_pass (some r) n h k = ground arith

pass_if : (b : Bool) (r : RejectionReason) → reject_if b r ≡ none → b ≡ false
pass_if true r h = ground arith
pass_if false r h = refl

if_pass : (b : Bool) (r : RejectionReason) → b ≡ false → reject_if b r ≡ none
if_pass true r h = ground arith
if_pass false r h = refl

no_panic : (b : Bool) → panic_if b ≡ none → b ≡ false
no_panic true h = ground arith
no_panic false h = refl

of_no_panic : (b : Bool) → b ≡ false → panic_if b ≡ none
of_no_panic true h = ground arith
of_no_panic false h = refl

same_of : (a b : ℕ) → not (a == b) ≡ false → a ≡ b
same_of a b h = ground arith

of_same : (a b : ℕ) → a ≡ b → not (a == b) ≡ false
of_same a b h = ground arith

positive_of : (a : ℤ) → not (ltb_ℤ (pos 0) a) ≡ false → pos 0 <ℤ a
positive_of a h = ground arith

of_positive : (a : ℤ) → pos 0 <ℤ a → not (ltb_ℤ (pos 0) a) ≡ false
of_positive a h = ground arith

-- A bound that holds, at the precision of quantities, unless it is zero.
bound_of :
    (cfg : MarketConfig) (bound : Decimal) (a b : ℤ)
    → differs cfg bound ≡ false
    → (not (eqb_ℤ bound.value (pos 0)) && ltb_ℤ a b) ≡ false
    → (bound.value ≡ pos 0) ⊎ ((bound.precision ≡ cfg.qty_precision) × (b ≤ℤ a))
bound_of cfg bound a b d h = elim (Bool-cases (eqb_ℤ bound.value (pos 0))) [
  | inl unset ↦ inl (eq_of_parts bound.value (pos 0) (ground arith))
  | inr set ↦ inr (same_of bound.precision cfg.qty_precision (ground arith), ground arith)
]

of_bound :
    (cfg : MarketConfig) (bound : Decimal) (a b : ℤ)
    → (bound.value ≡ pos 0) ⊎ ((bound.precision ≡ cfg.qty_precision) × (b ≤ℤ a))
    → (differs cfg bound ≡ false) × ((not (eqb_ℤ bound.value (pos 0)) && ltb_ℤ a b) ≡ false)
of_bound cfg bound a b (inl unset) = (rw unset refl, rw unset refl)
of_bound cfg bound a b (inr (same, holds)) = elim (Bool-cases (eqb_ℤ bound.value (pos 0))) [
  | inl u ↦ (rw u refl, rw u refl)
  | inr u ↦ (rw u (of_same bound.precision cfg.qty_precision same), rw u (ground arith))
]

value_of :
    (cfg : MarketConfig) (price qty : ℤ)
    → check_value cfg price qty ≡ none
    → (cfg.max_order_value.value ≡ pos 0)
      ⊎ ((v : ℤ) × (order_value cfg price qty ≡ some v) × (v ≤ℤ cfg.max_order_value.value))
unfolding check_value
value_of cfg price qty h = elim (Bool-cases (eqb_ℤ cfg.max_order_value.value (pos 0))) [
  | inl unset ↦ inl (eq_of_parts cfg.max_order_value.value (pos 0) (ground arith))
  | inr set ↦ elim (Option-cases (order_value cfg price qty)) [
    | inl e ↦ absurd (ground (arith, set, e))
    | inr (v, e) ↦ inr (v, e, ground (arith, set, e))
  ]
]

of_value :
    (cfg : MarketConfig) (price qty : ℤ)
    → (cfg.max_order_value.value ≡ pos 0)
      ⊎ ((v : ℤ) × (order_value cfg price qty ≡ some v) × (v ≤ℤ cfg.max_order_value.value))
    → check_value cfg price qty ≡ none
unfolding check_value
of_value cfg price qty (inl unset) = rw unset refl
of_value cfg price qty (inr (v, e, holds)) =
    elim (Bool-cases (eqb_ℤ cfg.max_order_value.value (pos 0))) [
      | inl u ↦ rw u refl
      | inr u ↦ rw (u, e) (ground arith)
    ]

true_of_not : (b : Bool) → not b ≡ false → b ≡ true
true_of_not true h = refl
true_of_not false h = ground arith

tick_of :
    (cfg : MarketConfig) (price : ℤ)
    → check_tick cfg price ≡ none
    → (cfg.tick_size.precision ≡ cfg.price_precision)
      × (is_multiple price cfg.tick_size.value ≡ true)
unfolding check_tick
tick_of cfg price h =
    let a = pass _ _ h in (same_of _ _ (no_panic _ (a.0)), true_of_not _ (pass_if _ _ (a.1)))

lot_of :
    (cfg : MarketConfig) (qty : ℤ)
    → check_lot cfg qty ≡ none
    → (cfg.lot_size.precision ≡ cfg.qty_precision) × (is_multiple qty cfg.lot_size.value ≡ true)
unfolding check_lot
lot_of cfg qty h =
    let a = pass _ _ h in (same_of _ _ (no_panic _ (a.0)), true_of_not _ (pass_if _ _ (a.1)))

of_tick :
    (cfg : MarketConfig) (price : ℤ)
    → cfg.tick_size.precision ≡ cfg.price_precision
    → is_multiple price cfg.tick_size.value ≡ true
    → check_tick cfg price ≡ none
unfolding check_tick
of_tick cfg price same on = rw (of_same cfg.tick_size.precision cfg.price_precision same, on) refl

of_lot :
    (cfg : MarketConfig) (qty : ℤ)
    → cfg.lot_size.precision ≡ cfg.qty_precision
    → is_multiple qty cfg.lot_size.value ≡ true
    → check_lot cfg qty ≡ none
unfolding check_lot
of_lot cfg qty same on = rw (of_same cfg.lot_size.precision cfg.qty_precision same, on) refl

is_multiple-positive : (v step : ℤ) → is_multiple v step ≡ true → pos 0 <ℤ v
unfolding is_multiple
is_multiple-positive v step h = ground arith

of_true : (b : Bool) → b ≡ true → not b ≡ false
of_true true h = refl
of_true false h = ground arith

later_of : (a b : ℤ) → leb_ℤ b a ≡ false → a <ℤ b
later_of a b h = ground arith

of_later : (a b : ℤ) → a <ℤ b → leb_ℤ b a ≡ false
of_later a b h = ground arith

unless : (a b : Bool) → (a && b) ≡ false → (a ≡ false) ⊎ (b ≡ false)
unless false b h = inl refl
unless true b h = inr h

nonzero_of : (a : ℤ) → eqb_ℤ a (pos 0) ≡ false → a ≢ pos 0
nonzero_of a h = λ e. subst (λ x. eqb_ℤ x (pos 0) ≡ false → ⊥) (sym e) (λ k. ground arith) h

of_nonzero : (a : ℤ) → a ≢ pos 0 → eqb_ℤ a (pos 0) ≡ false
of_nonzero a h = elim (Bool-cases (eqb_ℤ a (pos 0))) [
  | inl e ↦ elim (h (eq_of_parts a (pos 0) (ground arith))) [ ]
  | inr e ↦ e
]

expiry_of :
    (cfg : MarketConfig) (now : ℤ) (tif : Tif) (expire_at : ℤ)
    → check_expiry cfg now tif expire_at ≡ none
    → ((is_gtd tif ≡ false) ⊎ (now <ℤ expire_at))
      × ((is_day tif ≡ false) ⊎ ((cfg.session_end ≢ pos 0) × (now <ℤ cfg.session_end)))
unfolding check_expiry
expiry_of cfg now tif expire_at h =
    let a = pass _ _ h in
    let b = pass _ _ (a.1) in
    (
      elim (unless _ _ (pass_if _ _ (a.0))) [
        | inl x ↦ inl x
        | inr x ↦ inr (later_of now expire_at x)
      ],
      elim (unless _ _ (pass_if _ _ (b.0))) [
        | inl x ↦ inl x
        | inr x ↦ elim (unless _ _ (pass_if _ _ (b.1))) [
          | inl y ↦ inl y
          | inr y ↦ inr (nonzero_of cfg.session_end x, later_of now cfg.session_end y)
        ]
      ],
    )

both_false : {A : Type 0} {a b : Bool} → (a ≡ false) ⊎ A → (A → b ≡ false) → (a && b) ≡ false
both_false {a = true} (inl h) f = ground arith
both_false {a = false} (inl h) f = refl
both_false {a = true} (inr x) f = f x
both_false {a = false} (inr x) f = refl

of_expiry :
    (cfg : MarketConfig) (now : ℤ) (tif : Tif) (expire_at : ℤ)
    → (is_gtd tif ≡ false) ⊎ (now <ℤ expire_at)
    → (is_day tif ≡ false) ⊎ ((cfg.session_end ≢ pos 0) × (now <ℤ cfg.session_end))
    → check_expiry cfg now tif expire_at ≡ none
unfolding check_expiry
of_expiry cfg now tif expire_at g d =
    rw
      (
        both_false g (of_later now expire_at),
        both_false d (λ x. of_nonzero cfg.session_end (x.0)),
        both_false d (λ x. of_later now cfg.session_end (x.1)),
      )
      refl

slice_of :
    (cfg : MarketConfig) (c : PlaceLimitOrder)
    → (if has_flag c.flags flag_iceberg then check_iceberg cfg c.display_qty c.qty else none) ≡ none
    → (has_flag c.flags flag_iceberg ≡ false)
      ⊎ ((is_multiple c.display_qty cfg.lot_size.value ≡ true) × (c.display_qty <ℤ c.qty))
unfolding check_iceberg
slice_of cfg c h = elim (Bool-cases (has_flag c.flags flag_iceberg)) [
  | inr plain ↦ inl plain
  | inl flagged ↦
      let k : check_iceberg cfg c.display_qty c.qty ≡ none = rw flagged at h in
      let a = pass _ _ ((pass _ _ k).1) in
      inr ((lot_of cfg c.display_qty (a.0)).1, later_of c.display_qty c.qty (pass_if _ _ (a.1)))
]

of_slice :
    (cfg : MarketConfig) (c : PlaceLimitOrder)
    → cfg.lot_size.precision ≡ cfg.qty_precision
    → (has_flag c.flags flag_iceberg ≡ false)
      ⊎ ((is_multiple c.display_qty cfg.lot_size.value ≡ true) × (c.display_qty <ℤ c.qty))
    → (if has_flag c.flags flag_iceberg then check_iceberg cfg c.display_qty c.qty else none) ≡ none
unfolding check_iceberg
of_slice cfg c same (inl plain) = rw plain refl
of_slice cfg c same (inr v) = elim (Bool-cases (has_flag c.flags flag_iceberg)) [
  | inr plain ↦ rw plain refl
  | inl flagged ↦
      rw
        (
          flagged,
          of_positive c.display_qty (is_multiple-positive c.display_qty cfg.lot_size.value (v.0)),
          of_lot cfg c.display_qty same (v.0),
          of_later c.display_qty c.qty (v.1),
        )
        refl
]

bounds_of :
    (cfg : MarketConfig) (qty : ℤ)
    → check_qty cfg qty ≡ none
    → (pos 0 <ℤ qty)
      × ((cfg.min_order_qty.value ≡ pos 0)
          ⊎ ((cfg.min_order_qty.precision ≡ cfg.qty_precision) × (cfg.min_order_qty.value ≤ℤ qty)))
      × ((cfg.max_order_qty.value ≡ pos 0)
          ⊎ ((cfg.max_order_qty.precision ≡ cfg.qty_precision) × (qty ≤ℤ cfg.max_order_qty.value)))
unfolding check_qty
bounds_of cfg qty h =
    let a = pass _ _ h in
    let b = pass _ _ (a.1) in
    let d = pass _ _ (b.1) in
    let e = pass _ _ (d.1) in
    (
      positive_of qty (pass_if _ _ (a.0)),
      bound_of cfg cfg.min_order_qty qty _ (no_panic _ (b.0)) (pass_if _ _ (d.0)),
      bound_of cfg cfg.max_order_qty _ qty (no_panic _ (e.0)) (pass_if _ _ (e.1)),
    )

-- A limit order passes the validation, neither rejected nor with a panic, exactly if it meets every
-- demand of the market at that time: a positive price on a tick, a positive quantity in lots and
-- between the bounds that are set, a value within the limit if that is set, for an iceberg a slice in
-- lots that is less than the quantity, and an end in the future for good-till-date orders and, with
-- the session's end, for day orders; and if tick, lot and the bounds on the quantity that are set are
-- at the precisions of the market. The value is the one that the engine computes, in int64; a limit
-- on it demands that there is one, for a scale that is not 0. The prices and quantities of the order
-- are at the precisions of the market.
pub validate_limit_order_iff :
    (cfg : MarketConfig) (now : ℤ) (c : PlaceLimitOrder)
    → (validate_limit_order cfg now c ≡ none) ↔ IsValid cfg now c
unfolding validate_limit_order check_qty
validate_limit_order_iff cfg now c = (forward, backward)
  where
    forward : validate_limit_order cfg now c ≡ none → IsValid cfg now c
    forward h =
        let p1 = pass _ _ h in
        let p2 = pass _ _ (p1.1) in
        let p3 = pass _ _ (p2.1) in
        let p4 = pass _ _ (p3.1) in
        let p5 = pass _ _ (p4.1) in
        let p6 = pass _ _ (p5.1) in
        let sizes = bounds_of cfg c.qty (p2.0) in
        let ends = expiry_of cfg now c.tif c.expire_at (p6.1) in
        record {
          priced = positive_of c.price (pass_if _ _ (p1.0));
          sized = sizes.0;
          not_small = sizes.1;
          not_large = sizes.2;
          affordable = value_of cfg c.price c.qty (p3.0);
          on_tick = tick_of cfg c.price (p4.0);
          in_lots = lot_of cfg c.qty (p5.0);
          slice = slice_of cfg c (p6.0);
          alive = ends.0;
          in_session = ends.1;
        }

    backward : IsValid cfg now c → validate_limit_order cfg now c ≡ none
    backward v =
        let low = of_bound cfg cfg.min_order_qty c.qty cfg.min_order_qty.value v.not_small in
        let high = of_bound cfg cfg.max_order_qty cfg.max_order_qty.value c.qty v.not_large in
        rw
          (
            of_positive c.price v.priced,
            of_positive c.qty v.sized,
            low.0,
            low.1,
            high.0,
            high.1,
            of_value cfg c.price c.qty v.affordable,
            of_tick cfg c.price (v.on_tick.0) (v.on_tick.1),
            of_lot cfg c.qty (v.in_lots.0) (v.in_lots.1),
            of_slice cfg c (v.in_lots.0) v.slice,
            of_expiry cfg now c.tif c.expire_at v.alive v.in_session,
          )
          refl
