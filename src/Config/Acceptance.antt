-- ===== src/Config/Acceptance.antt =====
-- config/market.go, `Validate`: which configurations are accepted.
use clob.Base.{
  ℕ, ◌≡◌, ◌≢◌, refl, ap, ◌↔◌, ◌⊎◌, inl, inr, List, [], ◌∷◌, Bool, true, false, ◌&&◌, ◌==◌, arith,
  Option, none, some, Bool-cases,
}
use clob.Base.Int.{pos, ◌<ℤ◌, ◌≤ℤ◌, eqb_ℤ, eq_of_parts}
use clob.Types.Decimal.{Decimal, greater_than, same_precision}
use clob.Config.{
  MarketConfig, FeeSchedule, FeeTier, FeeModel, flat, tiered, feature_auctions, has_feature,
}
use clob.Config.Validate.{
  is_tiered, no_tiers, is_missing, crossed_bounds, tiers_ascend, bad_fees, bad_steps, with_defaults,
  validate, all_checks,
}

-- Tiers from the lowest volume on, all of one precision.
abbrev pub Climbing : List FeeTier → Type 0
Climbing [] = Unit
Climbing (t ∷ []) = Unit
Climbing (t ∷ u ∷ ts) =
    (u.min_volume.precision ≡ t.min_volume.precision)
    × (t.min_volume.value <ℤ u.min_volume.value)
    × Climbing (u ∷ ts)

-- What a market may be configured to; a bound of 0 is not set.
pub record IsAcceptable (c : MarketConfig) : Type 0 where
  pub named : c.market_id ≢ 0
  pub tick_precision : c.tick_size.precision ≡ c.price_precision
  pub tick : pos 0 <ℤ c.tick_size.value
  pub lot_precision : c.lot_size.precision ≡ c.qty_precision
  pub lot : pos 0 <ℤ c.lot_size.value
  pub bounds :
      (c.min_order_qty.value ≡ pos 0)
      ⊎ (c.max_order_qty.value ≡ pos 0)
      ⊎ ((c.min_order_qty.precision ≡ c.max_order_qty.precision)
          × (c.min_order_qty.value ≤ℤ c.max_order_qty.value))
  pub maker_rate : c.fee_schedule.maker_fee_rate.precision ≡ 4
  pub taker_rate : c.fee_schedule.taker_fee_rate.precision ≡ 4
  pub no_rebate : pos 0 ≤ℤ c.fee_schedule.taker_fee_rate.value
  pub has_tiers : (c.fee_schedule.fee_model ≢ tiered) ⊎ (c.fee_schedule.tiers ≢ [])
  pub climbing : Climbing c.fee_schedule.tiers
  pub reference :
      (has_feature c feature_auctions ≡ false) ⊎ ((d : Decimal) × (c.auction_reference ≡ some d))

tiers_ascend-Climbing : (ts : List FeeTier) → tiers_ascend ts ≡ some true → Climbing ts
unfolding tiers_ascend greater_than same_precision
tiers_ascend-Climbing [] h = tt
tiers_ascend-Climbing (t ∷ []) h = tt
tiers_ascend-Climbing (t ∷ u ∷ ts) h =
    (ground arith, ground arith, tiers_ascend-Climbing (u ∷ ts) (ground arith))

Climbing-tiers_ascend : (ts : List FeeTier) → Climbing ts → tiers_ascend ts ≡ some true
unfolding tiers_ascend greater_than same_precision
Climbing-tiers_ascend [] h = refl
Climbing-tiers_ascend (t ∷ []) h = refl
Climbing-tiers_ascend (t ∷ u ∷ ts) (p, l, h) =
    ground (arith, p, l, Climbing-tiers_ascend (u ∷ ts) h)

bounds_of :
    (c : MarketConfig)
    → crossed_bounds c ≡ some false
    → (c.min_order_qty.value ≡ pos 0)
      ⊎ (c.max_order_qty.value ≡ pos 0)
      ⊎ ((c.min_order_qty.precision ≡ c.max_order_qty.precision)
          × (c.min_order_qty.value ≤ℤ c.max_order_qty.value))
unfolding crossed_bounds greater_than same_precision
bounds_of c h = elim (Bool-cases (eqb_ℤ c.min_order_qty.value (pos 0))) [
  | inl e ↦ inl (eq_of_parts c.min_order_qty.value (pos 0) (ground arith))
  | inr s ↦ elim (Bool-cases (eqb_ℤ c.max_order_qty.value (pos 0))) [
    | inl e ↦ inr (inl (eq_of_parts c.max_order_qty.value (pos 0) (ground arith)))
    | inr t ↦ inr (inr (ground arith, ground arith))
  ]
]

of_bounds :
    (c : MarketConfig)
    → (c.min_order_qty.value ≡ pos 0)
      ⊎ (c.max_order_qty.value ≡ pos 0)
      ⊎ ((c.min_order_qty.precision ≡ c.max_order_qty.precision)
          × (c.min_order_qty.value ≤ℤ c.max_order_qty.value))
    → crossed_bounds c ≡ some false
unfolding crossed_bounds greater_than same_precision
of_bounds c (inl e) = rw e refl
of_bounds c (inr (inl e)) = ground (arith, e)
of_bounds c (inr (inr (p, l))) = ground (arith, p, l)

is_tiered-tiered : (m : FeeModel) → m ≢ tiered → is_tiered m ≡ false
is_tiered-tiered flat h = refl
is_tiered-tiered tiered h = elim (h refl) [ ]

tiers_of :
    (f : FeeSchedule)
    → (is_tiered f.fee_model && no_tiers f.tiers) ≡ false
    → (f.fee_model ≢ tiered) ⊎ (f.tiers ≢ [])
tiers_of f h = elim (Bool-cases (is_tiered f.fee_model)) [
  | inl e ↦ inr (λ k. ground (arith, e, ap no_tiers k))
  | inr e ↦ inl (λ k. ground (arith, e, ap is_tiered k))
]

no_tiers-nonempty : (ts : List FeeTier) → ts ≢ [] → no_tiers ts ≡ false
no_tiers-nonempty [] h = elim (h refl) [ ]
no_tiers-nonempty (t ∷ ts) h = refl

of_tiers :
    (f : FeeSchedule)
    → (f.fee_model ≢ tiered) ⊎ (f.tiers ≢ [])
    → (is_tiered f.fee_model && no_tiers f.tiers) ≡ false
of_tiers f (inl h) = rw (is_tiered-tiered f.fee_model h) refl
of_tiers f (inr h) = rw (no_tiers-nonempty f.tiers h) (ground arith)

reference_of :
    (on : Bool) (o : Option Decimal)
    → (on && is_missing o) ≡ false
    → (on ≡ false) ⊎ ((d : Decimal) × (o ≡ some d))
reference_of false o h = inl refl
reference_of true none h = ground arith
reference_of true (some d) h = inr (d, refl)

of_reference :
    (on : Bool) (o : Option Decimal)
    → (on ≡ false) ⊎ ((d : Decimal) × (o ≡ some d))
    → (on && is_missing o) ≡ false
of_reference false o h = refl
of_reference true o (inl h) = ground arith
of_reference true o (inr (d, e)) = rw e refl

good_fees :
    (f : FeeSchedule)
    → bad_fees f ≡ false
    → (f.maker_fee_rate.precision ≡ 4)
      × (f.taker_fee_rate.precision ≡ 4)
      × (pos 0 ≤ℤ f.taker_fee_rate.value)
      × ((is_tiered f.fee_model && no_tiers f.tiers) ≡ false)
unfolding bad_fees
good_fees f h = ground arith

of_good_fees :
    (f : FeeSchedule)
    → f.maker_fee_rate.precision ≡ 4
    → f.taker_fee_rate.precision ≡ 4
    → pos 0 ≤ℤ f.taker_fee_rate.value
    → (is_tiered f.fee_model && no_tiers f.tiers) ≡ false
    → bad_fees f ≡ false
unfolding bad_fees
of_good_fees f m t r n = ground arith

good_steps :
    (c : MarketConfig)
    → bad_steps c ≡ false
    → ((c.market_id == 0) ≡ false)
      × (c.tick_size.precision ≡ c.price_precision)
      × (pos 0 <ℤ c.tick_size.value)
      × (c.lot_size.precision ≡ c.qty_precision)
      × (pos 0 <ℤ c.lot_size.value)
unfolding bad_steps
good_steps c h = ground arith

of_good_steps :
    (c : MarketConfig)
    → (c.market_id == 0) ≡ false
    → c.tick_size.precision ≡ c.price_precision
    → pos 0 <ℤ c.tick_size.value
    → c.lot_size.precision ≡ c.qty_precision
    → pos 0 <ℤ c.lot_size.value
    → bad_steps c ≡ false
unfolding bad_steps
of_good_steps c n p t q l = ground arith

unnamed : (n : ℕ) → (n == 0) ≡ false → n ≢ 0
unnamed n h = λ e. ground (arith, e)

of_named : (n : ℕ) → n ≢ 0 → (n == 0) ≡ false
of_named n h = ground arith

-- `Validate` accepts a configuration, and leaves it with the defaults filled in, exactly if the market
-- has an identifier; tick and lot are positive and at the precisions of the market; the bounds on the
-- quantity, where both are set, have one precision and are not crossed; both rates have four decimals
-- and the taker's is not negative; a tiered schedule has tiers, and any tiers rise by volume at one
-- precision; and a market with auctions has an auction section.
pub validate_iff :
    (c : MarketConfig) → (validate c ≡ some (some (with_defaults c))) ↔ IsAcceptable c
unfolding validate
validate_iff c = (forward, backward)
  where
    forward : validate c ≡ some (some (with_defaults c)) → IsAcceptable c
    forward h =
        let v = all_checks c (with_defaults c) h in
        let s = good_steps c (v.0) in
        let f = good_fees c.fee_schedule (v.1) in
        record {
          named = unnamed c.market_id (s.0);
          tick_precision = s.1;
          tick = s.2;
          lot_precision = s.3;
          lot = s.4;
          bounds = bounds_of c (v.4);
          maker_rate = f.0;
          taker_rate = f.1;
          no_rebate = f.2;
          has_tiers = tiers_of c.fee_schedule (f.3);
          climbing = tiers_ascend-Climbing c.fee_schedule.tiers (v.2);
          reference = reference_of (has_feature c feature_auctions) c.auction_reference (v.5);
        }

    backward : IsAcceptable c → validate c ≡ some (some (with_defaults c))
    backward v =
        rw
          (
            of_good_steps c (of_named c.market_id v.named) v.tick_precision v.tick v.lot_precision
                v.lot,
            of_bounds c v.bounds,
            of_good_fees c.fee_schedule v.maker_rate v.taker_rate v.no_rebate
                (of_tiers c.fee_schedule v.has_tiers),
            Climbing-tiers_ascend c.fee_schedule.tiers v.climbing,
            of_reference (has_feature c feature_auctions) c.auction_reference v.reference,
          )
          refl
