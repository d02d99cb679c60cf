-- ===== src/Config/Validate.antt =====
-- config/market.go, `Validate`. `none` is a panic: of a comparison at different precisions. `some none`
-- is ErrInvalidConfig, without its text. The identifier 0 stands for the empty one.
use clob.Base.{
  ℕ, ◌<◌, ◌≡◌, ◌≢◌, refl, ap, sym, subst, ◌∙◌, arith, List, [], ◌∷◌, Bool, true, false, ◌&&◌, ◌||◌,
  not, ◌==◌, Option, none, some, ◌>>=◌, if◌then◌else◌,
}
use clob.Base.Int.{ℤ, pos, ◌<ℤ◌, ◌≤ℤ◌, ltb_ℤ, eqb_ℤ}
use clob.Types.Decimal.{Decimal, greater_than, same_precision}
use clob.Config.{
  MarketConfig, FeeSchedule, FeeTier, FeeModel, tiered, feature_auctions, has_feature,
}

abbrev pub is_tiered : FeeModel → Bool
is_tiered tiered = true
is_tiered _ = false

abbrev pub no_tiers : List FeeTier → Bool
no_tiers [] = true
no_tiers _ = false

abbrev pub is_missing : Option Decimal → Bool
is_missing none = true
is_missing (some _) = false

-- A minimum above the maximum, where both are set.
unfoldable pub crossed_bounds : MarketConfig → Option Bool
unfolding greater_than
crossed_bounds c =
    if eqb_ℤ c.min_order_qty.value (pos 0) || eqb_ℤ c.max_order_qty.value (pos 0)
    then some false
    else greater_than c.min_order_qty c.max_order_qty

-- The loop over neighbours among the tiers.
unfoldable pub tiers_ascend : List FeeTier → Option Bool
unfolding greater_than
tiers_ascend [] = some true
tiers_ascend (t ∷ []) = some true
tiers_ascend (t ∷ u ∷ ts) =
    let rest = tiers_ascend (u ∷ ts) in
    greater_than u.min_volume t.min_volume >>= λ above. if above then rest else some false

unfoldable pub bad_fees : FeeSchedule → Bool
bad_fees f =
    not (f.maker_fee_rate.precision == 4)
    || not (f.taker_fee_rate.precision == 4)
    || ltb_ℤ f.taker_fee_rate.value (pos 0)
    || (is_tiered f.fee_model && no_tiers f.tiers)

unfoldable pub bad_steps : MarketConfig → Bool
bad_steps c =
    (c.market_id == 0)
    || not (c.tick_size.precision == c.price_precision)
    || not (ltb_ℤ (pos 0) c.tick_size.value)
    || not (c.lot_size.precision == c.qty_precision)
    || not (ltb_ℤ (pos 0) c.lot_size.value)

-- What `Validate` fills in where a field is zero.
unfoldable pub with_defaults : MarketConfig → MarketConfig
with_defaults c = record c {
  max_cascade_depth = if eqb_ℤ c.max_cascade_depth (pos 0) then pos 10 else c.max_cascade_depth;
  initial_order_seq = if c.initial_order_seq == 0 then 1 else c.initial_order_seq;
  initial_event_seq = if c.initial_event_seq == 0 then 1 else c.initial_event_seq;
}

abbrev refuse_if : Bool → Option (Option MarketConfig) → Option (Option MarketConfig)
refuse_if true rest = some none
refuse_if false rest = rest

unfoldable pub validate : MarketConfig → Option (Option MarketConfig)
unfolding crossed_bounds tiers_ascend bad_fees bad_steps with_defaults has_feature
validate c = refuse_if (bad_steps c) (
    crossed_bounds c >>= λ crossed. refuse_if crossed (
      refuse_if (bad_fees c.fee_schedule) (
        tiers_ascend c.fee_schedule.tiers >>= λ ascend. refuse_if (not ascend) (
          refuse_if (has_feature c feature_auctions && is_missing c.auction_reference)
            (some (some (with_defaults c)))))))

-- Tiers from the lowest volume on.
abbrev pub Rising : List FeeTier → Type 0
Rising [] = Unit
Rising (t ∷ []) = Unit
Rising (t ∷ u ∷ ts) = (t.min_volume.value <ℤ u.min_volume.value) × Rising (u ∷ ts)

pub record IsUsable (c : MarketConfig) : Type 0 where
  pub tick_precision : c.tick_size.precision ≡ c.price_precision
  pub tick : pos 0 <ℤ c.tick_size.value
  pub lot_precision : c.lot_size.precision ≡ c.qty_precision
  pub lot : pos 0 <ℤ c.lot_size.value
  pub rates :
      (c.fee_schedule.maker_fee_rate.precision ≡ 4) × (c.fee_schedule.taker_fee_rate.precision ≡ 4)
  pub no_rebate : pos 0 ≤ℤ c.fee_schedule.taker_fee_rate.value
  pub rising : Rising c.fee_schedule.tiers
  pub cascade : c.max_cascade_depth ≢ pos 0
  pub order_seq : 0 < c.initial_order_seq
  pub event_seq : 0 < c.initial_event_seq

tiers_ascend-Rising : (ts : List FeeTier) → tiers_ascend ts ≡ some true → Rising ts
unfolding tiers_ascend greater_than same_precision
tiers_ascend-Rising [] h = tt
tiers_ascend-Rising (t ∷ []) h = tt
tiers_ascend-Rising (t ∷ u ∷ ts) h = (ground arith, tiers_ascend-Rising (u ∷ ts) (ground arith))

passes :
    (b : Bool) (rest : Option (Option MarketConfig)) (d : MarketConfig)
    → refuse_if b rest ≡ some (some d)
    → (b ≡ false) × (rest ≡ some (some d))
passes true rest d h = ground arith
passes false rest d h = (refl, h)

answers :
    (m : Option Bool) (f : Bool → Option (Option MarketConfig)) (d : MarketConfig)
    → (m >>= f) ≡ some (some d)
    → (b : Bool) × (m ≡ some b) × (f b ≡ some (some d))
answers none f d h = ground arith
answers (some b) f d h = (b, refl, h)

good_steps :
    (c : MarketConfig)
    → bad_steps c ≡ false
    → (c.tick_size.precision ≡ c.price_precision)
      × (pos 0 <ℤ c.tick_size.value)
      × (c.lot_size.precision ≡ c.qty_precision)
      × (pos 0 <ℤ c.lot_size.value)
unfolding bad_steps
good_steps c h = ground arith

good_fees :
    (f : FeeSchedule)
    → bad_fees f ≡ false
    → (f.maker_fee_rate.precision ≡ 4)
      × (f.taker_fee_rate.precision ≡ 4)
      × (pos 0 ≤ℤ f.taker_fee_rate.value)
unfolding bad_fees
good_fees f h = ground arith

default_positive : (n d : ℕ) → 0 < d → 0 < (if n == 0 then d else n)
default_positive n d h = ground arith

default_nonzero : (a : ℤ) → (if eqb_ℤ a (pos 0) then pos 10 else a) ≢ pos 0
default_nonzero a = λ e. ground (arith, e)

pub all_checks :
    (c d : MarketConfig)
    → validate c ≡ some (some d)
    → (bad_steps c ≡ false)
      × (bad_fees c.fee_schedule ≡ false)
      × (tiers_ascend c.fee_schedule.tiers ≡ some true)
      × (some (some (with_defaults c)) ≡ some (some d))
      × (crossed_bounds c ≡ some false)
      × ((has_feature c feature_auctions && is_missing c.auction_reference) ≡ false)
unfolding validate
all_checks c d h =
    let s = passes (bad_steps c) _ d h in
    let (crossed, g, a) = answers (crossed_bounds c) _ d (s.1) in
    let t = passes crossed _ d a in
    let f = passes (bad_fees c.fee_schedule) _ d (t.1) in
    let (ascend, e, b) = answers (tiers_ascend c.fee_schedule.tiers) _ d (f.1) in
    let u = passes (not ascend) _ d b in
    let w = passes (has_feature c feature_auctions && is_missing c.auction_reference) _ d (u.1) in
    (s.0, f.0, e ∙ ap some (ascends ascend (u.0)), w.1, g ∙ ap some (t.0), w.0)
  where
    ascends : (x : Bool) → not x ≡ false → x ≡ true
    ascends true k = refl
    ascends false k = ground arith

accepted :
    (c d : MarketConfig) → some (some (with_defaults c)) ≡ some (some d) → with_defaults c ≡ d
accepted c d h = ap (λ o. elim o [ some (some x) ↦ x | _ ↦ c ]) h

-- If `Validate` accepts a configuration, then the configuration that it leaves is the given one with
-- the defaults filled in, and it is usable: tick and lot are positive and at the precisions of the
-- market, the rates have four decimals and the taker's is not negative, the tiers rise by volume, the
-- depth of a cascade is not 0, and both initial sequence numbers are positive.
pub validate-IsUsable :
    (c d : MarketConfig) → validate c ≡ some (some d) → (d ≡ with_defaults c) × IsUsable d
unfolding with_defaults
validate-IsUsable c d h =
    let v = all_checks c d h in
    let e = accepted c d (v.3) in
    let s = good_steps c (v.0) in
    let f = good_fees c.fee_schedule (v.1) in
    (
      sym e,
      subst IsUsable e (record {
        tick_precision = s.0;
        tick = s.1;
        lot_precision = s.2;
        lot = s.3;
        rates = (f.0, f.1);
        no_rebate = f.2;
        rising = tiers_ascend-Rising c.fee_schedule.tiers (v.2);
        cascade = default_nonzero c.max_cascade_depth;
        order_seq = default_positive c.initial_order_seq 1 (omega arith);
        event_seq = default_positive c.initial_event_seq 1 (omega arith);
      }),
    )
