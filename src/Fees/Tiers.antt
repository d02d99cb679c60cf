-- ===== src/Fees/Tiers.antt =====
-- fees/tiered.go, `findTier`: the tier of a volume.
use clob.Base.{
  ◌≡◌, ap, subst, arith, ◌⊎◌, inl, inr, List, [], ◌∷◌, Bool, Option, none, some, ◌>>=◌, All,
  Bool-cases, ◌==◌,
}
use clob.Base.Int.{leb_ℤ, ◌≤ℤ◌, ◌<ℤ◌}
use clob.Types.Decimal.{Decimal, greater_than_or_equal, same_precision}
use clob.Config.{FeeTier}
use clob.Config.Validate.{Rising}
use clob.Fees.{find_tier, find_tier_from}

-- The tier is reached, and no tier that is reached is higher; without one, none is reached.
abbrev pub IsHighest : Decimal → List FeeTier → Option FeeTier → Type 0
IsHighest volume ts none = All (λ u. volume.value <ℤ u.min_volume.value) ts
IsHighest volume ts (some t) =
    (t.min_volume.value ≤ℤ volume.value)
    × All (λ u. (volume.value <ℤ u.min_volume.value) ⊎ (u.min_volume.value ≤ℤ t.min_volume.value))
        ts

-- The match so far: it is reached, and it is below what is left.
abbrev Fits : Decimal → List FeeTier → Option FeeTier → Type 0
Fits volume ts none = Unit
Fits volume [] (some t) = t.min_volume.value ≤ℤ volume.value
Fits volume (u ∷ ts) (some t) =
    (t.min_volume.value ≤ℤ volume.value) × (t.min_volume.value <ℤ u.min_volume.value)

-- A match is not given up but for a higher one.
abbrev Above : Option FeeTier → Option FeeTier → Type 0
Above none r = Unit
Above (some t) none = ⊥
Above (some t) (some r) = t.min_volume.value ≤ℤ r.min_volume.value

Rising-tail : (t : FeeTier) (ts : List FeeTier) → Rising (t ∷ ts) → Rising ts
Rising-tail t [] h = tt
Rising-tail t (u ∷ ts) h = h.1

Fits-next :
    (volume : Decimal) (t : FeeTier) (ts : List FeeTier)
    → Rising (t ∷ ts)
    → t.min_volume.value ≤ℤ volume.value
    → Fits volume ts (some t)
Fits-next volume t [] h k = k
Fits-next volume t (u ∷ ts) h k = (k, h.0)

Fits-later :
    (volume : Decimal) (t : FeeTier) (ts : List FeeTier) (current : Option FeeTier)
    → Rising (t ∷ ts)
    → Fits volume (t ∷ ts) current
    → Fits volume ts current
Fits-later volume t ts none h k = tt
Fits-later volume t [] (some c) h k = k.0
Fits-later volume t (u ∷ ts) (some c) h k = (k.0, omega (arith, k.1, h.0))

take_tier :
    (volume : Decimal) (t : FeeTier) (ts : List FeeTier) (current r : Option FeeTier)
    → Fits volume (t ∷ ts) current
    → Above (some t) r × IsHighest volume ts r
    → Above current r × IsHighest volume (t ∷ ts) r
take_tier volume t ts current none k v = elim (v.0) [ ]
take_tier volume t ts none (some r) k v = (tt, (v.1.0, (inr (v.0), v.1.1)))
take_tier volume t ts (some c) (some r) k v = (omega (arith, k.1, v.0), (v.1.0, (inr (v.0), v.1.1)))

skip_tier :
    (volume : Decimal) (t : FeeTier) (ts : List FeeTier) (current r : Option FeeTier)
    → volume.value <ℤ t.min_volume.value
    → Above current r × IsHighest volume ts r
    → Above current r × IsHighest volume (t ∷ ts) r
skip_tier volume t ts current none k v = (v.0, (k, v.1))
skip_tier volume t ts current (some r) k v = (v.0, (v.1.0, (inl k, v.1.1)))

last_tier :
    (volume : Decimal) (current : Option FeeTier)
    → Fits volume [] current
    → Above current current × IsHighest volume [] current
last_tier volume none k = (tt, tt)
last_tier volume (some c) k = (omega arith, (k, tt))

compared :
    (volume m : Decimal) (f : Bool → Option (Option FeeTier)) (r : Option FeeTier)
    → (greater_than_or_equal volume m >>= f) ≡ some r
    → f (leb_ℤ m.value volume.value) ≡ some r
unfolding greater_than_or_equal same_precision
compared volume m f r h = elim (Bool-cases (volume.precision == m.precision)) [
  | inl e ↦ rw e at h
  | inr e ↦ elim (none_some r (rw e at h)) [ ]
]
  where
    none_some : (x : Option FeeTier) → none ≡ some x → ⊥
    none_some x k = ground arith

find_tier_from_lem :
    (volume : Decimal) (ts : List FeeTier) (current r : Option FeeTier)
    → Rising ts
    → Fits volume ts current
    → find_tier_from current ts volume ≡ some r
    → Above current r × IsHighest volume ts r
unfolding find_tier_from
find_tier_from_lem volume [] current r h k e =
    subst (λ x. Above current x × IsHighest volume [] x)
      (ap (λ o. elim o [ none ↦ current | some x ↦ x ]) e) (last_tier volume current k)
find_tier_from_lem volume (t ∷ ts) current r h k e =
    let next = compared volume t.min_volume _ r e in
    elim (Bool-cases (leb_ℤ t.min_volume.value volume.value)) [
      | inl y ↦ take_tier volume t ts current r k (
          find_tier_from_lem volume ts (some t) r (Rising-tail t ts h)
            (Fits-next volume t ts h (ground arith)) (rw y at next))
      | inr y ↦ skip_tier volume t ts current r (ground arith) (
          find_tier_from_lem volume ts current r (Rising-tail t ts h)
            (Fits-later volume t ts current h k) (rw y at next))
    ]

-- If the tiers rise by volume, as `Validate` demands, and the search does not panic, then it gives the
-- highest tier whose volume is reached: every other tier is above the volume or not above that
-- tier. It gives no tier only if the volume is below all of them.
pub find_tier-IsHighest :
    (ts : List FeeTier) (volume : Decimal) (r : Option FeeTier)
    → Rising ts
    → find_tier ts volume ≡ some r
    → IsHighest volume ts r
unfolding find_tier
find_tier-IsHighest ts volume r h e = (find_tier_from_lem volume ts none r h tt e).1
