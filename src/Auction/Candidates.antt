-- ===== src/Auction/Candidates.antt =====
-- auction/equilibrium.go: the prices of the loop, and one candidate against another.
use clob.Base.{
  ◌≡◌, sym, subst, ◌⊎◌, inl, inr, List, [], ◌∷◌, Bool, true, false, not, ◌&&◌, ◌||◌, map, arith,
  All, Bool-cases,
}
use mathlib.Core.List.{Memᴰ}
use clob.Base.Int.{ℤ, pos, ◌<ℤ◌, ◌≤ℤ◌, ltb_ℤ, eqb_ℤ, eq_of_parts}
use clob.Auction.{AuctionOrder, insert_price, candidates}

-- A best candidate of quantity `q`, imbalance `j` and distance `e` from the reference price is not
-- beaten by one of quantity `v`, imbalance `i` and distance `d`.
abbrev pub NotBeaten : Bool → ℤ → ℤ → ℤ → ℤ → ℤ → ℤ → Type 0
NotBeaten has_ref v i d q j e =
    (v ≡ pos 0) ⊎ (v <ℤ q) ⊎ ((v ≡ q) × ((j <ℤ i) ⊎ ((j ≡ i) × ((has_ref ≡ false) ⊎ (e ≤ℤ d)))))

-- The test of the loop.
abbrev pub is_better : Bool → Bool → Bool → ℤ → ℤ → ℤ → ℤ → ℤ → ℤ → Bool
is_better has_ref found at_ref v i d q j e =
    not found
    || ltb_ℤ q v
    || (eqb_ℤ v q && ltb_ℤ i j)
    || (has_ref && found && eqb_ℤ v q && eqb_ℤ i j && (ltb_ℤ d e || (eqb_ℤ d e && at_ref)))

pub not_better :
    (has_ref at_ref : Bool) (v i d q j e : ℤ)
    → is_better has_ref true at_ref v i d q j e ≡ false
    → NotBeaten has_ref v i d q j e
not_better has_ref at_ref v i d q j e h = ground (arith, eq_of_parts v q, eq_of_parts j i)

pub replaced :
    (has_ref at_ref : Bool) (v i d q j e u k f : ℤ)
    → is_better has_ref true at_ref v i d q j e ≡ true
    → NotBeaten has_ref u k f q j e
    → NotBeaten has_ref u k f v i d
replaced has_ref at_ref v i d q j e u k f h n =
    ground (arith, eq_of_parts v q, eq_of_parts i j, eq_of_parts d e)

-- The prices of `ps`, the last first, before those of `seen`.
abbrev pub reverse_onto : List ℤ → List ℤ → List ℤ
reverse_onto [] seen = seen
reverse_onto (p ∷ ps) seen = reverse_onto ps (p ∷ seen)

pub All-reverse_onto :
    (P : ℤ → Type 0) (ps seen : List ℤ) → All P (reverse_onto ps seen) → All P ps × All P seen
All-reverse_onto P [] seen h = (tt, h)
All-reverse_onto P (p ∷ ps) seen h =
    let (later, first) = All-reverse_onto P ps (p ∷ seen) h in ((first.0, later), first.1)

pub Mem-reverse_onto :
    (x : ℤ) (ps seen : List ℤ) → Memᴰ x (reverse_onto ps seen) → Memᴰ x ps ⊎ Memᴰ x seen
Mem-reverse_onto x [] seen h = inr h
Mem-reverse_onto x (p ∷ ps) seen h = moved (Mem-reverse_onto x ps (p ∷ seen) h)
  where
    moved : Memᴰ x ps ⊎ Memᴰ x (p ∷ seen) → Memᴰ x (p ∷ ps) ⊎ Memᴰ x seen
    moved (inl m) = inl (Memᴰ.tail m)
    moved (inr (Memᴰ.head e)) = inl (Memᴰ.head e)
    moved (inr (Memᴰ.tail m)) = inr m

All-insert_price :
    (P : ℤ → Type 0) (p : ℤ) (qs : List ℤ) → All P (insert_price p qs) → P p × All P qs
All-insert_price P p [] h = h
All-insert_price P p (q ∷ qs) h = elim (Bool-cases (ltb_ℤ p q)) [
  | inl e ↦ rw e at h
  | inr e ↦ elim (Bool-cases (eqb_ℤ p q)) [
    | inl f ↦
        let v : P q × All P qs = rw (e, f) at h in
        (subst P (sym (eq_of_parts p q (ground arith))) (v.0), v)
    | inr f ↦
        let v : P q × All P (insert_price p qs) = rw (e, f) at h in
        let w = All-insert_price P p qs (v.1) in (w.0, (v.0, w.1))
  ]
]

pub All-candidates :
    (P : ℤ → Type 0) (os : List AuctionOrder) → All P (candidates os) → All (λ o. P o.price) os
All-candidates P [] h = tt
All-candidates P (o ∷ os) h =
    let v = All-insert_price P o.price (candidates os) h in (v.0, All-candidates P os (v.1))

Mem-insert_price : (x p : ℤ) (qs : List ℤ) → Memᴰ x (insert_price p qs) → Memᴰ x (p ∷ qs)
Mem-insert_price x p [] h = h
Mem-insert_price x p (q ∷ qs) h = elim (Bool-cases (ltb_ℤ p q)) [
  | inl e ↦ rw e at h
  | inr e ↦ elim (Bool-cases (eqb_ℤ p q)) [
    | inl f ↦ Memᴰ.tail (rw (e, f) at h)
    | inr f ↦ past (Mem-insert_price x p qs) (rw (e, f) at h)
  ]
]
  where
    deeper : Memᴰ x (p ∷ qs) → Memᴰ x (p ∷ q ∷ qs)
    deeper (Memᴰ.head e) = Memᴰ.head e
    deeper (Memᴰ.tail m) = Memᴰ.tail (Memᴰ.tail m)

    past :
        (Memᴰ x (insert_price p qs) → Memᴰ x (p ∷ qs))
        → Memᴰ x (q ∷ insert_price p qs)
        → Memᴰ x (p ∷ q ∷ qs)
    past within (Memᴰ.head e) = Memᴰ.tail (Memᴰ.head e)
    past within (Memᴰ.tail m) = deeper (within m)

pub Mem-candidates :
    (x : ℤ) (os : List AuctionOrder) → Memᴰ x (candidates os) → Memᴰ x (map (λ o. o.price) os)
Mem-candidates x [] h = h
Mem-candidates x (o ∷ os) h =
    among (Mem-candidates x os) (Mem-insert_price x o.price (candidates os) h)
  where
    among :
        (Memᴰ x (candidates os) → Memᴰ x (map (λ o. o.price) os))
        → Memᴰ x (o.price ∷ candidates os)
        → Memᴰ x (o.price ∷ map (λ o. o.price) os)
    among within (Memᴰ.head e) = Memᴰ.head e
    among within (Memᴰ.tail m) = Memᴰ.tail (within m)
