-- ===== src/Book/Match/Turns.antt =====
-- book/matching.go: the turn of each resting order in the inner loop, where no order hides a part and
-- none is of the taker's own user.
use clob.Base.{
  ℕ, ◌≡◌, refl, sym, ap, subst, ◌∙◌, ◌⊎◌, inl, inr, List, [], ◌∷◌, ◌++◌, Bool, true, false, not,
  arith, All, Bool-cases, ◌==◌,
}
use clob.Base.Int.{ℤ, pos, ◌≤ℤ◌, ◌-ℤ◌, min_ℤ, leb_ℤ, sub64, int64}
use clob.Types.{StpMode}
use clob.Book.Node.{OrderNode, Fill}
use clob.Book.Level.{
  PriceLevel, decremented, remove_node, set_node, decrement_qty, unlink, is_empty,
}
use clob.Book.Match.{
  Sweep, is_positive, is_zero, whole_level, trade, visit, stp_enabled, make_fill, with_level,
  exchange, maker_gone, maker_left,
}

-- An order of another user that shows all of its quantity.
abbrev pub IsPlain : ℕ → OrderNode → Type 0
IsPlain user n = (user == n.user_id ≡ false) × (is_positive n.hidden_qty ≡ false)

abbrev pub ids : List OrderNode → List ℕ
ids [] = []
ids (n ∷ ns) = n.order_id ∷ ids ns

-- The resting orders that the fills are with, in the order of the fills.
abbrev pub makers : List Fill → List ℕ
makers [] = []
makers (f ∷ fs) = f.maker_order_id ∷ makers fs

-- The fills took the first of all the orders, and those that wait are the others; or the taker
-- is filled, and the fills took the first orders.
abbrev pub Track : List ℕ → ℤ → List Fill → List ℕ → Type 0
Track total remain fills waiting =
    (total ≡ makers fills ++ waiting)
    ⊎ ((remain ≡ pos 0) × ((later : List ℕ) × (total ≡ makers fills ++ later)))

makers-last :
    (fs : List Fill) (g : Fill) (later : List ℕ)
    → makers (fs ++ g ∷ []) ++ later ≡ makers fs ++ g.maker_order_id ∷ later
makers-last [] g later = refl
makers-last (f ∷ fs) g later = ap (λ l. f.maker_order_id ∷ l) (makers-last fs g later)

with_level-maker :
    (f : Fill) (b : Bool) (l : PriceLevel) → (with_level f b l).maker_order_id ≡ f.maker_order_id
unfolding with_level
with_level-maker f true l = refl
with_level-maker f false l = refl

sub64_self : (a : ℤ) → sub64 a a ≡ pos 0
unfolding sub64 int64 ◌-ℤ◌
sub64_self a = ground arith

min_cases : (m t : ℤ) → (min_ℤ m t ≡ m) ⊎ (min_ℤ m t ≡ t)
min_cases m t = elim (Bool-cases (leb_ℤ m t)) [ inl e ↦ inl (rw e) | inr e ↦ inr (rw e) ]

-- Where something of the maker is left, nothing of the taker is.
taker_filled : (m t : ℤ) → is_zero (sub64 m (min_ℤ m t)) ≡ false → sub64 t (min_ℤ m t) ≡ pos 0
taker_filled m t h = elim (min_cases m t) [
  | inl e ↦ absurd (ground (arith, ap (sub64 m) e, sub64_self m))
  | inr e ↦ ap (sub64 t) e ∙ sub64_self t
]

-- Where a taker of `user` stands in the queue of a level: `total` are the orders that it may meet, in
-- their order, and `behind` those of the levels after this one.
pub record InTurn (user : ℕ) (total behind : List ℕ) (s : Sweep) : Type 0 where
  pub nothing_passed : s.passed ≡ []
  pub taker : s.incoming.user_id ≡ user
  pub plain : All (IsPlain user) s.level.queue
  pub track : Track total s.incoming.remain_qty s.fills (ids s.level.queue ++ behind)

waits :
    (total : List ℕ) (remain : ℤ) (fills : List Fill) (waiting : List ℕ)
    → Track total remain fills waiting
    → pos 1 ≤ℤ remain
    → total ≡ makers fills ++ waiting
waits total remain fills waiting (inl e) w = e
waits total remain fills waiting (inr (z, _)) w = absurd (ground (arith, z, w))

module _ (user : ℕ) (total behind : List ℕ) (s : Sweep) (maker : OrderNode) (rest : List OrderNode)
    (v : InTurn user total behind s) (e : s.level.queue ≡ maker ∷ rest)
    (w : pos 1 ≤ℤ s.incoming.remain_qty) where
  heads : All (IsPlain user) (maker ∷ rest)
  heads = subst (All (IsPlain user)) e v.plain

  before_turn : total ≡ makers s.fills ++ maker.order_id ∷ (ids rest ++ behind)
  before_turn =
      waits total s.incoming.remain_qty s.fills (ids s.level.queue ++ behind) v.track w
      ∙ ap (λ q. makers s.fills ++ (ids q ++ behind)) e

  set_head : (n : OrderNode) → n.order_id ≡ maker.order_id → set_node n s.level.queue ≡ n ∷ rest
  set_head n h = rw e (ground (arith, h))

  removed_head :
      (n : OrderNode)
      → n.order_id ≡ maker.order_id
      → remove_node n.order_id (set_node n s.level.queue) ≡ rest
  removed_head n h = rw (set_head n h) (ground arith)

  taken :
      (g : Fill)
      → g.maker_order_id ≡ maker.order_id
      → total ≡ makers (s.fills ++ g ∷ []) ++ (ids rest ++ behind)
  taken g h =
      before_turn
      ∙ ap (λ i. makers s.fills ++ i ∷ (ids rest ++ behind)) (sym h)
      ∙ sym (makers-last s.fills g (ids rest ++ behind))

  gone-InTurn :
      (qty : ℤ) (g : Fill)
      → g.maker_order_id ≡ maker.order_id
      → InTurn user total behind (maker_gone (exchange s maker qty) (decremented maker qty) g)
  unfolding maker_gone exchange decrement_qty unlink
  gone-InTurn qty g h =
      let node = decremented maker qty in
      let q = removed_head node refl in
      let hit = exchange s maker qty in
      let gone = record hit { level = unlink hit.level node } in
      let exists = not (is_empty (whole_level gone)) in
      let told : Fill = with_level g exists gone.level in
      record {
        nothing_passed = v.nothing_passed;
        taker = v.taker;
        plain = subst (All (IsPlain user)) (sym q) (heads.1);
        track = inl (
            taken told (with_level-maker g exists gone.level ∙ h)
            ∙ ap (λ l. makers (s.fills ++ told ∷ []) ++ (ids l ++ behind)) (sym q));
      }

  left-InTurn :
      (g : Fill)
      → g.maker_order_id ≡ maker.order_id
      → is_zero (decremented maker (min_ℤ maker.remain_qty s.incoming.remain_qty)).remain_qty
        ≡ false
      → InTurn user total behind
          (maker_left (exchange s maker (min_ℤ maker.remain_qty s.incoming.remain_qty)) g)
  unfolding maker_left exchange decrement_qty decremented
  left-InTurn g h some_left =
      let qty = min_ℤ maker.remain_qty s.incoming.remain_qty in
      let node = decremented maker qty in
      let level = (exchange s maker qty).level in
      let told : Fill = with_level g true level in
      record {
        nothing_passed = v.nothing_passed;
        taker = v.taker;
        plain = subst (All (IsPlain user)) (sym (set_head node refl)) (heads);
        track = inr (
          taker_filled maker.remain_qty s.incoming.remain_qty some_left,
          (ids rest ++ behind, taken told (with_level-maker g true level ∙ h)),
        );
      }

  trade-InTurn : InTurn user total behind ((trade s maker).1)
  unfolding trade make_fill decremented
  trade-InTurn =
      let qty = min_ℤ maker.remain_qty s.incoming.remain_qty in
      let hit = exchange s maker qty in
      let g : Fill = make_fill hit.incoming (decremented maker qty) s.level.price qty in
      elim (Bool-cases (is_zero (decremented maker qty).remain_qty)) [
        | inl gone ↦ rw (gone, heads.0.1) (gone-InTurn qty g refl)
        | inr some_left ↦ rw some_left (left-InTurn g refl some_left)
      ]

  pub visit-InTurn : (mode : StpMode) → InTurn user total behind ((visit mode s maker rest).1)
  unfolding visit stp_enabled
  visit-InTurn mode =
      let other : stp_enabled mode s.incoming maker ≡ false = rw (v.taker, heads.0.0) refl in
      rw other trade-InTurn
