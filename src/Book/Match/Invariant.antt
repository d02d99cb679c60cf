-- ===== src/Book/Match/Invariant.antt =====
-- The invariant of the inner loop of book/matching.go, for one round: positive quantities within an
-- int64, a taker that is not filled beyond what it asked for, and fills at prices that it accepts.
use clob.Base.{
  ℕ, ◌^◌, ◌-◌, ◌≡◌, refl, sym, ap, subst, ◌∙◌, ◌⊎◌, inl, inr, List, [], ◌∷◌, ◌++◌, Bool, true,
  false, not, arith, All, All-append, Bool-cases,
}
use clob.Base.Int.{
  ℤ, pos, pos_part, neg_part, ◌+ℤ◌, ◌-ℤ◌, ◌≤ℤ◌, ◌<ℤ◌, min_ℤ, ltb_ℤ, sub64, add64, sub64_of_range,
  int_laws,
}
use clob.Types.{StpMode, disabled, cancel_both, cancel_maker, cancel_taker, decrement_cancel, other}
use clob.Sequence.{next}
use clob.Book.Node.{OrderNode, Fill}
use clob.Book.Level.{
  PriceLevel, decremented, replenished, remove_node, set_node, decrement_qty, unlink,
  replenish_iceberg, is_empty,
}
use clob.Book.Match.{
  Sweep, is_positive, is_zero, whole_level, crosses, trade, apply_stp, visit, stp_enabled,
  effective_stp_mode, make_fill, with_level, exchange, next_slice, maker_gone, maker_left,
  cancel_maker_node, zero_incoming, pass_over,
}

abbrev pub max64 : ℤ
max64 = pos (2 ^ 63 - 1)

-- A resting node: something is left of it, and a hidden reserve comes with a slice to show.
pub record IsResting (n : OrderNode) : Type 0 where
  pub remains : pos 1 ≤ℤ n.remain_qty
  pub bounded : n.remain_qty ≤ℤ max64
  pub hidden : pos 0 ≤ℤ n.hidden_qty
  pub hidden_bounded : n.hidden_qty ≤ℤ max64
  pub slice : (pos 1 ≤ℤ n.orig_display_qty) ⊎ (n.hidden_qty ≤ℤ pos 0)

abbrev pub qty_sum : List Fill → ℤ
qty_sum [] = pos 0
qty_sum (f ∷ fs) = f.qty +ℤ qty_sum fs

pub qty_sum-append : (fs gs : List Fill) → qty_sum (fs ++ gs) ≡ qty_sum fs +ℤ qty_sum gs
qty_sum-append [] gs = omega int_laws
qty_sum-append (f ∷ fs) gs = rw (qty_sum-append fs gs) (omega int_laws)

-- A price that an order accepts.
abbrev pub accepts : OrderNode → ℤ → Bool
accepts n p = crosses n (record {
  price = p;
  total_qty = pos 0;
  display_qty = pos 0;
  order_count = 0;
  queue = [];
  pool_index = 0;
})

-- A fill of something at a price that the taker accepts.
abbrev pub IsFair : OrderNode → Fill → Type 0
IsFair taker f = (pos 1 ≤ℤ f.qty) × (accepts taker f.price ≡ true)

pub remain_after : (t q : ℤ) → pos 0 ≤ℤ q → q ≤ℤ t → t ≤ℤ max64 → sub64 t q ≡ t -ℤ q
remain_after t q h k b = sub64_of_range t q (omega int_laws, omega int_laws)

difference_nonzero : (a b : ℤ) → a <ℤ b → is_zero (b -ℤ a) ≡ false
unfolding ◌-ℤ◌
difference_nonzero a b h = ground arith

fill_bounds :
    (m t : ℤ) → pos 1 ≤ℤ m → pos 1 ≤ℤ t → (pos 1 ≤ℤ min_ℤ m t) × (min_ℤ m t ≤ℤ m) × (min_ℤ m t ≤ℤ t)
fill_bounds m t h k = ground arith

pub head_removed : (n : OrderNode) (ns : List OrderNode) → remove_node n.order_id (n ∷ ns) ≡ ns
head_removed n ns = ground arith

-- A maker that is not exhausted still rests.
decremented-IsResting :
    (n : OrderNode) (q : ℤ)
    → IsResting n
    → pos 1 ≤ℤ q
    → q ≤ℤ n.remain_qty
    → is_zero (decremented n q).remain_qty ≡ false
    → IsResting (decremented n q)
unfolding decremented
decremented-IsResting n q v h k nz =
    let e = remain_after n.remain_qty q (omega arith) k v.bounded in
    record {
      remains = grind (int_laws, e);
      bounded = rw e (omega (int_laws, v.bounded));
      hidden = v.hidden;
      hidden_bounded = v.hidden_bounded;
      slice = v.slice;
    }

pub slice_bounds :
    (h d : ℤ) → pos 1 ≤ℤ h → (pos 1 ≤ℤ d) ⊎ (h ≤ℤ pos 0) → (pos 1 ≤ℤ min_ℤ h d) × (min_ℤ h d ≤ℤ h)
slice_bounds h d k o = ground arith

-- Nor is the next slice of an iceberg empty.
replenished-IsResting :
    (n : OrderNode) (q : ℤ) (seq : ℕ)
    → IsResting n
    → is_positive n.hidden_qty ≡ true
    → IsResting (replenished (decremented n q) seq)
unfolding decremented replenished
replenished-IsResting n q seq v h =
    let b = slice_bounds n.hidden_qty n.orig_display_qty (ground arith) v.slice in
    let e =
      remain_after n.hidden_qty (min_ℤ n.hidden_qty n.orig_display_qty) (omega (arith, b.0)) b.1
        v.hidden_bounded in
    record {
      remains = b.0;
      bounded = omega (arith, b.1, v.hidden_bounded);
      hidden = rw e (omega (int_laws, b.1));
      hidden_bounded = rw e (omega (int_laws, b.0, v.hidden_bounded));
      slice = ground arith;
    }

-- The state of the inner loop: `start` is the quantity that the taker came with, and `terms` the
-- taker as it came, whose price and side do not change.
pub record InSweep (terms : OrderNode) (start : ℤ) (s : Sweep) : Type 0 where
  pub waiting : All IsResting s.level.queue
  pub behind : All IsResting s.passed
  pub open_qty : pos 0 ≤ℤ s.incoming.remain_qty
  pub open_bounded : s.incoming.remain_qty ≤ℤ max64
  pub balance : s.incoming.remain_qty +ℤ qty_sum s.fills ≤ℤ start
  pub fair : All (IsFair terms) s.fills
  pub level_accepts : accepts terms s.level.price ≡ true

head_set :
    (m n : OrderNode) (ns : List OrderNode) → n.order_id ≡ m.order_id → set_node m (n ∷ ns) ≡ m ∷ ns
head_set m n ns e = ground arith

with_level_same :
    (f : Fill) (b : Bool) (l : PriceLevel)
    → ((with_level f b l).qty ≡ f.qty) × ((with_level f b l).price ≡ f.price)
unfolding with_level
with_level_same f true l = (refl, refl)
with_level_same f false l = (refl, refl)

module _ (terms : OrderNode) (start : ℤ) (s : Sweep) (maker : OrderNode) (rest : List OrderNode)
    (v : InSweep terms start s) (at_cursor : s.level.queue ≡ maker ∷ rest)
    (wants : pos 1 ≤ℤ s.incoming.remain_qty) where
  cursor_IsResting : IsResting maker × All IsResting rest
  cursor_IsResting = subst (All IsResting) at_cursor v.waiting

  abbrev qty : ℤ
  qty = min_ℤ maker.remain_qty s.incoming.remain_qty

  pub cursor_left :
      (q : ℤ) → set_node (decremented maker q) s.level.queue ≡ decremented maker q ∷ rest
  unfolding decremented
  cursor_left q = rw at_cursor (ground arith)

  pub cursor_gone :
      (q : ℤ)
      → remove_node (decremented maker q).order_id (set_node (decremented maker q) s.level.queue)
        ≡ rest
  unfolding decremented
  cursor_gone q = rw at_cursor (ground arith)

  -- What a fill of `qty` does to the taker and to the fills.
  one_fill :
      (f : Fill)
      → f.qty ≡ qty
      → f.price ≡ s.level.price
      → (sub64 s.incoming.remain_qty qty +ℤ qty_sum (s.fills ++ f ∷ []) ≤ℤ start)
        × All (IsFair terms) (s.fills ++ f ∷ [])
        × (pos 0 ≤ℤ sub64 s.incoming.remain_qty qty)
        × (sub64 s.incoming.remain_qty qty ≤ℤ max64)
  one_fill f e p =
      let b = fill_bounds maker.remain_qty s.incoming.remain_qty cursor_IsResting.0.remains wants in
      let r = remain_after s.incoming.remain_qty qty (omega (arith, b.0)) b.2 v.open_bounded in
      (
        rw (r, qty_sum-append s.fills (f ∷ []))
            (omega (int_laws, ap pos_part e, ap neg_part e, v.balance)),
        All-append (IsFair terms) s.fills (f ∷ []) v.fair
            ((omega (arith, ap pos_part e, ap neg_part e, b.0), rw p v.level_accepts), tt),
        rw r (omega (int_laws, b.2)),
        rw r (omega (int_laws, b.0, v.open_bounded)),
      )

  gone-InSweep :
      (g : Fill)
      → g.qty ≡ qty
      → g.price ≡ s.level.price
      → InSweep terms start (maker_gone (exchange s maker qty) (decremented maker qty) g)
  unfolding maker_gone exchange decrement_qty unlink
  gone-InSweep g e p =
      let hit = exchange s maker qty in
      let node = decremented maker qty in
      let gone = record hit { level = unlink hit.level node } in
      let same = with_level_same g (not (is_empty (whole_level gone))) gone.level in
      let r = one_fill _ (same.0 ∙ e) (same.1 ∙ p) in
      record {
        waiting = subst (All IsResting) (sym (cursor_gone qty)) cursor_IsResting.1;
        behind = v.behind;
        open_qty = r.2;
        open_bounded = r.3;
        balance = r.0;
        fair = r.1;
        level_accepts = v.level_accepts;
      }

  left-InSweep :
      (g : Fill)
      → g.qty ≡ qty
      → g.price ≡ s.level.price
      → is_zero (decremented maker qty).remain_qty ≡ false
      → InSweep terms start (maker_left (exchange s maker qty) g)
  unfolding maker_left exchange decrement_qty
  left-InSweep g e p some_left =
      let hit = exchange s maker qty in
      let same = with_level_same g true hit.level in
      let b = fill_bounds maker.remain_qty s.incoming.remain_qty cursor_IsResting.0.remains wants in
      let node = decremented-IsResting maker qty cursor_IsResting.0 b.0 b.1 some_left in
      let r = one_fill _ (same.0 ∙ e) (same.1 ∙ p) in
      record {
        waiting = subst (All IsResting) (sym (cursor_left qty)) (node, cursor_IsResting.1);
        behind = v.behind;
        open_qty = r.2;
        open_bounded = r.3;
        balance = r.0;
        fair = r.1;
        level_accepts = v.level_accepts;
      }

  slice-InSweep :
      (g : Fill)
      → g.qty ≡ qty
      → g.price ≡ s.level.price
      → is_positive (decremented maker qty).hidden_qty ≡ true
      → InSweep terms start (next_slice (exchange s maker qty) (decremented maker qty) g)
  unfolding next_slice exchange decrement_qty replenish_iceberg decremented
  slice-InSweep g e p reserve =
      let hit = exchange s maker qty in
      let node = decremented maker qty in
      let seq = next hit.order_seq in
      let level = replenish_iceberg hit.level node seq.n in
      let same = with_level_same g true level in
      let slice = replenished-IsResting maker qty seq.n cursor_IsResting.0 reserve in
      let r = one_fill _ (same.0 ∙ e) (same.1 ∙ p) in
      record {
        waiting = All-append IsResting s.passed _ v.behind (
            subst (λ q. All IsResting (q ++ replenished node seq.n ∷ [])) (sym (cursor_gone qty))
              (All-append IsResting rest _ cursor_IsResting.1 (slice, tt)));
        behind = tt;
        open_qty = r.2;
        open_bounded = r.3;
        balance = r.0;
        fair = r.1;
        level_accepts = v.level_accepts;
      }

  -- A fill keeps the invariant, whatever becomes of the maker.
  trade-InSweep : InSweep terms start (trade s maker).1
  unfolding trade make_fill
  trade-InSweep =
      let f = make_fill (exchange s maker qty).incoming (decremented maker qty) s.level.price qty in
      elim (Bool-cases (is_zero (decremented maker qty).remain_qty)) [
        | inl gone ↦ elim (Bool-cases (is_positive (decremented maker qty).hidden_qty)) [
          | inl reserve ↦ rw (gone, reserve) (slice-InSweep f refl refl reserve)
          | inr bare ↦ rw (gone, bare) (gone-InSweep f refl refl)
        ]
        | inr some_left ↦ rw some_left (left-InSweep f refl refl some_left)
      ]

-- A maker that is taken out by self-trade prevention, and a taker whose rest is dropped.
cancel_maker-InSweep :
    (terms : OrderNode) (start : ℤ) (s : Sweep) (maker : OrderNode) (rest : List OrderNode)
    → InSweep terms start s
    → s.level.queue ≡ maker ∷ rest
    → InSweep terms start (cancel_maker_node s maker)
unfolding cancel_maker_node unlink
cancel_maker-InSweep terms start s maker rest v at_cursor = record {
  waiting = rw (at_cursor, head_removed maker rest) (subst (All IsResting) at_cursor v.waiting).1;
  behind = v.behind;
  open_qty = v.open_qty;
  open_bounded = v.open_bounded;
  balance = v.balance;
  fair = v.fair;
  level_accepts = v.level_accepts;
}

zero_incoming-InSweep :
    (terms : OrderNode) (start : ℤ) (s : Sweep)
    → InSweep terms start s
    → InSweep terms start (zero_incoming s)
unfolding zero_incoming
zero_incoming-InSweep terms start s v = record {
  waiting = v.waiting;
  behind = v.behind;
  open_qty = omega arith;
  open_bounded = omega arith;
  balance = omega (int_laws, v.balance, v.open_qty);
  fair = v.fair;
  level_accepts = v.level_accepts;
}

module _ (terms : OrderNode) (start : ℤ) (s : Sweep) (maker : OrderNode) (rest : List OrderNode)
    (v : InSweep terms start s) (at_cursor : s.level.queue ≡ maker ∷ rest)
    (wants : pos 1 ≤ℤ s.incoming.remain_qty) where
  pass_over-InSweep : InSweep terms start (pass_over s maker rest)
  unfolding pass_over
  pass_over-InSweep =
      let c = cursor_IsResting terms start s maker rest v at_cursor wants in
      record {
        waiting = c.1;
        behind = All-append IsResting s.passed _ v.behind (c.0, tt);
        open_qty = v.open_qty;
        open_bounded = v.open_bounded;
        balance = v.balance;
        fair = v.fair;
        level_accepts = v.level_accepts;
      }

  -- The taker has more than the maker: both go down by the maker's quantity.
  decrement_taker-InSweep :
      maker.remain_qty ≤ℤ s.incoming.remain_qty
      → InSweep terms start (record s {
        incoming = record (s.incoming) {
          remain_qty = sub64 s.incoming.remain_qty maker.remain_qty;
          filled_qty = add64 s.incoming.filled_qty maker.remain_qty;
        };
      })
  decrement_taker-InSweep more =
      let c = cursor_IsResting terms start s maker rest v at_cursor wants in
      let r =
        remain_after s.incoming.remain_qty maker.remain_qty (omega (arith, c.0.remains)) more
          v.open_bounded in
      record {
        waiting = v.waiting;
        behind = v.behind;
        open_qty = rw r (omega (int_laws, more));
        open_bounded = rw r (omega (int_laws, c.0.remains, v.open_bounded));
        balance = rw r (omega (int_laws, v.balance, c.0.remains));
        fair = v.fair;
        level_accepts = v.level_accepts;
      }

  -- The maker has more than the taker: it goes down by the taker's quantity.
  decrement_maker-InSweep :
      s.incoming.remain_qty <ℤ maker.remain_qty
      → InSweep terms start (record s { level = decrement_qty s.level maker s.incoming.remain_qty })
  unfolding decrement_qty
  decrement_maker-InSweep less =
      let c = cursor_IsResting terms start s maker rest v at_cursor wants in
      let q = s.incoming.remain_qty in
      let r = remain_after maker.remain_qty q v.open_qty (omega arith) c.0.bounded in
      let node =
        decremented-IsResting maker q c.0 wants (omega arith)
          (unfold decremented in rw r (difference_nonzero q maker.remain_qty less)) in
      record {
        waiting =
            subst (All IsResting) (sym (cursor_left terms start s maker rest v at_cursor wants q))
              (node, c.1);
        behind = v.behind;
        open_qty = v.open_qty;
        open_bounded = v.open_bounded;
        balance = v.balance;
        fair = v.fair;
        level_accepts = v.level_accepts;
      }

  -- Each self-trade rule keeps the invariant.
  apply_stp-InSweep : (mode : StpMode) → InSweep terms start (apply_stp s maker rest mode).1
  unfolding apply_stp
  apply_stp-InSweep disabled = pass_over-InSweep
  apply_stp-InSweep (other n) = pass_over-InSweep
  apply_stp-InSweep cancel_both =
      zero_incoming-InSweep terms start _
        (cancel_maker-InSweep terms start s maker rest v at_cursor)
  apply_stp-InSweep cancel_maker = cancel_maker-InSweep terms start s maker rest v at_cursor
  apply_stp-InSweep cancel_taker = zero_incoming-InSweep terms start s v
  apply_stp-InSweep decrement_cancel =
      elim (Bool-cases (ltb_ℤ s.incoming.remain_qty maker.remain_qty)) [
        | inl less ↦
            rw less (zero_incoming-InSweep terms start _ (decrement_maker-InSweep (ground arith)))
        | inr more ↦ rw more (
            cancel_maker-InSweep terms start _ maker rest (decrement_taker-InSweep (ground arith))
              at_cursor)
      ]

  -- One round of the inner loop keeps the invariant.
  pub visit-InSweep : (mode : StpMode) → InSweep terms start (visit mode s maker rest).1
  unfolding visit
  visit-InSweep mode = elim (Bool-cases (stp_enabled mode s.incoming maker)) [
    | inl same ↦ rw same (apply_stp-InSweep (effective_stp_mode mode s.incoming maker))
    | inr other_user ↦ rw other_user (trade-InSweep terms start s maker rest v at_cursor wants)
  ]
