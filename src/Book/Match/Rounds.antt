-- ===== src/Book/Match/Rounds.antt =====
-- Lemmas on the fuel of the inner loop of book/matching.go.
use clob.Base.{
  ℕ, zero, suc, ◌+◌, ◌≤◌, ◌<◌, ◌≡◌, refl, sym, subst, ◌∙◌, ◌≢◌, ◌⊎◌, inl, inr, List, [], ◌∷◌, ◌++◌,
  true, false, arith, All, All-append, Bool-cases, Option, none, some,
}
use clob.Base.Int.{leb_ℤ, ℤ, pos, min_ℤ, ltb_ℤ, magnitude, sub64, ◌≤ℤ◌, ◌-ℤ◌, int_laws}
use clob.Types.{
  StpMode, disabled, cancel_both, cancel_maker, cancel_taker, decrement_cancel, other, is_disabled,
}
use clob.Sequence.{next}
use clob.Book.Node.{OrderNode, Fill}
use clob.Book.Level.{decremented, decrement_qty, unlink, append, replenish_iceberg, replenished}
use clob.Book.Match.{
  Sweep, Flow, again, level_done, stop_all, is_positive, is_zero, visit, sweep_level, rounds,
  proceed, apply_stp, trade, exchange, next_slice, maker_gone, maker_left, make_fill, stp_enabled,
  cancel_maker_node, effective_stp_mode,
}
use clob.Book.Match.Invariant.{
  InSweep, IsResting, visit-InSweep, cursor_gone, head_removed, remain_after, slice_bounds, max64,
}

abbrev pub IsNamed : StpMode → Type 0
IsNamed (other n) = ⊥
IsNamed _ = Unit

abbrev pub AllNamed : List OrderNode → Type 0
AllNamed = All (λ n. IsNamed n.stp_mode)

effective-IsNamed :
    (mode : StpMode) (a b : OrderNode)
    → IsNamed mode
    → IsNamed a.stp_mode
    → IsNamed b.stp_mode
    → IsNamed (effective_stp_mode mode a b)
unfolding effective_stp_mode
effective-IsNamed mode a b h i j = elim (Bool-cases (is_disabled a.stp_mode)) [
  | inr set ↦ rw set i
  | inl unset ↦ elim (Bool-cases (is_disabled b.stp_mode)) [
    | inr set ↦ rw (unset, set) j
    | inl unset' ↦ rw (unset, unset') h
  ]
]

rounds-append :
    (xs : List OrderNode) (n : OrderNode)
    → rounds (xs ++ n ∷ []) ≡ rounds xs + suc (magnitude n.hidden_qty)
rounds-append [] n = omega arith
rounds-append (x ∷ xs) n = omega (arith, rounds-append xs n)

-- The cursor has passed nothing, and every mode in sight is a named one.
pub record IsOrderly (s : Sweep) : Type 0 where
  pub at_head : s.passed ≡ []
  pub named : AllNamed s.level.queue
  pub taker_named : IsNamed s.incoming.stp_mode

-- A round brings the loop nearer to its end.
abbrev Falls : ℕ → Flow × Sweep → Type 0
Falls n (again, s) = (rounds s.level.queue < n) × IsOrderly s
Falls n (level_done, s) = is_positive s.incoming.remain_qty ≡ false
Falls n (stop_all, s) = Unit

left_fills_taker :
    (m t : ℤ)
    → pos 1 ≤ℤ m
    → m ≤ℤ max64
    → pos 1 ≤ℤ t
    → t ≤ℤ max64
    → is_zero (sub64 m (min_ℤ m t)) ≡ false
    → is_positive (sub64 t (min_ℤ m t)) ≡ false
left_fills_taker m t h b k c nz = elim (Bool-cases (leb_ℤ m t)) [
  | inl less ↦ absurd (zero_or_not m (rw less at nz))
  | inr more ↦ rw more (nothing_left t)
]
  where
    difference : (x : ℤ) → pos 1 ≤ℤ x → x ≤ℤ max64 → sub64 x x ≡ pos 0
    difference x p q = remain_after x x (omega arith) (omega arith) q ∙ omega int_laws

    zero_or_not : (x : ℤ) → is_zero (sub64 m m) ≡ false → ⊥
    zero_or_not x e = cc (difference m h b)

    nothing_left : (x : ℤ) → is_positive (sub64 t t) ≡ false
    nothing_left x = rw (difference t k c)

magnitude-sub : (h q : ℤ) → pos 1 ≤ℤ q → q ≤ℤ h → magnitude (h -ℤ q) < magnitude h
unfolding ◌-ℤ◌
magnitude-sub h q k b = ground arith

smaller_slice_of :
    (h d : ℤ)
    → pos 1 ≤ℤ h
    → h ≤ℤ max64
    → (pos 1 ≤ℤ d) ⊎ (h ≤ℤ pos 0)
    → magnitude (sub64 h (min_ℤ h d)) < magnitude h
smaller_slice_of h d k c o =
    let b = slice_bounds h d k o in
    rw (remain_after h (min_ℤ h d) (omega (arith, b.0)) b.1 c) (magnitude-sub h _ b.0 b.1)

module _ (terms : OrderNode) (start : ℤ) (s : Sweep) (maker : OrderNode) (rest : List OrderNode)
    (v : InSweep terms start s) (at_cursor : s.level.queue ≡ maker ∷ rest)
    (wants : pos 1 ≤ℤ s.incoming.remain_qty) (o : IsOrderly s) where
  modes : IsNamed maker.stp_mode × AllNamed rest
  modes = subst AllNamed at_cursor o.named

  makers : IsResting maker × All IsResting rest
  makers = subst (All IsResting) at_cursor v.waiting

  abbrev qty : ℤ
  qty = min_ℤ maker.remain_qty s.incoming.remain_qty

  cancel_maker-Falls :
      (t : Sweep)
      → t.level ≡ s.level
      → t.passed ≡ s.passed
      → t.incoming.stp_mode ≡ s.incoming.stp_mode
      → Falls (rounds s.level.queue) (again, cancel_maker_node t maker)
  unfolding cancel_maker_node unlink
  cancel_maker-Falls t e p i =
      let q : (cancel_maker_node t maker).level.queue ≡ rest =
        rw (e, at_cursor) (head_removed maker rest) in
      (
        rw (q, at_cursor) (omega arith),
        record {
          at_head = p ∙ o.at_head;
          named = subst AllNamed (sym q) modes.1;
          taker_named = rw i o.taker_named;
        },
      )

  gone-Falls :
      (g : Fill)
      → Falls
          (rounds s.level.queue)
          (again, maker_gone (exchange s maker qty) (decremented maker qty) g)
  unfolding maker_gone exchange decrement_qty unlink
  gone-Falls g =
      let q = cursor_gone terms start s maker rest v at_cursor wants qty in
      (
        rw (q, at_cursor) (omega arith),
        record {
          at_head = o.at_head;
          named = subst AllNamed (sym q) modes.1;
          taker_named = o.taker_named;
        },
      )

  slice-Falls :
      (g : Fill)
      → is_positive (decremented maker qty).hidden_qty ≡ true
      → Falls
          (rounds s.level.queue)
          (again, next_slice (exchange s maker qty) (decremented maker qty) g)
  unfolding next_slice exchange decrement_qty replenish_iceberg unlink append decremented
      replenished
  slice-Falls g reserve =
      let hit = exchange s maker qty in
      let node = decremented maker qty in
      let seq = next hit.order_seq in
      let last = replenished node seq.n in
      let q : (next_slice hit node g).level.queue ≡ rest ++ last ∷ [] =
        rw (o.at_head, cursor_gone terms start s maker rest v at_cursor wants qty) in
      (
        rw (q, at_cursor) (omega (arith, rounds-append rest last, smaller_slice)),
        record {
          at_head = refl;
          named = subst AllNamed (sym q) (All-append _ rest (last ∷ []) modes.1 (modes.0, tt));
          taker_named = o.taker_named;
        },
      )
    where
      smaller_slice :
          magnitude (replenished (decremented maker qty) (next s.order_seq).n).hidden_qty
          < magnitude maker.hidden_qty
      smaller_slice =
          smaller_slice_of maker.hidden_qty maker.orig_display_qty (ground arith)
            makers.0.hidden_bounded makers.0.slice

  trade-Falls : Falls (rounds s.level.queue) (trade s maker)
  unfolding trade make_fill
  trade-Falls =
      let f = make_fill (exchange s maker qty).incoming (decremented maker qty) s.level.price qty in
      elim (Bool-cases (is_zero (decremented maker qty).remain_qty)) [
        | inl gone ↦ elim (Bool-cases (is_positive (decremented maker qty).hidden_qty)) [
          | inl reserve ↦ rw (gone, reserve) (slice-Falls f reserve)
          | inr bare ↦ rw (gone, bare) (gone-Falls f)
        ]
        | inr some_left ↦ rw some_left (
            unfold maker_left exchange decremented in
            left_fills_taker maker.remain_qty s.incoming.remain_qty makers.0.remains
              makers.0.bounded wants v.open_bounded some_left)
      ]

  apply_stp-Falls :
      (mode : StpMode)
      → IsNamed mode
      → mode ≢ disabled
      → Falls (rounds s.level.queue) (apply_stp s maker rest mode)
  unfolding apply_stp
  apply_stp-Falls disabled n d = absurd (d refl)
  apply_stp-Falls (other k) n d = absurd n
  apply_stp-Falls cancel_both n d = tt
  apply_stp-Falls cancel_maker n d = cancel_maker-Falls s refl refl refl
  apply_stp-Falls cancel_taker n d = tt
  apply_stp-Falls decrement_cancel n d =
      elim (Bool-cases (ltb_ℤ s.incoming.remain_qty maker.remain_qty)) [
        | inl less ↦ rw less tt
        | inr more ↦ rw more (cancel_maker-Falls _ refl refl refl)
      ]

  visit-Falls :
      (mode : StpMode) → IsNamed mode → Falls (rounds s.level.queue) (visit mode s maker rest)
  unfolding visit stp_enabled
  visit-Falls mode n = elim (Bool-cases (stp_enabled mode s.incoming maker)) [
    | inl same ↦ rw same (
        apply_stp-Falls (effective_stp_mode mode s.incoming maker)
          (effective-IsNamed mode s.incoming maker n o.taker_named modes.0)
          λ d. absurd (ground (arith, same, d)))
    | inr differ ↦ rw differ trade-Falls
  ]

-- How the inner loop ends: at the end of the queue, with the taker filled, or stopped.
abbrev pub Ran : Option (Flow × Sweep) → Type 0
Ran none = ⊥
Ran (some (again, s)) = ⊥
Ran (some (level_done, s)) =
    ((s.passed ++ s.level.queue) ≡ []) ⊎ (is_positive s.incoming.remain_qty ≡ false)
Ran (some (stop_all, s)) = Unit

module _ (terms : OrderNode) (start : ℤ) (mode : StpMode) (n : IsNamed mode) where
  proceed-Ran :
      (k : ℕ) (r : Flow × Sweep)
      → Falls (suc k) r
      → InSweep terms start r.1
      → ((s : Sweep)
          → InSweep terms start s
          → IsOrderly s
          → rounds s.level.queue ≤ k
          → Ran (sweep_level k mode s))
      → Ran (proceed (sweep_level k mode) r)
  proceed-Ran k (again, s) f v ih = ih s v f.1 (omega (arith, f.0))
  proceed-Ran k (level_done, s) f v ih = inr f
  proceed-Ran k (stop_all, s) f v ih = tt

  Falls-mono : (a b : ℕ) (r : Flow × Sweep) → a ≤ b → Falls a r → Falls b r
  Falls-mono a b (again, s) h f = (omega (arith, f.0), f.1)
  Falls-mono a b (level_done, s) h f = f
  Falls-mono a b (stop_all, s) h f = tt

  -- With a round for each node and each slice, the inner loop ends.
  pub sweep_level-Ran :
      (k : ℕ) (s : Sweep)
      → InSweep terms start s
      → IsOrderly s
      → rounds s.level.queue ≤ k
      → Ran (sweep_level k mode s)
  unfolding sweep_level
  sweep_level-Ran zero s v o h = go s.level.queue h
    where
      go : (q : List OrderNode) → rounds q ≤ 0 → ⊥
      go [] h = omega arith
      go (x ∷ q) h = omega arith
  sweep_level-Ran (suc k) s v o h = go (sweep_level-Ran k) s.level.queue refl
    where
      go :
          ((t : Sweep)
            → InSweep terms start t
            → IsOrderly t
            → rounds t.level.queue ≤ k
            → Ran (sweep_level k mode t))
          → (q : List OrderNode) → s.level.queue ≡ q
          → Ran (sweep_level (suc k) mode s)
      go ih [] e = rw (e, sweep_level) (inl (rw (o.at_head, e)))
      go ih (maker ∷ rest) e =
          rw (e, sweep_level)
            (elim (Bool-cases (is_positive s.incoming.remain_qty)) [
              | inr filled ↦ rw filled (inr filled)
              | inl more ↦ rw more (
                  proceed-Ran k (visit mode s maker rest)
                    (Falls-mono _ (suc k) _ h
                      (visit-Falls terms start s maker rest v e (ground arith) o mode n))
                    (visit-InSweep terms start s maker rest v e (ground arith) mode) ih)
            ])
