-- ===== src/Book/Match/Loop.antt =====
-- The invariant of one round, carried through the inner and the outer loop.
use clob.Base.{
  ℕ, zero, suc, ◌≡◌, refl, ◌∙◌, inl, inr, List, [], ◌∷◌, arith, Bool-cases, Option, none, some,
}
use clob.Base.Int.{ltb_ℤ, min_ℤ, pos, ◌≤ℤ◌}
use clob.Types.{StpMode, disabled, cancel_both, cancel_maker, cancel_taker, decrement_cancel, other}
use clob.Book.Node.{OrderNode}
use clob.Book.Level.{decremented, decrement_qty, unlink, append, replenish_iceberg}
use clob.Book.Match.{
  Sweep, Flow, again, level_done, stop_all, is_positive, is_zero, visit, sweep_level, proceed,
  apply_stp, trade, exchange, next_slice, maker_gone, maker_left, stp_enabled, effective_stp_mode,
}

-- Side, type and price decide which prices an order accepts; its self-trade mode stays, too.
abbrev pub SameTerms : OrderNode → OrderNode → Type 0
SameTerms a b =
    (a.side ≡ b.side)
    × (a.order_type ≡ b.order_type)
    × (a.price ≡ b.price)
    × (a.stp_mode ≡ b.stp_mode)

-- What no round of the inner loop changes: the taker's terms and the level's price.
abbrev pub SameFrame : Sweep → Sweep → Type 0
SameFrame s t = SameTerms t.incoming s.incoming × (t.level.price ≡ s.level.price)

apply_stp-SameFrame :
    (s : Sweep) (maker : OrderNode) (rest : List OrderNode) (mode : StpMode)
    → SameFrame s (apply_stp s maker rest mode).1
unfolding apply_stp unlink decrement_qty
apply_stp-SameFrame s maker rest decrement_cancel = ground arith
apply_stp-SameFrame s maker rest disabled = ((refl, refl, refl, refl), refl)
apply_stp-SameFrame s maker rest cancel_both = ((refl, refl, refl, refl), refl)
apply_stp-SameFrame s maker rest cancel_maker = ((refl, refl, refl, refl), refl)
apply_stp-SameFrame s maker rest cancel_taker = ((refl, refl, refl, refl), refl)
apply_stp-SameFrame s maker rest (other n) = ((refl, refl, refl, refl), refl)

trade-SameFrame : (s : Sweep) (maker : OrderNode) → SameFrame s (trade s maker).1
unfolding trade exchange next_slice maker_gone maker_left unlink decrement_qty replenish_iceberg
    append
trade-SameFrame s maker =
    elim (Bool-cases
      (is_zero (decremented maker (min_ℤ maker.remain_qty s.incoming.remain_qty)).remain_qty)) [
        | inl gone ↦
            elim (Bool-cases (
              is_positive
                (decremented maker (min_ℤ maker.remain_qty s.incoming.remain_qty)).hidden_qty)) [
                  | inl reserve ↦ rw (gone, reserve) ((refl, refl, refl, refl), refl)
                  | inr bare ↦ rw (gone, bare) ((refl, refl, refl, refl), refl)
                ]
        | inr some_left ↦ rw some_left ((refl, refl, refl, refl), refl)
      ]

pub visit-SameFrame :
    (mode : StpMode) (s : Sweep) (maker : OrderNode) (rest : List OrderNode)
    → SameFrame s (visit mode s maker rest).1
unfolding visit
visit-SameFrame mode s maker rest = elim (Bool-cases (stp_enabled mode s.incoming maker)) [
  | inl same ↦ rw same (apply_stp-SameFrame s maker rest (effective_stp_mode mode s.incoming maker))
  | inr differ ↦ rw differ (trade-SameFrame s maker)
]

pub SameFrame-trans : (s t u : Sweep) → SameFrame s t → SameFrame t u → SameFrame s u
SameFrame-trans s t u a b =
    ((b.0.0 ∙ a.0.0, b.0.1 ∙ a.0.1, b.0.2 ∙ a.0.2, b.0.3 ∙ a.0.3), b.1 ∙ a.1)

-- What the inner loop returns, if it returns.
abbrev pub Ends : (Sweep → Type 0) → Option (Flow × Sweep) → Type 0
Ends P none = Unit
Ends P (some (_, s)) = P s

module _ (P : Sweep → Type 0) (mode : StpMode)
    (keep : (s : Sweep) (maker : OrderNode) (rest : List OrderNode)
      → P s
      → s.level.queue ≡ maker ∷ rest
      → pos 1 ≤ℤ s.incoming.remain_qty
      → P (visit mode s maker rest).1) where
  proceed-Ends :
      (k : Sweep → Option (Flow × Sweep)) (r : Flow × Sweep)
      → ((s : Sweep) → P s → Ends P (k s))
      → P r.1
      → Ends P (proceed k r)
  proceed-Ends k (again, s) h p = h s p
  proceed-Ends k (level_done, s) h p = p
  proceed-Ends k (stop_all, s) h p = p

  pub sweep_level-Ends : (k : ℕ) (s : Sweep) → P s → Ends P (sweep_level k mode s)
  unfolding sweep_level
  sweep_level-Ends zero s p = tt
  sweep_level-Ends (suc k) s p = go (sweep_level-Ends k) s.level.queue refl
    where
      go :
          ((s : Sweep) → P s → Ends P (sweep_level k mode s))
          → (q : List OrderNode) → s.level.queue ≡ q
          → Ends P (sweep_level (suc k) mode s)
      go ih [] e = rw (e, sweep_level) p
      go ih (maker ∷ rest) e =
          rw (e, sweep_level)
            (elim (Bool-cases (is_positive s.incoming.remain_qty)) [
              | inl more ↦ rw more (proceed-Ends _ _ ih (keep s maker rest p e (ground arith)))
              | inr none_left ↦ rw none_left p
            ])

-- `goto done` is taken only after the taker's rest was dropped.
abbrev pub Stopped : Flow × Sweep → Type 0
Stopped (again, s) = Unit
Stopped (level_done, s) = Unit
Stopped (stop_all, s) = s.incoming.remain_qty ≡ pos 0

abbrev pub StoppedIf : Option (Flow × Sweep) → Type 0
StoppedIf none = Unit
StoppedIf (some r) = Stopped r

apply_stp-Stopped :
    (s : Sweep) (maker : OrderNode) (rest : List OrderNode) (mode : StpMode)
    → Stopped (apply_stp s maker rest mode)
unfolding apply_stp
apply_stp-Stopped s maker rest disabled = tt
apply_stp-Stopped s maker rest cancel_both = refl
apply_stp-Stopped s maker rest cancel_maker = tt
apply_stp-Stopped s maker rest cancel_taker = refl
apply_stp-Stopped s maker rest decrement_cancel =
    elim (Bool-cases (ltb_ℤ s.incoming.remain_qty maker.remain_qty)) [
      | inl less ↦ rw less refl
      | inr more ↦ rw more tt
    ]
apply_stp-Stopped s maker rest (other n) = tt

trade-Stopped : (s : Sweep) (maker : OrderNode) → Stopped (trade s maker)
unfolding trade
trade-Stopped s maker =
    let node = decremented maker (min_ℤ maker.remain_qty s.incoming.remain_qty) in
    elim (Bool-cases (is_zero node.remain_qty)) [
      | inl gone ↦ elim (Bool-cases (is_positive node.hidden_qty)) [
        | inl reserve ↦ rw (gone, reserve) tt
        | inr bare ↦ rw (gone, bare) tt
      ]
      | inr some_left ↦ rw some_left tt
    ]

visit-Stopped :
    (mode : StpMode) (s : Sweep) (maker : OrderNode) (rest : List OrderNode)
    → Stopped (visit mode s maker rest)
unfolding visit
visit-Stopped mode s maker rest = elim (Bool-cases (stp_enabled mode s.incoming maker)) [
  | inl same ↦ rw same (apply_stp-Stopped s maker rest (effective_stp_mode mode s.incoming maker))
  | inr differ ↦ rw differ (trade-Stopped s maker)
]

proceed-StoppedIf :
    (k : Sweep → Option (Flow × Sweep)) (r : Flow × Sweep)
    → ((s : Sweep) → StoppedIf (k s))
    → Stopped r
    → StoppedIf (proceed k r)
proceed-StoppedIf k (again, s) h p = h s
proceed-StoppedIf k (level_done, s) h p = tt
proceed-StoppedIf k (stop_all, s) h p = p

pub sweep_level-StoppedIf : (k : ℕ) (mode : StpMode) (s : Sweep) → StoppedIf (sweep_level k mode s)
unfolding sweep_level
sweep_level-StoppedIf zero mode s = tt
sweep_level-StoppedIf (suc k) mode s = go (sweep_level-StoppedIf k mode) s.level.queue refl
  where
    go :
        ((t : Sweep) → StoppedIf (sweep_level k mode t))
        → (q : List OrderNode) → s.level.queue ≡ q
        → StoppedIf (sweep_level (suc k) mode s)
    go ih [] e = rw (e, sweep_level) tt
    go ih (maker ∷ rest) e =
        rw (e, sweep_level)
          (elim (Bool-cases (is_positive s.incoming.remain_qty)) [
            | inl more ↦ rw more (proceed-StoppedIf _ _ ih (visit-Stopped mode s maker rest))
            | inr none_left ↦ rw none_left tt
          ])
