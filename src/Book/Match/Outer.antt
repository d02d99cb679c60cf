-- ===== src/Book/Match/Outer.antt =====
-- The invariant of the outer loop, and what it says of the fills.
use clob.Base.{
  ℕ, zero, suc, ◌≡◌, refl, sym, ap, subst, ◌∙◌, inl, inr, List, [], ◌∷◌, Bool, true, false, arith,
  All, All-append, Bool-cases, Option, none, some, head?,
}
use clob.Base.Int.{ℤ, pos, ◌+ℤ◌, ◌≤ℤ◌}
use clob.Types.{StpMode}
use clob.BTree.{BTree, BTreeLaws}
use clob.Book.Node.{OrderNode}
use clob.Book.Level.{PriceLevel, is_empty}
use clob.Book.Tree.{best, delete}
use clob.Book.Tree.Laws.{
  IsTree, best-items, items-delete_best, items-write_back_best, delete_best-IsTree,
  write_back_best-IsTree,
}
use clob.Book.Match.{
  Sweep, Flow, again, level_done, stop_all, is_positive, visit, crosses, sweep_level, rounds,
  Matching, enter, leave, match_loop, whole_level, after_level,
}
use clob.Book.Match.Invariant.{InSweep, IsResting, IsFair, accepts, qty_sum, max64, visit-InSweep}
use clob.Book.Match.Loop.{
  SameTerms, visit-SameFrame, Ends, sweep_level-Ends, StoppedIf, sweep_level-StoppedIf,
}

pub crosses-accepts :
    (a b : OrderNode) (l : PriceLevel) → SameTerms a b → crosses a l ≡ accepts b l.price
unfolding crosses
crosses-accepts a b l (s, t, p, _) = rw (s, t, p)

-- The levels of a side hold resting nodes only.
abbrev pub IsStocked : List PriceLevel → Type 0
IsStocked = All (λ l. All IsResting l.queue)

-- The inner loop's invariant together with what it does not change.
abbrev pub AtLevel : OrderNode → ℤ → PriceLevel → Sweep → Type 0
AtLevel terms start level s =
    InSweep terms start s × SameTerms s.incoming terms × (s.level.price ≡ level.price)

pub AtLevel-kept :
    (terms : OrderNode) (start : ℤ) (level : PriceLevel) (mode : StpMode) (s : Sweep)
    (maker : OrderNode) (rest : List OrderNode)
    → AtLevel terms start level s
    → s.level.queue ≡ maker ∷ rest
    → pos 1 ≤ℤ s.incoming.remain_qty
    → AtLevel terms start level (visit mode s maker rest).1
AtLevel-kept terms start level mode s maker rest (v, t, p) e w =
    let f = visit-SameFrame mode s maker rest in
    (
      visit-InSweep terms start s maker rest v e w mode,
      (f.0.0 ∙ t.0, f.0.1 ∙ t.1, f.0.2 ∙ t.2, f.0.3 ∙ t.3),
      f.1 ∙ p,
    )

module _ {T : Type 0} ⦃bt : BTree T PriceLevel⦄ where
  pub record InMatch (terms : OrderNode) (start : ℤ) (m : Matching T) : Type 0 where
    pub tree : IsTree m.opposite
    pub stocked : IsStocked (bt.items m.opposite.tree)
    pub open_qty : pos 0 ≤ℤ m.incoming.remain_qty
    pub open_bounded : m.incoming.remain_qty ≤ℤ max64
    pub balance : m.incoming.remain_qty +ℤ qty_sum m.fills ≤ℤ start
    pub fair : All (IsFair terms) m.fills
    pub same : SameTerms m.incoming terms

  pub enter-AtLevel :
      (terms : OrderNode) (start : ℤ) (m : Matching T) (level : PriceLevel) (rest : List PriceLevel)
      → InMatch terms start m
      → bt.items m.opposite.tree ≡ level ∷ rest
      → crosses m.incoming level ≡ true
      → AtLevel terms start level (enter m level)
  enter-AtLevel terms start m level rest v e c = (
    record {
      waiting = (subst IsStocked e v.stocked).0;
      behind = tt;
      open_qty = v.open_qty;
      open_bounded = v.open_bounded;
      balance = v.balance;
      fair = v.fair;
      level_accepts = sym (crosses-accepts m.incoming terms level v.same) ∙ c;
    },
    v.same,
    refl,
  )

  module _ (laws : BTreeLaws bt) where
    pub leave-InMatch :
        (terms : OrderNode) (start : ℤ) (m : Matching T) (level : PriceLevel)
        (rest : List PriceLevel) (s : Sweep)
        → InMatch terms start m
        → bt.items m.opposite.tree ≡ level ∷ rest
        → AtLevel terms start level s
        → InMatch terms start (leave m s)
    unfolding leave
    leave-InMatch terms start m level rest s v e (w, t, p) =
        let whole = whole_level s in
        let stock = subst IsStocked e v.stocked in
        elim (Bool-cases (is_empty whole)) [
          | inl gone ↦ rw gone (record {
            tree =
                subst (λ q. IsTree (delete m.opposite q)) (sym p)
                  (delete_best-IsTree laws m.opposite level rest v.tree e);
            stocked =
                subst (λ q. IsStocked (bt.items (delete m.opposite q).tree)) (sym p)
                  (subst IsStocked (sym (items-delete_best laws m.opposite level rest v.tree e))
                    stock.1);
            open_qty = w.open_qty;
            open_bounded = w.open_bounded;
            balance = w.balance;
            fair = w.fair;
            same = t;
          })
          | inr kept ↦ rw kept (record {
            tree = write_back_best-IsTree laws m.opposite level whole rest v.tree e p;
            stocked =
                subst IsStocked
                  (sym (items-write_back_best laws m.opposite level whole rest v.tree e p))
                  (All-append IsResting s.passed s.level.queue w.behind w.waiting, stock.1);
            open_qty = w.open_qty;
            open_bounded = w.open_bounded;
            balance = w.balance;
            fair = w.fair;
            same = t;
          })
        ]

    -- What the loops end with: the invariant, and no level left that the taker would trade with.
    pub record Settled (terms : OrderNode) (start : ℤ) (stopped : Bool) (m : Matching T)
        : Type 0 where
      pub inv : InMatch terms start m
      pub uncrossed :
          stopped ≡ false
          → pos 1 ≤ℤ m.incoming.remain_qty
          → (l : PriceLevel) → head? (bt.items m.opposite.tree) ≡ some l
          → crosses m.incoming l ≡ false

    abbrev pub SettledIf : OrderNode → ℤ → Option (Bool × Matching T) → Type 0
    SettledIf terms start none = Unit
    SettledIf terms start (some (b, m)) = Settled terms start b m

    after_level-SettledIf :
        (terms : OrderNode) (start : ℤ) (m : Matching T) (level : PriceLevel)
        (rest : List PriceLevel) (k : Matching T → Option (Bool × Matching T))
        (r : Option (Flow × Sweep))
        → InMatch terms start m
        → bt.items m.opposite.tree ≡ level ∷ rest
        → ((n : Matching T) → InMatch terms start n → SettledIf terms start (k n))
        → Ends (AtLevel terms start level) r
        → StoppedIf r
        → SettledIf terms start (after_level k m r)
    after_level-SettledIf terms start m level rest k none v e ih p z = tt
    after_level-SettledIf terms start m level rest k (some (again, s)) v e ih p z = tt
    after_level-SettledIf terms start m level rest k (some (level_done, s)) v e ih p z =
        ih (leave m s) (leave-InMatch terms start m level rest s v e p)
    after_level-SettledIf terms start m level rest k (some (stop_all, s)) v e ih p z = record {
      inv = leave-InMatch terms start m level rest s v e p;
      uncrossed = λ f w l h. absurd (ground (arith, z, f));
    }

    pub match_loop-SettledIf :
        (terms : OrderNode) (start : ℤ) (mode : StpMode) (k : ℕ) (m : Matching T)
        → InMatch terms start m
        → SettledIf terms start (match_loop k mode m)
    unfolding match_loop
    match_loop-SettledIf terms start mode zero m v = tt
    match_loop-SettledIf terms start mode (suc k) m v =
        go (match_loop-SettledIf terms start mode k) (bt.items m.opposite.tree) refl
      where
        go :
            ((n : Matching T) → InMatch terms start n → SettledIf terms start (match_loop k mode n))
            → (ls : List PriceLevel) → bt.items m.opposite.tree ≡ ls
            → SettledIf terms start (match_loop (suc k) mode m)
        go ih [] e =
            let b : best m.opposite ≡ none = best-items laws m.opposite v.tree ∙ ap head? e in
            let nothing : head? (bt.items m.opposite.tree) ≡ none = ap head? e in
            let done : Settled terms start false m = record {
              inv = v;
              uncrossed = λ f w l h. cc;
            } in
            elim (Bool-cases (is_positive m.incoming.remain_qty)) [
              | inr filled ↦ rw (filled, match_loop) done
              | inl more ↦ rw (more, b, match_loop) done
            ]
        go ih (level ∷ rest) e =
            let b : best m.opposite ≡ some level = best-items laws m.opposite v.tree ∙ ap head? e in
            let first : head? (bt.items m.opposite.tree) ≡ some level = ap head? e in
            elim (Bool-cases (is_positive m.incoming.remain_qty)) [
              | inr filled ↦
                  rw (filled, match_loop)
                    (record { inv = v; uncrossed = λ f w l h. absurd (ground arith) })
              | inl more ↦ elim (Bool-cases (crosses m.incoming level)) [
                | inr apart ↦
                    rw (more, b, apart, match_loop)
                      (record {
                        inv = v;
                        uncrossed = λ f w l h.
                            let same : level ≡ l = cc (first, h) in
                            subst (λ x. crosses m.incoming x ≡ false) same apart;
                      })
                | inl meets ↦
                    rw (more, b, meets, match_loop)
                      (after_level-SettledIf terms start m level rest (match_loop k mode)
                        (sweep_level (rounds level.queue) mode (enter m level)) v e ih
                        (sweep_level-Ends (AtLevel terms start level) mode
                          (AtLevel-kept terms start level mode) (rounds level.queue) (enter m level)
                          (enter-AtLevel terms start m level rest v e meets))
                        (sweep_level-StoppedIf (rounds level.queue) mode (enter m level)))
              ]
            ]
