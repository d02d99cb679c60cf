-- ===== src/Book/Match/Priority.antt =====
-- book/matching.go: the order in which the two loops meet the resting orders.
use clob.Base.{
  ℕ, zero, suc, ◌≡◌, refl, sym, ap, subst, ◌∙◌, inl, inr, List, [], ◌∷◌, ◌++◌, Bool, true, false,
  arith, All, Bool-cases, Option, none, some, head?,
}
use clob.Base.Int.{ℤ, pos, ◌≤ℤ◌}
use clob.Types.{StpMode}
use clob.BTree.{BTree, BTreeLaws}
use clob.Book.Node.{OrderNode, Fill}
use clob.Book.Level.{PriceLevel, is_empty}
use clob.Book.Tree.{best, delete}
use clob.Book.Tree.Laws.{
  IsTree, best-items, items-delete_best, items-write_back_best, delete_best-IsTree,
  write_back_best-IsTree,
}
use clob.Book.Match.{
  Sweep, Flow, again, level_done, stop_all, is_positive, visit, crosses, sweep_level, rounds,
  Matching, enter, leave, match_loop, whole_level, after_level,
}
use clob.Book.Match.Loop.{visit-SameFrame, Ends, sweep_level-Ends}
use clob.Book.Match.Turns.{IsPlain, ids, makers, Track, InTurn, visit-InTurn}

-- The orders of a side in the order of price and time.
abbrev pub level_ids : List PriceLevel → List ℕ
level_ids [] = []
level_ids (l ∷ ls) = ids l.queue ++ level_ids ls

abbrev pub LevelsPlain : ℕ → List PriceLevel → Type 0
LevelsPlain user = All (λ l. All (IsPlain user) l.queue)

-- The fills are with the first orders of `total`.
abbrev pub InOrder : List ℕ → List Fill → Type 0
InOrder total fills = (later : List ℕ) × (total ≡ makers fills ++ later)

Track-InOrder :
    (total : List ℕ) (remain : ℤ) (fills : List Fill) (waiting : List ℕ)
    → Track total remain fills waiting
    → InOrder total fills
Track-InOrder total remain fills waiting (inl e) = (waiting, e)
Track-InOrder total remain fills waiting (inr (_, e)) = e

no_ids : (q : List OrderNode) → elim q [ [] ↦ true | _ ∷ _ ↦ false ] ≡ true → ids q ≡ []
no_ids [] h = refl
no_ids (n ∷ q) h = absurd (ground arith)

-- A taker at a level, with the price that the level keeps.
abbrev AtTurn : ℕ → List ℕ → List ℕ → PriceLevel → Sweep → Type 0
AtTurn user total behind level s = InTurn user total behind s × (s.level.price ≡ level.price)

module _ {T : Type 0} ⦃bt : BTree T PriceLevel⦄ (laws : BTreeLaws bt) (user : ℕ)
    (total : List ℕ) where
  pub record InLine (m : Matching T) : Type 0 where
    pub tree : IsTree m.opposite
    pub taker : m.incoming.user_id ≡ user
    pub plain : LevelsPlain user (bt.items m.opposite.tree)
    pub track : Track total m.incoming.remain_qty m.fills (level_ids (bt.items m.opposite.tree))

  module _ (m : Matching T) (level : PriceLevel) (rest : List PriceLevel) (v : InLine m)
      (e : bt.items m.opposite.tree ≡ level ∷ rest) where
    enter-AtTurn : AtTurn user total (level_ids rest) level (enter m level)
    enter-AtTurn = (
      record {
        nothing_passed = refl;
        taker = v.taker;
        plain = (subst (LevelsPlain user) e v.plain).0;
        track = subst (λ ls. Track total m.incoming.remain_qty m.fills (level_ids ls)) e v.track;
      },
      refl,
    )

    -- A level that is used up adds nothing to what waits.
    used_up : (s : Sweep) → s.passed ≡ [] → is_empty (whole_level s) ≡ true → ids s.level.queue ≡ []
    unfolding whole_level
    used_up s p h =
        no_ids s.level.queue
          (subst (λ q. is_empty (record (s.level) { queue = q ++ s.level.queue }) ≡ true) p h)

    leave-InLine : (s : Sweep) → AtTurn user total (level_ids rest) level s → InLine (leave m s)
    unfolding leave
    leave-InLine s (w, p) =
        let whole = whole_level s in
        let others = (subst (LevelsPlain user) e v.plain).1 in
        elim (Bool-cases (is_empty whole)) [
          | inl gone ↦
              let now = items-delete_best laws m.opposite level rest v.tree e in
              rw gone (record {
                tree =
                    subst (λ q. IsTree (delete m.opposite q)) (sym p)
                      (delete_best-IsTree laws m.opposite level rest v.tree e);
                taker = w.taker;
                plain =
                    subst (λ q. LevelsPlain user (bt.items (delete m.opposite q).tree)) (sym p)
                      (subst (LevelsPlain user) (sym now) others);
                track =
                    subst
                      (λ q.
                        Track total s.incoming.remain_qty s.fills
                          (level_ids (bt.items (delete m.opposite q).tree)))
                      (sym p)
                      (subst (λ ls. Track total s.incoming.remain_qty s.fills (level_ids ls))
                        (sym now)
                        (subst
                          (λ q. Track total s.incoming.remain_qty s.fills (q ++ level_ids rest))
                          (used_up s w.nothing_passed gone) w.track));
              })
          | inr kept ↦
              let now = items-write_back_best laws m.opposite level whole rest v.tree e p in
              rw kept (record {
                tree = write_back_best-IsTree laws m.opposite level whole rest v.tree e p;
                taker = w.taker;
                plain = subst (LevelsPlain user) (sym now) (
                  subst (λ q. All (IsPlain user) (q ++ s.level.queue)) (sym w.nothing_passed)
                      w.plain,
                  others,
                );
                track =
                    subst (λ ls. Track total s.incoming.remain_qty s.fills (level_ids ls)) (sym now)
                      (subst
                        (λ q.
                          Track total s.incoming.remain_qty s.fills
                            (ids (q ++ s.level.queue) ++ level_ids rest))
                        (sym w.nothing_passed) w.track);
              })
        ]

  AtTurn-kept :
      (behind : List ℕ) (level : PriceLevel) (mode : StpMode) (s : Sweep) (maker : OrderNode)
      (rest : List OrderNode)
      → AtTurn user total behind level s
      → s.level.queue ≡ maker ∷ rest
      → pos 1 ≤ℤ s.incoming.remain_qty
      → AtTurn user total behind level (visit mode s maker rest).1
  AtTurn-kept behind level mode s maker rest (v, p) e w = (
    visit-InTurn user total behind s maker rest v e w mode,
    (visit-SameFrame mode s maker rest).1 ∙ p,
  )

  abbrev pub InOrderIf : Option (Bool × Matching T) → Type 0
  InOrderIf none = Unit
  InOrderIf (some (_, m)) = InOrder total m.fills

  InLine-InOrder : (m : Matching T) → InLine m → InOrder total m.fills
  InLine-InOrder m v =
      Track-InOrder total m.incoming.remain_qty m.fills (level_ids (bt.items m.opposite.tree))
        v.track

  after_level-InOrderIf :
      (m : Matching T) (level : PriceLevel) (rest : List PriceLevel)
      (k : Matching T → Option (Bool × Matching T)) (r : Option (Flow × Sweep))
      → InLine m
      → bt.items m.opposite.tree ≡ level ∷ rest
      → ((n : Matching T) → InLine n → InOrderIf (k n))
      → Ends (AtTurn user total (level_ids rest) level) r
      → InOrderIf (after_level k m r)
  after_level-InOrderIf m level rest k none v e ih p = tt
  after_level-InOrderIf m level rest k (some (again, s)) v e ih p = tt
  after_level-InOrderIf m level rest k (some (level_done, s)) v e ih p =
      ih (leave m s) (leave-InLine m level rest v e s p)
  after_level-InOrderIf m level rest k (some (stop_all, s)) v e ih p =
      InLine-InOrder (leave m s) (leave-InLine m level rest v e s p)

  pub match_loop-InOrderIf :
      (mode : StpMode) (k : ℕ) (m : Matching T) → InLine m → InOrderIf (match_loop k mode m)
  unfolding match_loop
  match_loop-InOrderIf mode zero m v = tt
  match_loop-InOrderIf mode (suc k) m v =
      go (match_loop-InOrderIf mode k) (bt.items m.opposite.tree) refl
    where
      go :
          ((n : Matching T) → InLine n → InOrderIf (match_loop k mode n))
          → (ls : List PriceLevel) → bt.items m.opposite.tree ≡ ls
          → InOrderIf (match_loop (suc k) mode m)
      go ih [] e =
          let b : best m.opposite ≡ none = best-items laws m.opposite v.tree ∙ ap head? e in
          elim (Bool-cases (is_positive m.incoming.remain_qty)) [
            | inr filled ↦ rw (filled, match_loop) (InLine-InOrder m v)
            | inl more ↦ rw (more, b, match_loop) (InLine-InOrder m v)
          ]
      go ih (level ∷ rest) e =
          let b : best m.opposite ≡ some level = best-items laws m.opposite v.tree ∙ ap head? e in
          elim (Bool-cases (is_positive m.incoming.remain_qty)) [
            | inr filled ↦ rw (filled, match_loop) (InLine-InOrder m v)
            | inl more ↦ elim (Bool-cases (crosses m.incoming level)) [
              | inr apart ↦ rw (more, b, apart, match_loop) (InLine-InOrder m v)
              | inl meets ↦
                  rw (more, b, meets, match_loop)
                    (after_level-InOrderIf m level rest (match_loop k mode)
                      (sweep_level (rounds level.queue) mode (enter m level)) v e ih
                      (sweep_level-Ends (AtTurn user total (level_ids rest) level) mode
                        (AtTurn-kept (level_ids rest) level mode) (rounds level.queue)
                        (enter m level) (enter-AtTurn m level rest v e)))
            ]
          ]
