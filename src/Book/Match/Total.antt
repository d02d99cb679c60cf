-- ===== src/Book/Match/Total.antt =====
-- Lemmas on the fuel of the outer loop of book/matching.go.
use clob.Base.{
  ℕ, zero, suc, ◌<◌, ◌≡◌, refl, sym, ap, subst, ◌∙◌, inl, inr, List, [], ◌∷◌, ◌++◌, Bool, false,
  arith, All, Bool-cases, Option, none, some, head?, length,
}
use clob.Base.Int.{ℤ}
use clob.Types.{StpMode}
use clob.BTree.{BTree, BTreeLaws}
use clob.Book.Node.{OrderNode}
use clob.Book.Level.{PriceLevel, is_empty}
use clob.Book.Tree.{best, delete}
use clob.Book.Tree.Laws.{IsTree, best-items, items-delete_best}
use clob.Book.Match.{
  Sweep, Flow, again, level_done, stop_all, is_positive, crosses, sweep_level, rounds, Matching,
  enter, leave, match_loop, whole_level, after_level,
}
use clob.Book.Match.Loop.{Ends, sweep_level-Ends}
use clob.Book.Match.Outer.{
  InMatch, AtLevel, AtLevel-kept, enter-AtLevel, leave-InMatch, Settled, SettledIf,
  match_loop-SettledIf,
}
use clob.Book.Match.Rounds.{IsNamed, AllNamed, Ran, sweep_level-Ran}

-- Every mode on the levels is a named one.
abbrev pub LevelsNamed : List PriceLevel → Type 0
LevelsNamed = All (λ l. AllNamed l.queue)

module _ {T : Type 0} ⦃bt : BTree T PriceLevel⦄ (laws : BTreeLaws bt) where
  abbrev Returns : Option (Bool × Matching T) → Type 0
  Returns none = ⊥
  Returns (some r) = Unit

  filled-Returns :
      (k : ℕ) (mode : StpMode) (m : Matching T)
      → 0 < k
      → is_positive m.incoming.remain_qty ≡ false
      → Returns (match_loop k mode m)
  unfolding match_loop
  filled-Returns zero mode m h e = elim h [ ]
  filled-Returns (suc k) mode m h e = rw e tt

  -- A level that was used up is gone.
  leave-items :
      (m : Matching T) (s : Sweep) (level : PriceLevel) (rest : List PriceLevel)
      → IsTree m.opposite
      → bt.items m.opposite.tree ≡ level ∷ rest
      → s.level.price ≡ level.price
      → (s.passed ++ s.level.queue) ≡ []
      → bt.items (leave m s).opposite.tree ≡ rest
  unfolding leave whole_level
  leave-items m s level rest v e p q = rw q (
      subst (λ x. bt.items (delete m.opposite x).tree ≡ rest) (sym p)
        (items-delete_best laws m.opposite level rest v e))

  leave-incoming : (m : Matching T) (s : Sweep) → (leave m s).incoming ≡ s.incoming
  unfolding leave
  leave-incoming m s = elim (Bool-cases (is_empty (whole_level s))) [
    | inl gone ↦ rw gone
    | inr kept ↦ rw kept
  ]

  module _ (terms : OrderNode) (start : ℤ) (mode : StpMode) (n : IsNamed mode)
      (i : IsNamed terms.stp_mode) where
    after_level-Returns :
        (k : ℕ) (m : Matching T) (level : PriceLevel) (rest : List PriceLevel)
        (r : Option (Flow × Sweep))
        → InMatch terms start m
        → bt.items m.opposite.tree ≡ level ∷ rest
        → LevelsNamed rest
        → length rest < k
        → Ends (AtLevel terms start level) r
        → Ran r
        → ((m' : Matching T)
            → InMatch terms start m'
            → LevelsNamed (bt.items m'.opposite.tree)
            → length (bt.items m'.opposite.tree) < k
            → Returns (match_loop k mode m'))
        → Returns (after_level (match_loop k mode) m r)
    after_level-Returns k m level rest none v e l h p z ih = z
    after_level-Returns k m level rest (some (again, s)) v e l h p z ih = z
    after_level-Returns k m level rest (some (stop_all, s)) v e l h p z ih = tt
    after_level-Returns k m level rest (some (level_done, s)) v e l h p (inl empty) ih =
        let q = leave-items m s level rest v.tree e p.2 empty in
        ih (leave m s) (leave-InMatch laws terms start m level rest s v e p)
          (subst LevelsNamed (sym q) l) (rw q h)
    after_level-Returns k m level rest (some (level_done, s)) v e l h p (inr filled) ih =
        filled-Returns k mode (leave m s) (omega arith) (rw (leave-incoming m s) filled)

    match_loop-Returns :
        (k : ℕ) (m : Matching T)
        → InMatch terms start m
        → LevelsNamed (bt.items m.opposite.tree)
        → length (bt.items m.opposite.tree) < k
        → Returns (match_loop k mode m)
    unfolding match_loop
    match_loop-Returns zero m v l h = elim h [ ]
    match_loop-Returns (suc k) m v l h = go (match_loop-Returns k) (bt.items m.opposite.tree) refl
      where
        go :
            ((m' : Matching T)
              → InMatch terms start m'
              → LevelsNamed (bt.items m'.opposite.tree)
              → length (bt.items m'.opposite.tree) < k
              → Returns (match_loop k mode m'))
            → (ls : List PriceLevel) → bt.items m.opposite.tree ≡ ls
            → Returns (match_loop (suc k) mode m)
        go ih [] e =
            let b : best m.opposite ≡ none = best-items laws m.opposite v.tree ∙ ap head? e in
            elim (Bool-cases (is_positive m.incoming.remain_qty)) [
              | inr filled ↦ rw (filled, match_loop) tt
              | inl more ↦ rw (more, b, match_loop) tt
            ]
        go ih (level ∷ rest) e =
            let b : best m.opposite ≡ some level = best-items laws m.opposite v.tree ∙ ap head? e in
            let named = subst LevelsNamed e l in
            elim (Bool-cases (is_positive m.incoming.remain_qty)) [
              | inr filled ↦ rw (filled, match_loop) tt
              | inl more ↦ elim (Bool-cases (crosses m.incoming level)) [
                | inr apart ↦ rw (more, b, apart, match_loop) tt
                | inl meets ↦
                    let at = enter-AtLevel terms start m level rest v e meets in
                    rw (more, b, meets, match_loop)
                      (after_level-Returns k m level rest
                        (sweep_level (rounds level.queue) mode (enter m level)) v e named.1
                        (omega (arith, ap length e))
                        (sweep_level-Ends (AtLevel terms start level) mode
                          (AtLevel-kept terms start level mode) (rounds level.queue) (enter m level)
                          at)
                        (sweep_level-Ran terms start mode n (rounds level.queue) (enter m level)
                          at.0
                          (record { at_head = refl; named = named.0; taker_named = rw v.same.3 i })
                          (omega arith))
                        ih)
              ]
            ]

    -- The loops return, and what they return is settled.
    pub match_loop_total :
        (k : ℕ) (m : Matching T)
        → InMatch terms start m
        → LevelsNamed (bt.items m.opposite.tree)
        → length (bt.items m.opposite.tree) < k
        → (b : Bool) × (r : Matching T) × (match_loop k mode m ≡ some (b, r))
          × Settled laws terms start b r
    match_loop_total k m v l h =
        go (match_loop k mode m) refl (match_loop-Returns k m v l h)
          (match_loop-SettledIf laws terms start mode k m v)
      where
        go :
            (r : Option (Bool × Matching T))
            → match_loop k mode m ≡ r
            → Returns r
            → SettledIf laws terms start r
            → (b : Bool) × (q : Matching T) × (match_loop k mode m ≡ some (b, q))
              × Settled laws terms start b q
        go none e x y = absurd x
        go (some (b, q)) e x y = (b, q, e, y)
