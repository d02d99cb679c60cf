-- ===== src/Engine/Registry/Closing.antt =====
-- engine/multiengine.go: `Close` of the registry, and what a call for one market leaves alone.
use clob.Base.{
  ℕ, ◌≡◌, ◌≢◌, refl, subst, List, [], ◌∷◌, true, Bool, Option, none, some, ◌>>=◌, arith,
  Option-cases, inl, inr,
}
use clob.Base.Maps.{find_at, keys, AllEntries, find_at-put_at, find_at-remove_at, remove_at_missing}
use clob.Base.Int.{ℤ}
use clob.Config.{MarketConfig}
use clob.BTree.{BTree}
use clob.Book.Level.{PriceLevel}
use clob.StopBook.{StopLevel}
use clob.Processor.Commands.{Command}
use clob.Engine.Options.{EngineOption}
use clob.Engine.{Engine, EngineError, Result, ok, err, new_engine, start, submit}
use clob.Engine.Registry.{
  MultiEngine, new_multi_engine, find_engine, settle, submit_to, close, close_market, close_each,
  close_all, create_market,
}
use clob.Engine.Registry.Steps.{MultiStep, creates, routes, removes, works, Reaches, IsAlive}
use clob.Engine.Registry.Created.{registry-IsManaged}

module _ {T S : Type 0} ⦃bt : BTree T PriceLevel⦄ ⦃st : BTree S StopLevel⦄ where
  close_alive :
      (id : ℕ) (e : Engine T S) → IsAlive id e → (g : Engine T S) × (close true e ≡ some (ok g))
  unfolding close
  close_alive id e v = (
    record e { quit_closed = true; done_closed = true; events_closed = true },
    ground (arith, v.started, v.quit_open, v.events_open),
  )

  close_first :
      (id : ℕ) (e : Engine T S) (xs : List (ℕ × Engine T S))
      → find_at xs id ≡ none
      → IsAlive id e
      → close_market true id (record { engines = (id, e) ∷ xs })
        ≡ some (none, record { engines = xs })
  unfolding close_market
  close_first id e xs h v =
      let (g, closed) = close_alive id e v in ground (arith, closed, remove_at_missing xs id h)

  close_entries :
      (loop_ends : ℕ → Bool) (xs : List (ℕ × Engine T S))
      → ((id : ℕ) → loop_ends id ≡ true)
      → AllEntries IsAlive xs
      → close_each loop_ends (keys xs) (record { engines = xs })
        ≡ some (none, record { engines = [] })
  unfolding close_each
  close_entries loop_ends [] all v = refl
  close_entries loop_ends ((id, e) ∷ xs) all (h, a, v) =
      rw (all id, close_first id e xs h a) (close_entries loop_ends xs all v)

  -- Let the loop of every engine end once its `quit` is closed, which asks that what it sends is read.
  -- Then Close of a registry that is reached from an empty one returns, neither panics nor gives an
  -- error, and leaves no market.
  pub close_all_succeeds :
      (loop_ends : ℕ → Bool) (m : MultiEngine T S)
      → ((id : ℕ) → loop_ends id ≡ true)
      → Reaches m
      → close_all loop_ends m ≡ some (none, new_multi_engine)
  unfolding close_all new_multi_engine
  close_all_succeeds loop_ends m all r =
      close_entries loop_ends m.engines all (registry-IsManaged r)

  abbrev Leaves : ℕ → MultiEngine T S → MultiEngine T S → Type 0
  Leaves j m n = find_engine j n ≡ find_engine j m

  abbrev LeavesIf : ℕ → MultiEngine T S → Option (Option EngineError × MultiEngine T S) → Type 0
  LeavesIf j m none = Unit
  LeavesIf j m (some (x, n)) = Leaves j m n

  settle-Leaves :
      (id j : ℕ) (m : MultiEngine T S) (r : Result (Engine T S))
      → j ≢ id
      → Leaves j m ((settle id m r).1)
  settle-Leaves id j m (ok e) d = ground (arith, find_at-put_at m.engines id j e)
  settle-Leaves id j m (err x) d = refl

  created-LeavesIf :
      (now : ℤ) (id j : ℕ) (m : MultiEngine T S) (r : Result (Engine T S))
      → j ≢ id
      → LeavesIf j m
          (elim r [ err x ↦ some (some x, m) | ok e ↦ start now e >>= λ s. some (settle id m s) ])
  created-LeavesIf now id j m (err x) d = refl
  created-LeavesIf now id j m (ok e) d = elim (Option-cases (start now e)) [
    | inl k ↦ rw (k, LeavesIf) tt
    | inr (r, k) ↦ rw (k, LeavesIf) (settle-Leaves id j m r d)
  ]

  create_market-LeavesIf :
      (now : ℤ) (cfg : MarketConfig) (opts : List EngineOption) (j : ℕ) (m : MultiEngine T S)
      → j ≢ cfg.market_id
      → LeavesIf j m (create_market now cfg opts m)
  unfolding create_market
  create_market-LeavesIf now cfg opts j m d = elim (Option-cases (find_engine cfg.market_id m)) [
    | inr (e, h) ↦ rw (h, LeavesIf) refl
    | inl h ↦ elim (Option-cases (new_engine {T = T} {S = S} cfg opts)) [
      | inl k ↦ rw (h, k, LeavesIf) tt
      | inr (r, k) ↦ rw (h, k, LeavesIf) (created-LeavesIf now cfg.market_id j m r d)
    ]
  ]

  submit_to-Leaves :
      (id j : ℕ) (c : Command) (m : MultiEngine T S) → j ≢ id → Leaves j m ((submit_to id c m).1)
  unfolding submit_to
  submit_to-Leaves id j c m d = elim (Option-cases (find_engine id m)) [
    | inl h ↦ rw (h, submit_to) refl
    | inr (e, h) ↦ rw (h, submit_to) (settle-Leaves id j m (submit c e) d)
  ]

  close_market-LeavesIf :
      (loop_ends : Bool) (id j : ℕ) (m : MultiEngine T S)
      → j ≢ id
      → LeavesIf j m (close_market loop_ends id m)
  unfolding close_market
  close_market-LeavesIf loop_ends id j m d = elim (Option-cases (find_engine id m)) [
    | inl h ↦ rw (h, LeavesIf) refl
    | inr (e, h) ↦ elim (Option-cases (close loop_ends e)) [
      | inl k ↦ rw (h, k, LeavesIf) tt
      | inr (r, k) ↦ rw (h, k, LeavesIf) (ground (arith, find_at-remove_at m.engines id j))
    ]
  ]

  -- A step that concerns one market, be it a call of CreateMarket, Submit or CloseMarket, whether it gives
  -- an error or not, or a step of the market's loop, leaves the engine of every other market as it is, and
  -- creates and removes none.
  pub markets_are_isolated :
      {id : ℕ} (j : ℕ) {m n : MultiEngine T S}
      → MultiStep m id n
      → j ≢ id
      → find_engine j n ≡ find_engine j m
  markets_are_isolated j {m} (creates now cfg opts x n h) d =
      subst (LeavesIf j m) h (create_market-LeavesIf now cfg opts j m d)
  markets_are_isolated j {m} (routes id c x n h) d =
      subst (λ r. Leaves j m (r.1)) h (submit_to-Leaves id j c m d)
  markets_are_isolated j {m} (removes ends id x n h) d =
      subst (LeavesIf j m) h (close_market-LeavesIf ends id j m d)
  markets_are_isolated j {m} (works id e f ys h s q) d =
      ground (arith, find_at-put_at m.engines id j f)
