-- ===== src/Engine/Registry/Created.antt =====
-- engine/multiengine.go: the registry keeps running engines only, each under its own market.
use clob.Base.{
  Bool, ℕ, ◌≡◌, refl, ap, subst, ◌∙◌, List, [], true, false, Option, none, some, ◌>>=◌, arith,
  Option-cases, inl, inr,
}
use clob.Base.Maps.{AllEntries-find_at, AllEntries-put_at, AllEntries-remove_at}
use clob.Base.Int.{ℤ}
use clob.Config.{MarketConfig}
use clob.BTree.{BTree}
use clob.Book.Level.{PriceLevel}
use clob.StopBook.{StopLevel}
use clob.Processor.Commands.{Command}
use clob.Engine.Options.{EngineOption}
use clob.Engine.{
  Engine, EngineError, market_already_exists, Result, ok, err, assemble, new_engine, start, submit,
}
use clob.Engine.Loop.{submits}
use clob.Config.Validate.{with_defaults, validate-IsUsable}
use clob.Engine.Processing.{new_engine-assemble}
use clob.Engine.Registry.{
  MultiEngine, new_multi_engine, find_engine, settle, submit_to, close, close_market, create_market,
}
use clob.Engine.Queue.{submit_accepts}
use clob.Engine.Registry.Steps.{
  MultiStep, creates, routes, removes, works, Reaches, empty, one_more, IsAlive, IsManaged,
  Step-IsAlive,
}

module _ {T S : Type 0} ⦃bt : BTree T PriceLevel⦄ ⦃st : BTree S StopLevel⦄ where
  start_flags :
      (now : ℤ) (e f : Engine T S)
      → start now e ≡ some (ok f)
      → (f.cfg ≡ e.cfg)
        × (f.started ≡ true)
        × (f.quit_closed ≡ e.quit_closed)
        × (f.done_closed ≡ e.done_closed)
        × (f.events_closed ≡ e.events_closed)
        × (f.commands ≡ e.commands)
  unfolding start
  start_flags now e f h = ground arith

  new_flags :
      (cfg : MarketConfig) (opts : List EngineOption) (e : Engine T S)
      → new_engine cfg opts ≡ some (ok e)
      → (e.cfg.market_id ≡ cfg.market_id)
        × (e.quit_closed ≡ false)
        × (e.done_closed ≡ false)
        × (e.events_closed ≡ false)
        × (e.commands ≡ [])
  unfolding assemble with_defaults
  new_flags cfg opts e h =
      let (valid, built) = new_engine-assemble cfg opts e h in
      let (same, _) = validate-IsUsable cfg e.cfg valid in
      (
        ap (λ c. c.market_id) same,
        ap (λ x. x.quit_closed) built,
        ap (λ x. x.done_closed) built,
        ap (λ x. x.events_closed) built,
        ap (λ x. x.commands) built,
      )

  created-IsAlive :
      (now : ℤ) (cfg : MarketConfig) (opts : List EngineOption) (e f : Engine T S)
      → new_engine cfg opts ≡ some (ok e)
      → start now e ≡ some (ok f)
      → IsAlive cfg.market_id f
  created-IsAlive now cfg opts e f h k =
      let (market, quit, done, events, queue) = new_flags cfg opts e h in
      let (same, begun, same_quit, same_done, same_events, same_queue) = start_flags now e f k in
      record {
        market = ap (λ c. c.market_id) same ∙ market;
        started = begun;
        quit_open = same_quit ∙ quit;
        done_open = same_done ∙ done;
        events_open = same_events ∙ events;
        bounded = rw (same_queue, queue) (omega arith);
      }

  abbrev ManagedIf : Option (Option EngineError × MultiEngine T S) → Type 0
  ManagedIf none = Unit
  ManagedIf (some (x, n)) = IsManaged n

  settle-IsManaged :
      (id : ℕ) (m : MultiEngine T S) (r : Result (Engine T S))
      → IsManaged m
      → ((e : Engine T S) → r ≡ ok e → IsAlive id e)
      → IsManaged ((settle id m r).1)
  settle-IsManaged id m (ok e) v f = AllEntries-put_at IsAlive m.engines id e v (f e refl)
  settle-IsManaged id m (err x) v f = v

  create_market-ManagedIf :
      (now : ℤ) (cfg : MarketConfig) (opts : List EngineOption) (m : MultiEngine T S)
      → IsManaged m
      → ManagedIf (create_market now cfg opts m)
  unfolding create_market
  create_market-ManagedIf now cfg opts m v = from (find_engine cfg.market_id m)
    where
      begun :
          (e : Engine T S)
          → new_engine cfg opts ≡ some (ok e)
          → ManagedIf (start now e >>= λ s. some (settle cfg.market_id m s))
      begun e h = elim (Option-cases (start now e)) [
        | inl k ↦ rw (k, ManagedIf) tt
        | inr (r, k) ↦
            rw (k, ManagedIf)
              (settle-IsManaged cfg.market_id m r v
                (λ f w. created-IsAlive now cfg opts e f h (k ∙ ap some w)))
      ]

      made :
          (r : Result (Engine T S))
          → new_engine cfg opts ≡ some r
          → ManagedIf (elim r [
            | err x ↦ some (some x, m)
            | ok e ↦ start now e >>= λ s. some (settle cfg.market_id m s)
          ])
      made (err x) h = v
      made (ok e) h = begun e h

      from :
          (o : Option (Engine T S))
          → ManagedIf (elim o [
            | some e ↦ some (some market_already_exists, m)
            | none ↦ new_engine cfg opts >>= λ r. elim r [
              | err x ↦ some (some x, m)
              | ok e ↦ start now e >>= λ s. some (settle cfg.market_id m s)
            ]
          ])
      from (some e) = v
      from none = elim (Option-cases (new_engine {T = T} {S = S} cfg opts)) [
        | inl h ↦ rw (h, ManagedIf) tt
        | inr (r, h) ↦ rw (h, ManagedIf) (made r h)
      ]

  submit_to-IsManaged :
      (id : ℕ) (c : Command) (m : MultiEngine T S) → IsManaged m → IsManaged ((submit_to id c m).1)
  unfolding submit_to
  submit_to-IsManaged id c m v = elim (Option-cases (find_engine id m)) [
    | inl h ↦ rw (h, submit_to) v
    | inr (e, h) ↦
        let alive : IsAlive id e = AllEntries-find_at IsAlive m.engines id e v h in
        rw (h, submit_to)
          (settle-IsManaged id m (submit c e) v (λ f k.
            Step-IsAlive alive (submits c f k)
              (ap (λ x. x.quit_closed) ((submit_accepts c e f k).1) ∙ alive.quit_open)))
  ]

  close_market-ManagedIf :
      (loop_ends : Bool) (id : ℕ) (m : MultiEngine T S)
      → IsManaged m
      → ManagedIf (close_market loop_ends id m)
  unfolding close_market
  close_market-ManagedIf loop_ends id m v = elim (Option-cases (find_engine id m)) [
    | inl h ↦ rw (h, ManagedIf) v
    | inr (e, h) ↦ elim (Option-cases (close loop_ends e)) [
      | inl k ↦ rw (h, k, ManagedIf) tt
      | inr (r, k) ↦ rw (h, k, ManagedIf) (AllEntries-remove_at IsAlive m.engines id v)
    ]
  ]

  step-IsManaged : {id : ℕ} {m n : MultiEngine T S} → MultiStep m id n → IsManaged m → IsManaged n
  step-IsManaged {m = m} (creates now cfg opts x n h) v =
      subst ManagedIf h (create_market-ManagedIf now cfg opts m v)
  step-IsManaged {m = m} (routes id c x n h) v =
      subst (λ r. IsManaged (r.1)) h (submit_to-IsManaged id c m v)
  step-IsManaged {m = m} (removes ends id x n h) v =
      subst ManagedIf h (close_market-ManagedIf ends id m v)
  step-IsManaged {m = m} (works id e f ys h s q) v =
      AllEntries-put_at IsAlive m.engines id f v
        (Step-IsAlive (AllEntries-find_at IsAlive m.engines id e v h) s q)

  -- In every registry that is reached from an empty one, no market has two engines, and each
  -- engine was made for the market it is listed under, was started, is not closed, and has no more commands
  -- queued than its channel holds.
  pub registry-IsManaged : {m : MultiEngine T S} → Reaches m → IsManaged m
  unfolding new_multi_engine
  registry-IsManaged empty = tt
  registry-IsManaged (one_more rs s) = step-IsManaged s (registry-IsManaged rs)
