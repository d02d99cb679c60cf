-- ===== src/Engine/Registry/Steps.antt =====
-- engine/multiengine.go: what may happen to the registry and its engines, one step at a time, and
-- what that leaves untouched.
use clob.Base.{ℕ, ◌≤◌, ◌≡◌, refl, ◌∙◌, List, [], Bool, true, false, Option, some, arith, length}
use clob.Base.Maps.{AllEntries}
use clob.Base.Int.{ℤ}
use clob.Config.{MarketConfig}
use clob.BTree.{BTree}
use clob.Book.Level.{PriceLevel}
use clob.StopBook.{StopLevel}
use clob.Processor.Commands.{Command}
use clob.Engine.Options.{EngineOption}
use clob.Engine.{Engine, EngineError, submit, begin_close, end_close}
use clob.Engine.Loop.{Step, submits, takes, ticks, opens, clears, closes, ends, closes_events}
use clob.Engine.Queue.{Step-IsFifo}
use clob.Engine.Registry.{
  MultiEngine, new_multi_engine, find_engine, with_engine, submit_to, close_market, create_market,
}

module _ {T S : Type 0} ⦃bt : BTree T PriceLevel⦄ ⦃st : BTree S StopLevel⦄ where
  -- A step that concerns the market `id`. `works` is a step of the market's loop: what closes an engine
  -- is CloseMarket alone.
  pub data MultiStep (m : MultiEngine T S) : ℕ → MultiEngine T S → Type 0 where
    creates :
        (now : ℤ) (cfg : MarketConfig) (opts : List EngineOption) (x : Option EngineError)
        (n : MultiEngine T S)
        → create_market now cfg opts m ≡ some (x, n)
        → MultiStep m cfg.market_id n
    routes :
        (id : ℕ) (c : Command) (x : Option EngineError) (n : MultiEngine T S)
        → submit_to id c m ≡ (x, n)
        → MultiStep m id n
    removes :
        (loop_ends : Bool) (id : ℕ) (x : Option EngineError) (n : MultiEngine T S)
        → close_market loop_ends id m ≡ some (x, n)
        → MultiStep m id n
    works :
        (id : ℕ) (e f : Engine T S) (ys : List Command)
        → find_engine id m ≡ some e
        → Step e [] ys f
        → f.quit_closed ≡ false
        → MultiStep m id (with_engine id f m)

  pub data Reaches : MultiEngine T S → Type 0 where
    empty : Reaches new_multi_engine
    one_more : {id : ℕ} {m n : MultiEngine T S} → Reaches m → MultiStep m id n → Reaches n

  -- An engine that runs the market `id`.
  pub record IsAlive (id : ℕ) (e : Engine T S) : Type 0 where
    pub market : e.cfg.market_id ≡ id
    pub started : e.started ≡ true
    pub quit_open : e.quit_closed ≡ false
    pub done_open : e.done_closed ≡ false
    pub events_open : e.events_closed ≡ false
    pub bounded : length e.commands ≤ e.command_capacity

  abbrev pub IsManaged : MultiEngine T S → Type 0
  IsManaged m = AllEntries IsAlive m.engines

  -- The flags and the configuration after a step that leaves `quit` open.
  Step-flags :
      {e f : Engine T S} {xs ys : List Command}
      → Step e xs ys f
      → f.quit_closed ≡ false
      → (f.cfg.market_id ≡ e.cfg.market_id)
        × (f.started ≡ e.started)
        × (f.done_closed ≡ e.done_closed)
        × (e.done_closed ≡ false → f.events_closed ≡ e.events_closed)
  unfolding submit begin_close end_close
  Step-flags {e} (submits c f h) q = ground arith
  Step-flags {e} (takes now c cs p r u h) q = (refl, refl, refl, λ _. refl)
  Step-flags {e} (ticks now r) q = (refl, refl, refl, λ _. refl)
  Step-flags {e} (opens now r t) q = (refl, refl, refl, λ _. refl)
  Step-flags {e} (clears now p r t h) q = (refl, refl, refl, λ _. refl)
  Step-flags {e} (closes f h) q = ground arith
  Step-flags {e} (ends r u) q = ground arith
  Step-flags {e} (closes_events f h) q = ground arith

  pub Step-IsAlive :
      {id : ℕ} {e f : Engine T S} {xs ys : List Command}
      → IsAlive id e
      → Step e xs ys f
      → f.quit_closed ≡ false
      → IsAlive id f
  Step-IsAlive v s q =
      let (same_market, same_start, same_done, same_events) = Step-flags s q in
      record {
        market = same_market ∙ v.market;
        started = same_start ∙ v.started;
        quit_open = q;
        done_open = same_done ∙ v.done_open;
        events_open = same_events v.done_open ∙ v.events_open;
        bounded = (Step-IsFifo s).bounded v.bounded;
      }
