-- ===== src/Engine/Registry.antt =====
-- engine/multiengine.go: the engines of all markets. What holds the lock is one step. A call gives the
-- error, if there is one, and the registry that it leaves; `none` is a panic, or a wait without end.
pub mod Steps
pub mod Created
pub mod Closing
use clob.Base.{ℕ, List, [], ◌∷◌, Bool, Option, none, some, ◌>>=◌}
use clob.Base.Maps.{find_at, put_at, remove_at, keys}
use clob.Base.Int.{ℤ}
use clob.Config.{MarketConfig}
use clob.BTree.{BTree}
use clob.Book.Level.{PriceLevel}
use clob.Book.Tree.{DepthLevel}
use clob.StopBook.{StopLevel}
use clob.Events.{Event}
use clob.Processor.Commands.{Command}
use clob.Engine.Options.{EngineOption}
use clob.Engine.{
  Engine, EngineStats, EngineError, market_not_found, market_already_exists, Result, ok, err,
  new_engine, start, submit, begin_close, end_close, engine_snapshot, engine_bbo, stats,
}

pub record MultiEngine (T S : Type 0) : Type 0 where
  pub engines : List (ℕ × Engine T S)

module _ {T S : Type 0} where
  unfoldable pub new_multi_engine : MultiEngine T S
  new_multi_engine = record { engines = [] }

  abbrev pub find_engine : ℕ → MultiEngine T S → Option (Engine T S)
  find_engine id m = find_at m.engines id

  abbrev pub with_engine : ℕ → Engine T S → MultiEngine T S → MultiEngine T S
  with_engine id e m = record { engines = put_at m.engines id e }

  -- A result for one engine, put back where the engine was.
  abbrev pub settle :
      ℕ → MultiEngine T S → Result (Engine T S) → Option EngineError × MultiEngine T S
  settle id m (ok e) = (none, with_engine id e m)
  settle id m (err x) = (some x, m)

  unfoldable pub submit_to : ℕ → Command → MultiEngine T S → Option EngineError × MultiEngine T S
  unfolding submit
  submit_to id c m = elim (find_engine id m) [
    | none ↦ (some market_not_found, m)
    | some e ↦ settle id m (submit c e)
  ]

  -- An answer that reads one engine.
  abbrev pub ask_engine : {A : Type 0} → (Engine T S → A) → ℕ → MultiEngine T S → Result A
  ask_engine f id m = elim (find_engine id m) [ none ↦ err market_not_found | some e ↦ ok (f e) ]

  -- What the channel of `Events` carries is what the engine's processor has sent.
  unfoldable pub events_of : ℕ → MultiEngine T S → Result (List Event)
  events_of id m = ask_engine (λ e. e.processor.events) id m

  -- The markets whose events `AllEvents` merges: those that exist at the call.
  unfoldable pub merged_markets : MultiEngine T S → List ℕ
  merged_markets m = keys m.engines

  -- `Close` of an engine. Whether its loop ends is told: it does not while it waits for room in the
  -- channel of events that nobody reads, and the wait for `done` then has no end, which is `none`.
  unfoldable pub close : Bool → Engine T S → Option (Result (Engine T S))
  unfolding begin_close end_close
  close loop_ends e = begin_close e >>= λ r. elim r [
    | err x ↦ some (err x)
    | ok f ↦ end_close (record f { done_closed = loop_ends }) >>= λ g. some (ok g)
  ]

  abbrev closing_error : Result (Engine T S) → Option EngineError
  closing_error (ok e) = none
  closing_error (err x) = some x

  -- The market is gone also where Close fails.
  unfoldable pub close_market :
      Bool → ℕ → MultiEngine T S → Option (Option EngineError × MultiEngine T S)
  unfolding close
  close_market loop_ends id m = elim (find_engine id m) [
    | none ↦ some (some market_not_found, m)
    | some e ↦ close loop_ends e >>= λ r.
        some (closing_error r, record { engines = remove_at m.engines id })
  ]

  unfoldable pub close_each :
      (ℕ → Bool) → List ℕ → MultiEngine T S → Option (Option EngineError × MultiEngine T S)
  unfolding close_market
  close_each loop_ends [] m = some (none, m)
  close_each loop_ends (id ∷ ids) m = close_market (loop_ends id) id m >>= λ r. elim (r.0) [
    | some x ↦ some (some x, r.1)
    | none ↦ close_each loop_ends ids (r.1)
  ]

  unfoldable pub close_all :
      (ℕ → Bool) → MultiEngine T S → Option (Option EngineError × MultiEngine T S)
  unfolding close_each
  close_all loop_ends m = close_each loop_ends (keys m.engines) m

module _ {T S : Type 0} ⦃bt : BTree T PriceLevel⦄ ⦃st : BTree S StopLevel⦄ where
  unfoldable pub create_market :
      ℤ
      → MarketConfig
      → List EngineOption
      → MultiEngine T S
      → Option (Option EngineError × MultiEngine T S)
  unfolding new_engine start
  create_market now cfg opts m = elim (find_engine cfg.market_id m) [
    | some e ↦ some (some market_already_exists, m)
    | none ↦ new_engine cfg opts >>= λ r. elim r [
      | err x ↦ some (some x, m)
      | ok e ↦ start now e >>= λ s. some (settle cfg.market_id m s)
    ]
  ]

  unfoldable pub stats_of : ℕ → MultiEngine T S → Result EngineStats
  unfolding stats
  stats_of id m = ask_engine stats id m

  unfoldable pub snapshot_of : ℕ → ℕ → MultiEngine T S → Result (List DepthLevel × List DepthLevel)
  unfolding engine_snapshot
  snapshot_of id levels m = ask_engine (engine_snapshot levels) id m

  unfoldable pub bbo_of : ℕ → MultiEngine T S → Result (Option ℤ × Option ℤ)
  unfolding engine_bbo
  bbo_of id m = ask_engine engine_bbo id m
