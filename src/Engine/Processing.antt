-- ===== src/Engine/Processing.antt =====
-- engine/engine.go: what the loop of an engine makes of its processor.
use clob.Base.{
  ℕ, suc, ◌++◌, ◌+◌, ◌<◌, ◌^◌, ◌≡◌, refl, sym, ap, subst, ◌∙◌, List, [], false, some, arith,
  get_elem?,
}
use clob.Base.Int.{ℤ}
use clob.Config.{MarketConfig}
use clob.Config.Validate.{validate, with_defaults, validate-IsUsable}
use clob.BTree.{BTree}
use clob.Book.Level.{PriceLevel}
use clob.StopBook.{StopLevel}
use clob.Events.{Event}
use clob.Processor.{Processor, Environment}
use clob.Processor.Commands.{Command}
use clob.Processor.Seeding.{seed_initial_orders-IsQuiet}
use clob.Processor.Recovery.{seed_initial_orders}
use clob.Sequence.{new_counter, advance, new_counter-advance}
use clob.Processor.Log.{Extends}
use clob.Processor.Log.Handlers.{Runs-Extends}
use clob.Processor.Log.Numbering.{Numbered-get_elem?}
use clob.Processor.Session.{Runs, idle, turn, command, expiry_tick, auction_opens, auction_clears}
use clob.Engine.Options.{EngineOption, settings_of}
use clob.Engine.{Engine, ok, assemble, new_engine, start}
use clob.Engine.Loop.{
  Step, submits, takes, ticks, opens, clears, closes, ends, closes_events, Trace, rest, then_step,
}
use clob.Engine.Queue.{Keeps, begin_close-Keeps, end_close-Keeps, submit_accepts}

module _ {T S : Type 0} ⦃bt : BTree T PriceLevel⦄ ⦃st : BTree S StopLevel⦄ where
  -- From the processor of `e`, the loop of the processor comes to that of `f`.
  abbrev Follows : Engine T S → Engine T S → Type 0
  Follows e f = (f.env ≡ e.env) × Runs e.env e.processor f.processor

  Keeps-Follows : (e f : Engine T S) → Keeps e f → Follows e f
  Keeps-Follows e f k = (k.env, subst (Runs e.env e.processor) (sym k.processor) idle)

  Step-Follows : {e f : Engine T S} {xs ys : List Command} → Step e xs ys f → Follows e f
  Step-Follows {e} (submits c f h) =
      subst (Follows e) (sym ((submit_accepts c e f h).1)) (refl, idle)
  Step-Follows (takes now c cs p r h d) = (refl, turn idle (command now c p d))
  Step-Follows (ticks now r) = (refl, turn idle (expiry_tick now _ refl))
  Step-Follows (opens now r t) = (refl, turn idle (auction_opens now _ refl))
  Step-Follows (clears now p r t h) = (refl, turn idle (auction_clears now p h))
  Step-Follows {e} (closes f h) = Keeps-Follows e f (begin_close-Keeps e f h)
  Step-Follows (ends r q) = (refl, idle)
  Step-Follows {e} (closes_events f h) = Keeps-Follows e f (end_close-Keeps e f h)

  Runs-append :
      {env : Environment} {p q r : Processor T S} → Runs env p q → Runs env q r → Runs env p r
  Runs-append a idle = a
  Runs-append a (turn b t) = turn (Runs-append a b) t

  -- Every run of an engine is a run of the loop of its processor, in the same environment.
  pub Trace-Follows : {e f : Engine T S} {xs ys : List Command} → Trace e xs ys f → Follows e f
  Trace-Follows rest = (refl, idle)
  Trace-Follows {e} (then_step {f = f} {g = g} t s) =
      let v = Trace-Follows t in
      let w = Step-Follows s in
      (w.0 ∙ v.0, Runs-append v.1 (subst (λ env. Runs env f.processor g.processor) v.0 w.1))

  -- What `Start` does if it succeeds.
  pub record IsStarted (now : ℤ) (e f : Engine T S) : Type 0 where
    pub fresh : e.started ≡ false
    pub env : f.env ≡ e.env
    pub commands : f.commands ≡ e.commands
    pub seeded : seed_initial_orders now e.initial_orders e.processor ≡ some f.processor

  pub start-IsStarted : (now : ℤ) (e f : Engine T S) → start now e ≡ some (ok f) → IsStarted now e f
  unfolding start
  start-IsStarted now e f h = ground arith

  pub new_engine-assemble :
      (c : MarketConfig) (opts : List EngineOption) (e : Engine T S)
      → new_engine c opts ≡ some (ok e)
      → (validate c ≡ some (some e.cfg)) × (e ≡ assemble e.cfg (settings_of opts))
  unfolding new_engine
  new_engine-assemble c opts e h = ground arith

  -- A started engine has sent nothing, and its first event number is that of the configuration.
  started_log :
      (c : MarketConfig) (opts : List EngineOption) (now : ℤ) (e f : Engine T S)
      → new_engine c opts ≡ some (ok e)
      → start now e ≡ some (ok f)
      → (f.processor.events ≡ [])
        × (f.processor.event_seq ≡ new_counter (with_defaults c).initial_event_seq)
        × (0 < (with_defaults c).initial_event_seq)
  unfolding assemble
  started_log c opts now e f made began =
      let (valid, built) = new_engine-assemble c opts e made in
      let quiet =
        seed_initial_orders-IsQuiet now e.initial_orders e.processor f.processor
          (start-IsStarted now e f began).seeded in
      let (same, usable) = validate-IsUsable c e.cfg valid in
      (
        quiet.events ∙ ap (λ x. x.processor.events) built,
        quiet.event_seq
            ∙ ap (λ x. x.processor.event_seq) built
            ∙ ap (λ x. new_counter x.initial_event_seq) same,
        subst (λ x. 0 < x.initial_event_seq) same usable.event_seq,
      )

  -- Take an engine that New has made from a configuration, with any options, and that Start has
  -- started, recovered orders included. In every run of it, the event at position `k` of what it has sent
  -- has the number `initial_event_seq + k`, where an initial number of 0 stands for 1, as long as
  -- the sum is below 2 ^ 64.
  pub engines_number_events :
      (c : MarketConfig) (opts : List EngineOption) (now : ℤ) (e f g : Engine T S)
      (xs ys : List Command) (k : ℕ) (ev : Event)
      → new_engine c opts ≡ some (ok e)
      → start now e ≡ some (ok f)
      → Trace f xs ys g
      → get_elem? g.processor.events k ≡ some ev
      → (with_defaults c).initial_event_seq + k < 2 ^ 64
      → ev.seq_num ≡ (with_defaults c).initial_event_seq + k
  engines_number_events c opts now e f g xs ys k ev made began t at fits =
      let (none_sent, first, positive) = started_log c opts now e f made began in
      let v : Extends (λ _. Unit) f.processor g.processor =
        Runs-Extends (λ _. Unit) (λ _. tt) ((Trace-Follows t).1) in
      Numbered-get_elem? f.processor.event_seq g.processor.event_seq v.added k ev v.numbered
        (subst (λ l. get_elem? l k ≡ some ev) (v.appended ∙ ap (λ l. l ++ v.added) none_sent) at)
      ∙ ap (λ s. (advance (suc k) s).n) first
      ∙ new_counter-advance (with_defaults c).initial_event_seq k positive fits
