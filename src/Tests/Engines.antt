-- ===== src/Tests/Engines.antt =====
-- Runs of the properties of engine/engine.go and engine/multiengine.go at concrete inputs.
use clob.Base.{
  ℕ, ◌≡◌, ◌≢◌, refl, ◌⊎◌, List, [], ◌∷◌, ◌++◌, Bool, true, false, Option, none, some, arith,
  get_elem?, ◌+◌,
}
use clob.Base.Int.{ℤ, pos}
use clob.Config.{MarketConfig}
use clob.Config.Validate.{with_defaults}
use clob.Events.{Event, market_resumed}
use clob.Processor.{Processor}
use clob.Processor.Commands.{Command, place_limit_order}
use clob.Processor.Session.{dispatch}
use clob.Engine.Options.{
  EngineOption, settings_of, with_command_buffer, with_node_pool_size, with_level_pool_size,
}
use clob.Engine.{Engine, Result, ok, assemble, new_engine, start, submit}
use clob.Engine.Loop.{submits, takes, Trace, rest, then_step}
use clob.Engine.Queue.{IsFifo, queue_keeps_order}
use clob.Engine.Processing.{engines_number_events}
use clob.Engine.Drain.{late_commands_are_lost}
use clob.Engine.Registry.{MultiEngine, new_multi_engine, create_market, close_all, find_engine}
use clob.Engine.Registry.Steps.{MultiStep, creates, empty, one_more}
use clob.Engine.Registry.Closing.{close_all_succeeds, markets_are_isolated}
use clob.Tests.{ListTree, list_btree}
use clob.Tests.Processor.{StopTree, limit_order}
use clob.Tests.Settings.{config}

abbrev options : List EngineOption
options = with_command_buffer 2 ∷ with_node_pool_size 3 ∷ with_level_pool_size 3 ∷ []

unfoldable made : Engine ListTree StopTree
unfolding assemble settings_of
made = assemble (with_defaults config) (settings_of options)

made_by_new : new_engine config options ≡ some (ok made)
unfolding made new_engine clob.Config.Validate.validate
made_by_new = refl

unfoldable begun : Engine ListTree StopTree
unfolding made
begun = record made { started = true }

begun_by_start : start (pos 1) made ≡ some (ok begun)
unfolding begun start clob.Processor.Recovery.seed_initial_orders with_level_pool_size
    with_node_pool_size with_command_buffer clob.Config.has_feature with_defaults
begun_by_start = refl

abbrev first : Command
first = place_limit_order limit_order

unfoldable queued : Engine ListTree StopTree
unfolding begun
queued = record begun { commands = first ∷ [] }

queued_by_submit : submit first begun ≡ ok queued
unfolding queued submit with_level_pool_size with_node_pool_size with_command_buffer
queued_by_submit = refl

abbrev result : Option (Processor ListTree StopTree) → Processor ListTree StopTree
result (some p) = p
result none = queued.processor

unfoldable handled : Engine ListTree StopTree
unfolding queued
handled = record queued {
  commands = [];
  processor = result (dispatch queued.env (pos 2) first queued.processor);
}

handled_by_dispatch : dispatch queued.env (pos 2) first queued.processor ≡ some handled.processor
unfolding handled dispatch clob.Machine.can_accept_limit_order clob.Machine.new_machine
    clob.Types.has_flag clob.Book.Orders.has_order clob.Book.Index.has clob.StopBook.has_stop
    clob.Config.has_feature with_defaults clob.Base.Int.rem64 clob.Base.Int.int64
    clob.Types.can_rest clob.Book.Orders.level_pool_full clob.Pool.is_full clob.Pool.new_slots
    with_level_pool_size with_node_pool_size with_command_buffer clob.Engine.Options.environment_of
handled_by_dispatch = refl

session : Trace begun (first ∷ []) (first ∷ []) handled
unfolding handled
session =
    then_step (then_step rest (submits first queued queued_by_submit))
      (takes (pos 2) first [] handled.processor refl refl handled_by_dispatch)

queue_keeps_order_example : IsFifo begun (first ∷ []) (first ∷ []) handled
queue_keeps_order_example = queue_keeps_order session

abbrev event_of : Option Event → Event
event_of (some e) = e
event_of none = record { seq_num = 0; timestamp = pos 0; market_id = 0; body = market_resumed }

unfoldable first_event : Event
first_event = event_of (get_elem? handled.processor.events 0)

first_event_sent : get_elem? handled.processor.events 0 ≡ some first_event
unfolding first_event handled dispatch clob.Machine.can_accept_limit_order clob.Machine.new_machine
    clob.Types.has_flag clob.Book.Orders.has_order clob.Book.Index.has clob.StopBook.has_stop
    clob.Config.has_feature with_defaults clob.Base.Int.rem64 clob.Base.Int.int64
    clob.Types.can_rest clob.Book.Orders.level_pool_full clob.Pool.is_full clob.Pool.new_slots
    with_level_pool_size with_node_pool_size with_command_buffer clob.Engine.Options.environment_of
    clob.Book.Tree.new_tree
first_event_sent = refl

engines_number_events_example : first_event.seq_num ≡ (with_defaults config).initial_event_seq + 0
unfolding with_defaults
engines_number_events_example =
    engines_number_events config options (pos 1) made begun handled (first ∷ []) (first ∷ []) 0
      first_event made_by_new begun_by_start session first_event_sent (omega arith)

abbrev no_command : List Command
no_command = []

unfoldable finished : Engine ListTree StopTree
unfolding handled
finished = record handled { done_closed = true }

unfoldable late : Engine ListTree StopTree
unfolding finished
late = record finished { commands = first ∷ [] }

late_by_submit : submit first finished ≡ ok late
unfolding late submit with_level_pool_size with_node_pool_size with_command_buffer
late_by_submit = refl

late_commands_are_lost_example :
    (no_command ≡ []) × (late.commands ≡ (finished.commands ++ first ∷ []) ++ [])
unfolding finished
late_commands_are_lost_example =
    late_commands_are_lost first finished late late [] [] refl late_by_submit rest

unfoldable registry : MultiEngine ListTree StopTree
registry = record { engines = (1, begun) ∷ [] }

created : create_market (pos 1) config options new_multi_engine ≡ some (none, registry)
unfolding registry create_market new_multi_engine clob.Config.Validate.validate
    clob.Processor.Recovery.seed_initial_orders settings_of with_level_pool_size with_node_pool_size
    with_command_buffer begun
created = refl

creation : MultiStep new_multi_engine 1 registry
creation = creates (pos 1) config options none registry created

close_all_succeeds_example : close_all (λ id. true) registry ≡ some (none, new_multi_engine)
close_all_succeeds_example =
    close_all_succeeds (λ id. true) registry (λ id. refl) (one_more empty creation)

markets_are_isolated_example : find_engine 2 registry ≡ find_engine 2 new_multi_engine
markets_are_isolated_example = markets_are_isolated 2 creation (λ h. omega (arith, h))
