-- ===== src/Machine.antt =====
-- statemachine/: the states of a market and the moves between them.
pub mod Lifecycle
use clob.Base.{Bool, true, false, Option, none, some, if◌then◌else◌}

pub data MarketState : Type 0 where
  pre_open auction open_state halted closed : MarketState

-- `CanTransition`: `validTransitions` holds the moves that are true here.
unfoldable pub can_transition : MarketState → MarketState → Bool
can_transition pre_open pre_open = false
can_transition pre_open _ = true
can_transition auction open_state = true
can_transition auction halted = true
can_transition auction closed = true
can_transition auction _ = false
can_transition open_state halted = true
can_transition open_state closed = true
can_transition open_state _ = false
can_transition halted halted = false
can_transition halted _ = true
can_transition closed pre_open = true
can_transition closed _ = false

pub record Machine : Type 0 where
  pub state : MarketState

unfoldable pub new_machine : Machine
new_machine = record { state = pre_open }

-- `none` for ErrInvalidTransition, which leaves the machine as it is.
unfoldable pub transition : Machine → MarketState → Option Machine
unfolding can_transition
transition m to = if can_transition m.state to then some (record m { state = to }) else none

unfoldable pub can_accept_limit_order : Machine → Bool
can_accept_limit_order m = elim m.state [ closed ↦ false | _ ↦ true ]

unfoldable pub can_accept_market_order : Machine → Bool
can_accept_market_order m = elim m.state [ open_state ↦ true | _ ↦ false ]

unfoldable pub can_accept_stop_order : Machine → Bool
can_accept_stop_order m = elim m.state [ open_state ↦ true | halted ↦ true | _ ↦ false ]

unfoldable pub can_match : Machine → Bool
can_match m = elim m.state [ open_state ↦ true | auction ↦ true | _ ↦ false ]

unfoldable pub can_cancel : Machine → Bool
can_cancel m = true
