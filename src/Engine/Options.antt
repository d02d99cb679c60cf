-- ===== src/Engine/Options.antt =====
-- engine/engine.go: the options of `New`. A size is not negative: `make` panics on a negative one.
use clob.Base.{ℕ, List, [], ◌∷◌, Option, none, some}
use clob.Config.{MarketConfig, FeeSchedule}
use clob.Book.Node.{Fill}
use clob.Fees.{FeeResult, zero_fees}
use clob.Events.{RejectionReason}
use clob.Processor.{OrderContext, Environment}
use clob.Processor.Recovery.{RecoveredOrder}

abbrev pub FeeCalculator : Type 0
FeeCalculator = FeeSchedule → Fill → Option FeeResult

abbrev pub PreOrderHook : Type 0
PreOrderHook = OrderContext → Option RejectionReason

-- The struct `options`.
pub record Settings : Type 0 where
  pub cmd_buffer : ℕ
  pub event_buffer : ℕ
  pub node_pool : ℕ
  pub level_pool : ℕ
  pub pre_hook : Option PreOrderHook
  pub fee_calc : Option FeeCalculator
  pub initial_orders : List RecoveredOrder

-- `Option` of the source.
abbrev pub EngineOption : Type 0
EngineOption = Settings → Settings

abbrev pub default_stop_pool : ℕ
default_stop_pool = 10000

unfoldable pub default_settings : Settings
default_settings = record {
  cmd_buffer = 1024;
  event_buffer = 4096;
  node_pool = 100000;
  level_pool = 10000;
  pre_hook = none;
  fee_calc = none;
  initial_orders = [];
}

unfoldable pub with_pre_order_hook : PreOrderHook → EngineOption
with_pre_order_hook h o = record o { pre_hook = some h }

unfoldable pub with_command_buffer : ℕ → EngineOption
with_command_buffer n o = record o { cmd_buffer = n }

unfoldable pub with_event_buffer : ℕ → EngineOption
with_event_buffer n o = record o { event_buffer = n }

unfoldable pub with_node_pool_size : ℕ → EngineOption
with_node_pool_size n o = record o { node_pool = n }

unfoldable pub with_level_pool_size : ℕ → EngineOption
with_level_pool_size n o = record o { level_pool = n }

unfoldable pub with_fee_calculator : FeeCalculator → EngineOption
with_fee_calculator f o = record o { fee_calc = some f }

unfoldable pub with_initial_orders : List RecoveredOrder → EngineOption
with_initial_orders orders o = record o { initial_orders = orders }

-- The options in their order, each on what those before it have left.
unfoldable pub apply_options : List EngineOption → Settings → Settings
apply_options [] o = o
apply_options (f ∷ fs) o = apply_options fs (f o)

unfoldable pub settings_of : List EngineOption → Settings
unfolding apply_options default_settings
settings_of opts = apply_options opts default_settings

-- A missing hook accepts every order, and a missing calculator takes no fees.
unfoldable pub environment_of : MarketConfig → Settings → Environment
environment_of cfg o = record {
  fee_calc = elim o.fee_calc [
    | some f ↦ f
    | none ↦ λ schedule fill.
        some (zero_fees (record { value = fill.price; precision = cfg.price_precision }))
  ];
  pre_hook = elim o.pre_hook [ some h ↦ h | none ↦ λ order. none ];
}
