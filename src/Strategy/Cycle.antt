-- ===== src/Strategy/Cycle.antt =====
-- The daily cycle: `run_daily_cycle`, `confirm_cycle_outcome` and `_apply_pending_commands` of
-- src/etf_platform/strategy_engine/strategy.py. The ports of ports.py are parameters; a call of one
-- that has an effect outside is recorded, also if it raises.
pub mod Reminders
pub mod Months
pub mod Calls
pub mod Proposals
use etf_platform_paper_mode.Common.{
  ℕ, ◌*◌, ◌==◌, Bool, true, false, ◌&&◌, ◌||◌, Option, none, some, List, [], ◌∷◌, ◌++◌, Result, ok,
  raised, Exec, pure, lift, ◌>>=◌, ◌>>◌, if◌then◌else◌,
}
use etf_platform_paper_mode.Common.Dict.{Dict}
use etf_platform_paper_mode.Time.Calendar.{month_of}
use etf_platform_paper_mode.Backtest.{Bar, OrderIntent}
use etf_platform_paper_mode.Strategy.{
  StrategyError, ContributionSource, Pool, total_investable, FundingState, awaiting_funds, Command,
  pause, resume, discontinue, StrategyState, fresh_state, PendingSideEffects, Note, deferred_note,
  CycleResult,
}
use etf_platform_paper_mode.Cost.{unit_scale}
use etf_platform_paper_mode.Strategy.Orders.{StrategyEngine, Situation, build_buy_orders}
use etf_platform_paper_mode.Strategy.Funding.{
  Policy, Decision, PoolOf, run_cycle, mark_cycle_complete,
}
use etf_platform_paper_mode.Strategy.States.{StateRow, save_state, load_state}

-- The operational events that a cycle emits.
pub data Stage : Type 0 where
  cycle_started cycle_completed : Stage

pub data Effect : Type 0 where
  emitted : Stage → Effect
  saved : StrategyState → Effect
  contribution_expected : (expected_date : ℕ) → Effect
  reminded : (date : ℕ) → Effect

-- The state store's row, and what was done outside, the last first.
pub record World : Type 0 where
  pub stored : Option StateRow
  pub effects : List Effect

-- `CashLedgerPort`, `NotificationPort` and, if there is one, `OperationalEventPort`.
pub record Ports : Type 0 where
  pub get_available_pool : PoolOf
  pub poll_commands : Result StrategyError (List Command)
  pub notify_expected_contribution : Result StrategyError (Unit {0})
  pub send : Result StrategyError (Unit {0})
  pub emit : Option (Stage → Result StrategyError (Unit {0}))

-- The other arguments of a cycle; weights in billionths.
pub record Inputs : Type 0 where
  pub as_of_date : ℕ
  pub current_weights : Dict ℕ
  pub target_weights : Dict ℕ
  pub price_history : Dict (List Bar)
  pub is_trading_day : Bool

abbrev pub Cycle : Type 0 → Type 0
Cycle A = Exec StrategyError World A

unfoldable pub perform : Effect → Result StrategyError (Unit {0}) → Cycle (Unit {0})
perform effect answer w = (answer, record w { effects = effect ∷ w.effects })

unfoldable pub load : Cycle (Option StrategyState)
load w = (load_state w.stored, w)

unfoldable pub save : StrategyState → Cycle (Unit {0})
save s w = (ok tt, record { stored = some (save_state s w.stored); effects = saved s ∷ w.effects })

abbrev pub emit_stage : Ports → Stage → Cycle (Unit {0})
emit_stage ports stage = elim ports.emit [
  | none ↦ pure tt
  | some emit ↦ perform (emitted stage) (emit stage)
]

abbrev pub apply_command : Command → StrategyState → StrategyState
apply_command pause s = record s { paused = true }
apply_command resume s = record s { paused = false }
apply_command discontinue s = record s { discontinued = true }

abbrev pub apply_commands : List Command → StrategyState → StrategyState
apply_commands [] s = s
apply_commands (command ∷ commands) s = apply_commands commands (apply_command command s)

abbrev pub state_or_fresh : (date : ℕ) → Option StrategyState → StrategyState
state_or_fresh date none = fresh_state (month_of date) false false
state_or_fresh date (some s) = s

unfoldable pub apply_pending_commands :
    (date : ℕ) → List Command → Option StrategyState → Option StrategyState
apply_pending_commands date [] state = state
apply_pending_commands date (command ∷ commands) state =
    some (apply_commands (command ∷ commands) (state_or_fresh date state))

abbrev pub expect_contribution : Ports → Option ℕ → Cycle (Unit {0})
expect_contribution ports none = pure tt
expect_contribution ports (some date) =
    perform (contribution_expected date) ports.notify_expected_contribution

abbrev pub remind : Ports → Option ℕ → Cycle (Unit {0})
remind ports none = pure tt
remind ports (some date) = perform (reminded date) ports.send

-- The orders of a cycle that has a pool, on a trading day.
unfoldable pub propose : StrategyEngine → Inputs → Pool → Result StrategyError (List OrderIntent)
propose engine inputs pool =
    build_buy_orders engine
      (record {
        tolerance = 1;
        total_portfolio_value = total_investable pool * unit_scale;
        price_history = inputs.price_history;
        as_of_date = inputs.as_of_date;
        funding_source = pool.capital_source;
      })
      (pool.new_capital * unit_scale) inputs.current_weights inputs.target_weights

-- What the second half of a cycle comes to.
pub record Plan : Type 0 where
  pub state : StrategyState
  pub orders : List OrderIntent
  pub notes : List Note
  pub cycle_id : Option (ℕ × ContributionSource)
  pub deferred : Bool

abbrev pub cycle_id_of : StrategyState → Pool → Option (ℕ × ContributionSource)
cycle_id_of state pool = some (state.current_month, pool.capital_source)

-- Nothing was proposable.
abbrev pub no_proposal : Decision → Pool → Plan
no_proposal d pool = record {
  state = mark_cycle_complete d.state false;
  orders = [];
  notes = d.notes;
  cycle_id = cycle_id_of d.state pool;
  deferred = false;
}

abbrev pub plan_with : Decision → Pool → List OrderIntent → Cycle Plan
plan_with d pool [] = do save (mark_cycle_complete d.state false); pure (no_proposal d pool)
plan_with d pool (order ∷ orders) = pure (record {
  state = d.state;
  orders = order ∷ orders;
  notes = d.notes;
  cycle_id = cycle_id_of d.state pool;
  deferred = false;
})

-- Funds on a day without trading wait.
abbrev pub plan_on :
    (is_trading_day : Bool) → StrategyEngine → Inputs → Decision → Pool → Cycle Plan
plan_on true engine inputs d pool = lift (propose engine inputs pool) >>= plan_with d pool
plan_on false engine inputs d pool = pure (record {
  state = d.state;
  orders = [];
  notes = d.notes ++ deferred_note ∷ [];
  cycle_id = cycle_id_of d.state pool;
  deferred = true;
})

abbrev pub plan_for : StrategyEngine → Inputs → Decision → Option Pool → Cycle Plan
plan_for engine inputs d none =
    pure
      (record { state = d.state; orders = []; notes = d.notes; cycle_id = none; deferred = false })
plan_for engine inputs d (some pool) = plan_on inputs.is_trading_day engine inputs d pool

abbrev pub funding_before : Option StrategyState → FundingState
funding_before none = awaiting_funds
funding_before (some s) = s.funding_state

abbrev pub result_of : Inputs → FundingState → Plan → CycleResult
result_of inputs before plan = record {
  as_of_date = inputs.as_of_date;
  funding_state_before = before;
  funding_state_after = plan.state.funding_state;
  orders = plan.orders;
  notes = plan.notes;
  cycle_id = plan.cycle_id;
  deferred_to_next_trading_day = plan.deferred;
}

-- From the first checkpoint on: the state is saved before any effect outside.
unfoldable pub carry_out :
    StrategyEngine → Ports → Inputs → FundingState → Decision → Cycle CycleResult
carry_out engine ports inputs before d = do
  save d.state
  expect_contribution ports d.effects.expected_contribution
  remind ports d.effects.reminder_message
  plan ← plan_for engine inputs d d.pool
  emit_stage ports cycle_completed
  pure (result_of inputs before plan)

unfoldable pub decide : Policy → Ports → Inputs → Option StrategyState → Cycle Decision
decide policy ports inputs state = do
  commands ← lift ports.poll_commands
  lift (
      run_cycle policy inputs.as_of_date (apply_pending_commands inputs.as_of_date commands state)
        ports.get_available_pool)

unfoldable pub run_daily_cycle : StrategyEngine → Policy → Ports → Inputs → Cycle CycleResult
run_daily_cycle engine policy ports inputs = do
  emit_stage ports cycle_started
  state ← load
  d ← decide policy ports inputs state
  carry_out engine ports inputs (funding_before state) d

-- After the orders were submitted, or not. Without a state there is nothing to confirm.
abbrev pub confirm_with : (submitted_successfully : Bool) → Option StrategyState → Cycle (Unit {0})
confirm_with submitted none = pure tt
confirm_with submitted (some s) = save (mark_cycle_complete s submitted)

unfoldable pub confirm_cycle_outcome : (submitted_successfully : Bool) → Cycle (Unit {0})
confirm_cycle_outcome submitted = load >>= confirm_with submitted
