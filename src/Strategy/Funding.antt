-- ===== src/Strategy/Funding.antt =====
-- The funding policies: src/etf_platform/strategy_engine/execution_policy/recurring_monthly.py and
-- lump_sum.py.
pub mod Decisions
use etf_platform_paper_mode.Common.{
  ℕ, ◌+◌, ◌-◌, ◌==◌, Bool, true, false, not, ◌&&◌, ◌||◌, Option, none, some, List, [], ◌∷◌, ◌++◌,
  Result, ok, raised, ltb, leb, if◌then◌else◌,
}
use etf_platform_paper_mode.Time.Calendar.{day_of_month, month_of}
use etf_platform_paper_mode.Strategy.{
  StrategyError, value_error, Pool, FundingState, awaiting_funds, executing, idle, StrategyState,
  fresh_state, PendingSideEffects, Note, new_month, lump_sum_initiated, discontinued_note,
  paused_note, already_allocated, reminder_pending, not_available, funds_detected,
}

-- `RecurringMonthlyPolicy(reminder_day)` and `LumpSumPolicy()`.
pub data Policy : Type 0 where
  recurring_monthly_policy : (reminder_day : ℕ) → Policy
  lump_sum_policy : Policy

unfoldable pub recurring_policy : (reminder_day : ℕ) → Result StrategyError Policy
recurring_policy reminder_day =
    if ltb reminder_day 1 || ltb 28 reminder_day
    then raised value_error
    else ok (recurring_monthly_policy reminder_day)

-- What `run_cycle` returns.
pub record Decision : Type 0 where
  pub state : StrategyState
  pub pool : Option Pool
  pub notes : List Note
  pub effects : PendingSideEffects

abbrev pub no_effects : PendingSideEffects
no_effects = record { reminder_message = none; expected_contribution = none }

-- `get_available_pool` of the cash ledger port.
abbrev pub PoolOf : Type 0
PoolOf = (as_of_date : ℕ) → Result StrategyError Pool

abbrev pub is_idle : FundingState → Bool
is_idle idle = true
is_idle _ = false

-- A state in which the funds are not looked at, with the note that says why.
abbrev pub barred : StrategyState → Option Note
barred s =
    if s.discontinued
    then some discontinued_note
    else if s.paused
    then some paused_note
    else if is_idle s.funding_state
    then some already_allocated
    else none

-- A decision to do nothing.
abbrev pub stay : StrategyState → List Note → PendingSideEffects → Decision
stay state notes effects = record { state = state; pool = none; notes = notes; effects = effects }

-- Funds that are there are executed.
abbrev pub execute : StrategyState → Pool → List Note → PendingSideEffects → Decision
execute state pool notes effects = record {
  state = record state { funding_state = executing };
  pool = some pool;
  notes = notes ++ funds_detected ∷ [];
  effects = effects;
}

-- Without funds: on and after the reminder day, one reminder.
abbrev pub without_funds :
    (reminder_day date : ℕ) → StrategyState → List Note → PendingSideEffects → Decision
without_funds reminder_day date state notes effects =
    if leb reminder_day (day_of_month date) && not state.reminder_sent_this_month
    then stay (record state { reminder_sent_this_month = true })
        (notes ++ reminder_pending ∷ not_available ∷ [])
        (record effects { reminder_message = some date })
    else stay state (notes ++ not_available ∷ []) effects

abbrev pub checked : (date : ℕ) → StrategyState → StrategyState
checked date state = record state { last_check_date = some date }

abbrev pub recurring_with :
    (reminder_day date : ℕ)
    → StrategyState
    → List Note
    → PendingSideEffects
    → Result StrategyError Pool
    → Result StrategyError Decision
recurring_with reminder_day date state notes effects (raised e) = raised e
recurring_with reminder_day date state notes effects (ok pool) = ok (
    if pool.new_capital == 0
    then without_funds reminder_day date (checked date state) notes effects
    else execute (checked date state) pool notes effects)

abbrev pub recurring_by :
    (reminder_day date : ℕ)
    → StrategyState
    → List Note
    → PendingSideEffects
    → PoolOf
    → (bar : Option Note) → Result StrategyError Decision
recurring_by reminder_day date state notes effects pool_of (some note) =
    ok (stay state (notes ++ note ∷ []) effects)
recurring_by reminder_day date state notes effects pool_of none =
    recurring_with reminder_day date state notes effects (pool_of date)

-- A state in which the policy is barred is not looked into further.
abbrev pub recurring_from :
    (reminder_day date : ℕ)
    → StrategyState
    → List Note
    → PendingSideEffects
    → PoolOf
    → Result StrategyError Decision
recurring_from reminder_day date state notes effects pool_of =
    recurring_by reminder_day date state notes effects pool_of (barred state)

-- The first day of the month is when the contribution is expected.
abbrev pub open_month :
    (reminder_day date : ℕ) → (paused discontinued : Bool) → PoolOf → Result StrategyError Decision
open_month reminder_day date paused discontinued =
    recurring_from reminder_day date (fresh_state (month_of date) paused discontinued)
      (new_month ∷ [])
      (record {
        reminder_message = none;
        expected_contribution = some (date - (day_of_month date - 1));
      })

unfoldable pub run_recurring :
    (reminder_day date : ℕ) → Option StrategyState → PoolOf → Result StrategyError Decision
run_recurring reminder_day date none pool_of = open_month reminder_day date false false pool_of
run_recurring reminder_day date (some state) pool_of =
    if state.current_month == month_of date
    then recurring_from reminder_day date state [] no_effects pool_of
    else open_month reminder_day date state.paused state.discontinued pool_of

abbrev pub lump_sum_with :
    (date : ℕ)
    → StrategyState
    → List Note
    → Result StrategyError Pool
    → Result StrategyError Decision
lump_sum_with date state notes (raised e) = raised e
lump_sum_with date state notes (ok pool) = ok (
    if pool.new_capital == 0
    then stay (checked date state) (notes ++ not_available ∷ []) no_effects
    else execute (checked date state) pool notes no_effects)

abbrev pub lump_sum_by :
    (date : ℕ)
    → StrategyState
    → List Note
    → PoolOf
    → (bar : Option Note) → Result StrategyError Decision
lump_sum_by date state notes pool_of (some note) = ok (stay state (notes ++ note ∷ []) no_effects)
lump_sum_by date state notes pool_of none = lump_sum_with date state notes (pool_of date)

abbrev pub lump_sum_from :
    (date : ℕ) → StrategyState → List Note → PoolOf → Result StrategyError Decision
lump_sum_from date state notes pool_of = lump_sum_by date state notes pool_of (barred state)

unfoldable pub run_lump_sum :
    (date : ℕ) → Option StrategyState → PoolOf → Result StrategyError Decision
run_lump_sum date none pool_of =
    lump_sum_from date (fresh_state (month_of date) false false) (lump_sum_initiated ∷ []) pool_of
run_lump_sum date (some state) pool_of = lump_sum_from date state [] pool_of

-- `ExecutionPolicy.run_cycle`
unfoldable pub run_cycle :
    Policy → (date : ℕ) → Option StrategyState → PoolOf → Result StrategyError Decision
run_cycle (recurring_monthly_policy reminder_day) date state pool_of =
    run_recurring reminder_day date state pool_of
run_cycle lump_sum_policy date state pool_of = run_lump_sum date state pool_of

-- `mark_cycle_complete`, the same in both policies.
unfoldable pub mark_cycle_complete : StrategyState → (any_orders_produced : Bool) → StrategyState
mark_cycle_complete state any_orders_produced = record state {
  funding_state = if any_orders_produced then idle else awaiting_funds;
}
