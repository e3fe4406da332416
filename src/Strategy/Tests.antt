-- ===== src/Strategy/Tests.antt =====
-- A strategy engine with one target, in January 2026.
use etf_platform_paper_mode.Common.{
  ℕ, ◌*◌, ◌≤◌, ◌≡◌, true, false, none, some, List, [], ◌∷◌, refl, ok, arith,
}
use etf_platform_paper_mode.Common.Int.{pos}
use etf_platform_paper_mode.Common.Dict.{Dict}
use etf_platform_paper_mode.Time.Calendar.{day_of_month, month_of}
use etf_platform_paper_mode.Cost.{default_config, unit_scale, compute_transaction_cost, total_cost}
use etf_platform_paper_mode.Lots.{total_open_quantity, open_lots}
use etf_platform_paper_mode.Backtest.{Bar, order_intent}
use etf_platform_paper_mode.Backtest.Portfolio.{new_portfolio, position}
use etf_platform_paper_mode.Backtest.Portfolio.Agrees.{Agrees}
use etf_platform_paper_mode.Backtest.Pending.{Engine}
use etf_platform_paper_mode.Backtest.Engine.{Market}
use etf_platform_paper_mode.Backtest.Run.{run, fails_sanity}
use etf_platform_paper_mode.Strategy.{
  recurring_monthly, Pool, executing, awaiting_funds, fresh_state, funds_detected, new_month,
  CycleResult, BuyOpportunity, as_text,
}
use etf_platform_paper_mode.Strategy.Priority.{
  prioritize_by_gap, opportunities_of, insert_opportunity, compute_buy_only_diff, gaps_of,
  all_symbols,
}
use etf_platform_paper_mode.Strategy.Orders.{
  StrategyEngine, Situation, proposal, build_buy_orders, buy_orders, order_for, affordable_units,
  countdown, total_spent, compute_limit_price, rounded,
}
use etf_platform_paper_mode.Strategy.Orders.Budget.{Buys, build_buy_orders-Buys}
use etf_platform_paper_mode.Strategy.Funding.{recurring_monthly_policy, run_cycle, run_recurring}
use etf_platform_paper_mode.Strategy.Funding.Decisions.{Decided, run_cycle-Decided}
use etf_platform_paper_mode.Strategy.States.{
  load_state, row_of_state, save_state, load_state-save_state,
}
use etf_platform_paper_mode.Strategy.Cycle.{
  Ports, Inputs, result_of, perform, load, save, propose, carry_out, decide, run_daily_cycle,
  apply_pending_commands,
}
use etf_platform_paper_mode.Strategy.Cycle.Reminders.{reminders}
use etf_platform_paper_mode.Strategy.Cycle.Calls.{
  Call, daily, confirmed, run_calls, new_world, one_reminder_a_month,
}
use etf_platform_paper_mode.Strategy.Cycle.Proposals.{ProposedFrom, run_daily_cycle-ProposedFrom}
use etf_platform_paper_mode.Strategy.Backtested.{strategy_of}
use etf_platform_paper_mode.Strategy.Backtested.Total.{Returns, run-Returns}

abbrev engine : StrategyEngine
engine = record {
  target_weights = (3, 1_000_000_000) ∷ [];
  deployment_day_of_month = 1;
  limit_price_buffer_pct = pos 30_000;
  cost_config = default_config;
  market_context = λ date. ok none;
  render = λ e. [];
}

abbrev bar_of : (date : ℕ) → Bar
bar_of date = record {
  trade_date = date;
  open_price = 10_000;
  high = 10_100;
  low = 9_900;
  close = 10_000;
  volume = 500;
}

abbrev history : Dict (List Bar)
history = (3, bar_of 739_616 ∷ []) ∷ []

abbrev now : Situation
now = record {
  tolerance = 1;
  total_portfolio_value = 35_000 * unit_scale;
  price_history = history;
  as_of_date = 739_617;
  funding_source = recurring_monthly;
}

build_buy_orders-Buys_example :
    Buys engine now
      (35_000 * unit_scale)
      []
      engine.target_weights
      (build_buy_orders engine now (35_000 * unit_scale) [] engine.target_weights)
build_buy_orders-Buys_example =
    build_buy_orders-Buys engine now 30_000 (35_000 * unit_scale) [] engine.target_weights none
      (omega arith) refl refl

abbrev opportunity : BuyOpportunity
opportunity = record {
  symbol = 3;
  current_weight = 0;
  target_weight = 1_000_000_000;
  gap = 1_000_000_000;
}

-- Three units at 100.30 rupees and their costs; the budget of 350 rupees has not four.
three_units :
    build_buy_orders engine now (35_000 * unit_scale) [] engine.target_weights
    ≡ ok (proposal engine now opportunity 1 10_030 3 none ∷ [])
unfolding build_buy_orders buy_orders order_for affordable_units countdown total_spent
    compute_limit_price rounded prioritize_by_gap opportunities_of insert_opportunity
    compute_buy_only_diff gaps_of all_symbols total_cost compute_transaction_cost order_intent
    as_text
three_units = refl

abbrev pool : Pool
pool = record {
  existing_portfolio_value = 0;
  new_capital = 35_000;
  capital_source = recurring_monthly;
}

abbrev no_funds : Pool
no_funds = record {
  existing_portfolio_value = 0;
  new_capital = 0;
  capital_source = recurring_monthly;
}

abbrev ports_with : Pool → Ports
ports_with p = record {
  get_available_pool = λ date. ok p;
  poll_commands = ok [];
  notify_expected_contribution = ok tt;
  send = ok tt;
  emit = none;
}

abbrev inputs_on : ℕ → Inputs
inputs_on date = record {
  as_of_date = date;
  current_weights = [];
  target_weights = engine.target_weights;
  price_history = history;
  is_trading_day = true;
}

run_cycle-Decided_example :
    Decided 739_617 none
      (λ date. ok pool)
      (run_cycle (recurring_monthly_policy 8) 739_617 none (λ date. ok pool))
run_cycle-Decided_example =
    run_cycle-Decided (recurring_monthly_policy 8) 739_617 none (λ date. ok pool)

-- Saved over the row of another month.
load_state-save_state_example :
    let s = fresh_state 24_312 true false in
    let before = row_of_state (fresh_state 24_311 false true) in
    load_state (some (save_state s (some before))) ≡ ok (some s)
load_state-save_state_example =
    load_state-save_state (fresh_state 24_312 true false)
      (some (row_of_state (fresh_state 24_311 false true)))

-- The 8th and the 9th of January without funds, and a confirmation that comes to nothing.
abbrev calls : List Call
calls =
    daily (recurring_monthly_policy 8) (ports_with no_funds) (inputs_on 739_624)
    ∷ confirmed false
    ∷ daily (recurring_monthly_policy 8) (ports_with no_funds) (inputs_on 739_625)
    ∷ []

days_of_january : (month_of 739_624 ≡ 24_312) × (month_of 739_625 ≡ 24_312)
unfolding month_of
days_of_january = (refl, refl)

one_reminder_a_month_example : reminders 24_312 (run_calls engine calls new_world).effects ≤ 1
one_reminder_a_month_example =
    let (eighth, ninth) = days_of_january in
    one_reminder_a_month engine calls 24_312 (omega arith, (omega arith, tt))

abbrev bought : CycleResult
bought = result_of (inputs_on 739_617) awaiting_funds (record {
  state = record (fresh_state 24_312 false false) {
    funding_state = executing;
    last_check_date = some 739_617;
  };
  orders = proposal engine now opportunity 1 10_030 3 none ∷ [];
  notes = new_month ∷ funds_detected ∷ [];
  cycle_id = some (24_312, recurring_monthly);
  deferred = false;
})

first_of_january :
    (run_daily_cycle engine
      (recurring_monthly_policy 8)
      (ports_with pool)
      (inputs_on 739_617)
      new_world).0
    ≡ ok bought
unfolding run_daily_cycle load decide carry_out save perform propose run_cycle run_recurring
    month_of day_of_month load_state row_of_state save_state apply_pending_commands build_buy_orders
    buy_orders order_for affordable_units countdown total_spent compute_limit_price rounded
    prioritize_by_gap opportunities_of insert_opportunity compute_buy_only_diff gaps_of all_symbols
    total_cost compute_transaction_cost order_intent as_text
first_of_january = refl

run_daily_cycle-ProposedFrom_example :
    ProposedFrom engine (ports_with pool) (inputs_on 739_617) bought
run_daily_cycle-ProposedFrom_example =
    run_daily_cycle-ProposedFrom engine (recurring_monthly_policy 8) (ports_with pool)
      (inputs_on 739_617) new_world bought (proposal engine now opportunity 1 10_030 3 none) []
      first_of_january refl

abbrev settings : Engine
settings = record {
  config = record {
    start_date = 739_617;
    end_date = 739_620;
    initial_capital = 35_000;
    symbols = 3 ∷ [];
    limit_order_expiry_days = 5;
    lookback_days_provided_to_strategy = 365;
    max_volume_participation_pct = none;
    stale_price_warning_days = 5;
  };
  gain_config = record {
    stcg_tax_rate = 2_000_000;
    ltcg_tax_rate = 1_250_000;
    long_term_threshold_days = 365;
  };
  fill_simulator = record { cost_config = default_config; max_participation = none };
}

abbrev january : Market
january = record { bars = (3, bar_of 739_617 ∷ bar_of 739_618 ∷ []) ∷ []; corporate_actions = [] }

nothing_held : Agrees (new_portfolio 35_000)
unfolding position total_open_quantity open_lots
nothing_held symbol = refl

sane : fails_sanity january.bars ≡ false
unfolding fails_sanity
sane = refl

run-Returns_example :
    Returns
      (strategy_of engine)
      january
      (new_portfolio 35_000)
      (run settings (strategy_of engine) january (new_portfolio 35_000))
run-Returns_example =
    run-Returns settings engine january (new_portfolio 35_000) 30_000 refl (λ date. (none, refl))
      (tt, tt) sane refl nothing_held
