-- ===== src/Lib.antt =====
-- The core of the ETF platform: how an order is checked, submitted, polled, reconciled and stored,
-- what a simulated broker does with it and what it costs; how the strategy engine decides on orders
-- from month to month; how a backtest runs a strategy over the bars of the past; which bars pass the
-- data quality gate. Modelled from the Python code under src/etf_platform: the packages
-- execution_manager, cost_tax_engine, strategy_engine, backtesting, data_quality, and parts of common
-- and data_engine.
--
-- The order path, and the files that model it:
--   - Lifecycle: the order states, the table of transitions, validate_transition (models.py) and the
--     exceptions (exceptions.py). Record: ExecutionRecord (models.py).
--   - Time: aware datetimes, the trading session (timezone_utils.py), the simulated clock (clock.py).
--     Time/Calendar: the month and the day of the month of a date.
--   - Events: events and the recorder in memory (events.py).
--   - Cost: compute_transaction_cost (cost_tax_engine.py) and CostBreakdown (models.py).
--   - Lots: the FIFO tax lots of cost_tax_engine.py.
--   - Retry: retry_with_backoff (src/etf_platform/common/retry.py).
--   - Scenarios and Paper: the simulated broker (scenarios.py, paper_broker.py). Paper/Sound says what
--     holds between calls, Paper/Polled and
--     Paper/Cancelled what a poll and a cancellation do, Paper/Ledger and Paper/Runs follow the
--     cash, Paper/Progress counts polls.
--   - Kite: the live broker's statuses, tags and order views (kite_status_mapping.py,
--     kite_tag_encoding.py, kite_broker.py), and in Kite/Calls its calls and submissions
--     (kite_broker.py).
--   - Ports: the interfaces of ports.py, as records of functions that any implementation supplies.
--   - Store: the tables of persistence.py with save, load, claim and release.
--   - Verify: the checks before a submission (verification.py).
--   - World: what the services share; Orchestrator: process_order (orchestrator.py); Reconcile:
--     reconciliation, and in Reconcile/Operator the operator's resolution (reconciliation.py).
--
-- The strategy engine (src/etf_platform/strategy_engine), the backtest and their data:
--   - Strategy: the types of models.py and the exceptions. Strategy/Priority: prioritize_by_gap
--     (priority.py). Strategy/Orders: limit_pricing.py and _build_buy_orders (strategy.py).
--     Strategy/Funding: the policies of execution_policy. Strategy/States: the row of
--     state_store.py. Strategy/Cycle: run_daily_cycle, confirm_cycle_outcome and the commands
--     (strategy.py). Strategy/Backtested: generate_orders (strategy.py) in the backtesting engine.
--   - Backtest: the types of src/etf_platform/backtesting/models.py. Backtest/Fills: what a bar fills
--     (fill_simulator.py). Backtest/Portfolio: cash, positions and tax lots (portfolio.py).
--     Backtest/Pending, Backtest/History and Backtest/Engine: pending orders, what a strategy may
--     see, and the loop over the trading days (engine.py). Backtest/Run follows whole runs.
--   - Quality: the checks of bars and the gate (src/etf_platform/data_quality).
--   - RateLimiter: the token buckets of src/etf_platform/data_engine/rate_limiter.py.
--   - Common: what they all use. Fixtures: data for the tests.
--
-- The orchestrator reads a record's state and takes one step: it verifies a proposal with the quotes,
-- the compliance check and the broker's cash, submits a verified order, polls a pending one. Each
-- step changes the record in place, saves it and records an event. Reconciliation loads the records
-- that are not settled and compares them with the broker's orders. A daily cycle of the strategy
-- engine loads its state, applies commands, asks the policy for the month's decision, saves it, sends
-- what it decided, and proposes orders for a pool of cash; the caller confirms the outcome. The
-- backtest lets a strategy decide on one day, from the bars up to that day, and fills its orders on
-- later days.
--
-- A method takes the state and returns a result with the new state; an exception is a result, and
-- what was written before it stays written. Prices and cash are whole paise, quantities whole
-- units, rates whole ten-millionths, a portfolio's cash 10⁻¹⁴ paise, weights parts of a weight of 1:
-- the sums are exact where the program's floats are rounded. A wall clock reading counts
-- microseconds, a date is its number in the calendar. Identifiers, symbols and cycles are numbers,
-- since the program only compares them. Random draws (uuid4, random.choices) are sequences that the
-- model is given. Loops go through a list or count down a number (_affordable_quantity), so nothing
-- needs fuel. Quantities of lots are whole units too, where the program takes less than 1e-9 for
-- nothing; a lot's price after splits is a quotient by their ratios.
--
-- Not modelled: the log lines, the texts of messages and exceptions where nothing reads them, and the
-- notes' texts with the reminder_sent of a cycle's result that is read off them, the opening and
-- checking of the database files, threads (a statement on the database is one step, and so is a call
-- of the rate limiter), the live broker's web client and SHA-256 itself, ratios of a split or bonus
-- that are not whole (they leave fractional units), the hashes and files of registered backtests, and
-- the platform's other packages: optimizers, risk limits, configuration, data providers and
-- storage, statistics, reports and dashboards.
pub mod Common
pub mod Lifecycle
pub mod Time
pub mod Events
pub mod Cost
pub mod Lots
pub mod Retry
pub mod Scenarios
pub mod Paper
pub mod Ports
pub mod Kite
pub mod Record
pub mod Store
pub mod Verify
pub mod World
pub mod Orchestrator
pub mod Reconcile
pub mod Backtest
pub mod Strategy
pub mod Quality
pub mod RateLimiter
pub mod Fixtures
