-- ===== src/Backtest/Run.antt =====
-- A whole backtest: `run`, `_validate_bars_sanity` and the result of
-- src/etf_platform/backtesting/engine.py and models.py.
pub mod Accounts
use etf_platform_paper_mode.Common.{
  ℕ, ◌+◌, ◌==◌, Bool, true, false, ◌||◌, Option, none, some, List, [], ◌∷◌, ◌++◌, Result, ok,
  raised, Exec, ltb, leb, if◌then◌else◌,
}
use etf_platform_paper_mode.Common.Dict.{Dict}
use etf_platform_paper_mode.Backtest.{
  BacktestError, invalid_order, Bar, OrderIntent, Trade, EquityCurvePoint, BacktestConfig,
  DividendReceipt, CorporateActionEvent, RejectReason,
}
use etf_platform_paper_mode.Backtest.Portfolio.{Portfolio}
use etf_platform_paper_mode.Backtest.Pending.{Book, Engine, reject_unfilled_orders_at_end}
use etf_platform_paper_mode.Backtest.History.{sorted_bars}
use etf_platform_paper_mode.Backtest.Engine.{
  Strategy, CorporateAction, Market, Warning, no_trading_dates, data_ended_early, Run, run_days,
}

-- `BacktestResult`, without what is filled in elsewhere.
pub record BacktestResult : Type 0 where
  pub equity_curve : List EquityCurvePoint
  pub trades : List Trade
  pub rejected_orders : List (OrderIntent × RejectReason)
  pub warnings : List Warning
  pub actual_end_date : Option ℕ
  pub dividend_receipts : List DividendReceipt
  pub corporate_action_events : List CorporateActionEvent

abbrev pub is_insane : Bar → Bool
is_insane bar =
    (bar.open_price == 0)
    || (bar.high == 0)
    || (bar.low == 0)
    || (bar.close == 0)
    || ltb bar.high bar.low

abbrev pub any_insane : List Bar → Bool
any_insane [] = false
any_insane (bar ∷ bars) = is_insane bar || any_insane bars

-- `_validate_bars_sanity` raises.
unfoldable pub fails_sanity : Dict (List Bar) → Bool
fails_sanity [] = false
fails_sanity ((_, bars) ∷ rest) = any_insane bars || fails_sanity rest

unfoldable pub sort_all : Dict (List Bar) → Dict (List Bar)
sort_all [] = []
sort_all ((symbol, bars) ∷ rest) = (symbol, sorted_bars bars) ∷ sort_all rest

-- A sorted list as the set that it stands for.
unfoldable pub insert_date : ℕ → List ℕ → List ℕ
insert_date date [] = date ∷ []
insert_date date (first ∷ rest) =
    if ltb date first
    then date ∷ first ∷ rest
    else if date == first
    then first ∷ rest
    else first ∷ insert_date date rest

unfoldable pub insert_dates : (end_date : ℕ) → List Bar → List ℕ → List ℕ
insert_dates end_date [] dates = dates
insert_dates end_date (bar ∷ bars) dates =
    let rest = insert_dates end_date bars dates in
    if leb bar.trade_date end_date then insert_date bar.trade_date rest else rest

-- `sorted({b.trade_date for … if b.trade_date <= end_date})`
unfoldable pub all_dates : (end_date : ℕ) → Dict (List Bar) → List ℕ
all_dates end_date [] = []
all_dates end_date ((_, bars) ∷ rest) = insert_dates end_date bars (all_dates end_date rest)

abbrev pub last_date : List ℕ → Option ℕ
last_date [] = none
last_date (date ∷ []) = some date
last_date (_ ∷ date ∷ dates) = last_date (date ∷ dates)

abbrev pub end_warnings : (end_date : ℕ) → Option ℕ → List Warning
end_warnings end_date none = no_trading_dates ∷ []
end_warnings end_date (some last) = if ltb last end_date then data_ended_early last ∷ [] else []

abbrev pub start_run : Portfolio → Run
start_run p = record {
  observed = record { pointer = []; last_known_price = []; last_price_date = [] };
  warned_stale_at = [];
  warnings = [];
  equity_curve = [];
  dividend_receipts = [];
  corporate_action_events = [];
  pending_orders = [];
  book = record { portfolio = p; trades = []; rejected_orders = [] };
}

abbrev pub result_of : BacktestConfig → List ℕ → Run → Book → BacktestResult
result_of config dates s b =
    let last = last_date dates in
    record {
      equity_curve = s.equity_curve;
      trades = b.trades;
      rejected_orders = b.rejected_orders;
      warnings = s.warnings ++ end_warnings config.end_date last;
      actual_end_date = last;
      dividend_receipts = s.dividend_receipts;
      corporate_action_events = s.corporate_action_events;
    }

abbrev pub finish :
    BacktestConfig
    → List ℕ
    → Result BacktestError (Unit {0}) × Run
    → Result BacktestError BacktestResult × Portfolio
finish config dates (raised e, s) = (raised e, s.book.portfolio)
finish config dates (ok _, s) =
    let b = reject_unfilled_orders_at_end s.pending_orders s.book in
    (ok (result_of config dates s b), b.portfolio)

-- `run`, from the portfolio that the engine has.
unfoldable pub run : Engine → Strategy → Market → Exec BacktestError Portfolio BacktestResult
run engine strategy market p =
    let sorted : Market = record market { bars = sort_all market.bars } in
    let dates = all_dates engine.config.end_date sorted.bars in
    if fails_sanity market.bars
    then (raised invalid_order, p)
    else finish engine.config dates (run_days engine strategy sorted dates (start_run p))
