-- ===== src/Backtest/Engine.antt =====
-- A backtest: `run` of src/etf_platform/backtesting/engine.py, day by day. The strategy is any
-- implementation of src/etf_platform/backtesting/strategy.py.
pub mod Sound
pub mod Days
use etf_platform_paper_mode.Common.{
  ℕ, zero, suc, ◌+◌, ◌-◌, ◌*◌, ◌==◌, Bool, true, false, ◌&&◌, ◌||◌, Option, none, some, List, [],
  ◌∷◌, ◌++◌, map, Result, ok, raised, Exec, pure, ◌>>◌, ltb, leb, if◌then◌else◌, or_else,
}
use etf_platform_paper_mode.Common.Int.{ℤ, pos}
use etf_platform_paper_mode.Common.Dict.{Dict, lookup, insert}
use etf_platform_paper_mode.Backtest.{
  BacktestError, invalid_order, Bar, OrderIntent, PendingOrder, EquityCurvePoint, total_value,
  PortfolioSnapshot, BacktestConfig, DividendReceipt, CorporateActionEvent,
}
use etf_platform_paper_mode.Backtest.Portfolio.{
  Portfolio, new_portfolio, position, apply_dividend, split_position, equity_curve_point,
}
use etf_platform_paper_mode.Backtest.Pending.{
  Book, Engine, process_pending_orders, queue_order, reject_unfilled_orders_at_end,
}
use etf_platform_paper_mode.Backtest.History.{
  sorted_bars, Observed, observe_all, build_history_view,
}

-- `Strategy.generate_orders`
pub record Strategy : Type 0 where
  pub generate_orders :
      (as_of_date : ℕ)
      → Dict (List Bar)
      → PortfolioSnapshot
      → Result BacktestError (List OrderIntent)

-- `CorporateAction`, by its type. The ratio of a split or a bonus is a whole number of new units for
-- an old one, or 0 for one that is not positive.
pub data CorporateAction : Type 0 where
  split bonus : (ratio : ℕ) → CorporateAction
  dividend : (amount_per_unit : ℕ) → CorporateAction
  unhandled : (action_type : ℕ) → CorporateAction

-- What a run is given: the bars of each symbol, sorted, and its corporate actions by ex-date.
pub record Market : Type 0 where
  pub bars : Dict (List Bar)
  pub corporate_actions : Dict (List (ℕ × CorporateAction))

pub data Warning : Type 0 where
  unhandled_action : (action_type symbol current_date : ℕ) → Warning
  stale_price : (symbol held staleness_days current_date : ℕ) → Warning
  no_trading_dates : Warning
  data_ended_early : (actual_end_date : ℕ) → Warning

-- The local variables of `run`.
pub record Run : Type 0 where
  pub observed : Observed
  pub warned_stale_at : Dict ℕ
  pub warnings : List Warning
  pub equity_curve : List EquityCurvePoint
  pub dividend_receipts : List DividendReceipt
  pub corporate_action_events : List CorporateActionEvent
  pub pending_orders : List PendingOrder
  pub book : Book

abbrev pub warn : Warning → Run → Run
warn w s = record s { warnings = s.warnings ++ w ∷ [] }

abbrev pub append_receipt : Option DividendReceipt → List DividendReceipt → List DividendReceipt
append_receipt none receipts = receipts
append_receipt (some receipt) receipts = receipts ++ receipt ∷ []

abbrev pub append_event :
    Option CorporateActionEvent → List CorporateActionEvent → List CorporateActionEvent
append_event none events = events
append_event (some event) events = events ++ event ∷ []

abbrev pub after_split :
    Run
    → Result BacktestError (Option CorporateActionEvent) × Portfolio
    → Result BacktestError (Unit {0}) × Run
after_split s (raised e, p) = (raised e, record s { book = record s.book { portfolio = p } })
after_split s (ok event, p) = (
  ok tt,
  record s {
    corporate_action_events = append_event event s.corporate_action_events;
    book = record s.book { portfolio = p };
  },
)

-- Step 2, for one action.
unfoldable pub apply_action :
    (current_date symbol : ℕ) → CorporateAction → Exec BacktestError Run (Unit {0})
apply_action current_date symbol (split ratio) s =
    after_split s (split_position symbol current_date ratio s.book.portfolio)
apply_action current_date symbol (bonus ratio) s =
    after_split s (split_position symbol current_date ratio s.book.portfolio)
apply_action current_date symbol (dividend amount) s =
    let (receipt, p) = apply_dividend symbol current_date amount s.book.portfolio in
    (
      ok tt,
      record s {
        dividend_receipts = append_receipt receipt s.dividend_receipts;
        book = record s.book { portfolio = p };
      },
    )
apply_action current_date symbol (unhandled action_type) s =
    (ok tt, warn (unhandled_action action_type symbol current_date) s)

abbrev pub action_on :
    (current_date symbol ex_date : ℕ) → CorporateAction → Exec BacktestError Run (Unit {0})
action_on current_date symbol ex_date action s =
    if ex_date == current_date then apply_action current_date symbol action s else (ok tt, s)

unfoldable pub apply_actions :
    (current_date symbol : ℕ) → List (ℕ × CorporateAction) → Exec BacktestError Run (Unit {0})
apply_actions current_date symbol [] = pure tt
apply_actions current_date symbol ((ex_date, action) ∷ rest) =
    action_on current_date symbol ex_date action >> apply_actions current_date symbol rest

unfoldable pub corporate_actions_on :
    (current_date : ℕ) → Dict (List (ℕ × CorporateAction)) → Exec BacktestError Run (Unit {0})
corporate_actions_on current_date [] = pure tt
corporate_actions_on current_date ((symbol, actions) ∷ rest) =
    apply_actions current_date symbol actions >> corporate_actions_on current_date rest

-- The warning is due when the threshold is reached, and 30 days after the last one; no warning yet
-- counts as one of day -1.
abbrev pub warning_due : (staleness threshold : ℕ) → (already : Option ℕ) → Bool
warning_due staleness threshold none = (staleness == threshold) || leb 29 staleness
warning_due staleness threshold (some already) =
    (staleness == threshold) || leb (already + 30) staleness

abbrev pub check_price : (current_date threshold symbol : ℕ) → Option ℕ → Run → Run
check_price current_date threshold symbol none s = s
check_price current_date threshold symbol (some price_date) s =
    let staleness = current_date - price_date in
    let held = position symbol s.book.portfolio in
    if ltb staleness threshold
    then s
    else if warning_due staleness threshold (lookup symbol s.warned_stale_at)
    then record (warn (stale_price symbol held staleness current_date) s) {
      warned_stale_at = insert symbol staleness s.warned_stale_at;
    }
    else s

unfoldable pub check_stale_prices : (current_date threshold : ℕ) → (symbols : List ℕ) → Run → Run
check_stale_prices current_date threshold [] s = s
check_stale_prices current_date threshold (symbol ∷ symbols) s =
    check_stale_prices current_date threshold symbols (
      if position symbol s.book.portfolio == 0
      then s
      else check_price current_date threshold symbol (lookup symbol s.observed.last_price_date) s)

abbrev pub mark : BacktestConfig → (current_date : ℕ) → Run → Run
mark config current_date s =
    let s' = check_stale_prices current_date config.stale_price_warning_days config.symbols s in
    let point = equity_curve_point current_date s'.observed.last_known_price s'.book.portfolio in
    record s' { equity_curve = s'.equity_curve ++ point ∷ [] }

-- The snapshot's total value is that of the point just added to the curve.
abbrev pub snapshot : (current_date : ℕ) → Run → PortfolioSnapshot
snapshot current_date s =
    let p = s.book.portfolio in
    record {
      as_of_date = current_date;
      cash = p.cash;
      positions = p.positions;
      total_value = total_value (equity_curve_point current_date s.observed.last_known_price p);
    }

abbrev pub queue_all : BacktestConfig → (current_date : ℕ) → List OrderIntent → List PendingOrder
queue_all config current_date intents = map (λ x. queue_order config x current_date) intents

-- Step 6.
abbrev pub queue_new :
    BacktestConfig
    → (current_date : ℕ) → Result BacktestError (List OrderIntent)
    → Exec BacktestError Run (Unit {0})
queue_new config current_date (raised e) s = (raised e, s)
queue_new config current_date (ok intents) s =
    (ok tt, record s { pending_orders = s.pending_orders ++ queue_all config current_date intents })

abbrev pub ask :
    BacktestConfig
    → Strategy
    → (current_date : ℕ) → Result BacktestError (Dict (List Bar))
    → Exec BacktestError Run (Unit {0})
ask config strategy current_date (raised e) s = (raised e, s)
ask config strategy current_date (ok history) s =
    queue_new config current_date
      (strategy.generate_orders current_date history (snapshot current_date s)) s

-- Steps 4 to 6.
unfoldable pub decide :
    BacktestConfig → Strategy → Market → (current_date : ℕ) → Exec BacktestError Run (Unit {0})
decide config strategy market current_date s =
    let s' = mark config current_date s in
    let history =
      build_history_view config.lookback_days_provided_to_strategy current_date market.bars
        s'.observed in
    ask config strategy current_date history s'

abbrev pub after_orders :
    BacktestConfig
    → Strategy
    → Market
    → (current_date : ℕ) → Run
    → Result BacktestError (List PendingOrder) × Book
    → Result BacktestError (Unit {0}) × Run
after_orders config strategy market current_date s (raised e, b) = (raised e, record s { book = b })
after_orders config strategy market current_date s (ok kept, b) =
    decide config strategy market current_date (record s { book = b; pending_orders = kept })

-- Steps 3 to 6.
abbrev pub trade_on :
    Engine → Strategy → Market → (current_date : ℕ) → Exec BacktestError Run (Unit {0})
trade_on engine strategy market current_date s =
    after_orders engine.config strategy market current_date s
      (process_pending_orders engine current_date market.bars s.pending_orders s.book)

-- Steps 2 to 6.
unfoldable pub trade_day :
    Engine → Strategy → Market → (current_date : ℕ) → Exec BacktestError Run (Unit {0})
trade_day engine strategy market current_date =
    corporate_actions_on current_date market.corporate_actions
    >> trade_on engine strategy market current_date

-- One turn of the loop over the dates.
unfoldable pub run_day :
    Engine → Strategy → Market → (current_date : ℕ) → Exec BacktestError Run (Unit {0})
run_day engine strategy market current_date s =
    let s' = record s { observed = observe_all current_date market.bars s.observed } in
    if ltb current_date engine.config.start_date
    then (ok tt, s')
    else trade_day engine strategy market current_date s'

unfoldable pub run_days : Engine → Strategy → Market → List ℕ → Exec BacktestError Run (Unit {0})
run_days engine strategy market [] s = (ok tt, s)
run_days engine strategy market (current_date ∷ dates) s =
    let (r, s') = run_day engine strategy market current_date s in
    elim r [ ok _ ↦ run_days engine strategy market dates s' | raised e ↦ (raised e, s') ]
