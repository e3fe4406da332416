-- ===== src/Backtest/Pending.antt =====
-- The pending orders of a backtest: `_process_pending_orders`, `_queue_order` and
-- `_reject_unfilled_orders_at_end` of src/etf_platform/backtesting/engine.py.
pub mod Units
pub mod Counted
pub mod Processed
use etf_platform_paper_mode.Common.{
  ℕ, suc, ◌+◌, ◌-◌, ◌==◌, Bool, not, ◌&&◌, Option, none, some, List, [], ◌∷◌, ◌++◌, Result, ok,
  raised, Exec, pure, raise, lift, modify, ◌>>=◌, ◌>>◌, ltb, leb, if◌then◌else◌, or_else,
}
use etf_platform_paper_mode.Common.Dict.{Dict, lookup}
use etf_platform_paper_mode.Cost.{Side, buy, sell}
use etf_platform_paper_mode.Lots.{GainConfig}
use etf_platform_paper_mode.Backtest.{
  BacktestError, invalid_order, insufficient_cash, over_sell, Bar, OrderIntent, order_intent,
  PendingOrder, Fill, Trade, BacktestConfig, RejectReason, no_trading_data, never_touched,
  cash_at_fill, held_at_fill, ended, refused_fill, partially_filled,
}
use etf_platform_paper_mode.Backtest.Fills.{FillSimulator, try_fill}
use etf_platform_paper_mode.Backtest.Portfolio.{
  Portfolio, can_afford_buy, can_afford_sell, apply_fill,
}

-- What processing an order changes: the portfolio, the trade log, the rejected orders.
pub record Book : Type 0 where
  pub portfolio : Portfolio
  pub trades : List Trade
  pub rejected_orders : List (OrderIntent × RejectReason)

-- The services of the engine.
pub record Engine : Type 0 where
  pub config : BacktestConfig
  pub gain_config : GainConfig
  pub fill_simulator : FillSimulator

-- `{b.trade_date: b for b in bars}.get(current_date)`: of several bars on a date, the last one.
unfoldable pub bar_on : (current_date : ℕ) → List Bar → Option Bar
bar_on current_date [] = none
bar_on current_date (bar ∷ bars) = elim (bar_on current_date bars) [
  | some later ↦ some later
  | none ↦ if bar.trade_date == current_date then some bar else none
]

abbrev pub reject : OrderIntent → RejectReason → Book → Book
reject x reason b = record b { rejected_orders = b.rejected_orders ++ (x, reason) ∷ [] }

abbrev pub Step : Type 0
Step = Exec BacktestError Book (Option PendingOrder)

-- The order waits on, or it is rejected.
abbrev pub wait_or_reject : Bool → PendingOrder → RejectReason → Step
wait_or_reject waits pending reason b =
    if waits then (ok (some pending), b) else (ok none, reject pending.intent reason b)

-- The remainder of a partial fill, a new order with the old expiry date.
abbrev pub remainder_order : (current_date : ℕ) → PendingOrder → OrderIntent → PendingOrder
remainder_order current_date pending x = record pending {
  intent = x;
  target_fill_date = current_date + 1;
}

unfoldable pub requeue : (current_date : ℕ) → PendingOrder → (remainder : ℕ) → Step
requeue current_date pending remainder = do
  x ← lift (order_intent (record pending.intent { quantity = remainder }))
  pure (some (remainder_order current_date pending x))

unfoldable pub after_fill : (current_date : ℕ) → PendingOrder → Fill → Step
after_fill current_date pending fill b =
    let remainder = pending.intent.quantity - fill.quantity in
    let rejection = partially_filled fill.quantity remainder pending.expiry_date in
    if remainder == 0
    then (ok none, b)
    else if ltb current_date pending.expiry_date
    then requeue current_date pending remainder b
    else (ok none, reject pending.intent rejection b)

-- `apply_fill` in its `try`, which lets other errors than the portfolio's own through.
unfoldable pub apply_and_record : (current_date : ℕ) → GainConfig → PendingOrder → Fill → Step
apply_and_record current_date gains pending fill b =
    let (r, p) = apply_fill gains fill b.portfolio in
    elim r [
      | ok trade ↦
          after_fill current_date pending fill
            (record b { portfolio = p; trades = b.trades ++ trade ∷ [] })
      | raised insufficient_cash ↦ (
        ok none,
        reject pending.intent (refused_fill insufficient_cash) (record b { portfolio = p }),
      )
      | raised over_sell ↦
          (ok none, reject pending.intent (refused_fill over_sell) (record b { portfolio = p }))
      | raised e ↦ (raised e, record b { portfolio = p })
    ]

abbrev pub checked_by : Side → (current_date : ℕ) → GainConfig → PendingOrder → Fill → Step
checked_by buy current_date gains pending fill b =
    if can_afford_buy fill b.portfolio
    then apply_and_record current_date gains pending fill b
    else (ok none, reject pending.intent cash_at_fill b)
checked_by sell current_date gains pending fill b =
    if can_afford_sell fill b.portfolio
    then apply_and_record current_date gains pending fill b
    else (ok none, reject pending.intent held_at_fill b)

abbrev pub with_fill : Engine → (current_date : ℕ) → PendingOrder → Option Fill → Step
with_fill engine current_date pending none =
    wait_or_reject (ltb current_date pending.expiry_date) pending
      (never_touched pending.expiry_date)
with_fill engine current_date pending (some fill) =
    checked_by fill.side current_date engine.gain_config pending fill

abbrev pub with_bar : Engine → (current_date : ℕ) → PendingOrder → Option Bar → Step
with_bar engine current_date pending none =
    wait_or_reject (leb current_date pending.expiry_date) pending
      (no_trading_data pending.expiry_date)
with_bar engine current_date pending (some bar) =
    with_fill engine current_date pending (try_fill engine.fill_simulator pending bar)

-- One turn of the loop: the order that stays pending, if any.
unfoldable pub process_pending_order :
    Engine → (current_date : ℕ) → Dict (List Bar) → PendingOrder → Step
process_pending_order engine current_date bars pending b =
    if ltb current_date pending.target_fill_date
    then (ok (some pending), b)
    else with_bar engine current_date pending
        (bar_on current_date (or_else (lookup pending.intent.symbol bars) [])) b

abbrev pub add_pending : Option PendingOrder → List PendingOrder → List PendingOrder
add_pending none rest = rest
add_pending (some pending) rest = pending ∷ rest

unfoldable pub process_pending_orders :
    Engine
    → (current_date : ℕ) → Dict (List Bar)
    → List PendingOrder
    → Exec BacktestError Book (List PendingOrder)
process_pending_orders engine current_date bars [] = pure []
process_pending_orders engine current_date bars (pending ∷ rest) = do
  kept ← process_pending_order engine current_date bars pending
  others ← process_pending_orders engine current_date bars rest
  pure (add_pending kept others)

unfoldable pub queue_order : BacktestConfig → OrderIntent → (decided_date : ℕ) → PendingOrder
queue_order config x decided_date = record {
  intent = x;
  decided_date = decided_date;
  target_fill_date = decided_date + 1;
  expiry_date = decided_date + config.limit_order_expiry_days;
}

unfoldable pub reject_unfilled_orders_at_end : List PendingOrder → Book → Book
reject_unfilled_orders_at_end [] b = b
reject_unfilled_orders_at_end (pending ∷ rest) b =
    reject_unfilled_orders_at_end rest (reject pending.intent ended b)
