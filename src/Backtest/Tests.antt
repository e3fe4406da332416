-- ===== src/Backtest/Tests.antt =====
-- A concrete backtest: one symbol, one limit order on its first day.
use etf_platform_paper_mode.Common.{
  ℕ, ◌+◌, ◌-◌, ◌≡◌, some, List, [], ◌∷◌, refl, ok, arith, ◌==◌, if◌then◌else◌, map,
}
use etf_platform_paper_mode.Common.Int.{◌+ℤ◌, ◌-ℤ◌}
use etf_platform_paper_mode.Common.Dict.{Dict}
use etf_platform_paper_mode.Cost.{buy, default_config, compute_transaction_cost, total_cost}
use etf_platform_paper_mode.Lots.{apply_split, total_open_quantity, open_lots, record_buy}
use etf_platform_paper_mode.Backtest.{Bar, limit, OrderIntent, order_intent, PendingOrder, Fill}
use etf_platform_paper_mode.Backtest.Fills.{
  FillSimulator, fill_at, try_fill, fill_price_of, capped, limit_fill_price,
}
use etf_platform_paper_mode.Backtest.Fills.Quality.{IsGoodFill, try_fill-IsGoodFill}
use etf_platform_paper_mode.Backtest.Portfolio.{
  Portfolio, new_portfolio, position, apply_fill, can_afford_buy, apply_buy, split_position,
}
use etf_platform_paper_mode.Backtest.Portfolio.Agrees.{
  Agrees, FillOutcome, affords, apply_fill-FillOutcome,
}
use etf_platform_paper_mode.Backtest.Pending.{
  Book, Engine, bar_on, process_pending_order, process_pending_orders, queue_order,
  apply_and_record, after_fill, requeue,
}
use etf_platform_paper_mode.Backtest.Pending.Processed.{CountsAll, process_pending_orders-CountsAll}
use etf_platform_paper_mode.Backtest.History.{
  Observed, observe_all, observe, build_history_view, bisect_left, symbol_view, looks_ahead,
}
use etf_platform_paper_mode.Backtest.History.Window.{window, build_history_view-window}
use etf_platform_paper_mode.Backtest.Engine.{
  Strategy, run_day, run_days, trade_day, decide, corporate_actions_on, check_stale_prices, Market,
  split, apply_actions, apply_action,
}
use etf_platform_paper_mode.Backtest.Run.{start_run}

abbrev bar_of : (date price volume : ℕ) → Bar
bar_of date price volume = record {
  trade_date = date;
  open_price = price;
  high = price + 100;
  low = price - 100;
  close = price + 50;
  volume = volume;
}

abbrev prices : Dict (List Bar)
prices = (3, bar_of 10 10_000 1_000 ∷ bar_of 11 9_900 30 ∷ bar_of 12 9_950 1_000 ∷ []) ∷ []

abbrev order : OrderIntent
order = record {
  symbol = 3;
  side = buy;
  order_type = limit;
  quantity = 5;
  rationale = 71 ∷ [];
  limit_price = some 10_000;
}

abbrev waiting_order : PendingOrder
waiting_order = record {
  intent = order;
  decided_date = 10;
  target_fill_date = 11;
  expiry_date = 15;
}

abbrev a_tenth : FillSimulator
a_tenth = record { cost_config = default_config; max_participation = some 1_000_000 }

abbrev engine : Engine
engine = record {
  config = record {
    start_date = 10;
    end_date = 20;
    initial_capital = 100_000;
    symbols = 3 ∷ [];
    limit_order_expiry_days = 5;
    lookback_days_provided_to_strategy = 365;
    max_volume_participation_pct = some 1_000_000;
    stale_price_warning_days = 5;
  };
  gain_config = record {
    stcg_tax_rate = 2_000_000;
    ltcg_tax_rate = 1_250_000;
    long_term_threshold_days = 365;
  };
  fill_simulator = a_tenth;
}

abbrev first_day : Strategy
first_day = record {
  generate_orders = λ date history now. ok (if date == 10 then order ∷ [] else []);
}

abbrev empty_portfolio : Portfolio
empty_portfolio = new_portfolio 100_000

empty-Agrees : Agrees empty_portfolio
unfolding position total_open_quantity open_lots
empty-Agrees symbol = refl

-- A split of two for one on the day of the second fill.
abbrev split_market : Market
split_market = record { bars = prices; corporate_actions = (3, (12, split 2) ∷ []) ∷ [] }

-- Three units become six, and two are bought.
split_held :
    (run_days engine first_day split_market
      (10 ∷ 11 ∷ 12 ∷ [])
      (start_run empty_portfolio)).1.book.portfolio.positions
    ≡ (3, 8) ∷ []
unfolding run_days run_day trade_day decide corporate_actions_on check_stale_prices
    process_pending_orders process_pending_order bar_on try_fill fill_price_of limit_fill_price
    capped can_afford_buy apply_and_record apply_fill apply_buy after_fill requeue order_intent
    queue_order build_history_view symbol_view looks_ahead bisect_left observe_all observe position
    record_buy open_lots total_cost compute_transaction_cost ◌+ℤ◌ ◌-ℤ◌ split_position apply_split
    apply_actions apply_action
split_held = refl

-- The volume of day 11 lets three units be filled, and day 12 the other two.
two_fills :
    (map {B = ℕ × (ℕ × ℕ)}
      (λ t. (t.fill.fill_date, (t.fill.quantity, t.fill.fill_price)))
      (run_days engine first_day
        (record { bars = prices; corporate_actions = [] })
        (10 ∷ 11 ∷ 12 ∷ [])
        (start_run empty_portfolio)).1.book.trades)
    ≡ (11, (3, 9_900)) ∷ (12, (2, 9_950)) ∷ []
unfolding run_days run_day trade_day decide corporate_actions_on check_stale_prices
    process_pending_orders process_pending_order bar_on try_fill fill_price_of limit_fill_price
    capped can_afford_buy apply_and_record apply_fill apply_buy after_fill requeue order_intent
    queue_order build_history_view symbol_view looks_ahead bisect_left observe_all observe position
    record_buy open_lots total_cost compute_transaction_cost ◌+ℤ◌ ◌-ℤ◌
two_fills = refl

abbrev book : Book
book = record { portfolio = empty_portfolio; trades = []; rejected_orders = [] }

process_pending_orders_example :
    CountsAll book 5 (process_pending_orders engine 11 prices (waiting_order ∷ []) book)
process_pending_orders_example =
    process_pending_orders-CountsAll engine 11 prices (waiting_order ∷ []) book (empty-Agrees, tt)
      ((refl, omega arith), tt)

abbrev fill : Fill
fill = fill_at default_config waiting_order (bar_of 11 9_900 30) 9_900 3

apply_fill-FillOutcome_example :
    FillOutcome buy fill empty_portfolio
      (affords fill empty_portfolio)
      (apply_fill engine.gain_config fill empty_portfolio)
apply_fill-FillOutcome_example =
    apply_fill-FillOutcome engine.gain_config fill empty_portfolio empty-Agrees

three_filled : try_fill a_tenth waiting_order (bar_of 11 9_900 30) ≡ some fill
unfolding try_fill fill_price_of limit_fill_price capped
three_filled = refl

try_fill-IsGoodFill_example : IsGoodFill a_tenth waiting_order (bar_of 11 9_900 30) fill
try_fill-IsGoodFill_example =
    try_fill-IsGoodFill a_tenth waiting_order (bar_of 11 9_900 30) fill three_filled

abbrev unobserved : Observed
unobserved = record { pointer = []; last_known_price = []; last_price_date = [] }

build_history_view-window_example :
    build_history_view 365 11 prices (observe_all 11 prices unobserved) ≡ ok (window 0 11 prices)
build_history_view-window_example =
    build_history_view-window 365 11 prices unobserved (tt, tt)
      ((omega arith, (omega arith, (omega arith, tt))), tt) (omega arith, tt)
