-- ===== src/Strategy/Backtested.antt =====
-- The strategy engine in a backtest: `generate_orders` and `_weights_from_portfolio` of
-- src/etf_platform/strategy_engine/strategy.py. The weight of a position is a quotient by the total
-- value; in parts of a billion times that value, which the engine's tolerance counts, it is whole.
pub mod Total
use etf_platform_paper_mode.Common.{
  ℕ, zero, suc, ◌+◌, ◌*◌, ◌==◌, Bool, true, false, Option, none, some, List, [], ◌∷◌, map, Result,
  ok, raised, if◌then◌else◌, or_else,
}
use etf_platform_paper_mode.Common.Int.{ℤ, pos, negsuc}
use etf_platform_paper_mode.Common.Dict.{Dict, lookup, insert}
use etf_platform_paper_mode.Cost.{unit_scale}
use etf_platform_paper_mode.Time.Calendar.{day_of_month}
use etf_platform_paper_mode.Backtest.{
  BacktestError, strategy_failed, Bar, OrderIntent, PortfolioSnapshot,
}
use etf_platform_paper_mode.Backtest.Engine.{Strategy}
use etf_platform_paper_mode.Strategy.{StrategyError, recurring_monthly}
use etf_platform_paper_mode.Strategy.Orders.{
  StrategyEngine, Situation, weight_scale, last_close, build_buy_orders,
}

abbrev pub put_weight : (symbol quantity : ℕ) → Option ℕ → Dict ℕ → Dict ℕ
put_weight symbol quantity none weights = weights
put_weight symbol quantity (some price) weights =
    insert symbol (quantity * price * unit_scale * weight_scale) weights

-- The weights of the positions that have a last close.
unfoldable pub weights_from_portfolio : (positions : Dict ℕ) → Dict (List Bar) → Dict ℕ
weights_from_portfolio [] history = []
weights_from_portfolio ((symbol, quantity) ∷ rest) history =
    put_weight symbol quantity (last_close (or_else (lookup symbol history) []))
      (weights_from_portfolio rest history)

-- The target weights, in billionths, in those parts.
unfoldable pub target_parts : (total : ℕ) → Dict ℕ → Dict ℕ
target_parts total [] = []
target_parts total ((symbol, weight) ∷ rest) = (symbol, weight * total) ∷ target_parts total rest

abbrev pub situation : (as_of_date total : ℕ) → Dict (List Bar) → Situation
situation as_of_date total history = record {
  tolerance = total;
  total_portfolio_value = total;
  price_history = history;
  as_of_date = as_of_date;
  funding_source = recurring_monthly;
}

-- Without cash, or without value, nothing is bought.
abbrev pub orders_for :
    StrategyEngine
    → (as_of_date : ℕ) → Dict (List Bar)
    → Dict ℕ
    → (cash total_value : ℤ) → Result StrategyError (List OrderIntent)
orders_for e as_of_date history positions (negsuc _) _ = ok []
orders_for e as_of_date history positions (pos cash) (negsuc _) = ok []
orders_for e as_of_date history positions (pos cash) (pos total) =
    if cash == 0
    then ok []
    else build_buy_orders e (situation as_of_date total history) cash
        (weights_from_portfolio positions history) (target_parts total e.target_weights)

unfoldable pub generate_orders :
    StrategyEngine
    → (as_of_date : ℕ) → Dict (List Bar)
    → PortfolioSnapshot
    → Result StrategyError (List OrderIntent)
generate_orders e as_of_date history now =
    if day_of_month as_of_date == e.deployment_day_of_month
    then orders_for e as_of_date history now.positions now.cash now.total_value
    else ok []

abbrev pub as_backtest :
    Result StrategyError (List OrderIntent) → Result BacktestError (List OrderIntent)
as_backtest (ok orders) = ok orders
as_backtest (raised _) = raised strategy_failed

-- The engine as the backtest's strategy.
abbrev pub strategy_of : StrategyEngine → Strategy
strategy_of e = record {
  generate_orders =
      λ as_of_date history now. as_backtest (generate_orders e as_of_date history now);
}
