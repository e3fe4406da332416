-- ===== src/Strategy/Orders.antt =====
-- The orders that the strategy engine proposes: `_build_buy_orders` and its helpers of
-- src/etf_platform/strategy_engine/strategy.py, and limit_pricing.py. A weight of 1 has
-- `weight_scale * tolerance` parts, where `tolerance` of them are 1e-9. Capital, the portfolio's
-- value and what an order spends are in 10⁻¹⁴ paise, budgets in one part of that.
pub mod Budget
use Prim.Native.Nat.{min}
use etf_platform_paper_mode.Common.{
  ℕ, zero, suc, ◌+◌, ◌-◌, ◌*◌, ◌/◌, ◌%◌, ◌==◌, Bool, true, false, ◌||◌, ◌&&◌, Option, none, some,
  List, [], ◌∷◌, Result, ok, raised, ltb, leb, if◌then◌else◌, or_else,
}
use etf_platform_paper_mode.Common.Int.{ℤ, pos, negsuc}
use etf_platform_paper_mode.Common.Dict.{Dict, lookup}
use etf_platform_paper_mode.Common.Texts.{Text}
use etf_platform_paper_mode.Cost.{
  Side, buy, sell, CostConfig, rate_scale, unit_scale, total_cost, compute_transaction_cost,
}
use etf_platform_paper_mode.Backtest.{Bar, limit, OrderIntent, order_intent}
use etf_platform_paper_mode.Strategy.{
  StrategyError, value_error, sell_instruction_attempted, refused_order, ContributionSource,
  BuyOpportunity, Explanation, as_text,
}
use etf_platform_paper_mode.Strategy.Priority.{prioritize_by_gap}

-- `StrategyEngine`: its settings, and the market intelligence port, which answers with a text here
-- or raises.
pub record StrategyEngine : Type 0 where
  pub target_weights : Dict ℕ
  pub deployment_day_of_month : ℕ
  pub limit_price_buffer_pct : ℤ
  pub cost_config : CostConfig
  pub market_context : (as_of_date : ℕ) → Result StrategyError (Option Text)
  pub render : Explanation → Text

-- `__init__` refuses a day that some month does not have.
unfoldable pub strategy_engine : StrategyEngine → Result StrategyError StrategyEngine
strategy_engine e =
    if leb 1 e.deployment_day_of_month && leb e.deployment_day_of_month 28
    then ok e
    else raised value_error

-- `round` to a whole paisa, half to even, of a number of ten-millionths.
unfoldable pub rounded : ℕ → ℕ
rounded n =
    let whole = n / rate_scale in
    let twice = n % rate_scale * 2 in
    if ltb twice rate_scale
    then whole
    else if (twice == rate_scale) && (whole % 2 == 0)
    then whole
    else whole + 1

unfoldable pub compute_limit_price : (last_close : ℕ) → ℤ → Result StrategyError ℕ
compute_limit_price last_close (negsuc _) = raised value_error
compute_limit_price last_close (pos buffer) =
    if last_close == 0
    then raised value_error
    else ok (rounded (last_close * (rate_scale + buffer)))

abbrev pub weight_scale : ℕ
weight_scale = 1_000_000_000

-- `quantity * price + cost.total_cost`
unfoldable pub total_spent : CostConfig → (price quantity : ℕ) → ℕ
total_spent cfg price quantity =
    quantity * price * unit_scale + total_cost (compute_transaction_cost cfg buy price quantity)

-- The `while` of `_affordable_quantity`, which counts down; `parts` is the parts of a unit of money.
unfoldable pub countdown : CostConfig → (parts price budget quantity : ℕ) → ℕ
countdown cfg parts price budget zero = 0
countdown cfg parts price budget (suc q) =
    let rest = countdown cfg parts price budget q in
    if leb (total_spent cfg price (suc q) * parts) budget then suc q else rest

unfoldable pub affordable_units : CostConfig → (parts price budget : ℕ) → ℕ
affordable_units cfg parts price budget =
    if (price == 0) || (budget == 0)
    then 0
    else countdown cfg parts price budget (budget / (price * unit_scale * parts))

-- The last close of a symbol, or nothing to go by.
abbrev pub last_close : List Bar → Option ℕ
last_close [] = none
last_close (bar ∷ []) = if bar.close == 0 then none else some bar.close
last_close (_ ∷ bar ∷ bars) = last_close (bar ∷ bars)

-- What all orders of a cycle share.
pub record Situation : Type 0 where
  pub tolerance : ℕ
  pub total_portfolio_value : ℕ
  pub price_history : Dict (List Bar)
  pub as_of_date : ℕ
  pub funding_source : ContributionSource

abbrev pub parts_of : Situation → ℕ
parts_of x = weight_scale * x.tolerance

-- The budget for a symbol, in one part of 10⁻¹⁴ paise.
abbrev pub budget_for : Situation → (remaining_cash : ℕ) → BuyOpportunity → ℕ
budget_for x remaining_cash o = min (remaining_cash * parts_of x) (o.gap * x.total_portfolio_value)

abbrev pub proposal :
    StrategyEngine
    → Situation
    → BuyOpportunity
    → (rank price quantity : ℕ) → (context : Option Text) → OrderIntent
proposal e x o rank price quantity context = record {
  symbol = o.symbol;
  side = buy;
  order_type = limit;
  quantity = quantity;
  rationale = as_text e.render (record {
    symbol = o.symbol;
    gap_at_decision_time = o.gap;
    priority_rank = rank;
    funding_source = x.funding_source;
    market_context = context;
  });
  limit_price = some price;
}

abbrev pub add_order :
    OrderIntent → Result StrategyError (List OrderIntent) → Result StrategyError (List OrderIntent)
add_order order (ok orders) = ok (order ∷ orders)
add_order order (raised e) = raised e

-- The order of a size, with what it spends, once the market context is known.
abbrev pub explained_order :
    StrategyEngine
    → Situation
    → BuyOpportunity
    → (rank price quantity : ℕ) → Result StrategyError (Option Text)
    → Result StrategyError (Option (OrderIntent × ℕ))
explained_order e x o rank price quantity (raised error) = raised error
explained_order e x o rank price quantity (ok context) =
    elim (order_intent (proposal e x o rank price quantity context)) [
      | ok order ↦ ok (some (order, total_spent e.cost_config price quantity))
      | raised _ ↦ raised refused_order
    ]

-- The order for an opportunity, with what it spends.
abbrev pub sized_order :
    StrategyEngine
    → Situation
    → (remaining_cash : ℕ) → BuyOpportunity
    → (rank price : ℕ) → Result StrategyError (Option (OrderIntent × ℕ))
sized_order e x remaining_cash o rank price =
    let quantity =
      affordable_units e.cost_config (parts_of x) price (budget_for x remaining_cash o) in
    if quantity == 0
    then ok none
    else explained_order e x o rank price quantity (e.market_context x.as_of_date)

abbrev pub priced_order :
    StrategyEngine
    → Situation
    → (remaining_cash : ℕ) → BuyOpportunity
    → (rank : ℕ) → Result StrategyError ℕ
    → Result StrategyError (Option (OrderIntent × ℕ))
priced_order e x remaining_cash o rank (raised error) = raised error
priced_order e x remaining_cash o rank (ok price) = sized_order e x remaining_cash o rank price

abbrev pub order_at :
    StrategyEngine
    → Situation
    → (remaining_cash : ℕ) → BuyOpportunity
    → (rank : ℕ) → Option ℕ
    → Result StrategyError (Option (OrderIntent × ℕ))
order_at e x remaining_cash o rank none = ok none
order_at e x remaining_cash o rank (some close) =
    priced_order e x remaining_cash o rank (compute_limit_price close e.limit_price_buffer_pct)

-- One turn of the loop of `_build_buy_orders`: an order with what it spends, or `continue`.
unfoldable pub order_for :
    StrategyEngine
    → Situation
    → (remaining_cash : ℕ) → BuyOpportunity
    → (rank : ℕ) → Result StrategyError (Option (OrderIntent × ℕ))
order_for e x remaining_cash o rank =
    order_at e x remaining_cash o rank (last_close (or_else (lookup o.symbol x.price_history) []))

unfoldable pub buy_orders :
    StrategyEngine
    → Situation
    → List BuyOpportunity
    → (rank remaining_cash : ℕ) → Result StrategyError (List OrderIntent)
buy_orders e x [] rank remaining_cash = ok []
buy_orders e x (o ∷ rest) rank remaining_cash =
    if remaining_cash == 0 then ok [] else elim (order_for e x remaining_cash o rank) [
      | raised error ↦ raised error
      | ok none ↦ buy_orders e x rest (rank + 1) remaining_cash
      | ok (some (order, spent)) ↦
          add_order order (buy_orders e x rest (rank + 1) (remaining_cash - spent))
    ]

abbrev pub is_buy : Side → Bool
is_buy buy = true
is_buy sell = false

abbrev pub all_buy : List OrderIntent → Bool
all_buy [] = true
all_buy (order ∷ orders) = is_buy order.side && all_buy orders

-- `_assert_all_buy_only`
abbrev pub assert_all_buy_only :
    Result StrategyError (List OrderIntent) → Result StrategyError (List OrderIntent)
assert_all_buy_only (raised error) = raised error
assert_all_buy_only (ok orders) =
    if all_buy orders then ok orders else raised sell_instruction_attempted

unfoldable pub build_buy_orders :
    StrategyEngine
    → Situation
    → (available_capital : ℕ) → (current_weights target_weights : Dict ℕ)
    → Result StrategyError (List OrderIntent)
build_buy_orders e x available_capital current target =
    if (available_capital == 0) || (x.total_portfolio_value == 0)
    then ok []
    else assert_all_buy_only
        (buy_orders e x (prioritize_by_gap x.tolerance current target) 1 available_capital)
