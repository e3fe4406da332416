-- ===== src/Backtest/Fills.antt =====
-- What a bar fills of an order: src/etf_platform/backtesting/fill_simulator.py.
pub mod Quality
use Prim.Native.Nat.{min, max}
use etf_platform_paper_mode.Common.{
  ℕ, ◌+◌, ◌*◌, ◌/◌, ◌≤◌, ◌<◌, ◌≡◌, ◌==◌, Bool, true, false, Option, none, some, inl, inr, refl, ltb,
  leb, if◌then◌else◌, arith, Bool-cases,
}
use etf_platform_paper_mode.Cost.{Side, buy, sell, CostConfig, rate_scale, compute_transaction_cost}
use etf_platform_paper_mode.Backtest.{Bar, market, limit, OrderIntent, PendingOrder, Fill}

-- `FillSimulator`
pub record FillSimulator : Type 0 where
  pub cost_config : CostConfig
  pub max_participation : Option ℕ

unfoldable pub limit_fill_price : Side → (limit_price : ℕ) → Bar → Option ℕ
limit_fill_price buy limit_price bar =
    if ltb limit_price bar.low then none else some (min limit_price bar.open_price)
limit_fill_price sell limit_price bar =
    if ltb bar.high limit_price then none else some (max limit_price bar.open_price)

-- The price at which the bar fills the order. A LIMIT order has a limit, as `OrderIntent` demands.
unfoldable pub fill_price_of : OrderIntent → Bar → Option ℕ
unfolding limit_fill_price
fill_price_of x bar = elim x.order_type [
  | market ↦ some bar.open_price
  | limit ↦ elim x.limit_price [ none ↦ none | some l ↦ limit_fill_price x.side l bar ]
]

abbrev pub some_units : ℕ → Option ℕ
some_units n = if n == 0 then none else some n

-- The quantity under the participation cap, `bar.volume * pct`, in whole units; no fill if the cap
-- leaves none.
unfoldable pub capped : Option ℕ → (volume quantity : ℕ) → Option ℕ
capped none volume quantity = some quantity
capped (some pct) volume quantity =
    if ltb (volume * pct) (quantity * rate_scale)
    then some_units (volume * pct / rate_scale)
    else some quantity

abbrev pub fill_at : CostConfig → PendingOrder → Bar → (price quantity : ℕ) → Fill
fill_at cfg pending bar price quantity = record {
  symbol = pending.intent.symbol;
  side = pending.intent.side;
  order_type = pending.intent.order_type;
  quantity = quantity;
  fill_price = price;
  fill_date = bar.trade_date;
  decided_date = pending.decided_date;
  cost = compute_transaction_cost cfg pending.intent.side price quantity;
  rationale = pending.intent.rationale;
}

abbrev pub filled_at :
    FillSimulator → PendingOrder → Bar → (price quantity : Option ℕ) → Option Fill
filled_at sim pending bar (some price) (some quantity) =
    some (fill_at sim.cost_config pending bar price quantity)
filled_at sim pending bar _ _ = none

unfoldable pub try_fill : FillSimulator → PendingOrder → Bar → Option Fill
unfolding fill_price_of capped
try_fill sim pending bar =
    filled_at sim pending bar (fill_price_of pending.intent bar)
      (capped sim.max_participation bar.volume pending.intent.quantity)
