-- ===== src/Backtest.antt =====
-- The data of a backtest: src/etf_platform/backtesting/models.py and exceptions.py, and the daily bar of
-- src/etf_platform/data_engine/models.py. Prices are whole paise, where a price of zero stands for the
-- source's `<= 0`; dates count days; cash counts 10⁻¹⁴ paise. Orders are for whole units, as
-- `OrderIntent` demands, so the tolerances of 1e-9 units mean zero.
pub mod Fills
pub mod Portfolio
pub mod Pending
pub mod History
pub mod Engine
pub mod Run
mod Tests
use etf_platform_paper_mode.Common.{
  ℕ, zero, suc, ◌+◌, ◌≡◌, ◌<◌, Bool, true, false, ◌||◌, Option, none, some, List, [], ◌∷◌, Result,
  ok, raised, ◌==◌, leb, if◌then◌else◌,
}
use etf_platform_paper_mode.Common.Int.{ℤ, pos, negsuc, ◌+ℤ◌}
use etf_platform_paper_mode.Common.Dict.{Dict}
use etf_platform_paper_mode.Common.Texts.{Text, is_blank}
use etf_platform_paper_mode.Cost.{Side, buy, sell, CostBreakdown}
use etf_platform_paper_mode.Lots.{RealizedGain}

-- `InvalidOrderError` with its two subclasses of portfolio.py, `LookAheadViolationError`, the
-- `InsufficientLotsError` and the `ValueError` of the tax engine, and whatever a strategy raises.
pub data BacktestError : Type 0 where
  invalid_order insufficient_cash over_sell look_ahead insufficient_tax_lots : BacktestError
  split_ratio strategy_failed : BacktestError

pub data OrderType : Type 0 where
  market limit : OrderType

-- `OHLCVBar`
pub record Bar : Type 0 where
  pub trade_date : ℕ
  pub open_price : ℕ
  pub high : ℕ
  pub low : ℕ
  pub close : ℕ
  pub volume : ℕ

pub record OrderIntent : Type 0 where
  pub symbol : ℕ
  pub side : Side
  pub order_type : OrderType
  pub quantity : ℕ
  pub rationale : Text
  pub limit_price : Option ℕ

abbrev pub lacks_limit : OrderType → Option ℕ → Bool
lacks_limit limit none = true
lacks_limit _ _ = false

-- What `__post_init__` refuses.
abbrev pub is_refused : OrderIntent → Bool
is_refused x = is_blank x.rationale || (x.quantity == 0) || lacks_limit x.order_type x.limit_price

-- The call of the class.
unfoldable pub order_intent : OrderIntent → Result BacktestError OrderIntent
order_intent x = if is_refused x then raised invalid_order else ok x

pub record PendingOrder : Type 0 where
  pub intent : OrderIntent
  pub decided_date : ℕ
  pub target_fill_date : ℕ
  pub expiry_date : ℕ

pub record Fill : Type 0 where
  pub symbol : ℕ
  pub side : Side
  pub order_type : OrderType
  pub quantity : ℕ
  pub fill_price : ℕ
  pub fill_date : ℕ
  pub decided_date : ℕ
  pub cost : CostBreakdown
  pub rationale : Text

pub record Trade : Type 0 where
  pub fill : Fill
  pub realized_gains : List RealizedGain

-- `EquityCurvePoint`, in 10⁻¹⁴ paise.
pub record EquityCurvePoint : Type 0 where
  pub as_of_date : ℕ
  pub cash : ℤ
  pub positions_value : ℕ

abbrev pub total_value : EquityCurvePoint → ℤ
total_value point = point.cash +ℤ pos point.positions_value

pub record PortfolioSnapshot : Type 0 where
  pub as_of_date : ℕ
  pub cash : ℤ
  pub positions : Dict ℕ
  pub total_value : ℤ

-- The fields of `BacktestConfig` that the engine reads; the participation in ten-millionths.
pub record BacktestConfig : Type 0 where
  pub start_date : ℕ
  pub end_date : ℕ
  pub initial_capital : ℕ
  pub symbols : List ℕ
  pub limit_order_expiry_days : ℕ
  pub lookback_days_provided_to_strategy : ℕ
  pub max_volume_participation_pct : Option ℕ
  pub stale_price_warning_days : ℕ

abbrev has_none : List ℕ → Bool
has_none [] = true
has_none (_ ∷ _) = false

unfoldable pub backtest_config : BacktestConfig → Result BacktestError BacktestConfig
backtest_config c =
    if leb c.end_date c.start_date || (c.initial_capital == 0) || has_none c.symbols
    then raised invalid_order
    else ok c

-- `CorporateActionEvent`; its action type is always "split_or_bonus".
pub record CorporateActionEvent : Type 0 where
  pub symbol : ℕ
  pub ex_date : ℕ
  pub ratio : ℕ
  pub quantity_before : ℕ
  pub quantity_after : ℕ

-- `DividendReceipt`: the amount per unit and the credit in paise.
pub record DividendReceipt : Type 0 where
  pub symbol : ℕ
  pub ex_date : ℕ
  pub quantity_held : ℕ
  pub amount_per_unit : ℕ
  pub total_cash_credited : ℕ

-- Why an order was rejected: the texts of engine.py, with the values they show.
pub data RejectReason : Type 0 where
  no_trading_data never_touched : (expiry : ℕ) → RejectReason
  cash_at_fill held_at_fill ended : RejectReason
  refused_fill : BacktestError → RejectReason
  partially_filled : (filled remainder expiry : ℕ) → RejectReason
