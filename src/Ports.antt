-- ===== src/Ports.antt =====
-- The interfaces of src/etf_platform/execution_manager/ports.py that the lifecycle core depends
-- on, and what they exchange (models.py). A port's method may raise; the broker keeps a state of
-- its own type `B`. The record's functions are what any implementation supplies.
use etf_platform_paper_mode.Common.{
  ℕ, ◌*◌, ◌-◌, Bool, true, Option, List, Result, Exec, ltb, ◌==◌, if◌then◌else◌,
}
use etf_platform_paper_mode.Common.Int.{ℤ}
use etf_platform_paper_mode.Cost.{Side}
use etf_platform_paper_mode.Events.{Text}
use etf_platform_paper_mode.Lifecycle.{State, Error}

-- What the core reads of an order that a broker returns; `KiteOrderView` has these fields, and
-- `PaperOrder` has them among others.
pub record BrokerOrder : Type 0 where
  pub broker_order_id : ℕ
  pub symbol : ℕ
  pub state : State
  pub executed_quantity : ℕ
  pub executed_price : Option ℕ
  pub client_reference : Option ℕ

-- `BrokerPort`; a status is asked for by an id that may be None.
pub record BrokerPort (B : Type 0) : Type 0 where
  pub submit_order : ℕ → Side → (quantity limit_price client_reference : ℕ) → Exec Error B ℕ
  pub get_order_status : Option ℕ → Exec Error B BrokerOrder
  pub get_open_orders : Exec Error B (List BrokerOrder)
  pub get_available_cash : Exec Error B ℤ

-- `ComplianceResult`; a missing reason is none.
pub data ComplianceResult : Type 0 where
  pass : ComplianceResult
  fail : Option Text → ComplianceResult

-- `MarketDepthSnapshot`, prices in paise.
pub record MarketDepthSnapshot : Type 0 where
  pub bid_price : ℕ
  pub ask_price : ℕ
  pub bid_quantity : ℕ
  pub ask_quantity : ℕ

-- `spread_pct > max_spread_pct`, the limit in basis points: the spread is infinite without a bid,
-- and otherwise (ask - bid) / bid.
unfoldable pub spread_exceeds : MarketDepthSnapshot → ℕ → Bool
spread_exceeds d max_spread_bps =
    if d.bid_price == 0
    then true
    else ltb (max_spread_bps * d.bid_price) ((d.ask_price - d.bid_price) * 10_000)

-- `LiveQuoteProvider.get_market_depth` and `ComplianceCheckPort.check`
abbrev pub Quotes : Type 0
Quotes = ℕ → Result Error (Option MarketDepthSnapshot)

abbrev pub Compliance : Type 0
Compliance = (symbol quantity limit_price : ℕ) → Result Error ComplianceResult

-- The messages of the notification port.
pub data Message : Type 0 where
  order_reached : (symbol : ℕ) → State → (execution_id : ℕ) → Message
  operator_review : (execution_id cycle_id symbol : ℕ) → Message

-- `NotificationPort.send`, if a port is given.
abbrev pub Notifications : Type 0
Notifications = Option (Message → Result Error (Unit {0}))
