-- ===== src/Cost.antt =====
-- Transaction costs: src/etf_platform/cost_tax_engine (cost_tax_engine.py and models.py).
-- Prices are whole paise and quantities whole units. A rate is a whole number of ten-millionths,
-- so every line item is a whole number of 10⁻¹⁴ paise, `unit_scale` of them to a paisa: the sums
-- are exact where the floats of the source are rounded.
pub mod Laws
mod Tests
use etf_platform_paper_mode.Common.{ℕ, ◌+◌, ◌*◌}

pub data Side : Type 0 where
  buy sell : Side

abbrev pub rate_scale : ℕ
rate_scale = 10_000_000

abbrev pub unit_scale : ℕ
unit_scale = rate_scale * rate_scale

-- `IndiaEquityCostConfig`, in ten-millionths; the flat brokerage in paise, the slippage in basis
-- points. The tax rates on gains are not used by the cost of a transaction.
pub record CostConfig : Type 0 where
  pub brokerage_rate : ℕ
  pub brokerage_flat_per_order : ℕ
  pub stt_rate_buy : ℕ
  pub stt_rate_sell : ℕ
  pub stamp_duty_rate_buy : ℕ
  pub exchange_txn_charge_rate : ℕ
  pub sebi_turnover_fee_rate : ℕ
  pub gst_rate : ℕ
  pub slippage_bps : ℕ

abbrev pub default_config : CostConfig
default_config = record {
  brokerage_rate = 0;
  brokerage_flat_per_order = 0;
  stt_rate_buy = 10_000;
  stt_rate_sell = 10_000;
  stamp_duty_rate_buy = 1_500;
  exchange_txn_charge_rate = 297;
  sebi_turnover_fee_rate = 10;
  gst_rate = 1_800_000;
  slippage_bps = 5;
}

-- `CostBreakdown`: the gross amount in paise, the line items in 10⁻¹⁴ paise.
pub record CostBreakdown : Type 0 where
  pub gross_amount : ℕ
  pub brokerage : ℕ
  pub stt : ℕ
  pub stamp_duty : ℕ
  pub exchange_txn_charge : ℕ
  pub sebi_turnover_fee : ℕ
  pub gst : ℕ
  pub slippage_cost : ℕ

unfoldable pub total_cost : CostBreakdown → ℕ
total_cost c =
    c.brokerage + c.stt + c.stamp_duty + c.exchange_txn_charge + c.sebi_turnover_fee + c.gst
    + c.slippage_cost

-- A rate of an amount in paise, in ten-millionths of a paisa and in 10⁻¹⁴ paise.
abbrev at_rate : ℕ → ℕ → ℕ
at_rate amount rate = amount * rate

abbrev in_units : ℕ → ℕ
in_units x = x * rate_scale

abbrev stt_rate : Side → CostConfig → ℕ
stt_rate buy cfg = cfg.stt_rate_buy
stt_rate sell cfg = cfg.stt_rate_sell

abbrev stamp_duty_of : Side → ℕ → CostConfig → ℕ
stamp_duty_of buy gross cfg = in_units (at_rate gross cfg.stamp_duty_rate_buy)
stamp_duty_of sell gross cfg = 0

unfoldable pub compute_transaction_cost : CostConfig → Side → (price quantity : ℕ) → CostBreakdown
compute_transaction_cost cfg side price quantity =
    let gross = price * quantity in
    let brokerage = cfg.brokerage_flat_per_order * rate_scale + at_rate gross cfg.brokerage_rate in
    let exchange = at_rate gross cfg.exchange_txn_charge_rate in
    let sebi = at_rate gross cfg.sebi_turnover_fee_rate in
    record {
      gross_amount = gross;
      brokerage = in_units brokerage;
      stt = in_units (at_rate gross (stt_rate side cfg));
      stamp_duty = stamp_duty_of side gross cfg;
      exchange_txn_charge = in_units exchange;
      sebi_turnover_fee = in_units sebi;
      gst = (brokerage + exchange + sebi) * cfg.gst_rate;
      slippage_cost = in_units (at_rate gross (cfg.slippage_bps * 1_000));
    }
