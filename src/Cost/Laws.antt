-- ===== src/Cost/Laws.antt =====
-- How the cost of a transaction of cost_tax_engine.py depends on its size.
use etf_platform_paper_mode.Common.{ℕ, ◌+◌, ◌*◌, ◌-◌, ◌≤◌, ◌≡◌, arith}
use etf_platform_paper_mode.Cost.{
  Side, buy, sell, CostConfig, rate_scale, total_cost, compute_transaction_cost,
}

abbrev pub cost_of : CostConfig → Side → ℕ → ℕ → ℕ
cost_of cfg side price quantity = total_cost (compute_transaction_cost cfg side price quantity)

-- Buying or selling two quantities in one order costs what the two orders cost, less one cost of
-- an empty order (the flat brokerage and the GST on it): all else is proportional.
pub cost_split :
    (cfg : CostConfig) (side : Side) (price q r : ℕ)
    → cost_of cfg side price (q + r) + cost_of cfg side price 0
      ≡ cost_of cfg side price q + cost_of cfg side price r
unfolding total_cost compute_transaction_cost
cost_split cfg buy price q r = grind arith
cost_split cfg sell price q r = grind arith

cost-zero-le :
    (cfg : CostConfig) (side : Side) (price q : ℕ)
    → cost_of cfg side price 0 ≤ cost_of cfg side price q
unfolding total_cost compute_transaction_cost
cost-zero-le cfg buy price q = grind arith
cost-zero-le cfg sell price q = grind arith

-- A larger order never costs less.
pub cost_mono :
    (cfg : CostConfig) (side : Side) (price q r : ℕ)
    → q ≤ r
    → cost_of cfg side price q ≤ cost_of cfg side price r
cost_mono cfg side price q r h = let e : q + (r - q) ≡ r = omega arith in rw e at (added (r - q))
  where
    added : (d : ℕ) → cost_of cfg side price q ≤ cost_of cfg side price (q + d)
    added d = omega (arith, cost_split cfg side price q d, cost-zero-le cfg side price d)

-- What the government takes of an order's value on each side: STT, and stamp duty on a buy only.
abbrev pub duty_rate : Side → CostConfig → ℕ
duty_rate buy cfg = cfg.stt_rate_buy + cfg.stamp_duty_rate_buy
duty_rate sell cfg = cfg.stt_rate_sell

-- The share of an order's value that it costs, in parts of 10⁻¹⁴: fees bear GST, duties and slippage
-- do not.
abbrev pub effective_rate : Side → CostConfig → ℕ
effective_rate side cfg =
    (cfg.brokerage_rate + cfg.exchange_txn_charge_rate + cfg.sebi_turnover_fee_rate)
      * (rate_scale + cfg.gst_rate)
    + (duty_rate side cfg + cfg.slippage_bps * 1_000) * rate_scale

-- An order costs the flat brokerage with the GST on it, whatever its size, and the effective rate of
-- its side on its value, which is its price times its quantity.
pub cost_closed :
    (cfg : CostConfig) (side : Side) (price quantity : ℕ)
    → cost_of cfg side price quantity
      ≡ cfg.brokerage_flat_per_order * rate_scale * (rate_scale + cfg.gst_rate)
        + price * quantity * effective_rate side cfg
unfolding total_cost compute_transaction_cost
cost_closed cfg buy price quantity = grind arith
cost_closed cfg sell price quantity = grind arith
