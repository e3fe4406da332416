-- ===== src/Cost/Tests.antt =====
-- Costs of small orders at the default rates.
use etf_platform_paper_mode.Common.{◌≡◌, ◌+◌, ◌*◌, refl}
use etf_platform_paper_mode.Cost.{
  buy, sell, rate_scale, default_config, total_cost, compute_transaction_cost,
}
use etf_platform_paper_mode.Cost.Laws.{cost_of, effective_rate, cost_closed}

cost_closed_example :
    cost_of default_config buy 10_000 4
    ≡ default_config.brokerage_flat_per_order * rate_scale * (rate_scale + default_config.gst_rate)
      + 10_000 * 4 * effective_rate buy default_config
cost_closed_example = cost_closed default_config buy 10_000 4

-- Four units at 100 rupees cost 67.4 paise to buy, and 61.4 to sell.
four_units :
    (cost_of default_config buy 10_000 4 ≡ 6_744_904_000_000_000)
    × (cost_of default_config sell 10_000 4 ≡ 6_144_904_000_000_000)
unfolding total_cost compute_transaction_cost
four_units = (refl, refl)
