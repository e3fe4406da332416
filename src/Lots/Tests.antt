-- ===== src/Lots/Tests.antt =====
-- Selling four units, of which the older lot has three.
use etf_platform_paper_mode.Common.{ℕ, ◌≡◌, ◌≢◌, ◌≤◌, ◌<◌, List, [], ◌∷◌, ok, raised}
use etf_platform_paper_mode.Cost.{buy, default_config, compute_transaction_cost}
use etf_platform_paper_mode.Lots.{
  insufficient_lots, GainConfig, TaxLot, RealizedGain, Lots, open_lots, total_open_quantity,
  match_sell,
}
use etf_platform_paper_mode.Lots.Fifo.{Accounts, match_sell_lem}

abbrev rates : GainConfig
rates = record {
  stcg_tax_rate = 2_000_000;
  ltcg_tax_rate = 1_250_000;
  long_term_threshold_days = 365;
}

abbrev lot_of : (buy_date quantity buy_price : ℕ) → TaxLot
lot_of buy_date quantity buy_price = record {
  symbol = 3;
  buy_date = buy_date;
  quantity = quantity;
  buy_price = buy_price;
  per = 1;
  buy_cost_breakdown = compute_transaction_cost default_config buy buy_price quantity;
}

abbrev held : Lots
held = (3, lot_of 100 3 10_000 ∷ lot_of 400 5 11_000 ∷ []) ∷ []

match_sell_lem_example :
    let (r, d) = match_sell rates 3 500 4 12_000 held in
    (4 ≤ total_open_quantity 3 held
      → (gains : List RealizedGain) × (r ≡ ok gains)
        × Accounts 4 (open_lots 3 held) (open_lots 3 d) gains)
    × (total_open_quantity 3 held < 4 → (r ≡ raised insufficient_lots) × (open_lots 3 d ≡ []))
    × ((other : ℕ) → other ≢ 3 → open_lots other d ≡ open_lots other held)
match_sell_lem_example = match_sell_lem rates 3 500 4 12_000 held
