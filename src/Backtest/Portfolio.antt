-- ===== src/Backtest/Portfolio.antt =====
-- The simulated portfolio: src/etf_platform/backtesting/portfolio.py. It holds the tax lots of its
-- cost and tax engine. The tolerance of 1e-6 on cash is 10¹⁰ of its units; on whole units of a
-- symbol the same tolerance means zero.
pub mod Agrees
pub mod Splits
use etf_platform_paper_mode.Common.{
  ℕ, ◌+◌, ◌-◌, ◌*◌, ◌≡◌, ◌==◌, Bool, not, Option, none, some, List, [], ◌∷◌, Result, ok, raised,
  Exec, ltb, leb, if◌then◌else◌, or_else,
}
use etf_platform_paper_mode.Common.Int.{ℤ, pos, negsuc, ◌+ℤ◌, ◌-ℤ◌, leb_ℤ}
use etf_platform_paper_mode.Common.Dict.{Dict, lookup, insert}
use etf_platform_paper_mode.Cost.{Side, buy, sell, unit_scale, CostBreakdown, total_cost}
use etf_platform_paper_mode.Lots.{
  LotError, RealizedGain, GainConfig, Lots, open_lots, record_buy, match_lots, match_sell,
  apply_split,
}
use etf_platform_paper_mode.Backtest.{
  BacktestError, insufficient_cash, over_sell, insufficient_tax_lots, Fill, Trade, EquityCurvePoint,
  DividendReceipt, CorporateActionEvent, split_ratio,
}

pub record Portfolio : Type 0 where
  pub cash : ℤ
  pub positions : Dict ℕ
  pub lots : Lots

abbrev pub new_portfolio : (initial_capital : ℕ) → Portfolio
new_portfolio initial_capital = record {
  cash = pos (initial_capital * unit_scale);
  positions = [];
  lots = [];
}

unfoldable pub position : ℕ → Portfolio → ℕ
position symbol p = or_else (lookup symbol p.positions) 0

-- 1e-6 rupees
abbrev pub cash_tolerance : ℕ
cash_tolerance = 10_000_000_000

abbrev pub gross_units : CostBreakdown → ℕ
gross_units cost = cost.gross_amount * unit_scale

abbrev pub cash_out : Fill → ℕ
cash_out fill = gross_units fill.cost + total_cost fill.cost

unfoldable pub can_afford_buy : Fill → Portfolio → Bool
can_afford_buy fill p = leb_ℤ (pos (cash_out fill)) (p.cash +ℤ pos cash_tolerance)

unfoldable pub can_afford_sell : Fill → Portfolio → Bool
unfolding position
can_afford_sell fill p = leb fill.quantity (position fill.symbol p)

abbrev pub trade_of : Fill → List RealizedGain → Trade
trade_of fill gains = record { fill = fill; realized_gains = gains }

abbrev pub bought : Fill → Portfolio → Portfolio
bought fill p = record {
  cash = p.cash -ℤ pos (cash_out fill);
  positions = insert fill.symbol (position fill.symbol p + fill.quantity) p.positions;
  lots = record_buy fill.symbol fill.fill_date fill.quantity fill.fill_price fill.cost p.lots;
}

unfoldable pub apply_buy : Fill → Exec BacktestError Portfolio Trade
unfolding can_afford_buy position record_buy
apply_buy fill p =
    if can_afford_buy fill p
    then (ok (trade_of fill []), bought fill p)
    else (raised insufficient_cash, p)

-- What a sale leaves, by the outcome of `match_sell`; its lots are kept also if it raised.
abbrev pub sold_by :
    Fill
    → Portfolio
    → Result LotError (List RealizedGain) × Lots
    → Result BacktestError Trade × Portfolio
sold_by fill p (raised e, lots) = (raised insufficient_tax_lots, record p { lots = lots })
sold_by fill p (ok gains, lots) = (
  ok (trade_of fill gains),
  record {
    cash = p.cash +ℤ (pos (gross_units fill.cost) -ℤ pos (total_cost fill.cost));
    positions = insert fill.symbol (position fill.symbol p - fill.quantity) p.positions;
    lots = lots;
  },
)

unfoldable pub apply_sell : GainConfig → Fill → Exec BacktestError Portfolio Trade
unfolding can_afford_sell position match_sell
apply_sell gains fill p =
    if can_afford_sell fill p
    then sold_by fill p
        (match_sell gains fill.symbol fill.fill_date fill.quantity fill.fill_price p.lots)
    else (raised over_sell, p)

abbrev pub apply_by : Side → GainConfig → Fill → Exec BacktestError Portfolio Trade
apply_by buy gains fill = apply_buy fill
apply_by sell gains fill = apply_sell gains fill

unfoldable pub apply_fill : GainConfig → Fill → Exec BacktestError Portfolio Trade
unfolding apply_buy apply_sell
apply_fill gains fill p = apply_by fill.side gains fill p

-- The amount per unit in paise.
unfoldable pub apply_dividend :
    (symbol ex_date amount_per_unit : ℕ) → Portfolio → Option DividendReceipt × Portfolio
unfolding position
apply_dividend symbol ex_date amount_per_unit p =
    let held = position symbol p in
    let credit = held * amount_per_unit in
    if held == 0 then (none, p) else (
      some (record {
        symbol = symbol;
        ex_date = ex_date;
        quantity_held = held;
        amount_per_unit = amount_per_unit;
        total_cash_credited = credit;
      }),
      record p { cash = p.cash +ℤ pos (credit * unit_scale) },
    )

abbrev pub split_event : (symbol ex_date ratio held : ℕ) → CorporateActionEvent
split_event symbol ex_date ratio held = record {
  symbol = symbol;
  ex_date = ex_date;
  ratio = ratio;
  quantity_before = held;
  quantity_after = held * ratio;
}

-- What is left by the outcome of the tax engine's `apply_split`; the position is set before.
abbrev pub split_by :
    CorporateActionEvent
    → Portfolio
    → Result LotError (Unit {0}) × Lots
    → Result BacktestError (Option CorporateActionEvent) × Portfolio
split_by event p (r, lots) =
    let positions = insert event.symbol event.quantity_after p.positions in
    let p' : Portfolio = record { cash = p.cash; positions = positions; lots = lots } in
    elim r [ ok _ ↦ (ok (some event), p') | raised _ ↦ (raised split_ratio, p') ]

-- The portfolio's `apply_split`, with the ratio of the tax engine's.
unfoldable pub split_position :
    (symbol ex_date ratio : ℕ) → Exec BacktestError Portfolio (Option CorporateActionEvent)
split_position symbol ex_date ratio p =
    let held = position symbol p in
    if held == 0
    then (ok none, p)
    else split_by (split_event symbol ex_date ratio held) p (apply_split symbol ratio p.lots)

-- A held symbol without a price counts for nothing.
abbrev pub positions_value : Dict ℕ → (latest_prices : Dict ℕ) → ℕ
positions_value [] latest_prices = 0
positions_value ((symbol, held) ∷ rest) latest_prices =
    held * or_else (lookup symbol latest_prices) 0 + positions_value rest latest_prices

unfoldable pub equity_curve_point :
    (as_of_date : ℕ) → (latest_prices : Dict ℕ) → Portfolio → EquityCurvePoint
equity_curve_point as_of_date latest_prices p = record {
  as_of_date = as_of_date;
  cash = p.cash;
  positions_value = positions_value p.positions latest_prices * unit_scale;
}
