-- ===== src/Quality/Tests.antt =====
-- A gate on two bars of a week.
use etf_platform_paper_mode.Common.{ℕ, ◌≡◌, ◌≤◌, false, none, List, [], ◌∷◌, refl, ok}
use mathlib.Core.Logic.{◌↔◌}
use etf_platform_paper_mode.Backtest.{Bar}
use etf_platform_paper_mode.Backtest.History.{sorted_bars, insert_bar}
use etf_platform_paper_mode.Quality.{
  Validator, validate, issues_of, check_no_data, check_ohlc_consistency, check_negative_or_zero,
  check_duplicates, count_dates, check_price_jump, jumps_from, check_stale_price, stale_from,
  check_missing_trading_days, missing_from, issue_on, missing_trading_day, warning,
}
use etf_platform_paper_mode.Quality.Gate.{Judged, validate-Judged}
use etf_platform_paper_mode.Quality.Missing.{Reports, check_missing_trading_days_lem, IsLacking}

abbrev bar_of : ℕ → Bar
bar_of date = record {
  trade_date = date;
  open_price = 10_000;
  high = 10_100;
  low = 9_900;
  close = 10_050;
  volume = 500;
}

abbrev validator : Validator
validator = record { max_price_jump_pct = 200_000; stale_price_max_days = 10; holidays = [] }

-- Monday and Wednesday.
abbrev bars : List Bar
bars = bar_of 739_621 ∷ bar_of 739_623 ∷ []

validate-Judged_example : Judged 3 bars (validate validator 3 bars [] 739_621 739_623 false none)
validate-Judged_example = validate-Judged validator 3 bars [] 739_621 739_623

-- Tuesday is missing.
tuesday :
    validate validator 3 bars [] 739_621 739_623 false none
    ≡ ok (issue_on 3 739_622 missing_trading_day warning ∷ [])
unfolding validate issues_of check_no_data check_ohlc_consistency check_negative_or_zero
    check_duplicates count_dates check_price_jump jumps_from check_stale_price stale_from
    check_missing_trading_days missing_from sorted_bars insert_bar
tuesday = refl

check_missing_trading_days_example :
    Reports 739_622 (check_missing_trading_days 3 bars 739_621 739_623 [])
    ↔ ((739_621 ≤ 739_622) × (739_622 ≤ 739_623) × IsLacking [] bars 739_622)
check_missing_trading_days_example =
    check_missing_trading_days_lem 3 bars 739_621 739_623 [] 739_622
