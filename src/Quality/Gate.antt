-- ===== src/Quality/Gate.antt =====
-- What the gate of validator.py lets through.
use etf_platform_paper_mode.Common.{
  ℕ, ◌≡◌, ◌≢◌, Bool, true, false, ◌||◌, none, List, [], ◌∷◌, ◌++◌, inl, inr, refl, sym, ◌∙◌, ltb,
  if◌then◌else◌, arith, Bool-cases, Result, ok, raised, All,
}
use etf_platform_paper_mode.Backtest.{Bar}
use etf_platform_paper_mode.Backtest.Fills.Quality.{IsBar}
use etf_platform_paper_mode.Backtest.Run.{any_insane, fails_sanity}
use etf_platform_paper_mode.Quality.{
  QualityError, QualityIssue, check_no_data, within, bar_consistency, check_ohlc_consistency,
  bar_prices, check_negative_or_zero, check_duplicates, check_price_jump, check_stale_price,
  check_missing_trading_days, Validator, issues_of, has_critical, forced, validate,
}

has_critical-++ :
    (xs ys : List QualityIssue) → has_critical (xs ++ ys) ≡ has_critical xs || has_critical ys
has_critical-++ [] ys = refl
has_critical-++ (x ∷ xs) ys = let rest = has_critical-++ xs ys in ground arith

-- A list without critical issues has none in either part.
neither :
    (xs ys : List QualityIssue)
    → has_critical (xs ++ ys) ≡ false
    → (has_critical xs ≡ false) × (has_critical ys ≡ false)
neither xs ys h = let both = sym (has_critical-++ xs ys) ∙ h in ground arith

bar_is_consistent :
    (symbol : ℕ) (bar : Bar)
    → has_critical (bar_consistency symbol bar) ≡ false
    → (ltb bar.high bar.low ≡ false) × IsBar bar
bar_is_consistent symbol bar h = elim (Bool-cases (ltb bar.high bar.low)) [
  | inl t ↦ let shown = rw t at h in absurd (ground arith)
  | inr t ↦ elim (Bool-cases (within bar bar.open_price)) [
    | inl w ↦ (t, ground arith)
    | inr w ↦ let shown = rw (t, w) at h in absurd (ground arith)
  ]
]

bar_has_prices :
    (symbol : ℕ) (bar : Bar)
    → has_critical (bar_prices symbol bar) ≡ false
    → (bar.open_price ≢ 0) × (bar.high ≢ 0) × (bar.low ≢ 0) × (bar.close ≢ 0)
bar_has_prices symbol bar h = (
  (λ z. let shown = rw z at h in absurd (ground arith)),
  (λ z. let shown = rw z at h in absurd (ground arith)),
  (λ z. let shown = rw z at h in absurd (ground arith)),
  λ z. let shown = rw z at h in absurd (ground arith),
)

bars_are_sane :
    (symbol : ℕ) (bars : List Bar)
    → has_critical (check_ohlc_consistency symbol bars) ≡ false
    → has_critical (check_negative_or_zero symbol bars) ≡ false
    → (any_insane bars ≡ false) × All IsBar bars
unfolding check_ohlc_consistency check_negative_or_zero
bars_are_sane symbol [] c n = (refl, tt)
bars_are_sane symbol (bar ∷ bars) c n =
    let (here, later) =
      neither (bar_consistency symbol bar) (check_ohlc_consistency symbol bars) c in
    let (priced, all_priced) =
      neither (bar_prices symbol bar) (check_negative_or_zero symbol bars) n in
    let (upright, is_bar) = bar_is_consistent symbol bar here in
    let (o, h, l, k) = bar_has_prices symbol bar priced in
    let (sane, all) = bars_are_sane symbol bars later all_priced in (ground arith, (is_bar, all))

-- There are bars, they pass the sanity check of the backtest, and each opens within its range.
abbrev pub IsFit : (symbol : ℕ) → List Bar → Type 0
IsFit symbol bars = (bars ≢ []) × (fails_sanity ((symbol, bars) ∷ []) ≡ false) × All IsBar bars

abbrev pub Judged : (symbol : ℕ) → List Bar → Result QualityError (List QualityIssue) → Type 0
Judged symbol bars (raised e) = e ≡ QualityError.critical_data_quality
Judged symbol bars (ok issues) = (has_critical issues ≡ false) × IsFit symbol bars

unforced :
    (symbol : ℕ) (bars : List Bar) (issues : List QualityIssue)
    → (has_critical issues ≡ false → IsFit symbol bars)
    → Judged symbol bars (if has_critical issues then forced false none issues else ok issues)
unforced symbol bars issues fit = by_test (has_critical issues) refl
  where
    by_test :
        (test : Bool)
        → has_critical issues ≡ test
        → Judged symbol bars (if test then forced false none issues else ok issues)
    by_test true t = refl
    by_test false t = (t, fit t)

-- Without force, the gate either raises CriticalDataQualityError or lets through bars, at least one,
-- that pass the sanity check of the backtesting engine and open within their range of prices, with a
-- report that has no critical issue.
pub validate-Judged :
    (v : Validator) (symbol : ℕ) (bars : List Bar) (action_dates : List ℕ) (start end : ℕ)
    → Judged symbol bars (validate v symbol bars action_dates start end false none)
unfolding validate issues_of check_no_data fails_sanity
validate-Judged v symbol [] action_dates start end = refl
validate-Judged v symbol (bar ∷ rest) action_dates start end =
    let bars = bar ∷ rest in
    let stale = check_stale_price symbol v.stale_price_max_days bars in
    let missing = check_missing_trading_days symbol bars start end v.holidays in
    let jumps = check_price_jump symbol v.max_price_jump_pct action_dates bars in
    let others = check_duplicates symbol bars ++ (jumps ++ (stale ++ missing)) in
    unforced symbol bars
      (check_ohlc_consistency symbol bars ++ (check_negative_or_zero symbol bars ++ others))
      (λ h.
        let (consistent, h') =
          neither (check_ohlc_consistency symbol bars)
            (check_negative_or_zero symbol bars ++ others) h in
        let (positive, _) = neither (check_negative_or_zero symbol bars) others h' in
        let (sane, all) = bars_are_sane symbol bars consistent positive in
        ((λ e. absurd (cc e)), ground arith, all))
