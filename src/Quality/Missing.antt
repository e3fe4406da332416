-- ===== src/Quality/Missing.antt =====
-- Which days `check_missing_trading_days` of checks.py reports.
use etf_platform_paper_mode.Common.{
  ℕ, zero, suc, ◌+◌, ◌-◌, ◌≡◌, ◌≤◌, ◌<◌, ◌⊎◌, ◌%◌, ◌==◌, All, Bool, true, false, Option, some, List,
  [], ◌∷◌, ◌++◌, inl, inr, refl, sym, ◌∙◌, arith, subst, ap,
}
use mathlib.Core.Logic.{◌↔◌}
use native.Mathlib.Decide.{ℕ_discrete}
use etf_platform_paper_mode.Backtest.{Bar}
use etf_platform_paper_mode.Quality.{
  QualityIssue, issue_if, issue_on, is_missing, missing_from, check_missing_trading_days,
  missing_trading_day, warning, is_weekday, contains, has_bar,
}

abbrev pub Reports : (date : ℕ) → List QualityIssue → Type 0
Reports date [] = ⊥
Reports date (issue ∷ issues) = (issue.trade_date ≡ some date) ⊎ Reports date issues

not_same : (a b : ℕ) → ¬ (a ≡ b) → (a == b) ≡ false
not_same a b ne = ground arith

some_inj : (a b : ℕ) → Path (Option ℕ) (some a) (some b) → a ≡ b
some_inj a b h = cc

true-false : ¬ (true ≡ false)
true-false h = cc h

-- A day in the range, at or after `current`.
abbrev InDays : (current days date : ℕ) → Type 0
InDays current days date = (current ≤ date) × (date < current + days)

module _ (symbol : ℕ) (holidays : List ℕ) (bars : List Bar) (date : ℕ) where
  reported :
      (current days : ℕ)
      → Reports date (missing_from symbol holidays bars current days)
      → InDays current days date × (is_missing holidays bars date ≡ true)
  unfolding missing_from
  reported current zero h = absurd h
  reported current (suc days) h =
      by_test (is_missing holidays bars current) refl (λ r. reported (current + 1) days r) h
    where
      by_test :
          (test : Bool)
          → is_missing holidays bars current ≡ test
          → (Reports date (missing_from symbol holidays bars (current + 1) days)
              → InDays (current + 1) days date × (is_missing holidays bars date ≡ true))
          → Reports date (
              issue_if test (issue_on symbol current missing_trading_day warning)
              ++ missing_from symbol holidays bars (current + 1) days)
          → InDays current (suc days) date × (is_missing holidays bars date ≡ true)
      by_test true t later (inl here) =
          let same = some_inj current date here in
          ((omega arith, omega arith), subst (λ d. is_missing holidays bars d ≡ true) same t)
      by_test true t later (inr there) =
          let ((from, to), missing) = later there in ((omega arith, omega arith), missing)
      by_test false t later there =
          let ((from, to), missing) = later there in ((omega arith, omega arith), missing)

  day_found :
      (current days : ℕ)
      → InDays current days date
      → is_missing holidays bars date ≡ true
      → Reports date (missing_from symbol holidays bars current days)
  unfolding missing_from
  day_found current zero (from, to) h = absurd (omega arith)
  day_found current (suc days) (from, to) h =
      by_test (is_missing holidays bars current) refl (λ r. day_found (current + 1) days r h)
    where
      by_test :
          (test : Bool)
          → is_missing holidays bars current ≡ test
          → (InDays (current + 1) days date
              → Reports date (missing_from symbol holidays bars (current + 1) days))
          → Reports date (
              issue_if test (issue_on symbol current missing_trading_day warning)
              ++ missing_from symbol holidays bars (current + 1) days)
      by_test true t later = elim (ℕ_discrete current date) [
        | yes same ↦ inl (ap some same)
        | no other ↦ inr (later (omega arith, omega arith))
      ]
      by_test false t later = elim (ℕ_discrete current date) [
        | yes same ↦
            let not_missing = subst (λ d. is_missing holidays bars d ≡ false) same t in
            absurd (true-false (sym h ∙ not_missing))
        | no other ↦ later (omega arith, omega arith)
      ]

-- A day that is neither a Saturday nor a Sunday; day 6 is a Saturday, and day 7 a Sunday.
abbrev pub IsWorkday : ℕ → Type 0
IsWorkday date = ¬ (date % 7 ≡ 6) × ¬ (date % 7 ≡ 0)

-- A day on which a bar was due and none is there.
abbrev pub IsLacking : (holidays : List ℕ) → List Bar → ℕ → Type 0
IsLacking holidays bars date =
    IsWorkday date
    × All (λ holiday. ¬ (holiday ≡ date)) holidays
    × All (λ bar. ¬ (bar.trade_date ≡ date)) bars

no_holiday :
    (holidays : List ℕ) (date : ℕ)
    → contains holidays date ≡ false
    → All (λ holiday. ¬ (holiday ≡ date)) holidays
no_holiday [] date h = tt
no_holiday (d ∷ ds) date h = ((λ e. ground arith), no_holiday ds date (ground arith))

not_contained :
    (holidays : List ℕ) (date : ℕ)
    → All (λ holiday. ¬ (holiday ≡ date)) holidays
    → contains holidays date ≡ false
not_contained [] date h = refl
not_contained (d ∷ ds) date (ne, h) = rw (not_same d date ne, not_contained ds date h) refl

no_bar :
    (bars : List Bar) (date : ℕ)
    → has_bar bars date ≡ false
    → All (λ bar. ¬ (bar.trade_date ≡ date)) bars
no_bar [] date h = tt
no_bar (bar ∷ bars) date h = ((λ e. ground arith), no_bar bars date (ground arith))

not_barred :
    (bars : List Bar) (date : ℕ)
    → All (λ bar. ¬ (bar.trade_date ≡ date)) bars
    → has_bar bars date ≡ false
not_barred [] date h = refl
not_barred (bar ∷ bars) date (ne, h) =
    rw (not_same bar.trade_date date ne, not_barred bars date h) refl

missing-IsLacking :
    (holidays : List ℕ) (bars : List Bar) (date : ℕ)
    → (is_missing holidays bars date ≡ true) ↔ IsLacking holidays bars date
missing-IsLacking holidays bars date = (
  (λ h.
      let due : is_weekday date ≡ true = ground arith in
      let open_day : contains holidays date ≡ false = ground arith in
      let absent : has_bar bars date ≡ false = ground arith in
      (
        ((λ e. ground arith), (λ e. ground arith)),
        no_holiday holidays date open_day,
        no_bar bars date absent,
      )),
  λ ((not_saturday, not_sunday), free, absent).
      let open_day = not_contained holidays date free in
      let none_there = not_barred bars date absent in
      let early : (date + 6) % 7 < 5 = omega arith in rw (open_day, none_there) (ground arith),
)

-- A day is reported exactly if it is in the range, neither a Saturday nor a Sunday and none of the
-- holidays, and no bar is of it.
pub check_missing_trading_days_lem :
    (symbol : ℕ) (bars : List Bar) (start end : ℕ) (holidays : List ℕ) (date : ℕ)
    → Reports date (check_missing_trading_days symbol bars start end holidays)
      ↔ ((start ≤ date) × (date ≤ end) × IsLacking holidays bars date)
unfolding check_missing_trading_days
check_missing_trading_days_lem symbol bars start end holidays date =
    let (lacks, missed) = missing-IsLacking holidays bars date in
    (
      (λ h.
          let ((from, to), missing) =
            reported symbol holidays bars date start (end + 1 - start) h in
          (from, omega arith, lacks missing)),
      λ (from, to, lacking).
          day_found symbol holidays bars date start (end + 1 - start) (from, omega arith)
            (missed lacking),
    )
