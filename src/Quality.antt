-- ===== src/Quality.antt =====
-- The data quality gate: src/etf_platform/data_quality (checks.py, validator.py and models.py). Prices
-- are whole paise, where zero stands for `<= 0`; percentages are in ten-thousandths.
pub mod Gate
pub mod Missing
mod Tests
use etf_platform_paper_mode.Common.{
  ℕ, zero, suc, ◌+◌, ◌-◌, ◌*◌, ◌%◌, ◌==◌, Bool, true, false, not, ◌&&◌, ◌||◌, Option, none, some,
  List, [], ◌∷◌, ◌++◌, keep, Result, ok, raised, ltb, leb, if◌then◌else◌, or_else,
}
use etf_platform_paper_mode.Common.Dict.{Dict, lookup, insert}
use etf_platform_paper_mode.Common.Texts.{Text}
use etf_platform_paper_mode.Backtest.{Bar}
use etf_platform_paper_mode.Backtest.History.{sorted_bars}

-- `CriticalDataQualityError` and `ValueError`
pub data QualityError : Type 0 where
  critical_data_quality reason_required : QualityError

pub data Severity : Type 0 where
  info warning critical : Severity

pub data CheckName : Type 0 where
  no_data ohlc_consistency negative_or_zero_price zero_volume duplicate_bar price_jump : CheckName
  stale_price missing_trading_day : CheckName

-- `QualityIssue`; the message is left out.
pub record QualityIssue : Type 0 where
  pub symbol : ℕ
  pub trade_date : Option ℕ
  pub check_name : CheckName
  pub severity : Severity

abbrev pub issue_on : (symbol date : ℕ) → CheckName → Severity → QualityIssue
issue_on symbol date name severity = record {
  symbol = symbol;
  trade_date = some date;
  check_name = name;
  severity = severity;
}

-- An issue if the test says so.
abbrev pub issue_if : Bool → QualityIssue → List QualityIssue
issue_if true issue = issue ∷ []
issue_if false issue = []

unfoldable pub check_no_data : (symbol : ℕ) → List Bar → List QualityIssue
check_no_data symbol [] =
    record { symbol = symbol; trade_date = none; check_name = no_data; severity = critical } ∷ []
check_no_data symbol (_ ∷ _) = []

abbrev pub within : Bar → (price : ℕ) → Bool
within bar price = leb bar.low price && leb price bar.high

-- A bar upside down has no further issues.
abbrev pub bar_consistency : (symbol : ℕ) → Bar → List QualityIssue
bar_consistency symbol bar =
    let issue = issue_on symbol bar.trade_date ohlc_consistency critical in
    if ltb bar.high bar.low
    then issue ∷ []
    else issue_if (not (within bar bar.open_price)) issue
      ++ issue_if (not (within bar bar.close)) issue

unfoldable pub check_ohlc_consistency : (symbol : ℕ) → List Bar → List QualityIssue
check_ohlc_consistency symbol [] = []
check_ohlc_consistency symbol (bar ∷ bars) =
    bar_consistency symbol bar ++ check_ohlc_consistency symbol bars

abbrev pub bar_prices : (symbol : ℕ) → Bar → List QualityIssue
bar_prices symbol bar =
    let issue = issue_on symbol bar.trade_date negative_or_zero_price critical in
    issue_if (bar.open_price == 0) issue
    ++ (issue_if (bar.high == 0) issue
        ++ (issue_if (bar.low == 0) issue
            ++ (issue_if (bar.close == 0) issue
                ++ issue_if (bar.volume == 0)
                    (issue_on symbol bar.trade_date zero_volume warning))))

unfoldable pub check_negative_or_zero : (symbol : ℕ) → List Bar → List QualityIssue
check_negative_or_zero symbol [] = []
check_negative_or_zero symbol (bar ∷ bars) =
    bar_prices symbol bar ++ check_negative_or_zero symbol bars

-- `seen`: how many bars there are of each date, filled from the first bar on.
unfoldable pub count_dates : List Bar → Dict ℕ → Dict ℕ
count_dates [] seen = seen
count_dates (bar ∷ bars) seen =
    count_dates bars (insert bar.trade_date (or_else (lookup bar.trade_date seen) 0 + 1) seen)

abbrev pub duplicates_of : (symbol : ℕ) → Dict ℕ → List QualityIssue
duplicates_of symbol [] = []
duplicates_of symbol ((date, count) ∷ rest) =
    issue_if (ltb 1 count) (issue_on symbol date duplicate_bar critical)
    ++ duplicates_of symbol rest

unfoldable pub check_duplicates : (symbol : ℕ) → List Bar → List QualityIssue
check_duplicates symbol bars = duplicates_of symbol (count_dates bars [])

abbrev pub contains : List ℕ → ℕ → Bool
contains [] date = false
contains (d ∷ dates) date = (d == date) || contains dates date

abbrev pub distance : ℕ → ℕ → ℕ
distance a b = (a - b) + (b - a)

-- `abs((curr - prev) / prev) * 100 > max_jump_pct`
abbrev pub jumps : (max_jump_pct : ℕ) → Bar → Bar → Bool
jumps max_jump_pct prev curr =
    not (prev.close == 0)
    && ltb (max_jump_pct * prev.close) (distance curr.close prev.close * 1_000_000)

abbrev pub explained : Bool → Severity
explained true = info
explained false = critical

unfoldable pub jumps_from :
    (symbol max_jump_pct : ℕ) → (action_dates : List ℕ) → Bar → List Bar → List QualityIssue
jumps_from symbol max_jump_pct action_dates prev [] = []
jumps_from symbol max_jump_pct action_dates prev (curr ∷ bars) =
    issue_if (jumps max_jump_pct prev curr) (
      issue_on symbol curr.trade_date price_jump
        (explained (contains action_dates curr.trade_date)))
    ++ jumps_from symbol max_jump_pct action_dates curr bars

abbrev pub jumps_of :
    (symbol max_jump_pct : ℕ) → (action_dates : List ℕ) → List Bar → List QualityIssue
jumps_of symbol max_jump_pct action_dates [] = []
jumps_of symbol max_jump_pct action_dates (bar ∷ bars) =
    jumps_from symbol max_jump_pct action_dates bar bars

unfoldable pub check_price_jump :
    (symbol max_jump_pct : ℕ) → (action_dates : List ℕ) → List Bar → List QualityIssue
check_price_jump symbol max_jump_pct action_dates bars =
    jumps_of symbol max_jump_pct action_dates (sorted_bars bars)

abbrev pub stale_issue : (symbol max_days run_length : ℕ) → Bar → List QualityIssue
stale_issue symbol max_days run_length last =
    issue_if (ltb max_days run_length) (issue_on symbol last.trade_date stale_price warning)

-- The loop of `check_stale_price`, by the bar before and the length of the run that it ends.
unfoldable pub stale_from : (symbol max_days run_length : ℕ) → Bar → List Bar → List QualityIssue
stale_from symbol max_days run_length prev [] = stale_issue symbol max_days run_length prev
stale_from symbol max_days run_length prev (bar ∷ bars) =
    if bar.close == prev.close
    then stale_from symbol max_days (suc run_length) bar bars
    else stale_issue symbol max_days run_length prev ++ stale_from symbol max_days 1 bar bars

abbrev pub stale_of : (symbol max_days : ℕ) → List Bar → List QualityIssue
stale_of symbol max_days [] = []
stale_of symbol max_days (bar ∷ bars) = stale_from symbol max_days 1 bar bars

unfoldable pub check_stale_price : (symbol max_days : ℕ) → List Bar → List QualityIssue
check_stale_price symbol max_days bars = stale_of symbol max_days (sorted_bars bars)

-- `date.weekday() < 5`
abbrev pub is_weekday : ℕ → Bool
is_weekday date = ltb ((date + 6) % 7) 5

abbrev pub has_bar : List Bar → ℕ → Bool
has_bar [] date = false
has_bar (bar ∷ bars) date = (bar.trade_date == date) || has_bar bars date

abbrev pub is_missing : (holidays : List ℕ) → List Bar → ℕ → Bool
is_missing holidays bars date =
    is_weekday date && (not (contains holidays date) && not (has_bar bars date))

-- The `while` loop, by the number of days left.
unfoldable pub missing_from :
    (symbol : ℕ) → (holidays : List ℕ) → List Bar → (current days : ℕ) → List QualityIssue
missing_from symbol holidays bars current zero = []
missing_from symbol holidays bars current (suc days) =
    issue_if (is_missing holidays bars current)
      (issue_on symbol current missing_trading_day warning)
    ++ missing_from symbol holidays bars (current + 1) days

unfoldable pub check_missing_trading_days :
    (symbol : ℕ) → List Bar → (start end : ℕ) → (holidays : List ℕ) → List QualityIssue
check_missing_trading_days symbol bars start end holidays =
    missing_from symbol holidays bars start (end + 1 - start)

-- `DataQualityValidator`
pub record Validator : Type 0 where
  pub max_price_jump_pct : ℕ
  pub stale_price_max_days : ℕ
  pub holidays : List ℕ

-- Without bars the other checks are skipped.
unfoldable pub issues_of :
    Validator
    → (symbol : ℕ) → List Bar
    → (action_dates : List ℕ) → (start end : ℕ) → List QualityIssue
issues_of v symbol [] action_dates start end = check_no_data symbol []
issues_of v symbol (bar ∷ rest) action_dates start end =
    let bars = bar ∷ rest in
    check_no_data symbol bars
    ++ (check_ohlc_consistency symbol bars
        ++ (check_negative_or_zero symbol bars
            ++ (check_duplicates symbol bars
                ++ (check_price_jump symbol v.max_price_jump_pct action_dates bars
                    ++ (check_stale_price symbol v.stale_price_max_days bars
                        ++ check_missing_trading_days symbol bars start end v.holidays)))))

abbrev pub is_critical : QualityIssue → Bool
is_critical issue = elim issue.severity [ critical ↦ true | _ ↦ false ]

abbrev pub has_critical : List QualityIssue → Bool
has_critical [] = false
has_critical (issue ∷ issues) = is_critical issue || has_critical issues

abbrev pub forced :
    (force : Bool)
    → (force_reason : Option Text) → List QualityIssue
    → Result QualityError (List QualityIssue)
forced false force_reason issues = raised critical_data_quality
forced true none issues = raised reason_required
forced true (some []) issues = raised reason_required
forced true (some (_ ∷ _)) issues = ok issues

-- `validate`: the issues of the report, or an exception.
unfoldable pub validate :
    Validator
    → (symbol : ℕ) → List Bar
    → (action_dates : List ℕ) → (start end : ℕ) → (force : Bool) → (force_reason : Option Text)
    → Result QualityError (List QualityIssue)
validate v symbol bars action_dates start end force force_reason =
    let issues = issues_of v symbol bars action_dates start end in
    if has_critical issues then forced force force_reason issues else ok issues
