-- ===== src/Time/Calendar.antt =====
-- A `date` as Python counts it, `date.toordinal`, with what the program reads of it: the day of its
-- month and its month.
use etf_platform_paper_mode.Common.{ℕ, ◌+◌, ◌-◌, ◌*◌, ◌/◌, ◌%◌}

-- Years here start in March, so that a leap day is a last one; eras have 400 years.
abbrev from_march : ℕ → ℕ
from_march date = date + 305

abbrev day_of_era : ℕ → ℕ
day_of_era date = from_march date % 146_097

abbrev year_of_era : ℕ → ℕ
year_of_era date =
    let doe = day_of_era date in (doe - doe / 1_460 + doe / 36_524 - doe / 146_096) / 365

abbrev day_of_year : ℕ → ℕ
day_of_year date = let yoe = year_of_era date in day_of_era date - (365 * yoe + yoe / 4 - yoe / 100)

abbrev month_from_march : ℕ → ℕ
month_from_march date = (5 * day_of_year date + 2) / 153

-- `date.day`
unfoldable pub day_of_month : ℕ → ℕ
day_of_month date = day_of_year date - (153 * month_from_march date + 2) / 5 + 1

-- `date.strftime("%Y-%m")`, as the number of months since January of year 0.
unfoldable pub month_of : ℕ → ℕ
month_of date =
    (from_march date / 146_097 * 400 + year_of_era date) * 12 + month_from_march date + 2
