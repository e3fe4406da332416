-- ===== src/Time/Tests.antt =====
-- The trading session at ten in the morning in India.
use etf_platform_paper_mode.Common.{◌≡◌, refl, ◌+◌, ◌*◌, ◌%◌, ◌&&◌, ok, raised, leb}
use etf_platform_paper_mode.Lifecycle.{naive_datetime}
use etf_platform_paper_mode.Time.{
  naive, aware, minute, day, ist, utc_reading, is_within_nse_trading_hours,
}
use etf_platform_paper_mode.Time.Calendar.{day_of_month, month_of}
use etf_platform_paper_mode.Time.Hours.{session_in_utc}

session_in_utc_example :
    (is_within_nse_trading_hours (naive (600 * minute)) ≡ raised naive_datetime)
    × (is_within_nse_trading_hours (aware (600 * minute) ist)
        ≡ ok (
            leb (225 * minute) (utc_reading (600 * minute) ist % day)
            && leb (utc_reading (600 * minute) ist % day) (600 * minute)))
session_in_utc_example = session_in_utc (600 * minute) ist

-- 29 February 2024 and 1 January 2026.
leap_day : (day_of_month 738_945 ≡ 29) × (month_of 738_945 ≡ 2024 * 12 + 1)
unfolding day_of_month month_of
leap_day = (refl, refl)

new_year : (day_of_month 739_617 ≡ 1) × (month_of 739_617 ≡ 2026 * 12)
unfolding day_of_month month_of
new_year = (refl, refl)
