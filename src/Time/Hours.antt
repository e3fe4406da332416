-- ===== src/Time/Hours.antt =====
-- The NSE session of execution_manager/timezone_utils.py, seen from other time zones.
use etf_platform_paper_mode.Common.{ℕ, ◌+◌, ◌*◌, ◌%◌, ◌≡◌, ◌&&◌, refl, ap, ok, raised, leb, arith}
use etf_platform_paper_mode.Lifecycle.{naive_datetime}
use etf_platform_paper_mode.Time.{
  Offset, naive, aware, minute, day, utc_reading, is_within_nse_trading_hours,
}

session_window :
    (u : ℕ)
    → (leb (555 * minute) ((u + 330 * minute) % day)
        && leb ((u + 330 * minute) % day) (930 * minute))
      ≡ (leb (225 * minute) (u % day) && leb (u % day) (600 * minute))
session_window u = ground arith

-- Whatever the offset of an aware datetime, it is in the session exactly when a clock in UTC reads
-- from 3:45 to 10:00 at that moment. A naive datetime is refused.
pub session_in_utc :
    (wall : ℕ) (offset : Offset)
    → (is_within_nse_trading_hours (naive wall) ≡ raised naive_datetime)
      × (is_within_nse_trading_hours (aware wall offset)
          ≡ ok (
              leb (225 * minute) (utc_reading wall offset % day)
              && leb (utc_reading wall offset % day) (600 * minute)))
unfolding is_within_nse_trading_hours
session_in_utc wall offset = (refl, ap ok (session_window (utc_reading wall offset)))
