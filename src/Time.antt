-- ===== src/Time.antt =====
-- Dates and times of src/etf_platform/execution_manager/timezone_utils.py and clock.py.
-- A wall clock reading counts microseconds from the start of year 1, so it is a natural number. A
-- `datetime` is naive or has an offset from UTC. Where Python raises OverflowError, within a day
-- of the start of year 1, the subtraction stops at 0.
pub mod Calendar
pub mod Hours
mod Tests
use etf_platform_paper_mode.Common.{
  ℕ, ◌+◌, ◌-◌, ◌*◌, ◌%◌, ◌&&◌, Bool, Result, Exec, ok, raised, leb,
}
use etf_platform_paper_mode.Common.Int.{ℤ, pos, negsuc}
use etf_platform_paper_mode.Lifecycle.{Error, naive_datetime, value}

pub data Offset : Type 0 where
  east west : ℕ → Offset

pub data Datetime : Type 0 where
  naive : ℕ → Datetime
  aware : ℕ → Offset → Datetime

abbrev pub minute : ℕ
minute = 60_000_000

abbrev pub day : ℕ
day = 1440 * minute

abbrev pub utc : Offset
utc = east 0

-- `IST`, UTC+5:30
abbrev pub ist : Offset
ist = east (330 * minute)

-- The reading of a clock in UTC at the same moment, and of one at the offset.
abbrev pub utc_reading : ℕ → Offset → ℕ
utc_reading wall (east k) = wall - k
utc_reading wall (west k) = wall + k

abbrev pub reading_at : Offset → ℕ → ℕ
reading_at (east k) instant = instant + k
reading_at (west k) instant = instant - k

-- `datetime.astimezone`, a parameter of the platform's library, on an aware value.
abbrev pub astimezone : ℕ → Offset → Offset → Datetime
astimezone wall offset target = aware (reading_at target (utc_reading wall offset)) target

unfoldable pub require_aware : Datetime → Result Error Datetime
require_aware (naive wall) = raised naive_datetime
require_aware (aware wall offset) = ok (aware wall offset)

unfoldable pub to_utc : Datetime → Result Error Datetime
to_utc (naive wall) = raised naive_datetime
to_utc (aware wall offset) = ok (astimezone wall offset utc)

unfoldable pub to_ist : Datetime → Result Error Datetime
to_ist (naive wall) = raised naive_datetime
to_ist (aware wall offset) = ok (astimezone wall offset ist)

-- `NSE_MARKET_OPEN_IST` and `NSE_MARKET_CLOSE_IST`, 9:15 and 15:30
abbrev pub nse_market_open_ist : ℕ
nse_market_open_ist = 555 * minute

abbrev pub nse_market_close_ist : ℕ
nse_market_close_ist = 930 * minute

-- `dt.time()`
abbrev pub time_of_day : Datetime → ℕ
time_of_day (naive wall) = wall % day
time_of_day (aware wall _) = wall % day

abbrev within_session : Result Error Datetime → Result Error Bool
within_session (raised e) = raised e
within_session (ok ist_dt) =
    ok (
      leb nse_market_open_ist (time_of_day ist_dt) && leb (time_of_day ist_dt) nse_market_close_ist)

unfoldable pub is_within_nse_trading_hours : Datetime → Result Error Bool
unfolding to_ist
is_within_nse_trading_hours dt = within_session (to_ist dt)

-- `SimulatedClock`: `advance` takes a signed number of microseconds, and refuses a negative one.
pub record SimulatedClock : Type 0 where
  pub current : Datetime

abbrev shift : ℕ → Datetime → Datetime
shift delta (naive wall) = naive (wall + delta)
shift delta (aware wall offset) = aware (wall + delta) offset

unfoldable pub start_clock : Datetime → Result Error SimulatedClock
unfolding require_aware
start_clock start = elim (require_aware start) [
  | ok dt ↦ ok (record { current = dt })
  | raised e ↦ raised e
]

unfoldable pub advance : ℤ → Exec Error SimulatedClock (Unit {0})
advance (pos delta) c = (ok tt, record { current = shift delta c.current })
advance (negsuc delta) c = (raised value, c)

unfoldable pub set_clock : Datetime → Exec Error SimulatedClock (Unit {0})
unfolding require_aware
set_clock dt c = elim (require_aware dt) [
  | ok dt' ↦ (ok tt, record { current = dt' })
  | raised e ↦ (raised e, c)
]
