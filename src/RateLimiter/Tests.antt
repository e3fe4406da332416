-- ===== src/RateLimiter/Tests.antt =====
-- A limiter of three calls a second and sixty a minute, and a sleep that rounds up.
use etf_platform_paper_mode.Common.{ℕ, ◌+◌, ◌-◌, ◌≡◌, List, [], ◌∷◌, refl, ok, arith}
use etf_platform_paper_mode.Common.Int.{pos, ◌+ℤ◌, ◌-ℤ◌}
use etf_platform_paper_mode.RateLimiter.{
  RateLimiter, Sleep, rate_limiter, token_bucket, acquire, acquire_all, refill, deficit, consume,
}
use etf_platform_paper_mode.RateLimiter.Bounds.{IsSound, Sleeps}
use etf_platform_paper_mode.RateLimiter.Calls.{WithinBudget, acquire_all-WithinBudget}

abbrev limiter : RateLimiter
limiter = record {
  per_second = record {
    rate = 180;
    capacity = 180_000_000;
    tokens = pos 180_000_000;
    last_refill = 5;
  };
  per_minute = record {
    rate = 60;
    capacity = 3_600_000_000;
    tokens = pos 3_600_000_000;
    last_refill = 5;
  };
}

made : rate_limiter 3 60 5 ≡ ok limiter
unfolding rate_limiter token_bucket
made = refl

-- A sleep of a microsecond for each part that is missing.
abbrev slow_sleep : Sleep
slow_sleep now w = now + w.parts

slow_sleep-Sleeps : Sleeps slow_sleep
slow_sleep-Sleeps now w some_rate =
    let passed : now + w.parts - now ≡ w.parts = omega arith in
    (omega arith, rw passed (grind arith))

-- Four calls at once: the fourth has to wait.
abbrev at_once : List ℕ
at_once = 0 ∷ 0 ∷ 0 ∷ 0 ∷ []

fourth_waits : (acquire_all slow_sleep at_once 5 limiter).1 ≡ 5 + 60_000_000
unfolding acquire_all acquire refill deficit consume ◌+ℤ◌ ◌-ℤ◌
fourth_waits = refl

acquire_all-WithinBudget_example :
    IsSound
      (acquire_all slow_sleep at_once 5 limiter).1
      (acquire_all slow_sleep at_once 5 limiter).0
    × WithinBudget 4 5 (acquire_all slow_sleep at_once 5 limiter).1 limiter.per_second
    × WithinBudget 4 5 (acquire_all slow_sleep at_once 5 limiter).1 limiter.per_minute
acquire_all-WithinBudget_example =
    acquire_all-WithinBudget 3 60 5 slow_sleep at_once limiter slow_sleep-Sleeps made
