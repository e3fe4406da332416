-- ===== src/RateLimiter.antt =====
-- The rate limiter of src/etf_platform/data_engine/rate_limiter.py. Time counts microseconds, and a call
-- costs `unit` parts of a token, so that both rates add whole parts in a microsecond. Time passes
-- in `sleep_fn` and between calls; the lock makes a call one step.
pub mod Bounds
pub mod Calls
mod Tests
use Prim.Native.Nat.{max}
use etf_platform_paper_mode.Common.{
  ℕ, ◌+◌, ◌-◌, ◌*◌, ◌==◌, Bool, ◌||◌, List, [], ◌∷◌, Result, ok, raised, leb, if◌then◌else◌,
}
use etf_platform_paper_mode.Common.Int.{ℤ, pos, negsuc, ◌+ℤ◌, ◌-ℤ◌, leb_ℤ, pos_part}

-- `RateLimitConfigError`
pub data RateLimitError : Type 0 where
  rate_limit_config : RateLimitError

-- The parts of a token: a minute has this many microseconds.
abbrev pub unit : ℕ
unit = 60_000_000

-- `_TokenBucket`: the rate is in parts per microsecond.
pub record TokenBucket : Type 0 where
  pub rate : ℕ
  pub capacity : ℕ
  pub tokens : ℤ
  pub last_refill : ℕ

unfoldable pub token_bucket : (rate capacity now : ℕ) → Result RateLimitError TokenBucket
token_bucket rate capacity now =
    if (rate == 0) || (capacity == 0)
    then raised rate_limit_config
    else ok (record { rate = rate; capacity = capacity; tokens = pos capacity; last_refill = now })

abbrev pub min_ℤ : ℤ → ℤ → ℤ
min_ℤ a b = if leb_ℤ a b then a else b

unfoldable pub refill : (now : ℕ) → TokenBucket → TokenBucket
refill now b = record b {
  tokens = min_ℤ (pos b.capacity) (b.tokens +ℤ pos ((now - b.last_refill) * b.rate));
  last_refill = now;
}

-- The parts that are missing for a call, after a refill; divided by the rate, the time until then.
unfoldable pub deficit : TokenBucket → ℕ
deficit b = pos_part (pos unit -ℤ b.tokens)

unfoldable pub consume : (now : ℕ) → TokenBucket → TokenBucket
consume now b = let b' = refill now b in record b' { tokens = b'.tokens -ℤ pos unit }

pub record RateLimiter : Type 0 where
  pub per_second : TokenBucket
  pub per_minute : TokenBucket

abbrev pub both_buckets :
    Result RateLimitError TokenBucket
    → Result RateLimitError TokenBucket
    → Result RateLimitError RateLimiter
both_buckets (raised e) _ = raised e
both_buckets (ok s) (raised e) = raised e
both_buckets (ok s) (ok m) = ok (record { per_second = s; per_minute = m })

unfoldable pub rate_limiter :
    (calls_per_second calls_per_minute now : ℕ) → Result RateLimitError RateLimiter
rate_limiter calls_per_second calls_per_minute now =
    both_buckets (token_bucket (60 * calls_per_second) (max 1 calls_per_second * unit) now)
      (token_bucket calls_per_minute (calls_per_minute * unit) now)

-- A wait, as a quotient of microseconds.
pub record Wait : Type 0 where
  pub parts : ℕ
  pub per : ℕ

-- `max` of two waits.
abbrev pub longer : Wait → Wait → Wait
longer a b = if leb (b.parts * a.per) (a.parts * b.per) then a else b

abbrev pub wait_of : TokenBucket → Wait
wait_of b = record { parts = deficit b; per = b.rate }

-- `sleep_fn`, from a time: the time when it returns.
abbrev pub Sleep : Type 0
Sleep = (now : ℕ) → Wait → ℕ

abbrev pub wake : Sleep → (now : ℕ) → Wait → ℕ
wake sleep now wait = if wait.parts == 0 then now else sleep now wait

-- `acquire` at a time: the limiter after it, and the time when it returns.
unfoldable pub acquire : Sleep → (now : ℕ) → RateLimiter → RateLimiter × ℕ
acquire sleep now l =
    let s = refill now l.per_second in
    let m = refill now l.per_minute in
    let woken = wake sleep now (longer (wait_of s) (wait_of m)) in
    (record { per_second = consume woken s; per_minute = consume woken m }, woken)

-- A call after each of the pauses.
unfoldable pub acquire_all : Sleep → (pauses : List ℕ) → (now : ℕ) → RateLimiter → RateLimiter × ℕ
acquire_all sleep [] now l = (l, now)
acquire_all sleep (pause ∷ pauses) now l =
    let (l', now') = acquire sleep (now + pause) l in acquire_all sleep pauses now' l'
