-- ===== src/Retry/Tests.antt =====
-- Retrying a call that never succeeds, three times.
use etf_platform_paper_mode.Common.{ℕ, suc, ◌≤◌, true, raised, Exec, arith, ◌/◌}
use etf_platform_paper_mode.Retry.{Policy, retry_with_backoff}
use etf_platform_paper_mode.Retry.Bounds.{AreBounded, IsJustified, retry_with_backoff-bounded}

abbrev policy : Policy ℕ
policy = record {
  is_retryable = λ _. true;
  max_attempts = 3;
  base_delay = 1_000;
  max_delay = 30_000;
}

-- The state counts the calls.
abbrev failing : Exec ℕ ℕ ℕ
failing calls = (raised 503, suc calls)

abbrev middle : ℕ → ℕ → ℕ
middle attempt limit = limit / 2

middle-within : (attempt limit : ℕ) → middle attempt limit ≤ limit
middle-within attempt limit = omega arith

retry_with_backoff-bounded_example :
    let r = retry_with_backoff policy middle failing 0 in
    AreBounded policy 0 r.slept × IsJustified policy 3 r.result r.slept
retry_with_backoff-bounded_example =
    retry_with_backoff-bounded policy middle failing 0 middle-within (omega arith)
