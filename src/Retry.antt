-- ===== src/Retry.antt =====
-- `retry_with_backoff` of src/etf_platform/common/retry.py. Delays are whole milliseconds. The call
-- `fn` keeps a state, and what `random.uniform` draws is a function that the model is given. The
-- delays slept are part of the result.
pub mod Bounds
mod Tests
use Prim.Native.Nat.{◌^◌}
use etf_platform_paper_mode.Common.{
  ℕ, zero, suc, ◌+◌, ◌-◌, ◌*◌, min, Bool, List, [], ◌∷◌, Result, ok, raised, Exec, if◌then◌else◌,
}

-- What leaves the function as an exception: its own `ValueError`, an exception of `fn` that is not
-- retried, and `RetryExhaustedError` with the last exception.
pub data Failure (E : Type 0) : Type 0 where
  value_error : Failure E
  not_retried : E → Failure E
  retry_exhausted : E → Failure E

pub record Policy (E : Type 0) : Type 0 where
  pub is_retryable : E → Bool
  pub max_attempts : ℕ
  pub base_delay : ℕ
  pub max_delay : ℕ

-- The result, the delays slept, and the state of `fn`.
pub record Retried (E S A : Type 0) : Type 0 where
  pub result : Result (Failure E) A
  pub slept : List ℕ
  pub state : S

-- The upper end of the delay after an attempt, counted from 0.
abbrev pub delay_limit : {E : Type 0} → Policy E → ℕ → ℕ
delay_limit p attempt = min p.max_delay (p.base_delay * 2 ^ attempt)

module _ {E S A : Type 0} (p : Policy E) (uniform : ℕ → ℕ → ℕ) (fn : Exec E S A) where
  abbrev pub sleep : ℕ → Retried E S A → Retried E S A
  sleep delay r = record r { slept = delay ∷ r.slept }

  -- The loop from an attempt on, with as many attempts left after it. The first clause is the last
  -- attempt, the `break`.
  unfoldable pub attempts : (attempt left : ℕ) → S → Retried E S A
  attempts attempt zero s =
      let (r, s') = fn s in
      elim r [
        | ok a ↦ record { result = ok a; slept = []; state = s' }
        | raised e ↦ record {
          result = raised (if p.is_retryable e then retry_exhausted e else not_retried e);
          slept = [];
          state = s';
        }
      ]
  attempts attempt (suc left) s =
      let (r, s') = fn s in
      let rest = attempts (attempt + 1) left s' in
      elim r [
        | ok a ↦ record { result = ok a; slept = []; state = s' }
        | raised e ↦
            if p.is_retryable e
            then sleep (uniform attempt (delay_limit p attempt)) rest
            else record { result = raised (not_retried e); slept = []; state = s' }
      ]

  unfoldable pub by_attempts : ℕ → S → Retried E S A
  unfolding attempts
  by_attempts zero s = record { result = raised value_error; slept = []; state = s }
  by_attempts (suc left) s = attempts 0 left s

  unfoldable pub retry_with_backoff : S → Retried E S A
  unfolding by_attempts
  retry_with_backoff s = by_attempts p.max_attempts s
