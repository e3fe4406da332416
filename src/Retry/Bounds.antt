-- ===== src/Retry/Bounds.antt =====
-- How often `retry_with_backoff` of common/retry.py tries, and how long it sleeps.
use etf_platform_paper_mode.Common.{
  ℕ, zero, suc, ◌+◌, ◌≤◌, ◌<◌, ◌≡◌, refl, ap, List, [], ◌∷◌, Result, ok, raised, Exec, arith, true,
  false, length, Result-cases, Bool-cases, inl, inr,
}
use etf_platform_paper_mode.Retry.{
  Failure, value_error, not_retried, retry_exhausted, Policy, delay_limit, attempts, by_attempts,
  retry_with_backoff,
}

-- The delays after the attempts from the given one on.
abbrev pub AreBounded : {E : Type 0} → Policy E → ℕ → List ℕ → Type 0
AreBounded p attempt [] = Unit
AreBounded p attempt (d ∷ ds) = (d ≤ delay_limit p attempt) × AreBounded p (attempt + 1) ds

-- What a result says of the delays before it, with the number of attempts allowed.
abbrev pub IsJustified : {E A : Type 0} → Policy E → ℕ → Result (Failure E) A → List ℕ → Type 0
IsJustified p allowed (ok _) slept = length slept < allowed
IsJustified p allowed (raised value_error) slept = ⊥
IsJustified p allowed (raised (not_retried e)) slept =
    (length slept < allowed) × (p.is_retryable e ≡ false)
IsJustified p allowed (raised (retry_exhausted e)) slept =
    (length slept + 1 ≡ allowed) × (p.is_retryable e ≡ true)

IsJustified-more :
    {E A : Type 0} (p : Policy E) (allowed delay : ℕ) (r : Result (Failure E) A) (slept : List ℕ)
    → IsJustified p allowed r slept
    → IsJustified p (suc allowed) r (delay ∷ slept)
IsJustified-more p allowed delay (ok _) slept h = omega arith
IsJustified-more p allowed delay (raised value_error) slept h = h
IsJustified-more p allowed delay (raised (not_retried e)) slept h = (omega arith, h.1)
IsJustified-more p allowed delay (raised (retry_exhausted e)) slept h = (omega arith, h.1)

retry_with_backoff-suc :
    {E S A : Type 0} (p : Policy E) (uniform : ℕ → ℕ → ℕ) (fn : Exec E S A) (left : ℕ) (s : S)
    → p.max_attempts ≡ suc left
    → retry_with_backoff p uniform fn s ≡ attempts p uniform fn 0 left s
unfolding retry_with_backoff by_attempts
retry_with_backoff-suc p uniform fn left s e = ap (λ n. by_attempts p uniform fn n s) e

-- An exception that is passed on is one that is not retried.
abbrev pub PassesOn : {E A : Type 0} → Policy E → Result (Failure E) A → Type 0
PassesOn p (raised (not_retried e)) = p.is_retryable e ≡ false
PassesOn p _ = Unit

module _ {E S A : Type 0} (p : Policy E) (uniform : ℕ → ℕ → ℕ) (fn : Exec E S A) where
  attempts-PassesOn :
      (attempt left : ℕ) (s : S) → PassesOn p (attempts p uniform fn attempt left s).result
  unfolding attempts
  attempts-PassesOn attempt zero s = elim (Result-cases (fn s).0) [
    | inl (a, e) ↦ rw (attempts, e) tt
    | inr (x, e) ↦ elim (Bool-cases (p.is_retryable x)) [
      | inl t ↦ rw (attempts, e, t) tt
      | inr t ↦ rw (attempts, e, t) t
    ]
  ]
  attempts-PassesOn attempt (suc left) s = elim (Result-cases (fn s).0) [
    | inl (a, e) ↦ rw (attempts, e) tt
    | inr (x, e) ↦ elim (Bool-cases (p.is_retryable x)) [
      | inl t ↦ rw (attempts, e, t) (attempts-PassesOn (attempt + 1) left (fn s).1)
      | inr t ↦ rw (attempts, e, t) t
    ]
  ]

  by_attempts-PassesOn : (n : ℕ) (s : S) → PassesOn p (by_attempts p uniform fn n s).result
  unfolding by_attempts
  by_attempts-PassesOn zero s = tt
  by_attempts-PassesOn (suc left) s = attempts-PassesOn 0 left s

  pub retry_with_backoff-PassesOn : (s : S) → PassesOn p (retry_with_backoff p uniform fn s).result
  unfolding retry_with_backoff
  retry_with_backoff-PassesOn s = by_attempts-PassesOn p.max_attempts s

module _ {E S A : Type 0} (p : Policy E) (uniform : ℕ → ℕ → ℕ) (fn : Exec E S A)
    (within : (n limit : ℕ) → uniform n limit ≤ limit) where
  attempts-bounded :
      (attempt left : ℕ) (s : S)
      → let r = attempts p uniform fn attempt left s in
        AreBounded p attempt r.slept × IsJustified p (suc left) r.result r.slept
  unfolding attempts
  attempts-bounded attempt zero s = elim (Result-cases (fn s).0) [
    | inl (a, e) ↦ rw (attempts, e) (tt, omega arith)
    | inr (x, e) ↦ elim (Bool-cases (p.is_retryable x)) [
      | inl t ↦ rw (attempts, e, t) (tt, (refl, t))
      | inr t ↦ rw (attempts, e, t) (tt, (omega arith, t))
    ]
  ]
  attempts-bounded attempt (suc left) s = elim (Result-cases (fn s).0) [
    | inl (a, e) ↦ rw (attempts, e) (tt, omega arith)
    | inr (x, e) ↦ elim (Bool-cases (p.is_retryable x)) [
      | inl t ↦
          let (bounded, justified) = attempts-bounded (attempt + 1) left (fn s).1 in
          let r = attempts p uniform fn (attempt + 1) left (fn s).1 in
          rw (attempts, e, t)
            (
              (within attempt (delay_limit p attempt), bounded),
              IsJustified-more p (suc left) (uniform attempt (delay_limit p attempt)) r.result
                  r.slept justified,
            )
      | inr t ↦ rw (attempts, e, t) (tt, (omega arith, t))
    ]
  ]

-- With at least one attempt allowed and draws within their limits: each delay is within its own
-- limit, which doubles up to the largest; there are fewer delays than allowed attempts, exactly one
-- fewer if the retries are exhausted, and then the last exception is one to retry; any other
-- exception that leaves is one that is not retried, and it is no ValueError.
pub retry_with_backoff-bounded :
    {E S A : Type 0} (p : Policy E) (uniform : ℕ → ℕ → ℕ) (fn : Exec E S A) (s : S)
    → ((n limit : ℕ) → uniform n limit ≤ limit)
    → 0 < p.max_attempts
    → let r = retry_with_backoff p uniform fn s in
      AreBounded p 0 r.slept × IsJustified p p.max_attempts r.result r.slept
unfolding attempts
retry_with_backoff-bounded p uniform fn s within positive = by_count p.max_attempts refl positive
  where
    by_count :
        (n : ℕ)
        → p.max_attempts ≡ n
        → 0 < p.max_attempts
        → let r = retry_with_backoff p uniform fn s in
          AreBounded p 0 r.slept × IsJustified p p.max_attempts r.result r.slept
    by_count zero e h = absurd (ground arith)
    by_count (suc left) e h =
        rw (retry_with_backoff-suc p uniform fn left s e, e)
          (attempts-bounded p uniform fn within 0 left s)
