-- ===== src/Strategy/Funding/Decisions.antt =====
-- What a decision of the funding policies means, in all their cases.
use etf_platform_paper_mode.Common.{
  ℕ, ◌-◌, ◌≡◌, ◌≢◌, ◌<◌, ◌⊎◌, ◌==◌, Bool, true, false, not, ◌&&◌, Option, none, some, List, [], ◌∷◌,
  inl, inr, refl, leb, ==→eq, arith, Bool-cases, Result, ok, raised,
}
use etf_platform_paper_mode.Time.Calendar.{day_of_month, month_of}
use etf_platform_paper_mode.Strategy.{
  StrategyError, Pool, executing, StrategyState, fresh_state, PendingSideEffects, Note, new_month,
  lump_sum_initiated,
}
use etf_platform_paper_mode.Strategy.Funding.{
  Policy, recurring_monthly_policy, lump_sum_policy, Decision, PoolOf, no_effects, barred, execute,
  without_funds, checked, recurring_with, recurring_by, open_month, run_recurring, lump_sum_with,
  lump_sum_by, run_lump_sum, run_cycle,
}

-- A reminder is for today, in the state's month, and the first one there; it is noted in the state.
abbrev pub RemindsOnce : (date : ℕ) → (before after : StrategyState) → Option ℕ → Type 0
RemindsOnce date s s' none = Unit
RemindsOnce date s s' (some r) =
    (r ≡ date)
    × (s.current_month ≡ month_of date)
    × (s.reminder_sent_this_month ≡ false)
    × (s'.reminder_sent_this_month ≡ true)

-- A pool is the one that the ledger has, with new capital, and it is being executed.
abbrev pub Funds : (date : ℕ) → PoolOf → (before after : StrategyState) → Option Pool → Type 0
Funds date pool_of s s' none = Unit
Funds date pool_of s s' (some pool) =
    (pool_of date ≡ ok pool)
    × (0 < pool.new_capital)
    × (barred s ≡ none)
    × (s'.funding_state ≡ executing)

abbrev pub Decides : (date : ℕ) → PoolOf → StrategyState → Decision → Type 0
Decides date pool_of s d =
    (d.state.current_month ≡ s.current_month)
    × (d.state.paused ≡ s.paused)
    × (d.state.discontinued ≡ s.discontinued)
    × (s.reminder_sent_this_month ≡ true → d.state.reminder_sent_this_month ≡ true)
    × RemindsOnce date s d.state d.effects.reminder_message
    × Funds date pool_of s d.state d.pool

-- The state that the policy decides on: the one before, or one of a new month, which is paused and
-- discontinued as the one before.
abbrev pub Opens : (date : ℕ) → Option StrategyState → StrategyState → Type 0
Opens date none s = s ≡ fresh_state (month_of date) false false
Opens date (some before) s =
    (s ≡ before)
    ⊎ ((before.current_month ≢ month_of date)
        × (s ≡ fresh_state (month_of date) before.paused before.discontinued))

abbrev pub DecidesFrom :
    (date : ℕ) → PoolOf → StrategyState → Result StrategyError Decision → Type 0
DecidesFrom date pool_of s (raised e) = Unit
DecidesFrom date pool_of s (ok d) = Decides date pool_of s d

without-Decides :
    (reminder_day date : ℕ) (pool_of : PoolOf) (s : StrategyState) (notes : List Note)
    (effects : PendingSideEffects)
    → s.current_month ≡ month_of date
    → effects.reminder_message ≡ none
    → Decides date pool_of s (without_funds reminder_day date (checked date s) notes effects)
without-Decides reminder_day date pool_of s notes effects month quiet =
    elim (Bool-cases (leb reminder_day (day_of_month date) && not s.reminder_sent_this_month)) [
      | inl t ↦ rw t (refl, refl, refl, (λ h. refl), (refl, month, ground arith, refl), tt)
      | inr t ↦ rw (t, quiet) (refl, refl, refl, (λ h. h), tt, tt)
    ]

executed-Decides :
    (date : ℕ) (pool_of : PoolOf) (s : StrategyState) (pool : Pool) (notes : List Note)
    (effects : PendingSideEffects)
    → effects.reminder_message ≡ none
    → barred s ≡ none
    → pool_of date ≡ ok pool
    → (pool.new_capital == 0) ≡ false
    → Decides date pool_of s (execute (checked date s) pool notes effects)
executed-Decides date pool_of s pool notes effects quiet bar found funds =
    rw quiet (refl, refl, refl, (λ h. h), tt, (found, ground arith, bar, refl))

-- A decision after a look at the funds, or without one.
recurring-Decides :
    (reminder_day date : ℕ) (pool_of : PoolOf) (s : StrategyState) (notes : List Note)
    (effects : PendingSideEffects) (bar : Option Note)
    → s.current_month ≡ month_of date
    → effects.reminder_message ≡ none
    → barred s ≡ bar
    → DecidesFrom date pool_of s (recurring_by reminder_day date s notes effects pool_of bar)
recurring-Decides reminder_day date pool_of s notes effects (some note) month quiet bar =
    rw quiet (refl, refl, refl, (λ h. h), tt, tt)
recurring-Decides reminder_day date pool_of s notes effects none month quiet bar =
    looked (pool_of date) refl
  where
    looked :
        (answer : Result StrategyError Pool)
        → pool_of date ≡ answer
        → DecidesFrom date pool_of s (recurring_with reminder_day date s notes effects answer)
    looked (raised e) found = tt
    looked (ok pool) found = elim (Bool-cases (pool.new_capital == 0)) [
      | inl z ↦ rw z (without-Decides reminder_day date pool_of s notes effects month quiet)
      | inr z ↦ rw z (executed-Decides date pool_of s pool notes effects quiet bar found z)
    ]

lump_sum-Decides :
    (date : ℕ) (pool_of : PoolOf) (s : StrategyState) (notes : List Note) (bar : Option Note)
    → barred s ≡ bar
    → DecidesFrom date pool_of s (lump_sum_by date s notes pool_of bar)
lump_sum-Decides date pool_of s notes (some note) bar = (refl, refl, refl, (λ h. h), tt, tt)
lump_sum-Decides date pool_of s notes none bar = looked (pool_of date) refl
  where
    looked :
        (answer : Result StrategyError Pool)
        → pool_of date ≡ answer
        → DecidesFrom date pool_of s (lump_sum_with date s notes answer)
    looked (raised e) found = tt
    looked (ok pool) found = elim (Bool-cases (pool.new_capital == 0)) [
      | inl z ↦ rw z (refl, refl, refl, (λ h. h), tt, tt)
      | inr z ↦ rw z (executed-Decides date pool_of s pool notes no_effects refl bar found z)
    ]

-- Either policy either raises what the ledger port raised, or decides on the state it opens.
abbrev pub Decided :
    (date : ℕ) → Option StrategyState → PoolOf → Result StrategyError Decision → Type 0
Decided date before pool_of r =
    (s : StrategyState) × Opens date before s × DecidesFrom date pool_of s r

opened-Decided :
    (reminder_day date : ℕ) (pool_of : PoolOf) (paused discontinued : Bool)
    → DecidesFrom date pool_of
        (fresh_state (month_of date) paused discontinued)
        (open_month reminder_day date paused discontinued pool_of)
opened-Decided reminder_day date pool_of paused discontinued =
    let s = fresh_state (month_of date) paused discontinued in
    recurring-Decides reminder_day date pool_of s (new_month ∷ [])
      (record {
        reminder_message = none;
        expected_contribution = some (date - (day_of_month date - 1));
      })
      (barred s) refl refl refl

-- Each policy decides on the stored state, or on one of a new month that is paused and discontinued
-- as the stored one: it keeps the month and both flags; a reminder is decided only if none was in
-- that state's month, which is today's, and the new state notes it; a pool only if the state is
-- neither discontinued, paused nor idle and the ledger has new capital, and the new state is
-- EXECUTING.
pub run_cycle-Decided :
    (policy : Policy) (date : ℕ) (before : Option StrategyState) (pool_of : PoolOf)
    → Decided date before pool_of (run_cycle policy date before pool_of)
unfolding run_cycle run_recurring run_lump_sum
run_cycle-Decided (recurring_monthly_policy reminder_day) date none pool_of =
    (_, refl, opened-Decided reminder_day date pool_of false false)
run_cycle-Decided (recurring_monthly_policy reminder_day) date (some s) pool_of =
    elim (Bool-cases (s.current_month == month_of date)) [
      | inl t ↦ rw t (
        s,
        inl refl,
        recurring-Decides reminder_day date pool_of s [] no_effects (barred s)
            (==→eq s.current_month (month_of date) t) refl refl,
      )
      | inr t ↦ rw t (
        _,
        inr (ground arith, refl),
        opened-Decided reminder_day date pool_of s.paused s.discontinued,
      )
    ]
run_cycle-Decided lump_sum_policy date none pool_of =
    let s = fresh_state (month_of date) false false in
    (s, refl, lump_sum-Decides date pool_of s (lump_sum_initiated ∷ []) (barred s) refl)
run_cycle-Decided lump_sum_policy date (some s) pool_of =
    (s, inl refl, lump_sum-Decides date pool_of s [] (barred s) refl)
