-- ===== src/Lifecycle/Graph.antt =====
-- What the table of transitions of execution_manager/models.py implies for whole histories.
use mathlib.Core.Logic.{◌↔◌}
use etf_platform_paper_mode.Common.{◌≡◌, refl, ok, arith, Bool, true, false}
use etf_platform_paper_mode.Lifecycle.{
  State, proposal, verified, submitted, pending, partially_filled, filled, cancelled, failed,
  reconciled, ambiguous, validate_transition,
}

infix 40 ◌⟶◌ ◌⟶*◌
-- One accepted transition.
abbrev pub ◌⟶◌ : State → State → Type 0
s ⟶ t = validate_transition s t ≡ ok tt

-- A history of accepted transitions.
pub data ◌⟶*◌ : State → State → Type 0 where
  here : {s : State} → s ⟶* s
  next : {u t s : State} → s ⟶ t → t ⟶* u → s ⟶* u

-- The states of an order that the broker has answered for.
abbrev pub is_settled : State → Bool
is_settled pending = true
is_settled partially_filled = true
is_settled filled = true
is_settled cancelled = true
is_settled failed = true
is_settled reconciled = true
is_settled _ = false

step-settled : (s t : State) → is_settled s ≡ true → s ⟶ t → is_settled t ≡ true
unfolding validate_transition
step-settled s t h st = ground arith

-- Once the broker has answered for an order, no history of accepted transitions leads back to a
-- state from which it is submitted (again), nor to AMBIGUOUS.
pub settled_never_resubmitted : {s t : State} → is_settled s ≡ true → s ⟶* t → is_settled t ≡ true
settled_never_resubmitted h here = h
settled_never_resubmitted h (next {t = t} {s = s} st r) =
    settled_never_resubmitted (step-settled s t h st) r

reach_reconciled : (s : State) → s ⟶* reconciled
unfolding validate_transition
reach_reconciled proposal = next {t = failed} refl (next refl here)
reach_reconciled verified = next {t = failed} refl (next refl here)
reach_reconciled submitted = next {t = failed} refl (next refl here)
reach_reconciled pending = next {t = filled} refl (next refl here)
reach_reconciled partially_filled = next {t = filled} refl (next refl here)
reach_reconciled filled = next refl here
reach_reconciled cancelled = next refl here
reach_reconciled failed = next refl here
reach_reconciled reconciled = here
reach_reconciled ambiguous = next refl here

stuck-eq-reconciled : (s : State) → ((t : State) → ¬ (s ⟶ t)) → s ≡ reconciled
stuck-eq-reconciled s stuck = first_step (reach_reconciled s) refl
  where
    first_step : {t : State} → s ⟶* t → t ≡ reconciled → s ≡ reconciled
    first_step here e = e
    first_step (next {t = t} st _) _ = absurd (stuck t st)

reconciled_end : (s t : State) → s ≡ reconciled → ¬ (s ⟶ t)
unfolding validate_transition
reconciled_end s t e = ground arith

-- Every state has a history to RECONCILED, and RECONCILED is exactly the state that no accepted
-- transition leaves.
pub reconciled_only_end :
    (s : State) → (s ⟶* reconciled) × (((t : State) → ¬ (s ⟶ t)) ↔ (s ≡ reconciled))
reconciled_only_end s = (reach_reconciled s, (stuck-eq-reconciled s, λ e t. reconciled_end s t e))
