-- ===== src/Lifecycle/Tests.antt =====
-- The lifecycle's theorems at concrete states.
use mathlib.Core.Logic.{◌↔◌}
use etf_platform_paper_mode.Common.{◌≡◌, refl, true}
use etf_platform_paper_mode.Lifecycle.{State, pending, filled, reconciled, validate_transition}
use etf_platform_paper_mode.Lifecycle.Graph.{
  ◌⟶◌, ◌⟶*◌, here, next, is_settled, settled_never_resubmitted, reconciled_only_end,
}

pending_to_reconciled : pending ⟶* reconciled
unfolding validate_transition
pending_to_reconciled = next {t = filled} refl (next refl here)

settled_never_resubmitted_example : is_settled reconciled ≡ true
settled_never_resubmitted_example = settled_never_resubmitted refl pending_to_reconciled

reconciled_only_end_example :
    (pending ⟶* reconciled) × (((t : State) → ¬ (pending ⟶ t)) ↔ (pending ≡ reconciled))
reconciled_only_end_example = reconciled_only_end pending
