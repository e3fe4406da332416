-- ===== src/Store/Claims.antt =====
-- The mutual exclusion of invocations by the cycle claims of persistence.py.
use mathlib.Core.Logic.{◌↔◌}
use etf_platform_paper_mode.Common.{
  ℕ, ◌+◌, ◌≤◌, ◌<◌, ◌≡◌, ◌≢◌, true, false, ok, raised, refl, arith, Bool-cases, inl, inr,
}
use etf_platform_paper_mode.Common.Dict.{
  lookup, erase, lookup-insert, lookup-erase, lookup-insert_self,
}
use etf_platform_paper_mode.Lifecycle.{concurrent_invocation}
use etf_platform_paper_mode.Store.{Store, claim_cycle, is_claimed, holds_fresh}

-- A claim is granted exactly if `is_claimed` says no. A refusal changes nothing; a grant touches the
-- execution history and the other cycles' claims in nothing, and from then on the cycle is claimed
-- until the age limit has passed.
pub claim_cycle_lem :
    (now max_age cycle who : ℕ) (s : Store)
    → let (r, s') = claim_cycle now max_age cycle who s in
      ((is_claimed now max_age cycle s ≡ true) → (r ≡ raised concurrent_invocation) × (s' ≡ s))
      × ((is_claimed now max_age cycle s ≡ false)
          → (r ≡ ok tt)
            × (s'.execution_history ≡ s.execution_history)
            × ((other : ℕ)
                → other ≢ cycle
                → lookup other s'.cycle_claims ≡ lookup other s.cycle_claims)
            × ((later : ℕ)
                → now ≤ later
                → (is_claimed later max_age cycle s' ≡ true) ↔ (later < now + max_age)))
unfolding claim_cycle is_claimed
claim_cycle_lem now max_age cycle who s =
    elim (Bool-cases (holds_fresh now max_age (lookup cycle s.cycle_claims))) [
      | inl t ↦ rw t ((λ h. (refl, refl)), λ h. cc)
      | inr t ↦ rw t (
        (λ h. cc),
        λ h. (
          refl,
          refl,
          (λ other ne. ground (
            arith,
            lookup-insert cycle other (record { claimed_at = now; claimed_by = who })
                (erase cycle s.cycle_claims),
            lookup-erase cycle other s.cycle_claims,
          )),
          λ later le. rw lookup-insert_self (ground arith, ground arith),
        ),
      )
    ]
