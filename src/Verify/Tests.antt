-- ===== src/Verify/Tests.antt =====
-- Verifying an order of five units with cash for three.
use mathlib.Core.Logic.{◌↔◌}
use etf_platform_paper_mode.Common.{ℕ, ◌≡◌, ◌≤◌, ◌<◌, refl, ok, some, true, arith}
use etf_platform_paper_mode.Common.Int.{ℤ, pos}
use etf_platform_paper_mode.Cost.{default_config, total_cost, compute_transaction_cost}
use etf_platform_paper_mode.Fixtures.{describe, verification, port, depth}
use etf_platform_paper_mode.Ports.{Quotes, Compliance, pass, spread_exceeds}
use etf_platform_paper_mode.Verify.{
  VerificationResult, is_approved, affordable_quantity, verify, verify_cash, verify_compliance,
  verify_depth,
}
use etf_platform_paper_mode.Verify.Affordable.{Fits, affordable_greatest}
use etf_platform_paper_mode.Verify.Gates.{Passes, Affords, verify_approves, verify_accepts}

abbrev quotes : Quotes
quotes _ = ok (some depth)

abbrev compliance : Compliance
compliance _ _ _ = ok pass

affordable_greatest_example :
    let n = affordable_quantity default_config 10_000 (pos 35_000) 5 in
    (n ≤ 5) × ((q : ℕ) → 0 < q → q ≤ 5 → Fits default_config 10_000 (pos 35_000) q ↔ (q ≤ n))
affordable_greatest_example = affordable_greatest default_config 10_000 (pos 35_000) 5 (omega arith)

abbrev reduced : VerificationResult
reduced = verify_cash describe verification port 5 10_000 (pos 35_000)

returns_reduced : verify describe verification port quotes compliance 3 5 10_000 0 ≡ (ok reduced, 0)
unfolding verify verify_compliance verify_depth spread_exceeds
returns_reduced = refl

reduced-is_approved : is_approved reduced ≡ true
unfolding verify_cash affordable_quantity total_cost compute_transaction_cost
reduced-is_approved = refl

verify_approves_example :
    (cash : ℤ) × Passes describe verification port quotes compliance 3 5 10_000 0 cash
    × Affords describe verification port quotes compliance 3 5 10_000 0 cash reduced
verify_approves_example =
    verify_approves describe verification port quotes compliance 3 5 10_000 0 reduced 0
      returns_reduced reduced-is_approved

abbrev three_pass : Passes describe verification port quotes compliance 3 5 10_000 0 (pos 35_000)
unfolding spread_exceeds
three_pass = record {
  priced = omega arith;
  compliant = refl;
  depth = depth;
  quoted = refl;
  liquid = refl;
  reported = refl;
}

one-Fits : Fits default_config 10_000 (pos 35_000) 1
unfolding total_cost compute_transaction_cost
one-Fits = omega arith

verify_accepts_example :
    ((r : VerificationResult) × (b' : ℕ) × (verify describe verification port quotes compliance 3 5
          10_000 0
        ≡ (ok r, b'))
      × (is_approved r ≡ true))
    ↔ ((cash : ℤ) × Passes describe verification port quotes compliance 3 5 10_000 0 cash
        × (0 < 5)
        × Fits default_config 10_000 cash 1)
verify_accepts_example = verify_accepts describe verification port quotes compliance 3 5 10_000 0

-- The conditions hold here.
accepted :
    (r : VerificationResult) × (b' : ℕ) × (verify describe verification port quotes compliance 3 5
        10_000 0
      ≡ (ok r, b'))
    × (is_approved r ≡ true)
accepted =
    (verify_accepts describe verification port quotes compliance 3 5 10_000 0).1
      (pos 35_000, three_pass, omega arith, one-Fits)
