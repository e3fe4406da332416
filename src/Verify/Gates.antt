-- ===== src/Verify/Gates.antt =====
-- When `VerificationService.verify` of verification.py approves an order, and for how much.
use mathlib.Core.Logic.{◌↔◌}
use mathlib.Core.Path.{subst}
use etf_platform_paper_mode.Common.{
  ℕ, ◌≤◌, ◌<◌, ◌≡◌, inl, inr, refl, sym, ap, true, false, arith, Option, none, some, ok, Bool-cases,
  Result-cases,
}
use etf_platform_paper_mode.Common.Int.{ℤ}
use etf_platform_paper_mode.Events.{Text}
use etf_platform_paper_mode.Ports.{
  BrokerPort, ComplianceResult, pass, MarketDepthSnapshot, spread_exceeds, Quotes, Compliance,
}
use etf_platform_paper_mode.Verify.{
  Note, approved_with_reduced_quantity, VerificationResult, VerificationService, is_approved,
  verify, verify_cash, verify_depth, verify_compliance, affordable_quantity,
}
use etf_platform_paper_mode.Verify.Affordable.{Fits, affordable_greatest}

module _ {B : Type 0} (describe : Note → Text) (s : VerificationService) (port : BrokerPort B)
    (quotes : Quotes) (compliance : Compliance) (symbol proposed price : ℕ) (b : B) where
  -- What has to hold for an approval, with the cash that the broker then reports.
  pub record Passes (cash : ℤ) : Type 0 where
    pub priced : 0 < price
    pub compliant : compliance symbol proposed price ≡ ok pass
    pub depth : MarketDepthSnapshot
    pub quoted : quotes symbol ≡ ok (some depth)
    pub liquid : spread_exceeds depth s.max_spread_bps ≡ false
    pub reported : (port.get_available_cash b).0 ≡ ok cash

  -- What an approval says of the quantity.
  abbrev pub Affords : ℤ → VerificationResult → Type 0
  Affords cash r =
      (r.verified_quantity ≡ affordable_quantity s.cost_config price cash proposed)
      × (0 < r.verified_quantity)
      × (r.verified_quantity ≤ proposed)
      × Fits s.cost_config price cash r.verified_quantity
      × ((r.outcome ≡ approved_with_reduced_quantity) ↔ (r.verified_quantity < proposed))

  approval_quantity :
      (cash : ℤ)
      → affordable_quantity s.cost_config price cash proposed ≤ proposed
      → let r = verify_cash describe s port proposed price cash in
        let n = affordable_quantity s.cost_config price cash proposed in
        is_approved r ≡ true
        → (r.verified_quantity ≡ n)
          × (0 < n)
          × ((r.outcome ≡ approved_with_reduced_quantity) → (n < proposed))
          × ((n < proposed) → (r.outcome ≡ approved_with_reduced_quantity))
  unfolding verify_cash
  approval_quantity cash le h = ground arith

  verify_cash-Affords :
      (cash : ℤ)
      → 0 < price
      → is_approved (verify_cash describe s port proposed price cash) ≡ true
      → Affords cash (verify_cash describe s port proposed price cash)
  verify_cash-Affords cash priced h =
      let (le, greatest) = affordable_greatest s.cost_config price cash proposed priced in
      let (quantity, positive, reduced, full) = approval_quantity cash le h in
      rw quantity (refl, positive, le, (greatest _ positive le).1 (omega arith), (reduced, full))

  depth_approves :
      (d : Option MarketDepthSnapshot) (r : VerificationResult) (b' : B)
      → verify_depth describe s port symbol proposed price d b ≡ (ok r, b')
      → is_approved r ≡ true
      → (depth : MarketDepthSnapshot) × (d ≡ some depth)
        × (spread_exceeds depth s.max_spread_bps ≡ false)
        × ((cash : ℤ) × ((port.get_available_cash b).0 ≡ ok cash)
            × (r ≡ verify_cash describe s port proposed price cash))
  unfolding verify_depth
  depth_approves none r b' e a = absurd (ground arith)
  depth_approves (some d) r b' e a = elim (Bool-cases (spread_exceeds d s.max_spread_bps)) [
    | inl t ↦ absurd (ground arith)
    | inr t ↦ elim (Result-cases (port.get_available_cash b).0) [
      | inl (cash, c) ↦ (d, refl, t, (cash, c, ground arith))
      | inr (x, c) ↦ absurd (ground arith)
    ]
  ]

  compliance_approves :
      (c : ComplianceResult) (r : VerificationResult) (b' : B)
      → verify_compliance describe s port quotes symbol proposed price c b ≡ (ok r, b')
      → is_approved r ≡ true
      → (c ≡ pass)
        × ((d : Option MarketDepthSnapshot) × (quotes symbol ≡ ok d)
            × (verify_depth describe s port symbol proposed price d b ≡ (ok r, b')))
  unfolding verify_compliance
  compliance_approves c r b' e a = ground arith

  verify_passes_on :
      (r : VerificationResult) (b' : B)
      → verify describe s port quotes compliance symbol proposed price b ≡ (ok r, b')
      → is_approved r ≡ true
      → (0 < proposed)
        × (0 < price)
        × ((c : ComplianceResult) × (compliance symbol proposed price ≡ ok c)
            × (verify_compliance describe s port quotes symbol proposed price c b ≡ (ok r, b')))
  unfolding verify
  verify_passes_on r b' e a = ground arith

  -- An approval is backed by every check: a positive quantity and price, passed compliance, a quoted
  -- depth within the spread limit. The approved quantity is the affordable one for the cash that the
  -- broker reports; it is positive, at most the proposed one, and that cash covers it with all costs.
  -- The outcome says REDUCED exactly if it is less than proposed.
  pub verify_approves :
      (r : VerificationResult) (b' : B)
      → verify describe s port quotes compliance symbol proposed price b ≡ (ok r, b')
      → is_approved r ≡ true
      → (cash : ℤ) × Passes cash × Affords cash r
  verify_approves r b' e a =
      let (_, priced, (c, compliant, e1)) = verify_passes_on r b' e a in
      let (is_pass, (d, quoted, e2)) = compliance_approves c r b' e1 a in
      let (depth, some_depth, liquid, (cash, reported, same)) = depth_approves d r b' e2 a in
      (
        cash,
        record {
          priced = priced;
          compliant = rw is_pass at compliant;
          depth = depth;
          quoted = rw some_depth at quoted;
          liquid = liquid;
          reported = reported;
        },
        subst (Affords cash) (sym same)
            (verify_cash-Affords cash priced (subst (λ x. is_approved x ≡ true) same a)),
      )

  accepts_depth :
      (cash : ℤ) (d : MarketDepthSnapshot)
      → spread_exceeds d s.max_spread_bps ≡ false
      → (port.get_available_cash b).0 ≡ ok cash
      → (verify_depth describe s port symbol proposed price (some d) b).0
        ≡ ok (verify_cash describe s port proposed price cash)
  unfolding verify_depth
  accepts_depth cash d liquid reported = ground arith

  verify_passes :
      (cash : ℤ)
      → Passes cash
      → 0 < affordable_quantity s.cost_config price cash proposed
      → affordable_quantity s.cost_config price cash proposed ≤ proposed
      → (r : VerificationResult) × (b' : B) × (verify describe s port quotes compliance symbol
            proposed price b
          ≡ (ok r, b'))
        × (is_approved r ≡ true)
  unfolding verify
  verify_passes cash h n le =
      let r = verify_cash describe s port proposed price cash in
      let out = verify describe s port quotes compliance symbol proposed price b in
      let returns : out.0 ≡ ok r = ground arith in
      (r, out.1, ap (λ x. (x, out.1)) returns, ground arith)

  -- The service approves exactly if a positive quantity is proposed, every check passes, and the cash
  -- that the broker reports covers one unit with all costs. So nothing else stands in the way.
  pub verify_accepts :
      ((r : VerificationResult) × (b' : B) × (verify describe s port quotes compliance symbol
            proposed price b
          ≡ (ok r, b'))
        × (is_approved r ≡ true))
      ↔ ((cash : ℤ) × Passes cash × (0 < proposed) × Fits s.cost_config price cash 1)
  verify_accepts = (
    (λ (r, b', e, a).
        let (cash, passes, (same, positive, most, _, _)) = verify_approves r b' e a in
        let (_, greatest) = affordable_greatest s.cost_config price cash proposed passes.priced in
        (cash, passes, omega arith, (greatest 1 (omega arith) (omega arith)).1 (omega arith))),
    λ (cash, passes, some_units, fits).
        let (le, greatest) = affordable_greatest s.cost_config price cash proposed passes.priced in
        let one = (greatest 1 (omega arith) (omega arith)).0 fits in
        verify_passes cash passes (omega arith) le,
  )
