-- ===== src/Verify.antt =====
-- The checks before a submission: src/etf_platform/execution_manager/verification.py. A quantity
-- or price of zero stands for the source's `<= 0`. The formatted notes are texts that `describe`
-- renders.
pub mod Affordable
pub mod Gates
mod Tests
use Prim.Native.Nat.{min}
use etf_platform_paper_mode.Common.{
  ℕ, zero, suc, ◌+◌, ◌*◌, ◌/◌, ◌==◌, Bool, true, false, ◌||◌, Option, none, some, List, [], ◌∷◌,
  Exec, pure, lift, ◌>>=◌, leb, ltb, if◌then◌else◌,
}
use etf_platform_paper_mode.Common.Int.{ℤ, pos, negsuc}
use etf_platform_paper_mode.Cost.{CostConfig, buy, unit_scale, total_cost, compute_transaction_cost}
use etf_platform_paper_mode.Events.{
  Text, RejectionReason, insufficient_cash, compliance_failed, liquidity_insufficient, no_quote,
  invalid_order,
}
use etf_platform_paper_mode.Lifecycle.{Error}
use etf_platform_paper_mode.Ports.{
  BrokerPort, ComplianceResult, pass, fail, MarketDepthSnapshot, spread_exceeds, Quotes, Compliance,
}

pub data Outcome : Type 0 where
  approved approved_with_reduced_quantity rejected : Outcome

-- The notes that the service writes, with the values that they show.
pub data Note : Type 0 where
  non_positive : (quantity price : ℕ) → Note
  compliance_check_failed : Note
  no_market_depth : ℕ → Note
  spread_too_wide : MarketDepthSnapshot → ℕ → Note
  cash_for_no_unit : ℤ → ℕ → Note
  quantity_reduced : (proposed verified : ℕ) → Note

-- `VerificationResult`
pub record VerificationResult : Type 0 where
  pub outcome : Outcome
  pub verified_quantity : ℕ
  pub original_quantity : ℕ
  pub limit_price : ℕ
  pub rejection_reason : Option RejectionReason
  pub notes : List Text

abbrev pub is_approved : VerificationResult → Bool
is_approved r = elim r.outcome [ rejected ↦ false | _ ↦ true ]

-- `quantity * price + cost.total_cost <= budget`, in the unit of the line items.
abbrev pub fits : CostConfig → (price budget quantity : ℕ) → Bool
fits cfg price budget quantity =
    leb
      (quantity * price * unit_scale + total_cost (compute_transaction_cost cfg buy price quantity))
      (budget * unit_scale)

-- The `while` of `_affordable_quantity`, which counts down.
largest_fit : CostConfig → (price budget quantity : ℕ) → ℕ
largest_fit cfg price budget zero = 0
largest_fit cfg price budget (suc q) =
    let rest = largest_fit cfg price budget q in
    if fits cfg price budget (suc q) then suc q else rest

affordable_within : CostConfig → (price budget proposed : ℕ) → ℕ
unfolding largest_fit
affordable_within cfg price budget proposed =
    if (price == 0) || (budget == 0)
    then 0
    else largest_fit cfg price budget (min (budget / price) proposed)

-- `_affordable_quantity`: a negative budget buys nothing.
unfoldable pub affordable_quantity : CostConfig → (price : ℕ) → ℤ → (proposed : ℕ) → ℕ
unfolding affordable_within
affordable_quantity cfg price (negsuc _) proposed = 0
affordable_quantity cfg price (pos budget) proposed = affordable_within cfg price budget proposed

-- `VerificationService` with its two settings.
pub record VerificationService : Type 0 where
  pub cost_config : CostConfig
  pub max_spread_bps : ℕ

-- `compliance_result.reason or "…"`: an empty reason is replaced too.
abbrev reason_or : Option Text → Text → Text
reason_or none default = default
reason_or (some []) default = default
reason_or (some (c ∷ cs)) default = c ∷ cs

abbrev refuse : RejectionReason → (proposed price : ℕ) → Text → VerificationResult
refuse reason proposed price note = record {
  outcome = rejected;
  verified_quantity = 0;
  original_quantity = proposed;
  limit_price = price;
  rejection_reason = some reason;
  notes = note ∷ [];
}

abbrev approve : (proposed verified price : ℕ) → Text → VerificationResult
approve proposed verified price note = record {
  outcome = if verified == proposed then approved else approved_with_reduced_quantity;
  verified_quantity = verified;
  original_quantity = proposed;
  limit_price = price;
  rejection_reason = none;
  notes = if ltb verified proposed then note ∷ [] else [];
}

module _ {B : Type 0} (describe : Note → Text) (s : VerificationService) (port : BrokerPort B) where
  -- The last check: what the live cash affords.
  verify_cash : (proposed price : ℕ) → ℤ → VerificationResult
  unfolding affordable_quantity
  verify_cash proposed price cash =
      let quantity = affordable_quantity s.cost_config price cash proposed in
      if quantity == 0
      then refuse insufficient_cash proposed price (describe (cash_for_no_unit cash price))
      else approve proposed (min quantity proposed) price
          (describe (quantity_reduced proposed (min quantity proposed)))

  verify_depth :
      (symbol proposed price : ℕ) → Option MarketDepthSnapshot → Exec Error B VerificationResult
  unfolding verify_cash spread_exceeds
  verify_depth symbol proposed price none =
      pure (refuse no_quote proposed price (describe (no_market_depth symbol)))
  verify_depth symbol proposed price (some depth) =
      if spread_exceeds depth s.max_spread_bps
      then pure (
          refuse liquidity_insufficient proposed price
            (describe (spread_too_wide depth s.max_spread_bps)))
      else do cash ← port.get_available_cash; pure (verify_cash proposed price cash)

  verify_compliance :
      Quotes → (symbol proposed price : ℕ) → ComplianceResult → Exec Error B VerificationResult
  unfolding verify_depth
  verify_compliance quotes symbol proposed price (fail reason) = pure (
      refuse compliance_failed proposed price (reason_or reason (describe compliance_check_failed)))
  verify_compliance quotes symbol proposed price pass = do
    depth ← lift (quotes symbol)
    verify_depth symbol proposed price depth

  unfoldable pub verify :
      Quotes → Compliance → (symbol proposed price : ℕ) → Exec Error B VerificationResult
  unfolding verify_compliance
  verify quotes compliance symbol proposed price =
      if (proposed == 0) || (price == 0)
      then pure (refuse invalid_order proposed price (describe (non_positive proposed price)))
      else do
        result ← lift (compliance symbol proposed price)
        verify_compliance quotes symbol proposed price result
