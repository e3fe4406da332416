-- ===== src/Verify/Affordable.antt =====
-- What `_affordable_quantity` of verification.py computes.
use Prim.Native.Nat.{min}
use mathlib.Core.Logic.{◌↔◌}
use native.Mathlib.Decide.{dec_le, ℕ_discrete}
use etf_platform_paper_mode.Common.{
  ℕ, zero, suc, ◌+◌, ◌*◌, ◌/◌, ◌≤◌, ◌<◌, ◌≡◌, ◌≢◌, ◌⊎◌, inl, inr, refl, true, false, arith, leb→le,
  le→leb, Bool-cases,
}
use etf_platform_paper_mode.Common.Int.{ℤ, pos, negsuc}
use etf_platform_paper_mode.Cost.{CostConfig, buy, unit_scale}
use etf_platform_paper_mode.Cost.Laws.{cost_of, cost_mono}
use etf_platform_paper_mode.Verify.{fits, largest_fit, affordable_within, affordable_quantity}

-- The quantity at the price and all its costs are covered by the cash.
abbrev pub Fits : CostConfig → (price : ℕ) → ℤ → (quantity : ℕ) → Type 0
Fits cfg price (pos cash) q = q * price * unit_scale + cost_of cfg buy price q ≤ cash * unit_scale
Fits cfg price (negsuc _) q = ⊥

module _ (cfg : CostConfig) (price cash : ℕ) where
  Fits-down : (q r : ℕ) → q ≤ r → Fits cfg price (pos cash) r → Fits cfg price (pos cash) q
  Fits-down q r le h =
      let gross : q * price ≤ r * price = grind arith in
      omega (arith, cost_mono cfg buy price q r le)

  -- The countdown stops at the first quantity that fits, which is the largest.
  largest_fit_lem :
      (n : ℕ)
      → (largest_fit cfg price cash n ≤ n)
        × ((largest_fit cfg price cash n ≡ 0)
            ⊎ Fits cfg price (pos cash) (largest_fit cfg price cash n))
        × ((q : ℕ) → q ≤ n → Fits cfg price (pos cash) q → q ≤ largest_fit cfg price cash n)
  unfolding largest_fit
  largest_fit_lem zero = (omega arith, inl refl, λ q le h. le)
  largest_fit_lem (suc n) = elim (Bool-cases (fits cfg price cash (suc n))) [
    | inl t ↦ rw t (omega arith, inr (leb→le _ _ t), λ q le h. le)
    | inr t ↦
        let (le, found, most) = largest_fit_lem n in
        rw t (omega arith, found, λ q le' h. below n q t most le' h)
  ]
    where
      below :
          (n q : ℕ)
          → fits cfg price cash (suc n) ≡ false
          → ((q : ℕ) → q ≤ n → Fits cfg price (pos cash) q → q ≤ largest_fit cfg price cash n)
          → q ≤ suc n
          → Fits cfg price (pos cash) q
          → q ≤ largest_fit cfg price cash n
      below n q t most le' h = elim (dec_le q n) [
        | yes small ↦ most q small h
        | no big ↦
            let top : q ≡ suc n = omega arith in
            let fit : fits cfg price cash (suc n) ≡ true = le→leb _ _ (rw top at h) in
            absurd (ground arith)
      ]

  -- Whatever fits costs at most the cash, so the quotient does not cut it off.
  Fits-quotient : (q : ℕ) → 0 < price → Fits cfg price (pos cash) q → q ≤ cash / price
  Fits-quotient q p h = let gross : q * price ≤ cash = omega arith in grind arith

  within_none : 0 < price → cash ≡ 0 → (n : ℕ) → affordable_within cfg price cash n ≡ 0
  unfolding affordable_within
  within_none p z n = ground arith

  within_some :
      0 < price
      → cash ≢ 0
      → (n : ℕ)
      → affordable_within cfg price cash n ≡ largest_fit cfg price cash (min (cash / price) n)
  unfolding affordable_within
  within_some p nz n = ground arith

  -- Of the quantities up to `n`, those up to the result fit.
  Greatest : ℕ → ℕ → Type 0
  Greatest n r = (r ≤ n) × ((q : ℕ) → 0 < q → q ≤ n → Fits cfg price (pos cash) q ↔ (q ≤ r))

  within-Greatest : 0 < price → (n : ℕ) → Greatest n (affordable_within cfg price cash n)
  unfolding Greatest
  within-Greatest p n = elim (ℕ_discrete cash 0) [
    | yes z ↦
        rw (within_none p z n)
          (omega arith, λ q one le. ((λ h. absurd (empty z q one h)), λ h. absurd (omega arith)))
    | no nz ↦
        let (le, found, most) = largest_fit_lem (min (cash / price) n) in
        rw (within_some p nz n) (
          omega arith,
          λ q one le'. (
            (λ h. let quotient = Fits-quotient q p h in most q (omega arith) h),
            λ h. Fits-down q _ h (at_least_one q one h found),
          ),
        )
  ]
    where
      empty : cash ≡ 0 → (q : ℕ) → 0 < q → Fits cfg price (pos cash) q → ⊥
      empty z q one h =
          let gross : q * price ≤ cash = omega arith in
          let unit : price ≤ q * price = grind arith in omega arith

      at_least_one :
          (q : ℕ) {r : ℕ}
          → 0 < q
          → q ≤ r
          → (r ≡ 0) ⊎ Fits cfg price (pos cash) r
          → Fits cfg price (pos cash) r
      at_least_one q one le (inl z') = absurd (omega arith)
      at_least_one q one le (inr f) = f

-- For a positive price the result is at most the proposed quantity, and of the quantities from 1
-- to the proposed one exactly those up to the result are covered by the cash with all costs.
pub affordable_greatest :
    (cfg : CostConfig) (price : ℕ) (cash : ℤ) (proposed : ℕ)
    → 0 < price
    → let n = affordable_quantity cfg price cash proposed in
      (n ≤ proposed) × ((q : ℕ) → 0 < q → q ≤ proposed → Fits cfg price cash q ↔ (q ≤ n))
unfolding affordable_quantity Greatest
affordable_greatest cfg price (negsuc _) proposed p =
    (omega arith, λ q one le. ((λ h. absurd h), λ h. absurd (omega arith)))
affordable_greatest cfg price (pos cash) proposed p = within-Greatest cfg price cash p proposed
