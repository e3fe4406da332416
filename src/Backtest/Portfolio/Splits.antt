-- ===== src/Backtest/Portfolio/Splits.antt =====
-- What `apply_split` of portfolio.py keeps.
use etf_platform_paper_mode.Common.{
  ℕ, ◌*◌, ◌≡◌, ◌==◌, Option, none, some, List, [], ◌∷◌, inl, inr, refl, sym, ◌∙◌, ap, ==→eq,
  if◌then◌else◌, arith, Bool-cases, Result, ok, raised,
}
use etf_platform_paper_mode.Common.Dict.{lookup, lookup-insert}
use etf_platform_paper_mode.Lots.{
  TaxLot, Lots, lots_or_none, open_lots, total_quantity, total_open_quantity, adjust_all,
  split_lots, apply_split,
}
use etf_platform_paper_mode.Backtest.{BacktestError, CorporateActionEvent, split_ratio}
use etf_platform_paper_mode.Backtest.Portfolio.{Portfolio, position, split_position}
use etf_platform_paper_mode.Backtest.Portfolio.Agrees.{Agrees, position-change}

adjust_all-quantity :
    (ratio : ℕ) (lots : List TaxLot)
    → total_quantity (adjust_all ratio lots) ≡ total_quantity lots * ratio
adjust_all-quantity ratio [] = omega arith
adjust_all-quantity ratio (lot ∷ lots) = grind (arith, adjust_all-quantity ratio lots)

-- The lots of a symbol, by what the dict has for it.
split_lots-quantity :
    (symbol ratio other : ℕ) (found : Option (List TaxLot)) (d : Lots)
    → lookup symbol d ≡ found
    → total_open_quantity other (split_lots symbol ratio found d) ≡ (
        if symbol == other
        then total_open_quantity other d * ratio
        else total_open_quantity other d)
unfolding total_open_quantity open_lots
split_lots-quantity symbol ratio other none d e = elim (Bool-cases (symbol == other)) [
  | inl t ↦
      let own = ap (λ s. lookup s d) (==→eq symbol other t) in
      let free = sym own ∙ e in rw (t, free) (omega arith)
  | inr t ↦ rw t refl
]
split_lots-quantity symbol ratio other (some []) d e = elim (Bool-cases (symbol == other)) [
  | inl t ↦
      let own = ap (λ s. lookup s d) (==→eq symbol other t) in
      let free = sym own ∙ e in rw (t, free) (omega arith)
  | inr t ↦ rw t refl
]
split_lots-quantity symbol ratio other (some (lot ∷ lots)) d e =
    let found =
      ap (λ o. total_quantity (lots_or_none o))
        (lookup-insert symbol other (adjust_all ratio (lot ∷ lots)) d) in
    elim (Bool-cases (symbol == other)) [
      | inl t ↦
          let own = ap (λ s. lookup s d) (==→eq symbol other t) in
          let held = ap (λ o. total_quantity (lots_or_none o)) (sym own ∙ e) in
          let here = rw t at found in
          rw t (here ∙ (adjust_all-quantity ratio (lot ∷ lots) ∙ ap (λ n. n * ratio) (sym held)))
      | inr t ↦ let here = rw t at found in rw t here
    ]

-- A split of a whole, positive ratio: positions and lots still agree, and the cash stays. Another
-- one raises if the symbol is held.
abbrev pub SplitOutcome :
    (ratio : ℕ)
    → Portfolio
    → Result BacktestError (Option CorporateActionEvent) × Portfolio
    → Type 0
SplitOutcome ratio p (ok event, p') = Agrees p' × (p'.cash ≡ p.cash)
SplitOutcome ratio p (raised e, p') = (e ≡ split_ratio) × (ratio ≡ 0)

pub split_position-SplitOutcome :
    (symbol ex_date ratio : ℕ) (p : Portfolio)
    → Agrees p
    → SplitOutcome ratio p (split_position symbol ex_date ratio p)
unfolding split_position apply_split
split_position-SplitOutcome symbol date ratio p h = elim (Bool-cases (position symbol p == 0)) [
  | inl t ↦ rw t (h, refl)
  | inr t ↦ elim (Bool-cases (ratio == 0)) [
    | inl z ↦ rw (t, z) (refl, ground arith)
    | inr z ↦
        let lots = split_lots symbol ratio (lookup symbol p.lots) p.lots in
        rw (t, z)
          (
            (λ other.
                position-change symbol other (λ held. held * ratio) p p.cash lots
                ∙ (ap (λ n. if symbol == other then n * ratio else n) (h other)
                    ∙ sym (
                        split_lots-quantity symbol ratio other (lookup symbol p.lots) p.lots
                          refl))),
            refl,
          )
  ]
]
