-- ===== src/Strategy/Priority.antt =====
-- Which symbols to buy, and in which order: src/etf_platform/strategy_engine/priority.py. The
-- `tolerance` is 1e-9 in the unit of the weights.
pub mod Gaps
use etf_platform_paper_mode.Common.{
  ℕ, ◌+◌, ◌-◌, ◌==◌, Bool, ◌||◌, ◌&&◌, List, [], ◌∷◌, ltb, leb, if◌then◌else◌, or_else,
}
use etf_platform_paper_mode.Common.Dict.{Dict, lookup, insert}
use etf_platform_paper_mode.Strategy.{BuyOpportunity}

abbrev pub weight_of : ℕ → Dict ℕ → ℕ
weight_of symbol weights = or_else (lookup symbol weights) 0

abbrev pub add_symbols : Dict ℕ → Dict ℕ → Dict ℕ
add_symbols [] all = all
add_symbols ((symbol, _) ∷ rest) all = insert symbol 0 (add_symbols rest all)

-- `set(current_weights) | set(target_weights)`, the keys of a dict of zeros.
unfoldable pub all_symbols : Dict ℕ → Dict ℕ → Dict ℕ
all_symbols current target = add_symbols current (add_symbols target [])

unfoldable pub gaps_of : (tolerance : ℕ) → (current target : Dict ℕ) → Dict ℕ → Dict ℕ
gaps_of tolerance current target [] = []
gaps_of tolerance current target ((symbol, _) ∷ rest) =
    let others = gaps_of tolerance current target rest in
    if ltb (weight_of symbol current + tolerance) (weight_of symbol target)
    then (symbol, weight_of symbol target - weight_of symbol current) ∷ others
    else others

unfoldable pub compute_buy_only_diff : (tolerance : ℕ) → (current target : Dict ℕ) → Dict ℕ
compute_buy_only_diff tolerance current target =
    gaps_of tolerance current target (all_symbols current target)

-- The sort key `(-gap, symbol)`, where symbols compare as their numbers do.
abbrev pub comes_first : BuyOpportunity → BuyOpportunity → Bool
comes_first a b = ltb b.gap a.gap || ((a.gap == b.gap) && leb a.symbol b.symbol)

unfoldable pub insert_opportunity : BuyOpportunity → List BuyOpportunity → List BuyOpportunity
insert_opportunity a [] = a ∷ []
insert_opportunity a (b ∷ rest) =
    if comes_first a b then a ∷ b ∷ rest else b ∷ insert_opportunity a rest

unfoldable pub opportunities_of : (current target gaps : Dict ℕ) → List BuyOpportunity
opportunities_of current target [] = []
opportunities_of current target ((symbol, gap) ∷ rest) =
    insert_opportunity
      (record {
        symbol = symbol;
        current_weight = weight_of symbol current;
        target_weight = weight_of symbol target;
        gap = gap;
      })
      (opportunities_of current target rest)

unfoldable pub prioritize_by_gap : (tolerance : ℕ) → (current target : Dict ℕ) → List BuyOpportunity
prioritize_by_gap tolerance current target =
    opportunities_of current target (compute_buy_only_diff tolerance current target)
