-- ===== src/Strategy/Priority/Gaps.antt =====
-- Every opportunity of priority.py is for a symbol under its target weight.
use etf_platform_paper_mode.Common.{
  ℕ, ◌+◌, ◌-◌, ◌≡◌, ◌<◌, List, [], ◌∷◌, inl, inr, refl, ltb, arith, Bool-cases, All,
}
use etf_platform_paper_mode.Common.Dict.{Dict}
use etf_platform_paper_mode.Strategy.{BuyOpportunity}
use etf_platform_paper_mode.Strategy.Priority.{
  weight_of, gaps_of, compute_buy_only_diff, all_symbols, comes_first, insert_opportunity,
  opportunities_of, prioritize_by_gap,
}

module _ (tolerance : ℕ) (current target : Dict ℕ) where
  -- The symbol's weight is below its target by the gap, and by more than the tolerance.
  abbrev pub IsGap : (symbol gap : ℕ) → Type 0
  IsGap symbol gap =
      (weight_of symbol current + tolerance < weight_of symbol target)
      × (gap ≡ weight_of symbol target - weight_of symbol current)

  abbrev pub IsUnder : BuyOpportunity → Type 0
  IsUnder o = IsGap o.symbol o.gap

  abbrev AllGaps : Dict ℕ → Type 0
  AllGaps [] = Unit
  AllGaps ((symbol, gap) ∷ rest) = IsGap symbol gap × AllGaps rest

  gaps_of-AllGaps : (symbols : Dict ℕ) → AllGaps (gaps_of tolerance current target symbols)
  unfolding gaps_of
  gaps_of-AllGaps [] = tt
  gaps_of-AllGaps ((symbol, _) ∷ rest) =
      elim (Bool-cases (ltb (weight_of symbol current + tolerance) (weight_of symbol target))) [
        | inl t ↦ rw (gaps_of, t) ((ground arith, refl), gaps_of-AllGaps rest)
        | inr t ↦ rw (gaps_of, t) (gaps_of-AllGaps rest)
      ]

  insert-IsUnder :
      (o : BuyOpportunity) (rest : List BuyOpportunity)
      → IsUnder o
      → All IsUnder rest
      → All IsUnder (insert_opportunity o rest)
  unfolding insert_opportunity
  insert-IsUnder o [] h hs = (h, tt)
  insert-IsUnder o (first ∷ rest) h (f, hs) = elim (Bool-cases (comes_first o first)) [
    | inl t ↦ rw (insert_opportunity, t) (h, (f, hs))
    | inr t ↦ rw (insert_opportunity, t) (f, insert-IsUnder o rest h hs)
  ]

  opportunities-IsUnder :
      (gaps : Dict ℕ) → AllGaps gaps → All IsUnder (opportunities_of current target gaps)
  unfolding opportunities_of
  opportunities-IsUnder [] h = tt
  opportunities-IsUnder ((symbol, gap) ∷ rest) (h, hs) =
      insert-IsUnder
        (record {
          symbol = symbol;
          current_weight = weight_of symbol current;
          target_weight = weight_of symbol target;
          gap = gap;
        })
        (opportunities_of current target rest) h (opportunities-IsUnder rest hs)

  pub prioritize-IsUnder : All IsUnder (prioritize_by_gap tolerance current target)
  unfolding prioritize_by_gap compute_buy_only_diff
  prioritize-IsUnder =
      opportunities-IsUnder (gaps_of tolerance current target (all_symbols current target))
        (gaps_of-AllGaps (all_symbols current target))
