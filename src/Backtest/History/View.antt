-- ===== src/Backtest/History/View.antt =====
-- What the history view of engine.py shows: exactly the bars of the window.
use etf_platform_paper_mode.Common.{
  ℕ, suc, ◌≤◌, ◌<◌, ◌≡◌, Bool, true, false, ◌&&◌, List, [], ◌∷◌, inl, inr, refl, sym, ap, ltb, leb,
  if◌then◌else◌, arith, Bool-cases, keep,
}
use etf_platform_paper_mode.Backtest.{Bar}
use etf_platform_paper_mode.Backtest.History.{drop, take, bisect_left, looks_ahead}

-- The dates do not decrease.
abbrev pub From : ℕ → List Bar → Type 0
From d [] = Unit
From d (bar ∷ bars) = (d ≤ bar.trade_date) × From bar.trade_date bars

abbrev pub IsSorted : List Bar → Type 0
IsSorted = From 0

-- The bars up to a date, as many as the sorted list has.
unfoldable pub observed_count : (current_date : ℕ) → List Bar → ℕ
observed_count current_date [] = 0
observed_count current_date (bar ∷ bars) =
    if leb bar.trade_date current_date then suc (observed_count current_date bars) else 0

abbrev pub in_window : (cutoff current_date : ℕ) → Bar → Bool
in_window cutoff current_date bar = leb cutoff bar.trade_date && leb bar.trade_date current_date

From-le : (d e : ℕ) (bars : List Bar) → d ≤ e → From e bars → From d bars
From-le d e [] le h = tt
From-le d e (bar ∷ bars) le (h, rest) = (omega arith, rest)

keep_none :
    (cutoff current_date d : ℕ) (bars : List Bar)
    → current_date < d
    → From d bars
    → keep (in_window cutoff current_date) bars ≡ []
keep_none cutoff current_date d [] lt h = refl
keep_none cutoff current_date d (bar ∷ bars) lt (h, rest) =
    ground (arith, keep_none cutoff current_date bar.trade_date bars (omega arith) rest)

-- From the cutoff on, the observed bars are those of the window.
keep-take :
    (cutoff current_date d : ℕ) (bars : List Bar)
    → cutoff ≤ d
    → From d bars
    → take (observed_count current_date bars) bars ≡ keep (in_window cutoff current_date) bars
unfolding observed_count
keep-take cutoff current_date d [] lt h = refl
keep-take cutoff current_date d (bar ∷ bars) lt (h, rest) =
    let above : leb cutoff bar.trade_date ≡ true = ground arith in
    elim (Bool-cases (leb bar.trade_date current_date)) [
      | inl t ↦
          let same = keep-take cutoff current_date bar.trade_date bars (omega arith) rest in
          rw (t, above) (ap (λ xs. bar ∷ xs) same)
      | inr t ↦
          let nothing = keep_none cutoff current_date bar.trade_date bars (ground arith) rest in
          rw (t, above) (sym nothing)
    ]

-- The slice that the engine takes is what a filter of all bars would give.
pub slice_keep :
    (cutoff current_date d : ℕ) (bars : List Bar)
    → From d bars
    → (let n = observed_count current_date bars in drop (bisect_left cutoff bars n) (take n bars))
      ≡ keep (in_window cutoff current_date) bars
unfolding observed_count bisect_left
slice_keep cutoff current_date d [] h = refl
slice_keep cutoff current_date d (bar ∷ bars) (h, rest) =
    elim (Bool-cases (ltb bar.trade_date cutoff)) [
      | inl early ↦
          let below : leb cutoff bar.trade_date ≡ false = ground arith in
          elim (Bool-cases (leb bar.trade_date current_date)) [
            | inl t ↦ rw (t, early, below) (slice_keep cutoff current_date bar.trade_date bars rest)
            | inr t ↦
                let nothing =
                  keep_none cutoff current_date bar.trade_date bars (ground arith) rest in
                rw (t, below) (sym nothing)
          ]
      | inr late ↦
          let above : leb cutoff bar.trade_date ≡ true = ground arith in
          let same =
            keep-take cutoff current_date bar.trade_date (bar ∷ bars) (ground arith)
              (omega arith, rest) in
          elim (Bool-cases (leb bar.trade_date current_date)) [
            | inl t ↦ let here = rw (t, above) at same in rw (t, late, above) here
            | inr t ↦ let here = rw (t, above) at same in rw (t, above) here
          ]
    ]

pub never_ahead :
    (current_date : ℕ) (bars : List Bar)
    → looks_ahead current_date bars (observed_count current_date bars) ≡ false
unfolding looks_ahead observed_count
never_ahead current_date [] = refl
never_ahead current_date (bar ∷ []) = ground arith
never_ahead current_date (bar ∷ next ∷ bars) =
    let later = never_ahead current_date (next ∷ bars) in ground arith
