-- ===== src/Backtest/Engine/Sound.antt =====
-- What each step of a day of engine.py keeps.
use etf_platform_paper_mode.Common.{
  ℕ, ◌+◌, ◌-◌, ◌*◌, ◌≡◌, ◌⊎◌, ◌==◌, Bool, true, false, ◌||◌, Result, ok, raised, Exec, ◌>>◌, >>=-ok,
  >>=-raised, sym, subst, ap, Option, none, some, List, [], ◌∷◌, ◌++◌, inl, inr, refl, ◌∙◌, ltb,
  arith, Bool-cases, All,
}
use etf_platform_paper_mode.Common.Int.{ℤ, pos, ◌+ℤ◌, int_laws}
use etf_platform_paper_mode.Common.Dict.{Dict, lookup}
use etf_platform_paper_mode.Cost.{unit_scale}
use etf_platform_paper_mode.Backtest.{
  BacktestError, split_ratio, DividendReceipt, CorporateActionEvent,
}
use etf_platform_paper_mode.Backtest.Portfolio.{Portfolio, position, apply_dividend, split_position}
use etf_platform_paper_mode.Backtest.Portfolio.Splits.{SplitOutcome, split_position-SplitOutcome}
use etf_platform_paper_mode.Backtest.History.{Observed}
use etf_platform_paper_mode.Backtest.Portfolio.Agrees.{Agrees}
use etf_platform_paper_mode.Backtest.Pending.Units.{balance, IsSoundBook, IsSoundOrder}
use etf_platform_paper_mode.Backtest.Engine.{
  CorporateAction, split, bonus, dividend, unhandled, Run, append_receipt, after_split,
  apply_action, action_on, apply_actions, corporate_actions_on, check_price, warning_due,
  check_stale_prices,
}

abbrev pub credited : List DividendReceipt → ℕ
credited [] = 0
credited (r ∷ rs) = r.total_cash_credited + credited rs

-- The book is sound, the pending orders are, and the cash is `initial`, in 10⁻¹⁴ paise, with the
-- dividends and what the trades brought, less what they cost.
abbrev pub IsSoundRun : (initial : ℤ) → Run → Type 0
IsSoundRun initial s =
    IsSoundBook s.book
    × All IsSoundOrder s.pending_orders
    × (balance s.book ≡ initial +ℤ pos (credited s.dividend_receipts * unit_scale))

credited-++ :
    (rs : List DividendReceipt) (r : DividendReceipt)
    → credited (rs ++ r ∷ []) ≡ credited rs + r.total_cash_credited
credited-++ [] r = omega arith
credited-++ (s ∷ rs) r = omega (arith, credited-++ rs r)

apply_dividend-lem :
    (symbol date amount : ℕ) (p : Portfolio)
    → let (receipt, p') = apply_dividend symbol date amount p in
      (p'.positions ≡ p.positions)
      × (p'.lots ≡ p.lots)
      × ((rs : List DividendReceipt)
          → p'.cash +ℤ pos (credited rs * unit_scale)
            ≡ p.cash +ℤ pos (credited (append_receipt receipt rs) * unit_scale))
unfolding apply_dividend
apply_dividend-lem symbol date amount p = elim (Bool-cases (position symbol p == 0)) [
  | inl t ↦ rw t (refl, refl, λ rs. refl)
  | inr t ↦ rw t (refl, refl, λ rs. grind (int_laws, credited-++))
]

-- A portfolio with the positions and lots of another one.
Agrees-same : (p q : Portfolio) → q.positions ≡ p.positions → q.lots ≡ p.lots → Agrees p → Agrees q
unfolding position
Agrees-same p q e f h symbol = rw (e, f) (h symbol)

-- The engine does not take the ratio of a split that is not positive.
abbrev pub is_bad : CorporateAction → Bool
is_bad (split ratio) = ratio == 0
is_bad (bonus ratio) = ratio == 0
is_bad _ = false

abbrev pub any_bad : List (ℕ × CorporateAction) → Bool
any_bad [] = false
any_bad ((_, action) ∷ actions) = is_bad action || any_bad actions

-- Some split or bonus has a ratio that is not positive.
abbrev pub has_bad_split : Dict (List (ℕ × CorporateAction)) → Bool
has_bad_split [] = false
has_bad_split ((_, actions) ∷ rest) = any_bad actions || has_bad_split rest

-- A step from a state, with what it observed before: it keeps the state sound, or it raises for a
-- ratio, as the flag says.
abbrev pub Kept :
    (initial : ℤ) (bad : Bool) → Observed → Result BacktestError (Unit {0}) × Run → Type 0
Kept initial bad o (r, s) =
    ((r ≡ ok tt) × IsSoundRun initial s × (s.observed ≡ o))
    ⊎ ((r ≡ raised split_ratio) × (bad ≡ true))

module _ (initial : ℤ) (date : ℕ) where
  after_split-Kept :
      (ratio : ℕ) (s : Run) (out : Result BacktestError (Option CorporateActionEvent) × Portfolio)
      → IsSoundRun initial s
      → SplitOutcome ratio s.book.portfolio out
      → Kept initial (ratio == 0) s.observed (after_split s out)
  unfolding balance
  after_split-Kept ratio s (ok event, p) ((_, log), orders, even) (agrees, cash) = inl (
    refl,
    (
      (agrees, log),
      orders,
      ap (λ c. balance (record s.book { portfolio = record p { cash = c } })) cash ∙ even,
    ),
    refl,
  )
  after_split-Kept ratio s (raised e, p) h (own, zero_ratio) = inr (ap raised own, ground arith)

  apply_action-Kept :
      (symbol : ℕ) (action : CorporateAction) (s : Run)
      → IsSoundRun initial s
      → Kept initial (is_bad action) s.observed (apply_action date symbol action s)
  unfolding apply_action balance
  apply_action-Kept symbol (split ratio) s h =
      after_split-Kept ratio s (split_position symbol date ratio s.book.portfolio) h
        (split_position-SplitOutcome symbol date ratio s.book.portfolio h.0.0)
  apply_action-Kept symbol (bonus ratio) s h =
      after_split-Kept ratio s (split_position symbol date ratio s.book.portfolio) h
        (split_position-SplitOutcome symbol date ratio s.book.portfolio h.0.0)
  apply_action-Kept symbol (unhandled kind) s h = inl (refl, h, refl)
  apply_action-Kept symbol (dividend amount) s ((agrees, log), orders, even) =
      let p = s.book.portfolio in
      let out = apply_dividend symbol date amount p in
      let (positions, lots, moved) = apply_dividend-lem symbol date amount p in
      let cash = moved s.dividend_receipts in
      inl (refl, ((Agrees-same p out.1 positions lots agrees, log), orders, grind int_laws), refl)

  -- One step after another one.
  Kept-then :
      (a b : Bool) (m k : Exec BacktestError Run (Unit {0})) (s : Run)
      → Kept initial a s.observed (m s)
      → ((s' : Run) → IsSoundRun initial s' → Kept initial b s'.observed (k s'))
      → Kept initial (a || b) s.observed ((m >> k) s)
  Kept-then a b m k s (inr (r, bad)) later =
      subst (Kept initial (a || b) s.observed)
        (sym (>>=-raised m (λ _. k) (ap (λ x. (x, (m s).1)) r))) (inr (refl, ground arith))
  Kept-then a b m k s (inl (r, sound, same)) later =
      subst (Kept initial (a || b) s.observed) (sym (>>=-ok m (λ _. k) (ap (λ x. (x, (m s).1)) r)))
        (by_rest (later (m s).1 sound))
    where
      by_rest :
          Kept initial b (m s).1.observed (k (m s).1) → Kept initial (a || b) s.observed (k (m s).1)
      by_rest (inl (r, sound, here)) = inl (r, sound, here ∙ same)
      by_rest (inr (r, bad)) = inr (r, ground arith)

  apply_actions-Kept :
      (symbol : ℕ) (actions : List (ℕ × CorporateAction)) (s : Run)
      → IsSoundRun initial s
      → Kept initial (any_bad actions) s.observed (apply_actions date symbol actions s)
  unfolding apply_actions
  apply_actions-Kept symbol [] s h = inl (refl, h, refl)
  apply_actions-Kept symbol ((ex, action) ∷ rest) s h =
      Kept-then (is_bad action) (any_bad rest) (action_on date symbol ex action)
        (apply_actions date symbol rest) s
        (elim (Bool-cases (ex == date)) [
          | inl t ↦ rw t (apply_action-Kept symbol action s h)
          | inr t ↦ rw t (inl (refl, h, refl))
        ])
        (λ s' h'. apply_actions-Kept symbol rest s' h')

  pub corporate_actions-Kept :
      (actions : Dict (List (ℕ × CorporateAction))) (s : Run)
      → IsSoundRun initial s
      → Kept initial (has_bad_split actions) s.observed (corporate_actions_on date actions s)
  unfolding corporate_actions_on
  corporate_actions-Kept [] s h = inl (refl, h, refl)
  corporate_actions-Kept ((symbol, actions) ∷ rest) s h =
      Kept-then (any_bad actions) (has_bad_split rest) (apply_actions date symbol actions)
        (corporate_actions_on date rest) s (apply_actions-Kept symbol actions s h)
        (λ s' h'. corporate_actions-Kept rest s' h')

-- The fields that the price check and the curve leave alone.
abbrev pub Same : Run → Run → Type 0
Same s s' =
    (s'.book ≡ s.book)
    × (s'.pending_orders ≡ s.pending_orders)
    × (s'.dividend_receipts ≡ s.dividend_receipts)
    × (s'.observed ≡ s.observed)

Same-trans : (r s t : Run) → Same r s → Same s t → Same r t
Same-trans r s t (a, b, c, d) (a', b', c', d') = (a' ∙ a, b' ∙ b, c' ∙ c, d' ∙ d)

check_price-Same :
    (date threshold symbol : ℕ) (price_date : Option ℕ) (s : Run)
    → Same s (check_price date threshold symbol price_date s)
check_price-Same date threshold symbol none s = (refl, refl, refl, refl)
check_price-Same date threshold symbol (some from) s =
    let stale = date - from in
    elim (Bool-cases (ltb stale threshold)) [
      | inl t ↦ rw t (refl, refl, refl, refl)
      | inr t ↦ elim (Bool-cases (warning_due stale threshold (lookup symbol s.warned_stale_at))) [
        | inl d ↦ rw (t, d) (refl, refl, refl, refl)
        | inr d ↦ rw (t, d) (refl, refl, refl, refl)
      ]
    ]

pub check_stale_prices-Same :
    (date threshold : ℕ) (symbols : List ℕ) (s : Run)
    → Same s (check_stale_prices date threshold symbols s)
unfolding check_stale_prices
check_stale_prices-Same date threshold [] s = (refl, refl, refl, refl)
check_stale_prices-Same date threshold (symbol ∷ symbols) s =
    elim (Bool-cases (position symbol s.book.portfolio == 0)) [
      | inl t ↦ rw (check_stale_prices, t) (check_stale_prices-Same date threshold symbols s)
      | inr t ↦
          let s' = check_price date threshold symbol (lookup symbol s.observed.last_price_date) s in
          rw (check_stale_prices, t)
            (Same-trans s s' (check_stale_prices date threshold symbols s')
              (check_price-Same date threshold symbol (lookup symbol s.observed.last_price_date) s)
              (check_stale_prices-Same date threshold symbols s'))
    ]
