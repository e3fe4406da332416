-- ===== src/Backtest/Engine/Days.antt =====
-- The days of engine.py: what holds after each of them, whatever the strategy answers.
use etf_platform_paper_mode.Common.{
  ℕ, ◌-◌, ◌*◌, ◌≤◌, ◌≡◌, ◌⊎◌, false, true, >>=-ok, >>=-raised, List, [], ◌∷◌, ◌++◌, inl, inr, refl,
  sym, ◌∙◌, ap, subst, ltb, Bool-cases, Result-cases, Result, ok, raised, All,
}
use etf_platform_paper_mode.Common.Int.{ℤ, pos, ◌+ℤ◌}
use etf_platform_paper_mode.Common.Dict.{Dict}
use etf_platform_paper_mode.Cost.{unit_scale}
use etf_platform_paper_mode.Backtest.{
  BacktestError, split_ratio, Bar, OrderIntent, is_refused, PendingOrder, PortfolioSnapshot,
  BacktestConfig,
}
use etf_platform_paper_mode.Backtest.Pending.{Engine, process_pending_orders}
use etf_platform_paper_mode.Backtest.Pending.Units.{balance, IsSoundBook, IsSoundOrder}
use etf_platform_paper_mode.Backtest.Pending.Processed.{
  process_pending_orders-CountsAll, queue_order-IsSoundOrder,
}
use etf_platform_paper_mode.Backtest.History.{Observed, observe_all}
use etf_platform_paper_mode.Backtest.History.Window.{
  window, Caught, Behind, AllSorted, IsDict, view-Caught, observe_all-Caught, Caught-Behind,
}
use etf_platform_paper_mode.Backtest.Engine.{
  Strategy, Market, Run, corporate_actions_on, mark, snapshot, queue_all, ask, decide, after_orders,
  trade_on, trade_day, run_day, run_days,
}
use etf_platform_paper_mode.Backtest.Engine.Sound.{
  credited, IsSoundRun, has_bad_split, corporate_actions-Kept, check_stale_prices-Same,
}

abbrev pub IsAccepted : OrderIntent → Type 0
IsAccepted x = is_refused x ≡ false

-- Every order is one that `OrderIntent` let be made.
abbrev pub MakesOrders : Strategy → Type 0
MakesOrders strategy =
    (date : ℕ) (history : Dict (List Bar)) (now : PortfolioSnapshot) (intents : List OrderIntent)
    → strategy.generate_orders date history now ≡ ok intents
    → All IsAccepted intents

abbrev pub Raises : Strategy → BacktestError → Type 0
Raises strategy e =
    (date : ℕ) × (history : Dict (List Bar)) × (now : PortfolioSnapshot) × (strategy.generate_orders
        date history now
      ≡ raised e)

All-append :
    (ps qs : List PendingOrder)
    → All IsSoundOrder ps
    → All IsSoundOrder qs
    → All IsSoundOrder (ps ++ qs)
All-append [] qs h k = k
All-append (p ∷ ps) qs (h, hs) k = (h, All-append ps qs hs k)

queue_all-IsSoundOrder :
    (config : BacktestConfig) (date : ℕ) (intents : List OrderIntent)
    → All IsAccepted intents
    → All IsSoundOrder (queue_all config date intents)
queue_all-IsSoundOrder config date [] h = tt
queue_all-IsSoundOrder config date (x ∷ xs) (h, hs) =
    (queue_order-IsSoundOrder config x date h, queue_all-IsSoundOrder config date xs hs)

-- The dates do not decrease, from `d` on.
abbrev pub Rising : ℕ → List ℕ → Type 0
Rising d [] = Unit
Rising d (date ∷ dates) = (d ≤ date) × Rising date dates

-- Who an exception is of: the strategy, or a split of the market with a ratio that is not positive.
abbrev pub IsBlamed : Strategy → Market → BacktestError → Type 0
IsBlamed strategy market e =
    Raises strategy e ⊎ ((e ≡ split_ratio) × (has_bad_split market.corporate_actions ≡ true))

module _ (strategy : Strategy) (makes : MakesOrders strategy) (market : Market) (initial : ℤ) where
  -- A step ended well, or with what the strategy or a split raised.
  abbrev pub Ends : Observed → Result BacktestError (Unit {0}) × Run → Type 0
  Ends o (r, s) =
      ((r ≡ ok tt) × IsSoundRun initial s × (s.observed ≡ o))
      ⊎ ((e : BacktestError) × (r ≡ raised e) × IsBlamed strategy market e)

  ask-Ends :
      (config : BacktestConfig) (date : ℕ) (history : Dict (List Bar)) (s : Run)
      → IsSoundRun initial s
      → Ends s.observed (ask config strategy date (ok history) s)
  ask-Ends config date history s (book, orders, even) =
      elim (Result-cases (strategy.generate_orders date history (snapshot date s))) [
        | inl (intents, e) ↦
            let sound =
              queue_all-IsSoundOrder config date intents
                (makes date history (snapshot date s) intents e) in
            let all = All-append s.pending_orders (queue_all config date intents) orders sound in
            rw e (inl (refl, (book, all, even), refl))
        | inr (x, e) ↦ rw e (inr (x, refl, inl (date, history, snapshot date s, e)))
      ]

  mark-IsSoundRun :
      (config : BacktestConfig) (date : ℕ) (s : Run)
      → IsSoundRun initial s
      → IsSoundRun initial (mark config date s) × ((mark config date s).observed ≡ s.observed)
  mark-IsSoundRun config date s h =
      let (book, orders, receipts, observed) =
        check_stale_prices-Same date config.stale_price_warning_days config.symbols s in
      let (sound, all, even) = h in
      (
        (
          subst (λ b. IsSoundBook b) (sym book) sound,
          subst (λ ps. All IsSoundOrder ps) (sym orders) all,
          ap balance book
              ∙ even
              ∙ ap (λ rs. initial +ℤ pos (credited rs * unit_scale)) (sym receipts),
        ),
        observed,
      )

  decide-Ends :
      (config : BacktestConfig) (date : ℕ) (s : Run)
      → AllSorted market.bars
      → Caught date market.bars s.observed
      → IsSoundRun initial s
      → Ends s.observed (decide config strategy market date s)
  unfolding decide
  decide-Ends config date s sorted caught h =
      let lookback = config.lookback_days_provided_to_strategy in
      let (marked, same) = mark-IsSoundRun config date s h in
      let view =
        view-Caught lookback date market.bars (mark config date s).observed sorted
          (subst (λ o. Caught date market.bars o) (sym same) caught) in
      let asked =
        ask-Ends config date (window (date - lookback) date market.bars) (mark config date s)
          marked in
      subst (λ r. Ends s.observed (ask config strategy date r (mark config date s))) (sym view)
        (subst
          (λ o. Ends o (
            ask config strategy date (ok (window (date - lookback) date market.bars))
              (mark config date s)))
          same asked)

  trade_on-Ends :
      (engine : Engine) (date : ℕ) (s : Run)
      → AllSorted market.bars
      → Caught date market.bars s.observed
      → IsSoundRun initial s
      → Ends s.observed (trade_on engine strategy market date s)
  trade_on-Ends engine date s sorted caught (book, orders, even) =
      let (kept, e, (sound, waits, _, evens)) =
        process_pending_orders-CountsAll engine date market.bars s.pending_orders s.book book
          orders in
      let b = (process_pending_orders engine date market.bars s.pending_orders s.book).1 in
      let next : Run = record s { book = b; pending_orders = kept } in
      let decided =
        decide-Ends engine.config date next sorted caught (sound, waits, evens ∙ even) in
      subst (λ r. Ends s.observed (after_orders engine.config strategy market date s (r, b)))
        (sym e) decided

  trade_day-Ends :
      (engine : Engine) (date : ℕ) (s : Run)
      → AllSorted market.bars
      → Caught date market.bars s.observed
      → IsSoundRun initial s
      → Ends s.observed (trade_day engine strategy market date s)
  unfolding trade_day
  trade_day-Ends engine date s sorted caught h =
      let actions = corporate_actions_on date market.corporate_actions in
      let next = trade_on engine strategy market date in
      elim (corporate_actions-Kept initial date market.corporate_actions s h) [
        | inl (r, sound, same) ↦
            let traded =
              trade_on-Ends engine date (actions s).1 sorted
                (subst (λ o. Caught date market.bars o) (sym same) caught) sound in
            subst (Ends s.observed)
              (sym (>>=-ok actions (λ _. next) (ap (λ x. (x, (actions s).1)) r)))
              (subst (λ o. Ends o (next (actions s).1)) same traded)
        | inr (r, bad) ↦
            subst (Ends s.observed)
              (sym (>>=-raised actions (λ _. next) (ap (λ x. (x, (actions s).1)) r)))
              (inr (split_ratio, refl, inr (refl, bad)))
      ]

  -- One more day, if the bars of the days before are observed.
  run_day-Ends :
      (engine : Engine) (date : ℕ) (s : Run)
      → IsDict market.bars
      → AllSorted market.bars
      → Behind date market.bars s.observed
      → IsSoundRun initial s
      → Ends (observe_all date market.bars s.observed) (run_day engine strategy market date s)
  unfolding run_day
  run_day-Ends engine date s keys sorted behind h =
      let s' : Run = record s { observed = observe_all date market.bars s.observed } in
      let caught = observe_all-Caught date market.bars s.observed keys behind in
      elim (Bool-cases (ltb date engine.config.start_date)) [
        | inl t ↦ rw (run_day, t) (inl (refl, h, refl))
        | inr t ↦ rw (run_day, t) (trade_day-Ends engine date s' sorted caught h)
      ]

  -- All days ended well, or one with what the strategy or a split raised.
  abbrev pub EndsDays : Result BacktestError (Unit {0}) × Run → Type 0
  EndsDays (r, s) =
      ((r ≡ ok tt) × IsSoundRun initial s)
      ⊎ ((e : BacktestError) × (r ≡ raised e) × IsBlamed strategy market e)

  pub run_days-EndsDays :
      (engine : Engine) (d : ℕ) (dates : List ℕ) (s : Run)
      → IsDict market.bars
      → AllSorted market.bars
      → Rising d dates
      → ((e : ℕ) → d ≤ e → Behind e market.bars s.observed)
      → IsSoundRun initial s
      → EndsDays (run_days engine strategy market dates s)
  unfolding run_days
  run_days-EndsDays engine d [] s keys sorted rising behind h = inl (refl, h)
  run_days-EndsDays engine d (date ∷ dates) s keys sorted (le, rising) behind h =
      elim (run_day-Ends engine date s keys sorted (behind date le) h) [
        | inl (r, sound, o) ↦
            let s' = (run_day engine strategy market date s).1 in
            let caught = observe_all-Caught date market.bars s.observed keys (behind date le) in
            let here = subst (λ o. Caught date market.bars o) (sym o) caught in
            rw (run_days, r)
              (run_days-EndsDays engine date dates s' keys sorted rising
                (λ e later. Caught-Behind date e market.bars s'.observed later here) sound)
        | inr (x, r, from) ↦ rw (run_days, r) (inr (x, refl, from))
      ]
