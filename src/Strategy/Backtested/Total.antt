-- ===== src/Strategy/Backtested/Total.antt =====
-- A backtest of the strategy engine comes to a result.
use etf_platform_paper_mode.Common.{
  ℕ, ◌≡◌, ◌==◌, false, List, [], ◌∷◌, inl, inr, refl, sym, ◌∙◌, ap, subst, arith, Bool-cases,
  Option, Result, ok, raised, All,
}
use etf_platform_paper_mode.Common.Int.{ℤ, pos, negsuc}
use etf_platform_paper_mode.Common.Dict.{Dict}
use etf_platform_paper_mode.Common.Texts.{Text}
use etf_platform_paper_mode.Cost.{buy}
use etf_platform_paper_mode.Time.Calendar.{day_of_month}
use etf_platform_paper_mode.Backtest.{BacktestError, Bar, OrderIntent, PortfolioSnapshot}
use etf_platform_paper_mode.Backtest.Portfolio.{Portfolio}
use etf_platform_paper_mode.Backtest.Portfolio.Agrees.{Agrees}
use etf_platform_paper_mode.Backtest.Pending.{Engine}
use etf_platform_paper_mode.Backtest.History.Window.{IsDict}
use etf_platform_paper_mode.Backtest.Engine.{Strategy, Market}
use etf_platform_paper_mode.Backtest.Engine.Sound.{has_bad_split}
use etf_platform_paper_mode.Backtest.Engine.Days.{IsAccepted, MakesOrders, Raises}
use etf_platform_paper_mode.Backtest.Run.{BacktestResult, fails_sanity, run}
use etf_platform_paper_mode.Backtest.Run.Accounts.{Reported, run-Reported}
use etf_platform_paper_mode.Strategy.{StrategyError}
use etf_platform_paper_mode.Strategy.Orders.{StrategyEngine, Situation, build_buy_orders}
use etf_platform_paper_mode.Strategy.Orders.Budget.{IsBought, build_buy_orders-Buys}
use etf_platform_paper_mode.Strategy.Backtested.{
  weights_from_portfolio, target_parts, situation, orders_for, generate_orders, as_backtest,
  strategy_of,
}

-- The engine returns orders to buy that their class accepts.
abbrev pub BuysOnly : Result StrategyError (List OrderIntent) → Type 0
BuysOnly r =
    (orders : List OrderIntent) × (r ≡ ok orders)
    × All IsAccepted orders
    × All (λ x. x.side ≡ buy) orders

bought-BuysOnly :
    (e : StrategyEngine) (x : Situation) (current target : Dict ℕ) (orders : List OrderIntent)
    → All (IsBought e x current target) orders
    → All IsAccepted orders × All (λ x. x.side ≡ buy) orders
bought-BuysOnly e x current target [] h = (tt, tt)
bought-BuysOnly e x current target (order ∷ orders) ((side, _, _, kept, _, _), hs) =
    let (accepted, bought) = bought-BuysOnly e x current target orders hs in
    ((kept, accepted), (side, bought))

-- The market intelligence port never raises.
abbrev pub Answers : StrategyEngine → Type 0
Answers e = (date : ℕ) → (context : Option Text) × (e.market_context date ≡ ok context)

module _ (e : StrategyEngine) (buffer : ℕ) (not_negative : e.limit_price_buffer_pct ≡ pos buffer)
    (answers : Answers e) where
  orders_for-BuysOnly :
      (date : ℕ) (history : Dict (List Bar)) (positions : Dict ℕ) (cash total : ℤ)
      → BuysOnly (orders_for e date history positions cash total)
  unfolding build_buy_orders
  orders_for-BuysOnly date history positions (negsuc _) total = ([], refl, tt, tt)
  orders_for-BuysOnly date history positions (pos cash) (negsuc _) = ([], refl, tt, tt)
  orders_for-BuysOnly date history positions (pos cash) (pos total) =
      elim (Bool-cases (cash == 0)) [
        | inl t ↦ rw t ([], refl, tt, tt)
        | inr t ↦ elim (Bool-cases (total == 0)) [
          | inl z ↦ rw (t, z) ([], refl, tt, tt)
          | inr z ↦
              let x = situation date total history in
              let current = weights_from_portfolio positions history in
              let target = target_parts total e.target_weights in
              let (orders, made, _, all) =
                build_buy_orders-Buys e x buffer cash current target (answers date).0 (ground arith)
                  not_negative (answers date).1 in
              let (accepted, bought) = bought-BuysOnly e x current target orders all in
              let here = rw (t, z) at made in rw (t, z) (orders, here, accepted, bought)
        ]
      ]

  generate_orders-BuysOnly :
      (date : ℕ) (history : Dict (List Bar)) (now : PortfolioSnapshot)
      → BuysOnly (generate_orders e date history now)
  unfolding generate_orders
  generate_orders-BuysOnly date history now =
      elim (Bool-cases (day_of_month date == e.deployment_day_of_month)) [
        | inl t ↦
            rw (generate_orders, t)
              (orders_for-BuysOnly date history now.positions now.cash now.total_value)
        | inr t ↦ rw (generate_orders, t) ([], refl, tt, tt)
      ]

  strategy_of-MakesOrders : MakesOrders (strategy_of e)
  strategy_of-MakesOrders date history now intents h =
      let (orders, made, accepted, _) = generate_orders-BuysOnly date history now in
      let same = sym (ap as_backtest made) ∙ h in
      subst (λ xs. All IsAccepted xs) (returned orders intents same) accepted
    where
      returned :
          (xs ys : List OrderIntent)
          → Path (Result BacktestError (List OrderIntent)) (ok xs) (ok ys)
          → xs ≡ ys
      returned xs ys h = cc

  strategy_of-Raises : (error : BacktestError) → ¬ Raises (strategy_of e) error
  strategy_of-Raises error (date, history, now, h) =
      let (orders, made, _, _) = generate_orders-BuysOnly date history now in
      let same = sym (ap as_backtest made) ∙ h in absurd (cc same)

-- The run came to a result that accounts for all, as `Reported` says.
abbrev pub Returns :
    Strategy → Market → Portfolio → Result BacktestError BacktestResult × Portfolio → Type 0
Returns strategy market p (r, p') =
    (result : BacktestResult) × (r ≡ ok result) × Reported strategy market p (ok result, p')

-- A backtest of the strategy engine, with a buffer that is not negative and a market intelligence port
-- that never raises, on bars that pass the sanity check and with no split or bonus whose ratio is not
-- positive, from a portfolio whose positions are those of its tax lots, always comes to a result: no
-- exception ends it. In the result positions and lots agree, every trade was decided before the day
-- it was filled, and the cash is accounted for by the trades and the dividends.
pub run-Returns :
    (engine : Engine) (e : StrategyEngine) (market : Market) (p : Portfolio) (buffer : ℕ)
    → e.limit_price_buffer_pct ≡ pos buffer
    → Answers e
    → IsDict market.bars
    → fails_sanity market.bars ≡ false
    → has_bad_split market.corporate_actions ≡ false
    → Agrees p
    → Returns (strategy_of e) market p (run engine (strategy_of e) market p)
run-Returns engine e market p buffer not_negative answers keys sane whole agrees =
    let reported =
      run-Reported engine (strategy_of e) market p
        (strategy_of-MakesOrders e buffer not_negative answers) keys agrees in
    by_result (run engine (strategy_of e) market p) reported
  where
    by_result :
        (out : Result BacktestError BacktestResult × Portfolio)
        → Reported (strategy_of e) market p out
        → Returns (strategy_of e) market p out
    by_result (ok result, p') h = (result, refl, h)
    by_result (raised x, p') (inl t) = absurd (cc (sym t ∙ sane))
    by_result (raised x, p') (inr (inl from)) =
        absurd (strategy_of-Raises e buffer not_negative answers x from)
    by_result (raised x, p') (inr (inr (_, bad))) = absurd (cc (sym bad ∙ whole))
