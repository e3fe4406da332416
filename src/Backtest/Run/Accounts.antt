-- ===== src/Backtest/Run/Accounts.antt =====
-- What the result of a backtest of engine.py accounts for.
use etf_platform_paper_mode.Common.{
  ℕ, ◌*◌, ◌≤◌, ◌≡◌, ◌⊎◌, ◌==◌, true, List, [], ◌∷◌, inl, inr, sym, subst, ◌∙◌, ltb, leb, arith,
  Bool-cases, Result, ok, raised, All,
}
use etf_platform_paper_mode.Common.Int.{ℤ, pos, ◌+ℤ◌, ◌-ℤ◌, int_laws}
use etf_platform_paper_mode.Common.Dict.{Dict}
use etf_platform_paper_mode.Cost.{unit_scale}
use etf_platform_paper_mode.Backtest.{BacktestError, Bar, BacktestConfig}
use etf_platform_paper_mode.Backtest.Portfolio.{Portfolio}
use etf_platform_paper_mode.Backtest.Portfolio.Agrees.{Agrees}
use etf_platform_paper_mode.Backtest.Pending.{Engine}
use etf_platform_paper_mode.Backtest.Pending.Units.{paid, received, balance, DecidedBefore}
use etf_platform_paper_mode.Backtest.Pending.Processed.{
  reject_unfilled-IsSoundBook, reject_unfilled-balance,
}
use etf_platform_paper_mode.Backtest.History.Window.{
  Behind, AllSorted, IsDict, Absent, sorted_bars-IsSorted,
}
use etf_platform_paper_mode.Backtest.Engine.{Strategy, Market, Run, run_days}
use etf_platform_paper_mode.Backtest.Engine.Sound.{credited}
use etf_platform_paper_mode.Backtest.Engine.Days.{
  MakesOrders, IsBlamed, Rising, EndsDays, run_days-EndsDays,
}
use etf_platform_paper_mode.Backtest.Run.{
  BacktestResult, fails_sanity, sort_all, insert_date, insert_dates, all_dates, start_run, finish,
  run,
}

sort_all-AllSorted : (d : Dict (List Bar)) → AllSorted (sort_all d)
unfolding sort_all
sort_all-AllSorted [] = tt
sort_all-AllSorted ((_, bars) ∷ d) = (sorted_bars-IsSorted bars, sort_all-AllSorted d)

sort_all-Absent : (k : ℕ) (d : Dict (List Bar)) → Absent k d → Absent k (sort_all d)
unfolding sort_all
sort_all-Absent k [] h = tt
sort_all-Absent k (_ ∷ d) (ne, h) = (ne, sort_all-Absent k d h)

sort_all-IsDict : (d : Dict (List Bar)) → IsDict d → IsDict (sort_all d)
unfolding sort_all
sort_all-IsDict [] h = tt
sort_all-IsDict ((k, _) ∷ d) (absent, h) = (sort_all-Absent k d absent, sort_all-IsDict d h)

insert_date-Rising :
    (d date : ℕ) (dates : List ℕ) → d ≤ date → Rising d dates → Rising d (insert_date date dates)
unfolding insert_date
insert_date-Rising d date [] le h = (le, tt)
insert_date-Rising d date (first ∷ rest) le (h, hs) = elim (Bool-cases (ltb date first)) [
  | inl t ↦ rw (insert_date, t) (le, (ground arith, hs))
  | inr t ↦ elim (Bool-cases (date == first)) [
    | inl e ↦ rw (insert_date, t, e) (h, hs)
    | inr e ↦ rw (insert_date, t, e) (h, insert_date-Rising first date rest (ground arith) hs)
  ]
]

insert_dates-Rising :
    (end_date : ℕ) (bars : List Bar) (dates : List ℕ)
    → Rising 0 dates
    → Rising 0 (insert_dates end_date bars dates)
unfolding insert_dates
insert_dates-Rising end_date [] dates h = h
insert_dates-Rising end_date (bar ∷ bars) dates h =
    elim (Bool-cases (leb bar.trade_date end_date)) [
      | inl t ↦
          rw (insert_dates, t)
            (insert_date-Rising 0 bar.trade_date (insert_dates end_date bars dates) (omega arith)
              (insert_dates-Rising end_date bars dates h))
      | inr t ↦ rw (insert_dates, t) (insert_dates-Rising end_date bars dates h)
    ]

all_dates-Rising : (end_date : ℕ) (d : Dict (List Bar)) → Rising 0 (all_dates end_date d)
unfolding all_dates
all_dates-Rising end_date [] = tt
all_dates-Rising end_date ((_, bars) ∷ d) =
    insert_dates-Rising end_date bars (all_dates end_date d) (all_dates-Rising end_date d)

nothing_observed :
    (d : ℕ) (bars : Dict (List Bar)) (prices dates : Dict ℕ)
    → Behind d bars (record { pointer = []; last_known_price = prices; last_price_date = dates })
nothing_observed d [] prices dates = tt
nothing_observed d ((_, _) ∷ rest) prices dates =
    (omega arith, nothing_observed d rest prices dates)

-- What a result and the portfolio after it account for; an error is of bars that fail the check,
-- or of whom
-- `IsBlamed` says.
abbrev pub Reported :
    Strategy → Market → Portfolio → Result BacktestError BacktestResult × Portfolio → Type 0
Reported strategy market p (ok result, p') =
    Agrees p'
    × All DecidedBefore result.trades
    × (((p'.cash +ℤ pos (paid result.trades)) -ℤ pos (received result.trades))
        ≡ p.cash +ℤ pos (credited result.dividend_receipts * unit_scale))
Reported strategy market p (raised e, p') =
    (fails_sanity market.bars ≡ true) ⊎ IsBlamed strategy market e

same_error :
    (x e : BacktestError) → Path (Result BacktestError (Unit {0})) (raised x) (raised e) → x ≡ e
same_error x e h = cc

finish-Reported :
    (strategy : Strategy) (makes : MakesOrders strategy) (market : Market) (bars : Dict (List Bar))
    (config : BacktestConfig) (dates : List ℕ) (p : Portfolio)
    (out : Result BacktestError (Unit {0}) × Run)
    → EndsDays strategy makes (record market { bars = bars }) p.cash out
    → Reported strategy market p (finish config dates out)
unfolding balance
finish-Reported strategy makes market bars config dates p (ok _, s) (inl (_, (book, _, even))) =
    let (agrees, log) = reject_unfilled-IsSoundBook s.pending_orders s.book book in
    (agrees, log, reject_unfilled-balance s.pending_orders s.book ∙ even)
finish-Reported strategy makes market bars config dates p (ok _, s) (inr (e, r, _)) = absurd (cc r)
finish-Reported strategy makes market bars config dates p (raised e, s) (inl (r, _)) = absurd (cc r)
finish-Reported strategy makes market bars config dates p (raised e, s) (inr (x, r, from)) =
    inr (subst (IsBlamed strategy market) (same_error x e (sym r)) from)

nothing_traded : (cash : ℤ) → ((cash +ℤ pos 0) -ℤ pos 0) ≡ cash +ℤ pos (0 * unit_scale)
nothing_traded cash = grind int_laws

pub run-Reported :
    (engine : Engine) (strategy : Strategy) (market : Market) (p : Portfolio)
    → MakesOrders strategy
    → IsDict market.bars
    → Agrees p
    → Reported strategy market p (run engine strategy market p)
unfolding run balance
run-Reported engine strategy market p makes keys agrees =
    let sorted : Market = record market { bars = sort_all market.bars } in
    let dates = all_dates engine.config.end_date sorted.bars in
    let days =
      run_days-EndsDays strategy makes sorted p.cash engine 0 dates (start_run p)
        (sort_all-IsDict market.bars keys) (sort_all-AllSorted market.bars)
        (all_dates-Rising engine.config.end_date sorted.bars)
        (λ e le. nothing_observed e sorted.bars [] []) ((agrees, tt), tt, nothing_traded p.cash) in
    elim (Bool-cases (fails_sanity market.bars)) [
      | inl t ↦ rw (run, t) (inl t)
      | inr t ↦
          let ended =
            finish-Reported strategy makes market sorted.bars engine.config dates p
              (run_days engine strategy sorted dates (start_run p)) days in
          rw (run, t) ended
    ]
