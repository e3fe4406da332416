-- ===== src/Backtest/History.antt =====
-- What a strategy may see: the observed bars and `_build_history_view` of
-- src/etf_platform/backtesting/engine.py.
pub mod View
pub mod Window
use Prim.Native.Nat.{min}
use etf_platform_paper_mode.Common.{
  ℕ, zero, suc, ◌+◌, ◌-◌, ◌==◌, Bool, false, Option, none, some, List, [], ◌∷◌, ◌++◌, map, Result,
  ok, raised, ltb, leb, if◌then◌else◌, or_else, length,
}
use etf_platform_paper_mode.Common.Dict.{Dict, lookup, insert}
use etf_platform_paper_mode.Backtest.{BacktestError, look_ahead, Bar}

-- `sorted(bars, key=lambda b: b.trade_date)`, which keeps the order of bars of one date.
unfoldable pub insert_bar : Bar → List Bar → List Bar
insert_bar bar [] = bar ∷ []
insert_bar bar (first ∷ rest) =
    if leb bar.trade_date first.trade_date then bar ∷ first ∷ rest else first ∷ insert_bar bar rest

unfoldable pub sorted_bars : List Bar → List Bar
sorted_bars [] = []
sorted_bars (bar ∷ bars) = insert_bar bar (sorted_bars bars)

-- `pointer`, `last_known_price` and `last_price_date`.
pub record Observed : Type 0 where
  pub pointer : Dict ℕ
  pub last_known_price : Dict ℕ
  pub last_price_date : Dict ℕ

abbrev pub pointer_of : ℕ → Observed → ℕ
pointer_of symbol o = or_else (lookup symbol o.pointer) 0

abbrev pub observe_bar : (symbol : ℕ) → Bar → Observed → Observed
observe_bar symbol bar o = record {
  pointer = insert symbol (suc (pointer_of symbol o)) o.pointer;
  last_known_price = insert symbol bar.close o.last_known_price;
  last_price_date = insert symbol bar.trade_date o.last_price_date;
}

-- `xs[n:]` and `xs[:n]`
abbrev pub drop {ℓ} : {A : Type ℓ} → ℕ → List A → List A
drop zero xs = xs
drop (suc n) [] = []
drop (suc n) (_ ∷ xs) = drop n xs

abbrev pub take {ℓ} : {A : Type ℓ} → ℕ → List A → List A
take zero xs = []
take (suc n) [] = []
take (suc n) (x ∷ xs) = x ∷ take n xs

-- The `while` loop of a symbol, by the bars from its pointer on.
unfoldable pub observe : (current_date symbol : ℕ) → List Bar → Observed → Observed
observe current_date symbol [] o = o
observe current_date symbol (bar ∷ rest) o =
    if leb bar.trade_date current_date
    then observe current_date symbol rest (observe_bar symbol bar o)
    else o

unfoldable pub observe_all : (current_date : ℕ) → Dict (List Bar) → Observed → Observed
observe_all current_date [] o = o
observe_all current_date ((symbol, bars) ∷ rest) o =
    observe_all current_date rest (observe current_date symbol (drop (pointer_of symbol o) bars) o)

-- `bisect.bisect_left(dates, cutoff, hi=hi)`: where the dates, which are sorted, reach the cutoff.
unfoldable pub bisect_left : (cutoff : ℕ) → List Bar → (hi : ℕ) → ℕ
bisect_left cutoff bars zero = 0
bisect_left cutoff [] (suc hi) = 0
bisect_left cutoff (bar ∷ bars) (suc hi) =
    if ltb bar.trade_date cutoff then suc (bisect_left cutoff bars hi) else 0

-- `bars[end_idx - 1].trade_date > current_date`, of an index that is not 0.
unfoldable pub looks_ahead : (current_date : ℕ) → List Bar → (end_idx : ℕ) → Bool
looks_ahead current_date bars zero = false
looks_ahead current_date [] (suc n) = false
looks_ahead current_date (bar ∷ bars) (suc zero) = ltb current_date bar.trade_date
looks_ahead current_date (bar ∷ bars) (suc (suc n)) = looks_ahead current_date bars (suc n)

-- The history of a symbol.
unfoldable pub symbol_view :
    (current_date cutoff : ℕ) → List Bar → (end_idx : ℕ) → Result BacktestError (List Bar)
symbol_view current_date cutoff bars end_idx =
    if looks_ahead current_date bars end_idx
    then raised look_ahead
    else ok (drop (bisect_left cutoff bars end_idx) (take end_idx bars))

abbrev pub add_view :
    ℕ
    → Result BacktestError (List Bar)
    → Result BacktestError (Dict (List Bar))
    → Result BacktestError (Dict (List Bar))
add_view symbol (raised e) _ = raised e
add_view symbol (ok view) (raised e) = raised e
add_view symbol (ok view) (ok rest) = ok ((symbol, view) ∷ rest)

-- The lookback stops at day 0, the start of the calendar, where Python raises OverflowError.
unfoldable pub build_history_view :
    (lookback_days current_date : ℕ)
    → Dict (List Bar)
    → Observed
    → Result BacktestError (Dict (List Bar))
build_history_view lookback_days current_date [] o = ok []
build_history_view lookback_days current_date ((symbol, bars) ∷ rest) o =
    add_view symbol
      (symbol_view current_date (current_date - lookback_days) bars (pointer_of symbol o))
      (build_history_view lookback_days current_date rest o)
