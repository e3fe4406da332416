-- ===== src/Backtest/Pending/Units.antt =====
-- The units and the cash that the orders of engine.py stand for.
use etf_platform_paper_mode.Common.{
  ℕ, ◌+◌, ◌<◌, ◌≡◌, false, Option, List, [], ◌∷◌, ◌++◌, arith, Result, ok, All,
}
use etf_platform_paper_mode.Common.Int.{ℤ, pos, ◌+ℤ◌, ◌-ℤ◌, int_laws}
use etf_platform_paper_mode.Cost.{Side, buy, sell, CostBreakdown, total_cost}
use etf_platform_paper_mode.Backtest.{
  BacktestError, OrderIntent, is_refused, PendingOrder, Trade, RejectReason, partially_filled,
}
use etf_platform_paper_mode.Backtest.Portfolio.{Portfolio, gross_units}
use etf_platform_paper_mode.Backtest.Portfolio.Agrees.{Agrees, cash_after}
use etf_platform_paper_mode.Backtest.Pending.{Book, add_pending}

abbrev pub traded : List Trade → ℕ
traded [] = 0
traded (t ∷ ts) = t.fill.quantity + traded ts

-- The units that a rejection gives up: of a partly filled order, the remainder.
abbrev pub given_up : OrderIntent × RejectReason → ℕ
given_up (x, partially_filled filled remainder expiry) = remainder
given_up (x, _) = x.quantity

abbrev pub rejected_units : List (OrderIntent × RejectReason) → ℕ
rejected_units [] = 0
rejected_units (r ∷ rs) = given_up r + rejected_units rs

abbrev pub waiting : List PendingOrder → ℕ
waiting [] = 0
waiting (p ∷ ps) = p.intent.quantity + waiting ps

abbrev pub settled : Book → ℕ
settled b = traded b.trades + rejected_units b.rejected_orders

-- What a trade costs and brings, in 10⁻¹⁴ paise.
abbrev pub paid_for : Side → CostBreakdown → ℕ
paid_for buy cost = gross_units cost + total_cost cost
paid_for sell cost = total_cost cost

abbrev pub received_for : Side → CostBreakdown → ℕ
received_for buy cost = 0
received_for sell cost = gross_units cost

abbrev pub paid : List Trade → ℕ
paid [] = 0
paid (t ∷ ts) = paid_for t.fill.side t.fill.cost + paid ts

abbrev pub received : List Trade → ℕ
received [] = 0
received (t ∷ ts) = received_for t.fill.side t.fill.cost + received ts

-- The cash before the trades of the log.
unfoldable pub balance : Book → ℤ
balance b = (b.portfolio.cash +ℤ pos (paid b.trades)) -ℤ pos (received b.trades)

-- Decided before the day of the fill.
abbrev pub DecidedBefore : Trade → Type 0
DecidedBefore t = t.fill.decided_date < t.fill.fill_date

abbrev pub IsSoundBook : Book → Type 0
IsSoundBook b = Agrees b.portfolio × All DecidedBefore b.trades

-- An order that its class accepts, to be filled after the day it was decided.
abbrev pub IsSoundOrder : PendingOrder → Type 0
IsSoundOrder p = (is_refused p.intent ≡ false) × (p.decided_date < p.target_fill_date)

-- The step returned the orders that wait on, and accounts for `units`.
abbrev pub Counts : Book → (units : ℕ) → List PendingOrder → Book → Type 0
Counts b units kept b' =
    IsSoundBook b'
    × All IsSoundOrder kept
    × (settled b' + waiting kept ≡ settled b + units)
    × (balance b' ≡ balance b)

abbrev pub CountsStep : Book → ℕ → Result BacktestError (Option PendingOrder) × Book → Type 0
CountsStep b units (r, b') =
    (kept : Option PendingOrder) × (r ≡ ok kept) × Counts b units (add_pending kept []) b'

pub traded-++ : (ts : List Trade) (t : Trade) → traded (ts ++ t ∷ []) ≡ traded ts + t.fill.quantity
traded-++ [] t = omega arith
traded-++ (s ∷ ts) t = omega (arith, traded-++ ts t)

pub rejected_units-++ :
    (rs : List (OrderIntent × RejectReason)) (r : OrderIntent × RejectReason)
    → rejected_units (rs ++ r ∷ []) ≡ rejected_units rs + given_up r
rejected_units-++ [] r = omega arith
rejected_units-++ (s ∷ rs) r = omega (arith, rejected_units-++ rs r)

paid-++ :
    (ts : List Trade) (t : Trade)
    → (paid (ts ++ t ∷ []) ≡ paid ts + paid_for t.fill.side t.fill.cost)
      × (received (ts ++ t ∷ []) ≡ received ts + received_for t.fill.side t.fill.cost)
paid-++ [] t = (omega arith, omega arith)
paid-++ (s ∷ ts) t = let (p, r) = paid-++ ts t in (omega arith, omega arith)

-- A trade that changes the cash as its fill says.
pub balance-applied :
    (b : Book) (t : Trade) (p : Portfolio)
    → p.cash ≡ cash_after t.fill.side t.fill.cost b.portfolio.cash
    → balance (record b { portfolio = p; trades = b.trades ++ t ∷ [] }) ≡ balance b
unfolding balance
balance-applied b t p h = let (more, gain) = paid-++ b.trades t in by_side t.fill.side h more gain
  where
    by_side :
        (side : Side)
        → p.cash ≡ cash_after side t.fill.cost b.portfolio.cash
        → paid (b.trades ++ t ∷ []) ≡ paid b.trades + paid_for side t.fill.cost
        → received (b.trades ++ t ∷ []) ≡ received b.trades + received_for side t.fill.cost
        → ((p.cash +ℤ pos (paid (b.trades ++ t ∷ []))) -ℤ pos (received (b.trades ++ t ∷ [])))
          ≡ ((b.portfolio.cash +ℤ pos (paid b.trades)) -ℤ pos (received b.trades))
    by_side buy h more gain = grind int_laws
    by_side sell h more gain = grind int_laws

pub All-++ :
    (ts : List Trade) (t : Trade)
    → All DecidedBefore ts
    → DecidedBefore t
    → All DecidedBefore (ts ++ t ∷ [])
All-++ [] t h d = (d, tt)
All-++ (s ∷ ts) t (first, rest) d = (first, All-++ ts t rest d)
