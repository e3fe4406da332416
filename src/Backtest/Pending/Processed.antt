-- ===== src/Backtest/Pending/Processed.antt =====
-- All pending orders of a day, as `_process_pending_orders` of engine.py goes through them, and those
-- that are left at the end.
use etf_platform_paper_mode.Common.{
  ℕ, ◌+◌, ◌≡◌, false, Option, none, some, List, [], ◌∷◌, refl, ◌∙◌, ap, arith, Result, ok, All,
  pure, ◌>>=◌, >>=-ok,
}
use etf_platform_paper_mode.Common.Dict.{Dict}
use etf_platform_paper_mode.Backtest.{
  BacktestError, Bar, is_refused, OrderIntent, PendingOrder, BacktestConfig, ended,
}
use etf_platform_paper_mode.Backtest.Pending.{
  Book, Engine, reject, process_pending_order, add_pending, process_pending_orders, queue_order,
  reject_unfilled_orders_at_end,
}
use etf_platform_paper_mode.Backtest.Pending.Counted.{process-CountsStep}
use etf_platform_paper_mode.Backtest.Pending.Units.{
  waiting, settled, balance, IsSoundBook, IsSoundOrder, Counts, rejected_units-++,
}

add_pending-lem :
    (kept : Option PendingOrder) (others : List PendingOrder)
    → All IsSoundOrder (add_pending kept [])
    → All IsSoundOrder others
    → All IsSoundOrder (add_pending kept others)
      × (waiting (add_pending kept others) ≡ waiting (add_pending kept []) + waiting others)
add_pending-lem none others h all = (all, omega arith)
add_pending-lem (some p) others (sound, _) all = ((sound, all), omega arith)

abbrev pub CountsAll : Book → ℕ → Result BacktestError (List PendingOrder) × Book → Type 0
CountsAll b units (r, b') = (kept : List PendingOrder) × (r ≡ ok kept) × Counts b units kept b'

-- Processing a day's pending orders, if they are ones that their class accepts and decided before
-- their target date and the portfolio's positions are those of its lots, raises nothing. The units
-- of the orders are then traded, rejected or still waiting, none twice; positions and lots agree;
-- and every trade is still on a later day than its decision, and the cash is the one before less what
-- the new trades cost and plus what they bring.
pub process_pending_orders-CountsAll :
    (engine : Engine) (current_date : ℕ) (bars : Dict (List Bar)) (orders : List PendingOrder)
    (b : Book)
    → IsSoundBook b
    → All IsSoundOrder orders
    → CountsAll b (waiting orders) (process_pending_orders engine current_date bars orders b)
unfolding process_pending_orders
process_pending_orders-CountsAll engine current_date bars [] b h o =
    ([], refl, (h, tt, omega arith, refl))
process_pending_orders-CountsAll engine current_date bars (pending ∷ rest) b h (o, os) =
    let step = process_pending_order engine current_date bars pending in
    let all = process_pending_orders engine current_date bars rest in
    let (kept, r, (h', o', sum, even)) =
      process-CountsStep engine current_date bars pending b h o in
    let b' = (step b).1 in
    let (others, rs, (h'', os', sums, evens)) =
      process_pending_orders-CountsAll engine current_date bars rest b' h' os in
    let (sound, total) = add_pending-lem kept others o' os' in
    let stepped =
      >>=-ok step (λ kept. all >>= λ others. pure (add_pending kept others)) (ap (λ r. (r, b')) r)
      ∙ >>=-ok all (λ others. pure (add_pending kept others)) (ap (λ r. (r, (all b').1)) rs) in
    rw stepped
      (add_pending kept others, refl, (h'', sound, omega (arith, sum, sums, total), evens ∙ even))

pub queue_order-IsSoundOrder :
    (config : BacktestConfig) (x : OrderIntent) (decided_date : ℕ)
    → is_refused x ≡ false
    → IsSoundOrder (queue_order config x decided_date)
unfolding queue_order
queue_order-IsSoundOrder config x decided_date h = (h, omega arith)

pub reject_unfilled-settled :
    (orders : List PendingOrder) (b : Book)
    → settled (reject_unfilled_orders_at_end orders b) ≡ settled b + waiting orders
unfolding reject_unfilled_orders_at_end
reject_unfilled-settled [] b = omega arith
reject_unfilled-settled (pending ∷ rest) b = omega (
  arith,
  reject_unfilled-settled rest (reject pending.intent ended b),
  rejected_units-++ b.rejected_orders (pending.intent, ended),
)

pub reject_unfilled-IsSoundBook :
    (orders : List PendingOrder) (b : Book)
    → IsSoundBook b
    → IsSoundBook (reject_unfilled_orders_at_end orders b)
unfolding reject_unfilled_orders_at_end
reject_unfilled-IsSoundBook [] b h = h
reject_unfilled-IsSoundBook (pending ∷ rest) b h =
    reject_unfilled-IsSoundBook rest (reject pending.intent ended b) h

pub reject_unfilled-balance :
    (orders : List PendingOrder) (b : Book)
    → balance (reject_unfilled_orders_at_end orders b) ≡ balance b
unfolding reject_unfilled_orders_at_end balance
reject_unfilled-balance [] b = refl
reject_unfilled-balance (pending ∷ rest) b =
    reject_unfilled-balance rest (reject pending.intent ended b)
