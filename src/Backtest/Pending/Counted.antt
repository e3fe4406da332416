-- ===== src/Backtest/Pending/Counted.antt =====
-- What the pending orders of engine.py keep: every unit is traded, rejected or waiting, and no order is
-- filled on the day that it was decided.
use etf_platform_paper_mode.Common.{
  ℕ, ◌-◌, ◌≤◌, ◌<◌, ◌≡◌, ◌==◌, Bool, true, false, none, some, List, [], ◌∷◌, ◌++◌, inl, inr, refl,
  ◌∙◌, ap, ltb, leb, or_else, arith, Bool-cases, Option-cases, ok, lift, pure, >>=-ok,
}
use etf_platform_paper_mode.Common.Dict.{Dict, lookup}
use etf_platform_paper_mode.Cost.{Side, buy, sell}
use etf_platform_paper_mode.Lots.{GainConfig}
use etf_platform_paper_mode.Backtest.{
  Bar, OrderIntent, is_refused, order_intent, PendingOrder, Fill, RejectReason, partially_filled,
  no_trading_data, never_touched, cash_at_fill, held_at_fill,
}
use etf_platform_paper_mode.Backtest.Fills.{try_fill}
use etf_platform_paper_mode.Backtest.Fills.Quality.{try_fill-IsGoodFill}
use etf_platform_paper_mode.Backtest.Portfolio.{
  can_afford_buy, can_afford_sell, apply_fill, trade_of,
}
use etf_platform_paper_mode.Backtest.Portfolio.Agrees.{
  affords, affords_by, FillOutcome, apply_fill-FillOutcome,
}
use etf_platform_paper_mode.Backtest.Pending.{
  Book, Engine, bar_on, reject, wait_or_reject, remainder_order, requeue, after_fill,
  apply_and_record, checked_by, process_pending_order,
}
use etf_platform_paper_mode.Backtest.Pending.Units.{
  given_up, balance, IsSoundBook, IsSoundOrder, CountsStep, traded-++, rejected_units-++,
  balance-applied, All-++,
}

-- A rejection gives up all that was asked for.
reject-CountsStep :
    (b : Book) (x : OrderIntent) (reason : RejectReason) (units : ℕ)
    → IsSoundBook b
    → given_up (x, reason) ≡ units
    → CountsStep b units (ok none, reject x reason b)
unfolding balance
reject-CountsStep b x reason units h e =
    (none, refl, (h, tt, omega (arith, rejected_units-++ b.rejected_orders (x, reason)), refl))

wait-CountsStep :
    (b : Book) (pending : PendingOrder) (waits : Bool) (reason : RejectReason)
    → IsSoundBook b
    → IsSoundOrder pending
    → given_up (pending.intent, reason) ≡ pending.intent.quantity
    → CountsStep b pending.intent.quantity (wait_or_reject waits pending reason b)
wait-CountsStep b pending true reason h o e = (some pending, refl, (h, (o, tt), omega arith, refl))
wait-CountsStep b pending false reason h o e =
    reject-CountsStep b pending.intent reason pending.intent.quantity h e

still_accepted :
    (x : OrderIntent) (n : ℕ)
    → is_refused x ≡ false
    → (n == 0) ≡ false
    → order_intent (record x { quantity = n }) ≡ ok (record x { quantity = n })
unfolding order_intent
still_accepted x n h e = ground arith

requeued :
    (current_date : ℕ) (pending : PendingOrder) (n : ℕ) (b : Book)
    → is_refused pending.intent ≡ false
    → (n == 0) ≡ false
    → requeue current_date pending n b ≡ (
      ok (some (remainder_order current_date pending (record pending.intent { quantity = n }))),
      b,
    )
unfolding requeue
requeued current_date pending n b h e =
    >>=-ok (lift (order_intent (record pending.intent { quantity = n })))
      (λ x. pure (some (remainder_order current_date pending x)))
      (ap (λ r. (r, b)) (still_accepted pending.intent n h e))

after_fill-CountsStep :
    (current_date : ℕ) (pending : PendingOrder) (fill : Fill) (b : Book)
    → IsSoundBook b
    → IsSoundOrder pending
    → pending.target_fill_date ≤ current_date
    → CountsStep b
        (pending.intent.quantity - fill.quantity)
        (after_fill current_date pending fill b)
unfolding after_fill
after_fill-CountsStep current_date pending fill b h (accepted, before) due =
    let remainder = pending.intent.quantity - fill.quantity in
    elim (Bool-cases (remainder == 0)) [
      | inl t ↦ rw t (none, refl, (h, tt, ground arith, refl))
      | inr t ↦ elim (Bool-cases (ltb current_date pending.expiry_date)) [
        | inl early ↦
            let x = record pending.intent { quantity = remainder } in
            rw (t, early, requeued current_date pending remainder b accepted t)
              (
                some (remainder_order current_date pending x),
                refl,
                (h, ((ground arith, omega arith), tt), omega arith, refl),
              )
        | inr late ↦
            rw (t, late)
              (reject-CountsStep b pending.intent
                (partially_filled fill.quantity remainder pending.expiry_date) remainder h refl)
      ]
    ]

applied-CountsStep :
    (current_date : ℕ) (gains : GainConfig) (pending : PendingOrder) (fill : Fill) (b : Book)
    → IsSoundBook b
    → IsSoundOrder pending
    → pending.target_fill_date ≤ current_date
    → fill.decided_date < fill.fill_date
    → fill.quantity ≤ pending.intent.quantity
    → affords fill b.portfolio ≡ true
    → CountsStep b pending.intent.quantity (apply_and_record current_date gains pending fill b)
unfolding apply_and_record
applied-CountsStep current_date gains pending fill b (agrees, log) o due before most afforded =
    let out = apply_fill gains fill b.portfolio in
    let outcome : FillOutcome fill.side fill b.portfolio true out =
      rw afforded at (apply_fill-FillOutcome gains fill b.portfolio agrees) in
    let (realized, e, agrees', cash, _) = outcome in
    let trade = trade_of fill realized in
    let after : Book = record b { portfolio = out.1; trades = b.trades ++ trade ∷ [] } in
    let (kept, r, (sound, orders, sum, even)) =
      after_fill-CountsStep current_date pending fill after
        (agrees', All-++ b.trades trade log before) o due in
    rw (apply_and_record, e)
      (
        kept,
        r,
        (
          sound,
          orders,
          omega (arith, sum, traded-++ b.trades trade),
          even ∙ balance-applied b trade out.1 cash,
        ),
      )

checked-CountsStep :
    (current_date : ℕ) (gains : GainConfig) (pending : PendingOrder) (fill : Fill) (b : Book)
    → IsSoundBook b
    → IsSoundOrder pending
    → pending.target_fill_date ≤ current_date
    → fill.decided_date < fill.fill_date
    → fill.quantity ≤ pending.intent.quantity
    → CountsStep b pending.intent.quantity (checked_by fill.side current_date gains pending fill b)
checked-CountsStep current_date gains pending fill b h o due before most = by_side fill.side refl
  where
    by_side :
        (side : Side)
        → fill.side ≡ side
        → CountsStep b pending.intent.quantity (checked_by side current_date gains pending fill b)
    by_side buy e = elim (Bool-cases (can_afford_buy fill b.portfolio)) [
      | inl t ↦
          let yes = ap (λ s. affords_by s fill b.portfolio) e ∙ t in
          rw t (applied-CountsStep current_date gains pending fill b h o due before most yes)
      | inr t ↦
          rw t (reject-CountsStep b pending.intent cash_at_fill pending.intent.quantity h refl)
    ]
    by_side sell e = elim (Bool-cases (can_afford_sell fill b.portfolio)) [
      | inl t ↦
          let yes = ap (λ s. affords_by s fill b.portfolio) e ∙ t in
          rw t (applied-CountsStep current_date gains pending fill b h o due before most yes)
      | inr t ↦
          rw t (reject-CountsStep b pending.intent held_at_fill pending.intent.quantity h refl)
    ]

bar_on-date :
    (current_date : ℕ) (bars : List Bar) (bar : Bar)
    → bar_on current_date bars ≡ some bar
    → bar.trade_date ≡ current_date
unfolding bar_on
bar_on-date current_date [] bar h = absurd (ground arith)
bar_on-date current_date (first ∷ bars) bar h = elim (Option-cases (bar_on current_date bars)) [
  | inl e ↦ ground arith
  | inr (later, e) ↦ bar_on-date current_date bars bar (ground arith)
]

pub process-CountsStep :
    (engine : Engine) (current_date : ℕ) (bars : Dict (List Bar)) (pending : PendingOrder)
    (b : Book)
    → IsSoundBook b
    → IsSoundOrder pending
    → CountsStep b pending.intent.quantity
        (process_pending_order engine current_date bars pending b)
unfolding process_pending_order
process-CountsStep engine current_date bars pending b h o =
    let own = or_else (lookup pending.intent.symbol bars) [] in
    elim (Bool-cases (ltb current_date pending.target_fill_date)) [
      | inl t ↦ rw t (some pending, refl, (h, (o, tt), omega arith, refl))
      | inr t ↦ elim (Option-cases (bar_on current_date own)) [
        | inl e ↦
            rw (t, e)
              (wait-CountsStep b pending (leb current_date pending.expiry_date)
                (no_trading_data pending.expiry_date) h o refl)
        | inr (bar, e) ↦ elim (Option-cases (try_fill engine.fill_simulator pending bar)) [
          | inl f ↦
              rw (t, e, f)
                (wait-CountsStep b pending (ltb current_date pending.expiry_date)
                  (never_touched pending.expiry_date) h o refl)
          | inr (fill, f) ↦
              let (_, _, most, _, _, made) =
                try_fill-IsGoodFill engine.fill_simulator pending bar fill f in
              let decided = ap (λ x. x.decided_date) made in
              let dated = ap (λ x. x.fill_date) made in
              let today = bar_on-date current_date own bar e in
              rw (t, e, f)
                (checked-CountsStep current_date engine.gain_config pending fill b h o
                  (ground arith) (ground arith) most)
        ]
      ]
    ]
