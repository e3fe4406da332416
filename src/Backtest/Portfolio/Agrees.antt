-- ===== src/Backtest/Portfolio/Agrees.antt =====
-- The positions of portfolio.py are those of the tax engine's lots.
use etf_platform_paper_mode.Common.{
  ℕ, ◌+◌, ◌-◌, ◌≤◌, ◌≡◌, ◌≢◌, ◌==◌, Bool, true, false, List, [], ◌∷◌, ◌++◌, inl, inr, refl, ◌∙◌, ap,
  leb→le, ==→eq, if◌then◌else◌, or_else, arith, Bool-cases, Result, ok, raised,
}
use etf_platform_paper_mode.Common.Int.{ℤ, pos, ◌+ℤ◌, ◌-ℤ◌}
use etf_platform_paper_mode.Common.Dict.{lookup, insert, lookup-insert}
use etf_platform_paper_mode.Cost.{Side, buy, sell, CostBreakdown, total_cost}
use etf_platform_paper_mode.Lots.{
  TaxLot, RealizedGain, GainConfig, Lots, lots_or_none, open_lots, total_quantity,
  total_open_quantity, record_buy, match_sell,
}
use etf_platform_paper_mode.Lots.Fifo.{Accounts, match_sell_lem}
use etf_platform_paper_mode.Backtest.{BacktestError, insufficient_cash, over_sell, Fill, Trade}
use etf_platform_paper_mode.Backtest.Portfolio.{
  Portfolio, position, gross_units, can_afford_buy, can_afford_sell, trade_of, bought, apply_buy,
  apply_sell, apply_by, apply_fill,
}

-- For every symbol, the position is what the open lots hold.
abbrev pub Agrees : Portfolio → Type 0
Agrees p = (symbol : ℕ) → position symbol p ≡ total_open_quantity symbol p.lots

total_quantity-++ :
    (lots more : List TaxLot)
    → total_quantity (lots ++ more) ≡ total_quantity lots + total_quantity more
total_quantity-++ [] more = omega arith
total_quantity-++ (lot ∷ lots) more = omega (arith, total_quantity-++ lots more)

record_buy-quantity :
    (symbol buy_date quantity price other : ℕ) (cost : CostBreakdown) (d : Lots)
    → total_open_quantity other (record_buy symbol buy_date quantity price cost d)
      ≡ total_open_quantity other d + (if symbol == other then quantity else 0)
unfolding total_open_quantity record_buy open_lots
record_buy-quantity symbol buy_date quantity price other cost d =
    let lot : TaxLot = record {
      symbol = symbol;
      buy_date = buy_date;
      quantity = quantity;
      buy_price = price;
      per = 1;
      buy_cost_breakdown = cost;
    } in
    let held = lots_or_none (lookup symbol d) in
    let found =
      ap (λ o. total_quantity (lots_or_none o)) (lookup-insert symbol other (held ++ lot ∷ []) d) in
    elim (Bool-cases (symbol == other)) [
      | inl t ↦
          let own : symbol ≡ other = ==→eq symbol other t in
          let same = ap (λ s. total_quantity (lots_or_none (lookup s d))) own in
          let longer = total_quantity-++ held (lot ∷ []) in
          let here = rw t at found in rw t (omega (arith, same, longer, here))
      | inr t ↦ let here = rw t at found in rw t (omega (arith, here))
    ]

position-insert :
    (symbol other n : ℕ) (p : Portfolio) (cash : ℤ) (lots : Lots)
    → position other (record { cash = cash; positions = insert symbol n p.positions; lots = lots })
      ≡ (if symbol == other then n else position other p)
unfolding position
position-insert symbol other n p cash lots =
    let found = ap (λ o. or_else o 0) (lookup-insert symbol other n p.positions) in
    elim (Bool-cases (symbol == other)) [
      | inl t ↦ let here = rw t at found in rw t here
      | inr t ↦ let here = rw t at found in rw t here
    ]

pub position-change :
    (symbol other : ℕ) (change : ℕ → ℕ) (p : Portfolio) (cash : ℤ) (lots : Lots)
    → position other (record {
      cash = cash;
      positions = insert symbol (change (position symbol p)) p.positions;
      lots = lots;
    })
      ≡ (if symbol == other then change (position other p) else position other p)
position-change symbol other change p cash lots =
    let found = position-insert symbol other (change (position symbol p)) p cash lots in
    elim (Bool-cases (symbol == other)) [
      | inl t ↦
          let here = rw t at found in
          rw t (here ∙ ap (λ s. change (position s p)) (==→eq symbol other t))
      | inr t ↦ let here = rw t at found in rw t here
    ]

bought-Agrees : (fill : Fill) (p : Portfolio) → Agrees p → Agrees (bought fill p)
bought-Agrees fill p h s =
    let at_symbol =
      position-insert fill.symbol s (position fill.symbol p + fill.quantity) p (bought fill p).cash
        (bought fill p).lots in
    let lots =
      record_buy-quantity fill.symbol fill.fill_date fill.quantity fill.fill_price s fill.cost
        p.lots in
    elim (Bool-cases (fill.symbol == s)) [
      | inl t ↦
          let own : fill.symbol ≡ s = ==→eq fill.symbol s t in
          let same = ap (λ k. position k p) own in
          let there = rw t at at_symbol in
          let added = rw t at lots in omega (arith, h s, same, there, added)
      | inr t ↦
          let there = rw t at at_symbol in
          let added = rw t at lots in omega (arith, h s, there, added)
    ]

-- Enough cash for a buy, enough units for a sale.
abbrev pub affords_by : Side → Fill → Portfolio → Bool
affords_by buy fill p = can_afford_buy fill p
affords_by sell fill p = can_afford_sell fill p

abbrev pub affords : Fill → Portfolio → Bool
affords fill p = affords_by fill.side fill p

abbrev pub cash_after : Side → CostBreakdown → ℤ → ℤ
cash_after buy cost cash = cash -ℤ pos (gross_units cost + total_cost cost)
cash_after sell cost cash = cash +ℤ (pos (gross_units cost) -ℤ pos (total_cost cost))

abbrev pub held_after : Side → (quantity held : ℕ) → ℕ
held_after buy quantity held = held + quantity
held_after sell quantity held = held - quantity

-- The fill went through, and the portfolio after it.
abbrev pub Applied : Side → Fill → Portfolio → Result BacktestError Trade × Portfolio → Type 0
Applied side fill p (r, p') =
    (gains : List RealizedGain) × (r ≡ ok (trade_of fill gains))
    × Agrees p'
    × (p'.cash ≡ cash_after side fill.cost p.cash)
    × ((other : ℕ)
        → position other p' ≡ (
            if fill.symbol == other
            then held_after side fill.quantity (position other p)
            else position other p))

abbrev pub refusal : Side → BacktestError
refusal buy = insufficient_cash
refusal sell = over_sell

abbrev pub FillOutcome :
    Side → Fill → Portfolio → Bool → Result BacktestError Trade × Portfolio → Type 0
FillOutcome side fill p true out = Applied side fill p out
FillOutcome side fill p false out = out ≡ (raised (refusal side), p)

sold-Agrees :
    (fill : Fill) (p : Portfolio) (cash : ℤ) (lots : Lots) (gains : List RealizedGain)
    → Agrees p
    → fill.quantity ≤ position fill.symbol p
    → Accounts fill.quantity (open_lots fill.symbol p.lots) (open_lots fill.symbol lots) gains
    → ((other : ℕ) → other ≢ fill.symbol → open_lots other lots ≡ open_lots other p.lots)
    → Agrees (record {
      cash = cash;
      positions = insert fill.symbol (position fill.symbol p - fill.quantity) p.positions;
      lots = lots;
    })
unfolding total_open_quantity
sold-Agrees fill p cash lots gains h le (_, left, _) others s =
    let there =
      position-insert fill.symbol s (position fill.symbol p - fill.quantity) p cash lots in
    elim (Bool-cases (fill.symbol == s)) [
      | inl t ↦
          let own : fill.symbol ≡ s = ==→eq fill.symbol s t in
          let same = ap (λ k. total_quantity (open_lots k lots)) own in
          let here = rw t at there in omega (arith, h fill.symbol, same, here)
      | inr t ↦
          let same = ap total_quantity (others s (ground arith)) in
          let here = rw t at there in omega (arith, h s, same, here)
    ]

buy-FillOutcome :
    (fill : Fill) (p : Portfolio)
    → Agrees p
    → FillOutcome buy fill p (can_afford_buy fill p) (apply_buy fill p)
unfolding apply_buy
buy-FillOutcome fill p h = elim (Bool-cases (can_afford_buy fill p)) [
  | inl t ↦ rw t (
    [],
    refl,
    bought-Agrees fill p h,
    refl,
    λ other.
        position-change fill.symbol other (λ held. held + fill.quantity) p (bought fill p).cash
          (bought fill p).lots,
  )
  | inr t ↦ rw t refl
]

can_afford_sell-le :
    (fill : Fill) (p : Portfolio)
    → can_afford_sell fill p ≡ true
    → fill.quantity ≤ position fill.symbol p
unfolding can_afford_sell
can_afford_sell-le fill p t = leb→le fill.quantity (position fill.symbol p) t

sell-FillOutcome :
    (gains : GainConfig) (fill : Fill) (p : Portfolio)
    → Agrees p
    → FillOutcome sell fill p (can_afford_sell fill p) (apply_sell gains fill p)
unfolding apply_sell
sell-FillOutcome gains fill p h = elim (Bool-cases (can_afford_sell fill p)) [
  | inl t ↦
      let le = can_afford_sell-le fill p t in
      let (covered, _, others) =
        match_sell_lem gains fill.symbol fill.fill_date fill.quantity fill.fill_price p.lots in
      let (realized, sale, accounts) = covered (omega (arith, h fill.symbol)) in
      let lots =
        (match_sell gains fill.symbol fill.fill_date fill.quantity fill.fill_price p.lots).1 in
      let cash = p.cash +ℤ (pos (gross_units fill.cost) -ℤ pos (total_cost fill.cost)) in
      rw (t, sale)
        (
          realized,
          refl,
          sold-Agrees fill p cash lots realized h le accounts others,
          refl,
          λ other. position-change fill.symbol other (λ held. held - fill.quantity) p cash lots,
        )
  | inr t ↦ rw t refl
]

-- In a portfolio whose positions are those of its tax lots, a fill that it affords goes through:
-- the cash and the position change by the fill, other positions stay, and the positions are still
-- those of the lots. Another fill raises, InsufficientCashError for a buy and OverSellError for a
-- sale, and nothing changes.
pub apply_fill-FillOutcome :
    (gains : GainConfig) (fill : Fill) (p : Portfolio)
    → Agrees p
    → FillOutcome fill.side fill p (affords fill p) (apply_fill gains fill p)
unfolding apply_fill
apply_fill-FillOutcome gains fill p h = by_side fill.side
  where
    by_side :
        (side : Side)
        → FillOutcome side fill p (affords_by side fill p) (apply_by side gains fill p)
    by_side buy = buy-FillOutcome fill p h
    by_side sell = sell-FillOutcome gains fill p h
