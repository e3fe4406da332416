-- ===== src/Backtest/Fills/Quality.antt =====
-- How good a fill of fill_simulator.py is, and when there is one.
use etf_platform_paper_mode.Common.{
  ℕ, ◌*◌, ◌≤◌, ◌<◌, ◌≡◌, Option, none, some, inl, inr, refl, sym, arith, Option-cases,
}
use etf_platform_paper_mode.Cost.{Side, buy, sell, rate_scale}
use etf_platform_paper_mode.Backtest.{
  Bar, OrderType, market, limit, OrderIntent, PendingOrder, Fill,
}
use etf_platform_paper_mode.Backtest.Fills.{
  FillSimulator, limit_fill_price, fill_price_of, capped, fill_at, try_fill,
}

-- The bar's opening price is within its range.
abbrev pub IsBar : Bar → Type 0
IsBar bar = (bar.low ≤ bar.open_price) × (bar.open_price ≤ bar.high)

abbrev pub WithinRange : Bar → ℕ → Type 0
WithinRange bar price = (bar.low ≤ price) × (price ≤ bar.high)

-- The price is no worse than the limit, if there is one to keep.
abbrev pub KeepsLimit : OrderType → Option ℕ → Side → ℕ → Type 0
KeepsLimit limit (some l) buy price = price ≤ l
KeepsLimit limit (some l) sell price = l ≤ price
KeepsLimit _ _ _ price = Unit

abbrev pub WithinCap : Option ℕ → (volume quantity : ℕ) → Type 0
WithinCap none volume quantity = Unit
WithinCap (some pct) volume quantity = quantity * rate_scale ≤ volume * pct

abbrev pub IsGoodFill : FillSimulator → PendingOrder → Bar → Fill → Type 0
IsGoodFill sim pending bar fill =
    (IsBar bar → WithinRange bar fill.fill_price)
    × KeepsLimit pending.intent.order_type pending.intent.limit_price pending.intent.side
        fill.fill_price
    × (fill.quantity ≤ pending.intent.quantity)
    × WithinCap sim.max_participation bar.volume fill.quantity
    × (0 < pending.intent.quantity → 0 < fill.quantity)
    × (fill ≡ fill_at sim.cost_config pending bar fill.fill_price fill.quantity)

price_at_limit :
    (side : Side) (l : ℕ) (bar : Bar) (price : ℕ)
    → limit_fill_price side l bar ≡ some price
    → (IsBar bar → WithinRange bar price) × KeepsLimit limit (some l) side price
unfolding limit_fill_price
price_at_limit buy l bar price h = ground arith
price_at_limit sell l bar price h = ground arith

price_found :
    (t : OrderType) (l : Option ℕ) (x : OrderIntent) (bar : Bar) (price : ℕ)
    → x.order_type ≡ t
    → x.limit_price ≡ l
    → fill_price_of x bar ≡ some price
    → (IsBar bar → WithinRange bar price) × KeepsLimit t l x.side price
unfolding fill_price_of
price_found market l x bar price et el h =
    let opened : bar.open_price ≡ price = ground arith in rw (sym opened) ((λ b. b), tt)
price_found limit none x bar price et el h = absurd (ground arith)
price_found limit (some l) x bar price et el h = price_at_limit x.side l bar price (ground arith)

quantity_found :
    (cap : Option ℕ) (volume quantity n : ℕ)
    → capped cap volume quantity ≡ some n
    → (n ≤ quantity) × WithinCap cap volume n × (0 < quantity → 0 < n)
unfolding capped
quantity_found none volume quantity n h = ground arith
quantity_found (some pct) volume quantity n h = grind arith

-- A fill is at a price within the bar's range, provided its opening price is, and no worse than the
-- order's limit; its quantity is at most the order's and within the participation cap, and is
-- positive if the order's is.
pub try_fill-IsGoodFill :
    (sim : FillSimulator) (pending : PendingOrder) (bar : Bar) (fill : Fill)
    → try_fill sim pending bar ≡ some fill
    → IsGoodFill sim pending bar fill
unfolding try_fill
try_fill-IsGoodFill sim pending bar fill h =
    elim (Option-cases (fill_price_of pending.intent bar)) [
      | inl e ↦ absurd (ground arith)
      | inr (price, e) ↦
          elim (Option-cases (capped sim.max_participation bar.volume pending.intent.quantity)) [
            | inl c ↦ absurd (ground arith)
            | inr (n, c) ↦
                let made : fill_at sim.cost_config pending bar price n ≡ fill = ground arith in
                let (range, keeps) =
                  price_found pending.intent.order_type pending.intent.limit_price pending.intent
                    bar price refl refl e in
                let (most, cap, one) =
                  quantity_found sim.max_participation bar.volume pending.intent.quantity n c in
                rw (sym made) (range, keeps, most, cap, one, refl)
          ]
    ]

-- The bar's range touches the price of the order.
abbrev pub Touches : OrderIntent → Bar → Type 0
Touches x bar = elim x.order_type [
  | market ↦ Unit
  | limit ↦ elim x.limit_price [
    | none ↦ ⊥
    | some l ↦ elim x.side [ buy ↦ bar.low ≤ l | sell ↦ l ≤ bar.high ]
  ]
]
