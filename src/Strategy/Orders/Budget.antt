-- ===== src/Strategy/Orders/Budget.antt =====
-- The orders of strategy.py stay within the capital and the gaps.
use etf_platform_paper_mode.Common.{
  ℕ, zero, suc, ◌+◌, ◌-◌, ◌*◌, ◌/◌, ◌≤◌, ◌<◌, ◌≡◌, ◌⊎◌, ◌==◌, true, false, ◌||◌, Option, none, some,
  List, [], ◌∷◌, inl, inr, refl, subst, leb, leb→le, arith, or_else, Bool-cases, Option-cases,
  mul_cancel, Result, ok, raised, All,
}
use etf_platform_paper_mode.Common.Int.{pos}
use etf_platform_paper_mode.Common.Dict.{Dict, lookup}
use etf_platform_paper_mode.Cost.{buy, CostConfig, unit_scale}
use etf_platform_paper_mode.Backtest.{Bar, limit, OrderIntent, is_refused, order_intent}
use etf_platform_paper_mode.Strategy.{StrategyError, BuyOpportunity, as_text}
use etf_platform_paper_mode.Common.Texts.{Text}
use etf_platform_paper_mode.Strategy.Priority.{weight_of, prioritize_by_gap}
use etf_platform_paper_mode.Strategy.Priority.Gaps.{IsUnder, prioritize-IsUnder}
use etf_platform_paper_mode.Strategy.Orders.{
  StrategyEngine, compute_limit_price, total_spent, countdown, affordable_units, last_close,
  Situation, parts_of, budget_for, proposal, add_order, explained_order, sized_order, order_for,
  buy_orders, all_buy, build_buy_orders,
}

-- What an order spends at its limit price.
abbrev pub spent_on : CostConfig → OrderIntent → ℕ
spent_on cfg x = total_spent cfg (or_else x.limit_price 0) x.quantity

abbrev pub spent_on_all : CostConfig → List OrderIntent → ℕ
spent_on_all cfg [] = 0
spent_on_all cfg (x ∷ xs) = spent_on cfg x + spent_on_all cfg xs

-- A LIMIT order to buy, of some units, for an opportunity whose gap pays for it.
abbrev pub IsFundedBy : StrategyEngine → Situation → OrderIntent → BuyOpportunity → Type 0
IsFundedBy e x order o =
    (order.symbol ≡ o.symbol)
    × (spent_on e.cost_config order * parts_of x ≤ o.gap * x.total_portfolio_value)

abbrev pub IsFunded : StrategyEngine → Situation → List BuyOpportunity → OrderIntent → Type 0
IsFunded e x [] order = ⊥
IsFunded e x (o ∷ rest) order = IsFundedBy e x order o ⊎ IsFunded e x rest order

abbrev pub IsProposed : StrategyEngine → Situation → List BuyOpportunity → OrderIntent → Type 0
IsProposed e x opportunities order =
    (order.side ≡ buy)
    × (order.order_type ≡ limit)
    × (0 < order.quantity)
    × (is_refused order ≡ false)
    × IsFunded e x opportunities order

countdown-fits :
    (cfg : CostConfig) (parts price budget n : ℕ)
    → (countdown cfg parts price budget n ≡ 0)
      ⊎ (total_spent cfg price (countdown cfg parts price budget n) * parts ≤ budget)
unfolding countdown
countdown-fits cfg parts price budget zero = inl refl
countdown-fits cfg parts price budget (suc n) =
    elim (Bool-cases (leb (total_spent cfg price (suc n) * parts) budget)) [
      | inl t ↦ rw (countdown, t) (inr (leb→le _ _ t))
      | inr t ↦ rw (countdown, t) (countdown-fits cfg parts price budget n)
    ]

affordable-fits :
    (cfg : CostConfig) (parts price budget : ℕ)
    → (affordable_units cfg parts price budget == 0) ≡ false
    → total_spent cfg price (affordable_units cfg parts price budget) * parts ≤ budget
unfolding affordable_units
affordable-fits cfg parts price budget h = elim (Bool-cases ((price == 0) || (budget == 0))) [
  | inl t ↦ let none_left = rw t at h in absurd (ground arith)
  | inr t ↦
      let here = rw t at h in
      rw t (elim (countdown-fits cfg parts price budget (budget / (price * unit_scale * parts))) [
        | inl z ↦ absurd (ground arith)
        | inr fits ↦ fits
      ])
]

module _ (e : StrategyEngine) (x : Situation) (positive : 0 < x.tolerance) where
  -- A turn of the loop passes on, or it spends no more than is left and than the gap is worth.
  abbrev pub Turns :
      (remaining : ℕ) → BuyOpportunity → Result StrategyError (Option (OrderIntent × ℕ)) → Type 0
  Turns remaining o (raised error) = ⊥
  Turns remaining o (ok none) = Unit
  Turns remaining o (ok (some (order, spent))) =
      (spent ≡ spent_on e.cost_config order)
      × (spent ≤ remaining)
      × (order.side ≡ buy)
      × (order.order_type ≡ limit)
      × (0 < order.quantity)
      × (is_refused order ≡ false)
      × IsFundedBy e x order o

  proposal_made :
      (o : BuyOpportunity) (rank price quantity : ℕ) (context : Option Text)
      → (quantity == 0) ≡ false
      → order_intent (proposal e x o rank price quantity context)
        ≡ ok (proposal e x o rank price quantity context)
  unfolding order_intent as_text
  proposal_made o rank price quantity context h = rw h refl

  proposal_kept :
      (o : BuyOpportunity) (rank price quantity : ℕ) (context : Option Text)
      → (quantity == 0) ≡ false
      → is_refused (proposal e x o rank price quantity context) ≡ false
  unfolding as_text
  proposal_kept o rank price quantity context h = rw h refl

  module _ (buffer : ℕ) (not_negative : e.limit_price_buffer_pct ≡ pos buffer)
      (context : Option Text) (answered : e.market_context x.as_of_date ≡ ok context) where
    sized-Turns :
        (remaining : ℕ) (o : BuyOpportunity) (rank price : ℕ)
        → Turns remaining o (sized_order e x remaining o rank price)
    sized-Turns remaining o rank price =
        let budget = budget_for x remaining o in
        let quantity = affordable_units e.cost_config (parts_of x) price budget in
        elim (Bool-cases (quantity == 0)) [
          | inl t ↦ rw t tt
          | inr t ↦
              let fits = affordable-fits e.cost_config (parts_of x) price budget t in
              let spent = total_spent e.cost_config price quantity in
              let left : spent * parts_of x ≤ remaining * parts_of x = ground arith in
              rw (t, answered, explained_order, proposal_made o rank price quantity context t)
                (
                  refl,
                  mul_cancel spent remaining (parts_of x) (omega arith) left,
                  refl,
                  refl,
                  ground arith,
                  proposal_kept o rank price quantity context t,
                  (refl, ground arith),
                )
        ]

    limit_price_found :
        (close : ℕ)
        → (close == 0) ≡ false
        → (price : ℕ) × (compute_limit_price close e.limit_price_buffer_pct ≡ ok price)
    unfolding compute_limit_price
    limit_price_found close h = rw (not_negative, h) (_, refl)

    last_close-positive :
        (bars : List Bar) (close : ℕ) → last_close bars ≡ some close → (close == 0) ≡ false
    last_close-positive [] close h = absurd (ground arith)
    last_close-positive (bar ∷ []) close h = ground arith
    last_close-positive (_ ∷ bar ∷ bars) close h = last_close-positive (bar ∷ bars) close h

    order_for-Turns :
        (remaining : ℕ) (o : BuyOpportunity) (rank : ℕ)
        → Turns remaining o (order_for e x remaining o rank)
    unfolding order_for
    order_for-Turns remaining o rank =
        let bars = or_else (lookup o.symbol x.price_history) [] in
        elim (Option-cases (last_close bars)) [
          | inl n ↦ rw n tt
          | inr (close, c) ↦
              let (price, p) = limit_price_found close (last_close-positive bars close c) in
              rw (c, p) (sized-Turns remaining o rank price)
        ]

    -- The loop returns, and spends at most what it starts with.
    abbrev BuysFrom :
        (remaining : ℕ) → List BuyOpportunity → Result StrategyError (List OrderIntent) → Type 0
    BuysFrom remaining opportunities r =
        (orders : List OrderIntent) × (r ≡ ok orders)
        × (spent_on_all e.cost_config orders ≤ remaining)
        × All (IsProposed e x opportunities) orders

    later-IsProposed :
        (o : BuyOpportunity) (rest : List BuyOpportunity) (orders : List OrderIntent)
        → All (IsProposed e x rest) orders
        → All (IsProposed e x (o ∷ rest)) orders
    later-IsProposed o rest [] h = tt
    later-IsProposed o rest (order ∷ orders) ((side, kind, some_units, kept, funded), hs) =
        ((side, kind, some_units, kept, inr funded), later-IsProposed o rest orders hs)

    buy_orders-BuysFrom :
        (opportunities : List BuyOpportunity) (rank remaining : ℕ)
        → BuysFrom remaining opportunities (buy_orders e x opportunities rank remaining)
    unfolding buy_orders
    buy_orders-BuysFrom [] rank remaining = ([], refl, omega arith, tt)
    buy_orders-BuysFrom (o ∷ rest) rank remaining = elim (Bool-cases (remaining == 0)) [
      | inl t ↦ rw (buy_orders, t) ([], refl, omega arith, tt)
      | inr t ↦
          rw (buy_orders, t)
            (turn (λ k. buy_orders-BuysFrom rest (rank + 1) k) (order_for e x remaining o rank)
              (order_for-Turns remaining o rank))
    ]
      where
        turn :
            ((k : ℕ) → BuysFrom k rest (buy_orders e x rest (rank + 1) k))
            → (r : Result StrategyError (Option (OrderIntent × ℕ))) → Turns remaining o r
            → BuysFrom remaining (o ∷ rest) (elim r [
              | raised error ↦ raised error
              | ok none ↦ buy_orders e x rest (rank + 1) remaining
              | ok (some (order, spent)) ↦
                  add_order order (buy_orders e x rest (rank + 1) (remaining - spent))
            ])
        turn later (raised error) h = absurd h
        turn later (ok none) h =
            let (orders, r, sum, all) = later remaining in
            (orders, r, sum, later-IsProposed o rest orders all)
        turn later (ok (some (order, spent))) (own, most, side, kind, one, kept, funded) =
            let (orders, r, sum, all) = later (remaining - spent) in
            rw r (
              order ∷ orders,
              refl,
              omega arith,
              ((side, kind, one, kept, inl funded), later-IsProposed o rest orders all),
            )

    all_buy-true :
        (opportunities : List BuyOpportunity) (orders : List OrderIntent)
        → All (IsProposed e x opportunities) orders
        → all_buy orders ≡ true
    all_buy-true opportunities [] h = refl
    all_buy-true opportunities (order ∷ orders) ((side, _, _, _, _), hs) =
        rw (side, all_buy-true opportunities orders hs) refl

-- An order that the engine may propose: a LIMIT order to buy some units of a symbol that is under its
-- target weight, which spends no more than the gap is worth, all costs included.
abbrev pub IsBought : StrategyEngine → Situation → (current target : Dict ℕ) → OrderIntent → Type 0
IsBought e x current target order =
    (order.side ≡ buy)
    × (order.order_type ≡ limit)
    × (0 < order.quantity)
    × (is_refused order ≡ false)
    × (weight_of order.symbol current + x.tolerance < weight_of order.symbol target)
    × (spent_on e.cost_config order * parts_of x
        ≤ (weight_of order.symbol target - weight_of order.symbol current)
          * x.total_portfolio_value)

-- The proposing returns such orders, which together spend no more than the capital.
abbrev pub Buys :
    StrategyEngine
    → Situation
    → (capital : ℕ) → (current target : Dict ℕ) → Result StrategyError (List OrderIntent)
    → Type 0
Buys e x capital current target r =
    (orders : List OrderIntent) × (r ≡ ok orders)
    × (spent_on_all e.cost_config orders ≤ capital)
    × All (IsBought e x current target) orders

module _ (e : StrategyEngine) (x : Situation) (current target : Dict ℕ) where
  funded-IsBought :
      (order : OrderIntent) (opportunities : List BuyOpportunity)
      → All (IsUnder x.tolerance current target) opportunities
      → IsFunded e x opportunities order
      → (weight_of order.symbol current + x.tolerance < weight_of order.symbol target)
        × (spent_on e.cost_config order * parts_of x
            ≤ (weight_of order.symbol target - weight_of order.symbol current)
              * x.total_portfolio_value)
  funded-IsBought order [] hs h = absurd h
  funded-IsBought order (o ∷ rest) ((under, gap), hs) (inl (same, most)) = rw same (
    under,
    subst (λ g. spent_on e.cost_config order * parts_of x ≤ g * x.total_portfolio_value) gap most,
  )
  funded-IsBought order (o ∷ rest) (_, hs) (inr h) = funded-IsBought order rest hs h

  All-IsBought :
      (opportunities : List BuyOpportunity) (orders : List OrderIntent)
      → All (IsUnder x.tolerance current target) opportunities
      → All (IsProposed e x opportunities) orders
      → All (IsBought e x current target) orders
  All-IsBought opportunities [] under h = tt
  All-IsBought opportunities (order ∷ orders) under ((side, kind, some_units, kept, funded), hs) =
      let (below, most) = funded-IsBought order opportunities under funded in
      ((side, kind, some_units, kept, below, most), All-IsBought opportunities orders under hs)

-- With a limit price buffer that is not negative, and if the market intelligence port answers,
-- proposing raises nothing: neither a refused order nor a sale. The proposals are LIMIT orders to buy
-- some units, each for a symbol whose current weight is more than the tolerance under its target
-- weight. Each spends no more than that gap of the portfolio's value at its limit, all costs
-- included, and all together no more than the available capital.
pub build_buy_orders-Buys :
    (e : StrategyEngine) (x : Situation) (buffer capital : ℕ) (current target : Dict ℕ)
    (context : Option Text)
    → 0 < x.tolerance
    → e.limit_price_buffer_pct ≡ pos buffer
    → e.market_context x.as_of_date ≡ ok context
    → Buys e x capital current target (build_buy_orders e x capital current target)
unfolding build_buy_orders
build_buy_orders-Buys e x buffer capital current target context positive not_negative answered =
    let opportunities = prioritize_by_gap x.tolerance current target in
    elim (Bool-cases ((capital == 0) || (x.total_portfolio_value == 0))) [
      | inl t ↦ rw t ([], refl, omega arith, tt)
      | inr t ↦
          let (orders, r, sum, all) =
            buy_orders-BuysFrom e x positive buffer not_negative context answered opportunities 1
              capital in
          let buys =
            all_buy-true e x positive buffer not_negative context answered opportunities orders
              all in
          let under = prioritize-IsUnder x.tolerance current target in
          rw (t, r, buys)
            (orders, refl, sum, All-IsBought e x current target opportunities orders under all)
    ]
