-- ===== src/Strategy/Cycle/Proposals.antt =====
-- When a daily cycle proposes orders.
use etf_platform_paper_mode.Common.{
  ◌≡◌, ◌<◌, Bool, true, false, Option, none, some, List, [], ◌∷◌, refl, sym, ◌∙◌, ap, Result, ok,
  pure, lift, ◌>>=◌, >>=-inv,
}
use etf_platform_paper_mode.Strategy.{
  StrategyError, Pool, Command, StrategyState, CycleResult, FundingState, executing,
}
use etf_platform_paper_mode.Backtest.{OrderIntent}
use etf_platform_paper_mode.Strategy.Orders.{StrategyEngine}
use etf_platform_paper_mode.Strategy.Funding.{Policy, Decision, mark_cycle_complete}
use etf_platform_paper_mode.Strategy.Funding.Decisions.{Funds, Decided}
use etf_platform_paper_mode.Strategy.Cycle.{
  World, Ports, Inputs, Cycle, load, save, emit_stage, apply_pending_commands, expect_contribution,
  remind, Plan, no_proposal, plan_with, plan_on, plan_for, propose, carry_out, decide,
  run_daily_cycle, result_of, funding_before, cycle_completed, cycle_started,
}
use etf_platform_paper_mode.Strategy.Cycle.Calls.{decide-inv}

-- A plan with orders is a proposal from a pool, on a trading day.
abbrev pub Proposes : StrategyEngine → Inputs → Decision → Plan → Option Pool → Type 0
Proposes engine inputs d plan none = ⊥
Proposes engine inputs d plan (some pool) =
    (inputs.is_trading_day ≡ true)
    × (propose engine inputs pool ≡ ok plan.orders)
    × (plan.state ≡ d.state)

planned : {a b : Plan} → Path (Result StrategyError Plan) (ok a) (ok b) → a ≡ b
planned h = cc

plan_with-Proposes :
    (engine : StrategyEngine) (inputs : Inputs) (d : Decision) (pool : Pool)
    (proposed : List OrderIntent) (plan : Plan) (order : OrderIntent) (orders : List OrderIntent)
    (w : World)
    → inputs.is_trading_day ≡ true
    → propose engine inputs pool ≡ ok proposed
    → (plan_with d pool proposed w).0 ≡ ok plan
    → plan.orders ≡ order ∷ orders
    → Proposes engine inputs d plan (some pool)
plan_with-Proposes engine inputs d pool [] plan order orders w trading made h some_orders =
    let (_, _, _, e) =
      >>=-inv (save (mark_cycle_complete d.state false)) (λ _. pure (no_proposal d pool)) w plan
        h in
    let none_there = ap (λ p. p.orders) (planned e) ∙ some_orders in absurd (cc none_there)
plan_with-Proposes engine inputs d pool (first ∷ rest) plan order orders w trading made h
      some_orders =
    let same = planned h in
    (trading, made ∙ ap (λ p. ok p.orders) same, sym (ap (λ p. p.state) same))

plan_for-Proposes :
    (engine : StrategyEngine) (inputs : Inputs) (d : Decision) (pool : Option Pool) (plan : Plan)
    (order : OrderIntent) (orders : List OrderIntent) (w : World)
    → (plan_for engine inputs d pool w).0 ≡ ok plan
    → plan.orders ≡ order ∷ orders
    → Proposes engine inputs d plan pool
plan_for-Proposes engine inputs d none plan order orders w h some_orders =
    let none_there = ap (λ p. p.orders) (planned h) ∙ some_orders in absurd (cc none_there)
plan_for-Proposes engine inputs d (some pool) plan order orders w h some_orders =
    on inputs.is_trading_day refl h
  where
    on :
        (trading : Bool)
        → inputs.is_trading_day ≡ trading
        → (plan_on trading engine inputs d pool w).0 ≡ ok plan
        → Proposes engine inputs d plan (some pool)
    on false t h =
        let none_there = ap (λ p. p.orders) (planned h) ∙ some_orders in absurd (cc none_there)
    on true t h =
        let (proposed, w', made, rest) =
          >>=-inv (lift (propose engine inputs pool)) (plan_with d pool) w plan h in
        plan_with-Proposes engine inputs d pool proposed plan order orders w' t
          (ap (λ out. out.0) made) rest some_orders

-- The result of a cycle shows its plan.
carry_out-plan :
    (engine : StrategyEngine) (ports : Ports) (inputs : Inputs) (before : FundingState)
    (d : Decision) (w : World) (r : CycleResult)
    → (carry_out engine ports inputs before d w).0 ≡ ok r
    → (plan : Plan) × (w' : World) × ((plan_for engine inputs d d.pool w').0 ≡ ok plan)
      × (result_of inputs before plan ≡ r)
unfolding carry_out
carry_out-plan engine ports inputs before d w r h =
    let message = d.effects.reminder_message in
    let expected = d.effects.expected_contribution in
    let finish : Plan → Cycle CycleResult =
      λ plan. emit_stage ports cycle_completed >>= λ _. pure (result_of inputs before plan) in
    let planning : Cycle CycleResult = plan_for engine inputs d d.pool >>= finish in
    let reminding : Cycle CycleResult = remind ports message >>= λ _. planning in
    let expecting : Cycle CycleResult = expect_contribution ports expected >>= λ _. reminding in
    let (_, w1, _, h1) = >>=-inv (save d.state) (λ _. expecting) w r h in
    let (_, w2, _, h2) = >>=-inv (expect_contribution ports expected) (λ _. reminding) w1 r h1 in
    let (_, w3, _, h3) = >>=-inv (remind ports message) (λ _. planning) w2 r h2 in
    let (plan, w4, made, h4) = >>=-inv (plan_for engine inputs d d.pool) finish w3 r h3 in
    let (_, _, _, h5) =
      >>=-inv (emit_stage ports cycle_completed) (λ _. pure (result_of inputs before plan)) w4 r
        h4 in
    (plan, w3, ap (λ out. out.0) made, shown h5)
  where
    shown : {a b : CycleResult} → Path (Result StrategyError CycleResult) (ok a) (ok b) → a ≡ b
    shown h = cc

-- The decision behind a result.
run_daily_cycle-decision :
    (engine : StrategyEngine) (policy : Policy) (ports : Ports) (inputs : Inputs) (w : World)
    (r : CycleResult)
    → (run_daily_cycle engine policy ports inputs w).0 ≡ ok r
    → (state : Option StrategyState) × (d : Decision) × (w' : World) × ((commands : List Command)
        × Decided inputs.as_of_date
            (apply_pending_commands inputs.as_of_date commands state)
            ports.get_available_pool
            (ok d))
      × ((carry_out engine ports inputs (funding_before state) d w').0 ≡ ok r)
unfolding run_daily_cycle
run_daily_cycle-decision engine policy ports inputs w r h =
    let carried : Option StrategyState → Decision → Cycle CycleResult =
      λ state d. carry_out engine ports inputs (funding_before state) d in
    let deciding : Option StrategyState → Cycle CycleResult =
      λ state. decide policy ports inputs state >>= carried state in
    let loading : Cycle CycleResult = load >>= deciding in
    let (_, w1, _, h1) = >>=-inv (emit_stage ports cycle_started) (λ _. loading) w r h in
    let (state, w2, _, h2) = >>=-inv load deciding w1 r h1 in
    let (d, w3, made, h3) = >>=-inv (decide policy ports inputs state) (carried state) w2 r h2 in
    (state, d, w3, decide-inv policy ports inputs state d w2 (ap (λ out. out.0) made), h3)

-- The ledger's pool that a proposal is made from.
abbrev pub ProposedFrom : StrategyEngine → Ports → Inputs → CycleResult → Type 0
ProposedFrom engine ports inputs r =
    (pool : Pool) × (ports.get_available_pool inputs.as_of_date ≡ ok pool)
    × (0 < pool.new_capital)
    × (inputs.is_trading_day ≡ true)
    × (propose engine inputs pool ≡ ok r.orders)
    × (r.funding_state_after ≡ executing)

-- A daily cycle that returns orders got a pool with new capital from the ledger, on a trading day,
-- and the orders are what the engine proposes for that pool: the same ones if it is asked again. The
-- funding state is then EXECUTING, not IDLE.
pub run_daily_cycle-ProposedFrom :
    (engine : StrategyEngine) (policy : Policy) (ports : Ports) (inputs : Inputs) (w : World)
    (r : CycleResult) (order : OrderIntent) (orders : List OrderIntent)
    → (run_daily_cycle engine policy ports inputs w).0 ≡ ok r
    → r.orders ≡ order ∷ orders
    → ProposedFrom engine ports inputs r
run_daily_cycle-ProposedFrom engine policy ports inputs w r order orders h some_orders =
    let (state, d, w', (_, (s, _, (_, _, _, _, _, funds))), carried) =
      run_daily_cycle-decision engine policy ports inputs w r h in
    let (plan, w'', made, shown) =
      carry_out-plan engine ports inputs (funding_before state) d w' r carried in
    let listed = ap (λ r. r.orders) shown in
    let proposes =
      plan_for-Proposes engine inputs d d.pool plan order orders w'' made (listed ∙ some_orders) in
    from s d plan d.pool funds proposes listed (ap (λ r. r.funding_state_after) shown)
  where
    from :
        (s : StrategyState) (d : Decision) (plan : Plan) (pool : Option Pool)
        → Funds inputs.as_of_date ports.get_available_pool s d.state pool
        → Proposes engine inputs d plan pool
        → plan.orders ≡ r.orders
        → plan.state.funding_state ≡ r.funding_state_after
        → ProposedFrom engine ports inputs r
    from s d plan none funds h listed after = absurd h
    from s d plan (some pool) (found, capital, _, state) (trading, made, same) listed after = (
      pool,
      found,
      capital,
      trading,
      made ∙ ap ok listed,
      sym after ∙ ap (λ s. s.funding_state) same ∙ state,
    )
