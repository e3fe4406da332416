-- ===== src/Paper/Sound.antt =====
-- What holds of the orders and parameters of the simulated broker of paper_broker.py between calls.
use etf_platform_paper_mode.Common.{ℕ, ◌≤◌, ◌<◌, ◌≡◌, none, some, All, arith}
use etf_platform_paper_mode.Common.Dict.{lookup}
use etf_platform_paper_mode.Lifecycle.{State, pending, partially_filled, filled, cancelled}
use etf_platform_paper_mode.Scenarios.{
  Scenario, immediate_fill, partial_fill, delayed_fill, order_cancelled, order_expired,
  ScenarioParameters, Provider, fixed, sequential, seeded,
}
use etf_platform_paper_mode.Paper.{PaperOrder, PaperBroker, partial_quantity}

-- No fill ratio above one.
abbrev pub IsFraction : ScenarioParameters → Type 0
IsFraction p = p.partial_fill_num ≤ p.partial_fill_den

abbrev pub AllFractions : Provider → Type 0
AllFractions (fixed _ p) = IsFraction p
AllFractions (sequential scenarios _) = All (λ s. IsFraction s.1) scenarios
AllFractions (seeded _ p _) = IsFraction p

-- What was executed, by the state of the order; only four states occur.
abbrev pub ExecutedAs : State → PaperOrder → Type 0
ExecutedAs pending o = (o.executed_quantity ≡ 0) × (o.executed_price ≡ none)
ExecutedAs partially_filled o = (o.executed_quantity ≤ o.quantity) × (o.scenario ≡ partial_fill)
ExecutedAs filled o = (o.executed_quantity ≡ o.quantity) × (o.executed_price ≡ some o.limit_price)
ExecutedAs cancelled o = o.executed_quantity ≤ o.quantity
ExecutedAs _ o = ⊥

-- The scenarios that `get_order_status` resolves.
abbrev pub IsLive : Scenario → Type 0
IsLive immediate_fill = Unit
IsLive partial_fill = Unit
IsLive delayed_fill = Unit
IsLive order_cancelled = Unit
IsLive order_expired = Unit
IsLive _ = ⊥

pub record IsSoundOrder (o : PaperOrder) : Type 0 where
  pub positive : 0 < o.quantity
  pub executed_as : ExecutedAs o.state o
  pub live : IsLive o.scenario

-- An order under its key: it is sound, it has that id, and it has parameters.
pub record IsSoundAt (b : PaperBroker) (id : ℕ) (o : PaperOrder) : Type 0 where
  pub sound : IsSoundOrder o
  pub own_id : o.broker_order_id ≡ id
  pub parameters : ScenarioParameters
  pub parameters_found : lookup id b.order_parameters ≡ some parameters
  pub fraction : IsFraction parameters

pub record IsSound (b : PaperBroker) : Type 0 where
  pub orders_sound : (id : ℕ) (o : PaperOrder) → lookup id b.orders ≡ some o → IsSoundAt b id o
  pub provider_sound : AllFractions b.scenarios

pub partial_quantity_bounds :
    (p : ScenarioParameters) (q : ℕ)
    → IsFraction p
    → 0 < q
    → (0 < partial_quantity p q) × (partial_quantity p q ≤ q)
partial_quantity_bounds p q h k = grind arith
