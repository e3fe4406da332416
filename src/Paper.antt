-- ===== src/Paper.antt =====
-- The simulated broker of src/etf_platform/execution_manager/paper_broker.py. Prices are whole
-- paise and quantities whole units, so both are naturals; cash is a signed number of paise. A
-- method takes the broker and returns it with its result; an order that a method hands out is the
-- order as it stands at that moment. The identifiers that `uuid4` draws are a sequence that the
-- broker is given.
pub mod Sound
pub mod Reference
pub mod Polled
pub mod Cancelled
pub mod Keeps
pub mod Ledger
pub mod Drawn
pub mod Runs
pub mod Progress
mod Tests
use Prim.Native.Nat.{max}
use etf_platform_paper_mode.Common.{
  ℕ, ◌+◌, ◌-◌, ◌*◌, ◌/◌, Bool, false, ◌&&◌, not, Option, none, some, List, [], ◌∷◌, ok, raised,
  Exec, pure, raise, gets, or_raise, ◌>>=◌, ◌>>◌, modify, ltb, keep, if◌then◌else◌, length,
}
use etf_platform_paper_mode.Common.Int.{ℤ, pos, ◌-ℤ◌}
use etf_platform_paper_mode.Common.Dict.{Dict, lookup, insert, erase, values}
use etf_platform_paper_mode.Cost.{Side}
use etf_platform_paper_mode.Lifecycle.{
  State, pending, partially_filled, filled, cancelled, Error, execution_manager,
  broker_communication, order_rejected, key, same_state, contains_state, validate_transition,
}
use etf_platform_paper_mode.Time.{Datetime, naive, aware, utc_reading}
use etf_platform_paper_mode.Events.{
  EventType, Details, no_details, placed, rejection, cancel_reason, at_stage, fill, partial,
  broker_side, window_expiry, explicit_request, Stage, ExecutionEvent, Recorder, record_event,
}
use etf_platform_paper_mode.Scenarios.{Scenario, ScenarioParameters, Provider, scenario_for}

pub record PaperOrder : Type 0 where
  pub broker_order_id : ℕ
  pub symbol : ℕ
  pub side : Side
  pub quantity : ℕ
  pub limit_price : ℕ
  pub client_reference : ℕ
  pub scenario : Scenario
  pub state : State
  pub submitted_at : Datetime
  pub poll_count : ℕ
  pub executed_quantity : ℕ
  pub executed_price : Option ℕ

pub record PaperBroker : Type 0 where
  pub now : Datetime
  pub events : Recorder
  pub scenarios : Provider
  pub cash : ℤ
  pub orders : Dict PaperOrder
  pub order_parameters : Dict ScenarioParameters
  pub uuids : ℕ → ℕ
  pub drawn : ℕ

abbrev pub Action : Type 0 → Type 0
Action A = Exec Error PaperBroker A

abbrev event : EventType → Option ℕ → ℕ → Details → PaperBroker → ExecutionEvent
event kind id symbol details b = record {
  event_type = kind;
  timestamp = b.now;
  broker_order_id = id;
  symbol = some symbol;
  details = details;
  correlation_id = none;
  cycle_id = none;
  result = none;
}

emit : EventType → Option ℕ → ℕ → Details → Action (Unit {0})
emit kind id symbol details =
    modify λ b. record b { events = record_event (event kind id symbol details b) b.events }

-- `self._scenarios.scenario_for(…)`
next_scenario : Action (Scenario × ScenarioParameters)
unfolding scenario_for
next_scenario b = let (r, p) = scenario_for b.scenarios in (r, record b { scenarios = p })

draw_id : Action ℕ
draw_id b = (ok (b.uuids b.drawn), record b { drawn = b.drawn + 1 })

put_order : ℕ → PaperOrder → Action (Unit {0})
put_order id order = modify λ b. record b { orders = insert id order b.orders }

-- The last part of `submit_order`, by the scenario: four failures, or a new PENDING order.
accept :
    Scenario
    → ScenarioParameters
    → Side
    → (id symbol quantity limit_price client_reference : ℕ) → Action ℕ
unfolding emit put_order
accept Scenario.order_rejected p side id symbol quantity limit_price client_reference = do
  emit EventType.order_rejected (some id) symbol (rejection p.rejection_reason)
  raise order_rejected
accept Scenario.network_timeout p side id symbol quantity limit_price client_reference = do
  emit EventType.api_timeout none symbol (at_stage Stage.submit_order)
  raise broker_communication
accept Scenario.api_error p side id symbol quantity limit_price client_reference = do
  emit EventType.api_error none symbol (at_stage Stage.submit_order)
  raise broker_communication
accept Scenario.connection_lost p side id symbol quantity limit_price client_reference = do
  emit EventType.network_error none symbol (at_stage Stage.submit_order)
  raise broker_communication
accept Scenario.quote_unavailable p side id symbol quantity limit_price client_reference = do
  emit EventType.quote_unavailable none symbol (at_stage Stage.submit_order)
  raise broker_communication
accept scenario p side id symbol quantity limit_price client_reference = do
  now ← gets (λ b. b.now)
  put_order id (record {
    broker_order_id = id;
    symbol = symbol;
    side = side;
    quantity = quantity;
    limit_price = limit_price;
    client_reference = client_reference;
    scenario = scenario;
    state = pending;
    submitted_at = now;
    poll_count = 0;
    executed_quantity = 0;
    executed_price = none;
  })
  modify (λ b. record b { order_parameters = insert id p b.order_parameters })
  emit EventType.order_pending (some id) symbol no_details
  pure id

unfoldable pub submit_order : ℕ → Side → (quantity limit_price client_reference : ℕ) → Action ℕ
unfolding draw_id emit next_scenario accept
submit_order symbol side quantity limit_price client_reference = do
  id ← draw_id
  emit EventType.order_submitted (some id) symbol (placed quantity limit_price client_reference)
  (scenario, parameters) ← next_scenario
  accept scenario parameters side id symbol quantity limit_price client_reference

-- `PaperOrder.transition_to` on the order object that the dict holds under `id`: it changes only if
-- the table allows the transition.
pub transition_to : ℕ → State → EventType → Details → PaperOrder → Action PaperOrder
unfolding validate_transition emit put_order
transition_to id target kind details order = elim (validate_transition order.state target) [
  | raised e ↦ raise e
  | ok _ ↦ do
    put_order id (record order { state = target })
    emit kind (some order.broker_order_id) order.symbol details
    pure (record order { state = target })
]

abbrev with_fill : ℕ → PaperOrder → PaperOrder
with_fill quantity order = record order {
  executed_quantity = order.executed_quantity + quantity;
  executed_price = some order.limit_price;
}

take_cash : ℕ → PaperOrder → Action (Unit {0})
take_cash quantity order =
    modify λ b. record b { cash = b.cash -ℤ pos (quantity * order.limit_price) }

-- `_fill` and `_partial_fill`
pub fill_order : ℕ → ℕ → PaperOrder → Action PaperOrder
unfolding take_cash put_order transition_to
fill_order id quantity order = do
  take_cash quantity order
  let order' = with_fill quantity order
  put_order id order'
  transition_to id filled EventType.order_filled
      (fill order'.executed_quantity order'.executed_price) order'

pub partial_fill : ℕ → ℕ → PaperOrder → Action PaperOrder
unfolding take_cash put_order transition_to
partial_fill id quantity order = do
  take_cash quantity order
  let order' = with_fill quantity order
  put_order id order'
  transition_to id partially_filled EventType.partial_fill
      (partial order'.executed_quantity (order'.quantity - order'.executed_quantity)) order'

-- `max(1, int(order.quantity * parameters.partial_fill_ratio))`
abbrev pub partial_quantity : ScenarioParameters → ℕ → ℕ
partial_quantity p quantity = max 1 (quantity * p.partial_fill_num / p.partial_fill_den)

poll_failure : EventType → ℕ → PaperOrder → Action PaperOrder
unfolding emit
poll_failure kind id order = do
  emit kind (some id) order.symbol (at_stage Stage.get_order_status)
  raise broker_communication

-- The branches of `get_order_status` for an order that is still open.
poll : Scenario → ScenarioParameters → ℕ → PaperOrder → Action PaperOrder
unfolding fill_order partial_fill transition_to poll_failure
poll Scenario.immediate_fill p id order = fill_order id order.quantity order
poll Scenario.partial_fill p id order =
    if same_state order.state pending
    then partial_fill id (partial_quantity p order.quantity) order
    else fill_order id (order.quantity - order.executed_quantity) order
poll Scenario.delayed_fill p id order =
    if ltb p.delayed_fill_poll_count order.poll_count
    then fill_order id order.quantity order
    else pure order
poll Scenario.order_cancelled p id order =
    transition_to id cancelled EventType.order_cancelled (cancel_reason broker_side) order
poll Scenario.order_expired p id order =
    transition_to id cancelled EventType.order_expired (cancel_reason window_expiry) order
poll Scenario.network_timeout p id order = poll_failure EventType.api_timeout id order
poll Scenario.api_error p id order = poll_failure EventType.api_error id order
poll Scenario.connection_lost p id order = poll_failure EventType.network_error id order
poll Scenario.order_rejected p id order = raise execution_manager
poll Scenario.quote_unavailable p id order = raise execution_manager

abbrev pub is_terminal : State → Bool
is_terminal s = contains_state s (filled ∷ cancelled ∷ [])

unfoldable pub get_order_status : ℕ → Action PaperOrder
unfolding put_order poll
get_order_status id = do
  found ← or_raise (← gets (λ b. lookup id b.orders)) execution_manager
  let order = record found { poll_count = found.poll_count + 1 }
  put_order id order
  parameters ← or_raise (← gets (λ b. lookup id b.order_parameters)) key
  if is_terminal order.state then pure order else poll order.scenario parameters id order

-- The states in which `cancel_order` does nothing.
unfoldable pub cancel_order : ℕ → Action (Unit {0})
unfolding transition_to
cancel_order id = do
  order ← or_raise (← gets (λ b. lookup id b.orders)) execution_manager
  if is_terminal order.state then pure tt else do
    transition_to id cancelled EventType.order_cancelled (cancel_reason explicit_request) order
    pure tt

unfoldable pub get_open_orders : PaperBroker → List PaperOrder
get_open_orders b = keep (λ o. not (is_terminal o.state)) (values b.orders)

unfoldable pub get_available_cash : PaperBroker → ℤ
get_available_cash b = b.cash

-- The moment of an aware datetime; Python compares and subtracts aware datetimes by it.
abbrev pub moment : Datetime → ℕ
moment (naive wall) = wall
moment (aware wall offset) = utc_reading wall offset

-- Whether a retention window is given, with a clock reading, and the order is younger than it.
abbrev pub retained : Option ℕ → Option Datetime → PaperOrder → Bool
retained (some older_than) (some clock_now) order =
    ltb (moment clock_now) (moment order.submitted_at + older_than)
retained _ _ order = false

abbrev pub is_purged : Option ℕ → Option Datetime → PaperOrder → Bool
is_purged older_than clock_now order =
    is_terminal order.state && not (retained older_than clock_now order)

-- The first loop of `purge_terminal_orders`: the keys to remove.
purged_ids : Option ℕ → Option Datetime → Dict PaperOrder → List ℕ
purged_ids older_than clock_now [] = []
purged_ids older_than clock_now ((id, order) ∷ rest) =
    let ids = purged_ids older_than clock_now rest in
    if is_purged older_than clock_now order then id ∷ ids else ids

-- Its second loop; `del` raises KeyError for a key that is not there.
remove_orders : List ℕ → Action (Unit {0})
remove_orders [] = pure tt
remove_orders (id ∷ ids) = do
  or_raise (← gets (λ b. lookup id b.orders)) key
  modify (λ b. record b { orders = erase id b.orders })
  or_raise (← gets (λ b. lookup id b.order_parameters)) key
  modify (λ b. record b { order_parameters = erase id b.order_parameters })
  remove_orders ids

unfoldable pub purge_terminal_orders : Option ℕ → Option Datetime → Action ℕ
unfolding purged_ids remove_orders
purge_terminal_orders older_than clock_now = do
  to_remove ← gets (λ b. purged_ids older_than clock_now b.orders)
  remove_orders to_remove
  pure (length to_remove)

unfoldable pub new_paper_broker : Datetime → Provider → ℤ → (ℕ → ℕ) → PaperBroker
new_paper_broker now scenarios starting_cash uuids = record {
  now = now;
  events = [];
  scenarios = scenarios;
  cash = starting_cash;
  orders = [];
  order_parameters = [];
  uuids = uuids;
  drawn = 0;
}
