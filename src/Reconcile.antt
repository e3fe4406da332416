-- ===== src/Reconcile.antt =====
-- `ReconciliationService` of src/etf_platform/execution_manager/reconciliation.py: it compares the
-- stored records with the broker's orders. The
-- record that a call works on is the world's `current`. The texts of mismatch events are determined
-- by their discrepancy type, the texts of outcomes by the action, and are left out.
pub mod Branches
pub mod Safe
pub mod Escalated
pub mod Operator
pub mod Resolve
mod Tests
use etf_platform_paper_mode.Common.{
  ℕ, zero, suc, ◌==◌, Bool, true, false, not, ◌&&◌, ◌||◌, Option, none, some, List, [], ◌∷◌, ◌++◌,
  Result, ok, raised, pure, raise, raise_if, lift, gets, ◌>>=◌, ◌>>◌, keep, first, length,
  same_option, leb, if◌then◌else◌,
}
use etf_platform_paper_mode.Common.Dict.{Dict, lookup, insert, values}
use etf_platform_paper_mode.Events.{
  Text, EventType, DiscrepancyType, Details, mismatch_of, check_started, check_completed,
  resolved_to, EventResult, ExecutionEvent,
}
use etf_platform_paper_mode.Lifecycle.{
  State, proposal, verified, submitted, filled, cancelled, failed, reconciled, ambiguous, Error,
  execution_manager, index, key, value, same_state, contains_state,
}
use etf_platform_paper_mode.Ports.{BrokerOrder, BrokerPort, Notifications, operator_review}
use etf_platform_paper_mode.Record.{ExecutionRecord}
use etf_platform_paper_mode.Store.{load_execution_record, load_unresolved_records}
use etf_platform_paper_mode.World.{
  World, Action, on_broker, on_store, change, transition, save, emit, notify,
}

-- What the constructor is given, less the store, clock and recorder of the world.
pub record ReconciliationService (B : Type 0) : Type 0 where
  pub port : BrokerPort B
  pub notifications : Notifications

-- The strings of `action_taken`
pub data ActionTaken : Type 0 where
  confirmed_no_broker_interaction_was_ever_needed : ActionTaken
  adopted_broker_order_id_via_client_reference_match : ActionTaken
  escalated_to_ambiguous_awaiting_operator_review : ActionTaken
  none_still_in_flight flagged_for_manual_review confirmed_and_reconciled : ActionTaken
  no_action adopted_broker_state : ActionTaken

pub record ReconciliationOutcome : Type 0 where
  pub execution_id : ℕ
  pub broker_order_id : Option ℕ
  pub discrepancy_type : DiscrepancyType
  pub local_state : State
  pub broker_state : Option State
  pub action_taken : ActionTaken

-- The classes of exceptions.py derive from `ExecutionManagerError`; the built-in ones do not.
abbrev pub is_execution_manager_error : Error → Bool
is_execution_manager_error index = false
is_execution_manager_error key = false
is_execution_manager_error value = false
is_execution_manager_error _ = true

abbrev pub is_terminal : State → Bool
is_terminal s = contains_state s (filled ∷ cancelled ∷ failed ∷ [])

-- `x or y` on a quantity: zero counts as missing.
abbrev pub executed_or : ℕ → Option ℕ → Option ℕ
executed_or zero old = old
executed_or (suc n) old = some (suc n)

-- `o.client_reference == record.cycle_id and o.symbol == record.symbol`
abbrev pub is_match : ExecutionRecord → BrokerOrder → Bool
is_match r o = same_option o.client_reference (some r.cycle_id) && o.symbol == r.symbol

abbrev pub by_order_id : List BrokerOrder → Dict BrokerOrder
by_order_id orders = add orders []
  where
    add : List BrokerOrder → Dict BrokerOrder → Dict BrokerOrder
    add [] d = d
    add (o ∷ os) d = add os (insert o.broker_order_id o d)

module _ {B : Type 0} (service : ReconciliationService B) (correlation_id : Option ℕ) where
  abbrev pub emit_check : Details → EventResult → Action B (Unit {0})
  emit_check details result w =
      emit
        (record {
          event_type = EventType.reconciliation_check;
          timestamp = w.now;
          broker_order_id = none;
          symbol = none;
          details = details;
          correlation_id = correlation_id;
          cycle_id = none;
          result = some result;
        })
        w

  -- `_emit_mismatch`
  abbrev pub emit_mismatch : DiscrepancyType → Action B (Unit {0})
  emit_mismatch kind w =
      emit
        (record {
          event_type = EventType.reconciliation_check;
          timestamp = w.now;
          broker_order_id = w.current.broker_order_id;
          symbol = some w.current.symbol;
          details = mismatch_of kind;
          correlation_id = correlation_id;
          cycle_id = some w.current.cycle_id;
          result = some EventResult.mismatch;
        })
        w

  -- An outcome reads the record as it is then.
  abbrev pub outcome : DiscrepancyType → Option State → ActionTaken → Action B ReconciliationOutcome
  outcome kind broker_state action w = (
    ok (record {
      execution_id = w.current.execution_id;
      broker_order_id = w.current.broker_order_id;
      discrepancy_type = kind;
      local_state = w.current.order_status;
      broker_state = broker_state;
      action_taken = action;
    }),
    w,
  )

  -- `_alert_ambiguous`
  abbrev pub alert_ambiguous : Action B (Unit {0})
  alert_ambiguous w =
      notify service.notifications
        (operator_review w.current.execution_id w.current.cycle_id w.current.symbol) w

  -- The branches of `_reconcile_one`, in its order.
  unfoldable pub confirm_failed : Action B ReconciliationOutcome
  confirm_failed = do
    change (λ r. record r { order_status = reconciled })
    save
    outcome DiscrepancyType.no_discrepancy none confirmed_no_broker_interaction_was_ever_needed

  unfoldable pub adopt_match : BrokerOrder → Action B ReconciliationOutcome
  adopt_match matched = do
    emit_mismatch DiscrepancyType.state_mismatch
    now ← gets (λ w. w.now)
    change (λ r. record r {
      broker_order_id = some matched.broker_order_id;
      order_status = matched.state;
      executed_quantity = matched.executed_quantity;
      executed_price = matched.executed_price;
      last_status_check = some now;
    })
    save
    outcome DiscrepancyType.state_mismatch (some matched.state)
        adopted_broker_order_id_via_client_reference_match

  abbrev pub save_ambiguous : Action B (Unit {0})
  save_ambiguous = change (λ r. record r { order_status = ambiguous }) >> save

  unfoldable pub escalate : Action B ReconciliationOutcome
  escalate = do
    emit_mismatch DiscrepancyType.ambiguous_no_local_id
    r ← gets (λ w. w.current)
    if same_state r.order_status submitted then save_ambiguous else pure tt
    alert_ambiguous
    outcome DiscrepancyType.ambiguous_no_local_id none
        escalated_to_ambiguous_awaiting_operator_review

  abbrev pub confirm_terminal : State → Action B ReconciliationOutcome
  confirm_terminal broker_state = do
    change (λ r. record r { order_status = reconciled })
    save
    outcome DiscrepancyType.no_discrepancy (some broker_state) confirmed_and_reconciled

  abbrev pub agree : State → Action B ReconciliationOutcome
  agree broker_state =
      if is_terminal broker_state
      then confirm_terminal broker_state
      else outcome DiscrepancyType.no_discrepancy (some broker_state) no_action

  abbrev pub adopt_state : BrokerOrder → Action B ReconciliationOutcome
  adopt_state order = do
    emit_mismatch DiscrepancyType.state_mismatch
    now ← gets (λ w. w.now)
    change (λ r. record r {
      quantity_final = executed_or order.executed_quantity r.quantity_final;
      executed_price = order.executed_price;
      executed_quantity = order.executed_quantity;
      order_status = if is_terminal order.state then reconciled else order.state;
      last_status_check = some now;
    })
    save
    outcome DiscrepancyType.state_mismatch (some order.state) adopted_broker_state

  unfoldable pub flag : Error → Action B ReconciliationOutcome
  flag e =
      if is_execution_manager_error e
      then (emit_mismatch DiscrepancyType.broker_has_no_record
          >> outcome DiscrepancyType.broker_has_no_record none flagged_for_manual_review)
      else raise e

  unfoldable pub compare : BrokerOrder → Action B ReconciliationOutcome
  compare order w =
      (if same_state order.state w.current.order_status
          then agree order.state
          else adopt_state order)
        w

  -- `get_order_status` is tried; what follows its success is not under the `try`.
  unfoldable pub check_status : ℕ → Action B ReconciliationOutcome
  unfolding flag compare
  check_status id w =
      let (r, w') = on_broker (service.port.get_order_status (some id)) w in
      elim r [ ok order ↦ compare order w' | raised e ↦ flag e w' ]

  unfoldable pub check_open : ℕ → Option BrokerOrder → Action B ReconciliationOutcome
  unfolding check_status
  check_open id none = check_status id
  check_open id (some order) =
      outcome DiscrepancyType.still_open_at_broker (some order.state) none_still_in_flight

  unfoldable pub match_open : Option BrokerOrder → Action B ReconciliationOutcome
  unfolding adopt_match escalate
  match_open none = escalate
  match_open (some matched) = adopt_match matched

  unfoldable pub by_id : Dict BrokerOrder → Option ℕ → Action B ReconciliationOutcome
  unfolding match_open check_open confirm_failed
  by_id open_at_broker none w =
      (if same_state w.current.order_status failed
          then confirm_failed
          else match_open (first (is_match w.current) (values open_at_broker)))
        w
  by_id open_at_broker (some id) w = check_open id (lookup id open_at_broker) w

  -- `_reconcile_one`
  unfoldable pub reconcile_one : Dict BrokerOrder → Action B ReconciliationOutcome
  unfolding by_id
  reconcile_one open_at_broker w = by_id open_at_broker w.current.broker_order_id w

  unfoldable pub each :
      Dict BrokerOrder → List ExecutionRecord → Action B (List ReconciliationOutcome)
  unfolding reconcile_one
  each open_at_broker [] = pure []
  each open_at_broker (r ∷ rs) = change (λ _. r) >> reconcile_one open_at_broker >>= λ one.
      each open_at_broker rs >>= λ rest. pure (one ∷ rest)

  abbrev pub is_relevant : ExecutionRecord → Bool
  is_relevant r = not (contains_state r.order_status (proposal ∷ verified ∷ ambiguous ∷ []))

  unfoldable pub reconcile : Action B (List ReconciliationOutcome)
  unfolding each
  reconcile = do
    unresolved ← on_store load_unresolved_records
    let relevant = keep is_relevant unresolved
    let waiting = length (keep (λ r. same_state r.order_status ambiguous) unresolved)
    orders ← on_broker (service.port.get_open_orders)
    emit_check (check_started (length unresolved) (length relevant) waiting) EventResult.started
    outcomes ← each (by_order_id orders) relevant
    emit_check (check_completed (length outcomes) waiting) EventResult.completed
    pure outcomes
