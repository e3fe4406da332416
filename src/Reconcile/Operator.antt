-- ===== src/Reconcile/Operator.antt =====
-- `resolve_ambiguous_execution` of reconciliation.py: an operator says what became of an order that
-- reconciliation could not decide.
use etf_platform_paper_mode.Common.{
  ℕ, not, Option, none, some, [], ◌∷◌, ◌++◌, raise, raise_if, gets, ◌>>=◌, ◌>>◌,
}
use etf_platform_paper_mode.Common.Texts.{Text, is_blank}
use etf_platform_paper_mode.Events.{EventType, resolved_to, EventResult}
use etf_platform_paper_mode.Lifecycle.{State, ambiguous, execution_manager, same_state}
use etf_platform_paper_mode.Record.{ExecutionRecord}
use etf_platform_paper_mode.Store.{load_execution_record}
use etf_platform_paper_mode.World.{Action, on_store, change, transition, save, emit}

-- "[OPERATOR RESOLUTION] "
abbrev pub resolution_prefix : Text
resolution_prefix =
    91 ∷ 79 ∷ 80 ∷ 69 ∷ 82 ∷ 65 ∷ 84 ∷ 79 ∷ 82 ∷ 32 ∷ 82 ∷ 69 ∷ 83 ∷ 79 ∷ 76 ∷ 85 ∷ 84 ∷ 73 ∷ 79
    ∷ 78 ∷ 93 ∷ 32 ∷ []

-- What an operator enters; what is not given is none.
pub record Resolution : Type 0 where
  pub confirmed_state : State
  pub operator_notes : Text
  pub broker_order_id : Option ℕ
  pub executed_quantity : Option ℕ
  pub executed_price : Option ℕ

abbrev pub given {ℓ} : {A : Type ℓ} → Option A → A → A
given none old = old
given (some new) old = new

abbrev pub or_none {ℓ} : {A : Type ℓ} → Option A → Option A → Option A
or_none none old = old
or_none (some new) old = some new

module _ {B : Type 0} (x : Resolution) where
  abbrev pub emit_resolved : Action B (Unit {0})
  emit_resolved w =
      emit
        (record {
          event_type = EventType.reconciliation_check;
          timestamp = w.now;
          broker_order_id = w.current.broker_order_id;
          symbol = some w.current.symbol;
          details = resolved_to x.confirmed_state x.operator_notes;
          correlation_id = none;
          cycle_id = some w.current.cycle_id;
          result = some EventResult.operator_resolved_ambiguous;
        })
        w

  unfoldable pub resolve_record : ExecutionRecord → Action B ExecutionRecord
  resolve_record r = do
    change (λ _. r)
    raise_if (not (same_state r.order_status ambiguous)) execution_manager
    raise_if (is_blank x.operator_notes) execution_manager
    transition x.confirmed_state
    now ← gets (λ w. w.now)
    change (λ r'. record r' {
      broker_order_id = or_none x.broker_order_id r'.broker_order_id;
      executed_quantity = given x.executed_quantity r'.executed_quantity;
      executed_price = or_none x.executed_price r'.executed_price;
      notes = r'.notes ++ (resolution_prefix ++ x.operator_notes) ∷ [];
      last_status_check = some now;
    })
    save
    emit_resolved
    gets (λ w. w.current)

  found : Option ExecutionRecord → Action B ExecutionRecord
  unfolding resolve_record
  found none = raise execution_manager
  found (some r) = resolve_record r

  unfoldable pub resolve_ambiguous_execution : ℕ → Action B ExecutionRecord
  unfolding found
  resolve_ambiguous_execution execution_id = on_store (load_execution_record execution_id) >>= found
