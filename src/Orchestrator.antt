-- ===== src/Orchestrator.antt =====
-- The single-step driver of src/etf_platform/execution_manager/orchestrator.py: `process_order`
-- looks at the record's state and takes the next step.
pub mod Saved
pub mod Submission
pub mod Steps
mod Tests
use etf_platform_paper_mode.Common.{
  ℕ, zero, suc, Option, none, some, List, [], ◌∷◌, ◌++◌, Result, ok, raised, Exec, pure, raise,
  lift, gets, ◌>>=◌, ◌>>◌, modify, catch, not, if◌then◌else◌,
}
use etf_platform_paper_mode.Cost.{buy}
use etf_platform_paper_mode.Events.{
  Text, EventType, Details, refused, verified_quantity, exception, accepted, executed, EventResult,
  ExecutionEvent,
}
use etf_platform_paper_mode.Lifecycle.{
  State, proposal, verified, submitted, pending, partially_filled, filled, cancelled, failed,
  reconciled, ambiguous, Error, same_state,
}
use etf_platform_paper_mode.Ports.{
  BrokerOrder, BrokerPort, Quotes, Compliance, Notifications, order_reached,
}
use etf_platform_paper_mode.Record.{ExecutionRecord}
use etf_platform_paper_mode.Verify.{
  Note, VerificationResult, VerificationService, is_approved, verify,
}
use etf_platform_paper_mode.World.{World, Action, on_broker, change, transition, save, emit, notify}

-- What the constructor of `SubmissionOrchestrator` is given.
pub record Orchestrator (B : Type 0) : Type 0 where
  pub port : BrokerPort B
  pub quotes : Quotes
  pub compliance : Compliance
  pub notifications : Notifications
  pub service : VerificationService
  pub describe : Note → Text

-- `record.quantity_final or record.quantity_proposed`: zero counts as missing.
abbrev pub quantity_or : Option ℕ → ℕ → ℕ
quantity_or none proposed = proposed
quantity_or (some zero) proposed = proposed
quantity_or (some (suc n)) proposed = suc n

abbrev pub poll_event_type : State → EventType
poll_event_type partially_filled = EventType.partial_fill
poll_event_type filled = EventType.order_filled
poll_event_type cancelled = EventType.order_cancelled
poll_event_type _ = EventType.order_pending

module _ {B : Type 0} (o : Orchestrator B) (correlation_id : ℕ) where
  -- `_emit`
  abbrev pub emit_for : EventType → EventResult → Details → Action B (Unit {0})
  emit_for kind result details w =
      emit
        (record {
          event_type = kind;
          timestamp = w.now;
          broker_order_id = w.current.broker_order_id;
          symbol = some w.current.symbol;
          details = details;
          correlation_id = some correlation_id;
          cycle_id = some w.current.cycle_id;
          result = some result;
        })
        w

  -- The two ways on in `_do_verify`.
  unfoldable pub refuse_record : VerificationResult → Action B (Unit {0})
  refuse_record result = do
    transition failed
    change (λ r. record r { notes = r.notes ++ result.notes })
    save
    emit_for EventType.order_rejected EventResult.rejected (refused result.rejection_reason)

  unfoldable pub approve_record : VerificationResult → Action B (Unit {0})
  approve_record result = do
    transition verified
    change (λ r. record r {
      quantity_final = some result.verified_quantity;
      notes = r.notes ++ result.notes;
    })
    save
    emit_for EventType.order_pending EventResult.verified
        (verified_quantity result.verified_quantity)

  unfoldable pub do_verify : Action B (Unit {0})
  unfolding approve_record refuse_record
  do_verify = do
    r ← gets (λ w. w.current)
    result ← on_broker (
        verify o.describe o.service o.port o.quotes o.compliance r.symbol r.quantity_proposed
          r.limit_price)
    if is_approved result then approve_record result else refuse_record result

  -- The broker call of `_do_submit`: an exception is recorded and raised again.
  unfoldable pub place : ℕ → Action B ℕ
  place quantity = do
    r ← gets (λ w. w.current)
    catch (on_broker (o.port.submit_order r.symbol buy quantity r.limit_price r.cycle_id))
        (λ e. emit_for EventType.api_error EventResult.submission_failed (exception e) >> raise e)

  unfoldable pub do_submit : Action B (Unit {0})
  unfolding place
  do_submit = do
    r ← gets (λ w. w.current)
    let quantity = quantity_or r.quantity_final r.quantity_proposed
    transition submitted
    save
    id ← place quantity
    change (λ r'. record r' { broker_order_id = some id })
    transition pending
    save
    emit_for EventType.order_submitted EventResult.submitted (accepted id quantity)

  -- What `_do_poll` does when the broker's state differs from the record's.
  unfoldable pub adopt : BrokerOrder → Action B (Unit {0})
  adopt order = do
    transition order.state
    now ← gets (λ w. w.now)
    change (λ r. record r {
      executed_quantity = order.executed_quantity;
      executed_price = order.executed_price;
      last_status_check = some now;
    })
    save
    emit_for (poll_event_type order.state) (EventResult.polled order.state)
        (executed order.executed_quantity)

  unfoldable pub do_poll : Action B (Unit {0})
  unfolding adopt
  do_poll = do
    r ← gets (λ w. w.current)
    order ← on_broker (o.port.get_order_status r.broker_order_id)
    if same_state order.state r.order_status then pure tt else adopt order

  unfoldable pub do_notify : Action B (Unit {0})
  do_notify = do
    r ← gets (λ w. w.current)
    notify o.notifications (order_reached r.symbol r.order_status r.execution_id)

  unfoldable pub by_state : State → Action B (Unit {0})
  unfolding do_verify do_submit do_poll do_notify
  by_state proposal = do_verify
  by_state verified = do_submit
  by_state submitted = pure tt
  by_state ambiguous = pure tt
  by_state pending = do_poll
  by_state partially_filled = do_poll
  by_state filled = do_notify
  by_state cancelled = do_notify
  by_state failed = do_notify
  by_state reconciled = pure tt

  unfoldable pub process_order : Action B (Unit {0})
  unfolding by_state
  process_order w = by_state w.current.order_status w
