-- ===== src/Events.antt =====
-- Recorded events: src/etf_platform/execution_manager/events.py. An event's `details` is a dict
-- literal at each place that builds one; each such literal is a constructor of `Details`, and each
-- `result` string one of `EventResult`. Symbols, cycle and order ids are only compared.
use etf_platform_paper_mode.Common.{ℕ, Option, List, [], ◌∷◌, ◌++◌, keep, same_option}
pub use etf_platform_paper_mode.Common.Texts.{Text}
use etf_platform_paper_mode.Lifecycle.{State, Error}
use etf_platform_paper_mode.Time.{Datetime}

-- `ExecutionEventType`
pub data EventType : Type 0 where
  order_submitted order_pending partial_fill order_filled order_cancelled : EventType
  order_rejected order_expired api_timeout network_error api_error : EventType
  quote_unavailable reconciliation_check : EventType

-- `DiscrepancyType` of reconciliation.py
pub data DiscrepancyType : Type 0 where
  no_discrepancy never_reached_broker still_open_at_broker state_mismatch : DiscrepancyType
  broker_has_no_record ambiguous_no_local_id : DiscrepancyType

-- `RejectionReason` of verification.py
pub data RejectionReason : Type 0 where
  insufficient_cash compliance_failed liquidity_insufficient no_quote invalid_order :
      RejectionReason

-- The call that a simulated failure interrupts, and why a simulated order was cancelled.
pub data Stage : Type 0 where
  submit_order get_order_status : Stage

pub data CancelReason : Type 0 where
  broker_side window_expiry explicit_request : CancelReason

pub data Details : Type 0 where
  no_details : Details
  placed : (quantity limit_price client_reference : ℕ) → Details
  rejection : Text → Details
  cancel_reason : CancelReason → Details
  at_stage : Stage → Details
  fill : (executed_quantity : ℕ) → (executed_price : Option ℕ) → Details
  partial : (executed_quantity remaining : ℕ) → Details
  refused : (reason : Option RejectionReason) → Details
  verified_quantity : ℕ → Details
  exception : Error → Details
  accepted : (broker_order_id quantity : ℕ) → Details
  executed : ℕ → Details
  check_started : (unresolved relevant awaiting_operator : ℕ) → Details
  check_completed : (outcomes awaiting_operator : ℕ) → Details
  mismatch_of : DiscrepancyType → Details
  resolved_to : State → Text → Details

pub data EventResult : Type 0 where
  rejected verified submission_failed submitted started completed mismatch : EventResult
  operator_resolved_ambiguous : EventResult
  polled : State → EventResult

-- `ExecutionEvent`; its timestamp is a reading of a clock, which is aware.
pub record ExecutionEvent : Type 0 where
  pub event_type : EventType
  pub timestamp : Datetime
  pub broker_order_id : Option ℕ
  pub symbol : Option ℕ
  pub details : Details
  pub correlation_id : Option ℕ
  pub cycle_id : Option ℕ
  pub result : Option EventResult

-- `InMemoryEventRecorder`: `record`, `events_for_order`, `clear`; `events` is the list itself.
abbrev pub Recorder : Type 0
Recorder = List ExecutionEvent

abbrev pub record_event : ExecutionEvent → Recorder → Recorder
record_event event log = log ++ event ∷ []

unfoldable pub events_for_order : Option ℕ → Recorder → List ExecutionEvent
events_for_order id log = keep (λ e. same_option e.broker_order_id id) log

unfoldable pub clear : Recorder → Recorder
clear _ = []
