-- ===== src/Record.antt =====
-- `ExecutionRecord` of src/etf_platform/execution_manager/models.py: the lifecycle record of one
-- proposed order.
use etf_platform_paper_mode.Common.{ℕ, Bool, Option, List, Result, ok, raised}
use etf_platform_paper_mode.Events.{Text}
use etf_platform_paper_mode.Lifecycle.{State, Error, validate_transition}
use etf_platform_paper_mode.Time.{Datetime}

pub record ExecutionRecord : Type 0 where
  pub execution_id : ℕ
  pub queue_id : Option ℕ
  pub cycle_id : ℕ
  pub symbol : ℕ
  pub quantity_proposed : ℕ
  pub quantity_final : Option ℕ
  pub limit_price : ℕ
  pub order_status : State
  pub broker_order_id : Option ℕ
  pub executed_price : Option ℕ
  pub executed_quantity : ℕ
  pub is_paper_trade : Bool
  pub created_at : Datetime
  pub last_status_check : Option Datetime
  pub priority_rank : ℕ
  pub notes : List Text

-- `transition_to`
unfoldable pub transition_to : State → ExecutionRecord → Result Error ExecutionRecord
unfolding validate_transition
transition_to new_status r = elim (validate_transition r.order_status new_status) [
  | ok _ ↦ ok (record r { order_status = new_status })
  | raised e ↦ raised e
]
