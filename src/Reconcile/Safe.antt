-- ===== src/Reconcile/Safe.antt =====
-- What reconciliation.py may do to a record's state.
use etf_platform_paper_mode.Common.{ℕ, Option, none, some, Bool-cases, inl, inr}
use etf_platform_paper_mode.Common.Dict.{Dict, lookup, values}
use etf_platform_paper_mode.Lifecycle.{failed, same_state}
use etf_platform_paper_mode.Ports.{BrokerOrder}
use etf_platform_paper_mode.World.{World}
use etf_platform_paper_mode.Reconcile.{ReconciliationService, by_id, reconcile_one}
use etf_platform_paper_mode.Reconcile.Branches.{
  IsSafe, AreAnswered, Answers, confirm_failed-IsSafe, match_open-IsSafe, check_open-IsSafe,
}

module _ {B : Type 0} (service : ReconciliationService B) (correlation_id : Option ℕ) where
  by_id-IsSafe :
      (open_at_broker : Dict BrokerOrder) (id : Option ℕ) (w : World B)
      → AreAnswered open_at_broker
      → Answers service
      → IsSafe w.current.order_status
          (by_id service correlation_id open_at_broker id w).1.current.order_status
  unfolding by_id
  by_id-IsSafe open_at_broker none w h answers =
      elim (Bool-cases (same_state w.current.order_status failed)) [
        | inl t ↦ rw t (confirm_failed-IsSafe service correlation_id w w.current.order_status)
        | inr t ↦ rw t (match_open-IsSafe service correlation_id (values open_at_broker) w h)
      ]
  by_id-IsSafe open_at_broker (some id) w h answers =
      check_open-IsSafe service correlation_id id (lookup id open_at_broker) w answers

-- If every order that the broker reports, open or asked for by its id, is in a state of an answered
-- order, then reconciling a record, even when it raises, leaves its state, or brings it to the state
-- of an answered order, or takes it from SUBMITTED to AMBIGUOUS. So no submission becomes PROPOSAL
-- or VERIFIED again.
pub reconcile_one-IsSafe :
    {B : Type 0} (service : ReconciliationService B) (correlation_id : Option ℕ)
    (open_at_broker : Dict BrokerOrder) (w : World B)
    → AreAnswered open_at_broker
    → Answers service
    → IsSafe w.current.order_status
        (reconcile_one service correlation_id open_at_broker w).1.current.order_status
unfolding reconcile_one
reconcile_one-IsSafe service cid open_at_broker w h answers =
    by_id-IsSafe service cid open_at_broker w.current.broker_order_id w h answers
