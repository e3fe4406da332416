-- ===== src/Reconcile/Tests.antt =====
-- Reconciling an unanswered submission with a broker that has no open order, and resolving it.
use etf_platform_paper_mode.Common.{◌≡◌, refl, false, some, ok, ◌++◌, ◌∷◌, none, [], arith}
use etf_platform_paper_mode.Fixtures.{noon, record_in, reconciliation, world_in}
use etf_platform_paper_mode.Lifecycle.{submitted, ambiguous, filled}
use etf_platform_paper_mode.Reconcile.{reconcile_one}
use etf_platform_paper_mode.Reconcile.Branches.{IsSafe, Answers}
use etf_platform_paper_mode.Common.Texts.{is_blank}
use etf_platform_paper_mode.Reconcile.Operator.{Resolution, resolution_prefix, resolve_record}
use etf_platform_paper_mode.Reconcile.Resolve.{resolve_record-guarded}
use etf_platform_paper_mode.Record.{ExecutionRecord, transition_to}
use etf_platform_paper_mode.Store.{save_execution_record}
use etf_platform_paper_mode.Lifecycle.Graph.{◌⟶◌}
use etf_platform_paper_mode.Reconcile.Safe.{reconcile_one-IsSafe}
use etf_platform_paper_mode.Reconcile.Escalated.{IsEscalated, reconcile_one-escalates}

reconciliation-Answers : Answers reconciliation
reconciliation-Answers id b b' order e = ground arith

reconcile_one-IsSafe_example :
    IsSafe submitted
      (reconcile_one reconciliation none [] (world_in submitted)).1.current.order_status
reconcile_one-IsSafe_example =
    reconcile_one-IsSafe reconciliation none [] (world_in submitted) tt reconciliation-Answers

reconcile_one-escalates_example :
    IsEscalated reconciliation
      (world_in submitted)
      (reconcile_one reconciliation none [] (world_in submitted)).1
reconcile_one-escalates_example =
    reconcile_one-escalates reconciliation none [] (world_in submitted) (refl, tt) refl refl refl

abbrev confirmed : Resolution
confirmed = record {
  confirmed_state = filled;
  operator_notes = b'o' ∷ b'k' ∷ [];
  broker_order_id = some 77;
  executed_quantity = some 4;
  executed_price = some 10_000;
}

abbrev resolved : ExecutionRecord
resolved = record (record_in ambiguous) {
  order_status = filled;
  broker_order_id = some 77;
  executed_quantity = 4;
  executed_price = some 10_000;
  last_status_check = some noon;
  notes = (resolution_prefix ++ b'o' ∷ b'k' ∷ []) ∷ [];
}

returns_resolved :
    (resolve_record confirmed (record_in ambiguous) (world_in ambiguous)).0 ≡ ok resolved
unfolding resolve_record transition_to save_execution_record
returns_resolved = refl

resolve_record-guarded_example :
    (ambiguous ≡ ambiguous)
    × (is_blank confirmed.operator_notes ≡ false)
    × (ambiguous ⟶ filled)
    × (filled ≡ filled)
resolve_record-guarded_example =
    resolve_record-guarded confirmed (record_in ambiguous) resolved (world_in ambiguous)
      returns_resolved
