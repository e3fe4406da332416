-- ===== src/Reconcile/Escalated.antt =====
-- How reconciliation.py sets an unanswered submission aside for the operator.
use etf_platform_paper_mode.Common.{
  ℕ, ◌≡◌, Option, none, some, Result-cases, inl, inr, ap, refl, sym, subst, ◌∙◌, >>=-ok, >>=-raised,
  if◌then◌else◌, first, pure, ◌>>◌,
}
use etf_platform_paper_mode.Common.Dict.{Dict, lookup, values}
use etf_platform_paper_mode.Events.{DiscrepancyType}
use etf_platform_paper_mode.Lifecycle.{submitted, failed, ambiguous, same_state}
use etf_platform_paper_mode.Ports.{BrokerOrder, operator_review}
use etf_platform_paper_mode.Store.{row_of}
use etf_platform_paper_mode.Orchestrator.Saved.{
  IsSaved, written, written-IsSaved, same_order, save-written,
}
use etf_platform_paper_mode.World.{World, sending, logged}
use etf_platform_paper_mode.Reconcile.{
  ReconciliationService, confirm_failed, match_open, by_id, reconcile_one, is_match, escalate,
  save_ambiguous, outcome, alert_ambiguous, escalated_to_ambiguous_awaiting_operator_review,
}
use etf_platform_paper_mode.Reconcile.Branches.{after_escalation, escalate-by, unmatched}

module _ {B : Type 0} (service : ReconciliationService B) (correlation_id : Option ℕ) where
  -- The operator is asked, and nothing else changes.
  abbrev pub Alerts : World B → World B → Type 0
  Alerts w w' =
      (w'.current ≡ w.current)
      × (w'.store ≡ w.store)
      × (w'.broker ≡ w.broker)
      × (w'.sent
          ≡ logged service.notifications
              (operator_review w.current.execution_id w.current.cycle_id w.current.symbol) w.sent)

  after_escalation-Alerts : (w : World B) → Alerts w (after_escalation service correlation_id w).1
  after_escalation-Alerts w =
      let m = operator_review w.current.execution_id w.current.cycle_id w.current.symbol in
      let after = record w { sent = logged service.notifications m w.sent } in
      let last =
        outcome service correlation_id DiscrepancyType.ambiguous_no_local_id none
          escalated_to_ambiguous_awaiting_operator_review in
      elim (Result-cases (sending service.notifications m)) [
        | inl (a, e) ↦
            rw
              (>>=-ok (alert_ambiguous service correlation_id) (λ _. last) (ap (λ x. (x, after)) e))
              (refl, refl, refl, refl)
        | inr (x, e) ↦
            rw
              (>>=-raised (alert_ambiguous service correlation_id) (λ _. last)
                (ap (λ x. (x, after)) e))
              (refl, refl, refl, refl)
      ]

  -- The world in which the record is AMBIGUOUS.
  abbrev set_aside : World B → World B
  set_aside w = record (unmatched service correlation_id w) {
    current = record (w.current) { order_status = ambiguous };
  }

  escalate-written :
      (w : World B)
      → IsSaved w
      → w.current.order_status ≡ submitted
      → escalate service correlation_id w
        ≡ after_escalation service correlation_id (written (set_aside w))
  escalate-written w (row, aware) s =
      let r = w.current in
      let saved =
        save-written (set_aside w) r row
          (same_order r r.quantity_final r.broker_order_id ambiguous r.executed_price
            r.executed_quantity r.last_status_check r.notes)
          aware in
      escalate-by service correlation_id w
      ∙ (ap
            (λ x.
              ((if same_state x submitted then save_ambiguous service correlation_id else pure tt)
                  >> after_escalation service correlation_id)
                (unmatched service correlation_id w))
            s
          ∙ >>=-ok (save_ambiguous service correlation_id)
              (λ _. after_escalation service correlation_id)
              {s = unmatched service correlation_id w} saved)

  reconcile_one-escalate :
      (open_at_broker : Dict BrokerOrder) (w : World B)
      → w.current.order_status ≡ submitted
      → w.current.broker_order_id ≡ none
      → first (is_match w.current) (values open_at_broker) ≡ none
      → reconcile_one service correlation_id open_at_broker w ≡ escalate service correlation_id w
  unfolding reconcile_one by_id match_open
  reconcile_one-escalate open_at_broker w s i f =
      ap (λ x. by_id service correlation_id open_at_broker x w) i
      ∙ (ap
            (λ x.
              (if same_state x failed
                  then confirm_failed service correlation_id
                  else match_open service correlation_id
                      (first (is_match w.current) (values open_at_broker)))
                w)
            s
          ∙ ap (λ m. match_open service correlation_id m w) f)

-- What an escalation leaves: the record is AMBIGUOUS, in the store as well, the broker is not called,
-- and the operator is asked.
abbrev pub IsEscalated : {B : Type 0} → ReconciliationService B → World B → World B → Type 0
IsEscalated service w w' =
    let r = record (w.current) { order_status = ambiguous } in
    (w'.current ≡ r)
    × (lookup w.current.execution_id w'.store.execution_history ≡ some (row_of r))
    × (w'.broker ≡ w.broker)
    × (w'.sent
        ≡ logged service.notifications
            (operator_review w.current.execution_id w.current.cycle_id w.current.symbol) w.sent)

-- A SUBMITTED record that is in the store, without an id, for which no open order carries its cycle
-- and symbol, becomes AMBIGUOUS and is stored as that, whatever is raised on the way. Nothing else of
-- it changes, the broker is not called, and the operator is asked, once, if there is a port for it.
pub reconcile_one-escalates :
    {B : Type 0} (service : ReconciliationService B) (correlation_id : Option ℕ)
    (open_at_broker : Dict BrokerOrder) (w : World B)
    → IsSaved w
    → w.current.order_status ≡ submitted
    → w.current.broker_order_id ≡ none
    → first (is_match w.current) (values open_at_broker) ≡ none
    → IsEscalated service w (reconcile_one service correlation_id open_at_broker w).1
reconcile_one-escalates service cid open_at_broker w saved s i f =
    let same =
      reconcile_one-escalate service cid open_at_broker w s i f
      ∙ escalate-written service cid w saved s in
    let (record_kept, store, broker, sent) =
      after_escalation-Alerts service cid (written (set_aside service cid w)) in
    let (row, _) = written-IsSaved (set_aside service cid w) saved.1 in
    subst (λ out. IsEscalated service w out.1) (sym same)
      (
        record_kept,
        ap (λ s. lookup w.current.execution_id s.execution_history) store ∙ row,
        broker,
        sent,
      )
