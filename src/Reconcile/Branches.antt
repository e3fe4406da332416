-- ===== src/Reconcile/Branches.antt =====
-- The branches of `_reconcile_one` of reconciliation.py, each with what it does to the record.
use etf_platform_paper_mode.Common.{
  ℕ, ◌≡◌, Option, none, some, List, [], ◌∷◌, All, ok, refl, Result-cases, Bool-cases, true, inl,
  inr, ap, >>=-ok, >>=-raised, ◌>>=◌, ◌>>◌, ◌∙◌, ◌⊎◌, if◌then◌else◌, pure, arith, first,
}
use etf_platform_paper_mode.Common.Dict.{Dict, values}
use etf_platform_paper_mode.Events.{DiscrepancyType}
use etf_platform_paper_mode.Lifecycle.{State, Error, submitted, reconciled, ambiguous, same_state}
use etf_platform_paper_mode.Lifecycle.Graph.{is_settled}
use etf_platform_paper_mode.Ports.{BrokerOrder, operator_review}
use etf_platform_paper_mode.Record.{ExecutionRecord}
use etf_platform_paper_mode.Store.{save_execution_record}
use etf_platform_paper_mode.World.{World, Action, sending, logged, save}
use etf_platform_paper_mode.Reconcile.{
  ReconciliationService, ReconciliationOutcome, ActionTaken,
  confirmed_no_broker_interaction_was_ever_needed,
  adopted_broker_order_id_via_client_reference_match, confirmed_and_reconciled,
  escalated_to_ambiguous_awaiting_operator_review, adopted_broker_state, executed_or, agree,
  adopt_state, outcome, emit_mismatch, alert_ambiguous, save_ambiguous, confirm_failed, adopt_match,
  escalate, flag, compare, check_status, check_open, match_open, is_terminal,
  is_execution_manager_error, is_match,
}

-- The state is unchanged, or one that the broker has answered for, or an unanswered submission was
-- set aside for the operator.
abbrev pub IsSafe : State → State → Type 0
IsSafe s t = (t ≡ s) ⊎ (is_settled t ≡ true) ⊎ ((s ≡ submitted) × (t ≡ ambiguous))

abbrev pub AreAnswered : Dict BrokerOrder → Type 0
AreAnswered open_at_broker = All (λ order. is_settled order.state ≡ true) (values open_at_broker)

abbrev pub Answers : {B : Type 0} → ReconciliationService B → Type 0
Answers {B} service =
    (id : ℕ) (b b' : B) (order : BrokerOrder)
    → service.port.get_order_status (some id) b ≡ (ok order, b')
    → is_settled order.state ≡ true

-- A save and what follows it leave the record.
save_then :
    {A B : Type 0} (f : Action B A) (w : World B)
    → ((v : World B) → v.current ≡ w.current → (f v).1.current ≡ w.current)
    → ((save >>= λ _. f) w).1.current ≡ w.current
save_then f w k =
    let after = record w { store = (save_execution_record w.current w.store).1 } in
    elim (Result-cases (save_execution_record w.current w.store).0) [
      | inl (a, e) ↦ rw (>>=-ok save (λ _. f) (ap (λ x. (x, after)) e)) (k after refl)
      | inr (x, e) ↦ rw (>>=-raised save (λ _. f) (ap (λ x. (x, after)) e)) refl
    ]

terminal-IsSafe :
    (s t : State) → is_settled t ≡ true → IsSafe s (if is_terminal t then reconciled else t)
terminal-IsSafe s t h = ground arith

escalated : (s : State) → IsSafe s (if same_state s submitted then ambiguous else s)
escalated s = ground arith

module _ {B : Type 0} (service : ReconciliationService B) (correlation_id : Option ℕ) where
  -- A save, and an outcome that reads the record.
  settles :
      (kind : DiscrepancyType) (broker_state : Option State) (action : ActionTaken) (v : World B)
      (s : State)
      → IsSafe s v.current.order_status
      → IsSafe s
          ((save >>= λ _. outcome service correlation_id kind broker_state action)
            v).1.current.order_status
  settles kind broker_state action v s h =
      rw
        (ap (λ r. r.order_status)
          (save_then (outcome service correlation_id kind broker_state action) v (λ u e. e)))
        h

  -- The record with a change, after the event of a mismatch.
  abbrev mismatched : (ExecutionRecord → ExecutionRecord) → World B → World B
  mismatched f w =
      let w' = (emit_mismatch service correlation_id DiscrepancyType.state_mismatch w).1 in
      record w' { current = f w'.current }

  pub confirm_failed-IsSafe :
      (w : World B) (s : State)
      → IsSafe s (confirm_failed service correlation_id w).1.current.order_status
  unfolding confirm_failed
  confirm_failed-IsSafe w s =
      settles DiscrepancyType.no_discrepancy none confirmed_no_broker_interaction_was_ever_needed
        (record w { current = record (w.current) { order_status = reconciled } }) s (inr (inl refl))

  adopt_match-IsSafe :
      (order : BrokerOrder) (w : World B) (s : State)
      → is_settled order.state ≡ true
      → IsSafe s (adopt_match service correlation_id order w).1.current.order_status
  unfolding adopt_match
  adopt_match-IsSafe order w s h =
      settles DiscrepancyType.state_mismatch (some order.state)
        adopted_broker_order_id_via_client_reference_match
        (mismatched
          (λ r. record r {
            broker_order_id = some order.broker_order_id;
            order_status = order.state;
            executed_quantity = order.executed_quantity;
            executed_price = order.executed_price;
            last_status_check = some w.now;
          })
          w)
        s (inr (inl h))

  -- The end of `escalate`.
  abbrev pub after_escalation : Action B ReconciliationOutcome
  after_escalation =
      alert_ambiguous service correlation_id
      >> outcome service correlation_id DiscrepancyType.ambiguous_no_local_id none
          escalated_to_ambiguous_awaiting_operator_review

  after_escalation-current : (w : World B) → (after_escalation w).1.current ≡ w.current
  after_escalation-current w =
      let m = operator_review w.current.execution_id w.current.cycle_id w.current.symbol in
      let after = record w { sent = logged service.notifications m w.sent } in
      let last =
        outcome service correlation_id DiscrepancyType.ambiguous_no_local_id none
          escalated_to_ambiguous_awaiting_operator_review in
      elim (Result-cases (sending service.notifications m)) [
        | inl (a, e) ↦
            rw
              (>>=-ok (alert_ambiguous service correlation_id) (λ _. last) (ap (λ x. (x, after)) e))
              refl
        | inr (x, e) ↦
            rw
              (>>=-raised (alert_ambiguous service correlation_id) (λ _. last)
                (ap (λ x. (x, after)) e))
              refl
      ]

  abbrev pub unmatched : World B → World B
  unmatched w = (emit_mismatch service correlation_id DiscrepancyType.ambiguous_no_local_id w).1

  pub escalate-by :
      (w : World B)
      → escalate service correlation_id w
        ≡ ((if same_state w.current.order_status submitted
                then save_ambiguous service correlation_id
                else pure tt)
              >> after_escalation)
            (unmatched w)
  unfolding escalate
  escalate-by w = refl

  pub escalate-current :
      (w : World B)
      → (escalate service correlation_id w).1.current ≡ record (w.current) {
        order_status =
            if same_state w.current.order_status submitted
            then ambiguous
            else w.current.order_status;
      }
  escalate-current w = elim (Bool-cases (same_state w.current.order_status submitted)) [
    | inl t ↦
        rw (escalate-by w, t)
          (save_then after_escalation
            (record (unmatched w) { current = record (w.current) { order_status = ambiguous } })
            (λ v e. after_escalation-current v ∙ e))
    | inr t ↦ rw (escalate-by w, t) (after_escalation-current (unmatched w))
  ]

  escalate-IsSafe :
      (w : World B)
      → IsSafe w.current.order_status (escalate service correlation_id w).1.current.order_status
  escalate-IsSafe w =
      rw (ap (λ r. r.order_status) (escalate-current w)) (escalated w.current.order_status)

  compare-by :
      (order : BrokerOrder) (w : World B)
      → compare service correlation_id order w
        ≡ (if same_state order.state w.current.order_status
              then agree service correlation_id order.state
              else adopt_state service correlation_id order)
            w
  unfolding compare
  compare-by order w = refl

  compare-IsSafe :
      (order : BrokerOrder) (w : World B)
      → is_settled order.state ≡ true
      → IsSafe w.current.order_status
          (compare service correlation_id order w).1.current.order_status
  compare-IsSafe order w h = elim (Bool-cases (same_state order.state w.current.order_status)) [
    | inl t ↦ elim (Bool-cases (is_terminal order.state)) [
      | inl q ↦
          rw (compare-by order w, t, q)
            (settles DiscrepancyType.no_discrepancy (some order.state) confirmed_and_reconciled
              (record w { current = record (w.current) { order_status = reconciled } })
              w.current.order_status (inr (inl refl)))
      | inr q ↦ rw (compare-by order w, t, q) (inl refl)
    ]
    | inr t ↦
        rw (compare-by order w, t)
          (settles DiscrepancyType.state_mismatch (some order.state) adopted_broker_state
            (mismatched
              (λ r. record r {
                quantity_final = executed_or order.executed_quantity r.quantity_final;
                executed_price = order.executed_price;
                executed_quantity = order.executed_quantity;
                order_status = if is_terminal order.state then reconciled else order.state;
                last_status_check = some w.now;
              })
              w)
            w.current.order_status (terminal-IsSafe w.current.order_status order.state h))
  ]

  flag-IsSafe :
      (x : Error) (w : World B)
      → IsSafe w.current.order_status (flag service correlation_id x w).1.current.order_status
  unfolding flag
  flag-IsSafe x w = elim (Bool-cases (is_execution_manager_error x)) [
    | inl t ↦ rw t (inl refl)
    | inr t ↦ rw t (inl refl)
  ]

  check_status-IsSafe :
      (id : ℕ) (w : World B)
      → Answers service
      → IsSafe w.current.order_status
          (check_status service correlation_id id w).1.current.order_status
  unfolding check_status
  check_status-IsSafe id w answers =
      let b = (service.port.get_order_status (some id) w.broker).1 in
      elim (Result-cases (service.port.get_order_status (some id) w.broker).0) [
        | inl (order, e) ↦
            rw (check_status, e)
              (compare-IsSafe order (record w { broker = b })
                (answers id w.broker b order (ap (λ r. (r, b)) e)))
        | inr (x, e) ↦ rw (check_status, e) (flag-IsSafe x (record w { broker = b }))
      ]

  pub check_open-IsSafe :
      (id : ℕ) (order : Option BrokerOrder) (w : World B)
      → Answers service
      → IsSafe w.current.order_status
          (check_open service correlation_id id order w).1.current.order_status
  unfolding check_open
  check_open-IsSafe id none w answers = check_status-IsSafe id w answers
  check_open-IsSafe id (some order) w answers = inl refl

  pub match_open-IsSafe :
      (orders : List BrokerOrder) (w : World B)
      → All (λ order. is_settled order.state ≡ true) orders
      → IsSafe w.current.order_status
          (match_open service correlation_id
            (first (is_match w.current) orders)
            w).1.current.order_status
  unfolding match_open
  match_open-IsSafe [] w h = escalate-IsSafe w
  match_open-IsSafe (o ∷ os) w (h, hs) = elim (Bool-cases (is_match w.current o)) [
    | inl t ↦ rw t (adopt_match-IsSafe o w w.current.order_status h)
    | inr t ↦ rw t (match_open-IsSafe os w hs)
  ]
