-- ===== src/Orchestrator/Steps.antt =====
-- What every call of `process_order` of orchestrator.py keeps, an exception included.
use etf_platform_paper_mode.Common.{
  ℕ, ◌≡◌, some, raised, Exec, refl, Result-cases, Bool-cases, inl, inr, ap, >>=-ok, >>=-raised,
  ◌>>=◌, ◌>>◌, ◌∙◌, ◌++◌, if◌then◌else◌, gets, pure,
}
use etf_platform_paper_mode.Common.Dict.{lookup}
use etf_platform_paper_mode.Store.{row_of}
use etf_platform_paper_mode.Store.Rows.{IsAware, SameOrder}
use etf_platform_paper_mode.Events.{EventType, EventResult, refused, verified_quantity, executed}
use etf_platform_paper_mode.Lifecycle.{
  State, Error, proposal, verified, submitted, pending, partially_filled, filled, cancelled, failed,
  reconciled, ambiguous, validate_transition, same_state,
}
use etf_platform_paper_mode.Lifecycle.Graph.{◌⟶◌, ◌⟶*◌, here, next}
use etf_platform_paper_mode.Ports.{BrokerOrder}
use etf_platform_paper_mode.Record.{ExecutionRecord}
use etf_platform_paper_mode.Time.{Datetime}
use etf_platform_paper_mode.Verify.{VerificationResult, verify, is_approved}
use etf_platform_paper_mode.World.{World, Action, on_broker, change, transition, save}
use etf_platform_paper_mode.Orchestrator.{
  Orchestrator, emit_for, refuse_record, approve_record, do_verify, adopt, do_poll, poll_event_type,
  by_state, process_order,
}
use etf_platform_paper_mode.Orchestrator.Saved.{
  IsSaved, not_moved, written, written-IsSaved, save-written, same_order, transition_lem,
}
use etf_platform_paper_mode.Orchestrator.Submission.{process_by, submission_lem, IsAnswered-moves}

-- The row is still the record's, and the record's status moved by accepted transitions.
abbrev pub IsKept : {B : Type 0} → World B → World B → Type 0
IsKept w w' = IsSaved w' × (w.current.order_status ⟶* w'.current.order_status)

proposal_failed : proposal ⟶ failed
unfolding validate_transition
proposal_failed = refl

proposal_verified : proposal ⟶ verified
unfolding validate_transition
proposal_verified = refl

-- A transition and a change of other columns.
abbrev moved : {B : Type 0} → State → (ExecutionRecord → ExecutionRecord) → World B → World B
moved t f w = record w { current = f (record (w.current) { order_status = t }) }

-- Both are accepted, and the save after them writes the row.
settled :
    {B : Type 0} (s t : State) (f : ExecutionRecord → ExecutionRecord) (rest : Action B (Unit {0}))
    (w : World B)
    → w.current.order_status ≡ s
    → s ⟶ t
    → let v = moved t f w in
      lookup v.current.execution_id w.store.execution_history ≡ some (row_of w.current)
      → SameOrder (row_of w.current).columns v.current
      → IsAware v.current.created_at
      → (transition t >> (change f >> (save >> rest))) w ≡ rest (written v)
settled s t f rest w h go e same a =
    >>=-ok (transition t) (λ _. change f >> (save >> rest)) (transition_lem s t w h go)
    ∙ >>=-ok save (λ _. rest) (save-written (moved t f w) w.current e same a)

-- What follows a call of the broker keeps the record, and so does a call that raises.
broker-IsKept :
    {A B : Type 0} (m : Exec Error B A) (f : A → Action B (Unit {0})) (w : World B)
    → IsSaved w
    → ((a : A) (b : B) → IsKept w (f a (record w { broker = b })).1)
    → IsKept w ((on_broker m >>= f) w).1
broker-IsKept m f w s k = elim (Result-cases (m w.broker).0) [
  | inl (a, e) ↦
      rw (>>=-ok (on_broker m) f (ap (λ x. (x, record w { broker = (m w.broker).1 })) e))
        (k a (m w.broker).1)
  | inr (x, e) ↦
      rw (>>=-raised (on_broker m) f (ap (λ x. (x, record w { broker = (m w.broker).1 })) e))
        (s, here)
]

module _ {B : Type 0} (o : Orchestrator B) (cid : ℕ) where
  refuse-IsKept :
      (result : VerificationResult) (w : World B)
      → IsSaved w
      → w.current.order_status ≡ proposal
      → IsKept w (refuse_record o cid result w).1
  unfolding refuse_record
  refuse-IsKept result w s h =
      rw
        (settled proposal failed (λ r. record r { notes = r.notes ++ result.notes })
          (emit_for o cid EventType.order_rejected EventResult.rejected
            (refused result.rejection_reason))
          w h proposal_failed s.0 (same_order w.current _ _ _ _ _ _ _) s.1)
        (
          written-IsSaved (moved failed (λ r. record r { notes = r.notes ++ result.notes }) w) s.1,
          rw h (next proposal_failed here),
        )

  approve-IsKept :
      (result : VerificationResult) (w : World B)
      → IsSaved w
      → w.current.order_status ≡ proposal
      → IsKept w (approve_record o cid result w).1
  unfolding approve_record
  approve-IsKept result w s h =
      rw
        (settled proposal verified
          (λ r. record r {
            quantity_final = some result.verified_quantity;
            notes = r.notes ++ result.notes;
          })
          (emit_for o cid EventType.order_pending EventResult.verified
            (verified_quantity result.verified_quantity))
          w h proposal_verified s.0 (same_order w.current _ _ _ _ _ _ _) s.1)
        (
          written-IsSaved
              (moved verified
                (λ r. record r {
                  quantity_final = some result.verified_quantity;
                  notes = r.notes ++ result.notes;
                })
                w)
              s.1,
          rw h (next proposal_verified here),
        )

  verify-IsKept :
      (w : World B) → IsSaved w → w.current.order_status ≡ proposal → IsKept w (do_verify o cid w).1
  unfolding do_verify
  verify-IsKept w s h =
      broker-IsKept
        (verify o.describe o.service o.port o.quotes o.compliance w.current.symbol
          w.current.quantity_proposed w.current.limit_price)
        (λ result.
          if is_approved result then approve_record o cid result else refuse_record o cid result)
        w s
        (λ result b. elim (Bool-cases (is_approved result)) [
          | inl t ↦ rw t (approve-IsKept result (record w { broker = b }) s h)
          | inr t ↦ rw t (refuse-IsKept result (record w { broker = b }) s h)
        ])

  abbrev polled : BrokerOrder → Datetime → ExecutionRecord → ExecutionRecord
  polled order now r = record r {
    executed_quantity = order.executed_quantity;
    executed_price = order.executed_price;
    last_status_check = some now;
  }

  abbrev poll_report : BrokerOrder → Action B (Unit {0})
  poll_report order =
      emit_for o cid (poll_event_type order.state) (EventResult.polled order.state)
        (executed order.executed_quantity)

  adopted :
      (order : BrokerOrder) (w : World B)
      → IsSaved w
      → w.current.order_status ⟶ order.state
      → adopt o cid order w ≡ poll_report order (written (moved order.state (polled order w.now) w))
  unfolding adopt
  adopted order w s e =
      >>=-ok (transition order.state)
        (λ _. gets (λ v. v.now) >>= λ now. change (polled order now) >> (save >> poll_report order))
        (transition_lem w.current.order_status order.state w refl e)
      ∙ >>=-ok save (λ _. poll_report order)
          (save-written (moved order.state (polled order w.now) w) w.current s.0
            (same_order w.current _ _ _ _ _ _ _) s.1)

  not_adopted :
      (order : BrokerOrder) (x : Error) (w : World B)
      → validate_transition w.current.order_status order.state ≡ raised x
      → adopt o cid order w ≡ (raised x, w)
  unfolding adopt
  not_adopted order x w e =
      >>=-raised (transition order.state)
        (λ _. gets (λ v. v.now) >>= λ now. change (polled order now) >> (save >> poll_report order))
        (not_moved order.state x w e)

  adopt-IsKept : (order : BrokerOrder) (w : World B) → IsSaved w → IsKept w (adopt o cid order w).1
  adopt-IsKept order w s =
      elim (Result-cases (validate_transition w.current.order_status order.state)) [
        | inl (_, e) ↦
            rw (adopted order w s e)
              (written-IsSaved (moved order.state (polled order w.now) w) s.1, next e here)
        | inr (x, e) ↦ rw (not_adopted order x w e) (s, here)
      ]

  poll-IsKept : (w : World B) → IsSaved w → IsKept w (do_poll o cid w).1
  unfolding do_poll
  poll-IsKept w s =
      broker-IsKept (o.port.get_order_status w.current.broker_order_id)
        (λ order.
          if same_state order.state w.current.order_status then pure tt else adopt o cid order)
        w s
        (λ order b. elim (Bool-cases (same_state order.state w.current.order_status)) [
          | inl t ↦ rw t (s, here)
          | inr t ↦ rw t (adopt-IsKept order (record w { broker = b }) s)
        ])

  submit-IsKept :
      (w : World B)
      → IsSaved w
      → w.current.order_status ≡ verified
      → IsKept w (process_order o cid w).1
  submit-IsKept w s h =
      let (saved, same, answered) = submission_lem o cid w s h in
      (saved, IsAnswered-moves _ w.current _ _ h answered)

-- Whatever the broker and the other services answer, and also when the call raises: if the stored
-- row is the record's before, it is the record's after, and the record's status has moved along
-- accepted transitions of the lifecycle only.
pub process_order-IsKept :
    {B : Type 0} (o : Orchestrator B) (correlation_id : ℕ) (w : World B)
    → IsSaved w
    → IsKept w (process_order o correlation_id w).1
unfolding by_state do_verify do_poll
process_order-IsKept o cid w s = by_cases w.current.order_status refl
  where
    by_cases : (x : State) → w.current.order_status ≡ x → IsKept w (process_order o cid w).1
    by_cases proposal h = rw (process_by o cid w proposal h) (verify-IsKept o cid w s h)
    by_cases verified h = submit-IsKept o cid w s h
    by_cases submitted h = rw (process_by o cid w submitted h) (s, here)
    by_cases pending h = rw (process_by o cid w pending h) (poll-IsKept o cid w s)
    by_cases partially_filled h = rw (process_by o cid w partially_filled h) (poll-IsKept o cid w s)
    by_cases filled h = rw (process_by o cid w filled h) (s, here)
    by_cases cancelled h = rw (process_by o cid w cancelled h) (s, here)
    by_cases failed h = rw (process_by o cid w failed h) (s, here)
    by_cases reconciled h = rw (process_by o cid w reconciled h) (s, here)
    by_cases ambiguous h = rw (process_by o cid w ambiguous h) (s, here)
