-- ===== src/Orchestrator/Submission.antt =====
-- What `_do_submit` of orchestrator.py leaves behind, whether the broker answers or raises.
use etf_platform_paper_mode.Common.{
  ℕ, ◌≡◌, some, ok, raised, refl, catch, ap, ◌>>=◌, ◌>>◌, ◌∙◌, >>=-ok, >>=-raised, Result, Exec,
}
use etf_platform_paper_mode.Common.Dict.{lookup-insert_self}
use etf_platform_paper_mode.Cost.{buy}
use etf_platform_paper_mode.Events.{EventType, EventResult, accepted, exception}
use etf_platform_paper_mode.Lifecycle.{
  State, verified, submitted, pending, Error, validate_transition,
}
use etf_platform_paper_mode.Lifecycle.Graph.{◌⟶◌, ◌⟶*◌, here, next}
use etf_platform_paper_mode.Record.{ExecutionRecord}
use etf_platform_paper_mode.Store.{row_of}
use etf_platform_paper_mode.Store.Rows.{IsAware}
use etf_platform_paper_mode.World.{World, Action, on_broker, save, change, transition}
use etf_platform_paper_mode.Orchestrator.{
  Orchestrator, quantity_or, process_order, emit_for, do_submit, by_state, place,
}
use etf_platform_paper_mode.Orchestrator.Saved.{
  IsSaved, written, with_status, written-IsSaved, save-written, same_order, transition_lem,
}

-- What is returned, and the record's columns, once the broker has answered.
abbrev pub IsAnswered :
    Result Error ℕ → ExecutionRecord → Result Error (Unit {0}) → ExecutionRecord → Type 0
IsAnswered (ok id) r outcome r' =
    (outcome ≡ ok tt) × (r' ≡ record r { broker_order_id = some id; order_status = pending })
IsAnswered (raised e) r outcome r' =
    (outcome ≡ raised e) × (r' ≡ record r { order_status = submitted })

pub process_by :
    {B : Type 0} (o : Orchestrator B) (correlation_id : ℕ) (w : World B) (s : State)
    → w.current.order_status ≡ s
    → process_order o correlation_id w ≡ by_state o correlation_id s w
unfolding process_order
process_by o cid w s h = ap (λ x. by_state o cid x w) h

submitting : verified ⟶ submitted
unfolding validate_transition
submitting = refl

answering : submitted ⟶ pending
unfolding validate_transition
answering = refl

pub IsAnswered-moves :
    (answer : Result Error ℕ) (r : ExecutionRecord) (outcome : Result Error (Unit {0}))
    (r' : ExecutionRecord)
    → r.order_status ≡ verified
    → IsAnswered answer r outcome r'
    → r.order_status ⟶* r'.order_status
IsAnswered-moves (ok id) r outcome r' h (_, e) =
    rw (h, ap (λ q. q.order_status) e) (next submitting (next answering here))
IsAnswered-moves (raised x) r outcome r' h (_, e) =
    rw (h, ap (λ q. q.order_status) e) (next submitting here)

module _ {B : Type 0} (o : Orchestrator B) (correlation_id : ℕ) (w : World B) where
  abbrev place_order : Exec Error B ℕ
  place_order =
      o.port.submit_order w.current.symbol buy
        (quantity_or w.current.quantity_final w.current.quantity_proposed) w.current.limit_price
        w.current.cycle_id

  abbrev quantity : ℕ
  quantity = quantity_or w.current.quantity_final w.current.quantity_proposed

  abbrev with_id : ℕ → World B → World B
  with_id id v = record v { current = record (v.current) { broker_order_id = some id } }

  abbrev report : ℕ → Action B (Unit {0})
  report id =
      emit_for o correlation_id EventType.order_submitted EventResult.submitted
        (accepted id quantity)

  abbrev after_place : ℕ → Action B (Unit {0})
  after_place id =
      change (λ r. record r { broker_order_id = some id })
      >> (transition pending >> (save >> report id))

  -- The record as it stands in the table while the broker is asked.
  abbrev sent_world : World B
  sent_world = written (with_status submitted w)

  submit_saved :
      IsSaved w
      → w.current.order_status ≡ verified
      → do_submit o correlation_id w ≡ (place o correlation_id quantity >>= after_place) sent_world
  unfolding do_submit
  submit_saved s h =
      >>=-ok (transition submitted) (λ _. save >> (place o correlation_id quantity >>= after_place))
        (transition_lem verified submitted w h submitting)
      ∙ >>=-ok save (λ _. place o correlation_id quantity >>= after_place)
          (save-written (with_status submitted w) w.current s.0 (same_order w.current _ _ _ _ _ _ _)
            s.1)

  abbrev asked : B → World B
  asked b = record sent_world { broker = b }

  placed :
      (id : ℕ) (b : B)
      → place_order w.broker ≡ (ok id, b)
      → place o correlation_id quantity sent_world ≡ (ok id, asked b)
  unfolding place
  placed id b e = rw (place, catch, on_broker, e, ap (λ p. p.1) e) refl

  abbrev not_placed : Error → B → World B
  not_placed x b =
      (emit_for o correlation_id EventType.api_error EventResult.submission_failed (exception x)
        (asked b)).1

  unplaced :
      (x : Error) (b : B)
      → place_order w.broker ≡ (raised x, b)
      → place o correlation_id quantity sent_world ≡ (raised x, not_placed x b)
  unfolding place
  unplaced x b e = rw (place, catch, on_broker, e, ap (λ p. p.1) e) refl

  after_placed :
      (id : ℕ) (b : B)
      → IsAware w.current.created_at
      → after_place id (asked b)
        ≡ (ok tt, (report id (written (with_status pending (with_id id (asked b))))).1)
  after_placed id b a =
      >>=-ok (transition pending) (λ _. save >> report id)
        (transition_lem submitted pending (with_id id (asked b)) refl answering)
      ∙ >>=-ok save (λ _. report id)
          (save-written (with_status pending (with_id id (asked b))) (sent_world.current)
            (lookup-insert_self w.current.execution_id (row_of sent_world.current)
              w.store.execution_history)
            (same_order sent_world.current _ _ _ _ _ _ _) a)

  answered :
      (answer : Result Error ℕ) (b : B)
      → IsSaved w
      → place_order w.broker ≡ (answer, b)
      → let (outcome, w') = (place o correlation_id quantity >>= after_place) sent_world in
        IsSaved w' × (w'.broker ≡ b) × IsAnswered answer w.current outcome w'.current
  answered (ok id) b s e =
      rw
        (
          >>=-ok (place o correlation_id quantity) after_place (placed id b e),
          after_placed id b s.1,
        )
        (written-IsSaved (with_status pending (with_id id (asked b))) s.1, refl, (refl, refl))
  answered (raised x) b s e =
      rw (>>=-raised (place o correlation_id quantity) after_place (unplaced x b e))
        (written-IsSaved (with_status submitted w) s.1, refl, (refl, refl))

-- Processing a saved VERIFIED record calls the broker once, with the approved quantity. If the
-- broker answers with an id, the call returns and the record is PENDING with that id. If the broker
-- raises, the call raises the same exception and the record is SUBMITTED. Either way the stored row
-- is the record's, its other columns are unchanged, and the broker's state is what its call left.
pub submission_lem :
    {B : Type 0} (o : Orchestrator B) (correlation_id : ℕ) (w : World B)
    → IsSaved w
    → w.current.order_status ≡ verified
    → let r = w.current in
      let (answer, b) =
        o.port.submit_order r.symbol buy
          (quantity_or r.quantity_final r.quantity_proposed)
          r.limit_price
          r.cycle_id
          w.broker in
      let (outcome, w') = process_order o correlation_id w in
      IsSaved w' × (w'.broker ≡ b) × IsAnswered answer r outcome w'.current
unfolding by_state
submission_lem o cid w s h =
    rw (process_by o cid w verified h, submit_saved o cid w s h) (answered o cid w _ _ s refl)
