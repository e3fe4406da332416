-- ===== src/Reconcile/Resolve.antt =====
-- The operator's resolution of an AMBIGUOUS record in reconciliation.py.
use etf_platform_paper_mode.Common.{
  ◌≡◌, some, ok, refl, Result, Result-cases, Bool, true, false, inl, inr, not, ap, sym, ◌∙◌,
  >>=-inv, raised_not_ok, ◌>>=◌, ◌>>◌, gets, raise_if, arith, ◌++◌, ◌∷◌, [],
}
use etf_platform_paper_mode.Lifecycle.{
  State, ambiguous, execution_manager, same_state, validate_transition,
}
use etf_platform_paper_mode.Lifecycle.Graph.{◌⟶◌}
use etf_platform_paper_mode.Record.{ExecutionRecord}
use etf_platform_paper_mode.World.{World, Action, change, transition, save}
use etf_platform_paper_mode.Orchestrator.Saved.{transition_lem, not_moved}
use etf_platform_paper_mode.Common.Texts.{is_blank}
use etf_platform_paper_mode.Reconcile.Operator.{
  Resolution, resolution_prefix, given, or_none, emit_resolved, resolve_record,
}

same_state→eq : (s t : State) → same_state s t ≡ true → s ≡ t
same_state→eq s t h = ground arith

not-false : (b : Bool) → not b ≡ false → b ≡ true
not-false true h = refl
not-false false h = cc

ok_injective : {E A : Type 0} {a b : A} → ◌≡◌ {A = Result E A} (ok a) (ok b) → a ≡ b
ok_injective h = cc

module _ {B : Type 0} (x : Resolution) where
  abbrev last : Action B ExecutionRecord
  last = emit_resolved x >> gets (λ w. w.current)

  abbrev noted : Action B ExecutionRecord
  noted = do
    now ← gets (λ w. w.now)
    change (λ r'. record r' {
      broker_order_id = or_none x.broker_order_id r'.broker_order_id;
      executed_quantity = given x.executed_quantity r'.executed_quantity;
      executed_price = or_none x.executed_price r'.executed_price;
      notes = r'.notes ++ (resolution_prefix ++ x.operator_notes) ∷ [];
      last_status_check = some now;
    })
    save
    last

  noted-status :
      (w : World B) (r : ExecutionRecord)
      → (noted w).0 ≡ ok r
      → r.order_status ≡ w.current.order_status
  noted-status w r h =
      let (_, w', saved, h') =
        >>=-inv save (λ _. last)
          (record w {
            current = record (w.current) {
              broker_order_id = or_none x.broker_order_id w.current.broker_order_id;
              executed_quantity = given x.executed_quantity w.current.executed_quantity;
              executed_price = or_none x.executed_price w.current.executed_price;
              notes = w.current.notes ++ (resolution_prefix ++ x.operator_notes) ∷ [];
              last_status_check = some w.now;
            };
          })
          r h in
      let returned : w'.current ≡ r = ok_injective h' in
      ap (λ q. q.order_status) (sym returned) ∙ sym (ap (λ p. p.1.current.order_status) saved)

  allowed :
      (c : Bool) (w w' : World B)
      → raise_if c execution_manager w ≡ (ok tt, w')
      → (c ≡ false) × (w ≡ w')
  allowed true w w' h = ground arith
  allowed false w w' h = (refl, ap (λ p. p.1) h)

  moved :
      (s : State) (w w' : World B)
      → transition s w ≡ (ok tt, w')
      → (w.current.order_status ⟶ s) × (w'.current.order_status ≡ s)
  moved s w w' h = elim (Result-cases (validate_transition w.current.order_status s)) [
    | inl (_, e) ↦ (
      e,
      ap (λ p. p.1.current.order_status) (sym h ∙ transition_lem w.current.order_status s w refl e),
    )
    | inr (y, e) ↦
        absurd (raised_not_ok (sym (ap (λ p. p.0) (not_moved s y w e)) ∙ ap (λ p. p.0) h))
  ]

-- A resolution that returns a record was of an AMBIGUOUS one, with notes that are not blank, to a
-- state that the lifecycle allows from there; the returned record has that state.
pub resolve_record-guarded :
    {B : Type 0} (x : Resolution) (r r' : ExecutionRecord) (w : World B)
    → (resolve_record x r w).0 ≡ ok r'
    → (r.order_status ≡ ambiguous)
      × (is_blank x.operator_notes ≡ false)
      × (ambiguous ⟶ x.confirmed_state)
      × (r'.order_status ≡ x.confirmed_state)
unfolding resolve_record
resolve_record-guarded x r r' w h =
    let w0 = record w { current = r } in
    let (_, w1, e1, h1) =
      >>=-inv (raise_if (not (same_state r.order_status ambiguous)) execution_manager)
        (λ _.
          raise_if (is_blank x.operator_notes) execution_manager
          >> (transition x.confirmed_state >> noted x))
        w0 r' h in
    let (is_ambiguous, same1) = allowed x (not (same_state r.order_status ambiguous)) w0 w1 e1 in
    let (_, w2, e2, h2) =
      >>=-inv (raise_if (is_blank x.operator_notes) execution_manager)
        (λ _. transition x.confirmed_state >> noted x) w1 r' h1 in
    let (explained, same2) = allowed x (is_blank x.operator_notes) w1 w2 e2 in
    let (_, w3, e3, h3) = >>=-inv (transition x.confirmed_state) (λ _. noted x) w2 r' h2 in
    let (goes, reached) = moved x x.confirmed_state w2 w3 e3 in
    let was : r.order_status ≡ ambiguous =
      same_state→eq r.order_status ambiguous
        (not-false (same_state r.order_status ambiguous) is_ambiguous) in
    let before : w2.current.order_status ≡ ambiguous =
      sym (ap (λ v. v.current.order_status) (same1 ∙ same2)) ∙ was in
    (was, explained, rw (← before) goes, noted-status x w3 r' h3 ∙ reached)
