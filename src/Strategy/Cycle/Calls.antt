-- ===== src/Strategy/Cycle/Calls.antt =====
-- Sequences of daily cycles and confirmations, as a scheduler makes them, failed ones included.
use etf_platform_paper_mode.Common.{
  ℕ, ◌≡◌, ◌≤◌, Bool, Option, none, some, List, [], ◌∷◌, inl, refl, sym, ◌∙◌, ap, subst, arith,
  Result, ok, lift, ◌>>=◌, >>=-after, >>=-inv,
}
use etf_platform_paper_mode.Time.Calendar.{month_of}
use etf_platform_paper_mode.Strategy.{StrategyError, Command, StrategyState, CycleResult}
use etf_platform_paper_mode.Strategy.Orders.{StrategyEngine}
use etf_platform_paper_mode.Strategy.Funding.{Policy, Decision, run_cycle, mark_cycle_complete}
use etf_platform_paper_mode.Strategy.Funding.Decisions.{Decided, run_cycle-Decided}
use etf_platform_paper_mode.Strategy.States.{load_state, load_state-row}
use etf_platform_paper_mode.Strategy.Cycle.{
  World, Ports, Inputs, Cycle, load, emit_stage, apply_pending_commands, carry_out, decide,
  run_daily_cycle, confirm_with, confirm_cycle_outcome, funding_before, cycle_started,
}
use etf_platform_paper_mode.Strategy.Cycle.Reminders.{
  reminders, Once, Once-later, emit-Once, save-Once,
}
use etf_platform_paper_mode.Strategy.Cycle.Months.{carry_out-Once, Decided-Follows}

-- What a decision was made of.
pub decide-inv :
    (policy : Policy) (ports : Ports) (inputs : Inputs) (state : Option StrategyState)
    (d : Decision) (w : World)
    → (decide policy ports inputs state w).0 ≡ ok d
    → (commands : List Command) × Decided inputs.as_of_date
        (apply_pending_commands inputs.as_of_date commands state)
        ports.get_available_pool
        (ok d)
unfolding decide
decide-inv policy ports inputs state d w h =
    let date = inputs.as_of_date in
    let run : List Command → Cycle Decision = λ commands. lift (
      run_cycle policy date (apply_pending_commands date commands state)
        ports.get_available_pool) in
    let (commands, _, _, made) = >>=-inv (lift ports.poll_commands) run w d h in
    let decided =
      run_cycle-Decided policy date (apply_pending_commands date commands state)
        ports.get_available_pool in
    (
      commands,
      subst (Decided date (apply_pending_commands date commands state) ports.get_available_pool)
          made decided,
    )

-- Deciding only reads.
decide_reads :
    (policy : Policy) (ports : Ports) (inputs : Inputs) (state : Option StrategyState) (w : World)
    → (decide policy ports inputs state w).1 ≡ w
unfolding decide
decide_reads policy ports inputs state w =
    >>=-after (λ w'. w' ≡ w) (lift ports.poll_commands)
      (λ commands. lift (
        run_cycle policy inputs.as_of_date (apply_pending_commands inputs.as_of_date commands state)
          ports.get_available_pool))
      w (λ _ _. refl) (λ _ _. refl)

-- A cycle keeps the reminders in order, on a day of the last month or a later one.
run_daily_cycle-Once :
    (engine : StrategyEngine) (policy : Policy) (ports : Ports) (inputs : Inputs) (w : World)
    → Once (month_of inputs.as_of_date) w
    → Once (month_of inputs.as_of_date) (run_daily_cycle engine policy ports inputs w).1
unfolding run_daily_cycle load
run_daily_cycle-Once engine policy ports inputs w once =
    let month = month_of inputs.as_of_date in
    let carried : Option StrategyState → Decision → Cycle CycleResult =
      λ state d. carry_out engine ports inputs (funding_before state) d in
    let deciding : Option StrategyState → Cycle CycleResult =
      λ state. decide policy ports inputs state >>= carried state in
    let loading : Cycle CycleResult = load >>= deciding in
    let w1 = (emit_stage ports cycle_started w).1 in
    let once1 = emit-Once month ports cycle_started w once in
    let decided : (state : Option StrategyState)
        → load_state w1.stored ≡ ok state
        → Once month (deciding state w1).1 =
      λ state loaded.
        let same = decide_reads policy ports inputs state w1 in
        >>=-after (Once month) (decide policy ports inputs state) (carried state) w1
          (λ d made.
            let (commands, from) = decide-inv policy ports inputs state d w1 made in
            let follows =
              Decided-Follows inputs.as_of_date commands state ports.get_available_pool d w1 loaded
                from in
            subst (λ w. Once month (carried state d w).1) (sym same)
              (carry_out-Once month engine ports inputs (funding_before state) d w1 once1 follows))
          (λ _ _. subst (Once month) (sym same) once1) in
    >>=-after (Once month) (emit_stage ports cycle_started) (λ _. loading) w
      (λ _ _. >>=-after (Once month) load deciding w1 decided (λ _ _. once1)) (λ _ _. once1)

same_loaded :
    (s r : StrategyState)
    → Path (Result StrategyError (Option StrategyState)) (ok (some s)) (ok (some r))
    → s ≡ r
same_loaded s r h = cc

confirm-Once :
    (month : ℕ) (submitted : Bool) (w : World)
    → Once month w
    → Once month (confirm_cycle_outcome submitted w).1
unfolding confirm_cycle_outcome load mark_cycle_complete
confirm-Once month submitted w once =
    >>=-after (Once month) load (confirm_with submitted) w with_state (λ _ _. once)
  where
    with_state :
        (state : Option StrategyState)
        → load_state w.stored ≡ ok state
        → Once month (confirm_with submitted state w).1
    with_state none loaded = once
    with_state (some s) loaded =
        save-Once month (mark_cycle_complete s submitted) w
          (λ (r, row, own, sent).
            let found = same_loaded s r (sym loaded ∙ (ap load_state row ∙ load_state-row r)) in
            (
              ap (λ s. s.current_month) found ∙ own,
              ap (λ s. s.reminder_sent_this_month) found ∙ sent,
            ))
          once

-- What a scheduler calls.
pub data Call : Type 0 where
  daily : Policy → Ports → Inputs → Call
  confirmed : (submitted_successfully : Bool) → Call

abbrev pub call : StrategyEngine → Call → World → World
call engine (daily policy ports inputs) w = (run_daily_cycle engine policy ports inputs w).1
call engine (confirmed submitted) w = (confirm_cycle_outcome submitted w).1

abbrev pub run_calls : StrategyEngine → List Call → World → World
run_calls engine [] w = w
run_calls engine (c ∷ calls) w = run_calls engine calls (call engine c w)

-- No cycle is of an earlier month than the one before.
abbrev pub Dated : (month : ℕ) → List Call → Type 0
Dated month [] = Unit
Dated month (daily policy ports inputs ∷ calls) =
    (month ≤ month_of inputs.as_of_date) × Dated (month_of inputs.as_of_date) calls
Dated month (confirmed submitted ∷ calls) = Dated month calls

abbrev pub new_world : World
new_world = record { stored = none; effects = [] }

calls-most :
    (engine : StrategyEngine) (calls : List Call) (month : ℕ) (w : World)
    → Dated month calls
    → Once month w
    → (m : ℕ) → reminders m (run_calls engine calls w).effects ≤ 1
calls-most engine [] month w dated (_, _, most, _) m = most m
calls-most engine (daily policy ports inputs ∷ calls) month w (le, dated) once m =
    let here = month_of inputs.as_of_date in
    let w' = (run_daily_cycle engine policy ports inputs w).1 in
    calls-most engine calls here w' dated
      (run_daily_cycle-Once engine policy ports inputs w (Once-later month here w le once)) m
calls-most engine (confirmed submitted ∷ calls) month w dated once m =
    calls-most engine calls month (confirm_cycle_outcome submitted w).1 dated
      (confirm-Once month submitted w once) m

-- In any sequence of daily cycles, each of the month of the one before or a later one, and of
-- confirmations, with any policies, ports, commands and data, from an empty store: whatever the
-- ports raise on the way, at most one reminder is sent for a month.
pub one_reminder_a_month :
    (engine : StrategyEngine) (calls : List Call) (month : ℕ)
    → Dated 0 calls
    → reminders month (run_calls engine calls new_world).effects ≤ 1
one_reminder_a_month engine calls month dated =
    calls-most engine calls 0 new_world dated
      (inl refl, (λ m h. refl), (λ m. omega arith), λ h. absurd (omega arith)) month
