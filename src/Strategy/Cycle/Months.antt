-- ===== src/Strategy/Cycle/Months.antt =====
-- Daily cycles and confirmations over the months, failed ones included.
use etf_platform_paper_mode.Common.{
  ℕ, ◌≡◌, Bool, true, false, Option, none, some, List, [], ◌∷◌, inl, inr, refl, sym, ◌∙◌, ap, subst,
  Result, ok, pure, lift, ◌>>=◌, >>=-after,
}
use etf_platform_paper_mode.Time.Calendar.{month_of}
use etf_platform_paper_mode.Strategy.{
  StrategyError, Pool, Command, pause, resume, discontinue, StrategyState, CycleResult,
  FundingState,
}
use etf_platform_paper_mode.Backtest.{OrderIntent}
use etf_platform_paper_mode.Strategy.Orders.{StrategyEngine}
use etf_platform_paper_mode.Strategy.Funding.{Decision, PoolOf, mark_cycle_complete}
use etf_platform_paper_mode.Strategy.Funding.Decisions.{RemindsOnce, Opens, Decided}
use etf_platform_paper_mode.Strategy.States.{row_of_state, load_state, load_state-row}
use etf_platform_paper_mode.Strategy.Cycle.{
  World, Ports, Inputs, Cycle, save, emit_stage, apply_command, apply_commands,
  apply_pending_commands, expect_contribution, remind, Plan, no_proposal, plan_with, plan_on,
  plan_for, propose, carry_out, result_of, cycle_completed,
}
use etf_platform_paper_mode.Strategy.Cycle.Reminders.{
  Notes, Once, emit-Once, save-Once, one_stored, RemindsNow, Follows, save-Ready, expect-Ready,
  remind-Once,
}

completed-Once :
    (month : ℕ) (d : Decision) (w : World)
    → Once month w
    → w.stored ≡ some (row_of_state d.state)
    → Once month (save (mark_cycle_complete d.state false) w).1
unfolding mark_cycle_complete
completed-Once month d w once stored =
    save-Once month (mark_cycle_complete d.state false) w
      (λ (s, row, own, sent).
        let same = one_stored s d.state w row stored in
        (
          ap (λ s. s.current_month) (sym same) ∙ own,
          ap (λ s. s.reminder_sent_this_month) (sym same) ∙ sent,
        ))
      once

plan_with-Once :
    (month : ℕ) (d : Decision) (pool : Pool) (orders : List OrderIntent) (w : World)
    → Once month w
    → w.stored ≡ some (row_of_state d.state)
    → Once month (plan_with d pool orders w).1
plan_with-Once month d pool (order ∷ orders) w once stored = once
plan_with-Once month d pool [] w once stored =
    >>=-after (Once month) (save (mark_cycle_complete d.state false))
      (λ _. pure (no_proposal d pool)) w (λ a e. completed-Once month d w once stored)
      (λ x e. completed-Once month d w once stored)

plan_for-Once :
    (month : ℕ) (engine : StrategyEngine) (inputs : Inputs) (d : Decision) (pool : Option Pool)
    (w : World)
    → Once month w
    → w.stored ≡ some (row_of_state d.state)
    → Once month (plan_for engine inputs d pool w).1
plan_for-Once month engine inputs d none w once stored = once
plan_for-Once month engine inputs d (some pool) w once stored = on inputs.is_trading_day
  where
    on : (is_trading_day : Bool) → Once month (plan_on is_trading_day engine inputs d pool w).1
    on false = once
    on true =
        >>=-after (Once month) (lift (propose engine inputs pool)) (plan_with d pool) w
          (λ orders e. plan_with-Once month d pool orders w once stored) (λ x e. once)

-- A cycle that carries out a decision keeps the months' reminders in order, also one that fails.
pub carry_out-Once :
    (month : ℕ) (engine : StrategyEngine) (ports : Ports) (inputs : Inputs) (before : FundingState)
    (d : Decision) (w : World)
    → Once month w
    → Follows month w d
    → Once month (carry_out engine ports inputs before d w).1
unfolding carry_out
carry_out-Once month engine ports inputs before d w once follows =
    let message = d.effects.reminder_message in
    let expected = d.effects.expected_contribution in
    let finish : Plan → Cycle CycleResult =
      λ plan. emit_stage ports cycle_completed >>= λ _. pure (result_of inputs before plan) in
    let planning : Cycle CycleResult = plan_for engine inputs d d.pool >>= finish in
    let reminding : Cycle CycleResult = remind ports message >>= λ _. planning in
    let expecting : Cycle CycleResult = expect_contribution ports expected >>= λ _. reminding in
    let w1 = (save d.state w).1 in
    let w2 = (expect_contribution ports expected w1).1 in
    let w3 = (remind ports message w2).1 in
    let w4 = (plan_for engine inputs d d.pool w3).1 in
    let ready1 = save-Ready month d w once follows in
    let ready2 = expect-Ready month ports d.state message expected w1 ready1 in
    let (once3, stored3) = remind-Once month ports d.state message w2 ready2 in
    let once4 = plan_for-Once month engine inputs d d.pool w3 once3 stored3 in
    let once5 = emit-Once month ports cycle_completed w4 once4 in
    let done : (plan : Plan) → Once month (finish plan w4).1 = λ plan.
      >>=-after (Once month) (emit_stage ports cycle_completed)
        (λ _. pure (result_of inputs before plan)) w4 (λ _ _. once5) (λ _ _. once5) in
    let planned =
      >>=-after (Once month) (plan_for engine inputs d d.pool) finish w3 (λ plan _. done plan)
        (λ _ _. once4) in
    let sent =
      >>=-after (Once month) (remind ports message) (λ _. planning) w2 (λ _ _. planned)
        (λ _ _. once3) in
    let noticed =
      >>=-after (Once month) (expect_contribution ports expected) (λ _. reminding) w1 (λ _ _. sent)
        (λ _ _. ready2.0) in
    >>=-after (Once month) (save d.state) (λ _. expecting) w (λ _ _. noticed) (λ _ _. ready1.0)

apply_commands-keeps :
    (commands : List Command) (s : StrategyState)
    → ((apply_commands commands s).current_month ≡ s.current_month)
      × ((apply_commands commands s).reminder_sent_this_month ≡ s.reminder_sent_this_month)
apply_commands-keeps [] s = (refl, refl)
apply_commands-keeps (command ∷ commands) s =
    let (month, sent) = apply_commands-keeps commands (apply_command command s) in
    let (month', sent') = one command in (month ∙ month', sent ∙ sent')
  where
    one :
        (command : Command)
        → ((apply_command command s).current_month ≡ s.current_month)
          × ((apply_command command s).reminder_sent_this_month ≡ s.reminder_sent_this_month)
    one pause = (refl, refl)
    one resume = (refl, refl)
    one discontinue = (refl, refl)

commands-keep :
    (date : ℕ) (commands : List Command) (s : StrategyState)
    → (s' : StrategyState) × (apply_pending_commands date commands (some s) ≡ some s')
      × (s'.current_month ≡ s.current_month)
      × (s'.reminder_sent_this_month ≡ s.reminder_sent_this_month)
unfolding apply_pending_commands
commands-keep date [] s = (s, refl, refl, refl)
commands-keep date (command ∷ commands) s =
    let (month, sent) = apply_commands-keeps (command ∷ commands) s in
    (apply_commands (command ∷ commands) s, refl, month, sent)

-- What the stored state notes of today's month, the opened state notes too.
noted-Opens :
    (date : ℕ) (commands : List Command) (state : Option StrategyState) (s : StrategyState)
    (w : World)
    → load_state w.stored ≡ ok state
    → Opens date (apply_pending_commands date commands state) s
    → Notes (month_of date) w
    → (s.current_month ≡ month_of date) × (s.reminder_sent_this_month ≡ true)
noted-Opens date commands state s w loaded opens (r, row, own, sent) =
    let found : state ≡ some r =
      same_option_state state r (sym loaded ∙ (ap load_state row ∙ load_state-row r)) in
    let (r', applied, month, sent') = commands-keep date commands r in
    let before = ap (λ o. apply_pending_commands date commands o) found ∙ applied in
    by (subst (λ o. Opens date o s) before opens) (month ∙ own) (sent' ∙ sent)
  where
    same_option_state :
        (a : Option StrategyState) (r : StrategyState)
        → Path (Result StrategyError (Option StrategyState)) (ok a) (ok (some r))
        → a ≡ some r
    same_option_state a r h = cc

    by :
        {r' : StrategyState}
        → Opens date (some r') s
        → r'.current_month ≡ month_of date
        → r'.reminder_sent_this_month ≡ true
        → (s.current_month ≡ month_of date) × (s.reminder_sent_this_month ≡ true)
    by (inl same) month sent =
        (ap (λ s. s.current_month) same ∙ month, ap (λ s. s.reminder_sent_this_month) same ∙ sent)
    by (inr (other, _)) month sent = absurd (other month)

true_not_false : ¬ (true ≡ false)
true_not_false h = cc

pub Decided-Follows :
    (date : ℕ) (commands : List Command) (state : Option StrategyState) (pool_of : PoolOf)
    (d : Decision) (w : World)
    → load_state w.stored ≡ ok state
    → Decided date (apply_pending_commands date commands state) pool_of (ok d)
    → Follows (month_of date) w d
Decided-Follows date commands state pool_of d w loaded (s, opens, (month, _, _, sent, reminds, _)) =
    (
      (λ noted.
          let (own, was) = noted-Opens date commands state s w loaded opens noted in
          (month ∙ own, sent was)),
      now d.effects.reminder_message reminds,
    )
  where
    now :
        (message : Option ℕ)
        → RemindsOnce date s d.state message
        → RemindsNow (month_of date) w d.state message
    now none h = tt
    now (some r) (today, own, fresh, noted) = (
      ap month_of today,
      (λ before.
          let (_, was) = noted-Opens date commands state s w loaded opens before in
          true_not_false (sym was ∙ fresh)),
      month ∙ own,
      noted,
    )
