-- ===== src/Strategy/Cycle/Reminders.antt =====
-- A month gets one reminder at most, whatever fails on the way.
use etf_platform_paper_mode.Common.{
  ℕ, ◌+◌, ◌≡◌, ◌<◌, ◌≤◌, ◌⊎◌, ◌==◌, true, Option, none, some, List, [], ◌∷◌, inl, inr, refl, sym,
  ◌∙◌, ap, subst, if◌then◌else◌, ==→eq, arith, Bool-cases, Option-cases,
}
use etf_platform_paper_mode.Time.Calendar.{month_of}
use etf_platform_paper_mode.Strategy.{StrategyState}
use etf_platform_paper_mode.Strategy.Funding.{Decision}
use etf_platform_paper_mode.Strategy.States.{
  row_of_state, load_state, load_state-row, save_state-row,
}
use etf_platform_paper_mode.Strategy.Cycle.{
  Stage, Effect, emitted, contribution_expected, reminded, World, Ports, perform, save, emit_stage,
  expect_contribution, remind,
}

abbrev pub counts_for : (month : ℕ) → Effect → ℕ
counts_for month (reminded date) = if month_of date == month then 1 else 0
counts_for month _ = 0

-- How often the messages of a month were sent.
abbrev pub reminders : (month : ℕ) → List Effect → ℕ
reminders month [] = 0
reminders month (effect ∷ effects) = counts_for month effect + reminders month effects

-- The stored state notes the reminder of the month.
abbrev pub Notes : (month : ℕ) → World → Type 0
Notes month w =
    (s : StrategyState) × (w.stored ≡ some (row_of_state s))
    × (s.current_month ≡ month)
    × (s.reminder_sent_this_month ≡ true)

-- The stored row is one that was saved.
abbrev pub IsStored : World → Type 0
IsStored w = (w.stored ≡ none) ⊎ ((s : StrategyState) × (w.stored ≡ some (row_of_state s)))

-- No later month has a reminder, none has two, and a reminder of this month is noted.
abbrev pub Once : (month : ℕ) → World → Type 0
Once month w =
    IsStored w
    × ((m : ℕ) → month < m → reminders m w.effects ≡ 0)
    × ((m : ℕ) → reminders m w.effects ≤ 1)
    × (0 < reminders month w.effects → Notes month w)

pub Once-later : (month next : ℕ) (w : World) → month ≤ next → Once month w → Once next w
Once-later month next w le (stored, later, most, noted) = (
  stored,
  (λ m h. later m (omega arith)),
  most,
  λ some_sent. elim (Bool-cases (month == next)) [
    | inl t ↦
        let same = ==→eq month next t in
        subst (λ m. Notes m w) same
          (noted (subst (λ m. 0 < reminders m w.effects) (sym same) some_sent))
    | inr t ↦ let none_yet = later next (ground arith) in absurd (omega arith)
  ],
)

-- An effect that is no reminder changes none of this.
Once-other :
    (month : ℕ) (w : World) (effect : Effect)
    → ((m : ℕ) → counts_for m effect ≡ 0)
    → Once month w
    → Once month (record w { effects = effect ∷ w.effects })
Once-other month w effect quiet (stored, later, most, noted) = (
  stored,
  (λ m h. let a = later m h in let b = quiet m in omega arith),
  (λ m. let a = most m in let b = quiet m in omega arith),
  λ some_sent. let b = quiet month in noted (omega arith),
)

pub emit-Once :
    (month : ℕ) (ports : Ports) (stage : Stage) (w : World)
    → Once month w
    → Once month (emit_stage ports stage w).1
unfolding perform
emit-Once month ports stage w h = elim (Option-cases ports.emit) [
  | inl e ↦ rw (emit_stage, e) h
  | inr (emit, e) ↦ rw (emit_stage, e) (Once-other month w (emitted stage) (λ m. refl) h)
]

expect-Once :
    (month : ℕ) (ports : Ports) (date : Option ℕ) (w : World)
    → Once month w
    → Once month (expect_contribution ports date w).1
unfolding perform
expect-Once month ports none w h = h
expect-Once month ports (some date) w h =
    Once-other month w (contribution_expected date) (λ m. refl) h

-- A state of the month is saved that notes no less.
pub save-Once :
    (month : ℕ) (s : StrategyState) (w : World)
    → (Notes month w → (s.current_month ≡ month) × (s.reminder_sent_this_month ≡ true))
    → Once month w
    → Once month (save s w).1
unfolding save
save-Once month s w no_less (stored, later, most, noted) = (
  inr (s, ap some (save_state-row s w.stored)),
  (λ m h. let a = later m h in omega arith),
  (λ m. let a = most m in omega arith),
  λ some_sent.
      let (own, sent) = no_less (noted (omega arith)) in
      (s, ap some (save_state-row s w.stored), own, sent),
)

-- A saved row is that of one state.
pub one_stored :
    (r s : StrategyState) (w : World)
    → w.stored ≡ some (row_of_state r)
    → w.stored ≡ some (row_of_state s)
    → r ≡ s
one_stored r s w h k =
    let loaded = sym (load_state-row r) ∙ (ap load_state (sym h ∙ k) ∙ load_state-row s) in
    cc loaded

-- The decision that a cycle carries out, seen from the world it was made in.
abbrev pub RemindsNow : (month : ℕ) → World → StrategyState → Option ℕ → Type 0
RemindsNow month w s none = Unit
RemindsNow month w s (some date) =
    (month_of date ≡ month)
    × ¬ Notes month w
    × (s.current_month ≡ month)
    × (s.reminder_sent_this_month ≡ true)

abbrev pub Follows : (month : ℕ) → World → Decision → Type 0
Follows month w d =
    (Notes month w → (d.state.current_month ≡ month) × (d.state.reminder_sent_this_month ≡ true))
    × RemindsNow month w d.state d.effects.reminder_message

abbrev pub Due : (month : ℕ) → StrategyState → World → Option ℕ → Type 0
Due month s w none = Unit
Due month s w (some date) =
    (month_of date ≡ month)
    × (reminders month w.effects ≡ 0)
    × (s.current_month ≡ month)
    × (s.reminder_sent_this_month ≡ true)

-- The state was saved, and a reminder that is due was not sent before.
abbrev pub Ready : (month : ℕ) → StrategyState → Option ℕ → World → Type 0
Ready month s due w = Once month w × (w.stored ≡ some (row_of_state s)) × Due month s w due

pub save-Ready :
    (month : ℕ) (d : Decision) (w : World)
    → Once month w
    → Follows month w d
    → Ready month d.state d.effects.reminder_message (save d.state w).1
unfolding save
save-Ready month d w once (no_less, now) = (
  save-Once month d.state w no_less once,
  ap some (save_state-row d.state w.stored),
  due d.effects.reminder_message now,
)
  where
    due :
        (message : Option ℕ)
        → RemindsNow month w d.state message
        → Due month d.state (save d.state w).1 message
    due none h = tt
    due (some date) (today, fresh, own, sent) =
        let (_, _, most, noted) = once in
        let at_most = most month in
        (
          today,
          elim (Bool-cases (reminders month w.effects == 0)) [
            | inl t ↦ let z = ==→eq _ _ t in omega arith
            | inr t ↦ absurd (fresh (noted (ground arith)))
          ],
          own,
          sent,
        )

pub expect-Ready :
    (month : ℕ) (ports : Ports) (s : StrategyState) (due date : Option ℕ) (w : World)
    → Ready month s due w
    → Ready month s due (expect_contribution ports date w).1
unfolding perform
expect-Ready month ports s due none w h = h
expect-Ready month ports s none (some date) w (once, stored, h) =
    (Once-other month w (contribution_expected date) (λ m. refl) once, stored, tt)
expect-Ready month ports s (some due) (some date) w (once, stored, (today, zero_yet, own, sent)) = (
  Once-other month w (contribution_expected date) (λ m. refl) once,
  stored,
  (today, omega arith, own, sent),
)

pub remind-Once :
    (month : ℕ) (ports : Ports) (s : StrategyState) (due : Option ℕ) (w : World)
    → Ready month s due w
    → Once month (remind ports due w).1 × ((remind ports due w).1.stored ≡ some (row_of_state s))
unfolding perform
remind-Once month ports s none w (once, stored, h) = (once, stored)
remind-Once month ports s (some date) w
      ((_, later, most, noted), stored, (today, zero_yet, own, sent)) =
    (
      (
        inr (s, stored),
        (λ m h. let a = later m h in ground arith),
        (λ m. at_most_one m (most m)),
        λ some_sent. (s, stored, own, sent),
      ),
      stored,
    )
  where
    at_most_one : (m : ℕ) → reminders m w.effects ≤ 1 → reminders m (reminded date ∷ w.effects) ≤ 1
    at_most_one m h = elim (Bool-cases (month_of date == m)) [
      | inl t ↦
          let here : m ≡ month = sym (==→eq _ _ t) ∙ today in
          let none_here = ap (λ k. reminders k w.effects) here in rw t (omega arith)
      | inr t ↦ rw t (omega arith)
    ]
