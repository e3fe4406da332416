-- ===== src/Strategy/States.antt =====
-- The state store: src/etf_platform/strategy_engine/state_store.py, a table of one row. A date's text is
-- numbered by the date.
use etf_platform_paper_mode.Common.{
  ℕ, ◌≡◌, ◌==◌, Bool, true, false, not, Option, none, some, Result, ok, raised, if◌then◌else◌, refl,
  ap, ◌∙◌,
}
use etf_platform_paper_mode.Strategy.{
  StrategyError, value_error, FundingState, awaiting_funds, executing, idle, StrategyState,
}

-- The columns; a truth value is an integer, and a funding state the text of its value, numbered.
pub record StateRow : Type 0 where
  pub current_month : ℕ
  pub funding_state : ℕ
  pub reminder_sent_this_month : ℕ
  pub last_check_date : Option ℕ
  pub paused : ℕ
  pub discontinued : ℕ

abbrev pub int_of : Bool → ℕ
int_of true = 1
int_of false = 0

abbrev pub bool_of : ℕ → Bool
bool_of n = not (n == 0)

abbrev pub value_of : FundingState → ℕ
value_of awaiting_funds = 0
value_of executing = 1
value_of idle = 2

-- `FundingState(value)`
abbrev pub funding_state_of : ℕ → Result StrategyError FundingState
funding_state_of n =
    if n == 0
    then ok awaiting_funds
    else if n == 1
    then ok executing
    else if n == 2
    then ok idle
    else raised value_error

-- The row of a state, as it is inserted.
unfoldable pub row_of_state : StrategyState → StateRow
row_of_state s = record {
  current_month = s.current_month;
  funding_state = value_of s.funding_state;
  reminder_sent_this_month = int_of s.reminder_sent_this_month;
  last_check_date = s.last_check_date;
  paused = int_of s.paused;
  discontinued = int_of s.discontinued;
}

-- `ON CONFLICT(id) DO UPDATE SET`, column by column, of the row that is there.
abbrev pub update_row : (excluded : StateRow) → StateRow → StateRow
update_row excluded row = record row {
  current_month = excluded.current_month;
  funding_state = excluded.funding_state;
  reminder_sent_this_month = excluded.reminder_sent_this_month;
  last_check_date = excluded.last_check_date;
  paused = excluded.paused;
  discontinued = excluded.discontinued;
}

-- `save`: the row after it, by the row before.
unfoldable pub save_state : StrategyState → Option StateRow → StateRow
save_state s none = row_of_state s
save_state s (some row) = update_row (row_of_state s) row

abbrev pub state_of :
    StateRow → Result StrategyError FundingState → Result StrategyError (Option StrategyState)
state_of row (raised e) = raised e
state_of row (ok funding) = ok (
    some (record {
      current_month = row.current_month;
      funding_state = funding;
      reminder_sent_this_month = bool_of row.reminder_sent_this_month;
      last_check_date = row.last_check_date;
      paused = bool_of row.paused;
      discontinued = bool_of row.discontinued;
    }))

unfoldable pub load_state : Option StateRow → Result StrategyError (Option StrategyState)
load_state none = ok none
load_state (some row) = state_of row (funding_state_of row.funding_state)

bool_int : (b : Bool) → bool_of (int_of b) ≡ b
bool_int true = refl
bool_int false = refl

funding_value : (f : FundingState) → funding_state_of (value_of f) ≡ ok f
funding_value awaiting_funds = refl
funding_value executing = refl
funding_value idle = refl

pub save_state-row :
    (s : StrategyState) (stored : Option StateRow) → save_state s stored ≡ row_of_state s
unfolding save_state
save_state-row s none = refl
save_state-row s (some row) = refl

pub load_state-row : (s : StrategyState) → load_state (some (row_of_state s)) ≡ ok (some s)
unfolding load_state row_of_state
load_state-row s =
    rw
      (
        funding_value s.funding_state,
        bool_int s.reminder_sent_this_month,
        bool_int s.paused,
        bool_int s.discontinued,
      )
      refl

-- A state that is saved in an empty table, or over any row, is loaded as it was.
pub load_state-save_state :
    (s : StrategyState) (stored : Option StateRow)
    → load_state (some (save_state s stored)) ≡ ok (some s)
load_state-save_state s stored =
    ap (λ row. load_state (some row)) (save_state-row s stored) ∙ load_state-row s
