-- ===== src/Store.antt =====
-- The SQLite store of src/etf_platform/execution_manager/persistence.py: the tables
-- `execution_history` and `cycle_claims`. A row holds the record's columns; the notes are one text,
-- joined by "|". The ISO texts of datetimes and of the enum's values are the values themselves. A
-- statement is one transaction, so an operation either changes the tables as a whole or raises.
pub mod Notes
pub mod Rows
pub mod Claims
mod Tests
use etf_platform_paper_mode.Common.{
  ℕ, ◌-◌, ◌==◌, Bool, true, false, not, Option, none, some, List, [], ◌∷◌, ◌++◌, Result, ok, raised,
  Exec, pure, lift, gets, ◌>>=◌, ◌>>◌, modify, raise_if, leb, ltb, if◌then◌else◌, keep,
}
use etf_platform_paper_mode.Common.Dict.{Dict, lookup, insert, erase, values}
use etf_platform_paper_mode.Events.{Text}
use etf_platform_paper_mode.Lifecycle.{State, reconciled, Error, concurrent_invocation, same_state}
use etf_platform_paper_mode.Record.{ExecutionRecord}
use etf_platform_paper_mode.Time.{Datetime, require_aware, to_utc}

abbrev pub pipe : ℕ
pipe = b'|'

-- `"|".join(notes)`
unfoldable pub join_notes : List Text → Text
join_notes [] = []
join_notes (t ∷ []) = t
join_notes (t ∷ (u ∷ ts)) = t ++ (pipe ∷ join_notes (u ∷ ts))

abbrev pub extend_first : ℕ → List Text → List Text
extend_first c [] = (c ∷ []) ∷ []
extend_first c (t ∷ ts) = (c ∷ t) ∷ ts

-- `text.split("|")`
unfoldable pub split_notes : Text → List Text
split_notes [] = [] ∷ []
split_notes (c ∷ cs) =
    let rest = split_notes cs in if c == pipe then [] ∷ rest else extend_first c rest

-- `tuple(text.split("|")) if text else ()`
unfoldable pub load_notes : Text → List Text
unfolding split_notes
load_notes [] = []
load_notes (c ∷ cs) = split_notes (c ∷ cs)

-- A row of `execution_history`: the record with its notes as one text in place of a tuple.
pub record Row : Type 0 where
  pub columns : ExecutionRecord
  pub notes_text : Text

pub record Claim : Type 0 where
  pub claimed_at : ℕ
  pub claimed_by : ℕ

-- `execution_history` by execution_id and `cycle_claims` by cycle_id.
pub record Store : Type 0 where
  pub execution_history : Dict Row
  pub cycle_claims : Dict Claim

abbrev pub row_of : ExecutionRecord → Row
row_of r = record { columns = record r { notes = [] }; notes_text = join_notes r.notes }

-- `ON CONFLICT(execution_id) DO UPDATE SET …`: seven columns are taken anew.
abbrev pub updated : Row → Row → Row
updated old excluded = record {
  columns = record (old.columns) {
    quantity_final = excluded.columns.quantity_final;
    order_status = excluded.columns.order_status;
    broker_order_id = excluded.columns.broker_order_id;
    executed_price = excluded.columns.executed_price;
    executed_quantity = excluded.columns.executed_quantity;
    last_status_check = excluded.columns.last_status_check;
  };
  notes_text = excluded.notes_text;
}

abbrev pub upsert : Option Row → Row → Row
upsert none excluded = excluded
upsert (some old) excluded = updated old excluded

abbrev pub save_row : Row → Store → Store
save_row row s =
    let id = row.columns.execution_id in
    record s {
      execution_history =
          insert id (upsert (lookup id s.execution_history) row) s.execution_history;
    }

unfoldable pub save_execution_record : ExecutionRecord → Exec Error Store (Unit {0})
unfolding require_aware join_notes
save_execution_record r = lift (require_aware r.created_at) >>= λ _. modify (save_row (row_of r))

utc_option : Option Datetime → Result Error (Option Datetime)
unfolding to_utc
utc_option none = ok none
utc_option (some dt) = elim (to_utc dt) [ ok d ↦ ok (some d) | raised e ↦ raised e ]

-- `_row_to_execution_record`
unfoldable pub row_to_record : Row → Result Error ExecutionRecord
unfolding to_utc utc_option load_notes
row_to_record row = elim (to_utc row.columns.created_at) [
  | raised e ↦ raised e
  | ok created ↦ elim (utc_option row.columns.last_status_check) [
    | raised e ↦ raised e
    | ok checked ↦ ok (record (row.columns) {
      created_at = created;
      last_status_check = checked;
      notes = load_notes row.notes_text;
    })
  ]
]

abbrev pub option_record : Option Row → Result Error (Option ExecutionRecord)
option_record none = ok none
option_record (some row) = elim (row_to_record row) [ ok r ↦ ok (some r) | raised e ↦ raised e ]

unfoldable pub load_execution_record : ℕ → Exec Error Store (Option ExecutionRecord)
unfolding row_to_record
load_execution_record id s = (option_record (lookup id s.execution_history), s)

-- A list comprehension over rows.
abbrev pub records_of : List Row → Result Error (List ExecutionRecord)
records_of [] = ok []
records_of (row ∷ rows) =
    let rest = records_of rows in
    elim (row_to_record row) [
      | raised e ↦ raised e
      | ok r ↦ elim rest [ ok rs ↦ ok (r ∷ rs) | raised e ↦ raised e ]
    ]

-- `ORDER BY priority_rank ASC`
abbrev pub insert_by_rank : Row → List Row → List Row
insert_by_rank row [] = row ∷ []
insert_by_rank row (x ∷ xs) =
    if leb row.columns.priority_rank x.columns.priority_rank
    then row ∷ (x ∷ xs)
    else x ∷ insert_by_rank row xs

abbrev pub by_rank : List Row → List Row
by_rank [] = []
by_rank (row ∷ rows) = insert_by_rank row (by_rank rows)

unfoldable pub load_records_for_cycle : ℕ → Exec Error Store (List ExecutionRecord)
unfolding row_to_record
load_records_for_cycle cycle s = (
  records_of (by_rank (keep (λ row. row.columns.cycle_id == cycle) (values s.execution_history))),
  s,
)

unfoldable pub load_unresolved_records : Exec Error Store (List ExecutionRecord)
unfolding row_to_record
load_unresolved_records s = (
  records_of (
      keep (λ row. not (same_state row.columns.order_status reconciled))
        (values s.execution_history)),
  s,
)

unfoldable pub load_reconciled_records : Exec Error Store (List ExecutionRecord)
unfolding row_to_record
load_reconciled_records s = (
  records_of
      (keep (λ row. same_state row.columns.order_status reconciled) (values s.execution_history)),
  s,
)

-- A claim of the given age or more is stale; the clock `now` counts seconds and does not go back.
abbrev pub is_fresh : (now max_age : ℕ) → Claim → Bool
is_fresh now max_age claim = ltb (now - claim.claimed_at) max_age

abbrev pub holds_fresh : (now max_age : ℕ) → Option Claim → Bool
holds_fresh now max_age none = false
holds_fresh now max_age (some claim) = is_fresh now max_age claim

abbrev write_claim : ℕ → Claim → Store → Store
write_claim cycle claim s = record s {
  cycle_claims = insert cycle claim (erase cycle s.cycle_claims);
}

unfoldable pub claim_cycle : (now max_age cycle claimed_by : ℕ) → Exec Error Store (Unit {0})
claim_cycle now max_age cycle claimed_by = do
  existing ← gets (λ s. lookup cycle s.cycle_claims)
  raise_if (holds_fresh now max_age existing) concurrent_invocation
  modify (write_claim cycle (record { claimed_at = now; claimed_by = claimed_by }))

unfoldable pub release_cycle : ℕ → Exec Error Store (Unit {0})
release_cycle cycle = modify λ s. record s { cycle_claims = erase cycle s.cycle_claims }

unfoldable pub is_claimed : (now max_age cycle : ℕ) → Store → Bool
is_claimed now max_age cycle s = holds_fresh now max_age (lookup cycle s.cycle_claims)
