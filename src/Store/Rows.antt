-- ===== src/Store/Rows.antt =====
-- Saving and loading execution records with persistence.py.
use etf_platform_paper_mode.Common.{ℕ, ◌≡◌, ◌≢◌, Option, none, some, [], ok, refl, arith}
use etf_platform_paper_mode.Common.Dict.{lookup, insert, lookup-insert, lookup-insert_self}
use etf_platform_paper_mode.Record.{ExecutionRecord}
use etf_platform_paper_mode.Time.{Datetime, naive, aware, utc, astimezone, require_aware}
use etf_platform_paper_mode.Store.{
  Store, Row, join_notes, load_notes, row_of, upsert, updated, save_execution_record, row_to_record,
  load_execution_record,
}

-- The same moment, read in UTC.
abbrev pub in_utc : Datetime → Datetime
in_utc (naive wall) = naive wall
in_utc (aware wall offset) = astimezone wall offset utc

abbrev pub in_utc? : Option Datetime → Option Datetime
in_utc? none = none
in_utc? (some dt) = some (in_utc dt)

abbrev pub IsAware : Datetime → Type 0
IsAware (naive _) = ⊥
IsAware (aware _ _) = Unit

abbrev pub IsAware? : Option Datetime → Type 0
IsAware? none = Unit
IsAware? (some dt) = IsAware dt

-- What a record is after it has been stored and loaded again.
abbrev pub reloaded : ExecutionRecord → ExecutionRecord
reloaded r = record r {
  created_at = in_utc r.created_at;
  last_status_check = in_utc? r.last_status_check;
  notes = load_notes (join_notes r.notes);
}

-- The columns that a later save of the same execution does not change.
pub record SameOrder (r q : ExecutionRecord) : Type 0 where
  pub same_id : r.execution_id ≡ q.execution_id
  pub same_queue : r.queue_id ≡ q.queue_id
  pub same_cycle : r.cycle_id ≡ q.cycle_id
  pub same_symbol : r.symbol ≡ q.symbol
  pub same_proposed : r.quantity_proposed ≡ q.quantity_proposed
  pub same_price : r.limit_price ≡ q.limit_price
  pub same_paper : r.is_paper_trade ≡ q.is_paper_trade
  pub same_created : r.created_at ≡ q.created_at
  pub same_rank : r.priority_rank ≡ q.priority_rank

row_to_record-row_of :
    (r : ExecutionRecord)
    → IsAware r.created_at
    → IsAware? r.last_status_check
    → row_to_record (row_of r) ≡ ok (reloaded r)
unfolding row_to_record
row_to_record-row_of r a b = ground arith

updated-row_of :
    (old : Row) (r : ExecutionRecord)
    → SameOrder old.columns r
    → old.columns.notes ≡ []
    → updated old (row_of r) ≡ row_of r
updated-row_of old r h n = ground arith

-- A row under the record's id was written for the same order.
abbrev pub Compatible : Option Row → ExecutionRecord → Type 0
Compatible none r = Unit
Compatible (some old) r = SameOrder old.columns r × (old.columns.notes ≡ [])

upsert-row_of :
    (found : Option Row) (r : ExecutionRecord)
    → Compatible found r
    → upsert found (row_of r) ≡ row_of r
upsert-row_of none r h = refl
upsert-row_of (some old) r h = updated-row_of old r h.0 h.1

require_aware-IsAware : (dt : Datetime) → IsAware dt → require_aware dt ≡ ok dt
unfolding require_aware
require_aware-IsAware (naive _) h = absurd h
require_aware-IsAware (aware _ _) h = refl

pub save_lem :
    (r : ExecutionRecord) (s : Store)
    → IsAware r.created_at
    → Compatible (lookup r.execution_id s.execution_history) r
    → save_execution_record r s ≡ (
      ok tt,
      record s { execution_history = insert r.execution_id (row_of r) s.execution_history },
    )
unfolding save_execution_record
save_lem r s a c = rw (
  require_aware-IsAware r.created_at a,
  upsert-row_of (lookup r.execution_id s.execution_history) r c,
)

-- Saving a record with aware times succeeds; loading its id then gives the record with its times
-- read in UTC and its notes split again, whether it was new or an older row of the same order was
-- overwritten. Other rows and all claims stay.
pub load-save :
    (r : ExecutionRecord) (s : Store)
    → IsAware r.created_at
    → IsAware? r.last_status_check
    → Compatible (lookup r.execution_id s.execution_history) r
    → let (outcome, s') = save_execution_record r s in
      (outcome ≡ ok tt)
      × (load_execution_record r.execution_id s' ≡ (ok (some (reloaded r)), s'))
      × ((other : ℕ)
          → other ≢ r.execution_id
          → lookup other s'.execution_history ≡ lookup other s.execution_history)
      × (s'.cycle_claims ≡ s.cycle_claims)
unfolding load_execution_record
load-save r s a b c = rw (save_lem r s a c) (
  refl,
  rw (lookup-insert_self, row_to_record-row_of r a b),
  (λ other ne. ground (arith, lookup-insert r.execution_id other (row_of r) s.execution_history)),
  refl,
)
