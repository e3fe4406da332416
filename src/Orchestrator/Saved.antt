-- ===== src/Orchestrator/Saved.antt =====
-- That orchestrator.py keeps the caller's record and its stored row together.
use etf_platform_paper_mode.Common.{ℕ, List, ◌≡◌, Option, some, ok, raised, refl}
use etf_platform_paper_mode.Common.Dict.{lookup, insert, lookup-insert_self}
use etf_platform_paper_mode.Events.{Text}
use etf_platform_paper_mode.Lifecycle.{State, Error, validate_transition}
use etf_platform_paper_mode.Lifecycle.Graph.{◌⟶◌}
use etf_platform_paper_mode.Record.{ExecutionRecord, transition_to}
use etf_platform_paper_mode.Store.{row_of}
use etf_platform_paper_mode.Store.Rows.{IsAware, SameOrder, save_lem}
use etf_platform_paper_mode.Time.{Datetime}
use etf_platform_paper_mode.World.{World, save, transition}

-- The table has the row that a save of the current record would write.
abbrev pub IsSaved : {B : Type 0} → World B → Type 0
IsSaved w =
    (lookup w.current.execution_id w.store.execution_history ≡ some (row_of w.current))
    × IsAware w.current.created_at

-- The world with the current record written to the table.
abbrev pub written : {B : Type 0} → World B → World B
written w = record w {
  store = record (w.store) {
    execution_history = insert w.current.execution_id (row_of w.current) w.store.execution_history;
  };
}

pub written-IsSaved :
    {B : Type 0} (w : World B) → IsAware w.current.created_at → IsSaved (written w)
written-IsSaved w a =
    (lookup-insert_self w.current.execution_id (row_of w.current) w.store.execution_history, a)

-- The columns of the stored row that a later save leaves alone.
pub same_order :
    (r : ExecutionRecord) (final id : Option ℕ) (s : State) (price : Option ℕ) (executed : ℕ)
    (checked : Option Datetime) (notes : List Text)
    → SameOrder (row_of r).columns (record r {
      quantity_final = final;
      broker_order_id = id;
      order_status = s;
      executed_price = price;
      executed_quantity = executed;
      last_status_check = checked;
      notes = notes;
    })
same_order r final id s price executed checked notes = record {
  same_id = refl;
  same_queue = refl;
  same_cycle = refl;
  same_symbol = refl;
  same_proposed = refl;
  same_price = refl;
  same_paper = refl;
  same_created = refl;
  same_rank = refl;
}

-- A save after the record was changed in columns that a later save takes anew.
pub save-written :
    {B : Type 0} (w : World B) (old : ExecutionRecord)
    → lookup w.current.execution_id w.store.execution_history ≡ some (row_of old)
    → SameOrder (row_of old).columns w.current
    → IsAware w.current.created_at
    → save w ≡ (ok tt, written w)
save-written w old e h a = rw (save_lem w.current w.store a (rw e (h, refl))) refl

transition_to_lem :
    (s t : State) (r : ExecutionRecord)
    → r.order_status ≡ s
    → s ⟶ t
    → transition_to t r ≡ ok (record r { order_status = t })
unfolding transition_to
transition_to_lem s t r e h = rw (transition_to, e, h) refl

abbrev pub with_status : {B : Type 0} → State → World B → World B
with_status s w = record w { current = record (w.current) { order_status = s } }

pub transition_lem :
    {B : Type 0} (s t : State) (w : World B)
    → w.current.order_status ≡ s
    → s ⟶ t
    → transition t w ≡ (ok tt, with_status t w)
transition_lem s t w e h = rw (transition, transition_to_lem s t w.current e h) refl

pub not_moved :
    {B : Type 0} (t : State) (x : Error) (w : World B)
    → validate_transition w.current.order_status t ≡ raised x
    → transition t w ≡ (raised x, w)
unfolding transition_to
not_moved t x w e = rw (transition, transition_to, e) refl
