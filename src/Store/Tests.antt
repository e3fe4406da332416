-- ===== src/Store/Tests.antt =====
-- The store at concrete records, notes and claims.
use mathlib.Core.Logic.{◌↔◌}
use etf_platform_paper_mode.Common.{
  ℕ, ◌≡◌, ◌≢◌, ◌≤◌, ◌<◌, ◌+◌, All, List, [], ◌∷◌, none, some, true, false, ok, raised,
}
use etf_platform_paper_mode.Common.Dict.{lookup}
use etf_platform_paper_mode.Events.{Text}
use etf_platform_paper_mode.Fixtures.{record_in, empty_store}
use etf_platform_paper_mode.Lifecycle.{concurrent_invocation, verified}
use etf_platform_paper_mode.Store.{
  load_notes, join_notes, save_execution_record, load_execution_record, claim_cycle, is_claimed,
}
use etf_platform_paper_mode.Store.Notes.{NoPipe, notes_roundtrip}
use etf_platform_paper_mode.Store.Rows.{reloaded, load-save}
use etf_platform_paper_mode.Store.Claims.{claim_cycle_lem}

abbrev two_notes : List Text
two_notes = (b'a' ∷ []) ∷ (b'b' ∷ b'c' ∷ []) ∷ []

notes_roundtrip_example :
    (load_notes (join_notes two_notes) ≡ two_notes) ↔ (All NoPipe two_notes × (two_notes ≢ [] ∷ []))
notes_roundtrip_example = notes_roundtrip two_notes

load-save_example :
    let (outcome, s) = save_execution_record (record_in verified) empty_store in
    (outcome ≡ ok tt)
    × (load_execution_record 1 s ≡ (ok (some (reloaded (record_in verified))), s))
    × ((other : ℕ) → other ≢ 1 → lookup other s.execution_history ≡ none)
    × (s.cycle_claims ≡ [])
load-save_example = load-save (record_in verified) empty_store tt tt tt

claim_cycle_lem_example :
    let (r, s) = claim_cycle 100 60 7 1 empty_store in
    ((is_claimed 100 60 7 empty_store ≡ true)
      → (r ≡ raised concurrent_invocation) × (s ≡ empty_store))
    × ((is_claimed 100 60 7 empty_store ≡ false)
        → (r ≡ ok tt)
          × (s.execution_history ≡ [])
          × ((other : ℕ) → other ≢ 7 → lookup other s.cycle_claims ≡ none)
          × ((later : ℕ) → 100 ≤ later → (is_claimed later 60 7 s ≡ true) ↔ (later < 100 + 60)))
claim_cycle_lem_example = claim_cycle_lem 100 60 7 1 empty_store
