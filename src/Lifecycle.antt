-- ===== src/Lifecycle.antt =====
-- The order lifecycle of src/etf_platform/execution_manager/models.py: the ten states, the table
-- ORDER_LIFECYCLE_TRANSITIONS and `validate_transition`. The enum's values are its constructors;
-- a frozenset is the list of its members.
pub mod Graph
mod Tests
use etf_platform_paper_mode.Common.{
  ℕ, Bool, false, List, [], ◌∷◌, ◌==◌, ◌||◌, Result, ok, raised, if◌then◌else◌,
}

-- `OrderLifecycleState`
pub data State : Type 0 where
  proposal verified submitted pending partially_filled filled cancelled failed reconciled
        ambiguous :
      State

-- The exceptions of execution_manager/exceptions.py that the modelled operations raise,
-- `OrderRejectedError` of paper_broker.py, and the built-in exceptions that they raise.
pub data Error : Type 0 where
  execution_manager concurrent_invocation naive_datetime invalid_lifecycle_transition : Error
  broker_communication order_rejected index key value : Error

-- Members of an enum are compared by identity; each has its own number here.
abbrev pub state_code : State → ℕ
state_code proposal = 0
state_code verified = 1
state_code submitted = 2
state_code pending = 3
state_code partially_filled = 4
state_code filled = 5
state_code cancelled = 6
state_code failed = 7
state_code reconciled = 8
state_code ambiguous = 9

abbrev pub same_state : State → State → Bool
same_state a b = state_code a == state_code b

-- `state in (…)`
abbrev pub contains_state : State → List State → Bool
contains_state s [] = false
contains_state s (t ∷ ts) = same_state s t || contains_state s ts

-- `ORDER_LIFECYCLE_TRANSITIONS`
unfoldable pub transitions : State → List State
transitions proposal = verified ∷ failed ∷ []
transitions verified = submitted ∷ failed ∷ []
transitions submitted = pending ∷ failed ∷ verified ∷ ambiguous ∷ []
transitions pending = partially_filled ∷ filled ∷ cancelled ∷ pending ∷ []
transitions partially_filled = partially_filled ∷ filled ∷ cancelled ∷ []
transitions filled = reconciled ∷ []
transitions cancelled = reconciled ∷ []
transitions failed = reconciled ∷ []
transitions reconciled = []
transitions ambiguous =
    verified ∷ pending ∷ partially_filled ∷ filled ∷ cancelled ∷ failed ∷ reconciled ∷ []

-- It raises when the target is not in the table's set, and returns nothing otherwise.
unfoldable pub validate_transition : State → State → Result Error (Unit {0})
unfolding transitions
validate_transition current target =
    if contains_state target (transitions current)
    then ok tt
    else raised invalid_lifecycle_transition
