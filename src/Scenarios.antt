-- ===== src/Scenarios.antt =====
-- The simulated behaviours of src/etf_platform/execution_manager/scenarios.py and who assigns them.
use etf_platform_paper_mode.Common.{
  ℕ, ◌+◌, Option, none, some, List, [], ◌∷◌, Result, ok, raised, Exec, zero, suc,
}
use etf_platform_paper_mode.Lifecycle.{Error, index}
use etf_platform_paper_mode.Events.{Text}

-- `BrokerScenario`
pub data Scenario : Type 0 where
  immediate_fill partial_fill delayed_fill order_rejected order_cancelled : Scenario
  order_expired network_timeout api_error connection_lost quote_unavailable : Scenario

-- `ScenarioParameters`; the ratio is the fraction `partial_fill_num / partial_fill_den`.
pub record ScenarioParameters : Type 0 where
  pub partial_fill_num : ℕ
  pub partial_fill_den : ℕ
  pub delayed_fill_poll_count : ℕ
  pub rejection_reason : Text

-- The three providers with what they keep between calls. What `random.Random(seed).choices` draws
-- is a sequence that the provider is given.
pub data Provider : Type 0 where
  fixed : Scenario → ScenarioParameters → Provider
  sequential : List (Scenario × ScenarioParameters) → ℕ → Provider
  seeded : (ℕ → Scenario) → ScenarioParameters → ℕ → Provider

abbrev pub get_elem? {ℓ} : {A : Type ℓ} → List A → ℕ → Option A
get_elem? [] i = none
get_elem? (x ∷ xs) zero = some x
get_elem? (x ∷ xs) (suc i) = get_elem? xs i

abbrev pub assigned :
    Option (Scenario × ScenarioParameters)
    → List (Scenario × ScenarioParameters)
    → ℕ
    → Result Error (Scenario × ScenarioParameters) × Provider
assigned none scenarios i = (raised index, sequential scenarios i)
assigned (some s) scenarios i = (ok s, sequential scenarios (i + 1))

-- `scenario_for`; no provider looks at the symbol or the client reference.
unfoldable pub scenario_for : Exec Error Provider (Scenario × ScenarioParameters)
scenario_for (fixed s p) = (ok (s, p), fixed s p)
scenario_for (sequential scenarios i) = assigned (get_elem? scenarios i) scenarios i
scenario_for (seeded draws p n) = (ok (draws n, p), seeded draws p (n + 1))
