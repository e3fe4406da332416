-- ===== src/Paper/Runs.antt =====
-- Whole sequences of calls of the simulated broker of paper_broker.py. An exception ends a call;
-- the next one goes on from the state that it left.
use etf_platform_paper_mode.Common.{
  ℕ, ◌<◌, ◌≡◌, inl, inr, refl, ◌∙◌, List, [], ◌∷◌, All, Option-cases, Result-cases,
}
use etf_platform_paper_mode.Common.Dict.{lookup}
use etf_platform_paper_mode.Common.Int.{ℤ, int_laws}
use etf_platform_paper_mode.Cost.{Side}
use etf_platform_paper_mode.Time.{Datetime}
use etf_platform_paper_mode.Scenarios.{Scenario, ScenarioParameters, Provider, scenario_for}
use etf_platform_paper_mode.Paper.{
  PaperBroker, get_order_status, submit_order, cancel_order, accept, new_paper_broker,
}
use etf_platform_paper_mode.Paper.Sound.{AllFractions, IsSound}
use etf_platform_paper_mode.Paper.Polled.{get_order_status-polled, get_order_status-unknown}
use etf_platform_paper_mode.Paper.Cancelled.{cancel_order_lem, cancel_order-unknown}
use etf_platform_paper_mode.Paper.Keeps.{
  get_order_status-IsSound, submit_order-IsSound, cancel_order-IsSound,
}
use etf_platform_paper_mode.Paper.Ledger.{
  Balances, submit_order-Balances, get_order_status-Balances, cancel_order-Balances,
}
use etf_platform_paper_mode.Paper.Drawn.{
  AllDrawn, Unique, next_is_new, submit_order-AllDrawn, get_order_status-AllDrawn,
  cancel_order-AllDrawn,
}

pub data Call : Type 0 where
  submit : (symbol : ℕ) → Side → (quantity limit_price client_reference : ℕ) → Call
  status : ℕ → Call
  cancel : ℕ → Call

unfoldable pub perform : Call → PaperBroker → PaperBroker
perform (submit symbol side quantity price ref) b =
    (submit_order symbol side quantity price ref b).1
perform (status id) b = (get_order_status id b).1
perform (cancel id) b = (cancel_order id b).1

unfoldable pub run : List Call → PaperBroker → PaperBroker
unfolding perform
run [] b = b
run (c ∷ cs) b = run cs (perform c b)

-- A submission is of a positive quantity.
abbrev pub IsPositive : Call → Type 0
IsPositive (submit symbol side quantity price ref) = 0 < quantity
IsPositive _ = Unit

record Invariant (start : ℤ) (uuids : ℕ → ℕ) (b : PaperBroker) : Type 0 where
  same_uuids : b.uuids ≡ uuids
  sound : IsSound b
  drawn : AllDrawn b
  balances : Balances start b

accept-uuids :
    (s : Scenario) (p : ScenarioParameters) (side : Side) (id symbol quantity price ref : ℕ)
    (b : PaperBroker)
    → (accept s p side id symbol quantity price ref b).1.uuids ≡ b.uuids
unfolding accept
accept-uuids Scenario.order_rejected p side id symbol quantity price ref b = refl
accept-uuids _ p side id symbol quantity price ref b = refl

submit_order-uuids :
    (b : PaperBroker) (symbol : ℕ) (side : Side) (quantity price ref : ℕ)
    → (submit_order symbol side quantity price ref b).1.uuids ≡ b.uuids
unfolding submit_order
submit_order-uuids b symbol side quantity price ref =
    elim (Result-cases (scenario_for b.scenarios).0) [
      | inl (x, e) ↦ rw e (accept-uuids x.0 x.1 side (b.uuids b.drawn) symbol quantity price ref _)
      | inr (x, e) ↦ rw e refl
    ]

get_order_status-uuids :
    (b : PaperBroker) (id : ℕ) → IsSound b → (get_order_status id b).1.uuids ≡ b.uuids
get_order_status-uuids b id h = elim (Option-cases (lookup id b.orders)) [
  | inl e ↦ rw (get_order_status-unknown b id e) refl
  | inr (o, e) ↦
      let s = h.orders_sound id o e in
      (get_order_status-polled b id o s.parameters s.sound e s.parameters_found).5
]

cancel_order-uuids : (b : PaperBroker) (id : ℕ) → IsSound b → (cancel_order id b).1.uuids ≡ b.uuids
cancel_order-uuids b id h = elim (Option-cases (lookup id b.orders)) [
  | inl e ↦ rw (cancel_order-unknown b id e) refl
  | inr (o, e) ↦ (cancel_order_lem b id o (h.orders_sound id o e).sound e).5
]

perform-Invariant :
    (start : ℤ) (uuids : ℕ → ℕ) (c : Call) (b : PaperBroker)
    → Unique uuids
    → IsPositive c
    → Invariant start uuids b
    → Invariant start uuids (perform c b)
unfolding perform
perform-Invariant start uuids (submit symbol side quantity price ref) b unique q h = record {
  same_uuids = submit_order-uuids b symbol side quantity price ref ∙ h.same_uuids;
  sound = submit_order-IsSound b symbol side quantity price ref h.sound q;
  drawn = submit_order-AllDrawn b symbol side quantity price ref h.drawn;
  balances =
      submit_order-Balances start b symbol side quantity price ref
        (next_is_new b (rw h.same_uuids unique) h.drawn) h.balances;
}
perform-Invariant start uuids (status id) b unique q h = record {
  same_uuids = get_order_status-uuids b id h.sound ∙ h.same_uuids;
  sound = get_order_status-IsSound b id h.sound;
  drawn = get_order_status-AllDrawn b id h.sound h.drawn;
  balances = get_order_status-Balances start b id h.sound h.balances;
}
perform-Invariant start uuids (cancel id) b unique q h = record {
  same_uuids = cancel_order-uuids b id h.sound ∙ h.same_uuids;
  sound = cancel_order-IsSound b id h.sound;
  drawn = cancel_order-AllDrawn b id h.sound h.drawn;
  balances = cancel_order-Balances start b id h.sound h.balances;
}

run-Invariant :
    (start : ℤ) (uuids : ℕ → ℕ) (cs : List Call) (b : PaperBroker)
    → Unique uuids
    → All IsPositive cs
    → Invariant start uuids b
    → Invariant start uuids (run cs b)
unfolding run
run-Invariant start uuids [] b unique q h = h
run-Invariant start uuids (c ∷ cs) b unique q h =
    run-Invariant start uuids cs (perform c b) unique q.1
      (perform-Invariant start uuids c b unique q.0 h)

new-Invariant :
    (now : Datetime) (p : Provider) (start : ℤ) (uuids : ℕ → ℕ)
    → AllFractions p
    → Invariant start uuids (new_paper_broker now p start uuids)
unfolding new_paper_broker
new-Invariant now p start uuids f = record {
  same_uuids = refl;
  sound = record { orders_sound = λ id o e. cc; provider_sound = f };
  drawn = λ id o e. cc;
  balances = omega int_laws;
}

-- After any sequence of submissions (of positive quantities), polls and cancellations of a new
-- broker, whichever of them raised: every order is sound, and the cash is the starting cash less
-- what the executed units of the orders cost. The scenarios' fill ratios are at most one and no
-- drawn id comes twice.
pub run_conserves_cash :
    (now : Datetime) (p : Provider) (start : ℤ) (uuids : ℕ → ℕ) (cs : List Call)
    → AllFractions p
    → Unique uuids
    → All IsPositive cs
    → let b = run cs (new_paper_broker now p start uuids) in IsSound b × Balances start b
run_conserves_cash now p start uuids cs f unique q =
    let h =
      run-Invariant start uuids cs (new_paper_broker now p start uuids) unique q
        (new-Invariant now p start uuids f) in
    (h.sound, h.balances)
