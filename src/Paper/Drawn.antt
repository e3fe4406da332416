-- ===== src/Paper/Drawn.antt =====
-- The ids of the orders of paper_broker.py: each was drawn before, so the next one is new.
use etf_platform_paper_mode.Common.{
  ℕ, ◌+◌, ◌≤◌, ◌<◌, ◌≡◌, ◌∙◌, inl, inr, refl, none, some, arith, Bool-cases, Option-cases,
  Result-cases, ==→eq, ◌==◌, if◌then◌else◌,
}
use etf_platform_paper_mode.Common.Dict.{Dict, lookup, insert, lookup-insert}
use etf_platform_paper_mode.Cost.{Side}
use etf_platform_paper_mode.Lifecycle.{cancelled}
use etf_platform_paper_mode.Scenarios.{Scenario, ScenarioParameters, scenario_for}
use etf_platform_paper_mode.Paper.{
  PaperOrder, PaperBroker, is_terminal, get_order_status, submit_order, cancel_order, accept,
}
use etf_platform_paper_mode.Paper.Sound.{IsSound}
use etf_platform_paper_mode.Paper.Reference.{polled}
use etf_platform_paper_mode.Paper.Polled.{get_order_status-polled, get_order_status-unknown}
use etf_platform_paper_mode.Paper.Cancelled.{cancel_order_lem, cancel_order-unknown}

abbrev pub IsDrawn : (ℕ → ℕ) → ℕ → Dict PaperOrder → Type 0
IsDrawn uuids drawn d =
    (id : ℕ) (o : PaperOrder) → lookup id d ≡ some o → (i : ℕ) × (i < drawn) × (uuids i ≡ id)

abbrev pub AllDrawn : PaperBroker → Type 0
AllDrawn b = IsDrawn b.uuids b.drawn b.orders

-- `uuid4` gives no id twice.
abbrev pub Unique : (ℕ → ℕ) → Type 0
Unique uuids = (i j : ℕ) → uuids i ≡ uuids j → i ≡ j

pub next_is_new :
    (b : PaperBroker) → Unique b.uuids → AllDrawn b → lookup (b.uuids b.drawn) b.orders ≡ none
next_is_new b unique h = elim (Option-cases (lookup (b.uuids b.drawn) b.orders)) [
  | inl e ↦ e
  | inr (o, e) ↦
      let (i, lt, same) = h (b.uuids b.drawn) o e in absurd (omega (arith, unique i b.drawn same))
]

more-IsDrawn :
    (uuids : ℕ → ℕ) (n m : ℕ) (d : Dict PaperOrder) → n ≤ m → IsDrawn uuids n d → IsDrawn uuids m d
more-IsDrawn uuids n m d le h id o e = let (i, lt, same) = h id o e in (i, omega arith, same)

insert-IsDrawn :
    (uuids : ℕ → ℕ) (n i id : ℕ) (o : PaperOrder) (d : Dict PaperOrder)
    → IsDrawn uuids n d
    → i < n
    → uuids i ≡ id
    → IsDrawn uuids n (insert id o d)
insert-IsDrawn uuids n i id o d h lt own j x e = found (rw lookup-insert at e)
  where
    found : (if id == j then some o else lookup j d) ≡ some x → (k : ℕ) × (k < n) × (uuids k ≡ j)
    found e' = elim (Bool-cases (id == j)) [
      | inl t ↦ (i, lt, own ∙ ==→eq id j t)
      | inr t ↦ h j x (rw t at e')
    ]

accept-AllDrawn :
    (b : PaperBroker) (s : Scenario) (p : ScenarioParameters) (side : Side)
    (i id symbol quantity price ref : ℕ)
    → i < b.drawn
    → b.uuids i ≡ id
    → AllDrawn b
    → AllDrawn (accept s p side id symbol quantity price ref b).1
unfolding accept
accept-AllDrawn b Scenario.order_rejected p side i id symbol quantity price ref lt own h = h
accept-AllDrawn b Scenario.network_timeout p side i id symbol quantity price ref lt own h = h
accept-AllDrawn b Scenario.api_error p side i id symbol quantity price ref lt own h = h
accept-AllDrawn b Scenario.connection_lost p side i id symbol quantity price ref lt own h = h
accept-AllDrawn b Scenario.quote_unavailable p side i id symbol quantity price ref lt own h = h
accept-AllDrawn b _ p side i id symbol quantity price ref lt own h =
    insert-IsDrawn b.uuids b.drawn i id _ b.orders h lt own

pub submit_order-AllDrawn :
    (b : PaperBroker) (symbol : ℕ) (side : Side) (quantity price ref : ℕ)
    → AllDrawn b
    → AllDrawn (submit_order symbol side quantity price ref b).1
unfolding submit_order
submit_order-AllDrawn b symbol side quantity price ref h =
    let later = more-IsDrawn b.uuids b.drawn (b.drawn + 1) b.orders (omega arith) h in
    elim (Result-cases (scenario_for b.scenarios).0) [
      | inl (x, e) ↦ rw e (
          accept-AllDrawn _ x.0 x.1 side b.drawn (b.uuids b.drawn) symbol quantity price ref
            (omega arith) refl later)
      | inr (x, e) ↦ rw e later
    ]

pub get_order_status-AllDrawn :
    (b : PaperBroker) (id : ℕ) → IsSound b → AllDrawn b → AllDrawn (get_order_status id b).1
get_order_status-AllDrawn b id h drawn = elim (Option-cases (lookup id b.orders)) [
  | inl e ↦ rw (get_order_status-unknown b id e) drawn
  | inr (o, e) ↦
      let s = h.orders_sound id o e in
      let (i, lt, own) = drawn id o e in
      let (_, stored, _, _, _, uuids, count) =
        get_order_status-polled b id o s.parameters s.sound e s.parameters_found in
      rw (stored, uuids, count)
        (insert-IsDrawn b.uuids b.drawn i id (polled s.parameters o) b.orders drawn lt own)
]

pub cancel_order-AllDrawn :
    (b : PaperBroker) (id : ℕ) → IsSound b → AllDrawn b → AllDrawn (cancel_order id b).1
cancel_order-AllDrawn b id h drawn = elim (Option-cases (lookup id b.orders)) [
  | inl e ↦ rw (cancel_order-unknown b id e) drawn
  | inr (o, e) ↦
      let (i, lt, own) = drawn id o e in
      let (_, stored, _, _, _, uuids, count) =
        cancel_order_lem b id o (h.orders_sound id o e).sound e in
      elim (Bool-cases (is_terminal o.state)) [
        | inl t ↦ rw (stored, uuids, count, t) drawn
        | inr t ↦
            rw (stored, uuids, count, t)
              (insert-IsDrawn b.uuids b.drawn i id (record o { state = cancelled }) b.orders drawn
                lt own)
      ]
]
