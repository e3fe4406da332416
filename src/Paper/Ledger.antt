-- ===== src/Paper/Ledger.antt =====
-- The cash of the simulated broker of paper_broker.py: what is gone was paid for executed units.
use etf_platform_paper_mode.Common.{
  ℕ, ◌+◌, ◌-◌, ◌*◌, ◌≤◌, ◌≡◌, ◌⊎◌, inl, inr, ap, none, some, [], ◌∷◌, true, false, arith,
  Bool-cases, Option-cases, Result-cases, if◌then◌else◌, ◌==◌,
}
use etf_platform_paper_mode.Common.Dict.{Dict, lookup, insert}
use etf_platform_paper_mode.Common.Int.{ℤ, pos, ◌+ℤ◌, ◌-ℤ◌, int_laws}
use etf_platform_paper_mode.Cost.{Side}
use etf_platform_paper_mode.Lifecycle.{cancelled}
use etf_platform_paper_mode.Scenarios.{Scenario, ScenarioParameters, scenario_for}
use etf_platform_paper_mode.Paper.{
  PaperOrder, PaperBroker, is_terminal, get_order_status, submit_order, cancel_order, accept,
}
use etf_platform_paper_mode.Paper.Sound.{IsFraction, IsSoundOrder, IsSound, partial_quantity_bounds}
use etf_platform_paper_mode.Paper.Reference.{polled}
use etf_platform_paper_mode.Paper.Polled.{get_order_status-polled, get_order_status-unknown}
use etf_platform_paper_mode.Paper.Cancelled.{cancel_order_lem, cancel_order-unknown}

abbrev pub paid_for : PaperOrder → ℕ
paid_for o = o.executed_quantity * o.limit_price

-- What the executed units of all orders cost.
abbrev pub spent : Dict PaperOrder → ℕ
spent [] = 0
spent ((_, o) ∷ d) = paid_for o + spent d

spent-insert :
    (id : ℕ) (o o' : PaperOrder) (d : Dict PaperOrder)
    → lookup id d ≡ some o
    → spent (insert id o' d) + paid_for o ≡ spent d + paid_for o'
spent-insert id o o' [] e = cc
spent-insert id o o' ((j, x) ∷ d) e = elim (Bool-cases (j == id)) [
  | inl t ↦ let e' : x ≡ o = ground arith in rw t (rw (ap paid_for e') (omega arith))
  | inr t ↦ rw t (omega (arith, spent-insert id o o' d (rw t at e)))
]

spent-insert_new :
    (id : ℕ) (o : PaperOrder) (d : Dict PaperOrder)
    → lookup id d ≡ none
    → spent (insert id o d) ≡ spent d + paid_for o
spent-insert_new id o [] e = omega arith
spent-insert_new id o ((j, x) ∷ d) e = elim (Bool-cases (j == id)) [
  | inl t ↦ absurd (ground arith)
  | inr t ↦ rw t (omega (arith, spent-insert_new id o d (rw t at e)))
]

-- A poll never takes units back, and never more than were ordered.
pub polled_bounds :
    (p : ScenarioParameters) (o : PaperOrder)
    → IsFraction p
    → IsSoundOrder o
    → (o.executed_quantity ≤ (polled p o).executed_quantity)
      × ((polled p o).executed_quantity ≤ o.quantity)
      × ((polled p o).limit_price ≡ o.limit_price)
unfolding polled
polled_bounds p o f h = ground (arith, partial_quantity_bounds p o.quantity)

-- The broker has its starting cash, less what its orders have executed.
abbrev pub Balances : ℤ → PaperBroker → Type 0
Balances start b = b.cash +ℤ pos (spent b.orders) ≡ start

balance_moves :
    (start c : ℤ) (s s' e e' k : ℕ)
    → c +ℤ pos s ≡ start
    → s' + e * k ≡ s + e' * k
    → e ≤ e'
    → (c -ℤ pos ((e' - e) * k)) +ℤ pos s' ≡ start
balance_moves start c s s' e e' k bal moved le =
    let split : (e' - e) * k + e * k ≡ e' * k = grind arith in rw (← bal) (omega int_laws)

pub get_order_status-Balances :
    (start : ℤ) (b : PaperBroker) (id : ℕ)
    → IsSound b
    → Balances start b
    → Balances start (get_order_status id b).1
unfolding polled
get_order_status-Balances start b id h bal = elim (Option-cases (lookup id b.orders)) [
  | inl e ↦ rw (get_order_status-unknown b id e) bal
  | inr (o, e) ↦
      let s = h.orders_sound id o e in
      let o' = polled s.parameters o in
      let (_, stored, paid, _, _, _, _) =
        get_order_status-polled b id o s.parameters s.sound e s.parameters_found in
      let (more, _, price) = polled_bounds s.parameters o s.fraction s.sound in
      rw (stored, paid)
        (balance_moves start b.cash (spent b.orders) (spent (insert id o' b.orders))
          o.executed_quantity o'.executed_quantity o.limit_price bal
          (rw price at (spent-insert id o o' b.orders e)) more)
]

pub cancel_order-Balances :
    (start : ℤ) (b : PaperBroker) (id : ℕ)
    → IsSound b
    → Balances start b
    → Balances start (cancel_order id b).1
cancel_order-Balances start b id h bal = elim (Option-cases (lookup id b.orders)) [
  | inl e ↦ rw (cancel_order-unknown b id e) bal
  | inr (o, e) ↦
      let (_, orders, same_cash, _, _, _, _) =
        cancel_order_lem b id o (h.orders_sound id o e).sound e in
      let kept : spent (cancel_order id b).1.orders ≡ spent b.orders =
        rw orders (same_spent o e (Bool-cases (is_terminal o.state))) in
      rw (same_cash, kept) bal
]
  where
    same_spent :
        (o : PaperOrder)
        → lookup id b.orders ≡ some o
        → (is_terminal o.state ≡ true) ⊎ (is_terminal o.state ≡ false)
        → spent (
            if is_terminal o.state
            then b.orders
            else insert id (record o { state = cancelled }) b.orders)
          ≡ spent b.orders
    same_spent o e (inl t) = rw t
    same_spent o e (inr t) =
        rw t (omega (arith, spent-insert id o (record o { state = cancelled }) b.orders e))

-- An order that is not there yet has executed nothing, whatever becomes of its submission.
new_order-Balances :
    (start : ℤ) (b : PaperBroker) (id : ℕ) (o : PaperOrder)
    → lookup id b.orders ≡ none
    → paid_for o ≡ 0
    → Balances start b
    → b.cash +ℤ pos (spent (insert id o b.orders)) ≡ start
new_order-Balances start b id o new free bal =
    let same : spent (insert id o b.orders) ≡ spent b.orders =
      omega (arith, spent-insert_new id o b.orders new) in
    rw same bal

accept-Balances :
    (start : ℤ) (b : PaperBroker) (s : Scenario) (p : ScenarioParameters) (side : Side)
    (id symbol quantity price ref : ℕ)
    → lookup id b.orders ≡ none
    → Balances start b
    → Balances start (accept s p side id symbol quantity price ref b).1
unfolding accept
accept-Balances start b Scenario.order_rejected p side id symbol quantity price ref new bal = bal
accept-Balances start b Scenario.network_timeout p side id symbol quantity price ref new bal = bal
accept-Balances start b Scenario.api_error p side id symbol quantity price ref new bal = bal
accept-Balances start b Scenario.connection_lost p side id symbol quantity price ref new bal = bal
accept-Balances start b Scenario.quote_unavailable p side id symbol quantity price ref new bal = bal
accept-Balances start b _ p side id symbol quantity price ref new bal =
    new_order-Balances start b id _ new (omega arith) bal

pub submit_order-Balances :
    (start : ℤ) (b : PaperBroker) (symbol : ℕ) (side : Side) (quantity price ref : ℕ)
    → lookup (b.uuids b.drawn) b.orders ≡ none
    → Balances start b
    → Balances start (submit_order symbol side quantity price ref b).1
unfolding submit_order
submit_order-Balances start b symbol side quantity price ref new bal =
    elim (Result-cases (scenario_for b.scenarios).0) [
      | inl (x, e) ↦
          rw e (
            accept-Balances start _ x.0 x.1 side (b.uuids b.drawn) symbol quantity price ref new
              bal)
      | inr (x, e) ↦ rw e bal
    ]
