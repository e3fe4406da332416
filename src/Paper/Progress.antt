-- ===== src/Paper/Progress.antt =====
-- The simulated broker of paper_broker.py leaves no order open for ever.
use etf_platform_paper_mode.Common.{
  ℕ, zero, suc, ◌+◌, ◌-◌, ◌≤◌, ◌≡◌, some, true, arith, if◌then◌else◌,
}
use etf_platform_paper_mode.Common.Dict.{lookup, lookup-insert_self}
use etf_platform_paper_mode.Lifecycle.{pending}
use etf_platform_paper_mode.Scenarios.{Scenario, delayed_fill, partial_fill, ScenarioParameters}
use etf_platform_paper_mode.Paper.{PaperOrder, PaperBroker, is_terminal, get_order_status}
use etf_platform_paper_mode.Paper.Sound.{IsSound, IsSoundOrder}
use etf_platform_paper_mode.Paper.Reference.{polled}
use etf_platform_paper_mode.Paper.Polled.{get_order_status-polled}
use etf_platform_paper_mode.Paper.Keeps.{get_order_status-IsSound}

-- Polling one order again and again.
unfoldable pub poll_times : ℕ → ℕ → PaperBroker → PaperBroker
poll_times zero id b = b
poll_times (suc n) id b = poll_times n id (get_order_status id b).1

abbrev pending_rank : Scenario → ScenarioParameters → PaperOrder → ℕ
pending_rank partial_fill p o = 2
pending_rank delayed_fill p o = suc (p.delayed_fill_poll_count - o.poll_count)
pending_rank _ p o = 1

-- How many more polls an order may need.
rank : ScenarioParameters → PaperOrder → ℕ
rank p o =
    if is_terminal o.state
    then 0
    else elim o.state [ pending ↦ pending_rank o.scenario p o | _ ↦ 1 ]

rank-polled :
    (p : ScenarioParameters) (o : PaperOrder) → IsSoundOrder o → rank p (polled p o) ≤ rank p o - 1
unfolding rank polled
rank-polled p o h = ground arith

rank-zero : (p : ScenarioParameters) (o : PaperOrder) → rank p o ≤ 0 → is_terminal o.state ≡ true
unfolding rank
rank-zero p o e = ground arith

rank-le : (p : ScenarioParameters) (o : PaperOrder) → rank p o ≤ p.delayed_fill_poll_count + 2
unfolding rank
rank-le p o = ground arith

abbrev pub Resolved : PaperBroker → ℕ → Type 0
Resolved b id = (o : PaperOrder) × (lookup id b.orders ≡ some o) × (is_terminal o.state ≡ true)

enough_polls :
    (n id : ℕ) (b : PaperBroker) (o : PaperOrder) (p : ScenarioParameters)
    → IsSound b
    → lookup id b.orders ≡ some o
    → lookup id b.order_parameters ≡ some p
    → rank p o ≤ n
    → Resolved (poll_times n id b) id
unfolding poll_times
enough_polls zero id b o p h e f r = (o, e, rank-zero p o r)
enough_polls (suc n) id b o p h e f r =
    let s = (h.orders_sound id o e).sound in
    let (_, stored, _, parameters, _, _, _) = get_order_status-polled b id o p s e f in
    enough_polls n id (get_order_status id b).1 (polled p o) p (get_order_status-IsSound b id h)
      (rw stored (lookup-insert_self id (polled p o) b.orders)) (rw parameters f)
      (omega (arith, rank-polled p o s))

-- An order of a sound broker is FILLED or CANCELLED after as many polls as its parameters delay a
-- fill, and two more.
pub polls_resolve :
    (id : ℕ) (b : PaperBroker) (o : PaperOrder) (p : ScenarioParameters)
    → IsSound b
    → lookup id b.orders ≡ some o
    → lookup id b.order_parameters ≡ some p
    → Resolved (poll_times (p.delayed_fill_poll_count + 2) id b) id
polls_resolve id b o p h e f =
    enough_polls (p.delayed_fill_poll_count + 2) id b o p h e f (rank-le p o)
