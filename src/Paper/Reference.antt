-- ===== src/Paper/Reference.antt =====
-- What `get_order_status` of paper_broker.py does to an order, as a function of the order alone.
use etf_platform_paper_mode.Common.{
  ℕ, ◌+◌, ◌-◌, ◌*◌, ◌≤◌, ◌≡◌, refl, some, ok, arith, ◌⊎◌, inl, inr, Result, false, if◌then◌else◌,
  ltb,
}
use etf_platform_paper_mode.Common.Int.{ℤ, pos, negsuc, ◌-ℤ◌}
use etf_platform_paper_mode.Common.Dict.{insert, insert-insert}
use etf_platform_paper_mode.Events.{EventType, Details}
use etf_platform_paper_mode.Paper
use etf_platform_paper_mode.Lifecycle.{
  Error, pending, partially_filled, filled, cancelled, same_state,
}
use etf_platform_paper_mode.Scenarios.{
  Scenario, immediate_fill, partial_fill, delayed_fill, order_cancelled, order_expired,
  ScenarioParameters,
}
use etf_platform_paper_mode.Paper.{
  PaperOrder, PaperBroker, partial_quantity, is_terminal, get_order_status, cancel_order,
  fill_order, transition_to, poll,
}
use etf_platform_paper_mode.Paper.Sound.{IsSoundOrder}

abbrev pub settled : PaperOrder → PaperOrder
settled o = record o {
  state = filled;
  executed_quantity = o.quantity;
  executed_price = some o.limit_price;
}

abbrev pub partly_filled : ScenarioParameters → PaperOrder → PaperOrder
partly_filled p o = record o {
  state = partially_filled;
  executed_quantity = partial_quantity p o.quantity;
  executed_price = some o.limit_price;
}

abbrev pub outcome : Scenario → ScenarioParameters → PaperOrder → PaperOrder
outcome immediate_fill p o = settled o
outcome partial_fill p o = if same_state o.state pending then partly_filled p o else settled o
outcome delayed_fill p o = if ltb p.delayed_fill_poll_count o.poll_count then settled o else o
outcome order_cancelled p o = record o { state = cancelled }
outcome order_expired p o = record o { state = cancelled }
outcome _ p o = o

-- The order after one more poll.
unfoldable pub polled : ScenarioParameters → PaperOrder → PaperOrder
polled p o =
    let o' = record o { poll_count = o.poll_count + 1 } in
    if is_terminal o.state then o' else outcome o.scenario p o'

-- What a call that returns an order did to the broker: it stored the order under its id, took the
-- given sum, and left parameters, scenarios and drawn ids alone.
abbrev pub Stores :
    PaperBroker → ℕ → PaperOrder → ℕ → Result Error PaperOrder × PaperBroker → Type 0
Stores b id o' paid (r, b') =
    (r ≡ ok o')
    × (b'.orders ≡ insert id o' b.orders)
    × (b'.cash ≡ b.cash -ℤ pos paid)
    × (b'.order_parameters ≡ b.order_parameters)
    × (b'.scenarios ≡ b.scenarios)
    × (b'.uuids ≡ b.uuids)
    × (b'.drawn ≡ b.drawn)

pub minus_zero : (c : ℤ) → c ≡ c -ℤ pos 0
unfolding ◌-ℤ◌
minus_zero (pos c) = ground arith
minus_zero (negsuc c) = ground arith

-- A fill of an open order is never refused by the table of transitions.
pub fill_order-Stores :
    (b : PaperBroker) (id q : ℕ) (o : PaperOrder)
    → (o.state ≡ pending) ⊎ (o.state ≡ partially_filled)
    → Stores b id
        (record o {
          state = filled;
          executed_quantity = o.executed_quantity + q;
          executed_price = some o.limit_price;
        })
        (q * o.limit_price)
        (fill_order id q o b)
unfolding fill_order
fill_order-Stores b id q o h = elim h [
  | inl e ↦ simp (e, insert-insert) (refl, refl, refl, refl, refl, refl, refl)
  | inr e ↦ simp (e, insert-insert) (refl, refl, refl, refl, refl, refl, refl)
]

pub partial_fill-Stores :
    (b : PaperBroker) (id q : ℕ) (o : PaperOrder)
    → o.state ≡ pending
    → Stores b id
        (record o {
          state = partially_filled;
          executed_quantity = o.executed_quantity + q;
          executed_price = some o.limit_price;
        })
        (q * o.limit_price)
        (Paper.partial_fill id q o b)
unfolding Paper.partial_fill
partial_fill-Stores b id q o e = simp (e, insert-insert) (refl, refl, refl, refl, refl, refl, refl)

pub cancel-Stores :
    (b : PaperBroker) (id : ℕ) (kind : EventType) (why : Details) (o : PaperOrder)
    → (o.state ≡ pending) ⊎ (o.state ≡ partially_filled)
    → Stores b id (record o { state = cancelled }) 0 (transition_to id cancelled kind why o b)
unfolding transition_to
cancel-Stores b id kind why o h = elim h [
  | inl e ↦ rw e (refl, refl, minus_zero b.cash, refl, refl, refl, refl)
  | inr e ↦ rw e (refl, refl, minus_zero b.cash, refl, refl, refl, refl)
]

pub open_cases :
    (o : PaperOrder)
    → IsSoundOrder o
    → is_terminal o.state ≡ false
    → ((o.state ≡ pending) × (o.executed_quantity ≡ 0))
      ⊎ ((o.state ≡ partially_filled)
          × (o.executed_quantity ≤ o.quantity)
          × (o.scenario ≡ partial_fill))
open_cases o h e = ground arith

pub open_states :
    (o : PaperOrder)
    → IsSoundOrder o
    → is_terminal o.state ≡ false
    → (o.state ≡ pending) ⊎ (o.state ≡ partially_filled)
open_states o h e = ground (arith, open_cases o h e)

pub settle-Stores :
    (b : PaperBroker) (id q : ℕ) (o : PaperOrder)
    → (o.state ≡ pending) ⊎ (o.state ≡ partially_filled)
    → o.executed_quantity + q ≡ o.quantity
    → Stores b id
        (settled o)
        ((o.quantity - o.executed_quantity) * o.limit_price)
        (fill_order id q o b)
settle-Stores b id q o still e =
    let e' : o.quantity - o.executed_quantity ≡ q = omega arith in
    rw e' (rw e at (fill_order-Stores b id q o still))

pub pays_nothing :
    (b : PaperBroker) (id : ℕ) (o o' : PaperOrder) (r : Result Error PaperOrder × PaperBroker)
    → o'.executed_quantity ≡ o.executed_quantity
    → Stores b id o' 0 r
    → Stores b id o' ((o'.executed_quantity - o.executed_quantity) * o.limit_price) r
pays_nothing b id o o' r e h =
    let e' : (o'.executed_quantity - o.executed_quantity) * o.limit_price ≡ 0 =
      rw e (ground arith) in
    rw e' h

pub part-Stores :
    (b : PaperBroker) (id : ℕ) (o : PaperOrder) (p : ScenarioParameters)
    → o.state ≡ pending
    → o.executed_quantity ≡ 0
    → Stores b id
        (partly_filled p o)
        ((partial_quantity p o.quantity - o.executed_quantity) * o.limit_price)
        (Paper.partial_fill id (partial_quantity p o.quantity) o b)
part-Stores b id o p e none_yet =
    let q : ℕ = partial_quantity p o.quantity in
    let plus : o.executed_quantity + q ≡ q = omega arith in
    let minus : q - o.executed_quantity ≡ q = omega arith in
    rw minus (rw plus at (partial_fill-Stores b id q o e))
