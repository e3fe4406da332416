-- ===== src/Paper/Polled.antt =====
-- That `get_order_status` of paper_broker.py does to an order what the reference function does.
use etf_platform_paper_mode.Common.{
  ℕ, ◌+◌, ◌-◌, ◌*◌, ◌≡◌, refl, sym, none, some, ok, raised, arith, inl, inr, ◌≢◌, Bool-cases, true,
  false, ltb,
}
use etf_platform_paper_mode.Common.Dict.{
  lookup, insert, insert-insert, insert-lookup, lookup-insert_self,
}
use etf_platform_paper_mode.Events.{EventType, Details}
use etf_platform_paper_mode.Lifecycle.{execution_manager, State, pending, cancelled, same_state}
use etf_platform_paper_mode.Scenarios.{
  Scenario, immediate_fill, partial_fill, delayed_fill, order_cancelled, order_expired,
  ScenarioParameters,
}
use etf_platform_paper_mode.Paper.{
  PaperOrder, PaperBroker, is_terminal, get_order_status, fill_order, transition_to, poll,
}
use etf_platform_paper_mode.Paper.Sound.{IsSoundOrder, IsLive, ExecutedAs}
use etf_platform_paper_mode.Paper.Reference.{
  settled, outcome, polled, Stores, minus_zero, cancel-Stores, open_cases, open_states,
  settle-Stores, pays_nothing, part-Stores,
}

-- The statement for one scenario.
abbrev PollStores : PaperBroker → ℕ → PaperOrder → ScenarioParameters → Scenario → Type 0
PollStores b id o p s =
    Stores b id (outcome s p o)
      (((outcome s p o).executed_quantity - o.executed_quantity) * o.limit_price) (poll s p id o b)

module _ (b : PaperBroker) (id : ℕ) (o : PaperOrder) (p : ScenarioParameters)
    (sound : IsSoundOrder o) (still : is_terminal o.state ≡ false)
    (at_id : lookup id b.orders ≡ some o) where
  poll_full :
      o.scenario ≢ partial_fill
      → Stores b id
          (settled o)
          ((o.quantity - o.executed_quantity) * o.limit_price)
          (fill_order id o.quantity o b)
  poll_full ne =
      settle-Stores b id o.quantity o (open_states o sound still)
        (ground (arith, open_cases o sound still))

  poll_partial : o.scenario ≡ partial_fill → PollStores b id o p partial_fill
  unfolding poll
  poll_partial e = elim (open_cases o sound still) [
    | inl (pend, none_yet) ↦
        let t : same_state o.state pending ≡ true = ground arith in
        rw t (part-Stores b id o p pend none_yet)
    | inr (part, within, _) ↦
        let t : same_state o.state pending ≡ false = ground arith in
        rw t (settle-Stores b id (o.quantity - o.executed_quantity) o (inr part) (omega arith))
  ]

  poll_delayed : o.scenario ≡ delayed_fill → PollStores b id o p delayed_fill
  unfolding poll
  poll_delayed e = elim (Bool-cases (ltb p.delayed_fill_poll_count o.poll_count)) [
    | inl t ↦ rw t (poll_full (ground arith))
    | inr t ↦ rw t (
        pays_nothing b id o o (ok o, b) refl
          (
            refl,
            sym (insert-lookup id o b.orders at_id),
            minus_zero b.cash,
            refl,
            refl,
            refl,
            refl,
          ))
  ]

  poll_cancel :
      (kind : EventType) (why : Details)
      → Stores b id
          (record o { state = cancelled })
          ((o.executed_quantity - o.executed_quantity) * o.limit_price)
          (transition_to id cancelled kind why o b)
  poll_cancel kind why =
      pays_nothing b id o (record o { state = cancelled }) (transition_to id cancelled kind why o b)
        refl (cancel-Stores b id kind why o (open_states o sound still))

  poll-Stores : (s : Scenario) → o.scenario ≡ s → IsLive s → PollStores b id o p s
  unfolding poll
  poll-Stores immediate_fill e _ = poll_full (ground arith)
  poll-Stores partial_fill e _ = poll_partial e
  poll-Stores delayed_fill e _ = poll_delayed e
  poll-Stores order_cancelled e _ = poll_cancel _ _
  poll-Stores order_expired e _ = poll_cancel _ _
  poll-Stores Scenario.order_rejected e h = absurd h
  poll-Stores Scenario.network_timeout e h = absurd h
  poll-Stores Scenario.api_error e h = absurd h
  poll-Stores Scenario.connection_lost e h = absurd h
  poll-Stores Scenario.quote_unavailable e h = absurd h

-- The order after the poll has been counted.
abbrev pub counted : PaperOrder → PaperOrder
counted o = record o { poll_count = o.poll_count + 1 }

counted-ExecutedAs : (s : State) (o : PaperOrder) → ExecutedAs s o → ExecutedAs s (counted o)
counted-ExecutedAs pending o h = h
counted-ExecutedAs _ o h = h

pub counted-IsSoundOrder : (o : PaperOrder) → IsSoundOrder o → IsSoundOrder (counted o)
counted-IsSoundOrder o h = record {
  positive = h.positive;
  executed_as = counted-ExecutedAs o.state o h.executed_as;
  live = h.live;
}

-- A known order of a sound broker is polled without an exception: the call returns the order of
-- the reference function, stores it under its id, pays for what was executed since, and touches
-- neither parameters nor scenarios nor the ids drawn.
pub get_order_status-polled :
    (b : PaperBroker) (id : ℕ) (o : PaperOrder) (p : ScenarioParameters)
    → IsSoundOrder o
    → lookup id b.orders ≡ some o
    → lookup id b.order_parameters ≡ some p
    → Stores b id
        (polled p o)
        (((polled p o).executed_quantity - o.executed_quantity) * o.limit_price)
        (get_order_status id b)
unfolding get_order_status polled
get_order_status-polled b id o p h e f = elim (Bool-cases (is_terminal o.state)) [
  | inl t ↦
      simp (e, f, t)
        (pays_nothing b id o (counted o)
          (ok (counted o), record b { orders = insert id (counted o) b.orders }) refl
          (refl, refl, minus_zero b.cash, refl, refl, refl, refl))
  | inr t ↦
      simp (e, f, t)
        (rw insert-insert at (
          poll-Stores (record b { orders = insert id (counted o) b.orders }) id (counted o) p
            (counted-IsSoundOrder o h) t (lookup-insert_self id (counted o) b.orders) o.scenario
            refl h.live))
]

-- An id that the broker does not know is refused, and nothing changes.
pub get_order_status-unknown :
    (b : PaperBroker) (id : ℕ)
    → lookup id b.orders ≡ none
    → get_order_status id b ≡ (raised execution_manager, b)
unfolding get_order_status
get_order_status-unknown b id e = simp e
