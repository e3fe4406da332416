-- ===== src/Paper/Cancelled.antt =====
-- What `cancel_order` of paper_broker.py does.
use etf_platform_paper_mode.Common.{
  ℕ, ◌≡◌, refl, none, some, ok, raised, inl, inr, Bool-cases, if◌then◌else◌,
}
use etf_platform_paper_mode.Common.Dict.{lookup, insert}
use etf_platform_paper_mode.Lifecycle.{execution_manager, cancelled}
use etf_platform_paper_mode.Paper.{
  PaperOrder, PaperBroker, is_terminal, cancel_order, transition_to,
}
use etf_platform_paper_mode.Paper.Sound.{IsSoundOrder}
use etf_platform_paper_mode.Paper.Reference.{open_states}

-- Cancelling a known order of a sound broker never raises: an open order becomes CANCELLED with
-- what it has executed, and a FILLED or CANCELLED one stays as it was; cash, parameters,
-- scenarios and drawn ids stay.
pub cancel_order_lem :
    (b : PaperBroker) (id : ℕ) (o : PaperOrder)
    → IsSoundOrder o
    → lookup id b.orders ≡ some o
    → let (r, b') = cancel_order id b in
      (r ≡ ok tt)
      × (b'.orders ≡ (
          if is_terminal o.state
          then b.orders
          else insert id (record o { state = cancelled }) b.orders))
      × (b'.cash ≡ b.cash)
      × (b'.order_parameters ≡ b.order_parameters)
      × (b'.scenarios ≡ b.scenarios)
      × (b'.uuids ≡ b.uuids)
      × (b'.drawn ≡ b.drawn)
unfolding cancel_order
cancel_order_lem b id o h e = elim (Bool-cases (is_terminal o.state)) [
  | inl t ↦ simp (e, t) (refl, refl, refl, refl, refl, refl, refl)
  | inr t ↦ elim (open_states o h t) [
    | inl s ↦ simp e (rw (s, transition_to) (refl, refl, refl, refl, refl, refl, refl))
    | inr s ↦ simp e (rw (s, transition_to) (refl, refl, refl, refl, refl, refl, refl))
  ]
]

pub cancel_order-unknown :
    (b : PaperBroker) (id : ℕ)
    → lookup id b.orders ≡ none
    → cancel_order id b ≡ (raised execution_manager, b)
unfolding cancel_order
cancel_order-unknown b id e = simp e
