-- ===== src/Kite/Mapping.antt =====
-- What the status mapping of src/etf_platform/execution_manager/kite_status_mapping.py means for a
-- record that is PENDING or PARTIALLY_FILLED.
use etf_platform_paper_mode.Common.{
  ℕ, ◌≤◌, ◌<◌, ◌≡◌, ◌⊎◌, inl, inr, refl, true, Result, ok, raised, arith, Bool-cases, ltb, ◌==◌,
}
use etf_platform_paper_mode.Common.Texts.{Text}
use etf_platform_paper_mode.Lifecycle.{
  State, pending, partially_filled, filled, invalid_lifecycle_transition, validate_transition,
}
use etf_platform_paper_mode.Lifecycle.Graph.{is_settled}
use etf_platform_paper_mode.Kite.{
  KiteStatus, put_order_req_received, validation_pending, open_pending, amo_req_received,
  modify_validation_pending, modify_pending, modified, cancel_pending, open_status, trigger_pending,
  complete, cancelled_status, rejected, other_status, KiteError, unrecognized_kite_status,
  open_like, map_kite_status,
}

-- A record that is PENDING can take the state, or the order was rejected, and then neither it nor
-- one that is PARTIALLY_FILLED can.
abbrev pub IsTaken : KiteStatus → State → Type 0
IsTaken status state =
    (validate_transition pending state ≡ ok tt)
    ⊎ ((status ≡ rejected)
        × (validate_transition pending state ≡ raised invalid_lifecycle_transition)
        × (validate_transition partially_filled state ≡ raised invalid_lifecycle_transition))

-- FILLED is backed by what is filled, or Kite says that the order is complete.
abbrev pub IsBacked : KiteStatus → (filled_quantity quantity : ℕ) → State → Type 0
IsBacked status n quantity state =
    (state ≡ filled → (status ≡ complete) ⊎ (quantity ≤ n))
    × (state ≡ partially_filled → (0 < n) × (n < quantity))

-- What a status is mapped to.
abbrev pub IsMapped : KiteStatus → (filled_quantity quantity : ℕ) → Result KiteError State → Type 0
IsMapped status n quantity (raised e) =
    (e ≡ unrecognized_kite_status) × ((text : Text) × (status ≡ other_status text))
IsMapped status n quantity (ok state) =
    (is_settled state ≡ true) × IsTaken status state × IsBacked status n quantity state

pending-IsMapped : (status : KiteStatus) (n quantity : ℕ) → IsMapped status n quantity (ok pending)
unfolding validate_transition
pending-IsMapped status n quantity = (refl, inl refl, ((λ h. absurd (cc h)), (λ h. absurd (cc h))))

open_like-IsMapped :
    (status : KiteStatus) (n quantity : ℕ) → IsMapped status n quantity (ok (open_like n quantity))
unfolding validate_transition open_like
open_like-IsMapped status n quantity = elim (Bool-cases (n == 0)) [
  | inl none_filled ↦ rw none_filled (pending-IsMapped status n quantity)
  | inr some_filled ↦ elim (Bool-cases (ltb n quantity)) [
    | inl fewer ↦
        rw (some_filled, fewer)
          (refl, inl refl, ((λ h. absurd (cc h)), (λ _. (ground arith, ground arith))))
    | inr all ↦
        rw (some_filled, all) (refl, inl refl, ((λ _. inr (ground arith)), (λ h. absurd (cc h))))
  ]
]

-- Every status that the mapping knows becomes a state of an answered order. A PENDING record can
-- take it, unless the order was rejected: then a record that is PENDING or PARTIALLY_FILLED
-- cannot. FILLED and PARTIALLY_FILLED are backed by the filled quantity or by the status COMPLETE.
-- Any other status raises.
pub map_kite_status-IsMapped :
    (status : KiteStatus) (filled_quantity quantity : ℕ)
    → IsMapped status filled_quantity quantity (map_kite_status status filled_quantity quantity)
unfolding validate_transition map_kite_status
map_kite_status-IsMapped put_order_req_received n quantity = pending-IsMapped _ n quantity
map_kite_status-IsMapped validation_pending n quantity = pending-IsMapped _ n quantity
map_kite_status-IsMapped open_pending n quantity = pending-IsMapped _ n quantity
map_kite_status-IsMapped amo_req_received n quantity = pending-IsMapped _ n quantity
map_kite_status-IsMapped modify_validation_pending n quantity = pending-IsMapped _ n quantity
map_kite_status-IsMapped modify_pending n quantity = pending-IsMapped _ n quantity
map_kite_status-IsMapped modified n quantity = pending-IsMapped _ n quantity
map_kite_status-IsMapped cancel_pending n quantity = pending-IsMapped _ n quantity
map_kite_status-IsMapped open_status n quantity = open_like-IsMapped open_status n quantity
map_kite_status-IsMapped trigger_pending n quantity = open_like-IsMapped trigger_pending n quantity
map_kite_status-IsMapped complete n quantity =
    (refl, inl refl, ((λ _. inl refl), (λ h. absurd (cc h))))
map_kite_status-IsMapped cancelled_status n quantity =
    (refl, inl refl, ((λ h. absurd (cc h)), (λ h. absurd (cc h))))
map_kite_status-IsMapped rejected n quantity =
    (refl, inr (refl, refl, refl), ((λ h. absurd (cc h)), (λ h. absurd (cc h))))
map_kite_status-IsMapped (other_status text) n quantity = (refl, (text, refl))
