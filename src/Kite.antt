-- ===== src/Kite.antt =====
-- The live broker's data: kite_status_mapping.py, kite_tag_encoding.py and the order views of
-- kite_broker.py in src/etf_platform/execution_manager. What the web interface answers is a
-- parameter, and so is the SHA-256 digest of a reference.
pub mod Mapping
pub mod Tags
pub mod Calls
mod Tests
use Prim.Native.Nat.{◌^◌}
use etf_platform_paper_mode.Common.{
  ℕ, ◌/◌, ◌==◌, Bool, not, Option, none, some, List, [], ◌∷◌, ◌++◌, Result, ok, raised, Exec, ltb,
  if◌then◌else◌,
}
use etf_platform_paper_mode.Common.Dict.{Dict, lookup, insert}
use etf_platform_paper_mode.Common.Texts.{Text}
use etf_platform_paper_mode.Lifecycle.{
  State, pending, partially_filled, filled, cancelled, failed, contains_state, Error,
  execution_manager, broker_communication,
}
use etf_platform_paper_mode.Ports.{BrokerOrder}

-- The status strings that the mapping knows, and any other one.
pub data KiteStatus : Type 0 where
  put_order_req_received validation_pending open_pending amo_req_received : KiteStatus
  modify_validation_pending modify_pending modified cancel_pending : KiteStatus
  open_status trigger_pending complete cancelled_status rejected : KiteStatus
  other_status : Text → KiteStatus

-- `kite_error_type` of a failed request.
pub data KiteErrorType : Type 0 where
  network_exception general_exception data_exception margin_exception : KiteErrorType
  input_exception order_exception holding_exception : KiteErrorType
  other_exception : Text → KiteErrorType

-- What the methods raise, besides the exceptions of the execution manager: `KiteHTTPError`,
-- `ConnectionError` or `TimeoutError`, any other exception of the transport, and
-- `UnrecognizedKiteStatusError`.
pub data KiteError : Type 0 where
  kite_http : (status_code : ℕ) → KiteErrorType → KiteError
  connection_or_timeout transport_error unrecognized_kite_status : KiteError
  manager_error : Error → KiteError

-- The states of `_OPEN_LIKE` orders, by what is filled.
unfoldable pub open_like : (filled_quantity quantity : ℕ) → State
open_like filled_quantity quantity =
    if filled_quantity == 0
    then pending
    else if ltb filled_quantity quantity
    then partially_filled
    else filled

unfoldable pub map_kite_status :
    KiteStatus → (filled_quantity quantity : ℕ) → Result KiteError State
unfolding open_like
map_kite_status put_order_req_received n quantity = ok pending
map_kite_status validation_pending n quantity = ok pending
map_kite_status open_pending n quantity = ok pending
map_kite_status amo_req_received n quantity = ok pending
map_kite_status modify_validation_pending n quantity = ok pending
map_kite_status modify_pending n quantity = ok pending
map_kite_status modified n quantity = ok pending
map_kite_status cancel_pending n quantity = ok pending
map_kite_status open_status n quantity = ok (open_like n quantity)
map_kite_status trigger_pending n quantity = ok (open_like n quantity)
map_kite_status complete n quantity = ok filled
map_kite_status cancelled_status n quantity = ok cancelled
map_kite_status rejected n quantity = ok failed
map_kite_status (other_status _) n quantity = raised unrecognized_kite_status

-- The first 20 of the 64 hexadecimal digits of `hashlib.sha256(…).hexdigest()`, as a number.
unfoldable pub encode_tag : (sha256 : ℕ → ℕ) → (client_reference : ℕ) → ℕ
encode_tag sha256 client_reference = sha256 client_reference / 16 ^ 44

-- `TagMappingStore`: the lines of its file, and its cache.
pub record TagMappingStore : Type 0 where
  pub rows : List (ℕ × ℕ)
  pub cache : Dict ℕ

abbrev pub read_rows : Dict ℕ → List (ℕ × ℕ) → Dict ℕ
read_rows cache [] = cache
read_rows cache ((tag, client_reference) ∷ rows) =
    read_rows (insert tag client_reference cache) rows

-- `__init__` reads the file.
unfoldable pub open_tags : List (ℕ × ℕ) → TagMappingStore
open_tags rows = record { rows = rows; cache = read_rows [] rows }

unfoldable pub resolve : (tag : ℕ) → TagMappingStore → Option ℕ
resolve tag tags = lookup tag tags.cache

abbrev pub add_tag : (tag client_reference : ℕ) → Option ℕ → TagMappingStore → TagMappingStore
add_tag tag client_reference (some _) tags = tags
add_tag tag client_reference none tags = record {
  rows = tags.rows ++ (tag, client_reference) ∷ [];
  cache = insert tag client_reference tags.cache;
}

-- `record`: the tag, and the store after it.
unfoldable pub record_tag :
    (sha256 : ℕ → ℕ) → (client_reference : ℕ) → TagMappingStore → ℕ × TagMappingStore
record_tag sha256 client_reference tags =
    let tag = encode_tag sha256 client_reference in
    (tag, add_tag tag client_reference (resolve tag tags) tags)

-- What is read of an order of Kite's; a missing quantity is 0.
pub record KiteOrder : Type 0 where
  pub order_id : ℕ
  pub tradingsymbol : ℕ
  pub status : KiteStatus
  pub quantity : ℕ
  pub filled_quantity : ℕ
  pub average_price : Option ℕ
  pub tag : Option ℕ

-- `… or None`
abbrev pub price_or_none : Option ℕ → Option ℕ
price_or_none none = none
price_or_none (some n) = if n == 0 then none else some n

abbrev pub resolve_or_none : Option ℕ → TagMappingStore → Option ℕ
resolve_or_none none tags = none
resolve_or_none (some tag) tags = resolve tag tags

abbrev pub view_of : TagMappingStore → KiteOrder → State → BrokerOrder
view_of tags x state = record {
  broker_order_id = x.order_id;
  symbol = x.tradingsymbol;
  state = state;
  executed_quantity = x.filled_quantity;
  executed_price = price_or_none x.average_price;
  client_reference = resolve_or_none x.tag tags;
}

unfoldable pub to_order_view : TagMappingStore → KiteOrder → Result KiteError BrokerOrder
to_order_view tags x = elim (map_kite_status x.status x.filled_quantity x.quantity) [
  | ok state ↦ ok (view_of tags x state)
  | raised e ↦ raised e
]

abbrev pub add_order_view :
    Result KiteError BrokerOrder
    → Result KiteError (List BrokerOrder)
    → Result KiteError (List BrokerOrder)
add_order_view (raised e) _ = raised e
add_order_view (ok v) (raised e) = raised e
add_order_view (ok v) (ok vs) = ok (v ∷ vs)

unfoldable pub order_views : TagMappingStore → List KiteOrder → Result KiteError (List BrokerOrder)
order_views tags [] = ok []
order_views tags (x ∷ xs) = add_order_view (to_order_view tags x) (order_views tags xs)

abbrev pub open_only : List BrokerOrder → List BrokerOrder
open_only [] = []
open_only (v ∷ vs) =
    if contains_state v.state (filled ∷ cancelled ∷ []) then open_only vs else v ∷ open_only vs

-- A failed request is wrapped as `BrokerCommunicationError`.
abbrev pub wrapped : KiteError → KiteError
wrapped (kite_http _ _) = manager_error broker_communication
wrapped e = e

abbrev pub views_of_answer :
    TagMappingStore → Result KiteError (List KiteOrder) → Result KiteError (List BrokerOrder)
views_of_answer tags (raised e) = raised (wrapped e)
views_of_answer tags (ok xs) = elim (order_views tags xs) [
  | ok vs ↦ ok (open_only vs)
  | raised e ↦ raised e
]

-- `get_open_orders`, with `_call` of the orders' path.
unfoldable pub open_kite_orders :
    {S : Type 0}
    → TagMappingStore
    → Exec KiteError S (List KiteOrder)
    → Exec KiteError S (List BrokerOrder)
open_kite_orders tags call s = let (r, s') = call s in (views_of_answer tags r, s')

abbrev pub latest_view : TagMappingStore → List KiteOrder → Result KiteError BrokerOrder
latest_view tags [] = raised (manager_error execution_manager)
latest_view tags (x ∷ []) = to_order_view tags x
latest_view tags (_ ∷ x ∷ xs) = latest_view tags (x ∷ xs)

abbrev pub status_of_answer :
    TagMappingStore → Result KiteError (List KiteOrder) → Result KiteError BrokerOrder
status_of_answer tags (raised e) = raised (wrapped e)
status_of_answer tags (ok history) = latest_view tags history

-- `get_order_status`, with `_call` of the order's path, which answers with its history.
unfoldable pub kite_order_status :
    {S : Type 0}
    → TagMappingStore
    → Exec KiteError S (List KiteOrder)
    → Exec KiteError S BrokerOrder
kite_order_status tags call s = let (r, s') = call s in (status_of_answer tags r, s')
