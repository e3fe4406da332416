-- ===== src/Kite/Tests.antt =====
-- The status mapping and the tags at concrete orders. A digest starts with its reference and 100,
-- and a row of the file is a tag with its reference.
use Prim.Native.Nat.{◌^◌}
use etf_platform_paper_mode.Common.{
  ℕ, suc, Option, false, ◌==◌, if◌then◌else◌, ◌*◌, ◌/◌, ◌+◌, ◌≡◌, refl, none, some, List, [], ◌∷◌,
  Result, ok, raised, Exec,
}
use etf_platform_paper_mode.Lifecycle.{
  State, partially_filled, filled, failed, broker_communication, order_rejected,
}
use etf_platform_paper_mode.Ports.{BrokerOrder}
use etf_platform_paper_mode.Kite.{
  KiteStatus, open_pending, open_status, rejected, complete, other_status, KiteError, kite_http,
  other_exception, margin_exception, other_exception, manager_error, unrecognized_kite_status,
  open_like, map_kite_status, TagMappingStore, open_tags, resolve, record_tag, encode_tag,
  KiteOrder, to_order_view, order_views, open_kite_orders, kite_order_status,
}
use etf_platform_paper_mode.Kite.Mapping.{IsMapped, map_kite_status-IsMapped}
use etf_platform_paper_mode.Kite.Tags.{IsConsistent, NoCollision, Records}
use etf_platform_paper_mode.Kite.Calls.{
  KiteSettings, KiteBrokerPort, submit_kite_order, call_kite, is_retryable,
}
use etf_platform_paper_mode.Kite.Calls.Submitted.{is_client_error, submit_kite_order-Records}
use etf_platform_paper_mode.Retry.{retry_with_backoff, attempts, by_attempts}
use etf_platform_paper_mode.RateLimiter.{unit, TokenBucket, acquire, refill, consume, deficit}
use etf_platform_paper_mode.Common.Int.{pos, ◌+ℤ◌, ◌-ℤ◌}

abbrev digest : ℕ → ℕ
digest n = (n + 100) * 16 ^ 44

abbrev no_tags : TagMappingStore
unfolding open_tags
no_tags = open_tags []

no_tags-IsConsistent : IsConsistent digest no_tags
unfolding open_tags resolve
no_tags-IsConsistent = record { read = refl; encoded = λ tag ref h. absurd (cc h) }

no_tags-NoCollision : NoCollision digest 7 no_tags
unfolding open_tags resolve
no_tags-NoCollision tag other h e = absurd (cc h)

abbrev bucket : (rate calls : ℕ) → TokenBucket
bucket rate calls = record {
  rate = rate;
  capacity = calls * unit;
  tokens = pos (calls * unit);
  last_refill = 0;
}

abbrev new_port : KiteBrokerPort ℕ
new_port = record {
  http = 0;
  tags = no_tags;
  rate_limiter = record { per_second = bucket 300 5; per_minute = bucket 200 200 };
  now = 0;
}

abbrev settings : KiteSettings
settings = record {
  max_attempts = 2;
  sleep_fn = λ now wait. now + wait.parts / wait.per;
  uniform = λ attempt limit. limit;
}

-- The web client answers the first request with an error, and later ones with its count.
abbrev at_second : KiteError → (tag : ℕ) → Exec KiteError ℕ (Option ℕ)
at_second e tag calls = (if calls == 0 then raised e else ok (some (tag + calls)), suc calls)

-- What is seen of a submission: its result, the requests sent, the time and the tags.
abbrev submitted : KiteError → Result KiteError ℕ × (requests : ℕ) × (now : ℕ) × List (ℕ × ℕ)
submitted e =
    let (r, p) = submit_kite_order settings digest (at_second e) 7 new_port in
    (r, p.http, p.now, p.tags.rows)

-- A second later the request is sent again.
retried : submitted (kite_http 503 (other_exception [])) ≡ (ok 108, 2, 1_000_000, (107, 7) ∷ [])
unfolding submit_kite_order call_kite retry_with_backoff is_retryable record_tag encode_tag acquire
    open_tags resolve attempts by_attempts refill consume deficit ◌+ℤ◌ ◌-ℤ◌
retried = refl

abbrev refused : KiteError
refused = kite_http 400 margin_exception

-- An order that the broker refuses is not sent again; its tag stays.
refused_once : submitted refused ≡ (raised (manager_error order_rejected), 1, 0, (107, 7) ∷ [])
unfolding submit_kite_order call_kite retry_with_backoff is_retryable record_tag encode_tag acquire
    open_tags resolve attempts by_attempts refill consume deficit ◌+ℤ◌ ◌-ℤ◌
refused_once = refl

submit_kite_order-Records_example :
    let (r, p) = submit_kite_order settings digest (at_second refused) 7 new_port in
    Records digest 7 no_tags p.tags × ((e : KiteError) → r ≡ raised e → is_client_error e ≡ false)
submit_kite_order-Records_example =
    submit_kite_order-Records settings digest (at_second refused) 7 new_port no_tags-NoCollision
      no_tags-IsConsistent

map_kite_status-IsMapped_example : IsMapped open_status 3 10 (map_kite_status open_status 3 10)
map_kite_status-IsMapped_example = map_kite_status-IsMapped open_status 3 10

abbrev kite_order : KiteStatus → (filled_quantity : ℕ) → KiteOrder
kite_order status n = record {
  order_id = 1;
  tradingsymbol = 5;
  status = status;
  quantity = 10;
  filled_quantity = n;
  average_price = some 0;
  tag = some 107;
}

abbrev kite_view : State → (executed_quantity : ℕ) → BrokerOrder
kite_view state n = record {
  broker_order_id = 1;
  symbol = 5;
  state = state;
  executed_quantity = n;
  executed_price = none;
  client_reference = some 7;
}

abbrev tags : TagMappingStore
tags = record { rows = (107, 7) ∷ []; cache = (107, 7) ∷ [] }

abbrev answer : List KiteOrder → Exec KiteError ℕ (List KiteOrder)
answer xs calls = (ok xs, calls + 1)

-- A rejected order stays in the list of open orders.
rejected_listed :
    open_kite_orders tags
      (answer (kite_order open_status 3 ∷ kite_order complete 10 ∷ kite_order rejected 0 ∷ []))
      0
    ≡ (ok (kite_view partially_filled 3 ∷ kite_view failed 0 ∷ []), 1)
unfolding open_kite_orders order_views to_order_view map_kite_status open_like resolve
rejected_listed = refl

-- One order with an unknown status, and no order is listed.
unknown_raises :
    open_kite_orders tags
      (answer (kite_order open_status 3 ∷ kite_order (other_status []) 0 ∷ []))
      0
    ≡ (raised unrecognized_kite_status, 1)
unfolding open_kite_orders order_views to_order_view map_kite_status open_like resolve
unknown_raises = refl

latest_of_history :
    kite_order_status tags (answer (kite_order open_pending 0 ∷ kite_order complete 10 ∷ [])) 0
    ≡ (ok (kite_view filled 10), 1)
unfolding kite_order_status to_order_view map_kite_status resolve
latest_of_history = refl

no_answer :
    kite_order_status tags (λ calls. (raised (kite_http 403 (other_exception [])), calls + 1)) 0
    ≡ (raised (manager_error broker_communication), 1)
unfolding kite_order_status
no_answer = refl
