-- ===== src/Kite/Calls.antt =====
-- How the live broker is called: `_call` and `submit_order` of
-- src/etf_platform/execution_manager/kite_broker.py. A request of the web client is a parameter,
-- with a state of its own.
pub mod Submitted
use etf_platform_paper_mode.Common.{
  ℕ, ◌*◌, ◌==◌, Bool, true, false, ◌||◌, Option, none, some, List, [], ◌∷◌, Result, ok, raised,
  Exec,
}
use etf_platform_paper_mode.Lifecycle.{broker_communication, order_rejected, key, value}
use etf_platform_paper_mode.RateLimiter.{RateLimiter, Sleep, acquire}
use etf_platform_paper_mode.Retry.{
  Failure, value_error, not_retried, retry_exhausted, Policy, retry_with_backoff,
}
use etf_platform_paper_mode.Kite.{
  KiteErrorType, network_exception, general_exception, data_exception, margin_exception,
  input_exception, order_exception, holding_exception, KiteError, kite_http, connection_or_timeout,
  manager_error, TagMappingStore, record_tag, wrapped,
}

-- The members of `_RETRYABLE_KITE_ERROR_TYPES`.
abbrev pub is_passing : KiteErrorType → Bool
is_passing network_exception = true
is_passing general_exception = true
is_passing data_exception = true
is_passing _ = false

-- `_is_retryable`
unfoldable pub is_retryable : KiteError → Bool
is_retryable (kite_http status_code error_type) =
    status_code == 429
    || status_code == 502
    || status_code == 503
    || status_code == 504
    || is_passing error_type
is_retryable connection_or_timeout = true
is_retryable _ = false

-- `max_attempts`, `sleep_fn`, and what the retries draw.
pub record KiteSettings : Type 0 where
  pub max_attempts : ℕ
  pub sleep_fn : Sleep
  pub uniform : ℕ → ℕ → ℕ

-- `KiteBrokerPort`, at a time, with the state of its web client.
pub record KiteBrokerPort (S : Type 0) : Type 0 where
  pub http : S
  pub tags : TagMappingStore
  pub rate_limiter : RateLimiter
  pub now : ℕ

abbrev pub retry_policy : KiteSettings → Policy KiteError
retry_policy settings = record {
  is_retryable = is_retryable;
  max_attempts = settings.max_attempts;
  base_delay = 1_000;
  max_delay = 30_000;
}

-- The time after the delays, which are in milliseconds.
abbrev pub sleep_through : Sleep → (now : ℕ) → List ℕ → ℕ
sleep_through sleep now [] = now
sleep_through sleep now (delay ∷ delays) =
    sleep_through sleep (sleep now (record { parts = delay * 1_000; per = 1 })) delays

abbrev pub called : {A : Type 0} → Result (Failure KiteError) A → Result KiteError A
called (ok a) = ok a
called (raised value_error) = raised (manager_error value)
called (raised (not_retried e)) = raised e
called (raised (retry_exhausted _)) = raised (manager_error broker_communication)

-- `_call`: once the rate limiter lets it through, the request with its retries.
unfoldable pub call_kite :
    {S A : Type 0} → KiteSettings → Exec KiteError S A → Exec KiteError (KiteBrokerPort S) A
call_kite settings request p =
    let (limiter, woken) = acquire settings.sleep_fn p.now p.rate_limiter in
    let r = retry_with_backoff (retry_policy settings) settings.uniform request p.http in
    (
      called r.result,
      record p {
        http = r.state;
        rate_limiter = limiter;
        now = sleep_through settings.sleep_fn woken r.slept;
      },
    )

-- The error types of an order that the broker refuses.
abbrev pub is_refusal : KiteErrorType → Bool
is_refusal margin_exception = true
is_refusal input_exception = true
is_refusal order_exception = true
is_refusal holding_exception = true
is_refusal _ = false

abbrev pub refused_or_lost : Bool → KiteError
refused_or_lost true = manager_error order_rejected
refused_or_lost false = manager_error broker_communication

abbrev pub submission_error : KiteError → KiteError
submission_error (kite_http _ error_type) = refused_or_lost (is_refusal error_type)
submission_error e = e

-- `json_body["data"][…]`, where an answer may lack the key.
abbrev pub keyed : {A : Type 0} → Option A → Result KiteError A
keyed none = raised (manager_error key)
keyed (some a) = ok a

abbrev pub submitted_answer : {A : Type 0} → Result KiteError (Option A) → Result KiteError A
submitted_answer (ok answer) = keyed answer
submitted_answer (raised e) = raised (submission_error e)

-- `submit_order`, with the request that carries the tag and answers with the order's id, if it has
-- one: the tag is recorded first, and stays if the call fails.
unfoldable pub submit_kite_order :
    {S : Type 0}
    → KiteSettings
    → (sha256 : ℕ → ℕ) → (request : (tag : ℕ) → Exec KiteError S (Option ℕ))
    → (client_reference : ℕ) → Exec KiteError (KiteBrokerPort S) ℕ
submit_kite_order settings sha256 request client_reference p =
    let (tag, tags) = record_tag sha256 client_reference p.tags in
    let (r, p') = call_kite settings (request tag) (record p { tags = tags }) in
    (submitted_answer r, p')

abbrev pub wrapped_answer : {A : Type 0} → Result KiteError A → Result KiteError A
wrapped_answer (ok a) = ok a
wrapped_answer (raised e) = raised (wrapped e)

-- `cancel_order`, with its request.
unfoldable pub cancel_kite_order :
    {S A : Type 0} → KiteSettings → Exec KiteError S A → Exec KiteError (KiteBrokerPort S) A
cancel_kite_order settings request p =
    let (r, p') = call_kite settings request p in (wrapped_answer r, p')

abbrev pub cash_answer : {A : Type 0} → Result KiteError (Option A) → Result KiteError A
cash_answer (ok answer) = keyed answer
cash_answer (raised e) = raised (wrapped e)

-- `get_available_cash`, with its request, which answers with the net amount, if it has one.
unfoldable pub kite_cash :
    {S A : Type 0}
    → KiteSettings
    → Exec KiteError S (Option A)
    → Exec KiteError (KiteBrokerPort S) A
kite_cash settings request p = let (r, p') = call_kite settings request p in (cash_answer r, p')
