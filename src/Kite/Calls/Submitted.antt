-- ===== src/Kite/Calls/Submitted.antt =====
-- What a submission to the live broker leaves, whatever the web client does.
use etf_platform_paper_mode.Common.{
  ℕ, ◌≡◌, refl, sym, ap, ◌∙◌, Bool, true, false, Option, none, some, Result, ok, raised,
  raised_not_ok, Exec,
}
use etf_platform_paper_mode.Retry.{Failure, value_error, not_retried, retry_exhausted}
use etf_platform_paper_mode.Retry.Bounds.{PassesOn, retry_with_backoff-PassesOn}
use etf_platform_paper_mode.Kite.{
  KiteError, kite_http, connection_or_timeout, transport_error, unrecognized_kite_status,
  manager_error, record_tag,
}
use etf_platform_paper_mode.Kite.Calls.{
  KiteSettings, KiteBrokerPort, is_retryable, retry_policy, called, is_refusal, refused_or_lost,
  submission_error, submitted_answer, submit_kite_order, call_kite,
}
use etf_platform_paper_mode.Kite.Tags.{IsConsistent, NoCollision, Records, record_tag-Records}

-- An exception of the web client that the port has to wrap: `KiteHTTPError`, `ConnectionError` or
-- `TimeoutError`.
abbrev pub is_client_error : KiteError → Bool
is_client_error (kite_http _ _) = true
is_client_error connection_or_timeout = true
is_client_error _ = false

refused-client : (b : Bool) → is_client_error (refused_or_lost b) ≡ false
refused-client true = refl
refused-client false = refl

-- What is not retried is no lost connection.
submission-client :
    (e : KiteError) → is_retryable e ≡ false → is_client_error (submission_error e) ≡ false
unfolding is_retryable
submission-client (kite_http _ error_type) h = refused-client (is_refusal error_type)
submission-client connection_or_timeout h = absurd (cc h)
submission-client transport_error h = refl
submission-client unrecognized_kite_status h = refl
submission-client (manager_error _) h = refl

raised_inj :
    {A : Type 0} (x e : KiteError) → Path (Result KiteError A) (raised x) (raised e) → x ≡ e
raised_inj x e h = cc

answer-client :
    {A : Type 0} (settings : KiteSettings) (r : Result (Failure KiteError) (Option A))
    (e : KiteError)
    → PassesOn (retry_policy settings) r
    → submitted_answer (called r) ≡ raised e
    → is_client_error e ≡ false
answer-client settings (ok none) e kept h = sym (ap is_client_error (raised_inj _ e h))
answer-client settings (ok (some a)) e kept h = absurd (raised_not_ok (sym h))
answer-client settings (raised value_error) e kept h = sym (ap is_client_error (raised_inj _ e h))
answer-client settings (raised (not_retried x)) e kept h =
    sym (ap is_client_error (raised_inj _ e h)) ∙ submission-client x kept
answer-client settings (raised (retry_exhausted x)) e kept h =
    sym (ap is_client_error (raised_inj _ e h))

-- From a broker whose tags are what their file says and those of their references, and if no other
-- reference among them has the tag of this one: after a submission, also one that raises, the tag of
-- the reference resolves to it, the tags of before resolve as they did, and a store opened on the
-- file resolves the same. What the submission raises is no KiteHTTPError, ConnectionError or
-- TimeoutError of the web client.
pub submit_kite_order-Records :
    {S : Type 0} (settings : KiteSettings) (sha256 : ℕ → ℕ)
    (request : (tag : ℕ) → Exec KiteError S (Option ℕ)) (ref : ℕ) (p : KiteBrokerPort S)
    → NoCollision sha256 ref p.tags
    → IsConsistent sha256 p.tags
    → Records sha256 ref p.tags (submit_kite_order settings sha256 request ref p).1.tags
      × ((e : KiteError)
          → (submit_kite_order settings sha256 request ref p).0 ≡ raised e
          → is_client_error e ≡ false)
unfolding submit_kite_order call_kite
submit_kite_order-Records settings sha256 request ref p distinct consistent = (
  record_tag-Records sha256 ref p.tags distinct consistent,
  λ e h.
      answer-client settings _ e
        (retry_with_backoff-PassesOn (retry_policy settings) settings.uniform
          (request (record_tag sha256 ref p.tags).0) p.http)
        h,
)
