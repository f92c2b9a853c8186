-- ===== src/Llm/Errors.antt =====
-- The errors of the model providers (apps/ai-service/app/llm/errors.py).
use enterprise_work_order_ai.Prelude.{
  ℕ, String, Bool, true, false, ◌||◌, Option, none, some, leb, ◌==◌, if◌then◌else◌,
}

-- The class `ProviderError` itself is `base`.
pub data ProviderError : Type 0 where
  base auth rate_limit timeout unavailable bad_response : ProviderError

unfoldable pub code : ProviderError → String
code base = "PROVIDER_ERROR"
code auth = "PROVIDER_AUTH_FAILED"
code rate_limit = "PROVIDER_RATE_LIMITED"
code timeout = "PROVIDER_TIMEOUT"
code unavailable = "PROVIDER_UNAVAILABLE"
code bad_response = "PROVIDER_BAD_RESPONSE"

abbrev pub retryable : ProviderError → Bool
retryable rate_limit = true
retryable timeout = true
retryable unavailable = true
retryable _ = false

-- `none` where the source returns.
unfoldable pub raise_for_provider_status : ℕ → Option ProviderError
raise_for_provider_status status_code =
    if status_code == 401 || status_code == 403
    then some auth
    else if status_code == 429
    then some rate_limit
    else if leb 500 status_code
    then some unavailable
    else if leb 400 status_code
    then some bad_response
    else none
