-- ===== src/Llm/Gateway.antt =====
-- The gateway to the model providers (apps/ai-service/app/llm/gateway.py). A provider is an
-- argument, and so is what `json.loads` makes of a text: `none` where it raises, `some none` for a
-- value that is no `dict`. Delays are in milliseconds.
pub mod Retries
pub mod Fallback
use enterprise_work_order_ai.Prelude.{
  ℕ, zero, suc, ◌*◌, ◌^◌, String, Bool, true, false, not, ◌||◌, Option, none, some, if◌then◌else◌,
}
use enterprise_work_order_ai.Prelude.Exec.{Outcome, ok, raise, Exec}
use enterprise_work_order_ai.Llm.Errors.{ProviderError, bad_response, code, retryable}

-- What a call raises: a `ProviderError` or something else.
pub data Raised : Type 0 where
  provider_error : ProviderError → Raised
  other_error : ℕ → Raised

pub record LlmResult : Type 0 where
  pub content : ℕ
  pub provider : ℕ
  pub model : ℕ
  pub latency_ms : ℕ
  pub input_tokens : Option ℕ
  pub output_tokens : Option ℕ
  pub estimated_cost : Option ℕ
  pub fallback : Bool
  pub error_code : Option String

-- The providers and the sleep of one gateway, and its settings, which `__init__` has cut at zero.
pub record LlmGateway (S Request : Type 0) : Type 0 where
  pub provider : Request → Exec S Raised LlmResult
  pub fallback_provider : Request → Exec S Raised LlmResult
  pub max_retries : ℕ
  pub fallback_enabled : Bool
  pub sleep : (delay_ms : ℕ) → Exec S Raised Bool

abbrev pub mark_fallback : ProviderError → Outcome Raised LlmResult → Outcome Raised LlmResult
mark_fallback e (ok r) = ok (record r { fallback = true; error_code = some (code e) })
mark_fallback e (raise x) = raise x

module _ {S : Type 0} where
  -- The `try` of one round: what follows its answer, given what the sleep does and what the rounds
  -- after it do.
  abbrev pub next_round :
      Outcome Raised LlmResult × S
      → Outcome Raised Bool × S
      → Outcome Raised LlmResult × S
      → Outcome Raised LlmResult × S
  next_round (ok r, s) slept again = (ok r, s)
  next_round (raise (other_error n), s) slept again = (raise (other_error n), s)
  next_round (raise (provider_error e), s) slept again =
      if retryable e
      then elim slept.0 [ ok _ ↦ again | raise x ↦ (raise x, slept.1) ]
      else (raise (provider_error e), s)

  -- The `except` of `generate`.
  abbrev pub or_fallback :
      Bool
      → Outcome Raised LlmResult × S
      → Outcome Raised LlmResult × S
      → Outcome Raised LlmResult × S
  or_fallback enabled (ok r, s) fallback = (ok r, s)
  or_fallback enabled (raise (other_error n), s) fallback = (raise (other_error n), s)
  or_fallback enabled (raise (provider_error e), s) fallback =
      if enabled then (mark_fallback e fallback.0, fallback.1) else (raise (provider_error e), s)

module _ {S Request : Type 0} (gateway : LlmGateway S Request) where
  -- The rounds of the loop from `attempt` on, of which `left` may still be slept for.
  unfoldable pub attempts_from : (left attempt : ℕ) → Request → Exec S Raised LlmResult
  attempts_from zero attempt request s = gateway.provider request s
  attempts_from (suc left) attempt request s =
      let answer = gateway.provider request s in
      let slept = gateway.sleep (250 * 2 ^ attempt) answer.1 in
      let again = attempts_from left (suc attempt) request slept.1 in next_round answer slept again

  -- `_generate_primary`; the loop has a round at least, so its last error is there.
  unfoldable pub generate_primary : Request → Exec S Raised LlmResult
  unfolding attempts_from
  generate_primary = attempts_from gateway.max_retries 0

  unfoldable pub generate : Request → Exec S Raised LlmResult
  unfolding generate_primary
  generate request s =
      let primary = generate_primary request s in
      let fallback = gateway.fallback_provider request primary.1 in
      or_fallback gateway.fallback_enabled primary fallback

  module _ {Payload : Type 0} (parse : ℕ → Option (Option Payload)) where
    abbrev pub structured : Outcome Raised LlmResult → Outcome Raised (Payload × LlmResult)
    structured (raise x) = raise x
    structured (ok r) = elim (parse r.content) [
      | none ↦ raise (provider_error bad_response)
      | some none ↦ raise (provider_error bad_response)
      | some (some payload) ↦ ok (payload, r)
    ]

    -- The payload, and the result that it was read from.
    unfoldable pub generate_structured : Request → Exec S Raised (Payload × LlmResult)
    unfolding generate_primary
    generate_structured request s =
        let primary = generate_primary request s in (structured primary.0, primary.1)
