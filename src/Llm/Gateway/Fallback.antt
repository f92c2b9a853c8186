-- ===== src/Llm/Gateway/Fallback.antt =====
-- What the fallback provider can and cannot answer.
use enterprise_work_order_ai.Prelude.{ℕ, zero, suc, ◌*◌, ◌^◌, ◌≡◌, refl, ap, Bool, true, Option}
use enterprise_work_order_ai.Prelude.Exec.{Outcome, ok, raise, Exec}
use enterprise_work_order_ai.Llm.Errors.{ProviderError}
use enterprise_work_order_ai.Llm.Gateway.{
  Raised, provider_error, other_error, LlmResult, LlmGateway, next_round, or_fallback,
  mark_fallback, attempts_from, generate_primary, generate, generate_structured,
}

mark_fallback-error :
    (e c : ProviderError) (o : Outcome Raised LlmResult)
    → mark_fallback c o ≡ raise (provider_error e)
    → o ≡ raise (provider_error e)
mark_fallback-error e c (ok r) h = cc
mark_fallback-error e c (raise x) h = h

or_fallback-error :
    {S : Type 0} (e : ProviderError) (o : Outcome Raised LlmResult) (s : S)
    (fallback : Outcome Raised LlmResult × S)
    → (or_fallback true (o, s) fallback).0 ≡ raise (provider_error e)
    → fallback.0 ≡ raise (provider_error e)
or_fallback-error e (ok r) s fallback h = cc
or_fallback-error e (raise (other_error n)) s fallback h = cc
or_fallback-error e (raise (provider_error c)) s fallback h = mark_fallback-error e c fallback.0 h

module _ {S Request : Type 0} (gateway : LlmGateway S Request) where
  -- The gateway with another fallback.
  abbrev pub with_fallback : (Request → Exec S Raised LlmResult) → Bool → LlmGateway S Request
  with_fallback fallback enabled = record gateway {
    fallback_provider = fallback;
    fallback_enabled = enabled;
  }

  attempts_from-with_fallback :
      (fallback : Request → Exec S Raised LlmResult) (enabled : Bool) (left attempt : ℕ)
      (request : Request) (s : S)
      → attempts_from (with_fallback fallback enabled) left attempt request s
        ≡ attempts_from gateway left attempt request s
  unfolding attempts_from
  attempts_from-with_fallback fallback enabled zero attempt request s = refl
  attempts_from-with_fallback fallback enabled (suc left) attempt request s =
      let answer : Outcome Raised LlmResult × S = gateway.provider request s in
      let slept : Outcome Raised Bool × S = gateway.sleep (250 * 2 ^ attempt) answer.1 in
      ap (λ (again : Outcome Raised LlmResult × S). next_round answer slept again)
        (attempts_from-with_fallback fallback enabled left (suc attempt) request slept.1)

  -- No fallback, on or off, has a part in a structured answer: the result, the errors and the state
  -- are the same whatever the fallback provider is and whether it is enabled.
  pub generate_structured-with_fallback :
      {Payload : Type 0} (parse : ℕ → Option (Option Payload))
      (fallback : Request → Exec S Raised LlmResult) (enabled : Bool) (request : Request) (s : S)
      → generate_structured (with_fallback fallback enabled) parse request s
        ≡ generate_structured gateway parse request s
  unfolding generate_structured generate_primary
  generate_structured-with_fallback parse fallback enabled request s =
      rw (attempts_from-with_fallback fallback enabled gateway.max_retries 0 request s)

  -- Where the fallback is enabled, `generate` raises an error of a provider only if the fallback
  -- provider raised it.
  pub generate-fallback_error :
      (request : Request) (s : S) (e : ProviderError)
      → gateway.fallback_enabled ≡ true
      → (generate gateway request s).0 ≡ raise (provider_error e)
      → (gateway.fallback_provider request (generate_primary gateway request s).1).0
        ≡ raise (provider_error e)
  unfolding generate
  generate-fallback_error request s e enabled h =
      or_fallback-error e (generate_primary gateway request s).0
        (generate_primary gateway request s).1
        (gateway.fallback_provider request (generate_primary gateway request s).1) (rw enabled at h)
