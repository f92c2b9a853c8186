-- ===== src/Llm/Tests.antt =====
-- The theorems about the gateway at one provider.
use enterprise_work_order_ai.Prelude.{ℕ, zero, suc, ◌≡◌, refl, true, false, Option, none, some}
use enterprise_work_order_ai.Prelude.Exec.{Outcome, ok, raise, Exec}
use enterprise_work_order_ai.Llm.Errors.{timeout}
use enterprise_work_order_ai.Llm.Gateway.{
  Raised, provider_error, LlmResult, attempts_from, generate_primary, generate, generate_structured,
}
use enterprise_work_order_ai.Llm.Gateway.Fallback.{
  with_fallback, generate_structured-with_fallback, generate-fallback_error,
}
use enterprise_work_order_ai.Llm.Gateway.Retries.{
  Calls, scripted, Settled, generate_primary-Settled,
}

abbrev reply : LlmResult
reply = record {
  content = 5;
  provider = 1;
  model = 2;
  latency_ms = 30;
  input_tokens = none;
  output_tokens = none;
  estimated_cost = none;
  fallback = false;
  error_code = none;
}

-- The provider is late once.
abbrev late_once : ℕ → Outcome Raised LlmResult
late_once zero = raise (provider_error timeout)
late_once (suc n) = ok reply

abbrev late_always : ℕ → Outcome Raised LlmResult
late_always n = raise (provider_error timeout)

abbrev no_answer : ℕ → Exec Calls Raised LlmResult
no_answer request s = (raise (provider_error timeout), s)

abbrev begun : Calls
begun = record { made = 0; slept_ms = 0 }

generate_primary-Settled_example :
    Settled late_once 2 0 begun
      (generate_primary (scripted late_once 2 false no_answer) 9 begun).1
      (generate_primary (scripted late_once 2 false no_answer) 9 begun).0
generate_primary-Settled_example = generate_primary-Settled late_once 2 false no_answer 9 begun

abbrev parse : ℕ → Option (Option ℕ)
parse n = some (some n)

generate_structured-with_fallback_example :
    generate_structured
      (with_fallback (scripted late_once 0 false no_answer) (λ r s. (ok reply, s)) true)
      parse
      9
      begun
    ≡ generate_structured (scripted late_once 0 false no_answer) parse 9 begun
generate_structured-with_fallback_example =
    generate_structured-with_fallback (scripted late_once 0 false no_answer) parse
      (λ r s. (ok reply, s)) true 9 begun

generate-fallback_error_example :
    (no_answer 9 (generate_primary (scripted late_always 1 true no_answer) 9 begun).1).0
    ≡ raise (provider_error timeout)
unfolding generate generate_primary attempts_from
generate-fallback_error_example =
    generate-fallback_error (scripted late_always 1 true no_answer) 9 begun timeout refl refl
