-- ===== src/Llm/Gateway/Retries.antt =====
-- How often a provider is asked.
use enterprise_work_order_ai.Prelude.{
  ℕ, zero, suc, ◌+◌, ◌*◌, ◌^◌, ◌≤◌, ◌<◌, ◌≡◌, refl, ap, sym, ◌∙◌, ◌⊎◌, inl, inr, Bool, true, false,
  arith, Bool-cases,
}
use enterprise_work_order_ai.Prelude.Exec.{Outcome, ok, raise, Exec}
use enterprise_work_order_ai.Llm.Errors.{ProviderError, retryable}
use enterprise_work_order_ai.Llm.Gateway.{
  Raised, provider_error, other_error, LlmResult, LlmGateway, attempts_from, generate_primary,
}

-- The calls so far, and the time slept.
pub record Calls : Type 0 where
  pub made : ℕ
  pub slept_ms : ℕ

abbrev pub may_try_again : Outcome Raised LlmResult → Bool
may_try_again (raise (provider_error e)) = retryable e
may_try_again _ = false

-- The `k` answers before the last one are retryable errors; the last one is returned, and there
-- was no more to ask, or it is none of these. The sleeps double from a quarter of a second on.
pub record Settled (answers : ℕ → Outcome Raised LlmResult) (left attempt : ℕ) (s s' : Calls)
    (o : Outcome Raised LlmResult) : Type 0 where
  pub k : ℕ
  pub within : k ≤ left
  pub made : s'.made ≡ suc (s.made + k)
  pub answer : o ≡ answers (s.made + k)
  pub before : (i : ℕ) → i < k → may_try_again (answers (s.made + i)) ≡ true
  pub last : (k ≡ left) ⊎ (may_try_again (answers (s.made + k)) ≡ false)
  pub slept : s'.slept_ms + 250 * 2 ^ attempt ≡ s.slept_ms + 250 * 2 ^ (attempt + k)

exponent : (a k : ℕ) → suc a + k ≡ a + suc k
exponent a k = omega arith

-- Whether the loop goes on after an answer.
data Try (o : Outcome Raised LlmResult) : Type 0 where
  returned : (r : LlmResult) → o ≡ ok r → Try o
  unknown : (n : ℕ) → o ≡ raise (other_error n) → Try o
  final : (e : ProviderError) → o ≡ raise (provider_error e) → retryable e ≡ false → Try o
  again : (e : ProviderError) → o ≡ raise (provider_error e) → retryable e ≡ true → Try o

Try-cases : (o : Outcome Raised LlmResult) → Try o
Try-cases (ok r) = returned r refl
Try-cases (raise (other_error n)) = unknown n refl
Try-cases (raise (provider_error e)) = elim (Bool-cases (retryable e)) [
  | inl q ↦ again e refl q
  | inr q ↦ final e refl q
]

module _ (answers : ℕ → Outcome Raised LlmResult) where
  stops :
      (left attempt : ℕ) (s : Calls) (o : Outcome Raised LlmResult)
      → answers s.made ≡ o
      → may_try_again o ≡ false
      → Settled answers (suc left) attempt s (record s { made = suc s.made }) o
  stops left attempt s o q f = record {
    k = 0;
    within = omega arith;
    made = omega arith;
    answer = sym q ∙ ap answers (omega arith);
    before = λ i small. absurd (omega arith);
    last = inr (ap may_try_again (ap answers (omega arith) ∙ q) ∙ f);
    slept = ap (λ (a : ℕ). s.slept_ms + 250 * 2 ^ a) (omega arith);
  }

  tried :
      (s : Calls) (e : ProviderError)
      → answers s.made ≡ raise (provider_error e)
      → retryable e ≡ true
      → (k : ℕ) → ((i : ℕ) → i < k → may_try_again (answers (suc s.made + i)) ≡ true)
      → (i : ℕ) → i < suc k
      → may_try_again (answers (s.made + i)) ≡ true
  tried s e q f k h zero small = ap may_try_again (ap answers (omega arith) ∙ q) ∙ f
  tried s e q f k h (suc i) small = ap may_try_again (ap answers (omega arith)) ∙ h i (omega arith)

  goes_on :
      (left attempt : ℕ) (s : Calls) (e : ProviderError) (s' : Calls) (o : Outcome Raised LlmResult)
      → answers s.made ≡ raise (provider_error e)
      → retryable e ≡ true
      → Settled answers left
          (suc attempt)
          (record { made = suc s.made; slept_ms = s.slept_ms + 250 * 2 ^ attempt })
          s'
          o
      → Settled answers (suc left) attempt s s' o
  goes_on left attempt s e s' o q f h = record {
    k = suc h.k;
    within = omega (arith, h.within);
    made = omega (arith, h.made);
    answer = h.answer ∙ ap answers (omega arith);
    before = λ i small. tried s e q f h.k h.before i small;
    last = elim h.last [
      | inl all ↦ inl (ap suc all)
      | inr stop ↦ inr (ap may_try_again (ap answers (omega arith)) ∙ stop)
    ];
    slept = omega (arith, h.slept, ap (λ (x : ℕ). 2 ^ x) (exponent attempt h.k));
  }

module _ {Request : Type 0} (answers : ℕ → Outcome Raised LlmResult) where
  -- A gateway whose provider gives the answers in turn.
  abbrev pub scripted :
      ℕ → Bool → (Request → Exec Calls Raised LlmResult) → LlmGateway Calls Request
  scripted max_retries fallback_enabled fallback = record {
    provider = λ request s. (answers s.made, record s { made = suc s.made });
    fallback_provider = fallback;
    max_retries = max_retries;
    fallback_enabled = fallback_enabled;
    sleep = λ delay_ms s. (ok true, record s { slept_ms = s.slept_ms + delay_ms });
  }

  attempts_from-Settled :
      (n : ℕ) (enabled : Bool) (fallback : Request → Exec Calls Raised LlmResult) (left attempt : ℕ)
      (request : Request) (s : Calls)
      → Settled answers left attempt s
          (attempts_from (scripted n enabled fallback) left attempt request s).1
          (attempts_from (scripted n enabled fallback) left attempt request s).0
  unfolding attempts_from
  attempts_from-Settled n enabled fallback zero attempt request s = record {
    k = 0;
    within = omega arith;
    made = omega arith;
    answer = ap answers (omega arith);
    before = λ i small. absurd (omega arith);
    last = inl refl;
    slept = ap (λ (a : ℕ). s.slept_ms + 250 * 2 ^ a) (omega arith);
  }
  attempts_from-Settled n enabled fallback (suc left) attempt request s =
      elim (Try-cases (answers s.made)) [
        | returned r q ↦ rw q (stops answers left attempt s (ok r) q refl)
        | unknown m q ↦ rw q (stops answers left attempt s (raise (other_error m)) q refl)
        | final e q f ↦ rw (q, f) (stops answers left attempt s (raise (provider_error e)) q f)
        | again e q f ↦
            rw (q, f)
              (goes_on answers left attempt s e _ _ q f (
                attempts_from-Settled n enabled fallback left (suc attempt) request
                  (record { made = suc s.made; slept_ms = s.slept_ms + 250 * 2 ^ attempt })))
      ]

  -- Whatever the provider answers, it is asked once and at most `max_retries` times more: again only
  -- after a retryable error, until an answer is none; the last answer is what is returned or raised,
  -- and the sleeps between the calls start at a quarter of a second and double.
  pub generate_primary-Settled :
      (n : ℕ) (enabled : Bool) (fallback : Request → Exec Calls Raised LlmResult)
      (request : Request) (s : Calls)
      → Settled answers n 0 s
          (generate_primary (scripted n enabled fallback) request s).1
          (generate_primary (scripted n enabled fallback) request s).0
  unfolding generate_primary
  generate_primary-Settled n enabled fallback request s =
      attempts_from-Settled n enabled fallback n 0 request s
