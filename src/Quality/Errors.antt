-- ===== src/Quality/Errors.antt =====
-- The exceptions that the quality code tells apart in its `except` clauses.
use enterprise_work_order_ai.Prelude.{ℕ}
use enterprise_work_order_ai.Llm.Errors.{ProviderError}

-- `quality_output` is `QualityOutputError` (apps/ai-service/app/quality/processor.py); `other` is any
-- further `Exception`, `cancelled` a `BaseException` that is none.
pub data Exc : Type 0 where
  provider : ProviderError → Exc
  quality_output type_error value_error runtime_error integrity_error cancelled : Exc
  other : ℕ → Exc
