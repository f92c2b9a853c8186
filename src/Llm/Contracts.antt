-- ===== src/Llm/Contracts.antt =====
-- The requests to and the answers of the models (apps/ai-service/app/llm/contracts.py).
-- A payload and a schema are the keys and values of a JSON object. A number that is not negative is
-- the number of its bit pattern.
use enterprise_work_order_ai.Prelude.{ℕ, Option, List}
use enterprise_work_order_ai.Prelude.Text.{Str}
use enterprise_work_order_ai.Quality.Models.{Fields}

pub data Role : Type 0 where
  system user assistant : Role

pub record LlmMessage : Type 0 where
  pub role : Role
  pub content : Str

pub record LlmRequest : Type 0 where
  pub messages : List LlmMessage
  pub fallback_text : Str
  pub temperature : ℕ
  pub max_tokens : ℕ
  pub response_schema : Option Fields
  pub request_id : Option Str

pub record StructuredLlmRequest : Type 0 where
  pub messages : List LlmMessage
  pub response_schema : Fields
  pub prompt_version : Str
  pub request_id : Str
  pub temperature : ℕ
  pub max_tokens : ℕ

pub record StructuredLlmResult : Type 0 where
  pub payload : Fields
  pub raw_content : Str
  pub provider : Str
  pub model : Str
  pub latency_ms : ℕ
  pub input_tokens : Option ℕ
  pub output_tokens : Option ℕ
  pub estimated_cost : Option ℕ

-- The defaults of `StructuredLLMRequest`, which its callers keep.
abbrev pub structured_request :
    List LlmMessage → Fields → (prompt_version request_id : Str) → StructuredLlmRequest
structured_request messages schema prompt_version request_id = record {
  messages = messages;
  response_schema = schema;
  prompt_version = prompt_version;
  request_id = request_id;
  temperature = 0;
  max_tokens = 1600;
}
