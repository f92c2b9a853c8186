-- ===== src/Llm.antt =====
-- The gateway to the language models (apps/ai-service/app/llm).
pub mod Errors
pub mod Contracts
pub mod Gateway
mod Tests
