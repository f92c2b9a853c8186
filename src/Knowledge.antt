-- ===== src/Knowledge.antt =====
-- The policies that inspections and answers are grounded in (apps/ai-service/app/knowledge).
pub mod Models
pub mod Loader
pub mod Rows
pub mod Repository
pub mod Embedding
pub mod History
pub mod Reingested
pub mod Ingest
pub mod Worker
mod Tests
