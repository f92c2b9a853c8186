-- ===== src/Knowledge/Models.antt =====
-- The records of the knowledge base (apps/ai-service/app/knowledge/models.py).
-- A float that is not negative is the number of its bit pattern, which has the order of the floats.
use enterprise_work_order_ai.Prelude.{ℕ, Bool, Option, List}
use enterprise_work_order_ai.Prelude.Text.{Str}

pub record PolicyChunk : Type 0 where
  pub chunk_id : Str
  pub document_id : Str
  pub title : Str
  pub section : Str
  pub text : Str

pub record ActiveKnowledgeChunk : Type 0 where
  pub chunk_id : Str
  pub document_id : Str
  pub document_key : Str
  pub title : Str
  pub section : Str
  pub text : Str
  pub ordinal : ℕ
  pub document_version : ℕ
  pub content_hash : Str

-- The class derives from `ActiveKnowledgeChunk`, whose fields are `chunk`.
pub record RetrievalHit : Type 0 where
  pub chunk : ActiveKnowledgeChunk
  pub bm25_rank : Option ℕ
  pub vector_rank : Option ℕ
  pub rrf_score : ℕ

pub data Mode : Type 0 where
  hybrid bm25 vector no_mode : Mode

pub record RetrievalResult : Type 0 where
  pub hits : List RetrievalHit
  pub mode : Mode
  pub warnings : List Str

pub record DocumentDraft : Type 0 where
  pub document_key : Str
  pub title : Str
  pub source_uri : Str
  pub content_hash : Str

pub record ChunkDraft : Type 0 where
  pub chunk_key : Str
  pub section : Str
  pub content : Str
  pub content_hash : Str
  pub token_count : ℕ
  pub ordinal : ℕ

pub record IngestResult : Type 0 where
  pub document_id : ℕ
  pub version : ℕ
  pub chunk_count : ℕ
  pub skipped : Bool

pub record ClaimedEmbeddingJob : Type 0 where
  pub id : ℕ
  pub tenant_id : ℕ
  pub document_id : ℕ
  pub chunk_id : ℕ
  pub model_key : Str
  pub content : Str
  pub content_hash : Str
  pub retry_count : ℕ
