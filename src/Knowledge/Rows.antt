-- ===== src/Knowledge/Rows.antt =====
-- The four tables of the knowledge base, with the constraints that
-- apps/ai-service/alembic/versions/20260718_01_knowledge_pgvector.py puts on them.
-- The columns' CHECK constraints on texts and the references to the tenants are left out, so that
-- a statement here goes through wherever one of the database does.
use enterprise_work_order_ai.Prelude.{
  ℕ, Bool, ◌&&◌, ◌||◌, Option, none, some, List, [], ◌∷◌, ◌++◌, ◌==◌, any, if◌then◌else◌, ◌≡◌, refl,
}
use enterprise_work_order_ai.Prelude.Text.{Str, str_eq}

-- What a call raises: `embedding` is an `EmbeddingValidationError`, `cancelled` a `BaseException` that
-- is no `Exception`.
pub data Failure : Type 0 where
  value_error runtime_error integrity_error embedding cancelled : Failure

-- `knowledge_document.status` and `knowledge_chunk.status`
pub data Visibility : Type 0 where
  pending active inactive : Visibility

-- `embedding_job.status`
pub data EmbeddingStatus : Type 0 where
  pending running retry_wait succeeded failed skipped : EmbeddingStatus

pub record DocumentRow : Type 0 where
  pub id : ℕ
  pub tenant_id : ℕ
  pub document_key : Str
  pub title : Str
  pub source_uri : Str
  pub content_hash : Str
  pub version : ℕ
  pub status : Visibility
  pub updated_at : ℕ

pub record ChunkRow : Type 0 where
  pub id : ℕ
  pub tenant_id : ℕ
  pub document_id : ℕ
  pub chunk_key : Str
  pub section : Str
  pub content : Str
  pub content_hash : Str
  pub token_count : ℕ
  pub ordinal : ℕ
  pub status : Visibility
  pub updated_at : ℕ

pub record EmbeddingRow : Type 0 where
  pub tenant_id : ℕ
  pub chunk_id : ℕ
  pub model_key : Str
  pub dimensions : ℕ
  pub embedding : List ℕ
  pub content_hash : Str
  pub embedded_at : ℕ

pub record EmbeddingJobRow : Type 0 where
  pub id : ℕ
  pub tenant_id : ℕ
  pub document_id : ℕ
  pub chunk_id : ℕ
  pub business_key : Str
  pub model_key : Str
  pub status : EmbeddingStatus
  pub retry_count : ℕ
  pub error_code : Option Str
  pub next_retry_at : Option ℕ
  pub started_at : Option ℕ
  pub finished_at : Option ℕ
  pub created_at : ℕ
  pub updated_at : ℕ

pub record KnowledgeDb : Type 0 where
  pub documents : List DocumentRow
  pub chunks : List ChunkRow
  pub embeddings : List EmbeddingRow
  pub jobs : List EmbeddingJobRow

-- `INSERT` of one row: refused where it clashes with a row, by a unique constraint.
abbrev pub insert_new {ℓ} : {R : Type ℓ} → (R → R → Bool) → R → List R → Option (List R)
insert_new clash new rows = if any (clash new) rows then none else some (rows ++ new ∷ [])

-- `INSERT … ON CONFLICT … DO NOTHING`: a row that conflicts is passed over before any other
-- constraint is looked at.
abbrev pub insert_or_skip {ℓ} :
    {R : Type ℓ} → (conflict clash : R → R → Bool) → R → List R → Option (List R)
insert_or_skip conflict clash new rows =
    if any (conflict new) rows then some rows else insert_new clash new rows

-- What follows on a row that may be missing, or on a statement that may be refused.
abbrev pub and_next {ℓ κ} : {A : Type ℓ} {B : Type κ} → Option A → (A → Option B) → Option B
and_next none f = none
and_next (some a) f = f a

pub and_next-some {ℓ κ} :
    {A : Type ℓ} {B : Type κ} (o : Option A) (f : A → Option B) {b : B}
    → and_next o f ≡ some b
    → (a : A) × (o ≡ some a) × (f a ≡ some b)
and_next-some none f h = cc
and_next-some (some a) f h = (a, refl, h)

unfoldable pub insert_all {ℓ} :
    {R : Type ℓ} → (conflict clash : R → R → Bool) → List R → List R → Option (List R)
insert_all conflict clash [] rows = some rows
insert_all conflict clash (new ∷ news) rows =
    and_next (insert_or_skip conflict clash new rows) (insert_all conflict clash news)

-- `pk_knowledge_document` and `uq_knowledge_document_tenant_key_version`
abbrev pub document_clash : DocumentRow → DocumentRow → Bool
document_clash new d =
    d.tenant_id == new.tenant_id
    && (d.id == new.id || (str_eq d.document_key new.document_key && d.version == new.version))

abbrev pub chunk_conflict : ChunkRow → ChunkRow → Bool
chunk_conflict new c =
    c.tenant_id == new.tenant_id
    && c.document_id == new.document_id
    && str_eq c.chunk_key new.chunk_key

-- `pk_knowledge_chunk` and `uq_knowledge_chunk_tenant_document_ordinal`
abbrev pub chunk_clash : ChunkRow → ChunkRow → Bool
chunk_clash new c =
    c.tenant_id == new.tenant_id
    && (c.id == new.id || (c.document_id == new.document_id && c.ordinal == new.ordinal))

abbrev pub job_conflict : EmbeddingJobRow → EmbeddingJobRow → Bool
job_conflict new j = j.tenant_id == new.tenant_id && str_eq j.business_key new.business_key

-- `pk_embedding_job` and `uq_embedding_job_tenant_chunk_model`
abbrev pub job_clash : EmbeddingJobRow → EmbeddingJobRow → Bool
job_clash new j =
    j.tenant_id == new.tenant_id
    && (j.id == new.id || (j.chunk_id == new.chunk_id && str_eq j.model_key new.model_key))

-- `fk_embedding_job_tenant_document_chunk`
abbrev pub chunk_of_job : EmbeddingJobRow → ChunkRow → Bool
chunk_of_job j c =
    c.tenant_id == j.tenant_id && c.document_id == j.document_id && c.id == j.chunk_id
