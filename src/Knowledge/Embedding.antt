-- ===== src/Knowledge/Embedding.antt =====
-- The success of an embedding job and the activation of a version
-- (apps/ai-service/app/knowledge/repository.py; `normalize_embeddings` is that of
-- apps/ai-service/app/knowledge/embedding/base.py, for the one vector that is given to it).
pub mod Jobs
unfoldable pub use Jobs.*
use enterprise_work_order_ai.Prelude.{
  ℕ, ◌+◌, Bool, true, false, not, ◌&&◌, Option, none, some, List, [], ◌∷◌, ◌++◌, map, ltb, ◌==◌,
  length, any, all, if◌then◌else◌,
}
use enterprise_work_order_ai.Prelude.Exec.{ok, raise, Exec}
use enterprise_work_order_ai.Prelude.Sql.{update_where, first_where}
use enterprise_work_order_ai.Prelude.Text.{Str, str_eq}
use enterprise_work_order_ai.Knowledge.Repository.{Primitives, valid_content_hash, of_key}
use enterprise_work_order_ai.Knowledge.Rows.{
  Failure, value_error, embedding, Visibility, active, inactive, succeeded, DocumentRow, ChunkRow,
  EmbeddingRow, EmbeddingJobRow, KnowledgeDb, and_next,
}

-- `EMBEDDING_DIMENSIONS`
abbrev pub embedding_dimensions : ℕ
embedding_dimensions = 512

-- `version < :version` among the versions of the key.
abbrev pub is_older : ℕ → Str → ℕ → DocumentRow → Bool
is_older tenant key version d = of_key tenant key d && ltb d.version version

abbrev pub show_document : Visibility → ℕ → DocumentRow → DocumentRow
show_document status now d = record d { status = status; updated_at = now }

abbrev pub show_chunk : Visibility → ℕ → ChunkRow → ChunkRow
show_chunk status now c = record c { status = status; updated_at = now }

abbrev pub is_document : ℕ → ℕ → DocumentRow → Bool
is_document tenant id d = d.tenant_id == tenant && d.id == id

abbrev pub in_document : ℕ → ℕ → ChunkRow → Bool
in_document tenant id c = c.tenant_id == tenant && c.document_id == id

-- `document_id IN (SELECT id …)`
abbrev pub in_older : ℕ → Str → ℕ → List DocumentRow → ChunkRow → Bool
in_older tenant key version documents c =
    c.tenant_id == tenant
    && any (λ d. is_older tenant key version d && d.id == c.document_id) documents

-- `_activate_latest`, for the job's document. Its four statements run in this order, so that the
-- older chunks are found by the documents as they were.
unfoldable pub activate_latest : ℕ → DocumentRow → ℕ → KnowledgeDb → KnowledgeDb
activate_latest tenant d now db = record db {
  chunks = update_where (in_document tenant d.id) (show_chunk active now) (
      update_where (in_older tenant d.document_key d.version db.documents) (show_chunk inactive now)
        db.chunks);
  documents = update_where (is_document tenant d.id) (show_document active now) (
      update_where (is_older tenant d.document_key d.version) (show_document inactive now)
        db.documents);
}

-- `_keep_stale_inactive`
unfoldable pub keep_stale_inactive : ℕ → DocumentRow → ℕ → KnowledgeDb → KnowledgeDb
keep_stale_inactive tenant d now db = record db {
  chunks = update_where (in_document tenant d.id) (show_chunk inactive now) db.chunks;
  documents = update_where (is_document tenant d.id) (show_document inactive now) db.documents;
}

-- The row of the locking `SELECT`: the running job, its document, and its chunk with the hash.
unfoldable pub locked_job :
    ℕ → ℕ → Str → KnowledgeDb → Option (EmbeddingJobRow × (DocumentRow × ChunkRow))
unfolding first_where
locked_job tenant job_id hash db = and_next (first_where (runs tenant job_id) db.jobs) (λ j.
    and_next (first_where (is_document tenant j.document_id) db.documents) (λ d.
      and_next (first_where (chunk_at tenant j.chunk_id) db.chunks)
        (λ c. if str_eq c.content_hash hash then some (j, (d, c)) else none)))

abbrev pub same_embedding : EmbeddingRow → EmbeddingRow → Bool
same_embedding new e =
    e.tenant_id == new.tenant_id && e.chunk_id == new.chunk_id && str_eq e.model_key new.model_key

-- `INSERT … ON CONFLICT … DO UPDATE`
unfoldable pub upsert_embedding : EmbeddingRow → List EmbeddingRow → List EmbeddingRow
upsert_embedding new rows =
    if any (same_embedding new) rows
    then update_where (same_embedding new) (λ e. new) rows
    else rows ++ new ∷ []

abbrev pub finish_row : ℕ → EmbeddingJobRow → EmbeddingJobRow
finish_row now j = record j {
  status = succeeded;
  finished_at = some now;
  error_code = none;
  next_retry_at = none;
  updated_at = now;
}

-- `tenant_id = … AND document_id = … AND status <> 'SUCCEEDED'`
abbrev pub unfinished : ℕ → ℕ → EmbeddingJobRow → Bool
unfinished tenant id j = j.tenant_id == tenant && j.document_id == id && not (is_succeeded j.status)

abbrev pub is_newer : ℕ → Str → ℕ → DocumentRow → Bool
is_newer tenant key version d = of_key tenant key d && ltb version d.version

-- What follows the update of the job: the counts and the change of the versions.
unfoldable pub settle : ℕ → DocumentRow → ℕ → KnowledgeDb → KnowledgeDb
unfolding activate_latest keep_stale_inactive
settle tenant d now db =
    if any (unfinished tenant d.id) db.jobs
    then db
    else if any (is_newer tenant d.document_key d.version) db.documents
    then keep_stale_inactive tenant d now db
    else activate_latest tenant d now db

module _ (prim : Primitives) where
  -- `normalize_embeddings([vector], expected_count=1)[0]`, of floats.
  unfoldable pub normalize_embedding : List ℕ → Option (List ℕ)
  normalize_embedding vector =
      let norm : ℕ = prim.euclidean_norm vector in
      if length vector == embedding_dimensions
        && all prim.is_finite vector
        && prim.is_finite norm
        && not (norm == 0)
      then some (map (λ v. prim.divide v norm) vector)
      else none

  abbrev pub embedding_row : ℕ → ChunkRow → EmbeddingJobRow → List ℕ → ℕ → EmbeddingRow
  embedding_row tenant c j vector now = record {
    tenant_id = tenant;
    chunk_id = j.chunk_id;
    model_key = j.model_key;
    dimensions = embedding_dimensions;
    embedding = vector;
    content_hash = c.content_hash;
    embedded_at = now;
  }

  -- The upsert and the update of the job, which the lock makes find it running.
  abbrev pub finish_embedding :
      ℕ → ℕ → ChunkRow → EmbeddingJobRow → List ℕ → ℕ → KnowledgeDb → KnowledgeDb
  finish_embedding tenant job_id c j vector now db = record db {
    embeddings = upsert_embedding (embedding_row tenant c j vector now) db.embeddings;
    jobs = update_where (runs tenant job_id) (finish_row now) db.jobs;
  }

  abbrev pub succeed_locked :
      ℕ
      → ℕ
      → List ℕ
      → ℕ
      → Option (EmbeddingJobRow × (DocumentRow × ChunkRow))
      → Exec KnowledgeDb Failure Bool
  succeed_locked tenant job_id vector now none db = (ok false, db)
  succeed_locked tenant job_id vector now (some (j, (d, c))) db =
      (ok true, settle tenant d now (finish_embedding tenant job_id c j vector now db))

  abbrev pub succeed_with : ℕ → ℕ → Str → ℕ → Option (List ℕ) → Exec KnowledgeDb Failure Bool
  succeed_with tenant job_id hash now none db = (raise embedding, db)
  succeed_with tenant job_id hash now (some vector) db =
      succeed_locked tenant job_id vector now (locked_job tenant job_id hash db) db

  -- `succeed`
  unfoldable pub succeed : ℕ → ℕ → List ℕ → Str → ℕ → Exec KnowledgeDb Failure Bool
  unfolding normalize_embedding locked_job upsert_embedding settle valid_content_hash
  succeed tenant job_id vector hash now db =
      if valid_content_hash hash
      then succeed_with tenant job_id hash now (normalize_embedding vector) db
      else (raise value_error, db)
