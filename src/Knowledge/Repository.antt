-- ===== src/Knowledge/Repository.antt =====
-- The versions of the documents and the jobs that embed their chunks
-- (apps/ai-service/app/knowledge/repository.py).
-- One method is one transaction; an exception in it rolls the tables back. A tenant, a job's
-- identifier and an instant are numbers: that they are UUIDs and aware datetimes is their type. The
-- clock of the database is the argument `db_now`.
use enterprise_work_order_ai.Prelude.{
  ℕ, suc, ◌+◌, Bool, true, false, not, ◌&&◌, ◌||◌, Option, none, some, List, [], ◌∷◌, ◌++◌, map,
  leb, ◌==◌, length, any, all, keep_if, if◌then◌else◌,
}
use enterprise_work_order_ai.Prelude.Exec.{ok, raise, Exec}
use enterprise_work_order_ai.Prelude.Sql.{order_by}
use enterprise_work_order_ai.Prelude.Text.{Str, codes, strip, nonempty, str_eq, elem}
use enterprise_work_order_ai.Knowledge.Models.{DocumentDraft, ChunkDraft, IngestResult}
use enterprise_work_order_ai.Knowledge.Rows.{
  Failure, value_error, integrity_error, Visibility, EmbeddingStatus, DocumentRow, ChunkRow,
  EmbeddingJobRow, KnowledgeDb, insert_new, insert_all, document_clash, chunk_conflict, chunk_clash,
  job_conflict, job_clash, chunk_of_job,
}
use enterprise_work_order_ai.Quality.Schema.{distinct_count}

-- What the code takes from outside: `uuid5` under its namespace, SHA-256 as hex digits, `str` of a
-- UUID and of an integer, and of the arithmetic on floats the test for a finite one, the square root
-- of the sum of the squares, and the division.
pub record Primitives : Type 0 where
  pub identity_uuid : Str → ℕ
  pub sha256 : Str → Str
  pub uuid_text : ℕ → Str
  pub decimal : ℕ → Str
  pub is_finite : ℕ → Bool
  pub euclidean_norm : List ℕ → ℕ
  pub divide : ℕ → ℕ → ℕ

-- `"\0".join(parts)`
abbrev pub join_nul : List Str → Str
join_nul [] = []
join_nul (s ∷ []) = s
join_nul (s ∷ t ∷ rest) = s ++ (0 ∷ join_nul (t ∷ rest))

abbrev pub has_nul : Str → Bool
has_nul = any (λ c. c == 0)

-- What `_require_model_key` and `_require_error_code` let pass.
abbrev pub is_stable_key : ℕ → Str → Bool
is_stable_key most s = nonempty s && str_eq (strip s) s && leb (length s) most && not (has_nul s)

abbrev pub is_hex_digit : ℕ → Bool
is_hex_digit c = (leb b'0' c && leb c b'9') || (leb b'a' c && leb c b'f')

-- What `_require_content_hash` lets pass.
unfoldable pub valid_content_hash : Str → Bool
valid_content_hash s = length s == 64 && all is_hex_digit s

-- `len(set(ordinals))`
abbrev pub distinct_ordinals : List ℕ → ℕ
distinct_ordinals [] = 0
distinct_ordinals (n ∷ ns) = let rest = distinct_ordinals ns in if elem n ns then rest else suc rest

-- What `_require_unique_chunks` lets pass.
unfoldable pub unique_chunks : List ChunkDraft → Bool
unique_chunks chunks =
    leb 1 (length chunks)
    && distinct_count (map (λ (c : ChunkDraft). c.chunk_key) chunks) == length chunks
    && distinct_ordinals (map (λ (c : ChunkDraft). c.ordinal) chunks) == length chunks

-- The document versions of a key.
abbrev pub of_key : ℕ → Str → DocumentRow → Bool
of_key tenant key d = d.tenant_id == tenant && str_eq d.document_key key

abbrev pub newer_first : DocumentRow → DocumentRow → Bool
newer_first a b = leb b.version a.version

abbrev pub first_row {ℓ} : {R : Type ℓ} → List R → Option R
first_row [] = none
first_row (r ∷ rows) = some r

-- `ORDER BY version DESC LIMIT 1`
unfoldable pub latest_document : ℕ → Str → List DocumentRow → Option DocumentRow
unfolding order_by
latest_document tenant key documents =
    first_row (order_by newer_first (keep_if (of_key tenant key) documents))

module _ (prim : Primitives) where
  -- `_stable_uuid`
  abbrev pub stable_uuid : ℕ → List Str → ℕ
  stable_uuid tenant parts = prim.identity_uuid (join_nul (prim.uuid_text tenant ∷ parts))

  -- `_business_key`
  abbrev pub business_key : ℕ → Str → ℕ → Str → Str → Str
  business_key tenant key version chunk_key model_key =
      prim.sha256
        (join_nul (prim.uuid_text tenant ∷ key ∷ prim.decimal version ∷ chunk_key ∷ model_key ∷ []))

  abbrev pub document_id_of : ℕ → Str → ℕ → ℕ
  document_id_of tenant key version = stable_uuid tenant (key ∷ prim.decimal version ∷ [])

  abbrev pub document_row : ℕ → ℕ → DocumentDraft → ℕ → DocumentRow
  document_row db_now tenant document version = record {
    id = document_id_of tenant document.document_key version;
    tenant_id = tenant;
    document_key = document.document_key;
    title = document.title;
    source_uri = document.source_uri;
    content_hash = document.content_hash;
    version = version;
    status = Visibility.pending;
    updated_at = db_now;
  }

  abbrev pub chunk_row : ℕ → ℕ → DocumentDraft → ℕ → ChunkDraft → ChunkRow
  chunk_row db_now tenant document version chunk = record {
    id = stable_uuid tenant (document.document_key ∷ prim.decimal version ∷ chunk.chunk_key ∷ []);
    tenant_id = tenant;
    document_id = document_id_of tenant document.document_key version;
    chunk_key = chunk.chunk_key;
    section = chunk.section;
    content = chunk.content;
    content_hash = chunk.content_hash;
    token_count = chunk.token_count;
    ordinal = chunk.ordinal;
    status = Visibility.pending;
    updated_at = db_now;
  }

  abbrev pub job_row : ℕ → ℕ → DocumentDraft → ℕ → Str → ChunkDraft → EmbeddingJobRow
  job_row db_now tenant document version model_key chunk =
      let key : Str = business_key tenant document.document_key version chunk.chunk_key model_key in
      record {
        id = stable_uuid tenant (codes "embedding-job" ∷ key ∷ []);
        tenant_id = tenant;
        document_id = document_id_of tenant document.document_key version;
        chunk_id =
            stable_uuid tenant
              (document.document_key ∷ prim.decimal version ∷ chunk.chunk_key ∷ []);
        business_key = key;
        model_key = model_key;
        status = EmbeddingStatus.pending;
        retry_count = 0;
        error_code = none;
        next_retry_at = none;
        started_at = none;
        finished_at = none;
        created_at = db_now;
        updated_at = db_now;
      }

  -- What the transaction commits if its three inserts go through, and each new job has its chunk.
  abbrev pub commit_version :
      IngestResult
      → List EmbeddingJobRow
      → Option (List DocumentRow)
      → Option (List ChunkRow)
      → Option (List EmbeddingJobRow)
      → Exec KnowledgeDb Failure IngestResult
  commit_version result new (some documents) (some chunks) (some jobs) db =
      if all (λ j. any (chunk_of_job j) chunks) new
      then (ok result, record db { documents = documents; chunks = chunks; jobs = jobs })
      else (raise integrity_error, db)
  commit_version result new _ _ _ db = (raise integrity_error, db)

  -- The inserts of a new version.
  unfoldable pub insert_version :
      ℕ → ℕ → DocumentDraft → List ChunkDraft → Str → ℕ → Exec KnowledgeDb Failure IngestResult
  unfolding insert_all
  insert_version db_now tenant document chunks model_key version db =
      let rows : List ChunkRow = map (chunk_row db_now tenant document version) chunks in
      let new : List EmbeddingJobRow =
        map (job_row db_now tenant document version model_key) chunks in
      commit_version
        (record {
          document_id = document_id_of tenant document.document_key version;
          version = version;
          chunk_count = length chunks;
          skipped = false;
        })
        new (insert_new document_clash (document_row db_now tenant document version) db.documents)
        (insert_all chunk_conflict chunk_clash rows db.chunks)
        (insert_all job_conflict job_clash new db.jobs) db

  abbrev pub skipped_result : DocumentRow → IngestResult
  skipped_result d = record {
    document_id = d.id;
    version = d.version;
    chunk_count = 0;
    skipped = true;
  }

  abbrev pub version_after :
      ℕ
      → ℕ
      → DocumentDraft
      → List ChunkDraft
      → Str
      → Option DocumentRow
      → Exec KnowledgeDb Failure IngestResult
  version_after db_now tenant document chunks model_key none db =
      insert_version db_now tenant document chunks model_key 1 db
  version_after db_now tenant document chunks model_key (some latest) db =
      if str_eq latest.content_hash document.content_hash
      then (ok (skipped_result latest), db)
      else insert_version db_now tenant document chunks model_key (latest.version + 1) db

  -- `create_version`
  unfoldable pub create_version :
      ℕ → ℕ → DocumentDraft → List ChunkDraft → Str → Exec KnowledgeDb Failure IngestResult
  unfolding insert_version latest_document unique_chunks
  create_version db_now tenant document chunks model_key db =
      if is_stable_key 200 model_key && unique_chunks chunks
      then version_after db_now tenant document chunks model_key
          (latest_document tenant document.document_key db.documents) db
      else (raise value_error, db)
