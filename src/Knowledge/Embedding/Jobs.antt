-- ===== src/Knowledge/Embedding/Jobs.antt =====
-- Claiming, retrying and failing embedding jobs
-- (apps/ai-service/app/knowledge/repository.py).
use enterprise_work_order_ai.Prelude.{
  ℕ, ◌+◌, Bool, true, false, not, ◌&&◌, ◌||◌, Option, none, some, List, [], ◌∷◌, ◌++◌, map, leb,
  ltb, ◌==◌, any, take, keep_if, if◌then◌else◌,
}
use enterprise_work_order_ai.Prelude.Exec.{ok, raise, Exec}
use enterprise_work_order_ai.Prelude.Sql.{update_where, first_where, order_by}
use enterprise_work_order_ai.Prelude.Text.{Str, str_eq, elem}
use enterprise_work_order_ai.Knowledge.Models.{ClaimedEmbeddingJob}
use enterprise_work_order_ai.Knowledge.Repository.{is_stable_key}
use enterprise_work_order_ai.Knowledge.Rows.{
  Failure, value_error, EmbeddingStatus, running, retry_wait, succeeded, failed, ChunkRow,
  EmbeddingJobRow, KnowledgeDb,
}

-- `_MAX_CLAIM_LIMIT`
abbrev pub max_claim_limit : ℕ
max_claim_limit = 100

abbrev pub is_pending : EmbeddingStatus → Bool
is_pending EmbeddingStatus.pending = true
is_pending _ = false

abbrev pub in_progress : EmbeddingStatus → Bool
in_progress running = true
in_progress _ = false

abbrev pub is_retry_wait : EmbeddingStatus → Bool
is_retry_wait retry_wait = true
is_retry_wait _ = false

abbrev pub is_succeeded : EmbeddingStatus → Bool
is_succeeded succeeded = true
is_succeeded _ = false

-- `next_retry_at <= :now`, which is not true of NULL.
abbrev pub past_due : ℕ → Option ℕ → Bool
past_due now none = false
past_due now (some at) = leb at now

abbrev pub claimable : ℕ → Str → ℕ → EmbeddingJobRow → Bool
claimable tenant model_key now j =
    j.tenant_id == tenant
    && str_eq j.model_key model_key
    && (is_pending j.status || (is_retry_wait j.status && past_due now j.next_retry_at))

abbrev pub chunk_at : ℕ → ℕ → ChunkRow → Bool
chunk_at tenant chunk_id c = c.tenant_id == tenant && c.id == chunk_id

-- The `JOIN` with the chunk, which the primary key makes one at most.
abbrev pub with_chunk : EmbeddingJobRow → Option ChunkRow → List (EmbeddingJobRow × ChunkRow)
with_chunk j none = []
with_chunk j (some c) = (j, c) ∷ []

unfoldable pub join_chunks :
    List ChunkRow → List EmbeddingJobRow → List (EmbeddingJobRow × ChunkRow)
unfolding first_where
join_chunks chunks [] = []
join_chunks chunks (j ∷ jobs) =
    with_chunk j (first_where (chunk_at j.tenant_id j.chunk_id) chunks) ++ join_chunks chunks jobs

abbrev pub due_at : EmbeddingJobRow → ℕ
due_at j = elim j.next_retry_at [ none ↦ j.created_at | some at ↦ at ]

-- `ORDER BY COALESCE(next_retry_at, created_at), created_at, id`
abbrev pub due_before : EmbeddingJobRow × ChunkRow → EmbeddingJobRow × ChunkRow → Bool
due_before a b =
    ltb (due_at a.0) (due_at b.0)
    || (due_at a.0 == due_at b.0
        && (ltb a.0.created_at b.0.created_at
            || (a.0.created_at == b.0.created_at && leb a.0.id b.0.id)))

abbrev pub by_id : EmbeddingJobRow × ChunkRow → EmbeddingJobRow × ChunkRow → Bool
by_id a b = leb a.0.id b.0.id

-- The rows of `candidates`; another transaction holds the rows that are `locked`.
unfoldable pub due_candidates :
    (ℕ → Bool) → ℕ → ℕ → Str → ℕ → KnowledgeDb → List (EmbeddingJobRow × ChunkRow)
unfolding join_chunks order_by
due_candidates locked tenant limit model_key now db = take limit (
    order_by due_before (
      join_chunks db.chunks
        (keep_if (λ j. claimable tenant model_key now j && not (locked j.id)) db.jobs)))

abbrev pub start_job : ℕ → EmbeddingJobRow → EmbeddingJobRow
start_job now j = record j {
  status = running;
  started_at = some now;
  finished_at = none;
  error_code = none;
  next_retry_at = none;
  updated_at = now;
}

-- The `WHERE` of the update. The status is still the one that was selected, under the lock.
abbrev pub picked : List ℕ → ℕ → Str → ℕ → EmbeddingJobRow → Bool
picked ids tenant model_key now j = elem j.id ids && claimable tenant model_key now j

abbrev pub claimed_embedding : EmbeddingJobRow × ChunkRow → ClaimedEmbeddingJob
claimed_embedding r = record {
  id = r.0.id;
  tenant_id = r.0.tenant_id;
  document_id = r.0.document_id;
  chunk_id = r.0.chunk_id;
  model_key = r.0.model_key;
  content = r.1.content;
  content_hash = r.1.content_hash;
  retry_count = r.0.retry_count;
}

-- `claim`
unfoldable pub claim :
    (ℕ → Bool) → ℕ → ℕ → Str → ℕ → Exec KnowledgeDb Failure (List ClaimedEmbeddingJob)
unfolding due_candidates
claim locked tenant limit model_key now db =
    let taken = due_candidates locked tenant limit model_key now db in
    let ids : List ℕ = map (λ (r : EmbeddingJobRow × ChunkRow). r.0.id) taken in
    if is_stable_key 200 model_key && leb 1 limit && leb limit max_claim_limit
    then (
      ok (map claimed_embedding (order_by by_id taken)),
      record db { jobs = update_where (picked ids tenant model_key now) (start_job now) db.jobs },
    )
    else (raise value_error, db)

-- `tenant_id = … AND id = … AND status = 'RUNNING'`
abbrev pub runs : ℕ → ℕ → EmbeddingJobRow → Bool
runs tenant job_id j = j.tenant_id == tenant && j.id == job_id && in_progress j.status

abbrev pub retried_row : Str → ℕ → ℕ → EmbeddingJobRow → EmbeddingJobRow
retried_row code next_retry_at now j = record j {
  status = retry_wait;
  retry_count = j.retry_count + 1;
  error_code = some code;
  next_retry_at = some next_retry_at;
  started_at = none;
  finished_at = none;
  updated_at = now;
}

-- `retry`
unfoldable pub retry : ℕ → ℕ → Str → ℕ → ℕ → Exec KnowledgeDb Failure Bool
retry tenant job_id code next_retry_at now db =
    if is_stable_key 128 code && ltb now next_retry_at
    then (
      ok (any (runs tenant job_id) db.jobs),
      record db {
        jobs = update_where (runs tenant job_id) (retried_row code next_retry_at now) db.jobs;
      },
    )
    else (raise value_error, db)

abbrev pub failed_row : Str → ℕ → EmbeddingJobRow → EmbeddingJobRow
failed_row code now j = record j {
  status = failed;
  error_code = some code;
  next_retry_at = none;
  finished_at = some now;
  updated_at = now;
}

-- `fail`
unfoldable pub fail : ℕ → ℕ → Str → ℕ → Exec KnowledgeDb Failure Bool
fail tenant job_id code now db =
    if is_stable_key 128 code
    then (
      ok (any (runs tenant job_id) db.jobs),
      record db { jobs = update_where (runs tenant job_id) (failed_row code now) db.jobs },
    )
    else (raise value_error, db)
