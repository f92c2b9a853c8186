-- ===== src/Knowledge/Worker.antt =====
-- The worker that embeds the chunks (`EmbeddingWorker` in apps/ai-service/app/knowledge/ingest.py).
-- Instants are numbers: that the clock's readings are aware is their type, and that a job's
-- identifier is a UUID is its type.
pub mod Tables
pub mod Released
use enterprise_work_order_ai.Prelude.{
  ℕ, zero, suc, ◌+◌, Bool, true, false, not, ◌&&◌, Option, none, some, List, [], ◌∷◌, ◌==◌, length,
  ltb, if◌then◌else◌,
}
use enterprise_work_order_ai.Prelude.Exec.{Outcome, ok, raise, Exec, pure, throw, ◌>>=◌, ◌>>◌}
use enterprise_work_order_ai.Prelude.Text.{Str, codes, str_eq}
use enterprise_work_order_ai.Knowledge.Models.{ClaimedEmbeddingJob}
use enterprise_work_order_ai.Knowledge.Rows.{Failure, value_error, runtime_error, cancelled}

-- What `embed` raises: an `EmbeddingError` with its code and whether it may be retried, another
-- `Exception`, or a `BaseException` that is none.
pub data EmbedError : Type 0 where
  embedding_error : (code : Str) (retryable : Bool) → EmbedError
  other_error : EmbedError
  interrupted : EmbedError

-- `WorkerRepository`, `EmbeddingProvider` for one text, and the clock.
pub record EmbeddingServices (S : Type 0) : Type 0 where
  pub claim_jobs :
      (tenant limit : ℕ) (model_key : Str) (now : ℕ) → Exec S Failure (List ClaimedEmbeddingJob)
  pub succeed_job :
      (tenant job_id : ℕ) (vector : List ℕ) (hash : Str) (now : ℕ) → Exec S Failure Bool
  pub retry_job : (tenant job_id : ℕ) (code : Str) (next_retry_at now : ℕ) → Exec S Failure Bool
  pub fail_job : (tenant job_id : ℕ) (code : Str) (now : ℕ) → Exec S Failure Bool
  pub embed : Str → Exec S EmbedError (List (List ℕ))
  pub provider_model_key : Str
  pub clock : S → ℕ
  pub retry_delay_seconds : ℕ

-- `_claimed`: the keys of a `dict` are distinct.
abbrev pub Claims : Type 0
Claims = List (ℕ × ClaimedEmbeddingJob)

-- What the worker's repository reads and changes, and the worker's own `_claimed`.
abbrev pub WorkerState : Type 0 → Type 0
WorkerState S = S × Claims

pub record WorkerRunResult : Type 0 where
  pub claimed : ℕ
  pub succeeded : ℕ
  pub retried : ℕ
  pub failed : ℕ
  pub completed_at : ℕ

-- The counters of `run_once`.
pub record EmbeddingTally : Type 0 where
  pub succeeded : ℕ
  pub retried : ℕ
  pub failed : ℕ

-- `claims.get(job_id)`
unfoldable pub find_claim : ℕ → Claims → Option ClaimedEmbeddingJob
find_claim id [] = none
find_claim id (c ∷ claims) = let rest = find_claim id claims in if c.0 == id then some c.1 else rest

-- `claims[job.id] = job`
unfoldable pub set_claim : ClaimedEmbeddingJob → Claims → Claims
set_claim job [] = (job.id, job) ∷ []
set_claim job (c ∷ claims) =
    let rest = set_claim job claims in if c.0 == job.id then (job.id, job) ∷ claims else c ∷ rest

-- `claims.pop(job_id, None)`
unfoldable pub pop_claim : ℕ → Claims → Claims
pop_claim id [] = []
pop_claim id (c ∷ claims) = let rest = pop_claim id claims in if c.0 == id then rest else c ∷ rest

-- `existing == job`
abbrev pub same_job : ClaimedEmbeddingJob → ClaimedEmbeddingJob → Bool
same_job a b =
    a.id == b.id
    && a.tenant_id == b.tenant_id
    && a.document_id == b.document_id
    && a.chunk_id == b.chunk_id
    && str_eq a.model_key b.model_key
    && str_eq a.content b.content
    && str_eq a.content_hash b.content_hash
    && a.retry_count == b.retry_count

abbrev pub conflicts : ClaimedEmbeddingJob → Option ClaimedEmbeddingJob → Bool
conflicts job none = false
conflicts job (some existing) = not (same_job existing job)

-- `EmbeddingWorker.__init__`: false where it raises.
abbrev pub valid_embedding_worker : ℕ → Bool
valid_embedding_worker retry_delay = ltb 0 retry_delay

module _ {S : Type 0} (services : EmbeddingServices S) where
  -- A call of the repository or of the provider.
  abbrev pub on_store : {E A : Type 0} → Exec S E A → Exec (WorkerState S) E A
  on_store m w = ((m w.0).0, ((m w.0).1, w.1))

  abbrev pub now_of : WorkerState S → ℕ
  now_of w = services.clock w.0

  -- The loop of `claim`: what it has taken in before it raises stays.
  unfoldable pub remember : ℕ → List ClaimedEmbeddingJob → Exec (WorkerState S) Failure Bool
  unfolding find_claim set_claim
  remember tenant [] w = (ok true, w)
  remember tenant (job ∷ jobs) w =
      let rest = remember tenant jobs (w.0, set_claim job w.1) in
      if job.tenant_id == tenant
        && str_eq job.model_key services.provider_model_key
        && not (conflicts job (find_claim job.id w.1))
      then rest
      else (raise runtime_error, w)

  -- `claim`
  unfoldable pub claim_batch : ℕ → ℕ → Exec (WorkerState S) Failure (List ClaimedEmbeddingJob)
  unfolding remember
  claim_batch tenant limit w =
      (on_store (services.claim_jobs tenant limit services.provider_model_key (now_of w))
          >>= λ jobs. remember tenant jobs >> pure jobs)
        w

  -- `_require_claim`, then the call, then the `pop`.
  abbrev pub with_claim :
      ℕ
      → Option ClaimedEmbeddingJob
      → (ClaimedEmbeddingJob → Exec S Failure Bool)
      → Exec (WorkerState S) Failure Bool
  with_claim job_id none call = throw value_error
  with_claim job_id (some job) call =
      on_store (call job) >>= λ changed w. (ok changed, (w.0, pop_claim job_id w.1))

  -- `succeed`
  abbrev pub report_success : ℕ → List ℕ → Exec (WorkerState S) Failure Bool
  report_success job_id vector w =
      with_claim job_id (find_claim job_id w.1)
        (λ job. services.succeed_job job.tenant_id job.id vector job.content_hash (now_of w)) w

  -- `retry`
  abbrev pub report_retry : ℕ → Str → ℕ → Exec (WorkerState S) Failure Bool
  report_retry job_id code next_retry_at w =
      with_claim job_id (find_claim job_id w.1)
        (λ job. services.retry_job job.tenant_id job.id code next_retry_at (now_of w)) w

  -- `fail`
  abbrev pub report_failure : ℕ → Str → Exec (WorkerState S) Failure Bool
  report_failure job_id code w =
      with_claim job_id (find_claim job_id w.1)
        (λ job. services.fail_job job.tenant_id job.id code (now_of w)) w

  abbrev pub count_succeeded : EmbeddingTally → Bool → EmbeddingTally
  count_succeeded t changed = if changed then record t { succeeded = suc t.succeeded } else t

  abbrev pub count_retried : EmbeddingTally → Bool → EmbeddingTally
  count_retried t changed = if changed then record t { retried = suc t.retried } else t

  abbrev pub count_failed : EmbeddingTally → Bool → EmbeddingTally
  count_failed t changed = if changed then record t { failed = suc t.failed } else t

  abbrev pub retry_later :
      ClaimedEmbeddingJob → Str → EmbeddingTally → Exec (WorkerState S) Failure EmbeddingTally
  retry_later job code t w =
      (report_retry job.id code (now_of w + services.retry_delay_seconds) >>= λ changed.
      pure (count_retried t changed))
        w

  -- The `except` clauses around `embed`, and what follows the `try`. An answer without a vector makes
  -- `[0]` raise an `IndexError`.
  unfoldable pub handle_embedded :
      ClaimedEmbeddingJob
      → EmbeddingTally
      → Outcome EmbedError (List (List ℕ))
      → Exec (WorkerState S) Failure EmbeddingTally
  unfolding find_claim pop_claim
  handle_embedded job t (ok []) = retry_later job (codes "EMBEDDING_PROVIDER_UNAVAILABLE") t
  handle_embedded job t (ok (vector ∷ _)) =
      report_success job.id vector >>= λ changed. pure (count_succeeded t changed)
  handle_embedded job t (raise (embedding_error code true)) = retry_later job code t
  handle_embedded job t (raise (embedding_error code false)) =
      report_failure job.id code >>= λ changed. pure (count_failed t changed)
  handle_embedded job t (raise other_error) =
      retry_later job (codes "EMBEDDING_PROVIDER_UNAVAILABLE") t
  handle_embedded job t (raise interrupted) = throw cancelled

  -- One turn of the loop over the jobs.
  unfoldable pub embed_job :
      ClaimedEmbeddingJob → EmbeddingTally → Exec (WorkerState S) Failure EmbeddingTally
  unfolding handle_embedded
  embed_job job t w =
      let answer = on_store (services.embed job.content) w in
      handle_embedded job t answer.0 answer.1

  unfoldable pub embed_jobs :
      List ClaimedEmbeddingJob → EmbeddingTally → Exec (WorkerState S) Failure EmbeddingTally
  unfolding embed_job
  embed_jobs [] t = pure t
  embed_jobs (job ∷ jobs) t = embed_job job t >>= λ t'. embed_jobs jobs t'

  -- The result, at the clock's last reading.
  abbrev pub run_summary :
      List ClaimedEmbeddingJob → EmbeddingTally → Exec (WorkerState S) Failure WorkerRunResult
  run_summary jobs t w = (
    ok (record {
      claimed = length jobs;
      succeeded = t.succeeded;
      retried = t.retried;
      failed = t.failed;
      completed_at = now_of w;
    }),
    w,
  )

  -- `run_once`
  unfoldable pub run_embeddings : ℕ → ℕ → Exec (WorkerState S) Failure WorkerRunResult
  unfolding claim_batch embed_jobs
  run_embeddings tenant limit = claim_batch tenant limit >>= λ jobs.
      embed_jobs jobs (record { succeeded = 0; retried = 0; failed = 0 }) >>= λ t.
      run_summary jobs t
