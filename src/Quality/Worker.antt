-- ===== src/Quality/Worker.antt =====
-- The workers that drive the quality loop (apps/ai-service/app/quality/worker.py).
-- Instants count seconds. A clock reading is `none` where the clock gives a datetime without zone.
-- The checks that an argument is a UUID, or no bool, are those of the types here.
pub mod Delay
pub mod Runs
pub mod Returns
pub mod Release
pub mod Turns
use enterprise_work_order_ai.Prelude.{
  ℕ, zero, suc, ◌+◌, ◌*◌, ◌-◌, ◌^◌, min, String, Bool, true, false, not, ◌&&◌, ◌||◌, Option, none,
  some, List, [], ◌∷◌, length, any, leb, ltb, ◌==◌, if◌then◌else◌,
}
use enterprise_work_order_ai.Prelude.Exec.{Outcome, ok, raise, Exec, pure, throw, ◌>>=◌, ◌>>◌}
use enterprise_work_order_ai.Llm.Errors.{ProviderError, code, retryable}
use enterprise_work_order_ai.Quality.Errors.{
  Exc, provider, quality_output, type_error, value_error, runtime_error, integrity_error, cancelled,
  other,
}
use enterprise_work_order_ai.Quality.Models.{
  ClaimedQualityEvent, ClaimedQualityJob, QualityJob, QualityResultRecord,
}

-- What the worker asks of the repository: `QualityWorkerRepository`.
pub record QualityWorkerRepository (S : Type 0) : Type 0 where
  pub recover_expired : (tenant now lease_expired_before : ℕ) → Exec S Exc ℕ
  pub claim_quality_jobs : (tenant limit now : ℕ) → Exec S Exc (List ClaimedQualityJob)
  pub retry_quality_job :
      (job : ClaimedQualityJob) (code : String) (next_retry_at now : ℕ) → Exec S Exc Bool
  pub fail_quality_job : (job : ClaimedQualityJob) (code : String) (now : ℕ) → Exec S Exc Bool

pub record QualityWorkerRunResult : Type 0 where
  pub claimed : ℕ
  pub succeeded : ℕ
  pub retried : ℕ
  pub failed : ℕ
  pub recovered : ℕ
  pub completed_at : ℕ

-- The three counters of `run_once`.
pub record Tally : Type 0 where
  pub succeeded : ℕ
  pub retried : ℕ
  pub failed : ℕ

abbrev pub max_batch_limit : ℕ
max_batch_limit = 20

abbrev pub max_model_attempts : ℕ
max_model_attempts = 3

-- In seconds; `none` where the source raises `ValueError`.
unfoldable pub retry_delay : ℕ → Option ℕ
retry_delay zero = none
retry_delay (suc n) = some (min (5 * 2 ^ n) 60 * 60)

-- `1 <= limit <= _MAX_BATCH_LIMIT`
abbrev pub valid_limit : ℕ → Bool
valid_limit limit = leb 1 limit && leb limit max_batch_limit

-- `QualityWorker.__init__`: `none` where it raises. The lease is in seconds.
unfoldable pub valid_worker : (lease_timeout max_attempts : ℕ) → Bool
valid_worker lease_timeout max_attempts = ltb 0 lease_timeout && max_attempts == max_model_attempts

abbrev pub count_retried : Tally → Bool → Tally
count_retried t changed = if changed then record t { retried = suc t.retried } else t

abbrev pub count_failed : Tally → Bool → Tally
count_failed t changed = if changed then record t { failed = suc t.failed } else t

module _ {S : Type 0} (repository : QualityWorkerRepository S) where
  abbrev pub fail_job : ℕ → ClaimedQualityJob → String → Tally → Exec S Exc Tally
  fail_job now job code t =
      repository.fail_quality_job job code now >>= λ changed. pure (count_failed t changed)

  abbrev pub retry_job : ℕ → ClaimedQualityJob → ProviderError → Tally → Option ℕ → Exec S Exc Tally
  retry_job now job e t none = throw value_error
  retry_job now job e t (some delay) =
      repository.retry_quality_job job (code e) (now + delay) now >>= λ changed.
      pure (count_retried t changed)

  -- The `except` clauses and the `else` of the `try` around `process`.
  unfoldable pub handle :
      ℕ → ClaimedQualityJob → Tally → Outcome Exc QualityResultRecord → Exec S Exc Tally
  handle now job t (ok result) = pure (record t { succeeded = suc t.succeeded })
  handle now job t (raise (provider e)) =
      if retryable e && ltb job.retry_count max_model_attempts
      then retry_job now job e t (retry_delay job.retry_count)
      else fail_job now job (code e) t
  handle now job t (raise quality_output) = fail_job now job "QUALITY_OUTPUT_INVALID" t
  handle now job t (raise type_error) = fail_job now job "QUALITY_INPUT_INVALID" t
  handle now job t (raise value_error) = fail_job now job "QUALITY_INPUT_INVALID" t
  handle now job t (raise runtime_error) = throw runtime_error
  handle now job t (raise integrity_error) = throw integrity_error
  handle now job t (raise cancelled) = throw cancelled
  handle now job t (raise (other n)) = throw (other n)

  module _ (process : ClaimedQualityJob → Exec S Exc QualityResultRecord) where
    -- One turn of the loop over the jobs.
    unfoldable pub run_job : ℕ → ℕ → ClaimedQualityJob → Tally → Exec S Exc Tally
    unfolding handle
    run_job tenant now job t s =
        if job.tenant_id == tenant
        then handle now job t (process job s).0 (process job s).1
        else (raise runtime_error, s)

    unfoldable pub run_jobs : ℕ → ℕ → List ClaimedQualityJob → Tally → Exec S Exc Tally
    unfolding run_job
    run_jobs tenant now [] t = pure t
    run_jobs tenant now (job ∷ jobs) t =
        run_job tenant now job t >>= λ t'. run_jobs tenant now jobs t'

    -- The loop over the jobs and the result of the run.
    unfoldable pub run_claimed :
        ℕ → ℕ → ℕ → List ClaimedQualityJob → Exec S Exc QualityWorkerRunResult
    unfolding run_jobs
    run_claimed tenant now recovered jobs =
        run_jobs tenant now jobs (record { succeeded = 0; retried = 0; failed = 0 }) >>= λ t.
        pure (record {
          claimed = length jobs;
          succeeded = t.succeeded;
          retried = t.retried;
          failed = t.failed;
          recovered = recovered;
          completed_at = now;
        })

    unfoldable pub claim_and_run : ℕ → ℕ → ℕ → ℕ → Exec S Exc QualityWorkerRunResult
    unfolding run_claimed
    claim_and_run tenant limit now recovered =
        repository.claim_quality_jobs tenant limit now >>= run_claimed tenant now recovered

    -- From the clock's reading on.
    unfoldable pub run_at : ℕ → ℕ → ℕ → ℕ → Exec S Exc QualityWorkerRunResult
    unfolding claim_and_run
    run_at lease tenant limit now =
        repository.recover_expired tenant now (now - lease) >>= claim_and_run tenant limit now

    -- `QualityWorker.run_once`
    unfoldable pub run_once : ℕ → Option ℕ → ℕ → ℕ → Exec S Exc QualityWorkerRunResult
    unfolding run_at
    run_once lease none tenant limit s = (raise value_error, s)
    run_once lease (some now) tenant limit s =
        if valid_limit limit then run_at lease tenant limit now s else (raise value_error, s)
