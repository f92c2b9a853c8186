-- ===== src/Quality/Worker/Release.antt =====
-- A worker lets go of each job whose inspection failed.
use enterprise_work_order_ai.Prelude.{
  ℕ, ◌+◌, ◌<◌, ◌≡◌, refl, String, Bool, false, ◌&&◌, some, [], ◌∷◌, arith, Bool-cases, inl, inr,
  ltb, All, any,
}
use enterprise_work_order_ai.Prelude.Exec.{Outcome, ok, raise}
use enterprise_work_order_ai.Prelude.Sql.{update_where}
use enterprise_work_order_ai.Llm.Errors.{ProviderError, code, retryable}
use enterprise_work_order_ai.Quality.Errors.{
  Exc, provider, quality_output, type_error, value_error, runtime_error, integrity_error, cancelled,
  other,
}
use enterprise_work_order_ai.Quality.Jobs.{
  QualityJobRow, Table, holds_claim, retry_quality_job, fail_quality_job,
}
use enterprise_work_order_ai.Quality.Lifecycle.{Reach}
use enterprise_work_order_ai.Quality.Lifecycle.Invariants.{Reach-All}
use enterprise_work_order_ai.Quality.Lifecycle.Keys.{three_at_most}
use enterprise_work_order_ai.Quality.Models.{Runtime, ClaimedQualityJob, QualityResultRecord}
use enterprise_work_order_ai.Quality.Store.{Db}
use enterprise_work_order_ai.Quality.Worker.{Tally, retry_delay, max_model_attempts, handle}
use enterprise_work_order_ai.Quality.Worker.Runs.{repository}
use enterprise_work_order_ai.Quality.Worker.Returns.{IsCaught, some_delay}

abbrev pub IsError : Outcome Exc QualityResultRecord → Type 0
IsError (ok result) = ⊥
IsError (raise e) = IsCaught (raise e)

abbrev Three : QualityJobRow → Type 0
Three r = r.max_retry_count ≡ 3

module _ (job : ClaimedQualityJob) where
  fail_quality_job-released :
      (code : String) (now : ℕ) (rows : Table)
      → any (holds_claim job) (fail_quality_job job code now rows).1 ≡ false
  unfolding fail_quality_job update_where
  fail_quality_job-released code now [] = refl
  fail_quality_job-released code now (r ∷ rows) =
      ground (arith, fail_quality_job-released code now rows)

  retry_quality_job-released :
      (code : String) (at now : ℕ) (rows : Table)
      → All Three rows
      → job.retry_count < 3
      → any (holds_claim job) (retry_quality_job job code at now rows).1 ≡ false
  unfolding retry_quality_job update_where
  retry_quality_job-released code at now [] three left = refl
  retry_quality_job-released code at now (r ∷ rows) three left =
      ground (arith, retry_quality_job-released code at now rows three.1 left)

  module _ (rt : Runtime) (locked : ℕ → Bool) (now : ℕ) (t : Tally) (db : Db) where
    provider-released :
        (e : ProviderError) (delay : ℕ)
        → All Three db.jobs
        → retry_delay job.retry_count ≡ some delay
        → any
            (holds_claim job)
            (handle (repository rt locked) now job t (raise (provider e)) db).1.jobs
          ≡ false
    unfolding handle
    provider-released e delay three h =
        elim (Bool-cases (retryable e && ltb job.retry_count max_model_attempts)) [
          | inl q ↦
              rw (q, h)
                (retry_quality_job-released (code e) (now + delay) now db.jobs three (ground arith))
          | inr q ↦ rw q (fail_quality_job-released (code e) now db.jobs)
        ]

    -- When the processor has raised an error that the worker has a clause for, on a claim of a table
    -- that steps reach, no row holds the claim after the worker's answer: the job waits for its
    -- retry or has failed, and is not left running until its lease expires.
    pub handle-released :
        (o : Outcome Exc QualityResultRecord)
        → Reach rt [] db.jobs
        → 0 < job.retry_count
        → IsError o
        → any (holds_claim job) (handle (repository rt locked) now job t o db).1.jobs ≡ false
    unfolding handle
    handle-released (ok result) reached counted error = absurd error
    handle-released (raise (provider e)) reached counted error =
        let (delay, h) = some_delay job.retry_count counted in
        provider-released e delay (Reach-All rt Three (three_at_most 0 0 rt) reached tt) h
    handle-released (raise quality_output) reached counted error =
        fail_quality_job-released "QUALITY_OUTPUT_INVALID" now db.jobs
    handle-released (raise type_error) reached counted error =
        fail_quality_job-released "QUALITY_INPUT_INVALID" now db.jobs
    handle-released (raise value_error) reached counted error =
        fail_quality_job-released "QUALITY_INPUT_INVALID" now db.jobs
    handle-released (raise runtime_error) reached counted error = absurd error
    handle-released (raise integrity_error) reached counted error = absurd error
    handle-released (raise cancelled) reached counted error = absurd error
    handle-released (raise (other n)) reached counted error = absurd error
