-- ===== src/Quality/Worker/Returns.antt =====
-- A run of the worker on the table returns, and what it reports adds up.
use enterprise_work_order_ai.Prelude.{
  ℕ, zero, suc, ◌+◌, ◌-◌, ◌≤◌, ◌<◌, ◌≡◌, refl, String, Bool, true, ◌&&◌, some, List, [], ◌∷◌, arith,
  Bool-cases, inl, inr, ltb, ◌==◌, length, All, map,
}
use enterprise_work_order_ai.Prelude.Exec.{Outcome, ok, raise, Exec}
use enterprise_work_order_ai.Prelude.Sql.{returning}
use enterprise_work_order_ai.Llm.Errors.{ProviderError, code, retryable}
use enterprise_work_order_ai.Quality.Errors.{
  Exc, provider, quality_output, type_error, value_error, runtime_error, integrity_error, cancelled,
  other,
}
use enterprise_work_order_ai.Quality.Jobs.{
  Table, recover_expired, claim_quality_jobs, retry_quality_job, fail_quality_job, claimed_job,
  chosen, row_ids, candidates, start_row,
}
use enterprise_work_order_ai.Quality.Lifecycle.{recover, Reach, next}
use enterprise_work_order_ai.Quality.Lifecycle.Claimable.{claim_returns}
use enterprise_work_order_ai.Quality.Models.{Runtime, ClaimedQualityJob, QualityResultRecord}
use enterprise_work_order_ai.Quality.Store.{Db}
use enterprise_work_order_ai.Quality.Worker.{
  QualityWorkerRunResult, Tally, retry_delay, valid_limit, max_model_attempts, count_retried,
  count_failed, fail_job, retry_job, handle, run_job, run_jobs, run_claimed, claim_and_run, run_at,
  run_once,
}
use enterprise_work_order_ai.Quality.Worker.Runs.{repository, zero_tally}

-- The worker has an `except` clause for what the processor did, other than the one that raises.
abbrev pub IsCaught : Outcome Exc QualityResultRecord → Type 0
IsCaught (raise runtime_error) = ⊥
IsCaught (raise integrity_error) = ⊥
IsCaught (raise cancelled) = ⊥
IsCaught (raise (other n)) = ⊥
IsCaught _ = Unit

abbrev pub total : Tally → ℕ
total t = t.succeeded + t.retried + t.failed

abbrev Mine : ℕ → ClaimedQualityJob → Type 0
Mine tenant job = ((job.tenant_id == tenant) ≡ true) × (0 < job.retry_count)

All-Mine :
    (ids : List ℕ) (tenant now : ℕ) (rows : Table)
    → All (Mine tenant) (map claimed_job (returning (chosen ids tenant now) (start_row now) rows))
unfolding returning
All-Mine ids tenant now [] = tt
All-Mine ids tenant now (r ∷ rows) = ground (arith, All-Mine ids tenant now rows)

-- The counters after one job or more: they have not grown by more than the jobs.
abbrev Counted : Tally → ℕ → Outcome Exc Tally → Type 0
Counted t n o = (t' : Tally) × (o ≡ ok t') × (total t' ≤ total t + n)

pub some_delay : (n : ℕ) → 0 < n → (d : ℕ) × (retry_delay n ≡ some d)
unfolding retry_delay
some_delay zero h = absurd (omega arith)
some_delay (suc n) h = (_, refl)

module _ (rt : Runtime) (locked : ℕ → Bool) where
  fail_job-Counted :
      (now : ℕ) (job : ClaimedQualityJob) (code : String) (t : Tally) (db : Db)
      → Counted t 1 (fail_job (repository rt locked) now job code t db).0
  fail_job-Counted now job code t db =
      (count_failed t (fail_quality_job job code now db.jobs).0, refl, ground arith)

  retry_job-Counted :
      (now : ℕ) (job : ClaimedQualityJob) (e : ProviderError) (t : Tally) (delay : ℕ) (db : Db)
      → Counted t 1 (retry_job (repository rt locked) now job e t (some delay) db).0
  retry_job-Counted now job e t delay db = (
    count_retried t (retry_quality_job job (code e) (now + delay) now db.jobs).0,
    refl,
    ground arith,
  )

  provider-Counted :
      (now delay : ℕ) (job : ClaimedQualityJob) (e : ProviderError) (t : Tally) (db : Db)
      → retry_delay job.retry_count ≡ some delay
      → Counted t 1 (handle (repository rt locked) now job t (raise (provider e)) db).0
  unfolding handle
  provider-Counted now delay job e t db h =
      elim (Bool-cases (retryable e && ltb job.retry_count max_model_attempts)) [
        | inl q ↦ rw (q, h) (retry_job-Counted now job e t delay db)
        | inr q ↦ rw q (fail_job-Counted now job (code e) t db)
      ]

  handle-Counted :
      (tenant now : ℕ) (job : ClaimedQualityJob) (t : Tally) (o : Outcome Exc QualityResultRecord)
      (db : Db)
      → Mine tenant job
      → IsCaught o
      → Counted t 1 (handle (repository rt locked) now job t o db).0
  unfolding handle
  handle-Counted tenant now job t (ok result) db mine caught =
      (record t { succeeded = suc t.succeeded }, refl, omega arith)
  handle-Counted tenant now job t (raise (provider e)) db mine caught =
      let (delay, h) = some_delay job.retry_count mine.1 in provider-Counted now delay job e t db h
  handle-Counted tenant now job t (raise quality_output) db mine caught =
      fail_job-Counted now job "QUALITY_OUTPUT_INVALID" t db
  handle-Counted tenant now job t (raise type_error) db mine caught =
      fail_job-Counted now job "QUALITY_INPUT_INVALID" t db
  handle-Counted tenant now job t (raise value_error) db mine caught =
      fail_job-Counted now job "QUALITY_INPUT_INVALID" t db
  handle-Counted tenant now job t (raise runtime_error) db mine caught = absurd caught
  handle-Counted tenant now job t (raise integrity_error) db mine caught = absurd caught
  handle-Counted tenant now job t (raise cancelled) db mine caught = absurd caught
  handle-Counted tenant now job t (raise (other n)) db mine caught = absurd caught

  claimed-Mine :
      (tenant limit now : ℕ) (rows rows' : Table) (jobs : List ClaimedQualityJob)
      → claim_quality_jobs rt locked tenant limit now rows ≡ (ok jobs, rows')
      → All (Mine tenant) jobs
  unfolding claim_quality_jobs
  claimed-Mine tenant limit now rows rows' jobs h =
      let ids : List ℕ = row_ids (candidates locked tenant limit now rows) in
      let same : map claimed_job (returning (chosen ids tenant now) (start_row now) rows) ≡ jobs =
        ground arith in
      rw (← same) (All-Mine ids tenant now rows)

  module _ (process : ClaimedQualityJob → Exec Db Exc QualityResultRecord)
      (caught : (job : ClaimedQualityJob) (db : Db) → IsCaught (process job db).0) where
    run_job-Counted :
        (tenant now : ℕ) (job : ClaimedQualityJob) (t : Tally) (db : Db)
        → Mine tenant job
        → Counted t 1 (run_job (repository rt locked) process tenant now job t db).0
    unfolding run_job
    run_job-Counted tenant now job t db mine =
        rw mine.0 (
          handle-Counted tenant now job t (process job db).0 (process job db).1 mine
            (caught job db))

    run_jobs-Counted :
        (tenant now : ℕ) (jobs : List ClaimedQualityJob) (t : Tally) (db : Db)
        → All (Mine tenant) jobs
        → Counted t (length jobs) (run_jobs (repository rt locked) process tenant now jobs t db).0
    unfolding run_jobs
    run_jobs-Counted tenant now [] t db mine = (t, refl, omega arith)
    run_jobs-Counted tenant now (job ∷ jobs) t db mine =
        let (t', e, small) = run_job-Counted tenant now job t db mine.0 in
        let (t'', e', small') =
          run_jobs-Counted tenant now jobs t'
            (run_job (repository rt locked) process tenant now job t db).1 mine.1 in
        rw e (t'', e', omega arith)

    -- From every table that steps reach, a run whose clock gives a time with a zone and whose limit
    -- is allowed returns, if the processor raises no more than the worker has a clause for; the run
    -- reports the clock's time, and no more successes, retries and failures than jobs.
    pub run_once_returns :
        (lease now tenant limit : ℕ) (db : Db)
        → Reach rt [] db.jobs
        → valid_limit limit ≡ true
        → (result : QualityWorkerRunResult) × ((run_once
              (repository rt locked)
              process
              lease
              (some now)
              tenant
              limit
              db).0
            ≡ ok result)
          × (result.succeeded + result.retried + result.failed ≤ result.claimed)
          × (result.recovered ≡ (recover_expired tenant now (now - lease) db.jobs).0)
          × (result.completed_at ≡ now)
    unfolding run_once run_at claim_and_run run_claimed
    run_once_returns lease now tenant limit db reached allowed =
        let freed : Table = (recover_expired tenant now (now - lease) db.jobs).1 in
        let (jobs, taken, e) =
          claim_returns rt freed (next reached (recover tenant now (now - lease) refl)) locked
            tenant limit now in
        let (t, q, small) =
          run_jobs-Counted tenant now jobs zero_tally (record db { jobs = taken })
            (claimed-Mine tenant limit now freed taken jobs e) in
        rw (allowed, e, q) (_, refl, omega arith, refl, refl)
