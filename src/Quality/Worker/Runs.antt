-- ===== src/Quality/Worker/Runs.antt =====
-- The operations on the table `quality_job` that the worker is given.
use enterprise_work_order_ai.Prelude.{ℕ, Bool}
use enterprise_work_order_ai.Prelude.Exec.{Outcome, ok}
use enterprise_work_order_ai.Quality.Errors.{Exc}
use enterprise_work_order_ai.Quality.Jobs.{
  Table, recover_expired, claim_quality_jobs, retry_quality_job, fail_quality_job,
}
use enterprise_work_order_ai.Quality.Models.{Runtime}
use enterprise_work_order_ai.Quality.Store.{Db}
use enterprise_work_order_ai.Quality.Worker.{QualityWorkerRepository, Tally}

-- A statement on the jobs that answers and cannot fail.
abbrev pub on_jobs : {A : Type 0} → A × Table → Db → Outcome Exc A × Db
on_jobs done db = (ok done.0, record db { jobs = done.1 })

-- `PostgresQualityRepository` as the worker sees it.
abbrev pub table_repository : Runtime → (ℕ → Bool) → QualityWorkerRepository Db
table_repository rt locked = record {
  recover_expired = λ tenant now before db. on_jobs (recover_expired tenant now before db.jobs) db;
  claim_quality_jobs = λ tenant limit now db. (
    (claim_quality_jobs rt locked tenant limit now db.jobs).0,
    record db { jobs = (claim_quality_jobs rt locked tenant limit now db.jobs).1 },
  );
  retry_quality_job = λ job code at now db. on_jobs (retry_quality_job job code at now db.jobs) db;
  fail_quality_job = λ job code now db. on_jobs (fail_quality_job job code now db.jobs) db;
}

abbrev pub zero_tally : Tally
zero_tally = record { succeeded = 0; retried = 0; failed = 0 }

module _ (rt : Runtime) (locked : ℕ → Bool) where
  abbrev pub repository : QualityWorkerRepository Db
  repository = table_repository rt locked
