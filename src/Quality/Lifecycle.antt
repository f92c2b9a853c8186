-- ===== src/Quality/Lifecycle.antt =====
-- The life of the table `quality_job`: every change that the service makes to it is a step.
-- The steps are those of the intake, of the workers and of the processor, in any order and from
-- any number of processes, since each is one transaction. A step `complete` is the update at the end
-- of a save, whether or not a constraint would refuse it, so the steps are no fewer than the code's.
pub mod Invariants
pub mod Validity
pub mod Claimable
pub mod Attempts
pub mod Keys
pub mod Terminal
use enterprise_work_order_ai.Prelude.{ℕ, String, ◌≡◌, Bool, true, List}
use enterprise_work_order_ai.Prelude.Exec.{ok}
use enterprise_work_order_ai.Quality.Labels.{Label}
use enterprise_work_order_ai.Quality.Models.{
  Runtime, ClaimedQualityEvent, QualityJob, ClaimedQualityJob, valid_event,
}
use enterprise_work_order_ai.Quality.Jobs.{
  Table, recover_expired, claim_quality_jobs, retry_quality_job, fail_quality_job, complete_job,
}
use enterprise_work_order_ai.Quality.Intake.{create_from_event}

pub data Step (rt : Runtime) (rows rows' : Table) : Type 0 where
  recover :
      (tenant now before : ℕ)
      → (recover_expired tenant now before rows).1 ≡ rows'
      → Step rt rows rows'
  claim :
      (locked : ℕ → Bool) (tenant limit now : ℕ) (jobs : List ClaimedQualityJob)
      → claim_quality_jobs rt locked tenant limit now rows ≡ (ok jobs, rows')
      → Step rt rows rows'
  retry :
      (job : ClaimedQualityJob) (code : String) (at now : ℕ)
      → (retry_quality_job job code at now rows).1 ≡ rows'
      → Step rt rows rows'
  fail :
      (job : ClaimedQualityJob) (code : String) (now : ℕ)
      → (fail_quality_job job code now rows).1 ≡ rows'
      → Step rt rows rows'
  complete :
      (tenant job_id : ℕ) (verdict : Label) (result_id db_now : ℕ)
      → complete_job tenant job_id verdict result_id db_now rows ≡ rows'
      → Step rt rows rows'
  intake :
      (db_now : ℕ) (e : ClaimedQualityEvent)
      → valid_event rt e ≡ true
      → (create_from_event rt db_now e rows).1 ≡ rows'
      → Step rt rows rows'

pub data Reach (rt : Runtime) (start : Table) : Table → Type 0 where
  here : Reach rt start start
  next : {rows rows' : Table} → Reach rt start rows → Step rt rows rows' → Reach rt start rows'
