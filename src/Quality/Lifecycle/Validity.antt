-- ===== src/Quality/Lifecycle/Validity.antt =====
-- What each row of `quality_job` satisfies after any sequence of the repository's statements.
use enterprise_work_order_ai.Prelude.{
  ℕ, ◌≤◌, ◌<◌, ◌≡◌, String, Bool, true, false, Option, none, some, List, [], arith, All,
}
use enterprise_work_order_ai.Quality.Models.{
  Runtime, pending, running, retry_wait, failed, ClaimedQualityJob,
}
use enterprise_work_order_ai.Quality.Jobs.{
  QualityJobRow, Table, expired, recover_row, chosen, start_row, holds_claim, may_retry, retry_row,
  fail_row, complete_row,
}
use enterprise_work_order_ai.Quality.Labels.{Label}
use enterprise_work_order_ai.Quality.Models.{ClaimedQualityEvent}
use enterprise_work_order_ai.Quality.Intake.{new_row}
use enterprise_work_order_ai.Quality.Lifecycle.Invariants.{RowInvariant, Reach-All}
use enterprise_work_order_ai.Quality.Lifecycle.{Reach}

abbrev pub is_there : Option ℕ → Bool
is_there none = false
is_there (some _) = true

-- The check constraints of the table, and what the statements keep besides: a job that waits has
-- an attempt left and a time, and a job that runs has a lease and an attempt that is its own.
pub record IsValidRow (r : QualityJobRow) : Type 0 where
  pub within : r.retry_count ≤ r.max_retry_count
  pub pending_fresh : r.status ≡ pending → r.retry_count < r.max_retry_count
  pub waiting_left : r.status ≡ retry_wait → r.retry_count < r.max_retry_count
  pub waiting_timed : r.status ≡ retry_wait → is_there r.next_retry_at ≡ true
  pub running_leased : r.status ≡ running → is_there r.started_at ≡ true
  pub running_counted : r.status ≡ running → 0 < r.retry_count
  pub failed_finished : r.status ≡ failed → is_there r.finished_at ≡ true

recover_row-IsValid :
    (tenant now before : ℕ) (r : QualityJobRow)
    → IsValidRow r
    → expired tenant before r ≡ true
    → IsValidRow (recover_row now r)
recover_row-IsValid tenant now before r v h = ground arith

start_row-IsValid :
    (ids : List ℕ) (tenant now : ℕ) (r : QualityJobRow)
    → IsValidRow r
    → chosen ids tenant now r ≡ true
    → IsValidRow (start_row now r)
start_row-IsValid ids tenant now r v h = ground arith

retry_row-IsValid :
    (job : ClaimedQualityJob) (code : String) (at now : ℕ) (r : QualityJobRow)
    → IsValidRow r
    → may_retry job r ≡ true
    → IsValidRow (retry_row code at now r)
retry_row-IsValid job code at now r v h = ground arith

fail_row-IsValid :
    (job : ClaimedQualityJob) (code : String) (now : ℕ) (r : QualityJobRow)
    → IsValidRow r
    → holds_claim job r ≡ true
    → IsValidRow (fail_row code now r)
fail_row-IsValid job code now r v h = ground arith

complete_row-IsValid :
    (verdict : Label) (result_id db_now : ℕ) (r : QualityJobRow)
    → IsValidRow r
    → IsValidRow (complete_row verdict result_id db_now r)
complete_row-IsValid verdict result_id db_now r v = ground arith

new_row-IsValid :
    (rt : Runtime) (db_now : ℕ) (e : ClaimedQualityEvent) → IsValidRow (new_row rt db_now e)
new_row-IsValid rt db_now e = ground arith

module _ (rt : Runtime) where
  IsValidRow-invariant : RowInvariant rt IsValidRow
  IsValidRow-invariant = record {
    on_recover = recover_row-IsValid;
    on_claim = start_row-IsValid;
    on_retry = retry_row-IsValid;
    on_fail = fail_row-IsValid;
    on_complete = λ tenant job_id verdict result_id db_now r v _.
        complete_row-IsValid verdict result_id db_now r v;
    on_intake = λ db_now e _. new_row-IsValid rt db_now e;
  }

  -- Every row of every table that is reached from an empty one is valid: it keeps the check
  -- constraints on attempts and retry times, a waiting job has an attempt left, a running job has
  -- a lease, and a failed job has an end.
  pub Reach-IsValid : (rows : Table) → Reach rt [] rows → All IsValidRow rows
  Reach-IsValid rows r = Reach-All rt IsValidRow IsValidRow-invariant r tt
