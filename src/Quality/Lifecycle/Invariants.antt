-- ===== src/Quality/Lifecycle/Invariants.antt =====
-- How an invariant of the rows becomes one of every table that is reached.
use enterprise_work_order_ai.Prelude.{
  ℕ, ◌≡◌, refl, ◌⊎◌, inl, inr, String, Bool, true, false, Option, none, some, List, [], ◌∷◌, ◌++◌,
  arith, All, All-append, any,
}
use enterprise_work_order_ai.Prelude.Exec.{ok}
use enterprise_work_order_ai.Prelude.Sql.{All-update_where, update_where, first_where}
use enterprise_work_order_ai.Quality.Labels.{Label}
use enterprise_work_order_ai.Quality.Models.{
  Runtime, ClaimedQualityEvent, ClaimedQualityJob, valid_event,
}
use enterprise_work_order_ai.Quality.Jobs.{
  QualityJobRow, Table, expired, recover_row, recover_expired, chosen, start_row, row_ids,
  candidates, claim_quality_jobs, holds_claim, may_retry, retry_row, retry_quality_job, fail_row,
  fail_quality_job, is_job, complete_row, complete_job,
}
use enterprise_work_order_ai.Quality.Intake.{
  same_business, clashes, new_row, reload, create_from_event,
}
use enterprise_work_order_ai.Quality.Lifecycle.{
  Step, recover, claim, retry, fail, complete, intake, Reach, here, next,
}

-- Each statement keeps `P` on the rows that it changes, and an inserted row has it.
pub record RowInvariant (rt : Runtime) (P : QualityJobRow → Type 0) : Type 0 where
  pub on_recover :
      (tenant now before : ℕ) (r : QualityJobRow)
      → P r
      → expired tenant before r ≡ true
      → P (recover_row now r)
  pub on_claim :
      (ids : List ℕ) (tenant now : ℕ) (r : QualityJobRow)
      → P r
      → chosen ids tenant now r ≡ true
      → P (start_row now r)
  pub on_retry :
      (job : ClaimedQualityJob) (code : String) (at now : ℕ) (r : QualityJobRow)
      → P r
      → may_retry job r ≡ true
      → P (retry_row code at now r)
  pub on_fail :
      (job : ClaimedQualityJob) (code : String) (now : ℕ) (r : QualityJobRow)
      → P r
      → holds_claim job r ≡ true
      → P (fail_row code now r)
  pub on_complete :
      (tenant job_id : ℕ) (verdict : Label) (result_id db_now : ℕ) (r : QualityJobRow)
      → P r
      → is_job tenant job_id r ≡ true
      → P (complete_row verdict result_id db_now r)
  pub on_intake :
      (db_now : ℕ) (e : ClaimedQualityEvent) → valid_event rt e ≡ true → P (new_row rt db_now e)

module _ (rt : Runtime) where
  reload-table :
      (before rows : Table) (found : Option QualityJobRow)
      → ((reload before rows found).1 ≡ before) ⊎ ((reload before rows found).1 ≡ rows)
  reload-table before rows none = inl refl
  reload-table before rows (some r) = inr refl

  -- The intake leaves the table as it was, or adds the event's row at its end, whose keys are new.
  pub create-table :
      (db_now : ℕ) (e : ClaimedQualityEvent) (rows : Table)
      → ((create_from_event rt db_now e rows).1 ≡ rows)
        ⊎ (((create_from_event rt db_now e rows).1 ≡ rows ++ new_row rt db_now e ∷ [])
            × (any (clashes (new_row rt db_now e)) rows ≡ false))
  unfolding create_from_event
  create-table db_now e rows =
      let added : Table = rows ++ new_row rt db_now e ∷ [] in
      ground (
        arith,
        reload-table rows rows (first_where (same_business e) rows),
        reload-table rows added (first_where (same_business e) added),
      )

  -- A claim that returns has made the one `UPDATE` that the candidates give.
  pub claim-table :
      (locked : ℕ → Bool) (tenant limit now : ℕ) (rows rows' : Table)
      (jobs : List ClaimedQualityJob)
      → claim_quality_jobs rt locked tenant limit now rows ≡ (ok jobs, rows')
      → update_where
          (chosen (row_ids (candidates locked tenant limit now rows)) tenant now)
          (start_row now)
          rows
        ≡ rows'
  unfolding claim_quality_jobs
  claim-table locked tenant limit now rows rows' jobs h = ground arith

  module _ (P : QualityJobRow → Type 0) (keeps : RowInvariant rt P) where
    pub Step-All : {rows rows' : Table} → Step rt rows rows' → All P rows → All P rows'
    unfolding recover_expired retry_quality_job fail_quality_job complete_job
    Step-All {rows} (recover tenant now before e) h =
        rw (← e) (All-update_where _ _ P (keeps.on_recover tenant now before) rows h)
    Step-All {rows} {rows'} (claim locked tenant limit now jobs e) h =
        rw (← claim-table locked tenant limit now rows rows' jobs e)
          (All-update_where _ _ P (keeps.on_claim _ tenant now) rows h)
    Step-All {rows} (retry job code at now e) h =
        rw (← e) (All-update_where _ _ P (keeps.on_retry job code at now) rows h)
    Step-All {rows} (fail job code now e) h =
        rw (← e) (All-update_where _ _ P (keeps.on_fail job code now) rows h)
    Step-All {rows} (complete tenant job_id verdict result_id db_now e) h =
        rw (← e)
          (All-update_where _ _ P (keeps.on_complete tenant job_id verdict result_id db_now) rows h)
    Step-All {rows} (intake db_now e valid q) h = rw (← q) (elim (create-table db_now e rows) [
      | inl same ↦ rw same h
      | inr (added, fresh) ↦ rw added (All-append P rows _ h (keeps.on_intake db_now e valid, tt))
    ])

    pub Reach-All : {start rows : Table} → Reach rt start rows → All P start → All P rows
    Reach-All here h = h
    Reach-All (next r s) h = Step-All s (Reach-All r h)
