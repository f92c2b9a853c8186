-- ===== src/Quality/Jobs/Isolation.antt =====
-- No statement of one tenant's transaction reaches a row of another tenant.
use enterprise_work_order_ai.Prelude.{ℕ, ◌≡◌, ◌≢◌, String, Bool, arith, ◌==◌, keep_if}
use enterprise_work_order_ai.Prelude.Sql.{keep_if-update_where}
use enterprise_work_order_ai.Quality.Labels.{Label}
use enterprise_work_order_ai.Quality.Models.{Runtime, ClaimedQualityJob}
use enterprise_work_order_ai.Quality.Jobs.{
  QualityJobRow, Table, expired, recover_row, recover_expired, start_row, chosen, row_ids,
  candidates, claim_quality_jobs, may_retry, retry_row, retry_quality_job, holds_claim, fail_row,
  fail_quality_job, is_job, complete_row, complete_job,
}

abbrev pub of_tenant : ℕ → QualityJobRow → Bool
of_tenant tenant r = r.tenant_id == tenant

module _ (mine other : ℕ) (apart : mine ≢ other) (rows : Table) where
  abbrev pub Untouched : Table → Type 0
  Untouched after = keep_if (of_tenant other) after ≡ keep_if (of_tenant other) rows

  -- What a tenant's transactions leave of another tenant's rows: all of them, as they were and in
  -- their order, through recovery, claims, retries, failures and results.
  pub other_tenants-Untouched :
      (rt : Runtime) (locked : ℕ → Bool) (limit now before at job_id result_id db_now : ℕ)
      (code : String) (verdict : Label) (job : ClaimedQualityJob)
      → job.tenant_id ≡ mine
      → Untouched (recover_expired mine now before rows).1
        × Untouched (claim_quality_jobs rt locked mine limit now rows).1
        × Untouched (retry_quality_job job code at now rows).1
        × Untouched (fail_quality_job job code now rows).1
        × Untouched (complete_job mine job_id verdict result_id db_now rows)
  unfolding recover_expired claim_quality_jobs retry_quality_job fail_quality_job complete_job
  other_tenants-Untouched rt locked limit now before at job_id result_id db_now code verdict job
        own =
      (
        keep_if-update_where (expired mine before) (recover_row now) (of_tenant other)
            (λ r h. (ground arith, ground arith)) rows,
        ground (
          arith,
          keep_if-update_where (chosen (row_ids (candidates locked mine limit now rows)) mine now)
              (start_row now) (of_tenant other) (λ r h. (ground arith, ground arith)) rows,
        ),
        keep_if-update_where (may_retry job) (retry_row code at now) (of_tenant other)
            (λ r h. (ground arith, ground arith)) rows,
        keep_if-update_where (holds_claim job) (fail_row code now) (of_tenant other)
            (λ r h. (ground arith, ground arith)) rows,
        keep_if-update_where (is_job mine job_id) (complete_row verdict result_id db_now)
            (of_tenant other) (λ r h. (ground arith, ground arith)) rows,
      )
