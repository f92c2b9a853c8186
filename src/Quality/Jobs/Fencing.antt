-- ===== src/Quality/Jobs/Fencing.antt =====
-- A worker whose lease has gone to another one can no longer move the job.
use enterprise_work_order_ai.Prelude.{
  ℕ, ◌<◌, ◌≡◌, refl, String, Bool, false, [], ◌∷◌, arith, any, All, keep_if, Bool-cases, inl, inr,
  if◌then◌else◌,
}
use enterprise_work_order_ai.Prelude.Sql.{update_where}
use enterprise_work_order_ai.Quality.Models.{ClaimedQualityJob}
use enterprise_work_order_ai.Quality.Jobs.{
  QualityJobRow, Table, is_job, holds_claim, may_retry, retry_row, retry_quality_job, fail_row,
  fail_quality_job,
}

-- The rows of the job's key count a later attempt than the claim does.
abbrev pub Outdated : ClaimedQualityJob → Table → Type 0
Outdated job rows =
    All (λ (r : QualityJobRow). job.retry_count < r.retry_count)
      (keep_if (is_job job.tenant_id job.id) rows)

module _ (job : ClaimedQualityJob) where
  none_held :
      (rows : Table)
      → Outdated job rows
      → (any (holds_claim job) rows ≡ false) × (any (may_retry job) rows ≡ false)
  none_held [] h = (refl, refl)
  none_held (r ∷ rows) h = elim (Bool-cases (is_job job.tenant_id job.id r)) [
    | inl own ↦
        let k : (job.retry_count < r.retry_count) × Outdated job rows =
          rw (own, if◌then◌else◌) at h in
        ground (arith, k.0, none_held rows k.1)
    | inr other ↦
        let k : Outdated job rows = rw (other, if◌then◌else◌) at h in
        ground (arith, none_held rows k)
  ]

  pub update_where_none :
      (p : QualityJobRow → Bool) (f : QualityJobRow → QualityJobRow) (rows : Table)
      → any p rows ≡ false
      → update_where p f rows ≡ rows
  unfolding update_where
  update_where_none p f [] h = refl
  update_where_none p f (r ∷ rows) h = ground (arith, update_where_none p f rows)

  -- If every row of the job counts a later attempt than the claim does, neither the retry nor the
  -- failure that the claim's holder reports changes the table, and both answer false.
  pub Outdated-claim_refused :
      (code : String) (at now : ℕ) (rows : Table)
      → Outdated job rows
      → (retry_quality_job job code at now rows ≡ (false, rows))
        × (fail_quality_job job code now rows ≡ (false, rows))
  unfolding retry_quality_job fail_quality_job
  Outdated-claim_refused code at now rows h = ground (
    arith,
    none_held rows h,
    update_where_none (may_retry job) (retry_row code at now) rows,
    update_where_none (holds_claim job) (fail_row code now) rows,
  )
