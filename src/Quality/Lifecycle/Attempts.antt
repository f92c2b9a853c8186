-- ===== src/Quality/Lifecycle/Attempts.antt =====
-- How often a job is given to a worker.
use enterprise_work_order_ai.Prelude.{
  ℕ, suc, ◌+◌, ◌≡◌, refl, Bool, ◌&&◌, List, [], ◌∷◌, ◌++◌, map, arith, ◌==◌, inl, inr,
  if◌then◌else◌,
}
use enterprise_work_order_ai.Prelude.Exec.{ok}
use enterprise_work_order_ai.Prelude.Sql.{returning, update_where}
use enterprise_work_order_ai.Quality.Models.{Runtime, ClaimedQualityEvent, ClaimedQualityJob}
use enterprise_work_order_ai.Quality.Jobs.{
  QualityJobRow, Table, expired, recover_row, recover_expired, start_row, chosen, row_ids,
  candidates, claimed_job, claim_quality_jobs, may_retry, retry_row, retry_quality_job, holds_claim,
  fail_row, fail_quality_job, is_job, complete_row, complete_job,
}
use enterprise_work_order_ai.Quality.Intake.{create_from_event}
use enterprise_work_order_ai.Quality.Lifecycle.{
  recover, claim, retry, fail, complete, intake, Reach, here, next,
}
use enterprise_work_order_ai.Quality.Lifecycle.Invariants.{create-table}

module _ (tenant job_id : ℕ) where
  -- The rows of the job; the primary key leaves one at most.
  abbrev pub rows_of : Table → ℕ
  rows_of [] = 0
  rows_of (r ∷ rows) = let rest = rows_of rows in if is_job tenant job_id r then suc rest else rest

  -- The attempts that the table has counted for the job.
  abbrev pub attempts : Table → ℕ
  attempts [] = 0
  attempts (r ∷ rows) =
      let rest = attempts rows in if is_job tenant job_id r then r.retry_count + rest else rest

  -- How often the job stands among those that a claim returns.
  abbrev pub handed_out : List ClaimedQualityJob → ℕ
  handed_out [] = 0
  handed_out (j ∷ jobs) =
      let rest = handed_out jobs in
      if j.tenant_id == tenant && j.id == job_id then suc rest else rest

  -- How often the job was handed out on the way to a table.
  pub claims : {rt : Runtime} {start rows : Table} → Reach rt start rows → ℕ
  claims here = 0
  claims (next r (claim locked t limit now jobs e)) = claims r + handed_out jobs
  claims (next r (recover t now before e)) = claims r
  claims (next r (retry job code at now e)) = claims r
  claims (next r (fail job code now e)) = claims r
  claims (next r (complete t j verdict result_id db_now e)) = claims r
  claims (next r (intake db_now e valid q)) = claims r

  -- A change of a row that leaves its key and its attempts alone.
  abbrev SameCount : (QualityJobRow → QualityJobRow) → Type 0
  SameCount f =
      (r : QualityJobRow)
      → ((f r).id ≡ r.id) × ((f r).tenant_id ≡ r.tenant_id) × ((f r).retry_count ≡ r.retry_count)

  attempts-update_where :
      (p : QualityJobRow → Bool) (f : QualityJobRow → QualityJobRow)
      → SameCount f
      → (rows : Table) → attempts (update_where p f rows) ≡ attempts rows
  unfolding update_where
  attempts-update_where p f same [] = refl
  attempts-update_where p f same (r ∷ rows) =
      ground (arith, same r, attempts-update_where p f same rows)

  attempts-claim :
      (p : QualityJobRow → Bool) (now : ℕ) (rows : Table)
      → attempts (update_where p (start_row now) rows)
        ≡ attempts rows + handed_out (map claimed_job (returning p (start_row now) rows))
  unfolding update_where returning
  attempts-claim p now [] = omega arith
  attempts-claim p now (r ∷ rows) = ground (arith, attempts-claim p now rows)

  attempts-append : (xs ys : Table) → attempts (xs ++ ys) ≡ attempts xs + attempts ys
  attempts-append [] ys = omega arith
  attempts-append (r ∷ rows) ys = ground (arith, attempts-append rows ys)

  module _ (rt : Runtime) where
    attempts-create :
        (db_now : ℕ) (e : ClaimedQualityEvent) (rows : Table)
        → attempts (create_from_event rt db_now e rows).1 ≡ attempts rows
    attempts-create db_now e rows = elim (create-table rt db_now e rows) [
      | inl same ↦ rw same
      | inr (added, fresh) ↦ rw (added, attempts-append) (ground arith)
    ]

    handed_out-claim :
        (locked : ℕ → Bool) (t limit now : ℕ) (rows rows' : Table) (jobs : List ClaimedQualityJob)
        → claim_quality_jobs rt locked t limit now rows ≡ (ok jobs, rows')
        → attempts rows' ≡ attempts rows + handed_out jobs
    unfolding claim_quality_jobs
    handed_out-claim locked t limit now rows rows' jobs e = ground (
      arith,
      attempts-claim (chosen (row_ids (candidates locked t limit now rows)) t now) now rows,
    )

    pub claims-attempts :
        {start rows : Table} (r : Reach rt start rows) → attempts start + claims r ≡ attempts rows
    unfolding claims recover_expired retry_quality_job fail_quality_job complete_job
    claims-attempts here = omega arith
    claims-attempts (next {rows = rows} {rows' = rows'} r (claim locked t limit now jobs e)) =
        omega (arith, claims-attempts r, handed_out-claim locked t limit now rows rows' jobs e)
    claims-attempts (next {rows = rows} r (recover t now before e)) = rw (← e) (
        omega (
          arith,
          claims-attempts r,
          attempts-update_where (expired t before) (recover_row now) (λ q. (refl, refl, refl)) rows,
        ))
    claims-attempts (next {rows = rows} r (retry job code at now e)) = rw (← e) (
        omega (
          arith,
          claims-attempts r,
          attempts-update_where (may_retry job) (retry_row code at now) (λ q. (refl, refl, refl))
              rows,
        ))
    claims-attempts (next {rows = rows} r (fail job code now e)) = rw (← e) (
        omega (
          arith,
          claims-attempts r,
          attempts-update_where (holds_claim job) (fail_row code now) (λ q. (refl, refl, refl))
              rows,
        ))
    claims-attempts (next {rows = rows} r (complete t j verdict result_id db_now e)) = rw (← e) (
        omega (
          arith,
          claims-attempts r,
          attempts-update_where (is_job t j) (complete_row verdict result_id db_now)
              (λ q. (refl, refl, refl)) rows,
        ))
    claims-attempts (next {rows = rows} r (intake db_now e valid q)) =
        rw (← q) (omega (arith, claims-attempts r, attempts-create db_now e rows))
