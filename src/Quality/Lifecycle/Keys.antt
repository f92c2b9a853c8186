-- ===== src/Quality/Lifecycle/Keys.antt =====
-- The primary key of `quality_job`, and the attempts that a table allows a job.
use enterprise_work_order_ai.Prelude.{
  ℕ, ◌+◌, ◌*◌, ◌≤◌, ◌≡◌, refl, Bool, true, false, [], ◌∷◌, ◌++◌, arith, any, All, inl, inr,
}
use enterprise_work_order_ai.Prelude.Sql.{update_where}
use enterprise_work_order_ai.Quality.Models.{Runtime, ClaimedQualityEvent}
use enterprise_work_order_ai.Quality.Jobs.{
  QualityJobRow, Table, expired, recover_row, recover_expired, start_row, chosen, row_ids,
  candidates, may_retry, retry_row, retry_quality_job, holds_claim, fail_row, fail_quality_job,
  is_job, complete_row, complete_job,
}
use enterprise_work_order_ai.Quality.Intake.{clashes, new_row, create_from_event}
use enterprise_work_order_ai.Quality.Lifecycle.{
  recover, claim, retry, fail, complete, intake, Reach, here, next,
}
use enterprise_work_order_ai.Quality.Lifecycle.Invariants.{
  RowInvariant, Reach-All, create-table, claim-table,
}
use enterprise_work_order_ai.Quality.Lifecycle.Validity.{IsValidRow, Reach-IsValid}
use enterprise_work_order_ai.Quality.Lifecycle.Attempts.{rows_of, attempts, claims, claims-attempts}

-- A change of a row that leaves its key alone.
abbrev SameKey : (QualityJobRow → QualityJobRow) → Type 0
SameKey f = (r : QualityJobRow) → ((f r).id ≡ r.id) × ((f r).tenant_id ≡ r.tenant_id)

module _ (tenant job_id : ℕ) where
  rows_of-update_where :
      (p : QualityJobRow → Bool) (f : QualityJobRow → QualityJobRow)
      → SameKey f
      → (rows : Table) → rows_of tenant job_id (update_where p f rows) ≡ rows_of tenant job_id rows
  unfolding update_where
  rows_of-update_where p f same [] = refl
  rows_of-update_where p f same (r ∷ rows) =
      ground (arith, same r, rows_of-update_where p f same rows)

  rows_of-append :
      (xs ys : Table)
      → rows_of tenant job_id (xs ++ ys) ≡ rows_of tenant job_id xs + rows_of tenant job_id ys
  rows_of-append [] ys = omega arith
  rows_of-append (r ∷ rows) ys = ground (arith, rows_of-append rows ys)

  -- A new key is no row's.
  rows_of-fresh :
      (new : QualityJobRow) (rows : Table)
      → any (clashes new) rows ≡ false
      → is_job tenant job_id new ≡ true
      → rows_of tenant job_id rows ≡ 0
  rows_of-fresh new [] fresh own = refl
  rows_of-fresh new (r ∷ rows) fresh own = ground (arith, rows_of-fresh new rows)

  attempts-le :
      (rows : Table)
      → All IsValidRow rows
      → All (λ (r : QualityJobRow). r.max_retry_count ≡ 3) rows
      → attempts tenant job_id rows ≤ 3 * rows_of tenant job_id rows
  attempts-le [] v m = omega arith
  attempts-le (r ∷ rows) v m = ground (arith, v.0.within, attempts-le rows v.1 m.1)

  module _ (rt : Runtime) where
    rows_of-create :
        (db_now : ℕ) (e : ClaimedQualityEvent) (rows : Table)
        → rows_of tenant job_id rows ≤ 1
        → rows_of tenant job_id (create_from_event rt db_now e rows).1 ≤ 1
    rows_of-create db_now e rows h = elim (create-table rt db_now e rows) [
      | inl same ↦ rw same h
      | inr (added, fresh) ↦
          rw (added, rows_of-append)
            (ground (arith, rows_of-fresh (new_row rt db_now e) rows fresh))
    ]

    -- No step makes a second row with the same primary key.
    Reach-rows_of : {rows : Table} → Reach rt [] rows → rows_of tenant job_id rows ≤ 1
    unfolding recover_expired retry_quality_job fail_quality_job complete_job
    Reach-rows_of here = omega arith
    Reach-rows_of (next {rows = rows} {rows' = rows'} r (claim locked t limit now jobs e)) =
        rw (← claim-table rt locked t limit now rows rows' jobs e) (
          omega (
            arith,
            Reach-rows_of r,
            rows_of-update_where (chosen (row_ids (candidates locked t limit now rows)) t now)
                (start_row now) (λ q. (refl, refl)) rows,
          ))
    Reach-rows_of (next {rows = rows} r (recover t now before e)) = rw (← e) (
        omega (
          arith,
          Reach-rows_of r,
          rows_of-update_where (expired t before) (recover_row now) (λ q. (refl, refl)) rows,
        ))
    Reach-rows_of (next {rows = rows} r (retry job code at now e)) = rw (← e) (
        omega (
          arith,
          Reach-rows_of r,
          rows_of-update_where (may_retry job) (retry_row code at now) (λ q. (refl, refl)) rows,
        ))
    Reach-rows_of (next {rows = rows} r (fail job code now e)) = rw (← e) (
        omega (
          arith,
          Reach-rows_of r,
          rows_of-update_where (holds_claim job) (fail_row code now) (λ q. (refl, refl)) rows,
        ))
    Reach-rows_of (next {rows = rows} r (complete t j verdict result_id db_now e)) = rw (← e) (
        omega (
          arith,
          Reach-rows_of r,
          rows_of-update_where (is_job t j) (complete_row verdict result_id db_now)
              (λ q. (refl, refl)) rows,
        ))
    Reach-rows_of (next {rows = rows} r (intake db_now e valid q)) =
        rw (← q) (rows_of-create db_now e rows (Reach-rows_of r))

    pub three_at_most : RowInvariant rt (λ (r : QualityJobRow). r.max_retry_count ≡ 3)
    three_at_most = record {
      on_recover = λ t now before r h _. h;
      on_claim = λ ids t now r h _. h;
      on_retry = λ job code at now r h _. h;
      on_fail = λ job code now r h _. h;
      on_complete = λ t j verdict result_id db_now r h _. h;
      on_intake = λ db_now e _. refl;
    }

    -- Whatever the workers, the recovery of leases and the intake do, and in whatever order, a job
    -- is handed out for inspection three times at most.
    pub claims-le-three : (rows : Table) (r : Reach rt [] rows) → claims tenant job_id r ≤ 3
    claims-le-three rows r = omega (
      arith,
      claims-attempts tenant job_id rt r,
      attempts-le rows (Reach-IsValid rt rows r) (Reach-All rt _ three_at_most r tt),
      Reach-rows_of r,
    )
