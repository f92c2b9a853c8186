-- ===== src/Quality/Lifecycle/Claimable.antt =====
-- A claim never meets a row that it has to refuse.
use enterprise_work_order_ai.Prelude.{ℕ, ◌≡◌, refl, Bool, true, List, [], ◌∷◌, map, arith, All, all}
use enterprise_work_order_ai.Prelude.Exec.{ok}
use enterprise_work_order_ai.Prelude.Sql.{returning, update_where}
use enterprise_work_order_ai.Quality.Models.{
  Runtime, ClaimedQualityEvent, ClaimedQualityJob, valid_event, valid_claim,
}
use enterprise_work_order_ai.Quality.Jobs.{
  QualityJobRow, Table, start_row, chosen, row_ids, candidates, claimed_job, claim_quality_jobs,
}
use enterprise_work_order_ai.Quality.Intake.{new_row}
use enterprise_work_order_ai.Quality.Lifecycle.{Reach}
use enterprise_work_order_ai.Quality.Lifecycle.Invariants.{RowInvariant, Reach-All}

module _ (rt : Runtime) where
  -- The row would pass `validate_claim_boundary`.
  abbrev pub IsClaimable : QualityJobRow → Type 0
  IsClaimable r = valid_claim rt (claimed_job r) ≡ true

  start_row-IsClaimable :
      (now : ℕ) (r : QualityJobRow) → IsClaimable r → IsClaimable (start_row now r)
  unfolding valid_claim
  start_row-IsClaimable now r h = h

  new_row-IsClaimable :
      (db_now : ℕ) (e : ClaimedQualityEvent)
      → valid_event rt e ≡ true
      → IsClaimable (new_row rt db_now e)
  unfolding valid_claim valid_event
  new_row-IsClaimable db_now e h = ground arith

  IsClaimable-invariant : RowInvariant rt IsClaimable
  IsClaimable-invariant = record {
    on_recover = λ tenant now before r h _. h;
    on_claim = λ ids tenant now r h _. start_row-IsClaimable now r h;
    on_retry = λ job code at now r h _. h;
    on_fail = λ job code now r h _. h;
    on_complete = λ tenant job_id verdict result_id db_now r h _. h;
    on_intake = new_row-IsClaimable;
  }

  all_valid :
      (p : QualityJobRow → Bool) (now : ℕ) (rows : Table)
      → All IsClaimable rows
      → all (valid_claim rt) (map claimed_job (returning p (start_row now) rows)) ≡ true
  unfolding returning
  all_valid p now [] h = refl
  all_valid p now (r ∷ rows) h =
      ground (arith, start_row-IsClaimable now r h.0, all_valid p now rows h.1)

  -- From an empty table, after any steps, a claim returns: no stored payload makes it raise, since
  -- the intake has checked all that the claim checks.
  pub claim_returns :
      (rows : Table)
      → Reach rt [] rows
      → (locked : ℕ → Bool) (tenant limit now : ℕ)
      → (jobs : List ClaimedQualityJob) × (rows' : Table) × (claim_quality_jobs rt locked tenant
            limit now rows
          ≡ (ok jobs, rows'))
  unfolding claim_quality_jobs
  claim_returns rows reached locked tenant limit now =
      let taken : QualityJobRow → Bool =
        chosen (row_ids (candidates locked tenant limit now rows)) tenant now in
      (
        map claimed_job (returning taken (start_row now) rows),
        update_where taken (start_row now) rows,
        rw (all_valid taken now rows (Reach-All rt IsClaimable IsClaimable-invariant reached tt)),
      )
