-- ===== src/Quality/Intake/Idempotent.antt =====
-- An event that is delivered again makes no second job.
use enterprise_work_order_ai.Prelude.{
  ℕ, ◌≡◌, refl, ap, Bool, true, some, [], ◌∷◌, ◌++◌, arith, any, Option-cases, Bool-cases, inl, inr,
}
use enterprise_work_order_ai.Prelude.Exec.{Outcome, ok}
use enterprise_work_order_ai.Prelude.Sql.{first_where}
use enterprise_work_order_ai.Quality.Models.{Runtime, ClaimedQualityEvent, QualityJob}
use enterprise_work_order_ai.Quality.Errors.{Exc}
use enterprise_work_order_ai.Quality.Jobs.{QualityJobRow, Table}
use enterprise_work_order_ai.Quality.Intake.{
  same_business, as_job, reload, clashes, new_row, create_from_event,
}

-- The events are about the same inspection.
pub record SameBusiness (e d : ClaimedQualityEvent) : Type 0 where
  pub tenant : e.tenant_id ≡ d.tenant_id
  pub work_order : e.work_order_id ≡ d.work_order_id
  pub version : e.work_order_version ≡ d.work_order_version
  pub round : e.inspection_round ≡ d.inspection_round

pub any-first :
    (p : QualityJobRow → Bool) (rows : Table) {r : QualityJobRow}
    → first_where p rows ≡ some r
    → any p rows ≡ true
unfolding first_where
any-first p [] h = cc
any-first p (q ∷ rows) {r} h = ground (arith, any-first p rows {r = r})

same_business-eq :
    (e d : ClaimedQualityEvent) (r : QualityJobRow)
    → SameBusiness e d
    → same_business e r ≡ same_business d r
same_business-eq e d r s = ground arith

any-same :
    (e d : ClaimedQualityEvent) (rows : Table)
    → SameBusiness e d
    → (any (same_business e) rows ≡ any (same_business d) rows)
      × (first_where (same_business e) rows ≡ first_where (same_business d) rows)
unfolding first_where
any-same e d [] s = (refl, refl)
any-same e d (r ∷ rows) s = ground (arith, same_business-eq e d r s, any-same e d rows s)

reload-found :
    (p : QualityJobRow → Bool) (before after rows' : Table) (job : QualityJob)
    → reload before after (first_where p after) ≡ (ok job, rows')
    → (r : QualityJobRow) × (first_where p rows' ≡ some r) × (as_job r ≡ job)
reload-found p before after rows' job h = elim (Option-cases (first_where p after)) [
  | inl missing ↦ absurd (ground arith)
  | inr (r, found) ↦
      let k : reload before after (some r) ≡ (ok job, rows') = rw found at h in
      let same : after ≡ rows' = ap (λ (x : Outcome Exc QualityJob × Table). x.1) k in
      (r, rw (← same) found, ground arith)
]

module _ (rt : Runtime) where
  -- What a return of the intake says about the table that it leaves.
  pub create-found :
      (db_now : ℕ) (e : ClaimedQualityEvent) (rows rows' : Table) (job : QualityJob)
      → create_from_event rt db_now e rows ≡ (ok job, rows')
      → (r : QualityJobRow) × (first_where (same_business e) rows' ≡ some r) × (as_job r ≡ job)
  unfolding create_from_event
  create-found db_now e rows rows' job h =
      let added : Table = rows ++ new_row rt db_now e ∷ [] in
      elim (Bool-cases (any (same_business e) rows)) [
        | inl known ↦ reload-found (same_business e) rows rows rows' job (ground arith)
        | inr new ↦ elim (Bool-cases (any (clashes (new_row rt db_now e)) rows)) [
          | inl clash ↦ absurd (ground arith)
          | inr free ↦ reload-found (same_business e) rows added rows' job (ground arith)
        ]
      ]

  -- Where the intake has returned a job, every later delivery of an event about the same work
  -- order, version and round returns that job and leaves the table as it is.
  pub create_from_event_again :
      (db_now later : ℕ) (e d : ClaimedQualityEvent) (rows rows' : Table) (job : QualityJob)
      → SameBusiness e d
      → create_from_event rt db_now e rows ≡ (ok job, rows')
      → create_from_event rt later d rows' ≡ (ok job, rows')
  unfolding create_from_event
  create_from_event_again db_now later e d rows rows' job s h =
      let (r, found, same) = create-found db_now e rows rows' job h in
      ground (arith, any-first (same_business e) rows' {r = r}, any-same e d rows' s)
