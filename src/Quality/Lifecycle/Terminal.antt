-- ===== src/Quality/Lifecycle/Terminal.antt =====
-- What a job keeps for good.
use enterprise_work_order_ai.Prelude.{
  ◌≤◌, ◌≡◌, Bool, true, false, [], ◌∷◌, ◌++◌, arith, inl, inr, Bool-cases,
}
use enterprise_work_order_ai.Prelude.Sql.{update_where}
use enterprise_work_order_ai.Quality.Models.{Runtime, QualityJobStatus, succeeded, failed, skipped}
use enterprise_work_order_ai.Quality.Jobs.{
  QualityJobRow, Table, expired, recover_row, recover_expired, start_row, chosen, row_ids,
  candidates, may_retry, retry_row, retry_quality_job, holds_claim, fail_row, fail_quality_job,
  is_job, complete_row, complete_job,
}
use enterprise_work_order_ai.Quality.Lifecycle.{
  Step, recover, claim, retry, fail, complete, intake, Reach, here, next,
}
use enterprise_work_order_ai.Quality.Lifecycle.Invariants.{create-table, claim-table}
use enterprise_work_order_ai.Quality.Lifecycle.Validity.{is_there}

-- No worker is given the job again.
abbrev pub is_over : QualityJobStatus → Bool
is_over succeeded = true
is_over failed = true
is_over skipped = true
is_over _ = false

-- The job has its result.
abbrev pub is_settled : QualityJobStatus → Bool
is_settled succeeded = true
is_settled skipped = true
is_settled _ = false

pub record RowEvolves (r q : QualityJobRow) : Type 0 where
  pub same_id : q.id ≡ r.id
  pub same_tenant : q.tenant_id ≡ r.tenant_id
  pub attempts_grow : r.retry_count ≤ q.retry_count
  pub stays_over : is_over r.status ≡ true → is_over q.status ≡ true
  pub stays_settled : is_settled r.status ≡ true → is_settled q.status ≡ true
  pub keeps_result : is_there r.result_id ≡ true → is_there q.result_id ≡ true

-- Row by row; rows are added at the end only.
abbrev pub Evolves : Table → Table → Type 0
Evolves [] later = Unit
Evolves (r ∷ rows) [] = ⊥
Evolves (r ∷ rows) (q ∷ later) = RowEvolves r q × Evolves rows later

RowEvolves-refl : (r : QualityJobRow) → RowEvolves r r
RowEvolves-refl r = ground arith

RowEvolves-trans : (r q s : QualityJobRow) → RowEvolves r q → RowEvolves q s → RowEvolves r s
RowEvolves-trans r q s a b = record {
  same_id = ground arith;
  same_tenant = ground arith;
  attempts_grow = omega arith;
  stays_over = λ h. b.stays_over (a.stays_over h);
  stays_settled = λ h. b.stays_settled (a.stays_settled h);
  keeps_result = λ h. b.keeps_result (a.keeps_result h);
}

Evolves-refl : (rows : Table) → Evolves rows rows
Evolves-refl [] = tt
Evolves-refl (r ∷ rows) = (RowEvolves-refl r, Evolves-refl rows)

Evolves-append : (rows more : Table) → Evolves rows (rows ++ more)
Evolves-append [] more = tt
Evolves-append (r ∷ rows) more = (RowEvolves-refl r, Evolves-append rows more)

Evolves-trans : (a b c : Table) → Evolves a b → Evolves b c → Evolves a c
Evolves-trans [] b c h k = tt
Evolves-trans (r ∷ a) [] c h k = absurd h
Evolves-trans (r ∷ a) (q ∷ b) [] h k = absurd k
Evolves-trans (r ∷ a) (q ∷ b) (s ∷ c) h k =
    (RowEvolves-trans r q s h.0 k.0, Evolves-trans a b c h.1 k.1)

Evolves-update_where :
    (p : QualityJobRow → Bool) (f : QualityJobRow → QualityJobRow)
    → ((r : QualityJobRow) → p r ≡ true → RowEvolves r (f r))
    → (rows : Table) → Evolves rows (update_where p f rows)
unfolding update_where
Evolves-update_where p f step [] = tt
Evolves-update_where p f step (r ∷ rows) = (
  elim (Bool-cases (p r)) [ inl e ↦ rw e (step r e) | inr e ↦ rw e (RowEvolves-refl r) ],
  Evolves-update_where p f step rows,
)

Step-Evolves : {rt : Runtime} {rows rows' : Table} → Step rt rows rows' → Evolves rows rows'
unfolding recover_expired retry_quality_job fail_quality_job complete_job
Step-Evolves {rows = rows} (recover tenant now before e) =
    rw (← e)
      (Evolves-update_where (expired tenant before) (recover_row now) (λ r h. ground arith) rows)
Step-Evolves {rt} {rows} {rows'} (claim locked tenant limit now jobs e) =
    rw (← claim-table rt locked tenant limit now rows rows' jobs e) (
      Evolves-update_where (chosen (row_ids (candidates locked tenant limit now rows)) tenant now)
        (start_row now) (λ r h. ground arith) rows)
Step-Evolves {rows = rows} (retry job code at now e) =
    rw (← e)
      (Evolves-update_where (may_retry job) (retry_row code at now) (λ r h. ground arith) rows)
Step-Evolves {rows = rows} (fail job code now e) =
    rw (← e) (Evolves-update_where (holds_claim job) (fail_row code now) (λ r h. ground arith) rows)
Step-Evolves {rows = rows} (complete tenant job_id verdict result_id db_now e) = rw (← e) (
    Evolves-update_where (is_job tenant job_id) (complete_row verdict result_id db_now)
      (λ r h. ground arith) rows)
Step-Evolves {rt} {rows} (intake db_now e valid q) =
    rw (← q) (elim (create-table rt db_now e rows) [
      | inl same ↦ rw same (Evolves-refl rows)
      | inr (added, fresh) ↦ rw added (Evolves-append rows _)
    ])

-- Along any steps, from any table, each row keeps its place and its key, its attempts never fall,
-- a job that is over stays over, and a job that has its result keeps one: a failed job can still
-- get a late result, and nothing takes a result back.
pub Reach-Evolves : (rt : Runtime) (start rows : Table) → Reach rt start rows → Evolves start rows
Reach-Evolves rt start rows here = Evolves-refl start
Reach-Evolves rt start rows (next {rows = mid} r s) =
    Evolves-trans start mid rows (Reach-Evolves rt start mid r) (Step-Evolves s)
