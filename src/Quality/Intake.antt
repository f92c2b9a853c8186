-- ===== src/Quality/Intake.antt =====
-- From an event of the work-order service to a job
-- (`create_from_event` in apps/ai-service/app/quality/repository.py).
pub mod Idempotent
use enterprise_work_order_ai.Prelude.{
  ℕ, suc, Bool, true, false, ◌&&◌, ◌||◌, Option, none, some, List, [], ◌∷◌, ◌++◌, ◌==◌, any,
  if◌then◌else◌,
}
use enterprise_work_order_ai.Prelude.Exec.{Outcome, ok, raise, Exec}
use enterprise_work_order_ai.Prelude.Sql.{first_where}
use enterprise_work_order_ai.Prelude.Text.{Str, codes, str_eq}
use enterprise_work_order_ai.Quality.Errors.{Exc, runtime_error, integrity_error}
use enterprise_work_order_ai.Quality.Models.{Runtime, pending, ClaimedQualityEvent, QualityJob}
use enterprise_work_order_ai.Quality.Jobs.{QualityJobRow, Table}

-- The business identity of a job, which `ON CONFLICT` and the reload go by.
abbrev pub same_business : ClaimedQualityEvent → QualityJobRow → Bool
same_business e r =
    r.tenant_id == e.tenant_id
    && r.work_order_id == e.work_order_id
    && r.work_order_version == e.work_order_version
    && r.inspection_round == e.inspection_round

abbrev pub as_job : QualityJobRow → QualityJob
as_job r = record {
  id = r.id;
  tenant_id = r.tenant_id;
  work_order_id = r.work_order_id;
  work_order_version = r.work_order_version;
  inspection_round = r.inspection_round;
  business_key = r.business_key;
  status = r.status;
}

-- The reload after the insert; a missing row is the `RuntimeError` of the source.
abbrev pub reload : Table → Table → Option QualityJobRow → Outcome Exc QualityJob × Table
reload before rows none = (raise runtime_error, before)
reload before rows (some r) = (ok (as_job r), rows)

-- The other unique constraints of the table: on the primary key and on the business key.
abbrev pub clashes : QualityJobRow → QualityJobRow → Bool
clashes new r =
    r.tenant_id == new.tenant_id && (r.id == new.id || str_eq r.business_key new.business_key)

module _ (rt : Runtime) where
  unfoldable pub quality_business_key : ClaimedQualityEvent → Str
  quality_business_key e =
      rt.uuid_text e.tenant_id
      ++ codes ":"
      ++ rt.uuid_text e.work_order_id
      ++ codes ":"
      ++ rt.decimal e.work_order_version
      ++ codes ":"
      ++ rt.decimal e.inspection_round

  -- The inserted row, with the columns' defaults; `db_now` is CURRENT_TIMESTAMP.
  abbrev pub new_row : ℕ → ClaimedQualityEvent → QualityJobRow
  new_row db_now e = record {
    id = rt.job_uuid (quality_business_key e);
    tenant_id = e.tenant_id;
    work_order_id = e.work_order_id;
    work_order_version = e.work_order_version;
    inspection_round = e.inspection_round;
    business_key = quality_business_key e;
    trigger_payload = record {
      event_id = e.event_id;
      attempt = e.attempt;
      occurred_at = e.occurred_at;
      work_order_snapshot = e.work_order_snapshot;
      attachments_summary = e.attachments_summary;
    };
    status = pending;
    priority = 100;
    retry_count = 0;
    max_retry_count = 3;
    next_retry_at = none;
    started_at = none;
    finished_at = none;
    last_error_code = none;
    last_error_message = none;
    result_id = none;
    created_at = db_now;
    updated_at = db_now;
  }

  unfoldable pub insert_job : ℕ → ClaimedQualityEvent → Table → Outcome Exc Table
  insert_job db_now e rows =
      if any (same_business e) rows
      then ok rows
      else if any (clashes (new_row db_now e)) rows
      then raise integrity_error
      else ok (rows ++ new_row db_now e ∷ [])

  unfoldable pub create_from_event : ℕ → ClaimedQualityEvent → Exec Table Exc QualityJob
  unfolding insert_job
  create_from_event db_now e rows = elim (insert_job db_now e rows) [
    | raise x ↦ (raise x, rows)
    | ok rows' ↦ reload rows rows' (first_where (same_business e) rows')
  ]
