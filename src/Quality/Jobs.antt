-- ===== src/Quality/Jobs.antt =====
-- The table `quality_job` and the statements of `PostgresQualityRepository` on it
-- (apps/ai-service/app/quality/repository.py; the columns' defaults are those of
-- apps/ai-service/alembic/versions/20260718_02_quality_loop.py).
-- One method is one transaction; an exception in it rolls the table back. Instants are native
-- numbers. The foreign keys to the work orders, whose table is another service's, are left out.
pub mod Fencing
pub mod Isolation
pub mod Batch
pub mod Reports
use text.Mathlib.Text.{◌==◌ as string_eq}
use enterprise_work_order_ai.Prelude.{
  ℕ, suc, ◌+◌, ◌≤◌, ◌<◌, String, Bool, true, false, not, ◌&&◌, ◌||◌, Option, none, some, List, [],
  ◌∷◌, ◌++◌, map, leb, ltb, ◌==◌, length, take, any, all, keep_if, if◌then◌else◌,
}
use enterprise_work_order_ai.Prelude.Exec.{Outcome, ok, raise, Exec}
use enterprise_work_order_ai.Prelude.Sql.{update_where, returning, first_where, order_by}
use enterprise_work_order_ai.Prelude.Text.{Str, codes, str_eq, elem}
use enterprise_work_order_ai.Quality.Errors.{Exc, value_error, runtime_error, integrity_error}
use enterprise_work_order_ai.Quality.Labels.{Label, skip, label_eq}
use enterprise_work_order_ai.Quality.Models.{
  Fields, Runtime, QualityJobStatus, pending, running, retry_wait, succeeded, failed, skipped,
  ClaimedQualityEvent, QualityJob, ClaimedQualityJob, valid_claim,
}
use enterprise_work_order_ai.Quality.Rules.{Datetime}

-- The JSON object that `create_from_event` stores.
pub record TriggerPayload : Type 0 where
  pub event_id : ℕ
  pub attempt : ℕ
  pub occurred_at : Datetime
  pub work_order_snapshot : Fields
  pub attachments_summary : List Fields

pub record QualityJobRow : Type 0 where
  pub id : ℕ
  pub tenant_id : ℕ
  pub work_order_id : ℕ
  pub work_order_version : ℕ
  pub inspection_round : ℕ
  pub business_key : Str
  pub trigger_payload : TriggerPayload
  pub status : QualityJobStatus
  pub priority : ℕ
  pub retry_count : ℕ
  pub max_retry_count : ℕ
  pub next_retry_at : Option ℕ
  pub started_at : Option ℕ
  pub finished_at : Option ℕ
  pub last_error_code : Option String
  pub last_error_message : Option String
  pub result_id : Option ℕ
  pub created_at : ℕ
  pub updated_at : ℕ

abbrev pub Table : Type 0
Table = List QualityJobRow

abbrev pub is_running : QualityJobStatus → Bool
is_running running = true
is_running _ = false

-- `column <= instant`, which is not true of NULL.
abbrev pub at_most : Option ℕ → ℕ → Bool
at_most none t = false
at_most (some at) t = leb at t

-- `_safe_error_message`
unfoldable pub safe_error_message : String → String
safe_error_message code =
    if string_eq code "PROVIDER_TIMEOUT"
    then "Model provider request timed out"
    else if string_eq code "PROVIDER_RATE_LIMITED"
    then "Model provider rate limited the request"
    else if string_eq code "PROVIDER_UNAVAILABLE"
    then "Model provider is unavailable"
    else if string_eq code "PROVIDER_AUTH_FAILED"
    then "Model provider authentication failed"
    else if string_eq code "PROVIDER_BAD_RESPONSE"
    then "Model provider returned an invalid response"
    else if string_eq code "QUALITY_OUTPUT_INVALID"
    then "Model output failed the quality schema"
    else if string_eq code "QUALITY_INPUT_INVALID"
    then "Quality job input is invalid"
    else "Quality inspection failed"

-- `recover_expired`
abbrev pub expired : ℕ → ℕ → QualityJobRow → Bool
expired tenant before r =
    r.tenant_id == tenant && is_running r.status && at_most r.started_at before

abbrev pub recover_row : ℕ → QualityJobRow → QualityJobRow
recover_row now r =
    let exhausted : Bool = leb r.max_retry_count r.retry_count in
    record r {
      status = if exhausted then failed else retry_wait;
      next_retry_at = if exhausted then none else some now;
      finished_at = if exhausted then some now else none;
      started_at = none;
      last_error_code = some "QUALITY_WORKER_LEASE_EXPIRED";
      last_error_message = some "Quality worker lease expired";
      updated_at = now;
    }

unfoldable pub recover_expired : ℕ → ℕ → ℕ → Table → ℕ × Table
recover_expired tenant now lease_expired_before rows = (
  length (returning (expired tenant lease_expired_before) (recover_row now) rows),
  update_where (expired tenant lease_expired_before) (recover_row now) rows,
)

-- `status = 'PENDING' OR (status = 'RETRY_WAIT' AND next_retry_at <= :now)`
abbrev pub is_due : QualityJobStatus → Option ℕ → ℕ → Bool
is_due pending at now = true
is_due retry_wait at now = at_most at now
is_due _ at now = false

abbrev pub eligible : ℕ → ℕ → QualityJobRow → Bool
eligible tenant now r =
    r.tenant_id == tenant
    && ltb r.retry_count r.max_retry_count
    && is_due r.status r.next_retry_at now

-- `ORDER BY priority, created_at, id`
abbrev pub claimed_before : QualityJobRow → QualityJobRow → Bool
claimed_before a b =
    ltb a.priority b.priority
    || (a.priority == b.priority
        && (ltb a.created_at b.created_at || (a.created_at == b.created_at && leb a.id b.id)))

-- The rows that `FOR UPDATE SKIP LOCKED LIMIT :limit` takes; `locked` tells the rows that other
-- transactions hold.
unfoldable pub candidates : (ℕ → Bool) → ℕ → ℕ → ℕ → Table → Table
candidates locked tenant limit now rows =
    take limit
      (order_by claimed_before (keep_if (λ r. eligible tenant now r && not (locked r.id)) rows))

abbrev pub row_ids : Table → List ℕ
row_ids = map (λ r. r.id)

abbrev pub chosen : List ℕ → ℕ → ℕ → QualityJobRow → Bool
chosen ids tenant now r = elem r.id ids && eligible tenant now r

abbrev pub start_row : ℕ → QualityJobRow → QualityJobRow
start_row now r = record r {
  status = running;
  retry_count = r.retry_count + 1;
  next_retry_at = none;
  started_at = some now;
  finished_at = none;
  last_error_code = none;
  last_error_message = none;
  updated_at = now;
}

-- `_claimed_quality_job`, before the validation.
abbrev pub claimed_job : QualityJobRow → ClaimedQualityJob
claimed_job r = record {
  id = r.id;
  tenant_id = r.tenant_id;
  work_order_id = r.work_order_id;
  work_order_version = r.work_order_version;
  inspection_round = r.inspection_round;
  retry_count = r.retry_count;
  work_order_snapshot = r.trigger_payload.work_order_snapshot;
  attachments_summary = r.trigger_payload.attachments_summary;
}

-- `job.id = … AND status = 'RUNNING' AND retry_count = …` of `retry_quality_job` and
-- `fail_quality_job`.
abbrev pub holds_claim : ClaimedQualityJob → QualityJobRow → Bool
holds_claim job r =
    r.tenant_id == job.tenant_id
    && r.id == job.id
    && is_running r.status
    && r.retry_count == job.retry_count

abbrev pub may_retry : ClaimedQualityJob → QualityJobRow → Bool
may_retry job r = holds_claim job r && ltb r.retry_count r.max_retry_count

abbrev pub retry_row : String → ℕ → ℕ → QualityJobRow → QualityJobRow
retry_row code next_retry_at now r = record r {
  status = retry_wait;
  next_retry_at = some next_retry_at;
  started_at = none;
  last_error_code = some code;
  last_error_message = some (safe_error_message code);
  updated_at = now;
}

-- `retried.first() is not None`: some row was changed.
unfoldable pub retry_quality_job : ClaimedQualityJob → String → ℕ → ℕ → Table → Bool × Table
retry_quality_job job code next_retry_at now rows =
    (any (may_retry job) rows, update_where (may_retry job) (retry_row code next_retry_at now) rows)

abbrev pub fail_row : String → ℕ → QualityJobRow → QualityJobRow
fail_row code now r = record r {
  status = failed;
  next_retry_at = none;
  started_at = none;
  finished_at = some now;
  last_error_code = some code;
  last_error_message = some (safe_error_message code);
  updated_at = now;
}

unfoldable pub fail_quality_job : ClaimedQualityJob → String → ℕ → Table → Bool × Table
fail_quality_job job code now rows =
    (any (holds_claim job) rows, update_where (holds_claim job) (fail_row code now) rows)

-- The `UPDATE` at the end of `save_result`, which asks for no status and no attempt.
abbrev pub is_job : ℕ → ℕ → QualityJobRow → Bool
is_job tenant job_id r = r.tenant_id == tenant && r.id == job_id

-- `"SKIPPED" if result.verdict == "SKIP" else "SUCCEEDED"`
abbrev pub final_status : Label → QualityJobStatus
final_status verdict = if label_eq verdict skip then skipped else succeeded

abbrev pub complete_row : Label → ℕ → ℕ → QualityJobRow → QualityJobRow
complete_row verdict result_id db_now r = record r {
  status = final_status verdict;
  result_id = some result_id;
  finished_at = some db_now;
  updated_at = db_now;
  last_error_code = none;
  last_error_message = none;
}

unfoldable pub complete_job : ℕ → ℕ → Label → ℕ → ℕ → Table → Table
complete_job tenant job_id verdict result_id db_now rows =
    update_where (is_job tenant job_id) (complete_row verdict result_id db_now) rows

module _ (rt : Runtime) where
  -- Rows that fail the validation abort the transaction, so nothing is claimed.
  unfoldable pub claim_quality_jobs :
      (ℕ → Bool) → ℕ → ℕ → ℕ → Exec Table Exc (List ClaimedQualityJob)
  claim_quality_jobs locked tenant limit now rows =
      let ids : List ℕ = row_ids (candidates locked tenant limit now rows) in
      let jobs : List ClaimedQualityJob =
        map claimed_job (returning (chosen ids tenant now) (start_row now) rows) in
      if all (valid_claim rt) jobs
      then (ok jobs, update_where (chosen ids tenant now) (start_row now) rows)
      else (raise value_error, rows)
