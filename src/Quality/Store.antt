-- ===== src/Quality/Store.antt =====
-- The four tables of the quality loop and the results in them
-- (`find_result` and `save_result` in apps/ai-service/app/quality/repository.py; the constraints are
-- those of apps/ai-service/alembic/versions/20260718_02_quality_loop.py).
-- A JSONB column gives back what was stored. A record that is read is not validated again.
pub mod RoundTrip
use enterprise_work_order_ai.Prelude.{
  ℕ, suc, Bool, true, false, ◌&&◌, ◌||◌, Option, none, some, List, [], ◌∷◌, ◌++◌, map, leb, ltb,
  ◌==◌, any, take, keep_if, if◌then◌else◌,
}
use enterprise_work_order_ai.Prelude.Exec.{Outcome, ok, raise, Exec}
use enterprise_work_order_ai.Prelude.Sql.{update_where, first_where, order_by}
use enterprise_work_order_ai.Prelude.Text.{Str, codes, str_eq}
use enterprise_work_order_ai.Quality.Errors.{Exc, runtime_error, integrity_error}
use enterprise_work_order_ai.Quality.Jobs.{Table, is_job, complete_job}
use enterprise_work_order_ai.Quality.Labels.{Label}
use enterprise_work_order_ai.Quality.Models.{
  Fields, Runtime, QualityFindingRecord, ModelCallAuditRecord, QualityResultRecord,
}

pub record AuditRow : Type 0 where
  pub tenant_id : ℕ
  pub quality_job_id : ℕ
  pub call : ModelCallAuditRecord

pub record FindingRow : Type 0 where
  pub id : ℕ
  pub tenant_id : ℕ
  pub quality_result_id : ℕ
  pub finding : QualityFindingRecord

pub record ResultRow : Type 0 where
  pub id : ℕ
  pub tenant_id : ℕ
  pub quality_job_id : ℕ
  pub work_order_id : ℕ
  pub work_order_version : ℕ
  pub inspection_round : ℕ
  pub model_call_id : Option ℕ
  pub verdict : Label
  pub confidence : ℕ
  pub work_order_snapshot : Fields
  pub policy_versions : List (Str × ℕ)
  pub attachment_summary : List Fields
  pub generated_at : ℕ
  pub callback_delivered : Bool
  pub callback_at : Option ℕ

pub record Db : Type 0 where
  pub jobs : Table
  pub audits : List AuditRow
  pub results : List ResultRow
  pub findings : List FindingRow

abbrev pub result_of_job : ℕ → ℕ → ResultRow → Bool
result_of_job tenant job_id r = r.tenant_id == tenant && r.quality_job_id == job_id

abbrev pub finding_of_result : ℕ → ℕ → FindingRow → Bool
finding_of_result tenant result_id f = f.tenant_id == tenant && f.quality_result_id == result_id

abbrev pub by_ordinal : QualityFindingRecord → QualityFindingRecord → Bool
by_ordinal f g = leb f.ordinal g.ordinal

-- The `LEFT JOIN` on the audit.
abbrev pub joined_call : ℕ → Option ℕ → List AuditRow → Option ModelCallAuditRecord
joined_call tenant none audits = none
joined_call tenant (some id) [] = none
joined_call tenant (some id) (a ∷ audits) =
    let rest = joined_call tenant (some id) audits in
    if a.tenant_id == tenant && a.call.id == id then some a.call else rest

abbrev pub read_result : Db → ResultRow → QualityResultRecord
read_result db r = record {
  id = r.id;
  tenant_id = r.tenant_id;
  quality_job_id = r.quality_job_id;
  work_order_id = r.work_order_id;
  work_order_version = r.work_order_version;
  inspection_round = r.inspection_round;
  verdict = r.verdict;
  confidence = r.confidence;
  work_order_snapshot = r.work_order_snapshot;
  policy_versions = r.policy_versions;
  attachment_summary = r.attachment_summary;
  findings = order_by by_ordinal (
      map (λ (f : FindingRow). f.finding)
        (keep_if (finding_of_result r.tenant_id r.id) db.findings));
  model_call = joined_call r.tenant_id r.model_call_id db.audits;
}

abbrev pub read_found : Db → Option ResultRow → Option QualityResultRecord
read_found db none = none
read_found db (some r) = some (read_result db r)

-- `_find_result`
unfoldable pub find_result : ℕ → ℕ → Db → Option QualityResultRecord
find_result tenant job_id db = read_found db (first_where (result_of_job tenant job_id) db.results)

-- An `INSERT` that some unique constraint of the table may refuse.
abbrev pub insert_unique {ℓ} : {R : Type ℓ} → (R → Bool) → R → List R → Option (List R)
insert_unique clash r rows = if any clash rows then none else some (rows ++ r ∷ [])

module _ (rt : Runtime) where
  -- A record as the columns give it back.
  abbrev pub stored_finding : QualityFindingRecord → QualityFindingRecord
  stored_finding f = record f { confidence = rt.numeric_5_4 f.confidence }

  abbrev pub stored_cost : Option ℕ → Option ℕ
  stored_cost none = none
  stored_cost (some c) = some (rt.numeric_18_8 c)

  abbrev pub stored_call : ModelCallAuditRecord → ModelCallAuditRecord
  stored_call c = record c { estimated_cost = stored_cost c.estimated_cost }

  abbrev pub audit_row : QualityResultRecord → ModelCallAuditRecord → AuditRow
  audit_row result call = record {
    tenant_id = result.tenant_id;
    quality_job_id = result.quality_job_id;
    call = stored_call call;
  }

  -- The primary key, and `uq_model_call_audit_request`.
  abbrev pub audit_clash : AuditRow → AuditRow → Bool
  audit_clash new a =
      a.tenant_id == new.tenant_id
      && (a.call.id == new.call.id || str_eq a.call.request_id new.call.request_id)

  abbrev pub insert_audit :
      QualityResultRecord → Option ModelCallAuditRecord → List AuditRow → Option (List AuditRow)
  insert_audit result none audits = some audits
  insert_audit result (some call) audits =
      insert_unique (audit_clash (audit_row result call)) (audit_row result call) audits

  abbrev pub call_id : Option ModelCallAuditRecord → Option ℕ
  call_id none = none
  call_id (some call) = some call.id

  abbrev pub result_row : ℕ → QualityResultRecord → ResultRow
  result_row db_now result = record {
    id = result.id;
    tenant_id = result.tenant_id;
    quality_job_id = result.quality_job_id;
    work_order_id = result.work_order_id;
    work_order_version = result.work_order_version;
    inspection_round = result.inspection_round;
    model_call_id = call_id result.model_call;
    verdict = result.verdict;
    confidence = rt.numeric_5_4 result.confidence;
    work_order_snapshot = result.work_order_snapshot;
    policy_versions = result.policy_versions;
    attachment_summary = result.attachment_summary;
    generated_at = db_now;
    callback_delivered = false;
    callback_at = none;
  }

  -- The primary key, and `uq_quality_result_job`.
  abbrev pub result_clash : ResultRow → ResultRow → Bool
  result_clash new r =
      (r.tenant_id == new.tenant_id && r.id == new.id) || r.quality_job_id == new.quality_job_id

  abbrev pub finding_row : QualityResultRecord → QualityFindingRecord → FindingRow
  finding_row result f = record {
    id = rt.finding_uuid (
        rt.uuid_text result.tenant_id
        ++ codes ":"
        ++ rt.uuid_text result.id
        ++ codes ":"
        ++ rt.decimal f.ordinal);
    tenant_id = result.tenant_id;
    quality_result_id = result.id;
    finding = stored_finding f;
  }

  -- The primary key, and `uq_quality_finding_result_ordinal`.
  abbrev pub finding_clash : FindingRow → FindingRow → Bool
  finding_clash new f =
      f.tenant_id == new.tenant_id
      && (f.id == new.id
          || (f.quality_result_id == new.quality_result_id
              && f.finding.ordinal == new.finding.ordinal))

  unfoldable pub insert_findings :
      QualityResultRecord → List QualityFindingRecord → List FindingRow → Option (List FindingRow)
  insert_findings result [] rows = some rows
  insert_findings result (f ∷ fs) rows =
      elim (insert_unique (finding_clash (finding_row result f)) (finding_row result f) rows) [
        | none ↦ none
        | some rows' ↦ insert_findings result fs rows'
      ]

  -- `ck_quality_job_execution_interval`: an end is refused that is before the start. The start is by
  -- the worker's clock, the end by the database's.
  abbrev pub starts_after : ℕ → Option ℕ → Bool
  starts_after db_now none = false
  starts_after db_now (some started) = ltb db_now started

  abbrev pub finish_job : ℕ → QualityResultRecord → Table → Option Table
  finish_job db_now result rows =
      if any
        (λ r. is_job result.tenant_id result.quality_job_id r && starts_after db_now r.started_at)
        rows
      then none
      else some
          (complete_job result.tenant_id result.quality_job_id result.verdict result.id db_now rows)

  -- What the transaction commits if each of its statements goes through; a refused one rolls all back.
  abbrev pub commit :
      ℕ
      → QualityResultRecord
      → Option (List AuditRow)
      → Option (List ResultRow)
      → Option (List FindingRow)
      → Option Table
      → Exec Db Exc QualityResultRecord
  commit db_now result (some audits) (some results) (some findings) (some jobs) db =
      (ok result, record { jobs = jobs; audits = audits; results = results; findings = findings })
  commit db_now result _ _ _ _ db = (raise integrity_error, db)

  -- The three inserts and the update of the job.
  unfoldable pub write_result : ℕ → QualityResultRecord → Exec Db Exc QualityResultRecord
  write_result db_now result db =
      commit db_now result (insert_audit result result.model_call db.audits)
        (insert_unique (result_clash (result_row db_now result)) (result_row db_now result)
          db.results)
        (insert_findings result result.findings db.findings) (finish_job db_now result db.jobs) db

  abbrev pub keep_existing :
      Option QualityResultRecord → Exec Db Exc QualityResultRecord → Exec Db Exc QualityResultRecord
  keep_existing (some existing) write db = (ok existing, db)
  keep_existing none write db = write db

  unfoldable pub save_result : ℕ → QualityResultRecord → Exec Db Exc QualityResultRecord
  unfolding write_result
  save_result db_now result db =
      if any (is_job result.tenant_id result.quality_job_id) db.jobs
      then keep_existing (find_result result.tenant_id result.quality_job_id db)
          (write_result db_now result) db
      else (raise runtime_error, db)
