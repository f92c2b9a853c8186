-- ===== src/Quality/Samples.antt =====
-- One inspection, for the examples: an event, its job, a model output and a result.
use enterprise_work_order_ai.Prelude.{ℕ, true, none, some, List, [], ◌∷◌, length}
use enterprise_work_order_ai.Prelude.Text.{codes}
use enterprise_work_order_ai.Quality.Jobs.{Table, QualityJobRow}
use enterprise_work_order_ai.Quality.Labels.{pass, fail, skip, high, rule}
use enterprise_work_order_ai.Quality.Models.{
  Json, Fields, dict, str, int, end, field, Runtime, ClaimedQualityEvent, ClaimedQualityJob,
  running, pending, QualityResultRecord,
}
use enterprise_work_order_ai.Quality.Rules.{Datetime, QualityInput, QualityFinding, sla_completion}
use enterprise_work_order_ai.Quality.Schema.{QualityModelFinding, QualityModelOutput}
use enterprise_work_order_ai.Quality.Store.{Db}

abbrev pub runtime : Runtime
runtime = record {
  uuid_text = λ n. n ∷ [];
  decimal = λ n. n ∷ [];
  lower = λ s. s;
  job_uuid = λ s. length s;
  finding_uuid = λ s. length s;
  numeric_5_4 = λ n. n;
  numeric_18_8 = λ n. n;
}

abbrev pub snapshot : Fields
snapshot = field (codes "id") (str (2 ∷ [])) (
    field (codes "tenant_id") (str (1 ∷ []))
      (field (codes "version") (int 3) (field (codes "status") (str (codes "COMPLETED")) end)))

abbrev pub leaking : Json
leaking = dict (field (codes "files") (dict (field (codes "raw_url") (int 1) end)) end)

abbrev pub event : ClaimedQualityEvent
event = record {
  event_id = 9;
  tenant_id = 1;
  work_order_id = 2;
  work_order_version = 3;
  work_order_snapshot = snapshot;
  attachments_summary = [];
  inspection_round = 1;
  attempt = 1;
  occurred_at = record { instant = 4; zone = "+00:00" };
}

abbrev pub at : ℕ → Datetime
at t = record { instant = t; zone = "+00:00" }

abbrev pub input : QualityInput
input = record {
  completion_summary = some (codes "done");
  created_at = some (at 10);
  completed_at = some (at 30);
  due_at = some (at 20);
  attachments = some (
      record { attachment_id = codes "a"; media_type = codes "b"; size_bytes = 1; present = true }
      ∷ []);
}

abbrev pub model_finding : QualityModelFinding
model_finding = record {
  rule_code = codes "POLICY_A";
  severity = high;
  label = pass;
  evidence = codes "seen";
  policy_chunk_id = some 7;
  recommendation = codes "none";
  confidence = 1;
}

abbrev pub output : QualityModelOutput
output = record { verdict = pass; confidence = 1; findings = model_finding ∷ [] }

-- The job of the event, claimed at 100 for the first time.
abbrev pub claimed : ClaimedQualityJob
claimed = record {
  id = 7;
  tenant_id = 1;
  work_order_id = 2;
  work_order_version = 3;
  inspection_round = 1;
  retry_count = 1;
  work_order_snapshot = snapshot;
  attachments_summary = [];
}

abbrev pub row : QualityJobRow
row = record {
  id = 7;
  tenant_id = 1;
  work_order_id = 2;
  work_order_version = 3;
  inspection_round = 1;
  business_key = 1 ∷ 58 ∷ 2 ∷ 58 ∷ 3 ∷ 58 ∷ 1 ∷ [];
  trigger_payload = record {
    event_id = 9;
    attempt = 1;
    occurred_at = at 4;
    work_order_snapshot = snapshot;
    attachments_summary = [];
  };
  status = running;
  priority = 100;
  retry_count = 1;
  max_retry_count = 3;
  next_retry_at = none;
  started_at = some 100;
  finished_at = none;
  last_error_code = none;
  last_error_message = none;
  result_id = none;
  created_at = 5;
  updated_at = 100;
}

-- The same job, claimed again after its lease ran out.
abbrev pub second : QualityJobRow
second = record row { retry_count = 2 }

abbrev pub result : QualityResultRecord
result = record {
  id = 77;
  tenant_id = 1;
  quality_job_id = 7;
  work_order_id = 2;
  work_order_version = 3;
  inspection_round = 1;
  verdict = pass;
  confidence = 1;
  work_order_snapshot = snapshot;
  policy_versions = [];
  attachment_summary = [];
  findings =
      record {
        ordinal = 0;
        rule_code = codes "SLA_COMPLETION";
        severity = high;
        label = pass;
        evidence = end;
        policy_chunk_id = none;
        recommendation = codes "none";
        confidence = 1;
        source = rule;
      }
      ∷ [];
  model_call = none;
}

abbrev pub db : Db
db = record { jobs = row ∷ []; audits = []; results = []; findings = [] }

-- The row of the event before its first claim.
abbrev pub pending_row : QualityJobRow
pending_row = record row { status = pending; retry_count = 0; started_at = none; updated_at = 5 }

-- A job of another tenant.
abbrev pub foreign : QualityJobRow
foreign = record pending_row { id = 8; tenant_id = 2 }

abbrev pub waiting : Table
waiting = pending_row ∷ record pending_row { id = 6; priority = 200 } ∷ []

abbrev pub other_result : QualityResultRecord
other_result = record result { id = 78; verdict = fail }

abbrev pub passing : QualityFinding
passing = record {
  rule_code = sla_completion;
  severity = high;
  label = pass;
  evidence = [];
  policy_chunk_id = none;
  recommendation = "none";
  confidence = 1;
  source = rule;
}

abbrev pub rule_findings : List QualityFinding
rule_findings = passing ∷ record passing { label = skip } ∷ []
