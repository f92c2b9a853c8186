-- ===== src/Quality/Results.antt =====
-- The record of an inspection (apps/ai-service/app/quality/processor.py).
pub mod Ordinals
use enterprise_work_order_ai.Prelude.{
  ℕ, suc, max, Bool, true, false, ◌&&◌, Option, none, some, List, [], ◌∷◌, ◌++◌, map, leb, length,
  all, String, if◌then◌else◌,
}
use enterprise_work_order_ai.Prelude.Exec.{Outcome, ok, raise}
use enterprise_work_order_ai.Prelude.Text.{Str, codes, str_eq}
use enterprise_work_order_ai.Knowledge.Models.{RetrievalHit}
use enterprise_work_order_ai.Quality.Errors.{Exc, value_error}
use enterprise_work_order_ai.Quality.Inputs.{Toolkit}
use enterprise_work_order_ai.Quality.Labels.{Label, rule, model, one}
use enterprise_work_order_ai.Quality.Models.{
  Json, bool, int, str, other_number, Fields, end, field, Runtime, ClaimedQualityJob,
  QualityFindingRecord, ModelCallAuditRecord, QualityResultRecord,
}
use enterprise_work_order_ai.Quality.Request.{dump_attachment}
use enterprise_work_order_ai.Quality.Rules.{
  RuleCode, required_completion_summary, completed_at_range, sla_completion, required_attachment,
  EvidenceValue, AttachmentSummary, QualityFinding,
}
use enterprise_work_order_ai.Quality.Schema.{QualityModelFinding, QualityModelOutput}

abbrev pub rule_code_text : RuleCode → Str
rule_code_text required_completion_summary = codes "REQUIRED_COMPLETION_SUMMARY"
rule_code_text completed_at_range = codes "COMPLETED_AT_RANGE"
rule_code_text sla_completion = codes "SLA_COMPLETION"
rule_code_text required_attachment = codes "REQUIRED_ATTACHMENT"

abbrev pub dump_evidence : EvidenceValue → Json
dump_evidence (EvidenceValue.text s) = str s
dump_evidence (EvidenceValue.int n) = int n
dump_evidence (EvidenceValue.seconds n) = other_number n
dump_evidence (EvidenceValue.bool b) = bool b
dump_evidence EvidenceValue.null = Json.null

abbrev pub dump_evidences : List (String × EvidenceValue) → Fields
dump_evidences [] = end
dump_evidences (e ∷ evidence) = field (codes e.0) (dump_evidence e.1) (dump_evidences evidence)

-- The rule findings, numbered from `ordinal` on.
unfoldable pub rule_records : ℕ → List QualityFinding → List QualityFindingRecord
rule_records ordinal [] = []
rule_records ordinal (f ∷ fs) =
    record {
      ordinal = ordinal;
      rule_code = rule_code_text f.rule_code;
      severity = f.severity;
      label = f.label;
      evidence = dump_evidences f.evidence;
      policy_chunk_id = none;
      recommendation = codes f.recommendation;
      confidence = f.confidence;
      source = rule;
    }
    ∷ rule_records (suc ordinal) fs

abbrev pub model_record : ℕ → QualityModelFinding → QualityFindingRecord
model_record ordinal f = record {
  ordinal = ordinal;
  rule_code = f.rule_code;
  severity = f.severity;
  label = f.label;
  evidence = field (codes "summary") (str f.evidence) end;
  policy_chunk_id = f.policy_chunk_id;
  recommendation = f.recommendation;
  confidence = f.confidence;
  source = model;
}

-- The loop that appends the model's findings, each numbered by how many there are.
unfoldable pub append_model_records :
    List QualityFindingRecord → List QualityModelFinding → List QualityFindingRecord
append_model_records findings [] = findings
append_model_records findings (f ∷ fs) =
    append_model_records (findings ++ model_record (length findings) f ∷ []) fs

unfoldable pub finding_records :
    List QualityFinding → Option QualityModelOutput → List QualityFindingRecord
unfolding rule_records append_model_records
finding_records rules none = rule_records 0 rules
finding_records rules (some output) = append_model_records (rule_records 0 rules) output.findings

-- `versions[key] = max(versions.get(key, 0), version)`; a key keeps its place.
unfoldable pub raise_version : Str → ℕ → List (Str × ℕ) → List (Str × ℕ)
raise_version key version [] = (key, max 0 version) ∷ []
raise_version key version (v ∷ versions) =
    let rest = raise_version key version versions in
    if str_eq v.0 key then (v.0, max v.1 version) ∷ versions else v ∷ rest

abbrev pub add_versions : List (Str × ℕ) → List RetrievalHit → List (Str × ℕ)
add_versions versions [] = versions
add_versions versions (hit ∷ hits) =
    add_versions (raise_version hit.chunk.document_key hit.chunk.document_version versions) hits

-- `_policy_versions`
unfoldable pub policy_versions : List RetrievalHit → List (Str × ℕ)
unfolding raise_version
policy_versions = add_versions []

-- The constraints on the fields of `QualityFindingRecord` and `QualityResultRecord`.
abbrev pub valid_finding : QualityFindingRecord → Bool
valid_finding f = leb 1 (length f.rule_code) && leb (length f.rule_code) 128 && leb f.confidence one

abbrev pub check_result : QualityResultRecord → Outcome Exc QualityResultRecord
check_result r =
    if all valid_finding r.findings && leb 1 r.inspection_round && leb r.confidence one
    then ok r
    else raise value_error

-- What `_result_record` is told besides the job.
pub record Verdict : Type 0 where
  pub verdict : Label
  pub confidence : ℕ
  pub safe_snapshot : Fields
  pub attachments : List AttachmentSummary
  pub policy_versions : List (Str × ℕ)
  pub rule_findings : List QualityFinding
  pub model_output : Option QualityModelOutput
  pub model_call : Option ModelCallAuditRecord

module _ (kit : Toolkit) (rt : Runtime) where
  unfoldable pub result_of : ClaimedQualityJob → Verdict → QualityResultRecord
  unfolding finding_records
  result_of job v = record {
    id = kit.result_uuid (rt.uuid_text job.tenant_id ++ codes ":" ++ rt.uuid_text job.id);
    tenant_id = job.tenant_id;
    quality_job_id = job.id;
    work_order_id = job.work_order_id;
    work_order_version = job.work_order_version;
    inspection_round = job.inspection_round;
    verdict = v.verdict;
    confidence = v.confidence;
    work_order_snapshot = v.safe_snapshot;
    policy_versions = v.policy_versions;
    attachment_summary = map dump_attachment v.attachments;
    findings = finding_records v.rule_findings v.model_output;
    model_call = v.model_call;
  }

  -- `_result_record`
  unfoldable pub result_record : ClaimedQualityJob → Verdict → Outcome Exc QualityResultRecord
  unfolding result_of
  result_record job v = check_result (result_of job v)
