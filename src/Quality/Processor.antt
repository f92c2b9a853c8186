-- ===== src/Quality/Processor.antt =====
-- The inspection of one job (apps/ai-service/app/quality/processor.py).
-- What a call of the processor reads or changes outside is its state. A JSON payload that pydantic
-- reads as the fields of a model output is the parameter `parse`.
pub mod Tables
pub mod Recorded
pub mod Evidenced
pub mod Stored
use enterprise_work_order_ai.Prelude.{
  ℕ, Bool, true, false, ◌&&◌, Option, none, some, List, [], ◌∷◌, leb, any, if◌then◌else◌,
}
use enterprise_work_order_ai.Prelude.Exec.{Outcome, ok, raise, Exec, and_then, pure, ◌>>=◌}
use enterprise_work_order_ai.Prelude.Text.{Str, strip, nonempty}
use enterprise_work_order_ai.Knowledge.Models.{RetrievalHit, RetrievalResult}
use enterprise_work_order_ai.Llm.Contracts.{StructuredLlmRequest, StructuredLlmResult}
use enterprise_work_order_ai.Quality.Aggregator.{aggregate_verdict, in_rules, AggregateError}
use enterprise_work_order_ai.Quality.Errors.{Exc, value_error, quality_output}
use enterprise_work_order_ai.Quality.Inputs.{
  Toolkit, safe_snapshot, safe_attachments, quality_input, retrieval_query,
}
use enterprise_work_order_ai.Quality.Labels.{Label, fail, skip, one}
use enterprise_work_order_ai.Quality.Models.{
  Fields, Runtime, ClaimedQualityJob, ModelCallAuditRecord, QualityResultRecord,
}
use enterprise_work_order_ai.Quality.Request.{
  policy_chunk_uuids, policy_rule_codes, quality_request, audit_record,
}
use enterprise_work_order_ai.Quality.Results.{Verdict, policy_versions, result_record}
use enterprise_work_order_ai.Quality.Rules.{AttachmentSummary, QualityFinding, evaluate}
use enterprise_work_order_ai.Quality.Schema.{
  QualityModelOutput, SchemaError, validate_model_output, validate_policy_evidence,
}

-- `QualityResultRepository`, `TenantPolicyIndex` and `StructuredGateway`.
pub record Services (S : Type 0) : Type 0 where
  pub find_result : (tenant job_id : ℕ) → Exec S Exc (Option QualityResultRecord)
  pub save_result : QualityResultRecord → Exec S Exc QualityResultRecord
  pub search : (tenant : ℕ) (query : Str) (limit : ℕ) → Exec S Exc RetrievalResult
  pub generate_structured : StructuredLlmRequest → Exec S Exc StructuredLlmResult

-- `QualityProcessor.__init__`: false where it raises.
unfoldable pub valid_processor : (prompt_version : Str) (policy_limit : ℕ) → Bool
valid_processor prompt_version policy_limit =
    nonempty (strip prompt_version) && leb 1 policy_limit && leb policy_limit 20

abbrev pub any_present : List AttachmentSummary → Bool
any_present = any (λ a. a.present)

-- A schema error of either kind, turned into `QualityOutputError`.
abbrev pub or_output_error : {A : Type 0} → Outcome SchemaError A → Outcome Exc A
or_output_error (ok a) = ok a
or_output_error (raise e) = raise quality_output

-- The `ValueError` of the aggregation.
abbrev pub or_value_error : {A : Type 0} → Outcome AggregateError A → Outcome Exc A
or_value_error (ok a) = ok a
or_value_error (raise e) = raise value_error

abbrev pub lift : {S A : Type 0} → Outcome Exc A → Exec S Exc A
lift o s = (o, s)

-- What of the job the checks and the model see.
pub record Prepared : Type 0 where
  pub safe_snapshot : Fields
  pub attachments : List AttachmentSummary
  pub rule_findings : List QualityFinding

abbrev pub confidence_of : List QualityFinding → QualityModelOutput → ℕ
confidence_of rules output = if in_rules fail rules then one else output.confidence

-- What the record is told where no attachment is present.
abbrev pub skip_verdict : Prepared → Verdict
skip_verdict p = record {
  verdict = skip;
  confidence = one;
  safe_snapshot = p.safe_snapshot;
  attachments = p.attachments;
  policy_versions = [];
  rule_findings = p.rule_findings;
  model_output = none;
  model_call = none;
}

-- What it is told after a model call.
abbrev pub model_verdict :
    Prepared → List RetrievalHit → QualityModelOutput → Label → ModelCallAuditRecord → Verdict
model_verdict p hits grounded verdict audit = record {
  verdict = verdict;
  confidence = confidence_of p.rule_findings grounded;
  safe_snapshot = p.safe_snapshot;
  attachments = p.attachments;
  policy_versions = policy_versions hits;
  rule_findings = p.rule_findings;
  model_output = some grounded;
  model_call = some audit;
}

-- From the snapshot to the rule findings.
unfoldable pub prepare : Toolkit → ClaimedQualityJob → Outcome Exc Prepared
unfolding safe_snapshot safe_attachments quality_input
prepare kit job =
    let snapshot = safe_snapshot job.work_order_snapshot in
    and_then (safe_attachments kit job.attachments_summary) (λ attachments.
      and_then (quality_input kit snapshot attachments) (λ input. ok (record {
        safe_snapshot = snapshot;
        attachments = attachments;
        rule_findings = evaluate kit.isoformat input;
      })))

-- `_validated_output`
unfoldable pub validated_output :
    Toolkit
    → (Fields → Option QualityModelOutput)
    → Fields
    → List RetrievalHit
    → Outcome Exc QualityModelOutput
unfolding policy_rule_codes validate_model_output
validated_output kit parse payload hits = elim (policy_rule_codes kit hits) [
  | raise e ↦ raise quality_output
  | ok allowed ↦ or_output_error (validate_model_output parse payload allowed)
]

module _ (kit : Toolkit) (rt : Runtime) where
  unfoldable pub skip_record : ClaimedQualityJob → Prepared → Outcome Exc QualityResultRecord
  unfolding result_record
  skip_record job p = result_record kit rt job (skip_verdict p)

  -- From the grounded output on.
  unfoldable pub judge :
      ClaimedQualityJob
      → Prepared
      → List RetrievalHit
      → StructuredLlmRequest
      → StructuredLlmResult
      → QualityModelOutput
      → Outcome Exc QualityResultRecord
  unfolding aggregate_verdict audit_record result_record
  judge job p hits request response grounded =
      and_then (or_value_error (aggregate_verdict p.rule_findings grounded)) (λ verdict.
        and_then (audit_record kit rt job request response grounded hits)
          (λ audit. result_record kit rt job (model_verdict p hits grounded verdict audit)))

module _ (kit : Toolkit) (rt : Runtime) (parse : Fields → Option QualityModelOutput) where
  -- From the model's answer on.
  unfoldable pub conclude :
      ClaimedQualityJob
      → Prepared
      → List RetrievalHit
      → StructuredLlmRequest
      → StructuredLlmResult
      → Outcome Exc QualityResultRecord
  unfolding validated_output policy_chunk_uuids validate_policy_evidence judge
  conclude job p hits request response =
      and_then (validated_output kit parse response.payload hits) (λ output.
        and_then (policy_chunk_uuids kit hits) (λ retrieved.
          judge kit rt job p hits request response (validate_policy_evidence output retrieved)))

  module _ (prompt_version : Str) (policy_limit : ℕ) {S : Type 0} (services : Services S) where
    -- From the hits on.
    unfoldable pub consult :
        ClaimedQualityJob → Prepared → List RetrievalHit → Exec S Exc QualityResultRecord
    unfolding quality_request conclude
    consult job p hits =
        lift (quality_request kit rt job p.safe_snapshot p.attachments hits prompt_version)
        >>= λ request. services.generate_structured request >>= λ response.
            lift (conclude job p hits request response)

    -- The record to be saved, of either branch.
    unfoldable pub inspect_prepared : ClaimedQualityJob → Prepared → Exec S Exc QualityResultRecord
    unfolding skip_record consult retrieval_query
    inspect_prepared job p s =
        if any_present p.attachments
        then (services.search job.tenant_id (retrieval_query p.safe_snapshot) policy_limit
              >>= λ retrieval. consult job p retrieval.hits)
            s
        else (skip_record kit rt job p, s)

    unfoldable pub inspect : ClaimedQualityJob → Exec S Exc QualityResultRecord
    unfolding prepare inspect_prepared
    inspect job = lift (prepare kit job) >>= inspect_prepared job

    abbrev pub unless_found :
        ClaimedQualityJob → Option QualityResultRecord → Exec S Exc QualityResultRecord
    unless_found job (some existing) = pure existing
    unless_found job none = inspect job >>= services.save_result

    -- `QualityProcessor.process`
    unfoldable pub process : ClaimedQualityJob → Exec S Exc QualityResultRecord
    unfolding inspect
    process job = services.find_result job.tenant_id job.id >>= unless_found job
