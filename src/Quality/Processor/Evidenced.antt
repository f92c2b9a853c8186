-- ===== src/Quality/Processor/Evidenced.antt =====
-- What a PASS of the processor rests on.
use enterprise_work_order_ai.Prelude.{
  ℕ, suc, ◌≡◌, refl, ap, ◌∙◌, true, Option, some, List, [], ◌∷◌, ◌++◌, length, All, All-append,
}
use enterprise_work_order_ai.Prelude.Exec.{Outcome, ok}
use enterprise_work_order_ai.Prelude.Text.{Str, elem}
use mathlib.Core.Path.{subst}
use enterprise_work_order_ai.Knowledge.Models.{RetrievalHit, RetrievalResult}
use enterprise_work_order_ai.Llm.Contracts.{StructuredLlmRequest, StructuredLlmResult}
use enterprise_work_order_ai.Quality.Aggregator.{aggregate_verdict}
use enterprise_work_order_ai.Quality.Aggregator.Evidence.{PassesWithEvidence, pass_has_evidence}
use enterprise_work_order_ai.Quality.Errors.{Exc}
use enterprise_work_order_ai.Quality.Inputs.{Toolkit, retrieval_query}
use enterprise_work_order_ai.Quality.Labels.{pass, skip, rule, model}
use enterprise_work_order_ai.Quality.Models.{
  Fields, Runtime, ClaimedQualityJob, QualityFindingRecord, QualityResultRecord,
}
use enterprise_work_order_ai.Quality.Request.{policy_chunk_uuids}
use enterprise_work_order_ai.Quality.Results.{
  model_record, rule_records, append_model_records, finding_records, result_of,
}
use enterprise_work_order_ai.Quality.Rules.{QualityFinding}
use enterprise_work_order_ai.Quality.Schema.{
  QualityModelFinding, QualityModelOutput, validate_policy_evidence,
}
use enterprise_work_order_ai.Quality.Schema.Grounding.{validate_policy_evidence_idem}
use enterprise_work_order_ai.Quality.Processor.{Services, Prepared, any_present, prepare, inspect}
use enterprise_work_order_ai.Quality.Processor.Recorded.{
  Judged, Inspected, skipped, judged, inspect-Inspected,
}

-- A PASS of a rule, or a PASS of the model that cites one of the chunks.
pub data IsEvidenced (retrieved : List ℕ) (f : QualityFindingRecord) : Type 0 where
  by_rule : f.label ≡ pass → f.source ≡ rule → IsEvidenced retrieved f
  by_chunk :
      f.label ≡ pass
      → f.source ≡ model
      → (chunk : ℕ) → f.policy_chunk_id ≡ some chunk
      → elem chunk retrieved ≡ true
      → IsEvidenced retrieved f

rule_records-IsEvidenced :
    (retrieved : List ℕ) (n : ℕ) (fs : List QualityFinding)
    → All (λ (f : QualityFinding). f.label ≡ pass) fs
    → All (IsEvidenced retrieved) (rule_records n fs)
unfolding rule_records
rule_records-IsEvidenced retrieved n [] h = tt
rule_records-IsEvidenced retrieved n (f ∷ fs) h =
    (by_rule h.0 refl, rule_records-IsEvidenced retrieved (suc n) fs h.1)

append_model_records-IsEvidenced :
    (retrieved : List ℕ) (findings : List QualityFindingRecord) (fs : List QualityModelFinding)
    → All (IsEvidenced retrieved) findings
    → All (PassesWithEvidence retrieved) fs
    → All (IsEvidenced retrieved) (append_model_records findings fs)
unfolding append_model_records
append_model_records-IsEvidenced retrieved findings [] h k = h
append_model_records-IsEvidenced retrieved findings (f ∷ fs) h k =
    append_model_records-IsEvidenced retrieved (findings ++ model_record (length findings) f ∷ [])
      fs
      (All-append (IsEvidenced retrieved) findings _ h
        (by_chunk k.0.0 refl k.0.1.chunk k.0.1.cited k.0.1.found, tt))
      k.1

module _ (kit : Toolkit) (rt : Runtime) (parse : Fields → Option QualityModelOutput) where
  Judged-pass :
      (job : ClaimedQualityJob) (p : Prepared) (hits : List RetrievalHit)
      (request : StructuredLlmRequest) (response : StructuredLlmResult) (r : QualityResultRecord)
      → (j : Judged kit rt parse job p hits request response r) → r.verdict ≡ pass
      → All (λ (f : QualityFinding). f.label ≡ pass) p.rule_findings
        × All (IsEvidenced j.retrieved) r.findings
  unfolding result_of finding_records
  Judged-pass job p hits request response r j passed =
      let grounded = validate_policy_evidence j.output j.retrieved in
      let agreed : aggregate_verdict p.rule_findings grounded ≡ ok pass =
        j.aggregated ∙ ap ok (ap (λ (x : QualityResultRecord). x.verdict) j.recorded ∙ passed) in
      let (rules, _, cites) = pass_has_evidence p.rule_findings grounded j.retrieved (
        ap (aggregate_verdict p.rule_findings) (validate_policy_evidence_idem j.retrieved j.output)
        ∙ agreed) in
      (
        rules,
        subst (λ (x : QualityResultRecord). All (IsEvidenced j.retrieved) x.findings) j.recorded
            (append_model_records-IsEvidenced j.retrieved (rule_records 0 p.rule_findings)
              grounded.findings (rule_records-IsEvidenced j.retrieved 0 p.rule_findings rules)
              cites),
      )

  module _ (prompt_version : Str) (policy_limit : ℕ) {S : Type 0} (services : Services S) where
    -- The evidence for a PASS: an attachment that is there, rules that all passed, and an answer of
    -- the policy index whose chunks the model's findings cite.
    pub record PassEvidence (job : ClaimedQualityJob) (s : S) (r : QualityResultRecord)
        : Type 0 where
      pub prepared : Prepared
      pub retrieved : List ℕ
      pub from_job : prepare kit job ≡ ok prepared
      pub attachment_there : any_present prepared.attachments ≡ true
      pub rules_pass : All (λ (f : QualityFinding). f.label ≡ pass) prepared.rule_findings
      pub answer : RetrievalResult
      pub found :
          (services.search job.tenant_id (retrieval_query prepared.safe_snapshot) policy_limit s).0
          ≡ ok answer
      pub chunks : policy_chunk_uuids kit answer.hits ≡ ok retrieved
      pub evidenced : All (IsEvidenced retrieved) r.findings

    pass_of :
        (job : ClaimedQualityJob) (p : Prepared) (s s' : S) (r : QualityResultRecord)
        → prepare kit job ≡ ok p
        → Inspected kit rt parse prompt_version policy_limit services job p s r s'
        → r.verdict ≡ pass
        → PassEvidence job s r
    unfolding result_of
    pass_of job p s s' r prepared (skipped _ recorded _) passed =
        absurd (skip_ne (ap (λ (x : QualityResultRecord). x.verdict) recorded ∙ passed))
      where
        skip_ne : skip ≡ pass → ⊥
        skip_ne h = cc
    pass_of job p s s' r prepared (judged there retrieval searched request response found _ _ j)
          passed =
        let (rules, evidenced) = Judged-pass job p retrieval.hits request response r j passed in
        record {
          prepared = p;
          retrieved = j.retrieved;
          from_job = prepared;
          attachment_there = there;
          rules_pass = rules;
          answer = retrieval;
          found = ap (λ (x : Outcome Exc RetrievalResult × S). x.0) found;
          chunks = j.chunks;
          evidenced = evidenced;
        }

    -- An inspection, with whatever index and model, ends in PASS only with an attachment that is
    -- there, with all rules passed, and with findings that are each a PASS of a rule or a PASS of
    -- the model that cites a chunk that the index returned for this job.
    pub inspect_pass :
        (job : ClaimedQualityJob) (s s' : S) (r : QualityResultRecord)
        → inspect kit rt parse prompt_version policy_limit services job s ≡ (ok r, s')
        → r.verdict ≡ pass
        → PassEvidence job s r
    inspect_pass job s s' r h passed =
        let (p, prepared, i) =
          inspect-Inspected kit rt parse prompt_version policy_limit services job s s' h in
        pass_of job p s s' r prepared i passed
