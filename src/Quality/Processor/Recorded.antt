-- ===== src/Quality/Processor/Recorded.antt =====
-- The ways in which an inspection comes to a record.
use enterprise_work_order_ai.Prelude.{
  ℕ, ◌≡◌, ap, ◌∙◌, inl, inr, true, false, Option, List, ◌&&◌, all, leb, Bool-cases,
}
use enterprise_work_order_ai.Prelude.Exec.{
  Outcome, ok, raise, Exec, and_then-ok, after-ok, bind-ok, ◌>>=◌,
}
use enterprise_work_order_ai.Prelude.Text.{Str}
use enterprise_work_order_ai.Knowledge.Models.{RetrievalHit, RetrievalResult}
use enterprise_work_order_ai.Llm.Contracts.{StructuredLlmRequest, StructuredLlmResult}
use enterprise_work_order_ai.Quality.Aggregator.{aggregate_verdict, AggregateError}
use enterprise_work_order_ai.Quality.Errors.{Exc}
use enterprise_work_order_ai.Quality.Inputs.{Toolkit, retrieval_query}
use enterprise_work_order_ai.Quality.Labels.{Label, one}
use enterprise_work_order_ai.Quality.Models.{
  Fields, Runtime, ClaimedQualityJob, ModelCallAuditRecord, QualityResultRecord,
}
use enterprise_work_order_ai.Quality.Request.{policy_chunk_uuids, quality_request, audit_record}
use enterprise_work_order_ai.Quality.Results.{
  Verdict, valid_finding, check_result, result_of, result_record,
}
use enterprise_work_order_ai.Quality.Schema.{QualityModelOutput, validate_policy_evidence}
use enterprise_work_order_ai.Quality.Processor.{
  Services, Prepared, any_present, or_value_error, lift, prepare, validated_output, model_verdict,
  skip_verdict, skip_record, judge, conclude, consult, inspect_prepared, inspect,
}

ok_inj : {A : Type 0} {x y : A} → ◌≡◌ {A = Outcome Exc A} (ok x) (ok y) → x ≡ y
ok_inj h = cc

raise_ne : {A : Type 0} {e : Exc} {a : A} → raise e ≡ ok a → ⊥
raise_ne h = cc

or_value_error-ok :
    {A : Type 0} (o : Outcome AggregateError A) {a : A} → or_value_error o ≡ ok a → o ≡ ok a
or_value_error-ok (ok b) h = ap ok (ok_inj h)
or_value_error-ok (raise e) h = absurd (raise_ne h)

check_result-ok :
    (r : QualityResultRecord) {r' : QualityResultRecord} → check_result r ≡ ok r' → r ≡ r'
check_result-ok r {r'} h =
    elim (Bool-cases
      (all valid_finding r.findings && leb 1 r.inspection_round && leb r.confidence one)) [
        | inl e ↦ ok_inj (rw e at h)
        | inr e ↦ absurd (raise_ne (rw e at h))
      ]

module _ (kit : Toolkit) (rt : Runtime) (parse : Fields → Option QualityModelOutput) where
  result_record-ok :
      (job : ClaimedQualityJob) (v : Verdict) {r : QualityResultRecord}
      → result_record kit rt job v ≡ ok r
      → result_of kit rt job v ≡ r
  unfolding result_record
  result_record-ok job v h = check_result-ok (result_of kit rt job v) h

  -- The grounded output, the verdict and the audit of a record that a model call led to.
  pub record Judged (job : ClaimedQualityJob) (p : Prepared) (hits : List RetrievalHit)
      (request : StructuredLlmRequest) (response : StructuredLlmResult) (r : QualityResultRecord)
      : Type 0 where
    pub output : QualityModelOutput
    pub retrieved : List ℕ
    pub verdict : Label
    pub audit : ModelCallAuditRecord
    pub validated : validated_output kit parse response.payload hits ≡ ok output
    pub chunks : policy_chunk_uuids kit hits ≡ ok retrieved
    pub aggregated :
        aggregate_verdict p.rule_findings (validate_policy_evidence output retrieved) ≡ ok verdict
    pub audited :
        audit_record kit rt job request response (validate_policy_evidence output retrieved) hits
        ≡ ok audit
    pub recorded :
        result_of kit rt job
          (model_verdict p hits (validate_policy_evidence output retrieved) verdict audit)
        ≡ r

  judge-Judged :
      (job : ClaimedQualityJob) (p : Prepared) (hits : List RetrievalHit)
      (request : StructuredLlmRequest) (response : StructuredLlmResult)
      (output : QualityModelOutput) (retrieved : List ℕ) {r : QualityResultRecord}
      → validated_output kit parse response.payload hits ≡ ok output
      → policy_chunk_uuids kit hits ≡ ok retrieved
      → judge kit rt job p hits request response (validate_policy_evidence output retrieved) ≡ ok r
      → Judged job p hits request response r
  unfolding judge
  judge-Judged job p hits request response output retrieved v c h =
      let (verdict, aggregated, h') = and_then-ok _ _ h in
      let (audit, audited, h'') = and_then-ok _ _ h' in
      record {
        output = output;
        retrieved = retrieved;
        verdict = verdict;
        audit = audit;
        validated = v;
        chunks = c;
        aggregated = or_value_error-ok _ aggregated;
        audited = audited;
        recorded =
            result_record-ok job
              (model_verdict p hits (validate_policy_evidence output retrieved) verdict audit) h'';
      }

  conclude-Judged :
      (job : ClaimedQualityJob) (p : Prepared) (hits : List RetrievalHit)
      (request : StructuredLlmRequest) (response : StructuredLlmResult) {r : QualityResultRecord}
      → conclude kit rt parse job p hits request response ≡ ok r
      → Judged job p hits request response r
  unfolding conclude
  conclude-Judged job p hits request response h =
      let (output, validated, h') = and_then-ok _ _ h in
      let (retrieved, chunks, h'') = and_then-ok _ _ h' in
      judge-Judged job p hits request response output retrieved validated chunks h''

  module _ (prompt_version : Str) (policy_limit : ℕ) {S : Type 0} (services : Services S) where
    -- A record made without the model, or by what the index and the model answered.
    pub data Inspected (job : ClaimedQualityJob) (p : Prepared) (s : S) (r : QualityResultRecord)
        (s' : S) : Type 0 where
      skipped :
          any_present p.attachments ≡ false
          → result_of kit rt job (skip_verdict p) ≡ r
          → s ≡ s'
          → Inspected job p s r s'
      judged :
          any_present p.attachments ≡ true
          → (retrieval : RetrievalResult) (searched : S) (request : StructuredLlmRequest)
            (response : StructuredLlmResult)
          → services.search job.tenant_id (retrieval_query p.safe_snapshot) policy_limit s
            ≡ (ok retrieval, searched)
          → quality_request kit rt job p.safe_snapshot p.attachments retrieval.hits prompt_version
            ≡ ok request
          → services.generate_structured request searched ≡ (ok response, s')
          → Judged job p retrieval.hits request response r
          → Inspected job p s r s'

    consult-Judged :
        (job : ClaimedQualityJob) (p : Prepared) (hits : List RetrievalHit) (mid s' : S)
        {r : QualityResultRecord}
        → consult kit rt parse prompt_version policy_limit services job p hits mid ≡ (ok r, s')
        → (request : StructuredLlmRequest) × (response : StructuredLlmResult) × (quality_request kit
              rt job p.safe_snapshot p.attachments hits prompt_version
            ≡ ok request)
          × (services.generate_structured request mid ≡ (ok response, s'))
          × Judged job p hits request response r
    unfolding consult
    consult-Judged job p hits mid s' h =
        let (request, asked, h') =
          after-ok (quality_request kit rt job p.safe_snapshot p.attachments hits prompt_version)
            (λ request. services.generate_structured request >>= λ response.
              lift (conclude kit rt parse job p hits request response))
            mid h in
        let (response, mid', answered, h'') =
          bind-ok (services.generate_structured request)
            (λ response. lift (conclude kit rt parse job p hits request response)) mid h' in
        (
          request,
          response,
          asked,
          answered ∙ ap (λ (x : Outcome Exc QualityResultRecord × S). (ok response, x.1)) h'',
          conclude-Judged job p hits request response
              (ap (λ (x : Outcome Exc QualityResultRecord × S). x.0) h''),
        )

    pub inspect_prepared-Inspected :
        (job : ClaimedQualityJob) (p : Prepared) (s s' : S) {r : QualityResultRecord}
        → inspect_prepared kit rt parse prompt_version policy_limit services job p s ≡ (ok r, s')
        → Inspected job p s r s'
    unfolding inspect_prepared skip_record
    inspect_prepared-Inspected job p s s' {r} h = elim (Bool-cases (any_present p.attachments)) [
      | inr none_there ↦
          let h' : (skip_record kit rt job p, s) ≡ (ok r, s') = rw none_there at h in
          skipped none_there
            (result_record-ok job (skip_verdict p)
              (ap (λ (x : Outcome Exc QualityResultRecord × S). x.0) h'))
            (ap (λ (x : Outcome Exc QualityResultRecord × S). x.1) h')
      | inl there ↦
          let search =
            services.search job.tenant_id (retrieval_query p.safe_snapshot) policy_limit in
          let ask : RetrievalResult → Exec S Exc QualityResultRecord = λ retrieval.
            consult kit rt parse prompt_version policy_limit services job p retrieval.hits in
          let h' : (search >>= ask) s ≡ (ok r, s') = rw there at h in
          let (retrieval, searched, found, h1) = bind-ok search ask s h' in
          let (request, response, asked, answered, j) =
            consult-Judged job p retrieval.hits searched s' h1 in
          judged there retrieval searched request response found asked answered j
    ]

    pub inspect-Inspected :
        (job : ClaimedQualityJob) (s s' : S) {r : QualityResultRecord}
        → inspect kit rt parse prompt_version policy_limit services job s ≡ (ok r, s')
        → (p : Prepared) × (prepare kit job ≡ ok p) × Inspected job p s r s'
    unfolding inspect
    inspect-Inspected job s s' h =
        let (p, prepared, h') =
          after-ok (prepare kit job)
            (inspect_prepared kit rt parse prompt_version policy_limit services job) s h in
        (p, prepared, inspect_prepared-Inspected job p s s' h')
