-- ===== src/Quality/Processor/Stored.antt =====
-- What a second inspection of a job does.
use enterprise_work_order_ai.Prelude.{
  ℕ, ◌≡◌, sym, ap, ◌∙◌, true, Option, none, some, [], ◌++◌, any, keep_if,
}
use enterprise_work_order_ai.Prelude.Exec.{Outcome, ok, Exec, bind-ok}
use enterprise_work_order_ai.Prelude.Sql.{first_where}
use enterprise_work_order_ai.Prelude.Text.{Str, codes}
use mathlib.Core.Path.{subst}
use enterprise_work_order_ai.Knowledge.Models.{RetrievalResult}
use enterprise_work_order_ai.Llm.Contracts.{StructuredLlmRequest, StructuredLlmResult}
use enterprise_work_order_ai.Quality.Errors.{Exc}
use enterprise_work_order_ai.Quality.Inputs.{Toolkit}
use enterprise_work_order_ai.Quality.Jobs.{is_job}
use enterprise_work_order_ai.Quality.Models.{
  Fields, Runtime, ClaimedQualityJob, QualityResultRecord,
}
use enterprise_work_order_ai.Quality.Results.{Verdict, result_of}
use enterprise_work_order_ai.Quality.Results.Ordinals.{finding_records-Ascending}
use enterprise_work_order_ai.Quality.Schema.{QualityModelOutput}
use enterprise_work_order_ai.Quality.Store.{
  Db, result_of_job, finding_of_result, read_found, find_result, save_result,
}
use enterprise_work_order_ai.Quality.Store.RoundTrip.{
  Ascending, IsFirst, as_stored, find_result-save,
}
use enterprise_work_order_ai.Quality.Processor.{Prepared, inspect, unless_found, process}
use enterprise_work_order_ai.Quality.Processor.Recorded.{
  Inspected, skipped, judged, inspect-Inspected,
}
use enterprise_work_order_ai.Quality.Processor.Tables.{Search, Generate, table_services}

missing :
    (job : ClaimedQualityJob) (db : Db)
    → first_where (result_of_job job.tenant_id job.id) db.results ≡ none
    → find_result job.tenant_id job.id db ≡ none
unfolding find_result
missing job db q = ap (read_found db) q

module _ (kit : Toolkit) (rt : Runtime) (parse : Fields → Option QualityModelOutput)
    (prompt_version : Str) (policy_limit : ℕ) (db_now : Db → ℕ) where
  abbrev pub process_on : Search → Generate → ClaimedQualityJob → Exec Db Exc QualityResultRecord
  process_on search generate =
      process kit rt parse prompt_version policy_limit (table_services rt db_now search generate)

  abbrev pub inspect_on : Search → Generate → ClaimedQualityJob → Exec Db Exc QualityResultRecord
  inspect_on search generate =
      inspect kit rt parse prompt_version policy_limit (table_services rt db_now search generate)

  abbrev pub result_id : ClaimedQualityJob → ℕ
  result_id job = kit.result_uuid (rt.uuid_text job.tenant_id ++ codes ":" ++ rt.uuid_text job.id)

  -- The job is in the tables and has no result there.
  pub record IsFresh (job : ClaimedQualityJob) (db : Db) : Type 0 where
    pub job_there : any (is_job job.tenant_id job.id) db.jobs ≡ true
    pub no_result : first_where (result_of_job job.tenant_id job.id) db.results ≡ none
    pub no_findings : keep_if (finding_of_result job.tenant_id (result_id job)) db.findings ≡ []

  IsFirst-of :
      (job : ClaimedQualityJob) (v : Verdict) (db : Db)
      → IsFresh job db
      → IsFirst rt (result_of kit rt job v) db × Ascending (result_of kit rt job v).findings
  unfolding result_of
  IsFirst-of job v db fresh = (
    record {
      job_there = fresh.job_there;
      no_result = fresh.no_result;
      no_findings = fresh.no_findings;
    },
    finding_records-Ascending v.rule_findings v.model_output,
  )

  -- The record is one of the job.
  abbrev pub IsOf : ClaimedQualityJob → QualityResultRecord → Type 0
  IsOf job r = (v : Verdict) × (result_of kit rt job v ≡ r)

  read_again :
      (job : ClaimedQualityJob) (r saved : QualityResultRecord) (db db' : Db)
      → IsOf job r
      → IsFresh job db
      → save_result rt (db_now db) r db ≡ (ok saved, db')
      → find_result job.tenant_id job.id db' ≡ some (as_stored rt r)
  unfolding result_of
  read_again job r saved db db' (v, made) fresh h =
      subst
        (λ (x : QualityResultRecord).
          save_result rt (db_now db) x db ≡ (ok saved, db')
          → find_result job.tenant_id job.id db' ≡ some (as_stored rt x))
        made
        (λ h.
          let (first, up) = IsFirst-of job v db fresh in
          find_result-save rt (db_now db) (result_of kit rt job v) saved db db' first up h)
        h

  module _ (search : Search) (generate : Generate)
      (search_keeps : (tenant : ℕ) (query : Str) (limit : ℕ) (db : Db)
        → (search tenant query limit db).1 ≡ db)
      (generate_keeps : (request : StructuredLlmRequest) (db : Db)
        → (generate request db).1 ≡ db) where
    made-IsOf :
        (job : ClaimedQualityJob) (p : Prepared) (r : QualityResultRecord) (db mid : Db)
        → Inspected kit rt parse prompt_version policy_limit
            (table_services rt db_now search generate)
            job
            p
            db
            r
            mid
        → IsOf job r × (db ≡ mid)
    made-IsOf job p r db mid (skipped _ recorded same) = ((_, recorded), same)
    made-IsOf job p r db mid (judged _ retrieval searched request response found _ answered j) = (
      (_, j.recorded),
      sym (search_keeps _ _ _ db)
          ∙ ap (λ (x : Outcome Exc RetrievalResult × Db). x.1) found
          ∙ sym (generate_keeps request searched)
          ∙ ap (λ (x : Outcome Exc StructuredLlmResult × Db). x.1) answered,
    )

    -- Once a job's first inspection has returned, with an index and a model that leave the tables of
    -- the quality loop alone, any later one returns the record that was inspected first, with the
    -- numbers that the columns hold, and changes nothing, whatever index and model it has.
    pub process_again :
        (job : ClaimedQualityJob) (saved : QualityResultRecord) (db db' : Db)
        → IsFresh job db
        → process_on search generate job db ≡ (ok saved, db')
        → (r : QualityResultRecord) × (inspect_on search generate job db ≡ (ok r, db))
          × ((later_search : Search) (later_generate : Generate)
              → process_on later_search later_generate job db' ≡ (ok (as_stored rt r), db'))
    unfolding process
    process_again job saved db db' fresh h =
        let services = table_services rt db_now search generate in
        let none_yet : find_result job.tenant_id job.id db ≡ none =
          missing job db fresh.no_result in
        let h' : unless_found kit rt parse prompt_version policy_limit services job none db
            ≡ (ok saved, db') =
          subst
            (λ (o : Option QualityResultRecord).
              unless_found kit rt parse prompt_version policy_limit services job o db
              ≡ (ok saved, db'))
            none_yet h in
        let (r, mid, inspected, kept) =
          bind-ok (inspect_on search generate job) services.save_result db h' in
        let (p, _, i) =
          inspect-Inspected kit rt parse prompt_version policy_limit services job db mid
            inspected in
        let (made, same) = made-IsOf job p r db mid i in
        let found =
          read_again job r saved db db' made fresh
            (subst (λ (x : Db). save_result rt (db_now x) r x ≡ (ok saved, db')) (sym same) kept) in
        (
          r,
          inspected ∙ ap (λ (x : Db). (ok r, x)) (sym same),
          λ later_search later_generate.
              ap
                (λ (o : Option QualityResultRecord).
                  unless_found kit rt parse prompt_version policy_limit
                    (table_services rt db_now later_search later_generate) job o db')
                found,
        )
