-- ===== src/Quality/ProcessorTests.antt =====
-- The theorems about the processor at one inspection that passes.
use enterprise_work_order_ai.Prelude.{arith, ℕ, ◌≡◌, refl, Option, none, some, [], ◌∷◌, ◌+◌, length}
use enterprise_work_order_ai.Prelude.Exec.{Outcome, ok, raise}
use enterprise_work_order_ai.Prelude.Sql.{first_where, order_by, insert_by}
use enterprise_work_order_ai.Prelude.Utf8.{utf8_bytes, utf8_encode, utf8_decode_from}
use enterprise_work_order_ai.Prelude.Text.{Str, codes, lstrip, strip, is_space}
use enterprise_work_order_ai.Knowledge.Models.{RetrievalHit, hybrid}
use enterprise_work_order_ai.Quality.Aggregator.{aggregate_verdict}
use enterprise_work_order_ai.Quality.Errors.{Exc}
use enterprise_work_order_ai.Quality.Inputs.{
  Toolkit, naive, pick_fields, safe_snapshot, safe_attachments, replace_z, timestamp, optional_text,
  quality_input,
}
use enterprise_work_order_ai.Quality.Labels.{pass, one}
use enterprise_work_order_ai.Quality.Models.{
  Json, bool, str, Fields, end, field, Runtime, ClaimedQualityJob, QualityResultRecord,
}
use enterprise_work_order_ai.Quality.Processor.{
  prepare, validated_output, judge, conclude, consult, inspect_prepared, inspect, process,
}
use enterprise_work_order_ai.Quality.Processor.Evidenced.{PassEvidence, inspect_pass}
use enterprise_work_order_ai.Quality.Processor.Stored.{process_on, inspect_on, process_again}
use enterprise_work_order_ai.Quality.Processor.Tables.{Search, Generate, table_services}
use enterprise_work_order_ai.Quality.Request.{
  truncate_utf8, policy_chunk_uuid, policy_chunk_uuids, policy_rule_codes, policy_chunks,
  quality_request, audit_record,
}
use enterprise_work_order_ai.Quality.Request.Truncation.{IsLongestFit, truncate_utf8-IsLongestFit}
use enterprise_work_order_ai.Quality.Results.{
  rule_records, append_model_records, finding_records, raise_version, policy_versions, result_of,
  result_record,
}
use enterprise_work_order_ai.Quality.Rules.{
  AttachmentSummary, evaluate, required_completion_summary_finding, completed_at_range_finding,
  sla_completion_finding, required_attachment_finding,
}
use enterprise_work_order_ai.Quality.Samples.{
  runtime, claimed, result, db, output, model_finding, snapshot,
}
use enterprise_work_order_ai.Quality.Schema.{
  QualityModelOutput, has_code_shape, valid_text, validate_finding, validate_findings,
  validate_output, model_validate, validate_model_output, validate_policy_evidence,
}
use enterprise_work_order_ai.Quality.Store.{
  Db, find_result, insert_findings, write_result, save_result,
}
use enterprise_work_order_ai.Quality.Store.RoundTrip.{as_stored}

abbrev total : Str → ℕ
total [] = 0
total (c ∷ s) = c + total s

-- A finding's identity is told apart by its ordinal.
abbrev rt : Runtime
rt = record runtime { finding_uuid = total }

abbrev attachment : Json → Option AttachmentSummary
attachment (bool b) =
    some (record { attachment_id = codes "a"; media_type = codes "b"; size_bytes = 1; present = b })
attachment _ = none

-- A text is the instant of its length, and an identifier is made of it in the same way.
abbrev kit : Toolkit
kit = record {
  result_uuid = λ s. length s;
  audit_uuid = λ s. length s;
  request_uuid = λ s. length s;
  policy_uuid = λ s. length s;
  parse_uuid = λ s. none;
  hex_upper = λ n. codes "0A";
  sha256 = λ s. codes "0";
  dumps = λ v. codes "1";
  fromisoformat = λ s. some (naive (length s));
  isoformat = λ t. codes "2";
  validate_attachment = λ a m n p. attachment p;
  output_schema = end;
}

-- The job with its summary, three timestamps in order and one attachment.
abbrev job : ClaimedQualityJob
job = record claimed {
  work_order_snapshot = field (codes "completion_summary") (str (codes "done")) (
      field (codes "created_at") (str (codes "1")) (
        field (codes "completed_at") (str (codes "12"))
          (field (codes "due_at") (str (codes "123")) snapshot)));
  attachments_summary = end ∷ [];
}

abbrev hit : RetrievalHit
hit = record {
  chunk = record {
    chunk_id = codes "c1";
    document_id = codes "d";
    document_key = codes "k";
    title = codes "t";
    section = codes "s";
    text = codes "x";
    ordinal = 0;
    document_version = 4;
    content_hash = codes "h";
  };
  bm25_rank = some 1;
  vector_rank = none;
  rrf_score = 1;
}

abbrev look_up : Search
look_up tenant query limit now =
    (ok (record { hits = hit ∷ []; mode = hybrid; warnings = [] }), now)

abbrev ask : Generate
ask request now = (
  ok (record {
    payload = end;
    raw_content = codes "{}";
    provider = codes "p";
    model = codes "m";
    latency_ms = 5;
    input_tokens = none;
    output_tokens = none;
    estimated_cost = none;
  }),
  now,
)

abbrev parse : Fields → Option QualityModelOutput
parse payload = some (record output {
  findings = record model_finding { rule_code = codes "POLICY_0A"; policy_chunk_id = some 2 } ∷ [];
})

abbrev record_or : QualityResultRecord → Outcome Exc QualityResultRecord × Db → QualityResultRecord
record_or r (ok q, s) = q
record_or r (raise e, s) = r

abbrev now_of : Db → ℕ
now_of _ = 150

made : QualityResultRecord
made = record_or result (inspect_on kit rt parse (codes "v1") 5 now_of look_up ask job db)

inspected :
    (inspect_on kit rt parse (codes "v1") 5 now_of look_up ask job db ≡ (ok made, db))
    × (made.verdict ≡ pass)
unfolding made inspect prepare safe_snapshot pick_fields safe_attachments quality_input timestamp
    optional_text replace_z lstrip strip is_space inspect_prepared consult quality_request
    policy_chunks policy_chunk_uuid conclude validated_output policy_rule_codes
    validate_model_output model_validate validate_output validate_findings validate_finding
    has_code_shape valid_text policy_chunk_uuids validate_policy_evidence judge aggregate_verdict
    audit_record truncate_utf8 utf8_encode utf8_bytes utf8_decode_from result_record result_of
    finding_records rule_records append_model_records policy_versions raise_version evaluate
    required_completion_summary_finding completed_at_range_finding sla_completion_finding
    required_attachment_finding order_by insert_by one
inspected = (refl, refl)

inspect_pass_example :
    PassEvidence kit rt parse (codes "v1") 5 (table_services rt now_of look_up ask) job db made
inspect_pass_example =
    inspect_pass kit rt parse (codes "v1") 5 (table_services rt now_of look_up ask) job db db made
      inspected.0 inspected.1

-- The tables after the first inspection is saved.
kept : Db
unfolding made
kept = (save_result rt 150 made db).1

processed : process_on kit rt parse (codes "v1") 5 now_of look_up ask job db ≡ (ok made, kept)
unfolding kept process find_result first_where save_result write_result made inspect prepare
    safe_snapshot pick_fields safe_attachments quality_input timestamp optional_text replace_z
    lstrip strip is_space inspect_prepared consult quality_request policy_chunks policy_chunk_uuid
    conclude validated_output policy_rule_codes validate_model_output model_validate validate_output
    validate_findings validate_finding has_code_shape valid_text policy_chunk_uuids
    validate_policy_evidence judge aggregate_verdict audit_record truncate_utf8 utf8_encode
    utf8_bytes utf8_decode_from result_record result_of finding_records rule_records
    append_model_records policy_versions raise_version evaluate required_completion_summary_finding
    completed_at_range_finding sla_completion_finding required_attachment_finding order_by insert_by
    one insert_findings
processed = refl

process_again_example :
    (r : QualityResultRecord) × (inspect_on kit rt parse (codes "v1") 5 now_of look_up ask job db
      ≡ (ok r, db))
    × ((later_search : Search) (later_generate : Generate)
        → process_on kit rt parse (codes "v1") 5 now_of later_search later_generate job kept
          ≡ (ok (as_stored rt r), kept))
unfolding first_where
process_again_example =
    process_again kit rt parse (codes "v1") 5 now_of look_up ask (λ tenant query limit tables. refl)
      (λ request tables. refl) job made db kept
      (record { job_there = refl; no_result = refl; no_findings = refl }) processed

-- `é` takes two bytes of the four that are allowed, the dash three.
truncate_utf8-IsLongestFit_example :
    (kept : Str) × (truncate_utf8 (233 ∷ 8212 ∷ []) 4 ≡ ok kept)
    × IsLongestFit 4 (233 ∷ 8212 ∷ []) kept
truncate_utf8-IsLongestFit_example =
    truncate_utf8-IsLongestFit (233 ∷ 8212 ∷ []) 4 refl (omega arith, (omega arith, tt))
