-- ===== src/Quality/Request.antt =====
-- What an inspection sends to the model, and what it keeps of the call
-- (apps/ai-service/app/quality/processor.py).
-- An identifier of a hit is a text. A text with a lone surrogate has no UTF-8 form: to encode it
-- raises a `UnicodeEncodeError`, which is a `ValueError`.
pub mod Truncation
use enterprise_work_order_ai.Prelude.{
  ℕ, ◌+◌, ◌*◌, ◌-◌, Bool, true, false, ◌&&◌, ◌||◌, Option, none, some, List, [], ◌∷◌, ◌++◌, map,
  leb, ltb, ◌==◌, length, take, any, if◌then◌else◌,
}
use enterprise_work_order_ai.Prelude.Exec.{Outcome, ok, raise, and_then}
use enterprise_work_order_ai.Prelude.Sql.{order_by}
use enterprise_work_order_ai.Prelude.Utf8.{
  is_surrogate, utf8_encode, utf8_decode_from, utf8_decode_ignore,
}
use enterprise_work_order_ai.Prelude.Text.{Str, codes, strip, nonempty}
use enterprise_work_order_ai.Knowledge.Models.{RetrievalHit}
use enterprise_work_order_ai.Llm.Contracts.{
  Role, system, user, assistant, LlmMessage, StructuredLlmRequest, StructuredLlmResult,
  structured_request,
}
use enterprise_work_order_ai.Quality.Errors.{Exc, value_error}
use enterprise_work_order_ai.Quality.Inputs.{Toolkit, safe_snapshot}
use enterprise_work_order_ai.Quality.Labels.{Label, pass, fail, uncertain, skip}
use enterprise_work_order_ai.Quality.Models.{
  Json, bool, int, str, list, dict, Items, nil, item, Fields, end, field, Runtime,
  ClaimedQualityJob, ModelCallAuditRecord,
}
use enterprise_work_order_ai.Quality.Rules.{AttachmentSummary}
use enterprise_work_order_ai.Quality.Schema.{QualityModelOutput}

abbrev pub label_text : Label → Str
label_text pass = codes "PASS"
label_text fail = codes "FAIL"
label_text uncertain = codes "UNCERTAIN"
label_text skip = codes "SKIP"

abbrev pub json_list : {A : Type 0} → (A → Json) → List A → Items
json_list f [] = nil
json_list f (x ∷ xs) = item (f x) (json_list f xs)

-- `attachment.model_dump(mode="json")`
abbrev pub dump_attachment : AttachmentSummary → Fields
dump_attachment a = field (codes "attachment_id") (str a.attachment_id) (
    field (codes "media_type") (str a.media_type) (
      field (codes "size_bytes") (int a.size_bytes) (field (codes "present") (bool a.present) end)))

abbrev pub max_raw_response_bytes : ℕ
max_raw_response_bytes = 8 * 1024

-- `_truncate_utf8`; a text with a surrogate cannot be encoded, which is a `ValueError`.
unfoldable pub truncate_utf8 : Str → ℕ → Outcome Exc Str
unfolding utf8_encode utf8_decode_from
truncate_utf8 value max_bytes =
    let encoded : List ℕ = utf8_encode value in
    if any is_surrogate value
    then raise value_error
    else ok (
        if leb (length encoded) max_bytes
        then value
        else utf8_decode_ignore (take max_bytes encoded))

-- `a <= b` on texts.
abbrev pub str_leb : Str → Str → Bool
str_leb [] t = true
str_leb (a ∷ s) [] = false
str_leb (a ∷ s) (b ∷ t) = ltb a b || (a == b && str_leb s t)

abbrev pub keys : Fields → List Str
keys end = []
keys (field key v rest) = key ∷ keys rest

module _ (kit : Toolkit) where
  -- `policy_chunk_uuid`
  unfoldable pub policy_chunk_uuid : Str → Outcome Exc ℕ
  policy_chunk_uuid chunk_id = elim (kit.parse_uuid chunk_id) [
    | some id ↦ ok id
    | none ↦ if nonempty (strip chunk_id) then ok (kit.policy_uuid chunk_id) else raise value_error
  ]

  -- `policy_rule_code` of the identifier's UUID.
  abbrev pub rule_code_of : ℕ → Str
  rule_code_of id = codes "POLICY_" ++ kit.hex_upper id

  abbrev pub policy_rule_code : Str → Outcome Exc Str
  policy_rule_code chunk_id = and_then (policy_chunk_uuid chunk_id) (λ id. ok (rule_code_of id))

  -- `policy_chunk_uuid` of each hit.
  unfoldable pub policy_chunk_uuids : List RetrievalHit → Outcome Exc (List ℕ)
  unfolding policy_chunk_uuid
  policy_chunk_uuids [] = ok []
  policy_chunk_uuids (hit ∷ hits) =
      let rest = policy_chunk_uuids hits in
      and_then (policy_chunk_uuid hit.chunk.chunk_id) (λ id. and_then rest (λ ids. ok (id ∷ ids)))

  -- `policy_rule_code` of each hit.
  unfoldable pub policy_rule_codes : List RetrievalHit → Outcome Exc (List Str)
  unfolding policy_chunk_uuid
  policy_rule_codes [] = ok []
  policy_rule_codes (hit ∷ hits) =
      let rest = policy_rule_codes hits in
      and_then (policy_rule_code hit.chunk.chunk_id) (λ c. and_then rest (λ cs. ok (c ∷ cs)))

  -- `_sha256`
  abbrev pub sha256_text : Str → Outcome Exc Str
  sha256_text value = if any is_surrogate value then raise value_error else ok (kit.sha256 value)

  module _ (rt : Runtime) where
    abbrev pub policy_chunk : RetrievalHit → ℕ → Fields
    policy_chunk hit id = field (codes "rule_code") (str (rule_code_of id)) (
        field (codes "policy_chunk_id") (str (rt.uuid_text id)) (
          field (codes "document_key") (str hit.chunk.document_key) (
            field (codes "document_version") (int hit.chunk.document_version) (
              field (codes "title") (str hit.chunk.title) (
                field (codes "section") (str hit.chunk.section)
                  (field (codes "text") (str hit.chunk.text) end))))))

    unfoldable pub policy_chunks : List RetrievalHit → Outcome Exc Items
    unfolding policy_chunk_uuid
    policy_chunks [] = ok nil
    policy_chunks (hit ∷ hits) =
        let rest = policy_chunks hits in
        and_then (policy_chunk_uuid hit.chunk.chunk_id)
          (λ id. and_then rest (λ chunks. ok (item (dict (policy_chunk hit id)) chunks)))

    abbrev pub system_prompt : Str
    system_prompt =
        codes "Inspect the completed work order only against the supplied policy chunks. "
        ++ codes "Return only the requested JSON object. Cite a supplied policy_chunk_id for "
        ++ codes "every policy finding; otherwise label it UNCERTAIN."

    abbrev pub prompt_payload : Fields → List AttachmentSummary → Items → Fields
    prompt_payload snapshot attachments chunks = field (codes "work_order") (dict snapshot) (
        field (codes "attachments") (list (json_list (λ a. dict (dump_attachment a)) attachments))
          (field (codes "policy_chunks") (list chunks) end))

    -- `f"{job.tenant_id}:{job.id}:{last}"`
    abbrev pub job_name : ClaimedQualityJob → Str → Str
    job_name job last =
        rt.uuid_text job.tenant_id ++ codes ":" ++ rt.uuid_text job.id ++ codes ":" ++ last

    -- `_structured_request`
    unfoldable pub quality_request :
        ClaimedQualityJob
        → Fields
        → List AttachmentSummary
        → List RetrievalHit
        → (prompt_version : Str) → Outcome Exc StructuredLlmRequest
    unfolding policy_chunks
    quality_request job snapshot attachments hits prompt_version =
        and_then (policy_chunks hits) (λ chunks. ok (
          structured_request
            (record { role = system; content = system_prompt }
              ∷ record {
                role = user;
                content = kit.dumps (dict (prompt_payload snapshot attachments chunks));
              }
              ∷ [])
            kit.output_schema prompt_version
            (rt.uuid_text (kit.request_uuid (job_name job prompt_version)))))

    abbrev pub role_text : Role → Str
    role_text system = codes "system"
    role_text user = codes "user"
    role_text assistant = codes "assistant"

    abbrev pub dump_message : LlmMessage → Json
    dump_message m = dict (
        field (codes "role") (str (role_text m.role)) (field (codes "content") (str m.content) end))

    abbrev pub request_material : StructuredLlmRequest → Str
    request_material request = kit.dumps (
        dict (
          field (codes "messages") (list (json_list dump_message request.messages)) (
            field (codes "prompt_version") (str request.prompt_version)
              (field (codes "response_schema") (dict request.response_schema) end))))

    abbrev pub dump_hit : RetrievalHit → Json
    dump_hit hit = dict (
        field (codes "chunk_id") (str hit.chunk.chunk_id) (
          field (codes "document_key") (str hit.chunk.document_key)
            (field (codes "document_version") (int hit.chunk.document_version) end)))

    abbrev pub input_summary : ClaimedQualityJob → Str → List RetrievalHit → Fields
    input_summary job request_hash hits = field (codes "request_hash") (str request_hash) (
        field (codes "snapshot_fields")
          (list (json_list str (order_by str_leb (keys (safe_snapshot job.work_order_snapshot)))))
          (field (codes "attachment_count") (int (length job.attachments_summary))
            (field (codes "retrieved_policy_chunks") (list (json_list dump_hit hits)) end)))

    abbrev pub response_summary : QualityModelOutput → Str → Fields
    response_summary output response_hash = field (codes "response_hash") (str response_hash) (
        field (codes "verdict") (str (label_text output.verdict))
          (field (codes "finding_count") (int (length output.findings)) end))

    abbrev pub sized : ℕ → Str → Bool
    sized most s = leb 1 (length s) && leb (length s) most

    -- The constraints on the fields of `ModelCallAuditRecord`.
    abbrev pub valid_call : ModelCallAuditRecord → Bool
    valid_call c =
        sized 100 c.provider
        && sized 200 c.model_name
        && sized 100 c.prompt_version
        && sized 200 c.request_id

    abbrev pub check_call : ModelCallAuditRecord → Outcome Exc ModelCallAuditRecord
    check_call c = if valid_call c then ok c else raise value_error

    -- `_audit_record`
    unfoldable pub audit_record :
        ClaimedQualityJob
        → StructuredLlmRequest
        → StructuredLlmResult
        → QualityModelOutput
        → List RetrievalHit
        → Outcome Exc ModelCallAuditRecord
    unfolding truncate_utf8 safe_snapshot
    audit_record job request response output hits =
        and_then (sha256_text (request_material request)) (λ request_hash.
          and_then (sha256_text response.raw_content) (λ response_hash.
            and_then (truncate_utf8 response.raw_content max_raw_response_bytes) (λ raw.
              check_call (record {
                id = kit.audit_uuid (job_name job request.request_id);
                provider = response.provider;
                model_name = response.model;
                prompt_version = request.prompt_version;
                request_id = request.request_id;
                latency_ms = response.latency_ms;
                input_tokens = response.input_tokens;
                output_tokens = response.output_tokens;
                estimated_cost = response.estimated_cost;
                input_summary = input_summary job request_hash hits;
                response_summary = response_summary output response_hash;
                raw_response_truncated = some raw;
                error_code = none;
                error_message = none;
              }))))
