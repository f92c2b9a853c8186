-- ===== src/Quality/Inputs.antt =====
-- What of a claimed job reaches the rules and the model (apps/ai-service/app/quality/processor.py).
use enterprise_work_order_ai.Prelude.{
  ℕ, true, Option, none, some, List, [], ◌∷◌, ◌++◌, ◌==◌, if◌then◌else◌,
}
use enterprise_work_order_ai.Prelude.Exec.{Outcome, ok, raise, and_then}
use enterprise_work_order_ai.Prelude.Text.{Str, codes, strip, nonempty, join_lines}
use enterprise_work_order_ai.Quality.Errors.{Exc, value_error}
use enterprise_work_order_ai.Quality.Models.{Json, null, bool, str, Fields, end, field, get}
use enterprise_work_order_ai.Quality.Rules.{Datetime, AttachmentSummary, QualityInput}

-- What `datetime.fromisoformat` reads: an aware datetime, or one without a zone, which is given as
-- the instant that it has in UTC.
pub data Parsed : Type 0 where
  aware : Datetime → Parsed
  naive : ℕ → Parsed

-- What the processor takes from outside: `uuid5` under each of its namespaces, `UUID` of a text,
-- `uuid.hex.upper()`, SHA-256 as hex digits, `json.dumps` with the separators and sorted keys that it
-- asks for, both directions of ISO 8601, the pydantic validation of an attachment from its four
-- values, and the JSON schema of the model output.
pub record Toolkit : Type 0 where
  pub result_uuid : Str → ℕ
  pub audit_uuid : Str → ℕ
  pub request_uuid : Str → ℕ
  pub policy_uuid : Str → ℕ
  pub parse_uuid : Str → Option ℕ
  pub hex_upper : ℕ → Str
  pub sha256 : Str → Str
  pub dumps : Json → Str
  pub fromisoformat : Str → Option Parsed
  pub isoformat : Datetime → Str
  pub validate_attachment :
      (attachment_id media_type size_bytes present : Json) → Option AttachmentSummary
  pub output_schema : Fields

-- `_APPROVED_SNAPSHOT_FIELDS`
abbrev pub approved_snapshot_fields : List Str
approved_snapshot_fields =
    codes "id"
    ∷ codes "tenant_id"
    ∷ codes "version"
    ∷ codes "status"
    ∷ codes "title"
    ∷ codes "description"
    ∷ codes "order_type"
    ∷ codes "priority"
    ∷ codes "space_path"
    ∷ codes "completion_summary"
    ∷ codes "created_at"
    ∷ codes "due_at"
    ∷ codes "completed_at"
    ∷ []

-- `{key: snapshot[key] for key in keys if key in snapshot}`
unfoldable pub pick_fields : List Str → Fields → Fields
pick_fields [] snapshot = end
pick_fields (key ∷ keys) snapshot =
    let rest = pick_fields keys snapshot in
    elim (get key snapshot) [ none ↦ rest | some v ↦ field key v rest ]

-- `_safe_snapshot`
unfoldable pub safe_snapshot : Fields → Fields
unfolding pick_fields
safe_snapshot = pick_fields approved_snapshot_fields

abbrev pub or_null : Option Json → Json
or_null none = null
or_null (some v) = v

abbrev pub or_present : Option Json → Json
or_present none = bool true
or_present (some v) = v

-- One `AttachmentSummary.model_validate`.
abbrev pub safe_attachment : Toolkit → Fields → Option AttachmentSummary
safe_attachment kit a =
    kit.validate_attachment (or_null (get (codes "attachment_id") a))
      (or_null (get (codes "media_type") a)) (or_null (get (codes "size_bytes") a))
      (or_present (get (codes "present") a))

abbrev pub add_attachment :
    Option AttachmentSummary
    → Outcome Exc (List AttachmentSummary)
    → Outcome Exc (List AttachmentSummary)
add_attachment none rest = raise value_error
add_attachment (some a) (raise e) = raise e
add_attachment (some a) (ok rest) = ok (a ∷ rest)

-- `_safe_attachments`; a `ValidationError` is a `ValueError`.
unfoldable pub safe_attachments : Toolkit → List Fields → Outcome Exc (List AttachmentSummary)
safe_attachments kit [] = ok []
safe_attachments kit (a ∷ attachments) =
    add_attachment (safe_attachment kit a) (safe_attachments kit attachments)

-- `text.replace("Z", "+00:00")`
unfoldable pub replace_z : Str → Str
replace_z [] = []
replace_z (c ∷ s) = let rest = replace_z s in if c == 90 then codes "+00:00" ++ rest else c ∷ rest

abbrev pub with_zone : Option Parsed → Outcome Exc (Option Datetime)
with_zone none = raise value_error
with_zone (some (aware t)) = ok (some t)
with_zone (some (naive n)) = ok (some (record { instant = n; zone = "+00:00" }))

-- `_timestamp`; a JSON value is no `datetime`.
unfoldable pub timestamp : Toolkit → Option Json → Outcome Exc (Option Datetime)
unfolding replace_z strip
timestamp kit none = ok none
timestamp kit (some null) = ok none
timestamp kit (some (str s)) = with_zone (kit.fromisoformat (replace_z (strip s)))
timestamp kit (some _) = raise value_error

-- `_optional_text`
unfoldable pub optional_text : Option Json → Outcome Exc (Option Str)
optional_text none = ok none
optional_text (some null) = ok none
optional_text (some (str s)) = ok (some s)
optional_text (some _) = raise value_error

-- The `QualityInput` of the job; its own check of the zones passes on what `timestamp` gives.
unfoldable pub quality_input : Toolkit → Fields → List AttachmentSummary → Outcome Exc QualityInput
unfolding timestamp optional_text
quality_input kit snapshot attachments =
    and_then (optional_text (get (codes "completion_summary") snapshot)) (λ summary.
      and_then (timestamp kit (get (codes "created_at") snapshot)) (λ created.
        and_then (timestamp kit (get (codes "completed_at") snapshot)) (λ completed.
          and_then (timestamp kit (get (codes "due_at") snapshot)) (λ due. ok (record {
            completion_summary = summary;
            created_at = created;
            completed_at = completed;
            due_at = due;
            attachments = some attachments;
          })))))

-- The texts of the query, those that are blank or no text left out.
abbrev pub query_text : Option Json → List Str → List Str
query_text (some (str s)) rest = if nonempty (strip s) then strip s ∷ rest else rest
query_text _ rest = rest

-- `_retrieval_query`
unfoldable pub retrieval_query : Fields → Str
unfolding join_lines
retrieval_query snapshot = join_lines (
    query_text (get (codes "title") snapshot) (
      query_text (get (codes "description") snapshot) (
        query_text (get (codes "order_type") snapshot) (
          query_text (get (codes "space_path") snapshot)
            (query_text (get (codes "completion_summary") snapshot) [])))))
