-- ===== src/Quality/Models.antt =====
-- The records that cross the service boundary (apps/ai-service/app/quality/models.py).
-- A JSON document is read as a value of `Json`; numbers that are no natural number are opaque.
pub mod Forbidden
use enterprise_work_order_ai.Prelude.{
  ℕ, Bool, true, false, not, ◌&&◌, ◌||◌, Option, none, some, List, [], ◌∷◌, String, leb, ◌==◌, any,
  if◌then◌else◌,
}
use enterprise_work_order_ai.Prelude.Text.{Str, codes, strip, str_eq, contains, ends_with}
use enterprise_work_order_ai.Quality.Labels.{Label, Severity, FindingSource}
use enterprise_work_order_ai.Quality.Rules.{Datetime}

-- What the code takes from outside: `str` of a UUID and of an integer, `str.lower`, `uuid5` under
-- the namespace of each kind of identity, and what the columns NUMERIC(5,4) and NUMERIC(18,8) give
-- back of a number.
pub record Runtime : Type 0 where
  pub uuid_text : ℕ → Str
  pub decimal : ℕ → Str
  pub lower : Str → Str
  pub job_uuid : Str → ℕ
  pub finding_uuid : Str → ℕ
  pub numeric_5_4 : ℕ → ℕ
  pub numeric_18_8 : ℕ → ℕ

mutual
  pub data Json : Type 0 where
    null : Json
    bool : Bool → Json
    int : ℕ → Json
    other_number : ℕ → Json
    str : Str → Json
    list : Items → Json
    dict : Fields → Json

  pub data Items : Type 0 where
    nil : Items
    item : Json → Items → Items

  -- A `dict` whose keys are texts.
  pub data Fields : Type 0 where
    end : Fields
    field : Str → Json → Fields → Fields

-- `snapshot.get(key)`; the keys of a `dict` are distinct, so the first one is the one.
abbrev pub get : Str → Fields → Option Json
get key end = none
get key (field k v rest) = if str_eq k key then some v else get key rest

abbrev pub is_text : Str → Option Json → Bool
is_text t (some (str s)) = str_eq s t
is_text t _ = false

abbrev pub is_int : ℕ → Option Json → Bool
is_int n (some (int m)) = m == n
is_int n _ = false

-- `_FORBIDDEN_EVENT_KEYS`
abbrev pub forbidden_event_keys : List Str
forbidden_event_keys =
    codes "attachment_url"
    ∷ codes "attachment_uri"
    ∷ codes "database_url"
    ∷ codes "password"
    ∷ codes "secret"
    ∷ codes "token"
    ∷ codes "credential"
    ∷ []

unfoldable pub is_forbidden_key : (Str → Str) → Str → Bool
is_forbidden_key lower key =
    let normalized : Str = lower (strip key) in
    contains forbidden_event_keys normalized
    || ends_with (codes "_url") normalized
    || ends_with (codes "_uri") normalized

-- `_contains_forbidden_key`
unfoldable mutual
  pub contains_forbidden_key : (Str → Str) → Json → Bool
  contains_forbidden_key lower (list items) = any_forbidden lower items
  contains_forbidden_key lower (dict fields) = fields_forbidden lower fields
  contains_forbidden_key lower null = false
  contains_forbidden_key lower (bool b) = false
  contains_forbidden_key lower (int n) = false
  contains_forbidden_key lower (other_number n) = false
  contains_forbidden_key lower (str s) = false

  pub any_forbidden : (Str → Str) → Items → Bool
  any_forbidden lower nil = false
  any_forbidden lower (item v rest) = contains_forbidden_key lower v || any_forbidden lower rest

  pub fields_forbidden : (Str → Str) → Fields → Bool
  fields_forbidden lower end = false
  fields_forbidden lower (field key v rest) =
      is_forbidden_key lower key || contains_forbidden_key lower v || fields_forbidden lower rest

pub data QualityJobStatus : Type 0 where
  pending running retry_wait succeeded failed skipped : QualityJobStatus

pub record ClaimedQualityEvent : Type 0 where
  pub event_id : ℕ
  pub tenant_id : ℕ
  pub work_order_id : ℕ
  pub work_order_version : ℕ
  pub work_order_snapshot : Fields
  pub attachments_summary : List Fields
  pub inspection_round : ℕ
  pub attempt : ℕ
  pub occurred_at : Datetime

pub record QualityJob : Type 0 where
  pub id : ℕ
  pub tenant_id : ℕ
  pub work_order_id : ℕ
  pub work_order_version : ℕ
  pub inspection_round : ℕ
  pub business_key : Str
  pub status : QualityJobStatus

pub record ClaimedQualityJob : Type 0 where
  pub id : ℕ
  pub tenant_id : ℕ
  pub work_order_id : ℕ
  pub work_order_version : ℕ
  pub inspection_round : ℕ
  pub retry_count : ℕ
  pub work_order_snapshot : Fields
  pub attachments_summary : List Fields

module _ (rt : Runtime) where
  -- The checks of `validate_snapshot_boundary`, and of `validate_claim_boundary`, on the parts that
  -- they read: they are the same five.
  unfoldable pub snapshot_accepted : ℕ → ℕ → ℕ → Fields → List Fields → Bool
  snapshot_accepted tenant work_order version snapshot attachments =
      is_text (rt.uuid_text work_order) (get (codes "id") snapshot)
      && is_text (rt.uuid_text tenant) (get (codes "tenant_id") snapshot)
      && is_int version (get (codes "version") snapshot)
      && is_text (codes "COMPLETED") (get (codes "status") snapshot)
      && not (fields_forbidden rt.lower snapshot || any (fields_forbidden rt.lower) attachments)

  -- The constraints on the fields and `validate_snapshot_boundary`.
  unfoldable pub valid_event : ClaimedQualityEvent → Bool
  unfolding snapshot_accepted
  valid_event e =
      leb 1 e.inspection_round
      && leb 1 e.attempt
      && snapshot_accepted e.tenant_id e.work_order_id e.work_order_version e.work_order_snapshot
          e.attachments_summary

  -- The constraints on the fields and `validate_claim_boundary`.
  unfoldable pub valid_claim : ClaimedQualityJob → Bool
  unfolding snapshot_accepted
  valid_claim job =
      leb 1 job.inspection_round
      && snapshot_accepted job.tenant_id job.work_order_id job.work_order_version
          job.work_order_snapshot job.attachments_summary

pub record QualityFindingRecord : Type 0 where
  pub ordinal : ℕ
  pub rule_code : Str
  pub severity : Severity
  pub label : Label
  pub evidence : Fields
  pub policy_chunk_id : Option ℕ
  pub recommendation : Str
  pub confidence : ℕ
  pub source : FindingSource

pub record ModelCallAuditRecord : Type 0 where
  pub id : ℕ
  pub provider : Str
  pub model_name : Str
  pub prompt_version : Str
  pub request_id : Str
  pub latency_ms : ℕ
  pub input_tokens : Option ℕ
  pub output_tokens : Option ℕ
  pub estimated_cost : Option ℕ
  pub input_summary : Fields
  pub response_summary : Fields
  pub raw_response_truncated : Option Str
  pub error_code : Option Str
  pub error_message : Option Str

pub record QualityResultRecord : Type 0 where
  pub id : ℕ
  pub tenant_id : ℕ
  pub quality_job_id : ℕ
  pub work_order_id : ℕ
  pub work_order_version : ℕ
  pub inspection_round : ℕ
  pub verdict : Label
  pub confidence : ℕ
  pub work_order_snapshot : Fields
  pub policy_versions : List (Str × ℕ)
  pub attachment_summary : List Fields
  pub findings : List QualityFindingRecord
  pub model_call : Option ModelCallAuditRecord
