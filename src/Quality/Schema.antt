-- ===== src/Quality/Schema.antt =====
-- The boundary for the model's verdict (apps/ai-service/app/quality/schema.py).
-- What pydantic does before the constraints of the source are met, the coercion of a JSON payload
-- to typed fields with the unknown fields refused, is the parameter `parse`.
pub mod Boundary
pub mod Grounding
use enterprise_work_order_ai.Prelude.{
  ℕ, suc, ◌≤◌, ◌<◌, Bool, true, false, not, ◌&&◌, ◌||◌, Option, none, some, List, [], ◌∷◌, map, leb,
  ◌==◌, length, any, all, if◌then◌else◌,
}
use enterprise_work_order_ai.Prelude.Exec.{Outcome, ok, raise}
use enterprise_work_order_ai.Prelude.Text.{Str, strip, nonempty, contains, elem}
use enterprise_work_order_ai.Quality.Labels.{
  Label, pass, fail, uncertain, skip, label_eq, Severity, one,
}

pub record QualityModelFinding : Type 0 where
  pub rule_code : Str
  pub severity : Severity
  pub label : Label
  pub evidence : Str
  pub policy_chunk_id : Option ℕ
  pub recommendation : Str
  pub confidence : ℕ

pub record QualityModelOutput : Type 0 where
  pub verdict : Label
  pub confidence : ℕ
  pub findings : List QualityModelFinding

-- A `ValueError` of the source, pydantic's `ValidationError` included.
pub data SchemaError : Type 0 where
  invalid_catalog_code invalid_payload unknown_policy_rule : SchemaError

is_upper : ℕ → Bool
is_upper c = leb b'A' c && leb c b'Z'

is_code_char : ℕ → Bool
unfolding is_upper
is_code_char c = is_upper c || (leb b'0' c && leb c b'9') || c == b'_'

-- `_RULE_CODE.fullmatch`: `[A-Z][A-Z0-9_]{2,127}`
unfoldable pub has_code_shape : Str → Bool
unfolding is_upper is_code_char
has_code_shape [] = false
has_code_shape (c ∷ rest) =
    is_upper c && all is_code_char rest && leb 2 (length rest) && leb (length rest) 127

-- `Field(min_length=1, max_length=4000)` and `reject_blank_text`, which returns the stripped text.
unfoldable pub valid_text : Str → Option Str
valid_text value =
    if leb 1 (length value) && leb (length value) 4000 && nonempty (strip value)
    then some (strip value)
    else none

-- The field constraints and validators of `QualityModelFinding`.
unfoldable pub validate_finding : QualityModelFinding → Option QualityModelFinding
unfolding has_code_shape valid_text
validate_finding f =
    if leb 3 (length f.rule_code)
      && leb (length f.rule_code) 128
      && has_code_shape f.rule_code
      && leb f.confidence one
    then elim (valid_text f.evidence) [
      | none ↦ none
      | some evidence ↦ elim (valid_text f.recommendation) [
        | none ↦ none
        | some recommendation ↦
            some (record f { evidence = evidence; recommendation = recommendation })
      ]
    ]
    else none

unfoldable pub validate_findings : List QualityModelFinding → Option (List QualityModelFinding)
validate_findings [] = some []
validate_findings (f ∷ fs) = elim (validate_finding f) [
  | none ↦ none
  | some g ↦ elim (validate_findings fs) [ none ↦ none | some gs ↦ some (g ∷ gs) ]
]

-- `len(set(codes))`
abbrev pub distinct_count : List Str → ℕ
distinct_count [] = 0
distinct_count (c ∷ codes) =
    let rest = distinct_count codes in if contains codes c then rest else suc rest

abbrev pub rule_codes : QualityModelOutput → List Str
rule_codes output = map (λ (f : QualityModelFinding). f.rule_code) output.findings

-- The constraints of `QualityModelOutput` and `reject_duplicate_rules`.
unfoldable pub validate_output : QualityModelOutput → Option QualityModelOutput
unfolding validate_findings
validate_output output =
    if leb output.confidence one && leb (length output.findings) 20
    then elim (validate_findings output.findings) [
      | none ↦ none
      | some findings ↦
          let checked : QualityModelOutput = record output { findings = findings } in
          if length (rule_codes checked) == distinct_count (rule_codes checked)
          then some checked
          else none
    ]
    else none

module _ {Payload : Type 0} (parse : Payload → Option QualityModelOutput) where
  unfoldable pub model_validate : Payload → Option QualityModelOutput
  unfolding validate_output
  model_validate payload = elim (parse payload) [
    | none ↦ none
    | some output ↦ validate_output output
  ]

  unfoldable pub validate_model_output : Payload → List Str → Outcome SchemaError QualityModelOutput
  unfolding model_validate
  validate_model_output payload allowed =
      if any (λ code. not (has_code_shape code)) allowed
      then raise invalid_catalog_code
      else elim (model_validate payload) [
        | none ↦ raise invalid_payload
        | some output ↦
            if any (λ code. not (contains allowed code)) (rule_codes output)
            then raise unknown_policy_rule
            else ok output
      ]

-- `finding.policy_chunk_id is None or finding.policy_chunk_id not in retrieved`
abbrev pub is_ungrounded : List ℕ → Option ℕ → Bool
is_ungrounded retrieved none = true
is_ungrounded retrieved (some chunk) = not (elem chunk retrieved)

abbrev pub normalize : List ℕ → QualityModelFinding → QualityModelFinding
normalize retrieved f =
    if is_ungrounded retrieved f.policy_chunk_id
    then record f { label = uncertain; policy_chunk_id = none }
    else f

abbrev pub any_label : Label → List QualityModelFinding → Bool
any_label l = any (λ (f : QualityModelFinding). label_eq f.label l)

-- The flag `changed` is raised by the first finding that is not grounded.
unfoldable pub validate_policy_evidence : QualityModelOutput → List ℕ → QualityModelOutput
validate_policy_evidence output retrieved =
    let changed : Bool =
      any (λ (f : QualityModelFinding). is_ungrounded retrieved f.policy_chunk_id)
        output.findings in
    let normalized : List QualityModelFinding = map (normalize retrieved) output.findings in
    let verdict : Label =
      if any_label fail normalized
      then fail
      else if label_eq output.verdict skip
      then skip
      else uncertain in
    if changed then record output { verdict = verdict; findings = normalized } else output
