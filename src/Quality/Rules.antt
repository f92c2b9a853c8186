-- ===== src/Quality/Rules.antt =====
-- The deterministic rules (apps/ai-service/app/quality/rules.py).
-- An aware datetime is its instant, in microseconds since the first day of year 1 in UTC, and its
-- zone; comparison and difference go by the instant. `datetime.isoformat` is a parameter.
pub mod Verdicts
use enterprise_work_order_ai.Prelude.{
  ℕ, suc, ◌-◌, ◌<◌, String, Bool, true, false, ◌&&◌, Option, none, some, List, [], ◌∷◌, leb, ltb,
  length, keep_if, if◌then◌else◌,
}
use enterprise_work_order_ai.Prelude.Text.{Str, strip, nonempty}
use enterprise_work_order_ai.Quality.Labels.{
  Label, pass, fail, Severity, medium, high, FindingSource, rule, one,
}

pub data RuleCode : Type 0 where
  required_completion_summary completed_at_range sla_completion required_attachment : RuleCode

pub record Datetime : Type 0 where
  pub instant : ℕ
  pub zone : String

-- `EvidenceValue`. A float here is a number of seconds, kept in microseconds.
pub data EvidenceValue : Type 0 where
  text : Str → EvidenceValue
  int : ℕ → EvidenceValue
  seconds : ℕ → EvidenceValue
  bool : Bool → EvidenceValue
  null : EvidenceValue

pub record AttachmentSummary : Type 0 where
  pub attachment_id : Str
  pub media_type : Str
  pub size_bytes : ℕ
  pub present : Bool

pub record QualityInput : Type 0 where
  pub completion_summary : Option Str
  pub created_at : Option Datetime
  pub completed_at : Option Datetime
  pub due_at : Option Datetime
  pub attachments : Option (List AttachmentSummary)

pub record QualityFinding : Type 0 where
  pub rule_code : RuleCode
  pub severity : Severity
  pub label : Label
  pub evidence : List (String × EvidenceValue)
  pub policy_chunk_id : Option ℕ
  pub recommendation : String
  pub confidence : ℕ
  pub source : FindingSource

abbrev pub or_empty {ℓ} : {A : Type ℓ} → Option (List A) → List A
or_empty none = []
or_empty (some xs) = xs

-- `_finding`
finding : RuleCode → Severity → Bool → List (String × EvidenceValue) → String → QualityFinding
finding code severity passed evidence recommendation = record {
  rule_code = code;
  severity = severity;
  label = if passed then pass else fail;
  evidence = evidence;
  policy_chunk_id = none;
  recommendation = recommendation;
  confidence = one;
  source = rule;
}

-- `completed_at >= created_at`, false unless both are there.
abbrev pub not_before : Option Datetime → Option Datetime → Bool
not_before (some later) (some earlier) = leb earlier.instant later.instant
not_before _ _ = false

-- `max(0.0, (completed_at - due_at).total_seconds())`; `-` on ℕ stops at 0.
abbrev pub overdue_seconds : Option Datetime → Option Datetime → EvidenceValue
overdue_seconds (some completed) (some due) = seconds (completed.instant - due.instant)
overdue_seconds _ _ = null

unfoldable pub required_completion_summary_finding : QualityInput → QualityFinding
unfolding finding
required_completion_summary_finding input =
    let summary : Str = strip (or_empty input.completion_summary) in
    let passed : Bool = nonempty summary in
    finding required_completion_summary high passed
      (("present", bool passed) ∷ ("length", int (length summary)) ∷ [])
      (if passed
        then "Completion summary is present."
        else "Add a verifiable completion summary before review.")

unfoldable pub required_attachment_finding : QualityInput → QualityFinding
unfolding finding
required_attachment_finding input =
    let attachments : List AttachmentSummary = or_empty input.attachments in
    let present_count : ℕ = length (keep_if (λ a. a.present) attachments) in
    let passed : Bool = ltb 0 present_count in
    finding required_attachment high passed
      (("attachment_count", int (length attachments)) ∷ ("present_count", int present_count) ∷ [])
      (if passed
        then "At least one completion attachment is present."
        else "Attach at least one completion artifact before review.")

module _ (isoformat : Datetime → Str) where
  abbrev pub iso_or_null : Option Datetime → EvidenceValue
  iso_or_null none = null
  iso_or_null (some t) = text (isoformat t)

  unfoldable pub completed_at_range_finding : QualityInput → QualityFinding
  unfolding finding
  completed_at_range_finding input =
      let passed : Bool = not_before input.completed_at input.created_at in
      finding completed_at_range high passed
        (("created_at", iso_or_null input.created_at)
          ∷ ("completed_at", iso_or_null input.completed_at)
          ∷ ("completed_not_before_created", bool passed)
          ∷ [])
        (if passed
          then "Completion timestamp is within the work-order lifetime."
          else "Correct the completion timestamp so it is not before creation.")

  unfoldable pub sla_completion_finding : QualityInput → QualityFinding
  unfolding finding
  sla_completion_finding input =
      let passed : Bool = not_before input.due_at input.completed_at in
      finding sla_completion medium passed
        (("completed_at", iso_or_null input.completed_at)
          ∷ ("due_at", iso_or_null input.due_at)
          ∷ ("overdue_seconds", overdue_seconds input.completed_at input.due_at)
          ∷ [])
        (if passed
          then "Completion met the due-time boundary."
          else "Record and review the reason for completion after the due time.")

  -- `RuleEngine.evaluate`
  unfoldable pub evaluate : QualityInput → List QualityFinding
  unfolding required_completion_summary_finding completed_at_range_finding sla_completion_finding
      required_attachment_finding
  evaluate input =
      required_completion_summary_finding input
      ∷ completed_at_range_finding input
      ∷ sla_completion_finding input
      ∷ required_attachment_finding input
      ∷ []
