-- ===== src/Quality/Aggregator.antt =====
-- The verdict of an inspection (apps/ai-service/app/quality/aggregator.py).
pub mod Worst
pub mod Evidence
use enterprise_work_order_ai.Prelude.{
  Bool, true, false, not, ◌||◌, List, [], ◌∷◌, any, if◌then◌else◌,
}
use enterprise_work_order_ai.Prelude.Exec.{Outcome, ok, raise}
use enterprise_work_order_ai.Quality.Labels.{Label, pass, fail, uncertain, skip, label_eq, is_rule}
use enterprise_work_order_ai.Quality.Rules.{QualityFinding}
use enterprise_work_order_ai.Quality.Schema.{QualityModelOutput, any_label}

-- The `ValueError` on a finding whose source is not RULE.
pub data AggregateError : Type 0 where
  source_not_rule : AggregateError

-- `label in rule_labels`
abbrev pub in_rules : Label → List QualityFinding → Bool
in_rules l = any (λ (f : QualityFinding). label_eq f.label l)

unfoldable pub aggregate_verdict :
    List QualityFinding → QualityModelOutput → Outcome AggregateError Label
aggregate_verdict rule_findings output =
    if any (λ (f : QualityFinding). not (is_rule f.source)) rule_findings
    then raise source_not_rule
    else ok (
        if in_rules fail rule_findings
        then fail
        else if label_eq output.verdict fail || any_label fail output.findings
        then fail
        else if in_rules uncertain rule_findings
            || label_eq output.verdict uncertain
            || any_label uncertain output.findings
        then uncertain
        else if in_rules skip rule_findings
            || label_eq output.verdict skip
            || any_label skip output.findings
        then skip
        else pass)
