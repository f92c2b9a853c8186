-- ===== src/Quality/Aggregator/Evidence.antt =====
-- A PASS has evidence: aggregation after grounding.
use enterprise_work_order_ai.Prelude.{ℕ, ◌≡◌, false, List, [], ◌∷◌, arith, any, All}
use enterprise_work_order_ai.Prelude.Exec.{ok}
use enterprise_work_order_ai.Quality.Labels.{pass, fail, uncertain, skip}
use enterprise_work_order_ai.Quality.Rules.{QualityFinding}
use enterprise_work_order_ai.Quality.Schema.{
  QualityModelFinding, QualityModelOutput, is_ungrounded, any_label, validate_policy_evidence,
}
use enterprise_work_order_ai.Quality.Schema.Grounding.{Cites, Cites-of_grounded}
use enterprise_work_order_ai.Quality.Aggregator.{aggregate_verdict, in_rules}

-- The finding is a PASS that cites a retrieved chunk.
abbrev pub PassesWithEvidence : List ℕ → QualityModelFinding → Type 0
PassesWithEvidence retrieved f = (f.label ≡ pass) × Cites retrieved f

rules_pass :
    (fs : List QualityFinding)
    → in_rules fail fs ≡ false
    → in_rules uncertain fs ≡ false
    → in_rules skip fs ≡ false
    → All (λ (f : QualityFinding). f.label ≡ pass) fs
rules_pass [] a b c = tt
rules_pass (f ∷ fs) a b c = ground (arith, rules_pass fs)

findings_pass :
    (retrieved : List ℕ) (fs : List QualityModelFinding)
    → any_label fail fs ≡ false
    → any_label uncertain fs ≡ false
    → any_label skip fs ≡ false
    → any (λ (f : QualityModelFinding). is_ungrounded retrieved f.policy_chunk_id) fs ≡ false
    → All (PassesWithEvidence retrieved) fs
findings_pass retrieved [] a b c g = tt
findings_pass retrieved (f ∷ fs) a b c g = (
  (ground arith, Cites-of_grounded retrieved f (ground arith)),
  findings_pass retrieved fs (ground arith) (ground arith) (ground arith) (ground arith),
)

module _ (fs : List QualityFinding) (output : QualityModelOutput) (retrieved : List ℕ) where
  -- A PASS after grounding means that every rule passed, that the model's own verdict was PASS, and
  -- that every finding of the model is a PASS that cites a policy chunk that was retrieved.
  pub pass_has_evidence :
      aggregate_verdict fs (validate_policy_evidence output retrieved) ≡ ok pass
      → All (λ (f : QualityFinding). f.label ≡ pass) fs
        × (output.verdict ≡ pass)
        × All (PassesWithEvidence retrieved) output.findings
  unfolding aggregate_verdict validate_policy_evidence
  pass_has_evidence h = (
    rules_pass fs (ground arith) (ground arith) (ground arith),
    ground arith,
    findings_pass retrieved output.findings (ground arith) (ground arith) (ground arith)
        (ground arith),
  )
