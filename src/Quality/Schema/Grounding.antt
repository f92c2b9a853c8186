-- ===== src/Quality/Schema/Grounding.antt =====
-- What is left of the model's findings when each has to cite a retrieved policy chunk.
use enterprise_work_order_ai.Prelude.{
  ℕ, ◌≡◌, refl, ◌⊎◌, inl, inr, true, false, Option, none, some, List, [], ◌∷◌, map, arith, any, All,
  Bool-cases,
}
use enterprise_work_order_ai.Prelude.Text.{elem}
use enterprise_work_order_ai.Quality.Labels.{uncertain}
use enterprise_work_order_ai.Quality.Schema.{
  QualityModelFinding, QualityModelOutput, rule_codes, is_ungrounded, normalize,
  validate_policy_evidence,
}

-- The finding cites a chunk that was retrieved.
pub record Cites (retrieved : List ℕ) (f : QualityModelFinding) : Type 0 where
  pub chunk : ℕ
  pub cited : f.policy_chunk_id ≡ some chunk
  pub found : elem chunk retrieved ≡ true

-- A finding may stay if it cites a retrieved chunk, or if it claims nothing.
abbrev pub IsGrounded : List ℕ → QualityModelFinding → Type 0
IsGrounded retrieved f = Cites retrieved f ⊎ ((f.label ≡ uncertain) × (f.policy_chunk_id ≡ none))

module _ (retrieved : List ℕ) where
  pub Cites-of_grounded :
      (f : QualityModelFinding)
      → is_ungrounded retrieved f.policy_chunk_id ≡ false
      → Cites retrieved f
  Cites-of_grounded f h = go f.policy_chunk_id refl h
    where
      go :
          (c : Option ℕ)
          → f.policy_chunk_id ≡ c
          → is_ungrounded retrieved c ≡ false
          → Cites retrieved f
      go none e h = cc
      go (some c) e h = record { chunk = c; cited = e; found = ground arith }

  normalize-IsGrounded : (f : QualityModelFinding) → IsGrounded retrieved (normalize retrieved f)
  normalize-IsGrounded f = elim (Bool-cases (is_ungrounded retrieved f.policy_chunk_id)) [
    | inl u ↦ inr (ground arith, ground arith)
    | inr g ↦ rw g (inl (Cites-of_grounded f g))
  ]

  All-normalize :
      (fs : List QualityModelFinding) → All (IsGrounded retrieved) (map (normalize retrieved) fs)
  All-normalize [] = tt
  All-normalize (f ∷ fs) = (normalize-IsGrounded f, All-normalize fs)

  map-normalize_grounded :
      (fs : List QualityModelFinding)
      → any (λ (f : QualityModelFinding). is_ungrounded retrieved f.policy_chunk_id) fs ≡ false
      → map (normalize retrieved) fs ≡ fs
  map-normalize_grounded [] h = refl
  map-normalize_grounded (f ∷ fs) h = ground (arith, map-normalize_grounded fs)

  normalize_idem :
      (f : QualityModelFinding)
      → normalize retrieved (normalize retrieved f) ≡ normalize retrieved f
  normalize_idem f = ground arith

  map-normalize_idem :
      (fs : List QualityModelFinding)
      → map (normalize retrieved) (map (normalize retrieved) fs) ≡ map (normalize retrieved) fs
  map-normalize_idem [] = refl
  map-normalize_idem (f ∷ fs) = cc (normalize_idem f, map-normalize_idem fs)

  findings-validate :
      (output : QualityModelOutput)
      → (validate_policy_evidence output retrieved).findings
        ≡ map (normalize retrieved) output.findings
  unfolding validate_policy_evidence
  findings-validate output = ground (arith, map-normalize_grounded output.findings)

  codes-normalize :
      (fs : List QualityModelFinding)
      → map (λ (f : QualityModelFinding). f.rule_code) (map (normalize retrieved) fs)
        ≡ map (λ (f : QualityModelFinding). f.rule_code) fs
  codes-normalize [] = refl
  codes-normalize (f ∷ fs) = ground (arith, codes-normalize fs)

  -- Whatever the model returned, each finding that is left cites a chunk that was retrieved, or is
  -- labelled UNCERTAIN and cites nothing; and the findings have the rule codes of the model's, in
  -- the same order.
  pub validate_policy_evidence-IsGrounded :
      (output : QualityModelOutput)
      → All (IsGrounded retrieved) (validate_policy_evidence output retrieved).findings
        × (rule_codes (validate_policy_evidence output retrieved) ≡ rule_codes output)
  validate_policy_evidence-IsGrounded output =
      rw (findings-validate output) (All-normalize output.findings, codes-normalize output.findings)

  -- Grounding an output a second time changes nothing.
  pub validate_policy_evidence_idem :
      (output : QualityModelOutput)
      → validate_policy_evidence (validate_policy_evidence output retrieved) retrieved
        ≡ validate_policy_evidence output retrieved
  unfolding validate_policy_evidence
  validate_policy_evidence_idem output = ground (arith, map-normalize_idem output.findings)
