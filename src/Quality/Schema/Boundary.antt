-- ===== src/Quality/Schema/Boundary.antt =====
-- What an accepted model output satisfies.
use enterprise_work_order_ai.Prelude.{
  ◌≤◌, ◌≡◌, refl, ap, ◌∙◌, true, false, not, Option, some, List, [], ◌∷◌, arith, length, any, All,
  Bool-cases, Option-cases, inl, inr, reverse, any-reverse,
}
use enterprise_work_order_ai.Prelude.Exec.{ok}
use enterprise_work_order_ai.Prelude.Text.{Str, is_space, lstrip, strip, nonempty, contains}
use enterprise_work_order_ai.Quality.Labels.{one}
use enterprise_work_order_ai.Quality.Schema.{
  QualityModelFinding, QualityModelOutput, has_code_shape, valid_text, validate_finding,
  validate_findings, distinct_count, rule_codes, validate_output, validate_model_output,
}

-- Some character is no white space.
abbrev pub IsVisible : Str → Type 0
IsVisible s = any (λ c. not (is_space c)) s ≡ true

pub record IsValidFinding (f : QualityModelFinding) : Type 0 where
  pub shaped : has_code_shape f.rule_code ≡ true
  pub evidence_visible : IsVisible f.evidence
  pub recommendation_visible : IsVisible f.recommendation
  pub bounded : f.confidence ≤ one

-- No text of the list stands in the list again.
abbrev pub Distinct : List Str → Type 0
Distinct [] = Unit
Distinct (c ∷ codes) = (contains codes c ≡ false) × Distinct codes

pub record IsSoundOutput (output : QualityModelOutput) : Type 0 where
  pub bounded : output.confidence ≤ one
  pub at_most_twenty : length output.findings ≤ 20
  pub valid : All IsValidFinding output.findings
  pub distinct : Distinct (rule_codes output)

abbrev pub AllowedCodes : List Str → List Str → Type 0
AllowedCodes allowed = All (λ (code : Str). contains allowed code ≡ true)

distinct_count-le : (codes : List Str) → distinct_count codes ≤ length codes
distinct_count-le [] = omega arith
distinct_count-le (c ∷ codes) = ground (arith, distinct_count-le codes)

Distinct-of_count : (codes : List Str) → length codes ≡ distinct_count codes → Distinct codes
Distinct-of_count [] h = tt
Distinct-of_count (c ∷ codes) h = elim (Bool-cases (contains codes c)) [
  | inl again ↦ absurd (ground (arith, distinct_count-le codes))
  | inr new ↦ (new, Distinct-of_count codes (ground arith))
]

lstrip-IsVisible : (s : Str) → nonempty (lstrip s) ≡ true → IsVisible (lstrip s)
unfolding lstrip
lstrip-IsVisible [] h = cc
lstrip-IsVisible (c ∷ s) h = elim (Bool-cases (is_space c)) [
  | inl space ↦ rw space (lstrip-IsVisible s (rw space at h))
  | inr visible ↦ rw visible (rw visible refl)
]

nonempty-reverse : (s : Str) → nonempty (reverse s) ≡ true → nonempty s ≡ true
nonempty-reverse [] h = h
nonempty-reverse (c ∷ s) h = refl

strip-IsVisible : (s : Str) → nonempty (strip s) ≡ true → IsVisible (strip s)
unfolding strip
strip-IsVisible s h =
    any-reverse (λ c. not (is_space c)) (lstrip (reverse (lstrip s)))
    ∙ lstrip-IsVisible (reverse (lstrip s)) (nonempty-reverse (lstrip (reverse (lstrip s))) h)

valid_text-IsVisible : (value : Str) {t : Str} → valid_text value ≡ some t → IsVisible t
unfolding valid_text
valid_text-IsVisible value {t} h = elim (Bool-cases (nonempty (strip value))) [
  | inl visible ↦
      let same : strip value ≡ t = ground arith in rw (← same) (strip-IsVisible value visible)
  | inr blank ↦ absurd (ground arith)
]

validate_finding-IsValid :
    (f : QualityModelFinding) {g : QualityModelFinding}
    → validate_finding f ≡ some g
    → IsValidFinding g
unfolding validate_finding
validate_finding-IsValid f {g} h = record {
  shaped = ground arith;
  evidence_visible = valid_text-IsVisible f.evidence (ground arith);
  recommendation_visible = valid_text-IsVisible f.recommendation (ground arith);
  bounded = ground arith;
}

validate_findings-All :
    (fs : List QualityModelFinding) {gs : List QualityModelFinding}
    → validate_findings fs ≡ some gs
    → All IsValidFinding gs × (length gs ≡ length fs)
unfolding validate_findings
validate_findings-All [] {gs = []} h = (tt, refl)
validate_findings-All [] {gs = g ∷ gs} h = cc
validate_findings-All (f ∷ fs) {gs = []} h = ground arith
validate_findings-All (f ∷ fs) {gs = g ∷ gs} h =
    ground (arith, validate_finding-IsValid f {g = g}, validate_findings-All fs {gs = gs})

not-any-All :
    (allowed codes : List Str)
    → any (λ code. not (contains allowed code)) codes ≡ false
    → AllowedCodes allowed codes
not-any-All allowed [] h = tt
not-any-All allowed (c ∷ codes) h = (ground arith, not-any-All allowed codes (ground arith))

validate_output-IsSound :
    (raw output : QualityModelOutput) → validate_output raw ≡ some output → IsSoundOutput output
unfolding validate_output
validate_output-IsSound raw output h = elim (Option-cases (validate_findings raw.findings)) [
  | inl none' ↦ absurd (ground arith)
  | inr (gs, e) ↦ record {
    bounded = ground arith;
    at_most_twenty = ground (arith, validate_findings-All raw.findings e);
    valid =
        let same : gs ≡ output.findings = ground arith in
        rw (← same) ((validate_findings-All raw.findings e).0);
    distinct = Distinct-of_count (rule_codes output) (ground arith);
  }
]

module _ {Payload : Type 0} (parse : Payload → Option QualityModelOutput) where
  -- A model output that is accepted has at most twenty findings, no rule code twice, a code of the
  -- retrieved policies in each, texts that are not blank, and confidences of at most one.
  pub validate_model_output-IsSound :
      (payload : Payload) (allowed : List Str) (output : QualityModelOutput)
      → validate_model_output parse payload allowed ≡ ok output
      → IsSoundOutput output × AllowedCodes allowed (rule_codes output)
  unfolding validate_model_output
  validate_model_output-IsSound payload allowed output h = elim (Option-cases (parse payload)) [
    | inl refused ↦ absurd (ground arith)
    | inr (raw, e) ↦ elim (Option-cases (validate_output raw)) [
      | inl refused ↦ absurd (ground arith)
      | inr (checked, q) ↦
          let same : checked ≡ output = ground arith in
          (
            validate_output-IsSound raw output (q ∙ ap some same),
            not-any-All allowed (rule_codes output) (ground arith),
          )
    ]
  ]
