-- ===== src/Quality/Results/Ordinals.antt =====
-- The findings of a record are numbered from 0 on.
use enterprise_work_order_ai.Prelude.{
  ℕ, suc, ◌+◌, ◌<◌, ◌≡◌, refl, Option, none, some, List, [], ◌∷◌, ◌++◌, arith, length, All,
}
use enterprise_work_order_ai.Quality.Models.{QualityFindingRecord}
use enterprise_work_order_ai.Quality.Results.{
  model_record, rule_records, append_model_records, finding_records,
}
use enterprise_work_order_ai.Quality.Rules.{QualityFinding}
use enterprise_work_order_ai.Quality.Schema.{QualityModelFinding, QualityModelOutput}
use enterprise_work_order_ai.Quality.Store.RoundTrip.{Ascending}

abbrev pub Numbered : ℕ → List QualityFindingRecord → Type 0
Numbered n [] = Unit
Numbered n (f ∷ fs) = (f.ordinal ≡ n) × Numbered (suc n) fs

Numbered-append :
    (n : ℕ) (fs : List QualityFindingRecord) (f : QualityFindingRecord)
    → Numbered n fs
    → f.ordinal ≡ n + length fs
    → Numbered n (fs ++ f ∷ [])
Numbered-append n [] f h k = (omega (arith, k), tt)
Numbered-append n (g ∷ fs) f h k = (h.0, Numbered-append (suc n) fs f h.1 (omega (arith, k)))

rule_records-Numbered : (n : ℕ) (fs : List QualityFinding) → Numbered n (rule_records n fs)
unfolding rule_records
rule_records-Numbered n [] = tt
rule_records-Numbered n (f ∷ fs) = (refl, rule_records-Numbered (suc n) fs)

append_model_records-Numbered :
    (findings : List QualityFindingRecord) (fs : List QualityModelFinding)
    → Numbered 0 findings
    → Numbered 0 (append_model_records findings fs)
unfolding append_model_records
append_model_records-Numbered findings [] h = h
append_model_records-Numbered findings (f ∷ fs) h =
    append_model_records-Numbered (findings ++ model_record (length findings) f ∷ []) fs
      (Numbered-append 0 findings (model_record (length findings) f) h (omega arith))

finding_records-Numbered :
    (rules : List QualityFinding) (output : Option QualityModelOutput)
    → Numbered 0 (finding_records rules output)
unfolding finding_records
finding_records-Numbered rules none = rule_records-Numbered 0 rules
finding_records-Numbered rules (some output) =
    append_model_records-Numbered (rule_records 0 rules) output.findings
      (rule_records-Numbered 0 rules)

later :
    (m n : ℕ) (fs : List QualityFindingRecord)
    → m < n
    → Numbered n fs
    → All (λ (g : QualityFindingRecord). m < g.ordinal) fs
later m n [] h k = tt
later m n (f ∷ fs) h k = (omega (arith, h, k.0), later m (suc n) fs (omega (arith, h)) k.1)

Ascending-of_Numbered : (n : ℕ) (fs : List QualityFindingRecord) → Numbered n fs → Ascending fs
Ascending-of_Numbered n [] h = tt
Ascending-of_Numbered n (f ∷ fs) h =
    (later f.ordinal (suc n) fs (omega (arith, h.0)) h.1, Ascending-of_Numbered (suc n) fs h.1)

-- The findings of a record stand in the order of their ordinals.
pub finding_records-Ascending :
    (rules : List QualityFinding) (output : Option QualityModelOutput)
    → Ascending (finding_records rules output)
finding_records-Ascending rules output =
    Ascending-of_Numbered 0 (finding_records rules output) (finding_records-Numbered rules output)
