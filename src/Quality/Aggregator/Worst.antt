-- ===== src/Quality/Aggregator/Worst.antt =====
-- The aggregated verdict is the worst label in sight.
use enterprise_work_order_ai.Prelude.{
  ℕ, ◌≡◌, refl, Bool, false, not, ◌||◌, List, [], ◌∷◌, ◌++◌, map, arith, leb, any, All,
  if◌then◌else◌,
}
use enterprise_work_order_ai.Prelude.Exec.{ok}
use enterprise_work_order_ai.Quality.Labels.{
  Label, pass, fail, uncertain, skip, label_eq, is_rule, rule,
}
use enterprise_work_order_ai.Quality.Rules.{QualityFinding}
use enterprise_work_order_ai.Quality.Schema.{QualityModelFinding, QualityModelOutput, any_label}
use enterprise_work_order_ai.Quality.Aggregator.{aggregate_verdict, in_rules}

abbrev pub rank : Label → ℕ
rank pass = 0
rank skip = 1
rank uncertain = 2
rank fail = 3

abbrev pub worse : Label → Label → Label
worse a b = if leb (rank a) (rank b) then b else a

-- The worst label of a list, PASS if there is none.
abbrev pub worst : List Label → Label
worst [] = pass
worst (l ∷ ls) = worse l (worst ls)

-- By the labels that occur, in the order in which the code asks for them.
by_occurrence : (ls : List Label) → Label
by_occurrence ls =
    if any (λ l. label_eq l fail) ls
    then fail
    else if any (λ l. label_eq l uncertain) ls
    then uncertain
    else if any (λ l. label_eq l skip) ls
    then skip
    else pass

worst-by_occurrence : (ls : List Label) → by_occurrence ls ≡ worst ls
unfolding by_occurrence
worst-by_occurrence [] = refl
worst-by_occurrence (l ∷ ls) = ground (arith, worst-by_occurrence ls)

abbrev pub rule_labels : List QualityFinding → List Label
rule_labels = map (λ (f : QualityFinding). f.label)

abbrev pub model_labels : QualityModelOutput → List Label
model_labels output = output.verdict ∷ map (λ (f : QualityModelFinding). f.label) output.findings

any-append : (p : Label → Bool) (xs ys : List Label) → any p (xs ++ ys) ≡ (any p xs || any p ys)
any-append p [] ys = refl
any-append p (x ∷ xs) ys = ground (arith, any-append p xs ys)

any-rules :
    (l : Label) (fs : List QualityFinding)
    → in_rules l fs ≡ any (λ k. label_eq k l) (rule_labels fs)
any-rules l [] = refl
any-rules l (f ∷ fs) = ground (arith, any-rules l fs)

any-model :
    (l : Label) (fs : List QualityModelFinding)
    → any_label l fs ≡ any (λ k. label_eq k l) (map (λ (f : QualityModelFinding). f.label) fs)
any-model l [] = refl
any-model l (f ∷ fs) = ground (arith, any-model l fs)

any_in_sight :
    (l : Label) (fs : List QualityFinding) (output : QualityModelOutput)
    → any (λ k. label_eq k l) (rule_labels fs ++ model_labels output)
      ≡ (in_rules l fs || label_eq output.verdict l || any_label l output.findings)
any_in_sight l fs output = ground (
  arith,
  any-append (λ k. label_eq k l) (rule_labels fs) (model_labels output),
  any-rules l fs,
  any-model l output.findings,
)

sources-rule :
    (fs : List QualityFinding)
    → All (λ (f : QualityFinding). f.source ≡ rule) fs
    → any (λ (f : QualityFinding). not (is_rule f.source)) fs ≡ false
sources-rule [] h = refl
sources-rule (f ∷ fs) h = ground (arith, sources-rule fs)

-- On findings of the rules the verdict is the worst of all labels in sight, those of the rules,
-- the model's own verdict and those of the model's findings, with FAIL above UNCERTAIN above SKIP
-- above PASS.
pub aggregate_verdict-worst :
    (fs : List QualityFinding) (output : QualityModelOutput)
    → All (λ (f : QualityFinding). f.source ≡ rule) fs
    → aggregate_verdict fs output ≡ ok (worst (rule_labels fs ++ model_labels output))
unfolding aggregate_verdict by_occurrence
aggregate_verdict-worst fs output h =
    let ls : List Label = rule_labels fs ++ model_labels output in
    rw (sources-rule fs h, ← worst-by_occurrence ls)
      (ground (
        arith,
        any_in_sight fail fs output,
        any_in_sight uncertain fs output,
        any_in_sight skip fs output,
      ))
