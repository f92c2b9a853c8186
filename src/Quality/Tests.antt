-- ===== src/Quality/Tests.antt =====
-- The theorems at one inspection.
use enterprise_work_order_ai.Prelude.{
  ℕ, ◌≡◌, refl, ◌≤◌, ◌<◌, ◌↔◌, ◌≢◌, true, false, not, Option, some, List, [], ◌∷◌, ◌++◌, arith, All,
  keep_if, length, ◌+◌,
}
use enterprise_work_order_ai.Prelude.Exec.{ok}
use enterprise_work_order_ai.Prelude.Sql.{update_where, returning, first_where, order_by}
use enterprise_work_order_ai.Prelude.Text.{codes, is_space, lstrip, strip, ends_with, Str}
use enterprise_work_order_ai.Quality.Aggregator.{aggregate_verdict}
use enterprise_work_order_ai.Quality.Aggregator.Worst.{
  rule_labels, model_labels, worst, aggregate_verdict-worst,
}
use enterprise_work_order_ai.Quality.Intake.{as_job, create_from_event, quality_business_key}
use enterprise_work_order_ai.Quality.Intake.Idempotent.{create_from_event_again}
use enterprise_work_order_ai.Quality.Jobs.{
  Table, QualityJobRow, candidates, claim_quality_jobs, recover_expired, retry_quality_job,
  fail_quality_job, is_job, complete_job, claimed_job, start_row, chosen,
}
use enterprise_work_order_ai.Quality.Jobs.Batch.{
  UniqueIds, IsDue, HandedOutOrLater, job_ids, claims_in_order,
}
use enterprise_work_order_ai.Quality.Jobs.Fencing.{Outdated-claim_refused}
use enterprise_work_order_ai.Quality.Jobs.Reports.{
  Holds, WaitsFor, EndsAt, retry_quality_job-row, fail_quality_job-row,
}
use enterprise_work_order_ai.Quality.Jobs.Isolation.{Untouched, other_tenants-Untouched}
use enterprise_work_order_ai.Quality.Labels.{pass, one}
use enterprise_work_order_ai.Quality.Lifecycle.{Reach, here, next, intake, claim}
use enterprise_work_order_ai.Quality.Lifecycle.Attempts.{claims}
use enterprise_work_order_ai.Quality.Lifecycle.Claimable.{claim_returns}
use enterprise_work_order_ai.Quality.Lifecycle.Keys.{claims-le-three}
use enterprise_work_order_ai.Quality.Lifecycle.Terminal.{Evolves, Reach-Evolves}
use enterprise_work_order_ai.Quality.Lifecycle.Validity.{IsValidRow, Reach-IsValid}
use enterprise_work_order_ai.Quality.Models.{
  ClaimedQualityJob, contains_forbidden_key, fields_forbidden, is_forbidden_key, valid_event,
  valid_claim, snapshot_accepted,
}
use enterprise_work_order_ai.Quality.Models.Forbidden.{HasKey, contains_forbidden_key-HasKey_iff}
use enterprise_work_order_ai.Quality.Rules.{
  Datetime, text, seconds, evaluate, sla_completion_finding,
}
use enterprise_work_order_ai.Quality.Rules.Verdicts.{
  Passes, IsComplete, evaluate-Passes_iff, sla_evidence,
}
use enterprise_work_order_ai.Quality.Samples.{
  runtime, event, claimed, row, second, result, db, output, input, leaking, pending_row, foreign,
  waiting, other_result, rule_findings, at,
}
use enterprise_work_order_ai.Quality.Schema.{
  has_code_shape, validate_finding, QualityModelOutput, validate_model_output,
  validate_policy_evidence, rule_codes,
}
use enterprise_work_order_ai.Quality.Schema.Boundary.{
  IsSoundOutput, AllowedCodes, validate_model_output-IsSound,
}
use enterprise_work_order_ai.Quality.Schema.Grounding.{
  IsGrounded, validate_policy_evidence-IsGrounded,
}
use enterprise_work_order_ai.Quality.Store.{Db, insert_findings, find_result, save_result}
use enterprise_work_order_ai.Quality.Store.RoundTrip.{
  IsFirst, as_stored, find_result-save, save_result_again,
}

-- One inspection from its event on.
unfoldable pub pending_table : Table
unfolding create_from_event
pending_table = (create_from_event runtime 5 event []).1

apart : ◌≢◌ {A = ℕ} 1 2
apart = λ h. omega arith

pub pending_reached : Reach runtime [] pending_table
unfolding pending_table valid_event snapshot_accepted fields_forbidden is_forbidden_key strip lstrip
    is_space ends_with
pending_reached = next here (intake 5 event refl refl)

pub claimed_reached : Reach runtime [] (row ∷ [])
unfolding claim_quality_jobs pending_table create_from_event valid_claim returning update_where
    first_where order_by candidates fields_forbidden is_forbidden_key strip lstrip is_space
    ends_with quality_business_key
claimed_reached = next pending_reached (claim (λ _. false) 1 5 100 (claimed ∷ []) refl)

Reach-IsValid_example : All IsValidRow (row ∷ [])
Reach-IsValid_example = Reach-IsValid runtime (row ∷ []) claimed_reached

claims-le-three_example : claims 1 7 claimed_reached ≤ 3
claims-le-three_example = claims-le-three 1 7 runtime (row ∷ []) claimed_reached

Reach-Evolves_example : Evolves [] (row ∷ [])
Reach-Evolves_example = Reach-Evolves runtime [] (row ∷ []) claimed_reached

claim_returns_example :
    (jobs : List ClaimedQualityJob) × (rows' : Table) × (claim_quality_jobs runtime
        (λ _. false)
        1
        5
        200
        pending_table
      ≡ (ok jobs, rows'))
claim_returns_example = claim_returns runtime pending_table pending_reached (λ _. false) 1 5 200

Outdated-claim_refused_example :
    (retry_quality_job claimed "MODEL_TIMEOUT" 400 300 (second ∷ []) ≡ (false, second ∷ []))
    × (fail_quality_job claimed "MODEL_TIMEOUT" 300 (second ∷ []) ≡ (false, second ∷ []))
Outdated-claim_refused_example =
    Outdated-claim_refused claimed "MODEL_TIMEOUT" 400 300 (second ∷ []) (ground arith)

retry_quality_job-row_example :
    (((retry_quality_job claimed "MODEL_TIMEOUT" 400 300 (row ∷ [])).0 ≡ true)
      ↔ (Holds claimed row × (row.retry_count < row.max_retry_count)))
    × ((retry_quality_job claimed "MODEL_TIMEOUT" 400 300 (row ∷ [])).0 ≡ true
        → (q : QualityJobRow) × (first_where
              (is_job 1 7)
              (retry_quality_job claimed "MODEL_TIMEOUT" 400 300 (row ∷ [])).1
            ≡ some q)
          × WaitsFor "MODEL_TIMEOUT" 400 row q)
    × ((retry_quality_job claimed "MODEL_TIMEOUT" 400 300 (row ∷ [])).0 ≡ false
        → (retry_quality_job claimed "MODEL_TIMEOUT" 400 300 (row ∷ [])).1 ≡ row ∷ [])
    × (keep_if
          (λ q. not (is_job 1 7 q))
          (retry_quality_job claimed "MODEL_TIMEOUT" 400 300 (row ∷ [])).1
        ≡ [])
retry_quality_job-row_example =
    retry_quality_job-row claimed (row ∷ []) row "MODEL_TIMEOUT" 400 300 refl

fail_quality_job-row_example :
    (((fail_quality_job claimed "MODEL_TIMEOUT" 300 (row ∷ [])).0 ≡ true) ↔ Holds claimed row)
    × ((fail_quality_job claimed "MODEL_TIMEOUT" 300 (row ∷ [])).0 ≡ true
        → (q : QualityJobRow) × (first_where
              (is_job 1 7)
              (fail_quality_job claimed "MODEL_TIMEOUT" 300 (row ∷ [])).1
            ≡ some q)
          × EndsAt "MODEL_TIMEOUT" 300 row q)
    × ((fail_quality_job claimed "MODEL_TIMEOUT" 300 (row ∷ [])).0 ≡ false
        → (fail_quality_job claimed "MODEL_TIMEOUT" 300 (row ∷ [])).1 ≡ row ∷ [])
    × (keep_if (λ q. not (is_job 1 7 q)) (fail_quality_job claimed "MODEL_TIMEOUT" 300 (row ∷ [])).1
        ≡ [])
fail_quality_job-row_example = fail_quality_job-row claimed (row ∷ []) row "MODEL_TIMEOUT" 300 refl

other_tenants-Untouched_example :
    Untouched 1 2 apart (row ∷ foreign ∷ []) (recover_expired 1 5000 4000 (row ∷ foreign ∷ [])).1
    × Untouched 1 2 apart
        (row ∷ foreign ∷ [])
        (claim_quality_jobs runtime (λ _. false) 1 5 5000 (row ∷ foreign ∷ [])).1
    × Untouched 1 2 apart
        (row ∷ foreign ∷ [])
        (retry_quality_job claimed "MODEL_TIMEOUT" 6000 5000 (row ∷ foreign ∷ [])).1
    × Untouched 1 2 apart
        (row ∷ foreign ∷ [])
        (fail_quality_job claimed "MODEL_TIMEOUT" 5000 (row ∷ foreign ∷ [])).1
    × Untouched 1 2 apart (row ∷ foreign ∷ []) (complete_job 1 7 pass 77 5000 (row ∷ foreign ∷ []))
other_tenants-Untouched_example =
    other_tenants-Untouched 1 2 apart (row ∷ foreign ∷ []) runtime (λ _. false) 5 5000 4000 6000 7
      77 5000 "MODEL_TIMEOUT" pass claimed refl

two_ids : UniqueIds 1 waiting
two_ids id = ground arith

claims_in_order_example :
    (length (claimed_job (start_row 200 pending_row) ∷ []) ≤ 1)
    × All
        (λ (r : QualityJobRow).
          IsDue 1 200 r
          → false ≡ false
          → HandedOutOrLater
              (λ _. false)
              1
              1
              200
              waiting
              (job_ids (claimed_job (start_row 200 pending_row) ∷ []))
              r)
        waiting
unfolding claim_quality_jobs candidates order_by returning update_where valid_claim fields_forbidden
    is_forbidden_key strip is_space ends_with
claims_in_order_example =
    claims_in_order (λ _. false) 1 1 200 waiting runtime
      (claimed_job (start_row 200 pending_row) ∷ [])
      (update_where (chosen (7 ∷ []) 1 200) (start_row 200) waiting) two_ids refl

one_id : UniqueIds 1 pending_table
unfolding pending_table create_from_event
one_id id = ground arith

create_from_event_again_example :
    create_from_event runtime 9 event pending_table ≡ (ok (as_job pending_row), pending_table)
unfolding create_from_event pending_table first_where quality_business_key
create_from_event_again_example =
    create_from_event_again runtime 5 9 event event [] pending_table (as_job pending_row)
      (record { tenant = refl; work_order = refl; version = refl; round = refl }) refl

unfoldable pub saved_db : Db
unfolding save_result
saved_db = (save_result runtime 150 result db).1

is_first : IsFirst runtime result db
unfolding first_where
is_first = record { job_there = refl; no_result = refl; no_findings = refl }

result_saved : save_result runtime 150 result db ≡ (ok result, saved_db)
unfolding saved_db save_result find_result first_where insert_findings
result_saved = refl

find_result-save_example : find_result 1 7 saved_db ≡ some (as_stored runtime result)
find_result-save_example =
    find_result-save runtime 150 result result db saved_db is_first (tt, tt) result_saved

save_result_again_example :
    save_result runtime 160 other_result saved_db ≡ (ok (as_stored runtime result), saved_db)
save_result_again_example =
    save_result_again runtime 150 160 result result other_result db saved_db is_first (tt, tt)
      result_saved refl refl

contains_forbidden_key-HasKey_iff_example :
    (contains_forbidden_key (λ s. s) leaking ≡ true)
    ↔ ((k : Str) × (is_forbidden_key (λ s. s) k ≡ true) × HasKey k leaking)
contains_forbidden_key-HasKey_iff_example = contains_forbidden_key-HasKey_iff (λ s. s) leaking

evaluate-Passes_iff_example : All Passes (evaluate (λ _. []) input) ↔ (
    (created : Datetime) × (completed : Datetime) × (due : Datetime) × IsComplete input created
      completed due)
evaluate-Passes_iff_example = evaluate-Passes_iff (λ _. []) input

sla_evidence_example :
    (late : ℕ) × ((sla_completion_finding (λ _. []) input).evidence
      ≡ ("completed_at", text []) ∷ ("due_at", text []) ∷ ("overdue_seconds", seconds late) ∷ [])
    × (((sla_completion_finding (λ _. []) input).label ≡ pass) ↔ (late ≡ 0))
    × (0 < late → 20 + late ≡ 30)
sla_evidence_example = sla_evidence (λ _. []) input (at 30) (at 20) refl refl

validate_policy_evidence-IsGrounded_example :
    All (IsGrounded (8 ∷ [])) (validate_policy_evidence output (8 ∷ [])).findings
    × (rule_codes (validate_policy_evidence output (8 ∷ [])) ≡ rule_codes output)
validate_policy_evidence-IsGrounded_example = validate_policy_evidence-IsGrounded (8 ∷ []) output

parse_output : ℕ → Option QualityModelOutput
parse_output _ = some output

validate_model_output-IsSound_example :
    IsSoundOutput output × AllowedCodes (codes "POLICY_A" ∷ []) (rule_codes output)
unfolding validate_model_output parse_output strip lstrip is_space has_code_shape one
    validate_finding
validate_model_output-IsSound_example =
    validate_model_output-IsSound parse_output 0 (codes "POLICY_A" ∷ []) output refl

aggregate_verdict-worst_example :
    aggregate_verdict rule_findings output
    ≡ ok (worst (rule_labels rule_findings ++ model_labels output))
aggregate_verdict-worst_example = aggregate_verdict-worst rule_findings output (refl, (refl, tt))
