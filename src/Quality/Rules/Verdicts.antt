-- ===== src/Quality/Rules/Verdicts.antt =====
-- What the four rules decide.
use enterprise_work_order_ai.Prelude.{
  ℕ, ◌+◌, ◌-◌, ◌≤◌, ◌<◌, ◌≡◌, ◌≢◌, ◌↔◌, true, some, List, [], ◌∷◌, arith, any, All, Option-cases,
  inl, inr, length, keep_if,
}
use enterprise_work_order_ai.Prelude.Text.{Str, strip}
use enterprise_work_order_ai.Quality.Labels.{pass}
use enterprise_work_order_ai.Quality.Rules.{
  Datetime, AttachmentSummary, QualityInput, QualityFinding, text, seconds, or_empty, evaluate,
  sla_completion_finding,
}

-- What a reviewer asks of a completed work order.
pub record IsComplete (input : QualityInput) (created completed due : Datetime) : Type 0 where
  pub summary : strip (or_empty input.completion_summary) ≢ []
  pub created_at : input.created_at ≡ some created
  pub completed_at : input.completed_at ≡ some completed
  pub due_at : input.due_at ≡ some due
  pub after_creation : created.instant ≤ completed.instant
  pub in_time : completed.instant ≤ due.instant
  pub attached : any (λ (a : AttachmentSummary). a.present) (or_empty input.attachments) ≡ true

abbrev pub Passes : QualityFinding → Type 0
Passes f = f.label ≡ pass

keep_if-any :
    (xs : List AttachmentSummary)
    → 0 < length (keep_if (λ a. a.present) xs)
    → any (λ a. a.present) xs ≡ true
keep_if-any [] h = absurd (omega arith)
keep_if-any (x ∷ xs) h = ground (arith, keep_if-any xs)

any-keep_if :
    (xs : List AttachmentSummary)
    → any (λ a. a.present) xs ≡ true
    → 0 < length (keep_if (λ a. a.present) xs)
any-keep_if [] h = cc
any-keep_if (x ∷ xs) h = ground (arith, any-keep_if xs)

module _ (isoformat : Datetime → Str) (input : QualityInput) where
  IsComplete-of_Passes :
      All Passes (evaluate isoformat input)
      → (created : Datetime) × (completed : Datetime) × (due : Datetime) × IsComplete input created
          completed due
  unfolding evaluate
  IsComplete-of_Passes h = elim (Option-cases input.created_at) [
    | inl p ↦ absurd (ground arith)
    | inr (created, p) ↦ elim (Option-cases input.completed_at) [
      | inl q ↦ absurd (ground arith)
      | inr (completed, q) ↦ elim (Option-cases input.due_at) [
        | inl r ↦ absurd (ground arith)
        | inr (due, r) ↦ (
          created,
          completed,
          due,
          record {
            summary = (λ e. ground arith);
            created_at = p;
            completed_at = q;
            due_at = r;
            after_creation = ground arith;
            in_time = ground arith;
            attached = keep_if-any (or_empty input.attachments) (ground arith);
          },
        )
      ]
    ]
  ]

  Passes-of_complete :
      {created completed due : Datetime}
      → IsComplete input created completed due
      → All Passes (evaluate isoformat input)
  unfolding evaluate
  Passes-of_complete c = ground (arith, any-keep_if (or_empty input.attachments))

  -- All four rules pass exactly when the completion summary has a visible character, the three
  -- timestamps are there, completion is neither before creation nor after the due time, and some
  -- attachment is present.
  pub evaluate-Passes_iff : All Passes (evaluate isoformat input) ↔ (
      (created : Datetime) × (completed : Datetime) × (due : Datetime) × IsComplete input created
        completed due)
  evaluate-Passes_iff = (IsComplete-of_Passes, λ (created, completed, due, c). Passes-of_complete c)

-- With both timestamps there, the SLA rule passes exactly when its evidence records no lateness,
-- and the lateness that it records takes the due time to the completion time when it fails.
pub sla_evidence :
    (isoformat : Datetime → Str) (input : QualityInput) (completed due : Datetime)
    → input.completed_at ≡ some completed
    → input.due_at ≡ some due
    → (late : ℕ) × ((sla_completion_finding isoformat input).evidence
        ≡ ("completed_at", text (isoformat completed))
          ∷ ("due_at", text (isoformat due))
          ∷ ("overdue_seconds", seconds late)
          ∷ [])
      × (((sla_completion_finding isoformat input).label ≡ pass) ↔ (late ≡ 0))
      × (0 < late → due.instant + late ≡ completed.instant)
unfolding sla_completion_finding
sla_evidence isoformat input completed due p q =
    (completed.instant - due.instant, ground arith, (ground arith, ground arith), omega arith)
