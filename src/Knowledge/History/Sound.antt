-- ===== src/Knowledge/History/Sound.antt =====
-- What holds of the tables at any time, and the changes of the jobs alone.
use enterprise_work_order_ai.Prelude.{
  ℕ, ◌≡◌, refl, Bool, true, false, not, ◌&&◌, ◌||◌, List, [], ◌∷◌, arith, any, All, ◌==◌,
  Bool-cases, inl, inr,
}
use enterprise_work_order_ai.Prelude.Sql.{update_where}
use enterprise_work_order_ai.Prelude.Sql.Pairs.{Pairwise, any-update_where}
use enterprise_work_order_ai.Prelude.Text.{Str, str_eq}
use enterprise_work_order_ai.Knowledge.Embedding.{
  unfinished, picked, start_job, runs, retried_row, failed_row, finish_row,
}
use enterprise_work_order_ai.Knowledge.Rows.{
  Visibility, active, inactive, DocumentRow, EmbeddingJobRow, KnowledgeDb,
}

abbrev pub is_active : Visibility → Bool
is_active active = true
is_active inactive = false
is_active Visibility.pending = false

-- Two documents of one tenant have two identifiers, and if they are versions of one key, two
-- version numbers, of which not both are active.
abbrev pub apart : DocumentRow → DocumentRow → Bool
apart d e = not (
    d.tenant_id == e.tenant_id
    && (d.id == e.id
        || (str_eq d.document_key e.document_key
            && (d.version == e.version || (is_active d.status && is_active e.status)))))

-- The document is shown although one of its jobs is not done.
abbrev pub shows_unfinished : List EmbeddingJobRow → DocumentRow → Bool
shows_unfinished jobs d = is_active d.status && any (unfinished d.tenant_id d.id) jobs

pub record IsSound (db : KnowledgeDb) : Type 0 where
  pub versions : Pairwise (λ d e. apart d e ≡ true) db.documents
  pub complete : All (λ d. shows_unfinished db.jobs d ≡ false) db.documents

-- A statement on the jobs that leaves each one done that was done.
abbrev pub KeepsDone : (EmbeddingJobRow → Bool) → (EmbeddingJobRow → EmbeddingJobRow) → Type 0
KeepsDone p f =
    (tenant id : ℕ) (j : EmbeddingJobRow)
    → p j ≡ true
    → unfinished tenant id j ≡ false
    → unfinished tenant id (f j) ≡ false

pub start_job-KeepsDone :
    (ids : List ℕ) (tenant : ℕ) (model_key : Str) (now : ℕ)
    → KeepsDone (picked ids tenant model_key now) (start_job now)
start_job-KeepsDone ids tenant model_key now t id j h k = ground (arith, h, k)

pub retried_row-KeepsDone :
    (tenant job_id : ℕ) (code : Str) (at now : ℕ)
    → KeepsDone (runs tenant job_id) (retried_row code at now)
retried_row-KeepsDone tenant job_id code at now t id j h k = ground (arith, h, k)

pub failed_row-KeepsDone :
    (tenant job_id : ℕ) (code : Str) (now : ℕ)
    → KeepsDone (runs tenant job_id) (failed_row code now)
failed_row-KeepsDone tenant job_id code now t id j h k = ground (arith, h, k)

pub finish_row-KeepsDone : (tenant job_id now : ℕ) → KeepsDone (runs tenant job_id) (finish_row now)
finish_row-KeepsDone tenant job_id now t id j h k = ground (arith, h, k)

module _ (p : EmbeddingJobRow → Bool) (f : EmbeddingJobRow → EmbeddingJobRow)
    (keeps : KeepsDone p f) where
  still_complete :
      (jobs : List EmbeddingJobRow) (d : DocumentRow)
      → shows_unfinished jobs d ≡ false
      → shows_unfinished (update_where p f jobs) d ≡ false
  still_complete jobs d h = elim (Bool-cases (is_active d.status)) [
    | inr e ↦ rw e refl
    | inl e ↦ rw e (
        any-update_where (unfinished d.tenant_id d.id) p f (keeps d.tenant_id d.id) jobs
          (rw e at h))
  ]

  pub All-still_complete :
      (jobs : List EmbeddingJobRow) (documents : List DocumentRow)
      → All (λ d. shows_unfinished jobs d ≡ false) documents
      → All (λ d. shows_unfinished (update_where p f jobs) d ≡ false) documents
  All-still_complete jobs [] h = tt
  All-still_complete jobs (d ∷ documents) h =
      (still_complete jobs d h.0, All-still_complete jobs documents h.1)

  -- Such a statement keeps the tables sound.
  pub jobs-IsSound :
      (db : KnowledgeDb) → IsSound db → IsSound (record db { jobs = update_where p f db.jobs })
  jobs-IsSound db s = record {
    versions = s.versions;
    complete = All-still_complete db.jobs db.documents s.complete;
  }
