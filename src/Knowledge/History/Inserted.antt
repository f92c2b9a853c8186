-- ===== src/Knowledge/History/Inserted.antt =====
-- The tables after a new version of a document.
use mathlib.Core.Path.{subst}
use enterprise_work_order_ai.Prelude.{
  ℕ, ◌≡◌, refl, Bool, true, false, ◌&&◌, Option, none, some, List, [], ◌∷◌, ◌++◌, map, arith, ◌+◌,
  any, all, All, Bool-cases, inl, inr,
}
use enterprise_work_order_ai.Prelude.Sql.Pairs.{Pairwise, Pairwise-append, any-append, All-of_none}
use enterprise_work_order_ai.Prelude.Text.{Str, str_eq}
use enterprise_work_order_ai.Knowledge.Embedding.{unfinished}
use enterprise_work_order_ai.Knowledge.Models.{DocumentDraft, ChunkDraft, IngestResult}
use enterprise_work_order_ai.Knowledge.Repository.{
  Primitives, is_stable_key, unique_chunks, latest_document, document_row, job_row, commit_version,
  insert_version, version_after, create_version,
}
use enterprise_work_order_ai.Knowledge.Rows.{
  DocumentRow, ChunkRow, EmbeddingJobRow, KnowledgeDb, insert_new, insert_or_skip, and_next-some,
  insert_all, document_clash, job_conflict, job_clash, chunk_of_job,
}
use enterprise_work_order_ai.Knowledge.History.Sound.{apart, is_active, shows_unfinished, IsSound}

rows_inj :
    {x y : List EmbeddingJobRow} → ◌≡◌ {A = Option (List EmbeddingJobRow)} (some x) (some y) → x ≡ y
rows_inj k = cc

insert_or_skip-none :
    (q : EmbeddingJobRow → Bool) (new : EmbeddingJobRow) (rows rows' : List EmbeddingJobRow)
    → q new ≡ false
    → any q rows ≡ false
    → insert_or_skip job_conflict job_clash new rows ≡ some rows'
    → any q rows' ≡ false
insert_or_skip-none q new rows rows' n h e = elim (Bool-cases (any (job_conflict new) rows)) [
  | inl c ↦ subst (λ (x : List EmbeddingJobRow). any q x ≡ false) (rows_inj (rw c at e)) h
  | inr c ↦ elim (Bool-cases (any (job_clash new) rows)) [
    | inl k ↦ absurd (none_ne (rw (c, k) at e))
    | inr k ↦
        subst (λ (x : List EmbeddingJobRow). any q x ≡ false) (rows_inj (rw (c, k) at e))
          (any-append q rows new h n)
  ]
]
  where
    none_ne : {x : List EmbeddingJobRow} → none ≡ some x → ⊥
    none_ne k = cc

insert_all-none :
    (q : EmbeddingJobRow → Bool) (news rows rows' : List EmbeddingJobRow)
    → All (λ j. q j ≡ false) news
    → any q rows ≡ false
    → insert_all job_conflict job_clash news rows ≡ some rows'
    → any q rows' ≡ false
unfolding insert_all
insert_all-none q [] rows rows' n h e =
    subst (λ (x : List EmbeddingJobRow). any q x ≡ false) (rows_inj e) h
insert_all-none q (new ∷ news) rows rows' n h e =
    let (mid, first, rest) =
      and_next-some (insert_or_skip job_conflict job_clash new rows)
        (insert_all job_conflict job_clash news) e in
    insert_all-none q news mid rows' n.1 (insert_or_skip-none q new rows mid n.0 h first) rest

module _ (prim : Primitives) (db_now tenant : ℕ) (document : DocumentDraft) (model_key : Str)
    (version : ℕ) where
  abbrev new_row : DocumentRow
  new_row = document_row prim db_now tenant document version

  abbrev new_jobs : List ChunkDraft → List EmbeddingJobRow
  new_jobs = map (job_row prim db_now tenant document version model_key)

  no_clash-apart : (d : DocumentRow) → document_clash new_row d ≡ false → apart d new_row ≡ true
  no_clash-apart d h = ground (arith, h)

  All-apart :
      (rows : List DocumentRow)
      → All (λ d. document_clash new_row d ≡ false) rows
      → All (λ d. apart d new_row ≡ true) rows
  All-apart [] h = tt
  All-apart (d ∷ rows) h = (no_clash-apart d h.0, All-apart rows h.1)

  -- The new jobs are of no document that was there.
  others_jobs :
      (d : DocumentRow) (chunks : List ChunkDraft)
      → document_clash new_row d ≡ false
      → All (λ j. unfinished d.tenant_id d.id j ≡ false) (new_jobs chunks)
  others_jobs d [] h = tt
  others_jobs d (c ∷ chunks) h = (ground (arith, h), others_jobs d chunks h)

  still_complete :
      (chunks : List ChunkDraft) (jobs jobs' : List EmbeddingJobRow) (d : DocumentRow)
      → insert_all job_conflict job_clash (new_jobs chunks) jobs ≡ some jobs'
      → document_clash new_row d ≡ false
      → shows_unfinished jobs d ≡ false
      → shows_unfinished jobs' d ≡ false
  still_complete chunks jobs jobs' d e free h = elim (Bool-cases (is_active d.status)) [
    | inr q ↦ rw q refl
    | inl q ↦ rw q (
        insert_all-none (unfinished d.tenant_id d.id) (new_jobs chunks) jobs jobs'
          (others_jobs d chunks free) (rw q at h) e)
  ]

  All-still_complete :
      (chunks : List ChunkDraft) (jobs jobs' : List EmbeddingJobRow) (rows : List DocumentRow)
      → insert_all job_conflict job_clash (new_jobs chunks) jobs ≡ some jobs'
      → All (λ d. document_clash new_row d ≡ false) rows
      → All (λ d. shows_unfinished jobs d ≡ false) rows
      → All (λ d. shows_unfinished jobs' d ≡ false) (rows ++ new_row ∷ [])
  All-still_complete chunks jobs jobs' [] e free h = (refl, tt)
  All-still_complete chunks jobs jobs' (d ∷ rows) e free h = (
    still_complete chunks jobs jobs' d e free.0 h.0,
    All-still_complete chunks jobs jobs' rows e free.1 h.1,
  )

  commit_version-IsSound :
      (result : IngestResult) (chunks : List ChunkDraft) (db : KnowledgeDb)
      (d : Option (List DocumentRow)) (c : Option (List ChunkRow))
      (j : Option (List EmbeddingJobRow))
      → IsSound db
      → insert_new document_clash new_row db.documents ≡ d
      → insert_all job_conflict job_clash (new_jobs chunks) db.jobs ≡ j
      → IsSound (commit_version prim result (new_jobs chunks) d c j db).1
  commit_version-IsSound result chunks db none c j s ed ej = s
  commit_version-IsSound result chunks db (some d) none j s ed ej = s
  commit_version-IsSound result chunks db (some d) (some c) none s ed ej = s
  commit_version-IsSound result chunks db (some d) (some c) (some j) s ed ej =
      elim (Bool-cases (all (λ x. any (chunk_of_job x) c) (new_jobs chunks))) [
        | inr q ↦ rw q s
        | inl q ↦ rw q (elim (Bool-cases (any (document_clash new_row) db.documents)) [
          | inl clash ↦ absurd (none_ne (rw clash at ed))
          | inr free ↦
              let rows : db.documents ++ new_row ∷ [] ≡ d = inj (rw free at ed) in
              let apart_all = All-of_none (document_clash new_row) db.documents free in
              record {
                versions = subst (Pairwise (λ a b. apart a b ≡ true)) rows (
                    Pairwise-append (λ a b. apart a b ≡ true) db.documents new_row s.versions
                      (All-apart db.documents apart_all));
                complete =
                    subst (All (λ x. shows_unfinished j x ≡ false)) rows
                      (All-still_complete chunks db.jobs j db.documents ej apart_all s.complete);
              }
        ])
      ]
    where
      inj : {x y : List DocumentRow} → ◌≡◌ {A = Option (List DocumentRow)} (some x) (some y) → x ≡ y
      inj k = cc

      none_ne : {x : List DocumentRow} → none ≡ some x → ⊥
      none_ne k = cc

  insert_version-IsSound :
      (chunks : List ChunkDraft) (db : KnowledgeDb)
      → IsSound db
      → IsSound (insert_version prim db_now tenant document chunks model_key version db).1
  unfolding insert_version
  insert_version-IsSound chunks db s = commit_version-IsSound _ chunks db _ _ _ s refl refl

module _ (prim : Primitives) (db_now tenant : ℕ) (document : DocumentDraft)
    (chunks : List ChunkDraft) (model_key : Str) (db : KnowledgeDb) (sound : IsSound db) where
  version_after-IsSound :
      (latest : Option DocumentRow)
      → IsSound (version_after prim db_now tenant document chunks model_key latest db).1
  version_after-IsSound none =
      insert_version-IsSound prim db_now tenant document model_key 1 chunks db sound
  version_after-IsSound (some d) = elim (Bool-cases (str_eq d.content_hash document.content_hash)) [
    | inl same ↦ rw same sound
    | inr new ↦ rw new (
        insert_version-IsSound prim db_now tenant document model_key (d.version + 1) chunks db
          sound)
  ]

  pub create_version-IsSound :
      IsSound (create_version prim db_now tenant document chunks model_key db).1
  unfolding create_version
  create_version-IsSound = elim (Bool-cases (is_stable_key 200 model_key && unique_chunks chunks)) [
    | inl q ↦
        rw q (version_after-IsSound (latest_document tenant document.document_key db.documents))
    | inr q ↦ rw q sound
  ]
