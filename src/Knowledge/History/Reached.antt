-- ===== src/Knowledge/History/Reached.antt =====
-- What holds of the tables after any history.
use enterprise_work_order_ai.Prelude.{
  ℕ, ◌≡◌, refl, ap, Bool, ◌&&◌, Option, none, some, List, leb, ltb, Bool-cases, inl, inr,
  if◌then◌else◌,
}
use enterprise_work_order_ai.Prelude.Sql.{first_where}
use enterprise_work_order_ai.Prelude.Text.{Str, str_eq}
use mathlib.Core.Path.{subst}
use enterprise_work_order_ai.Knowledge.Embedding.{
  claim, retry, fail, succeed, succeed_with, succeed_locked, locked_job, runs, chunk_at,
  is_document, finish_embedding, finish_row, retried_row, failed_row, picked, start_job,
  normalize_embedding, max_claim_limit,
}
use enterprise_work_order_ai.Knowledge.Repository.{Primitives, is_stable_key, valid_content_hash}
use enterprise_work_order_ai.Knowledge.Rows.{
  DocumentRow, ChunkRow, EmbeddingJobRow, KnowledgeDb, and_next-some,
}
use enterprise_work_order_ai.Knowledge.History.{
  Step, created, claimed, retried, failed, embedded, empty, Reach, here, next,
}
use enterprise_work_order_ai.Knowledge.History.Activation.{settle-IsSound}
use enterprise_work_order_ai.Knowledge.History.Inserted.{create_version-IsSound}
use enterprise_work_order_ai.Knowledge.History.Sound.{
  IsSound, jobs-IsSound, start_job-KeepsDone, retried_row-KeepsDone, failed_row-KeepsDone,
  finish_row-KeepsDone,
}

abbrev some_locked :
    EmbeddingJobRow → DocumentRow → ChunkRow → Option (EmbeddingJobRow × (DocumentRow × ChunkRow))
some_locked j d c = some (j, (d, c))

module _ (db : KnowledgeDb) (sound : IsSound db) where
  claim-IsSound :
      (locked : ℕ → Bool) (tenant limit : ℕ) (model_key : Str) (now : ℕ)
      → IsSound (claim locked tenant limit model_key now db).1
  unfolding claim
  claim-IsSound locked tenant limit model_key now =
      elim (Bool-cases (is_stable_key 200 model_key && leb 1 limit && leb limit max_claim_limit)) [
        | inl q ↦ rw q (
            jobs-IsSound (picked _ tenant model_key now) (start_job now)
              (start_job-KeepsDone _ tenant model_key now) db sound)
        | inr q ↦ rw q sound
      ]

  retry-IsSound :
      (tenant job_id : ℕ) (code : Str) (at now : ℕ) → IsSound (retry tenant job_id code at now db).1
  unfolding retry
  retry-IsSound tenant job_id code at now =
      elim (Bool-cases (is_stable_key 128 code && ltb now at)) [
        | inl q ↦ rw q (
            jobs-IsSound (runs tenant job_id) (retried_row code at now)
              (retried_row-KeepsDone tenant job_id code at now) db sound)
        | inr q ↦ rw q sound
      ]

  fail-IsSound :
      (tenant job_id : ℕ) (code : Str) (now : ℕ) → IsSound (fail tenant job_id code now db).1
  unfolding fail
  fail-IsSound tenant job_id code now = elim (Bool-cases (is_stable_key 128 code)) [
    | inl q ↦ rw q (
        jobs-IsSound (runs tenant job_id) (failed_row code now)
          (failed_row-KeepsDone tenant job_id code now) db sound)
    | inr q ↦ rw q sound
  ]

  -- The document of the locked row is the one that its job names.
  pub locked-document :
      (tenant job_id : ℕ) (hash : Str) (j : EmbeddingJobRow) (d : DocumentRow) (c : ChunkRow)
      → locked_job tenant job_id hash db ≡ some (j, (d, c))
      → first_where (is_document tenant j.document_id) db.documents ≡ some d
  unfolding locked_job
  locked-document tenant job_id hash j d c h =
      let (j', _, h1) = and_next-some (first_where (runs tenant job_id) db.jobs) _ h in
      let (d', found, h2) =
        and_next-some (first_where (is_document tenant j'.document_id) db.documents) _ h1 in
      let (c', _, h3) = and_next-some (first_where (chunk_at tenant j'.chunk_id) db.chunks) _ h2 in
      let same = last_of j' d' c' h3 in
      subst
        (λ (x : EmbeddingJobRow × DocumentRow).
          first_where (is_document tenant x.0.document_id) db.documents ≡ some x.1)
        same found
    where
      locked_inj :
          {x y : EmbeddingJobRow × (DocumentRow × ChunkRow)}
          → ◌≡◌ {A = Option (EmbeddingJobRow × (DocumentRow × ChunkRow))} (some x) (some y)
          → x ≡ y
      locked_inj k = cc

      none_ne : {x : EmbeddingJobRow × (DocumentRow × ChunkRow)} → none ≡ some x → ⊥
      none_ne k = cc

      last_of :
          (j' : EmbeddingJobRow) (d' : DocumentRow) (c' : ChunkRow)
          → (if str_eq c'.content_hash hash then some_locked j' d' c' else none) ≡ some_locked j d c
          → ◌≡◌ {A = EmbeddingJobRow × DocumentRow} (j', d') (j, d)
      last_of j' d' c' k = elim (Bool-cases (str_eq c'.content_hash hash)) [
        | inl q ↦
            ap (λ (x : EmbeddingJobRow × (DocumentRow × ChunkRow)). (x.0, x.1.0))
              (locked_inj (rw q at k))
        | inr q ↦ absurd (none_ne (rw q at k))
      ]

  succeed_locked-IsSound :
      (prim : Primitives) (tenant job_id : ℕ) (hash : Str) (vector : List ℕ) (now : ℕ)
      (row : Option (EmbeddingJobRow × (DocumentRow × ChunkRow)))
      → locked_job tenant job_id hash db ≡ row
      → IsSound (succeed_locked prim tenant job_id vector now row db).1
  succeed_locked-IsSound prim tenant job_id hash vector now none h = sound
  succeed_locked-IsSound prim tenant job_id hash vector now (some (j, (d, c))) h =
      let finished =
        jobs-IsSound (runs tenant job_id) (finish_row now) (finish_row-KeepsDone tenant job_id now)
          db sound in
      settle-IsSound tenant d now j.document_id
        (finish_embedding prim tenant job_id c j vector now db)
        (record { versions = finished.versions; complete = finished.complete })
        (locked-document tenant job_id hash j d c h)

  succeed_with-IsSound :
      (prim : Primitives) (tenant job_id : ℕ) (hash : Str) (now : ℕ) (vector : Option (List ℕ))
      → IsSound (succeed_with prim tenant job_id hash now vector db).1
  succeed_with-IsSound prim tenant job_id hash now none = sound
  succeed_with-IsSound prim tenant job_id hash now (some vector) =
      succeed_locked-IsSound prim tenant job_id hash vector now _ refl

  succeed-IsSound :
      (prim : Primitives) (tenant job_id : ℕ) (vector : List ℕ) (hash : Str) (now : ℕ)
      → IsSound (succeed prim tenant job_id vector hash now db).1
  unfolding succeed
  succeed-IsSound prim tenant job_id vector hash now = elim (Bool-cases (valid_content_hash hash)) [
    | inl q ↦
        rw q (succeed_with-IsSound prim tenant job_id hash now (normalize_embedding prim vector))
    | inr q ↦ rw q sound
  ]

module _ (prim : Primitives) where
  step-IsSound : (db db' : KnowledgeDb) → IsSound db → Step prim db db' → IsSound db'
  step-IsSound db db' s (created now tenant document chunks model_key h) =
      subst IsSound h (create_version-IsSound prim now tenant document chunks model_key db s)
  step-IsSound db db' s (claimed locked tenant limit model_key now h) =
      subst IsSound h (claim-IsSound db s locked tenant limit model_key now)
  step-IsSound db db' s (retried tenant job_id code at now h) =
      subst IsSound h (retry-IsSound db s tenant job_id code at now)
  step-IsSound db db' s (failed tenant job_id code now h) =
      subst IsSound h (fail-IsSound db s tenant job_id code now)
  step-IsSound db db' s (embedded tenant job_id vector hash now h) =
      subst IsSound h (succeed-IsSound db s prim tenant job_id vector hash now)

  -- After any history of ingestions, claims, retries, failures and embeddings, of any tenants and in
  -- any order, no key of a tenant has two active versions or two versions of one number, no two of a
  -- tenant's documents have one identifier, and each job of an active document is done.
  pub Reach-IsSound : (db : KnowledgeDb) → Reach prim empty db → IsSound db
  Reach-IsSound db here = record { versions = tt; complete = tt }
  Reach-IsSound db (next history step) = step-IsSound _ db (Reach-IsSound _ history) step
