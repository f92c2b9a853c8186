-- ===== src/Knowledge/History/Shown.antt =====
-- What is shown of the knowledge base after any history.
use mathlib.Core.Path.{subst}
use enterprise_work_order_ai.Prelude.{
  ℕ, ◌+◌, ◌≡◌, refl, inl, inr, Bool, true, ◌&&◌, Option, none, some, List, [], ◌∷◌, ◌++◌, map, any,
  all, All, All-append, All-weaken, All-map_of, leb, ltb, ==_refl, Bool-cases,
}
use enterprise_work_order_ai.Prelude.Sql.Pairs.{any-append_left, any-append_last}
use enterprise_work_order_ai.Prelude.Text.{Str, str_eq}
use enterprise_work_order_ai.Knowledge.Embedding.{
  claim, retry, fail, succeed, succeed_with, succeed_locked, locked_job, runs, finish_embedding,
  finish_row, max_claim_limit, normalize_embedding,
}
use enterprise_work_order_ai.Knowledge.Models.{DocumentDraft, ChunkDraft, IngestResult}
use enterprise_work_order_ai.Knowledge.Repository.{
  Primitives, is_stable_key, unique_chunks, valid_content_hash, latest_document, document_row,
  chunk_row, commit_version, insert_version, version_after, create_version,
}
use enterprise_work_order_ai.Knowledge.Rows.{
  DocumentRow, ChunkRow, EmbeddingJobRow, KnowledgeDb, insert_new, insert_or_skip, and_next-some,
  insert_all, document_clash, chunk_conflict, chunk_clash, chunk_of_job,
}
use enterprise_work_order_ai.Knowledge.History.{
  Step, created, claimed, retried, failed, embedded, empty, Reach, here, next,
}
use enterprise_work_order_ai.Knowledge.History.InStep.{carries, IsInStep, settle-IsInStep}
use enterprise_work_order_ai.Knowledge.History.Reached.{Reach-IsSound}
use enterprise_work_order_ai.Knowledge.History.Sound.{IsSound, jobs-IsSound, finish_row-KeepsDone}

rows_inj : {x y : List ChunkRow} → ◌≡◌ {A = Option (List ChunkRow)} (some x) (some y) → x ≡ y
rows_inj k = cc

documents_inj :
    {x y : List DocumentRow} → ◌≡◌ {A = Option (List DocumentRow)} (some x) (some y) → x ≡ y
documents_inj k = cc

none_ne : {x : List ChunkRow} → none ≡ some x → ⊥
none_ne k = cc

module _ (P : ChunkRow → Type 0) where
  insert_or_skip-All :
      (new : ChunkRow) (rows rows' : List ChunkRow)
      → P new
      → All P rows
      → insert_or_skip chunk_conflict chunk_clash new rows ≡ some rows'
      → All P rows'
  insert_or_skip-All new rows rows' n h e = elim (Bool-cases (any (chunk_conflict new) rows)) [
    | inl c ↦ subst (All P) (rows_inj (rw c at e)) h
    | inr c ↦ elim (Bool-cases (any (chunk_clash new) rows)) [
      | inl k ↦ absurd (none_ne (rw (c, k) at e))
      | inr k ↦ subst (All P) (rows_inj (rw (c, k) at e)) (All-append P rows (new ∷ []) h (n, tt))
    ]
  ]

  insert_all-All :
      (news rows rows' : List ChunkRow)
      → All P news
      → All P rows
      → insert_all chunk_conflict chunk_clash news rows ≡ some rows'
      → All P rows'
  unfolding insert_all
  insert_all-All [] rows rows' n h e = subst (All P) (rows_inj e) h
  insert_all-All (new ∷ news) rows rows' n h e =
      let (mid, first, rest) =
        and_next-some (insert_or_skip chunk_conflict chunk_clash new rows)
          (insert_all chunk_conflict chunk_clash news) e in
      insert_all-All news mid rows' n.1 (insert_or_skip-All new rows mid n.0 h first) rest

module _ (prim : Primitives) (db_now tenant : ℕ) (document : DocumentDraft)
    (chunks : List ChunkDraft) (model_key : Str) (db : KnowledgeDb) (s : IsInStep db) where
  commit_version-IsInStep :
      (result : IngestResult) (jobs : List EmbeddingJobRow) (version : ℕ)
      (d : Option (List DocumentRow)) (c : Option (List ChunkRow))
      (j : Option (List EmbeddingJobRow))
      → insert_new document_clash (document_row prim db_now tenant document version) db.documents
        ≡ d
      → insert_all chunk_conflict chunk_clash
          (map (chunk_row prim db_now tenant document version) chunks)
          db.chunks
        ≡ c
      → IsInStep (commit_version prim result jobs d c j db).1
  commit_version-IsInStep result jobs version none c j ed ec = s
  commit_version-IsInStep result jobs version (some d) none j ed ec = s
  commit_version-IsInStep result jobs version (some d) (some c) none ed ec = s
  commit_version-IsInStep result jobs version (some d) (some c) (some j) ed ec =
      let new : DocumentRow = document_row prim db_now tenant document version in
      elim (Bool-cases (all (λ x. any (chunk_of_job x) c) jobs)) [
        | inr q ↦ rw q s
        | inl q ↦ rw q (elim (Bool-cases (any (document_clash new) db.documents)) [
          | inl clash ↦ absurd (no_rows (rw clash at ed))
          | inr free ↦
              let rows : db.documents ++ new ∷ [] ≡ d = documents_inj (rw free at ed) in
              subst (λ (x : List DocumentRow). All (λ r. any (carries r) x ≡ true) c) rows
                (insert_all-All (λ r. any (carries r) (db.documents ++ new ∷ []) ≡ true)
                  (map (chunk_row prim db_now tenant document version) chunks) db.chunks c
                  (All-map_of (λ r. any (carries r) (db.documents ++ new ∷ []) ≡ true)
                    (chunk_row prim db_now tenant document version) chunks
                    (λ x.
                      any-append_last (carries (chunk_row prim db_now tenant document version x))
                        db.documents new (rw (==_refl tenant, ==_refl new.id) refl)))
                  (All-weaken (λ r. any (carries r) db.documents ≡ true) _ db.chunks
                    (λ r h. any-append_left (carries r) db.documents (new ∷ []) h) s)
                  ec)
        ])
      ]
    where
      no_rows : {x : List DocumentRow} → none ≡ some x → ⊥
      no_rows k = cc

  insert_version-IsInStep :
      (version : ℕ)
      → IsInStep (insert_version prim db_now tenant document chunks model_key version db).1
  unfolding insert_version
  insert_version-IsInStep version = commit_version-IsInStep _ _ version _ _ _ refl refl

  version_after-IsInStep :
      (latest : Option DocumentRow)
      → IsInStep (version_after prim db_now tenant document chunks model_key latest db).1
  version_after-IsInStep none = insert_version-IsInStep 1
  version_after-IsInStep (some d) =
      elim (Bool-cases (str_eq d.content_hash document.content_hash)) [
        | inl same ↦ rw same s
        | inr new ↦ rw new (insert_version-IsInStep (d.version + 1))
      ]

  create_version-IsInStep :
      IsInStep (create_version prim db_now tenant document chunks model_key db).1
  unfolding create_version
  create_version-IsInStep =
      elim (Bool-cases (is_stable_key 200 model_key && unique_chunks chunks)) [
        | inl q ↦
            rw q
              (version_after-IsInStep (latest_document tenant document.document_key db.documents))
        | inr q ↦ rw q s
      ]

module _ (db : KnowledgeDb) (sound : IsSound db) (s : IsInStep db) where
  claim-IsInStep :
      (locked : ℕ → Bool) (tenant limit : ℕ) (model_key : Str) (now : ℕ)
      → IsInStep (claim locked tenant limit model_key now db).1
  unfolding claim
  claim-IsInStep locked tenant limit model_key now =
      elim (Bool-cases (is_stable_key 200 model_key && leb 1 limit && leb limit max_claim_limit)) [
        | inl q ↦ rw q s
        | inr q ↦ rw q s
      ]

  retry-IsInStep :
      (tenant job_id : ℕ) (code : Str) (at now : ℕ)
      → IsInStep (retry tenant job_id code at now db).1
  unfolding retry
  retry-IsInStep tenant job_id code at now =
      elim (Bool-cases (is_stable_key 128 code && ltb now at)) [ inl q ↦ rw q s | inr q ↦ rw q s ]

  fail-IsInStep :
      (tenant job_id : ℕ) (code : Str) (now : ℕ) → IsInStep (fail tenant job_id code now db).1
  unfolding fail
  fail-IsInStep tenant job_id code now = elim (Bool-cases (is_stable_key 128 code)) [
    | inl q ↦ rw q s
    | inr q ↦ rw q s
  ]

  succeed_locked-IsInStep :
      (prim : Primitives) (tenant job_id : ℕ) (vector : List ℕ) (now : ℕ)
      (row : Option (EmbeddingJobRow × (DocumentRow × ChunkRow)))
      → IsInStep (succeed_locked prim tenant job_id vector now row db).1
  succeed_locked-IsInStep prim tenant job_id vector now none = s
  succeed_locked-IsInStep prim tenant job_id vector now (some (j, (d, c))) =
      let finished =
        jobs-IsSound (runs tenant job_id) (finish_row now) (finish_row-KeepsDone tenant job_id now)
          db sound in
      settle-IsInStep tenant d now (finish_embedding prim tenant job_id c j vector now db)
        (record { versions = finished.versions; complete = finished.complete }) s

  succeed_with-IsInStep :
      (prim : Primitives) (tenant job_id : ℕ) (hash : Str) (now : ℕ) (vector : Option (List ℕ))
      → IsInStep (succeed_with prim tenant job_id hash now vector db).1
  succeed_with-IsInStep prim tenant job_id hash now none = s
  succeed_with-IsInStep prim tenant job_id hash now (some vector) =
      succeed_locked-IsInStep prim tenant job_id vector now (locked_job tenant job_id hash db)

  succeed-IsInStep :
      (prim : Primitives) (tenant job_id : ℕ) (vector : List ℕ) (hash : Str) (now : ℕ)
      → IsInStep (succeed prim tenant job_id vector hash now db).1
  unfolding succeed
  succeed-IsInStep prim tenant job_id vector hash now =
      elim (Bool-cases (valid_content_hash hash)) [
        | inl q ↦
            rw q
              (succeed_with-IsInStep prim tenant job_id hash now (normalize_embedding prim vector))
        | inr q ↦ rw q s
      ]

module _ (prim : Primitives) where
  step-IsInStep :
      (db db' : KnowledgeDb) → IsSound db → IsInStep db → Step prim db db' → IsInStep db'
  step-IsInStep db db' a s (created now tenant document chunks model_key h) =
      subst IsInStep h (create_version-IsInStep prim now tenant document chunks model_key db s)
  step-IsInStep db db' a s (claimed locked tenant limit model_key now h) =
      subst IsInStep h (claim-IsInStep db a s locked tenant limit model_key now)
  step-IsInStep db db' a s (retried tenant job_id code at now h) =
      subst IsInStep h (retry-IsInStep db a s tenant job_id code at now)
  step-IsInStep db db' a s (failed tenant job_id code now h) =
      subst IsInStep h (fail-IsInStep db a s tenant job_id code now)
  step-IsInStep db db' a s (embedded tenant job_id vector hash now h) =
      subst IsInStep h (succeed-IsInStep db a s prim tenant job_id vector hash now)

  -- After any history, each chunk has a document of its tenant with the identifier that it names,
  -- and that document has the status of the chunk.
  pub Reach-IsInStep : (db : KnowledgeDb) → Reach prim empty db → IsInStep db
  Reach-IsInStep db here = tt
  Reach-IsInStep db (next history step) =
      step-IsInStep _ db (Reach-IsSound prim _ history) (Reach-IsInStep _ history) step
