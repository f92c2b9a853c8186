-- ===== src/Knowledge/Reingested.antt =====
-- A document that is ingested again (`create_version` in
-- apps/ai-service/app/knowledge/repository.py).
use mathlib.Core.Path.{subst}
use enterprise_work_order_ai.Prelude.{
  ℕ, ◌+◌, ◌≤◌, ◌≡◌, ◌≢◌, refl, sym, ap, ◌∙◌, true, false, ◌&&◌, Option, none, some, List, [], ◌∷◌,
  ◌++◌, arith, any, all, All, leb, leb→le, le→leb, ==_refl, keep_if, keep_if-append, Bool-cases,
  inl, inr,
}
use enterprise_work_order_ai.Prelude.Exec.{Outcome, ok, raise}
use enterprise_work_order_ai.Prelude.Sql.{insert_by, order_by}
use enterprise_work_order_ai.Prelude.Sql.Order.{IsSorted, order_by-IsSorted, All-of_order_by}
use enterprise_work_order_ai.Prelude.Text.{Str, str_eq, str_eq_iff}
use enterprise_work_order_ai.Knowledge.Models.{DocumentDraft, ChunkDraft, IngestResult}
use enterprise_work_order_ai.Knowledge.Repository.{
  Primitives, is_stable_key, unique_chunks, of_key, newer_first, first_row, latest_document,
  document_row, commit_version, insert_version, skipped_result, version_after, create_version,
}
use enterprise_work_order_ai.Knowledge.Rows.{
  Failure, DocumentRow, ChunkRow, EmbeddingJobRow, KnowledgeDb, insert_new, document_clash,
  chunk_of_job,
}

unfoldable pub IsNewest : DocumentRow → List DocumentRow → Type 0
IsNewest new = All (λ d. leb d.version new.version ≡ true)

insert_by-first :
    (new d : DocumentRow) (rows : List DocumentRow)
    → leb d.version new.version ≡ true
    → first_row rows ≡ some new
    → first_row (insert_by newer_first d rows) ≡ some new
unfolding insert_by
insert_by-first new d [] h k = cc
insert_by-first new d (q ∷ rows) h k =
    let same : new ≡ q = inj (sym k) in
    let before : leb d.version q.version ≡ true =
      subst (λ (x : DocumentRow). leb d.version x.version ≡ true) same h in
    rw before k
  where
    inj : {x y : DocumentRow} → ◌≡◌ {A = Option DocumentRow} (some x) (some y) → x ≡ y
    inj e = cc

order_by-first :
    (new : DocumentRow) (rows : List DocumentRow)
    → IsNewest new rows
    → first_row (order_by newer_first (rows ++ new ∷ [])) ≡ some new
unfolding order_by insert_by IsNewest
order_by-first new [] h = refl
order_by-first new (d ∷ rows) h =
    insert_by-first new d (order_by newer_first (rows ++ new ∷ [])) h.0
      (order_by-first new rows h.1)

newer_first-total : (a b : DocumentRow) → newer_first a b ≡ false → newer_first b a ≡ true
newer_first-total a b h = ground arith

newer_first_trans :
    (a b c : DocumentRow) → newer_first a b ≡ true → newer_first b c ≡ true → newer_first a c ≡ true
newer_first_trans a b c h k = ground arith

pub IsNewest-of_first :
    (latest : DocumentRow) (rows : List DocumentRow)
    → first_row (order_by newer_first rows) ≡ some latest
    → IsNewest latest rows
unfolding IsNewest
IsNewest-of_first latest rows h =
    All-of_order_by newer_first (λ d. leb d.version latest.version ≡ true) rows
      (from_sorted (order_by newer_first rows)
        (order_by-IsSorted newer_first newer_first-total newer_first_trans rows) h)
  where
    inj : {x y : DocumentRow} → ◌≡◌ {A = Option DocumentRow} (some x) (some y) → x ≡ y
    inj e = cc

    from_sorted :
        (sorted : List DocumentRow)
        → IsSorted newer_first sorted
        → first_row sorted ≡ some latest
        → All (λ d. leb d.version latest.version ≡ true) sorted
    from_sorted [] s k = cc
    from_sorted (q ∷ sorted) s k =
        subst (λ (x : DocumentRow). All (λ d. leb d.version x.version ≡ true) (q ∷ sorted)) (inj k)
          (le→leb q.version q.version (omega arith), s.0)

insert_by-some :
    (d : DocumentRow) (rows : List DocumentRow) → first_row (insert_by newer_first d rows) ≢ none
unfolding insert_by
insert_by-some d [] = λ h. cc
insert_by-some d (q ∷ rows) = elim (Bool-cases (newer_first q d)) [
  | inl e ↦ rw e (λ h. some_ne h)
  | inr e ↦ rw e (λ h. some_ne h)
]
  where
    some_ne : {x : DocumentRow} → some x ≡ none → ⊥
    some_ne k = cc

pub none_of_first :
    (rows : List DocumentRow) → first_row (order_by newer_first rows) ≡ none → rows ≡ []
unfolding order_by
none_of_first [] h = refl
none_of_first (d ∷ rows) h = absurd (insert_by-some d (order_by newer_first rows) h)

latest_document-append :
    (tenant : ℕ) (key : Str) (rows : List DocumentRow) (new : DocumentRow)
    → IsNewest new (keep_if (of_key tenant key) rows)
    → of_key tenant key new ≡ true
    → latest_document tenant key (rows ++ new ∷ []) ≡ some new
unfolding latest_document
latest_document-append tenant key rows new h k =
    let kept : keep_if (of_key tenant key) (rows ++ new ∷ [])
        ≡ keep_if (of_key tenant key) rows ++ new ∷ [] =
      keep_if-append (of_key tenant key) rows (new ∷ []) ∙ rw k refl in
    ap (λ (x : List DocumentRow). first_row (order_by newer_first x)) kept
    ∙ order_by-first new (keep_if (of_key tenant key) rows) h

IsNewest-weaken :
    (a b : DocumentRow) (rows : List DocumentRow)
    → a.version ≤ b.version
    → IsNewest a rows
    → IsNewest b rows
unfolding IsNewest
IsNewest-weaken a b [] h k = tt
IsNewest-weaken a b (d ∷ rows) h k = (
  le→leb d.version b.version (omega (arith, h, leb→le d.version a.version k.0)),
  IsNewest-weaken a b rows h k.1,
)

module _ (prim : Primitives) (tenant : ℕ) (document : DocumentDraft) where
  -- The latest version of the document's key is the one of the result, and has its content.
  record IsLatest (r : IngestResult) (db : KnowledgeDb) : Type 0 where
    row : DocumentRow
    latest : latest_document tenant document.document_key db.documents ≡ some row
    same_id : row.id ≡ r.document_id
    same_version : row.version ≡ r.version
    content : row.content_hash ≡ document.content_hash

  module _ (db_now : ℕ) (chunks : List ChunkDraft) (model_key : Str) (db db' : KnowledgeDb)
      (r : IngestResult) where
    pair_inj :
        {o o' : Outcome Failure IngestResult} {x y : KnowledgeDb}
        → ◌≡◌ {A = Outcome Failure IngestResult × KnowledgeDb} (o, x) (o', y)
        → (o ≡ o') × (x ≡ y)
    pair_inj h = (
      ap (λ (x : Outcome Failure IngestResult × KnowledgeDb). x.0) h,
      ap (λ (x : Outcome Failure IngestResult × KnowledgeDb). x.1) h,
    )

    ok_inj : {x y : IngestResult} → ◌≡◌ {A = Outcome Failure IngestResult} (ok x) (ok y) → x ≡ y
    ok_inj h = cc

    raise_ne : {e : Failure} {x : IngestResult} → raise e ≡ ok x → ⊥
    raise_ne h = cc

    commit_version-documents :
        (result : IngestResult) (new : DocumentRow) (jobs : List EmbeddingJobRow)
        (d : Option (List DocumentRow)) (c : Option (List ChunkRow))
        (j : Option (List EmbeddingJobRow))
        → insert_new document_clash new db.documents ≡ d
        → commit_version prim result jobs d c j db ≡ (ok r, db')
        → (result ≡ r) × (db.documents ++ new ∷ [] ≡ db'.documents)
    commit_version-documents result new jobs (some d) (some c) (some j) e h =
        elim (Bool-cases (all (λ x. any (chunk_of_job x) c) jobs)) [
          | inr q ↦ absurd (raise_ne (pair_inj (rw q at h)).0)
          | inl q ↦
              let done = pair_inj (rw q at h) in
              elim (Bool-cases (any (document_clash new) db.documents)) [
                | inl clash ↦ absurd (none_ne (rw clash at e))
                | inr free ↦ (
                  ok_inj done.0,
                  inj (rw free at e) ∙ ap (λ (x : KnowledgeDb). x.documents) done.1,
                )
              ]
        ]
      where
        inj :
            {x y : List DocumentRow} → ◌≡◌ {A = Option (List DocumentRow)} (some x) (some y) → x ≡ y
        inj k = cc

        none_ne : {x : List DocumentRow} → none ≡ some x → ⊥
        none_ne k = cc
    commit_version-documents result new jobs none c j e h = absurd (raise_ne (pair_inj h).0)
    commit_version-documents result new jobs (some d) none j e h = absurd (raise_ne (pair_inj h).0)
    commit_version-documents result new jobs (some d) (some c) none e h =
        absurd (raise_ne (pair_inj h).0)

    insert_version-IsLatest :
        (version : ℕ)
        → IsNewest
            (document_row prim db_now tenant document version)
            (keep_if (of_key tenant document.document_key) db.documents)
        → insert_version prim db_now tenant document chunks model_key version db ≡ (ok r, db')
        → IsLatest r db'
    unfolding insert_version
    insert_version-IsLatest version newest h =
        let new = document_row prim db_now tenant document version in
        let (result, rows) = commit_version-documents _ new _ _ _ _ refl h in
        let own : of_key tenant document.document_key new ≡ true =
          rw (==_refl tenant, (str_eq_iff document.document_key document.document_key).1 refl)
            refl in
        record {
          row = new;
          latest =
              ap (latest_document tenant document.document_key) (sym rows)
              ∙ latest_document-append tenant document.document_key db.documents new newest own;
          same_id = ap (λ (x : IngestResult). x.document_id) result;
          same_version = ap (λ (x : IngestResult). x.version) result;
          content = refl;
        }

    version_after-IsLatest :
        (latest : Option DocumentRow)
        → latest_document tenant document.document_key db.documents ≡ latest
        → version_after prim db_now tenant document chunks model_key latest db ≡ (ok r, db')
        → IsLatest r db'
    unfolding latest_document IsNewest
    version_after-IsLatest none e h =
        insert_version-IsLatest 1
          (subst (IsNewest (document_row prim db_now tenant document 1)) (sym (none_of_first _ e))
            tt)
          h
    version_after-IsLatest (some l) e h =
        elim (Bool-cases (str_eq l.content_hash document.content_hash)) [
          | inl same ↦
              let done = pair_inj (rw same at h) in
              let result = ok_inj done.0 in
              record {
                row = l;
                latest =
                    ap
                      (λ (x : KnowledgeDb).
                        latest_document tenant document.document_key x.documents)
                      (sym done.1)
                    ∙ e;
                same_id = ap (λ (x : IngestResult). x.document_id) result;
                same_version = ap (λ (x : IngestResult). x.version) result;
                content = (str_eq_iff l.content_hash document.content_hash).0 same;
              }
          | inr other ↦
              insert_version-IsLatest (l.version + 1)
                (IsNewest-weaken l (document_row prim db_now tenant document (l.version + 1)) _
                  (omega arith) (IsNewest-of_first l _ e))
                (rw other at h)
        ]

    create_version-IsLatest :
        create_version prim db_now tenant document chunks model_key db ≡ (ok r, db')
        → IsLatest r db'
    unfolding create_version
    create_version-IsLatest h =
        elim (Bool-cases (is_stable_key 200 model_key && unique_chunks chunks)) [
          | inl q ↦ version_after-IsLatest _ refl (rw q at h)
          | inr q ↦ absurd (raise_ne (pair_inj (rw q at h)).0)
        ]

  -- What is ingested again with the same content is passed over: once a document is stored, a call
  -- with the same key and content hash, whatever its title, its chunks and its model are as long as
  -- they are well-formed, answers with the version that is stored and changes nothing.
  pub create_version_again :
      (db_now : ℕ) (chunks : List ChunkDraft) (model_key : Str) (db db' : KnowledgeDb)
      (r : IngestResult)
      → create_version prim db_now tenant document chunks model_key db ≡ (ok r, db')
      → (later : ℕ) (again : DocumentDraft) (chunks' : List ChunkDraft) (model_key' : Str)
      → again.document_key ≡ document.document_key
      → again.content_hash ≡ document.content_hash
      → (is_stable_key 200 model_key' && unique_chunks chunks') ≡ true
      → create_version prim later tenant again chunks' model_key' db'
        ≡ (ok (record r { chunk_count = 0; skipped = true }), db')
  unfolding create_version
  create_version_again db_now chunks model_key db db' r h later again chunks' model_key' key content
        ok' =
      let l = create_version-IsLatest db_now chunks model_key db db' r h in
      let found : latest_document tenant again.document_key db'.documents ≡ some l.row =
        ap (λ (k : Str). latest_document tenant k db'.documents) key ∙ l.latest in
      let same : str_eq l.row.content_hash again.content_hash ≡ true =
        (str_eq_iff l.row.content_hash again.content_hash).1 (l.content ∙ sym content) in
      let answer : skipped_result prim l.row ≡ record r { chunk_count = 0; skipped = true } = λ i.
        record {
          document_id = l.same_id i;
          version = l.same_version i;
          chunk_count = 0;
          skipped = true;
        } in
      rw (ok', found, same) (ap (λ (x : IngestResult). (ok x, db')) answer)
