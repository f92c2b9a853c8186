-- ===== src/Knowledge/Ingest/Answers.antt =====
-- What the store answers to the chunks of a document (`create_version` in
-- apps/ai-service/app/knowledge/repository.py), from its latest version on.
use mathlib.Core.Option.{some-injective}
use mathlib.Core.Path.{subst}
use enterprise_work_order_ai.Prelude.{
  ℕ, ◌+◌, ◌≤◌, ◌≡◌, ◌≢◌, ◌⊎◌, inl, inr, refl, sym, ap, ◌∙◌, Bool, true, false, Option, none, some,
  List, [], ◌∷◌, ◌++◌, arith, length, all, any, ==_iff, keep_if, All, All-weaken, All-of_keep_if,
  Bool-cases, if◌then◌else◌, leb→le,
}
use enterprise_work_order_ai.Prelude.Exec.{Outcome, ok, raise}
use enterprise_work_order_ai.Prelude.Sql.{insert_by, order_by}
use enterprise_work_order_ai.Prelude.Text.{Str, str_eq, str_eq_iff}
use enterprise_work_order_ai.Knowledge.Models.{DocumentDraft, ChunkDraft, IngestResult}
use enterprise_work_order_ai.Knowledge.Repository.{
  Primitives, of_key, newer_first, first_row, latest_document, document_row, commit_version,
  insert_version, version_after,
}
use enterprise_work_order_ai.Knowledge.Reingested.{IsNewest, IsNewest-of_first, none_of_first}
use enterprise_work_order_ai.Knowledge.Rows.{
  Failure, integrity_error, Visibility, DocumentRow, ChunkRow, EmbeddingJobRow, KnowledgeDb,
  insert_new, document_clash, chunk_of_job,
}

-- The document version is of the tenant's key.
abbrev pub IsOf : ℕ → Str → DocumentRow → Type 0
IsOf tenant key d = (d.tenant_id ≡ tenant) × (d.document_key ≡ key)

IsOf-of_key :
    (tenant : ℕ) (key : Str) (d : DocumentRow) → IsOf tenant key d → of_key tenant key d ≡ true
IsOf-of_key tenant key d (own, same) =
    rw ((==_iff d.tenant_id tenant).1 own, (str_eq_iff d.document_key key).1 same) refl

of_key-IsOf :
    (tenant : ℕ) (key : Str) (d : DocumentRow) → of_key tenant key d ≡ true → IsOf tenant key d
of_key-IsOf tenant key d h =
    (ground (arith, h), (str_eq_iff d.document_key key).0 (ground (arith, h)))

-- The row stands in the table.
abbrev pub Among : DocumentRow → List DocumentRow → Type 0
Among d [] = ⊥
Among d (x ∷ rows) = (d ≡ x) ⊎ Among d rows

-- The row is of the key and in the table, and no version of the key is newer.
pub record IsLatestOf (tenant : ℕ) (key : Str) (rows : List DocumentRow) (d : DocumentRow)
    : Type 0 where
  pub there : Among d rows
  pub own : IsOf tenant key d
  pub newest : All (λ e. IsOf tenant key e → e.version ≤ d.version) rows

Among-insert_by :
    (d r : DocumentRow) (rows : List DocumentRow)
    → Among d (insert_by newer_first r rows)
    → Among d (r ∷ rows)
unfolding insert_by
Among-insert_by d r [] h = h
Among-insert_by d r (q ∷ rows) h = split (newer_first q r) (Among-insert_by d r rows) h
  where
    split :
        (b : Bool)
        → (Among d (insert_by newer_first r rows) → Among d (r ∷ rows))
        → Among d (if b then q ∷ insert_by newer_first r rows else r ∷ q ∷ rows)
        → Among d (r ∷ q ∷ rows)
    split true later (inl e) = inr (inl e)
    split true later (inr m) = elim (later m) [ inl e ↦ inl e | inr k ↦ inr (inr k) ]
    split false later m = m

Among-order_by :
    (d : DocumentRow) (rows : List DocumentRow) → Among d (order_by newer_first rows) → Among d rows
unfolding order_by
Among-order_by d [] h = h
Among-order_by d (r ∷ rows) h = elim (Among-insert_by d r (order_by newer_first rows) h) [
  | inl e ↦ inl e
  | inr m ↦ inr (Among-order_by d rows m)
]

Among-keep_if :
    (q : DocumentRow → Bool) (d : DocumentRow) (rows : List DocumentRow)
    → Among d (keep_if q rows)
    → Among d rows × (q d ≡ true)
Among-keep_if q d [] h = absurd h
Among-keep_if q d (r ∷ rows) h = split (Bool-cases (q r)) (Among-keep_if q d rows)
  where
    split :
        (q r ≡ true) ⊎ (q r ≡ false)
        → (Among d (keep_if q rows) → Among d rows × (q d ≡ true))
        → Among d (r ∷ rows) × (q d ≡ true)
    split (inl e) later = elim (rw e at h) [
      | inl same ↦ (inl same, ap q same ∙ e)
      | inr m ↦ (inr (later m).0, (later m).1)
    ]
    split (inr e) later =
        let k : Among d (keep_if q rows) = rw e at h in (inr (later k).0, (later k).1)

first_row-Among :
    (d : DocumentRow) (rows : List DocumentRow) → first_row rows ≡ some d → Among d rows
first_row-Among d [] h = cc
first_row-Among d (r ∷ rows) h = inl (sym (some-injective r d h))

latest_document-IsLatestOf :
    (tenant : ℕ) (key : Str) (rows : List DocumentRow) (d : DocumentRow)
    → latest_document tenant key rows ≡ some d
    → IsLatestOf tenant key rows d
unfolding latest_document IsNewest
latest_document-IsLatestOf tenant key rows d h =
    let (there, own) =
      Among-keep_if (of_key tenant key) d rows (Among-order_by d _ (first_row-Among d _ h)) in
    record {
      there = there;
      own = of_key-IsOf tenant key d own;
      newest =
          All-weaken _ _ rows
            (λ e k of. leb→le e.version d.version (k (IsOf-of_key tenant key e of)))
            (All-of_keep_if _ (of_key tenant key) rows (IsNewest-of_first d _ h));
    }

latest_document-none :
    (tenant : ℕ) (key : Str) (rows : List DocumentRow)
    → latest_document tenant key rows ≡ none
    → All (λ e. ¬ IsOf tenant key e) rows
unfolding latest_document
latest_document-none tenant key rows h =
    All-weaken _ _ rows (λ e k of. k (IsOf-of_key tenant key e of))
      (All-of_keep_if (λ e. ⊥) (of_key tenant key) rows
        (subst (All (λ (e : DocumentRow). ⊥)) (sym (none_of_first _ h)) tt))

-- The document is passed over: the latest version of its key has its content.
pub record IsPassedOver (tenant : ℕ) (document : DocumentDraft) (rows : List DocumentRow)
    (result : IngestResult) : Type 0 where
  pub latest : DocumentRow
  pub is_latest : IsLatestOf tenant document.document_key rows latest
  pub content : latest.content_hash ≡ document.content_hash
  pub same_id : result.document_id ≡ latest.id
  pub same_version : result.version ≡ latest.version
  pub nothing_new : (result.chunk_count ≡ 0) × (result.skipped ≡ true)

-- The version is the first one of its key, or the one after the latest, whose content is another.
abbrev pub IsNext : ℕ → DocumentDraft → List DocumentRow → ℕ → Type 0
IsNext tenant document rows version =
    (All (λ e. ¬ IsOf tenant document.document_key e) rows × (version ≡ 1))
    ⊎ ((l : DocumentRow) × IsLatestOf tenant document.document_key rows l
        × (l.content_hash ≢ document.content_hash)
        × (version ≡ l.version + 1))

-- The document is stored as a new row that waits for its embeddings.
pub record IsStored (tenant : ℕ) (document : DocumentDraft) (chunks : List ChunkDraft)
    (rows rows' : List DocumentRow) (result : IngestResult) : Type 0 where
  pub new : DocumentRow
  pub appended : rows' ≡ rows ++ new ∷ []
  pub own : IsOf tenant document.document_key new
  pub text : (new.title ≡ document.title) × (new.content_hash ≡ document.content_hash)
  pub waits : new.status ≡ Visibility.pending
  pub next_version : IsNext tenant document rows new.version
  pub same_version : result.version ≡ new.version
  pub same_id : result.document_id ≡ new.id
  pub counted : (result.chunk_count ≡ length chunks) × (result.skipped ≡ false)

insert_new-appends :
    (new : DocumentRow) (rows : List DocumentRow) {rows' : List DocumentRow}
    → insert_new document_clash new rows ≡ some rows'
    → rows' ≡ rows ++ new ∷ []
insert_new-appends new rows {rows'} h = split (any (document_clash new) rows) h
  where
    split :
        (b : Bool)
        → ◌≡◌ {A = Option (List DocumentRow)}
            (if b then none else some (rows ++ new ∷ []))
            (some rows')
        → rows' ≡ rows ++ new ∷ []
    split true k = cc
    split false k = sym (some-injective (rows ++ new ∷ []) rows' k)

module _ (prim : Primitives) (db : KnowledgeDb) where
  -- A refused transaction, or one that appends the document.
  abbrev Committed :
      DocumentRow → IngestResult → Outcome Failure IngestResult × KnowledgeDb → Type 0
  Committed new result out =
      (out ≡ (raise integrity_error, db))
      ⊎ ((db' : KnowledgeDb) × (out ≡ (ok result, db'))
          × (db'.documents ≡ db.documents ++ new ∷ []))

  commit_version-Committed :
      (result : IngestResult) (new : DocumentRow) (jobs : List EmbeddingJobRow)
      (d : Option (List DocumentRow)) (c : Option (List ChunkRow))
      (j : Option (List EmbeddingJobRow))
      → insert_new document_clash new db.documents ≡ d
      → Committed new result (commit_version prim result jobs d c j db)
  commit_version-Committed result new jobs (some d) (some c) (some j) e =
      elim (Bool-cases (all (λ x. any (chunk_of_job x) c) jobs)) [
        | inl q ↦ rw q (
            inr (
              record db { documents = d; chunks = c; jobs = j },
              refl,
              insert_new-appends new db.documents e,
            ))
        | inr q ↦ rw q (inl refl)
      ]
  commit_version-Committed result new jobs none c j e = inl refl
  commit_version-Committed result new jobs (some d) none j e = inl refl
  commit_version-Committed result new jobs (some d) (some c) none e = inl refl

  module _ (db_now tenant : ℕ) (document : DocumentDraft) (chunks : List ChunkDraft)
      (model_key : Str) where
    -- The transaction is refused and changes nothing, or the document is passed over and nothing
    -- changes, or it is stored.
    abbrev pub Ingested : Outcome Failure IngestResult × KnowledgeDb → Type 0
    Ingested out =
        (out ≡ (raise integrity_error, db))
        ⊎ ((result : IngestResult) × (db' : KnowledgeDb) × (out ≡ (ok result, db'))
            × (((db' ≡ db) × IsPassedOver tenant document db.documents result)
                ⊎ IsStored tenant document chunks db.documents db'.documents result))

    insert_version-Ingested :
        (version : ℕ)
        → IsNext tenant document db.documents version
        → Ingested (insert_version prim db_now tenant document chunks model_key version db)
    unfolding insert_version
    insert_version-Ingested version next =
        elim (commit_version-Committed _ (document_row prim db_now tenant document version) _ _ _ _
          refl) [
            | inl refused ↦ inl refused
            | inr (db', done, rows) ↦ inr (
              _,
              db',
              done,
              inr (record {
                new = document_row prim db_now tenant document version;
                appended = rows;
                own = (refl, refl);
                text = (refl, refl);
                waits = refl;
                next_version = next;
                same_version = refl;
                same_id = refl;
                counted = (refl, refl);
              }),
            )
          ]

    pub version_after-Ingested :
        (latest : Option DocumentRow)
        → latest_document tenant document.document_key db.documents ≡ latest
        → Ingested (version_after prim db_now tenant document chunks model_key latest db)
    version_after-Ingested none e =
        insert_version-Ingested 1
          (inl (latest_document-none tenant document.document_key db.documents e, refl))
    version_after-Ingested (some l) e =
        let latest : IsLatestOf tenant document.document_key db.documents l =
          latest_document-IsLatestOf tenant document.document_key db.documents l e in
        elim (Bool-cases (str_eq l.content_hash document.content_hash)) [
          | inl same ↦ rw same (
              inr (
                record { document_id = l.id; version = l.version; chunk_count = 0; skipped = true },
                db,
                refl,
                inl (
                  refl,
                  record {
                    latest = l;
                    is_latest = latest;
                    content = (str_eq_iff l.content_hash document.content_hash).0 same;
                    same_id = refl;
                    same_version = refl;
                    nothing_new = (refl, refl);
                  },
                ),
              ))
          | inr other ↦
              let differs : l.content_hash ≢ document.content_hash = λ k.
                true_false (sym ((str_eq_iff l.content_hash document.content_hash).1 k) ∙ other) in
              rw other (insert_version-Ingested (l.version + 1) (inr (l, latest, differs, refl)))
        ]
      where
        true_false : ¬ (true ≡ false)
        true_false k = cc
