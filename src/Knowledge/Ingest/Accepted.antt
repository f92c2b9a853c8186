-- ===== src/Knowledge/Ingest/Accepted.antt =====
-- What the store makes of an ingested document.
use enterprise_work_order_ai.Prelude.{
  ℕ, suc, ◌≤◌, ◌<◌, ◌≡◌, ◌≢◌, refl, sym, ap, ◌∙◌, true, false, ◌&&◌, some, List, [], ◌∷◌, ◌++◌, map,
  arith, length, leb, ◌==◌, All, Bool-cases, inl, inr,
}
use enterprise_work_order_ai.Prelude.Exec.{raise}
use enterprise_work_order_ai.Prelude.Text.{Str, str_eq, str_eq_iff, contains, elem}
use enterprise_work_order_ai.Knowledge.Ingest.{valid_chunks, chunk_drafts, document_draft, ingest}
use enterprise_work_order_ai.Knowledge.Ingest.Keys.{IsDecimal, Unique, chunks_from-Unique}
use enterprise_work_order_ai.Knowledge.Ingest.Limits.{
  IsText, IsWellFormed, IsText-is_stable_key, IsWellFormed-valid, IsWithinLimits,
  valid_chunks-IsWithinLimits,
}
use enterprise_work_order_ai.Knowledge.Ingest.Answers.{Ingested, version_after-Ingested}
use enterprise_work_order_ai.Knowledge.Loader.{
  section_chunks, chunks_from, parse_markdown_sections, build_policy_chunks, chunk_policy_markdown,
}
use enterprise_work_order_ai.Knowledge.Models.{PolicyChunk, ChunkDraft}
use enterprise_work_order_ai.Knowledge.Repository.{
  Primitives, distinct_ordinals, unique_chunks, latest_document, create_version,
}
use enterprise_work_order_ai.Knowledge.Rows.{value_error, KnowledgeDb}
use enterprise_work_order_ai.Knowledge.Loader.Windows.{split_text_returns}
use enterprise_work_order_ai.Quality.Schema.{distinct_count}

contains-absent :
    (s : Str) (keys : List Str) → All (λ (t : Str). s ≢ t) keys → contains keys s ≡ false
contains-absent s [] h = refl
contains-absent s (t ∷ keys) h = elim (Bool-cases (str_eq t s)) [
  | inl e ↦ absurd (h.0 (sym ((str_eq_iff t s).0 e)))
  | inr e ↦ rw e (contains-absent s keys h.1)
]

distinct_count-Unique : (keys : List Str) → Unique keys → distinct_count keys ≡ length keys
distinct_count-Unique [] h = refl
distinct_count-Unique (s ∷ keys) h =
    rw (contains-absent s keys h.0) (ap suc (distinct_count-Unique keys h.1))

module _ (prim : Primitives) where
  abbrev ordinals : List ChunkDraft → List ℕ
  ordinals = map (λ (c : ChunkDraft). c.ordinal)

  elem-later :
      (m n : ℕ) (chunks : List PolicyChunk)
      → m < n
      → elem m (ordinals (chunk_drafts prim n chunks)) ≡ false
  unfolding chunk_drafts
  elem-later m n [] h = refl
  elem-later m n (c ∷ chunks) h = ground (arith, h, elem-later m (suc n) chunks (omega (arith, h)))

  distinct_ordinals-drafts :
      (n : ℕ) (chunks : List PolicyChunk)
      → distinct_ordinals (ordinals (chunk_drafts prim n chunks)) ≡ length chunks
  unfolding chunk_drafts
  distinct_ordinals-drafts n [] = refl
  distinct_ordinals-drafts n (c ∷ chunks) =
      rw (elem-later n (suc n) chunks (omega arith))
        (ap suc (distinct_ordinals-drafts (suc n) chunks))

  keys-drafts :
      (n : ℕ) (chunks : List PolicyChunk)
      → map (λ (c : ChunkDraft). c.chunk_key) (chunk_drafts prim n chunks)
        ≡ map (λ (c : PolicyChunk). c.chunk_id) chunks
  unfolding chunk_drafts
  keys-drafts n [] = refl
  keys-drafts n (c ∷ chunks) = ap (◌∷◌ c.chunk_id) (keys-drafts (suc n) chunks)

  length-drafts :
      (n : ℕ) (chunks : List PolicyChunk) → length (chunk_drafts prim n chunks) ≡ length chunks
  unfolding chunk_drafts
  length-drafts n [] = refl
  length-drafts n (c ∷ chunks) = ap suc (length-drafts (suc n) chunks)

  length-keys :
      (chunks : List PolicyChunk)
      → length (map (λ (c : PolicyChunk). c.chunk_id) chunks) ≡ length chunks
  length-keys [] = refl
  length-keys (c ∷ chunks) = ap suc (length-keys chunks)

  -- Where `str` of two integers is never the same text and has no colon, the chunks of a document
  -- that has any are ones that the store takes: their keys and their ordinals are told apart,
  -- whatever the document's key, its title and its text are.
  chunk_drafts_accepted :
      IsDecimal prim.decimal
      → (document_key title markdown : Str) (chunks : List PolicyChunk)
      → chunk_policy_markdown prim.decimal document_key title markdown ≡ some chunks
      → 1 ≤ length chunks
      → unique_chunks (chunk_drafts prim 0 chunks) ≡ true
  unfolding unique_chunks chunk_policy_markdown build_policy_chunks
  chunk_drafts_accepted digits document_key title markdown chunks h some_there =
      let (_, unique) =
        chunks_from-Unique prim.decimal document_key title digits 0
          (parse_markdown_sections markdown).1 chunks h in
      let keys : distinct_count (map (λ (c : ChunkDraft). c.chunk_key) (chunk_drafts prim 0 chunks))
          ≡ length chunks =
        ap distinct_count (keys-drafts 0 chunks)
        ∙ distinct_count-Unique (map (λ (c : PolicyChunk). c.chunk_id) chunks) unique
        ∙ length-keys chunks in
      rw (keys, distinct_ordinals-drafts 0 chunks, length-drafts 0 chunks)
        (counted (length chunks) some_there)
    where
      counted : (n : ℕ) → 1 ≤ n → (leb 1 n && n == n && n == n) ≡ true
      counted n k = ground (arith, k)

-- The sections of a text are split in finitely many turns.
chunks_from_returns :
    (decimal : ℕ → Str) (document_id title : Str) (i : ℕ) (sections : List (Str × Str))
    → (chunks : List PolicyChunk) × (chunks_from decimal document_id title i sections ≡ some chunks)
unfolding chunks_from
chunks_from_returns decimal document_id title i [] = ([], refl)
chunks_from_returns decimal document_id title i (s ∷ sections) =
    let (texts, split, _, _) = split_text_returns 500 50 (omega arith) s.1 in
    let (later, rest) = chunks_from_returns decimal document_id title (suc i) sections in
    (section_chunks decimal document_id title i 0 s.0 texts ++ later, rw (split, rest) refl)

chunk_policy_markdown_returns :
    (decimal : ℕ → Str) (document_id title markdown : Str)
    → (chunks : List PolicyChunk) × (chunk_policy_markdown decimal document_id title markdown
        ≡ some chunks)
unfolding chunk_policy_markdown build_policy_chunks
chunk_policy_markdown_returns decimal document_id title markdown =
    chunks_from_returns decimal document_id title 0 (parse_markdown_sections markdown).1

module _ (prim : Primitives) (digits : IsDecimal prim.decimal) (db_now tenant : ℕ)
    (document_key title markdown source_uri model_key : Str) (db : KnowledgeDb) where
  -- What an ingestion does with texts that are within their lengths, trimmed, not blank and free of
  -- NUL, where `str` of two integers is
  -- never one text and has no colon. The text is cut into chunks in finitely many turns. If there is
  -- none, or a heading has more than 500 characters or a key more than 200, a `ValueError` is raised
  -- and nothing changes. Else the chunks are never turned down: either the latest version of the
  -- key has the document's content and nothing changes; or a row that waits for its embeddings is
  -- appended, as version one of a new key or as the version after the latest, whose content is
  -- another; or a constraint of the tables refuses the transaction and nothing changes.
  pub ingest_stores :
      IsWellFormed document_key title markdown source_uri
      → IsText 200 model_key
      → (chunks : List PolicyChunk) × (chunk_policy_markdown prim.decimal document_key title
            markdown
          ≡ some chunks)
        × (¬ IsWithinLimits chunks
            → ingest prim db_now tenant document_key title markdown source_uri model_key db
              ≡ (raise value_error, db))
        × (IsWithinLimits chunks
            → Ingested prim db db_now tenant
                (document_draft prim document_key title markdown source_uri)
                (chunk_drafts prim 0 chunks)
                model_key
                (ingest prim db_now tenant document_key title markdown source_uri model_key db))
  unfolding ingest create_version
  ingest_stores well_formed model =
      let input = IsWellFormed-valid document_key title markdown source_uri well_formed in
      let key = IsText-is_stable_key 200 model_key model in
      let (chunks, cut) = chunk_policy_markdown_returns prim.decimal document_key title markdown in
      (
        chunks,
        cut,
        (λ bad. elim (Bool-cases (valid_chunks chunks)) [
          | inl good ↦ absurd (bad ((valid_chunks-IsWithinLimits chunks).0 good))
          | inr e ↦ rw (input, cut, e) refl
        ]),
        (λ limits.
            rw
              (
                input,
                cut,
                (valid_chunks-IsWithinLimits chunks).1 limits,
                key,
                chunk_drafts_accepted prim digits document_key title markdown chunks cut
                    limits.some_there,
              )
              (version_after-Ingested prim db db_now tenant
                (document_draft prim document_key title markdown source_uri)
                (chunk_drafts prim 0 chunks) model_key
                (latest_document tenant document_key db.documents) refl)),
      )
