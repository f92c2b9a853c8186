-- ===== src/Knowledge/Tests.antt =====
-- The theorems about the knowledge base at one document.
use enterprise_work_order_ai.Prelude.{
  ◌≢◌, ◌≤◌, ℕ, zero, suc, ◌+◌, ◌<◌, ◌≤◌, ◌≡◌, ◌≢◌, refl, sym, ap, ◌∙◌, true, false, some, List, [],
  ◌∷◌, ◌++◌, any, All, arith, length,
}
use enterprise_work_order_ai.Prelude.Exec.{ok, raise, Exec}
use enterprise_work_order_ai.Prelude.Sql.{first_where, update_where, insert_by, order_by}
use enterprise_work_order_ai.Prelude.Text.{Str, codes, is_space, lstrip, strip, join_lines}
use enterprise_work_order_ai.Knowledge.Embedding.{
  claim, succeed, due_candidates, join_chunks, locked_job, upsert_embedding, normalize_embedding,
  settle, activate_latest,
}
use enterprise_work_order_ai.Knowledge.History.{
  created, claimed, embedded, empty, Reach, here, next,
}
use enterprise_work_order_ai.Knowledge.History.Reached.{Reach-IsSound}
use enterprise_work_order_ai.Knowledge.History.Sound.{is_active, IsSound}
use enterprise_work_order_ai.Knowledge.Loader.{
  split_text, chunk_policy_markdown, parse_markdown_sections, split_lines, lines_from,
  is_line_break, heading_match, read_lines, flush_section, build_policy_chunks, chunks_from,
  section_chunks,
}
use enterprise_work_order_ai.Knowledge.Loader.Windows.{IsChunk, Covered, split_text_returns}
use enterprise_work_order_ai.Knowledge.Models.{PolicyChunk, DocumentDraft, ChunkDraft}
use enterprise_work_order_ai.Knowledge.Reingested.{create_version_again}
use enterprise_work_order_ai.Knowledge.Repository.{
  Primitives, create_version, insert_version, latest_document, unique_chunks, valid_content_hash,
}
use enterprise_work_order_ai.Knowledge.History.InStep.{IsInStep}
use enterprise_work_order_ai.Knowledge.History.Shown.{Reach-IsInStep}
use enterprise_work_order_ai.Knowledge.Ingest.{document_draft, chunk_drafts, count_tokens, ingest}
use enterprise_work_order_ai.Knowledge.Ingest.Accepted.{ingest_stores}
use enterprise_work_order_ai.Knowledge.Ingest.Limits.{IsText, IsWithinLimits}
use enterprise_work_order_ai.Knowledge.Ingest.Answers.{Ingested}
use enterprise_work_order_ai.Knowledge.Ingest.Keys.{IsDecimal}
use enterprise_work_order_ai.Knowledge.Worker.{
  EmbedError, WorkerState, find_claim, set_claim, pop_claim, remember, claim_batch, handle_embedded,
  embed_job, embed_jobs, run_embeddings,
}
use enterprise_work_order_ai.Knowledge.Worker.Released.{run_embeddings-none_left}
use enterprise_work_order_ai.Knowledge.Worker.Tables.{table_services}
use enterprise_work_order_ai.Knowledge.Rows.{value_error, KnowledgeDb, insert_all}

abbrev copies : ℕ → ℕ → Str
copies c zero = []
copies c (suc n) = c ∷ copies c n

abbrev total : Str → ℕ
total [] = 0
total (c ∷ s) = c + total s

abbrev prim : Primitives
prim = record {
  identity_uuid = total;
  sha256 = λ s. s;
  uuid_text = λ n. n ∷ [];
  decimal = λ n. n ∷ [];
  is_finite = λ n. true;
  euclidean_norm = λ v. 1;
  divide = λ a b. a;
}

abbrev document : DocumentDraft
document = record {
  document_key = codes "k";
  title = codes "t";
  source_uri = codes "u";
  content_hash = codes "h";
}

abbrev chunk : ChunkDraft
chunk = record {
  chunk_key = codes "k:0:0";
  section = codes "s";
  content = codes "x";
  content_hash = copies b'a' 64;
  token_count = 1;
  ordinal = 0;
}

created_db : KnowledgeDb
unfolding create_version
created_db = (create_version prim 5 1 document (chunk ∷ []) (codes "m") empty).1

claimed_db : KnowledgeDb
claimed_db = (claim (λ _. false) 1 10 (codes "m") 6 created_db).1

embedded_db : KnowledgeDb
embedded_db = (succeed prim 1 1825 (copies 3 512) (copies b'a' 64) 7 claimed_db).1

history : Reach prim empty embedded_db
unfolding embedded_db claimed_db created_db
history =
    next
      (next (next here (created 5 1 document (chunk ∷ []) (codes "m") refl))
        (claimed (λ _. false) 1 10 (codes "m") 6 refl))
      (embedded 1 1825 (copies 3 512) (copies b'a' 64) 7 refl)

-- The one chunk is embedded, so its version is shown.
version_shown : any (λ d. is_active d.status) embedded_db.documents ≡ true
unfolding embedded_db claimed_db created_db create_version insert_version insert_all latest_document
    unique_chunks claim due_candidates join_chunks succeed locked_job upsert_embedding
    normalize_embedding settle activate_latest first_where update_where insert_by order_by lstrip
    strip is_space valid_content_hash
version_shown = refl

Reach-IsSound_example : IsSound embedded_db
Reach-IsSound_example = Reach-IsSound prim embedded_db history

first_created :
    create_version prim 5 1 document (chunk ∷ []) (codes "m") empty
    ≡ (ok (record { document_id = 109; version = 1; chunk_count = 1; skipped = false }), created_db)
unfolding created_db create_version insert_version insert_all latest_document unique_chunks
    insert_by order_by lstrip strip is_space
first_created = refl

create_version_again_example :
    create_version prim 9 1 document (chunk ∷ []) (codes "m") created_db
    ≡ (ok (record { document_id = 109; version = 1; chunk_count = 0; skipped = true }), created_db)
unfolding unique_chunks lstrip strip is_space
create_version_again_example =
    create_version_again prim 1 document 5 (chunk ∷ []) (codes "m") empty created_db
      (record { document_id = 109; version = 1; chunk_count = 1; skipped = false }) first_created 9
      document (chunk ∷ []) (codes "m") refl refl refl

abbrev long_text : Str
long_text = copies b'x' 7

split_text_returns_example :
    (chunks : List Str) × (split_text 5 2 long_text ≡ some chunks)
    × All (λ (c : Str). length c ≤ 5) chunks
    × (5 < length long_text
        → All (IsChunk 5 2) chunks
          × ((i : ℕ) → i < length long_text → Covered 5 2 long_text i chunks))
split_text_returns_example = split_text_returns 5 2 (omega arith) long_text

Reach-IsInStep_example : IsInStep embedded_db
Reach-IsInStep_example = Reach-IsInStep prim embedded_db history

-- A provider that embeds every text in the same way.
abbrev embed : Str → Exec KnowledgeDb EmbedError (List (List ℕ))
embed content db = (ok (copies 3 512 ∷ []), db)

abbrev clock : KnowledgeDb → ℕ
clock _ = 6

after_run : WorkerState KnowledgeDb
after_run =
    (run_embeddings (table_services prim (λ _. false) embed (codes "m") clock 300) 1 10
      (created_db, [])).1

run_returns :
    run_embeddings
      (table_services prim (λ _. false) embed (codes "m") clock 300)
      1
      10
      (created_db, [])
    ≡ (
      ok (record { claimed = 1; succeeded = 1; retried = 0; failed = 0; completed_at = 6 }),
      after_run,
    )
unfolding after_run created_db create_version insert_version insert_all latest_document
    unique_chunks claim due_candidates join_chunks succeed locked_job upsert_embedding
    normalize_embedding settle activate_latest first_where update_where insert_by order_by lstrip
    strip is_space valid_content_hash run_embeddings claim_batch embed_jobs embed_job
    handle_embedded remember find_claim set_claim pop_claim
run_returns = refl

run_embeddings-none_left_example : after_run.1 ≡ []
run_embeddings-none_left_example =
    run_embeddings-none_left (table_services prim (λ _. false) embed (codes "m") clock 300) 1 10
      (created_db, []) after_run
      (record { claimed = 1; succeeded = 1; retried = 0; failed = 0; completed_at = 6 }) refl
      run_returns

length-copies : (n : ℕ) → length (copies b'1' n) ≡ n
length-copies zero = refl
length-copies (suc n) = ap suc (length-copies n)

copies-no_colon : (n : ℕ) → All (λ (c : ℕ). c ≢ 58) (copies b'1' n)
copies-no_colon zero = tt
copies-no_colon (suc n) = ((λ h. omega (arith, h)), copies-no_colon n)

-- An integer is written with as many ones.
abbrev unary : Primitives
unary = record prim { decimal = copies b'1' }

unary-IsDecimal : IsDecimal (copies b'1')
unary-IsDecimal = record {
  injective = λ m n h. sym (length-copies m) ∙ ap length h ∙ length-copies n;
  no_colon = copies-no_colon;
}

abbrev markdown : Str
markdown = codes "## s" ++ (10 ∷ codes "x")

one_letter : (most c : ℕ) → 1 ≤ most → c ≢ 0 → strip (c ∷ []) ≡ c ∷ [] → IsText most (c ∷ [])
one_letter most c h k e = record {
  present = λ empty. cc;
  trimmed = e;
  short = omega (arith, h);
  no_nul = (k, tt);
}

ingest_stores_example :
    (chunks : List PolicyChunk) × (chunk_policy_markdown
        (copies b'1')
        (codes "k")
        (codes "t")
        markdown
      ≡ some chunks)
    × (¬ IsWithinLimits chunks
        → ingest unary 5 1 (codes "k") (codes "t") markdown (codes "u") (codes "m") empty
          ≡ (raise value_error, empty))
    × (IsWithinLimits chunks
        → Ingested unary empty 5 1
            (document_draft unary (codes "k") (codes "t") markdown (codes "u"))
            (chunk_drafts unary 0 chunks)
            (codes "m")
            (ingest unary 5 1 (codes "k") (codes "t") markdown (codes "u") (codes "m") empty))
unfolding lstrip strip is_space
ingest_stores_example =
    ingest_stores unary unary-IsDecimal 5 1 (codes "k") (codes "t") markdown (codes "u") (codes "m")
      empty
      (record {
        key_text = one_letter 160 b'k' (omega arith) (λ h. omega (arith, h)) refl;
        title_text = one_letter 300 b't' (omega arith) (λ h. omega (arith, h)) refl;
        not_blank = λ h. cc;
        no_nul = ground arith;
        uri_text = one_letter 2048 b'u' (omega arith) (λ h. omega (arith, h)) refl;
      })
      (one_letter 200 b'm' (omega arith) (λ h. omega (arith, h)) refl)

-- The text has one chunk, which is stored.
one_ingested :
    (ingest unary 5 1 (codes "k") (codes "t") markdown (codes "u") (codes "m") empty).0
    ≡ ok (record { document_id = 109 + 48; version = 1; chunk_count = 1; skipped = false })
unfolding ingest chunk_policy_markdown parse_markdown_sections split_lines lines_from is_line_break
    heading_match read_lines flush_section build_policy_chunks chunks_from split_text section_chunks
    chunk_drafts count_tokens create_version insert_version insert_all latest_document unique_chunks
    insert_by order_by lstrip strip is_space join_lines
one_ingested = refl
