-- ===== src/Knowledge/Ingest.antt =====
-- The ingestion of a document (`KnowledgeIngestor` in apps/ai-service/app/knowledge/ingest.py).
-- The texts are ones that UTF-8 can encode.
pub mod Keys
pub mod Answers
pub mod Limits
pub mod Accepted
use enterprise_work_order_ai.Prelude.{
  ℕ, suc, Bool, true, false, not, ◌&&◌, ◌||◌, Option, none, some, List, [], ◌∷◌, leb, ◌==◌, length,
  any, all, if◌then◌else◌,
}
use enterprise_work_order_ai.Prelude.Exec.{Outcome, ok, raise, Exec}
use enterprise_work_order_ai.Prelude.Text.{Str, is_space, strip, nonempty, str_eq}
use enterprise_work_order_ai.Knowledge.Loader.{chunk_policy_markdown}
use enterprise_work_order_ai.Knowledge.Models.{PolicyChunk, DocumentDraft, ChunkDraft, IngestResult}
use enterprise_work_order_ai.Knowledge.Repository.{Primitives, has_nul, create_version}
use enterprise_work_order_ai.Knowledge.Rows.{Failure, value_error, KnowledgeDb}

-- `[A-Za-z0-9_]`
abbrev pub is_word : ℕ → Bool
is_word c =
    (leb b'A' c && leb c b'Z')
    || (leb b'a' c && leb c b'z')
    || (leb b'0' c && leb c b'9')
    || c == b'_'

-- The matches of `_TOKEN_PATTERN`: each run of word characters, and each other character that is no
-- space, an ideograph too; `in_word` tells that a run goes on.
unfoldable pub count_tokens : Bool → Str → ℕ
unfolding is_space
count_tokens in_word [] = 0
count_tokens in_word (c ∷ s) =
    let rest = count_tokens (is_word c) s in
    if is_space c || (is_word c && in_word) then rest else suc rest

-- `not value or value.strip() != value or len(value) > most`, negated.
abbrev pub is_trimmed : ℕ → Str → Bool
is_trimmed most value = nonempty value && str_eq (strip value) value && leb (length value) most

-- What `_validate_document_input` lets pass.
abbrev pub valid_document_input : (document_key title markdown source_uri : Str) → Bool
valid_document_input document_key title markdown source_uri =
    is_trimmed 160 document_key
    && is_trimmed 300 title
    && nonempty (strip markdown)
    && is_trimmed 2048 source_uri
    && not (any has_nul (document_key ∷ title ∷ markdown ∷ source_uri ∷ []))

-- There is a chunk, and no heading and no key is too long.
abbrev pub valid_chunks : List PolicyChunk → Bool
valid_chunks chunks =
    leb 1 (length chunks)
    && all (λ c. leb (length c.section) 500) chunks
    && all (λ c. leb (length c.chunk_id) 200) chunks

module _ (prim : Primitives) where
  -- The chunks, numbered from `ordinal` on; `stable_content_hash` is SHA-256.
  unfoldable pub chunk_drafts : ℕ → List PolicyChunk → List ChunkDraft
  unfolding count_tokens
  chunk_drafts ordinal [] = []
  chunk_drafts ordinal (c ∷ chunks) =
      record {
        chunk_key = c.chunk_id;
        section = c.section;
        content = c.text;
        content_hash = prim.sha256 c.text;
        token_count = count_tokens false c.text;
        ordinal = ordinal;
      }
      ∷ chunk_drafts (suc ordinal) chunks

  abbrev pub document_draft : (document_key title markdown source_uri : Str) → DocumentDraft
  document_draft document_key title markdown source_uri = record {
    document_key = document_key;
    title = title;
    source_uri = source_uri;
    content_hash = prim.sha256 markdown;
  }

  -- From the chunks on; `none` stands for a split that does not end, which there is not.
  abbrev pub store_chunks :
      ℕ
      → ℕ
      → DocumentDraft
      → Str
      → Option (List PolicyChunk)
      → Exec KnowledgeDb Failure IngestResult
  store_chunks db_now tenant document model_key none db = (raise value_error, db)
  store_chunks db_now tenant document model_key (some chunks) db =
      if valid_chunks chunks
      then create_version prim db_now tenant document (chunk_drafts 0 chunks) model_key db
      else (raise value_error, db)

  -- `KnowledgeIngestor.ingest`
  unfoldable pub ingest :
      (db_now tenant : ℕ) (document_key title markdown source_uri model_key : Str)
      → Exec KnowledgeDb Failure IngestResult
  unfolding chunk_policy_markdown chunk_drafts
  ingest db_now tenant document_key title markdown source_uri model_key db =
      if valid_document_input document_key title markdown source_uri
      then store_chunks db_now tenant (document_draft document_key title markdown source_uri)
          model_key (chunk_policy_markdown prim.decimal document_key title markdown) db
      else (raise value_error, db)
