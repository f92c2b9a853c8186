-- ===== src/Knowledge/Ingest/Limits.antt =====
-- The texts and the chunks that an ingestion accepts (`_validate_document_input` and the checks of the
-- chunks in apps/ai-service/app/knowledge/ingest.py), as what they demand.
use enterprise_work_order_ai.Prelude.{
  ℕ, ◌≤◌, ◌≡◌, ◌≢◌, ◌↔◌, refl, true, false, List, [], ◌∷◌, arith, length, all, leb, le→leb, leb→le,
  ◌==◌, ==_iff, All, Bool-cases, inl, inr,
}
use enterprise_work_order_ai.Prelude.Text.{Str, strip, nonempty, str_eq_iff}
use enterprise_work_order_ai.Knowledge.Ingest.{is_trimmed, valid_document_input, valid_chunks}
use enterprise_work_order_ai.Knowledge.Models.{PolicyChunk}
use enterprise_work_order_ai.Knowledge.Repository.{has_nul, is_stable_key}

-- A text that is not empty, has no white space at its ends and no NUL, and is not too long.
pub record IsText (most : ℕ) (s : Str) : Type 0 where
  pub present : s ≢ []
  pub trimmed : strip s ≡ s
  pub short : length s ≤ most
  pub no_nul : All (λ c. c ≢ 0) s

pub record IsWellFormed (document_key title markdown source_uri : Str) : Type 0 where
  pub key_text : IsText 160 document_key
  pub title_text : IsText 300 title
  pub not_blank : strip markdown ≢ []
  pub no_nul : All (λ c. c ≢ 0) markdown
  pub uri_text : IsText 2048 source_uri

nonempty-of_ne : (s : Str) → s ≢ [] → nonempty s ≡ true
nonempty-of_ne [] h = absurd (h refl)
nonempty-of_ne (c ∷ s) h = refl

no_nul-has_nul : (s : Str) → All (λ c. c ≢ 0) s → has_nul s ≡ false
no_nul-has_nul [] h = refl
no_nul-has_nul (c ∷ s) h = elim (Bool-cases (c == 0)) [
  | inl e ↦ absurd (h.0 ((==_iff c 0).0 e))
  | inr e ↦ rw e (no_nul-has_nul s h.1)
]

IsText-is_trimmed : (most : ℕ) (s : Str) → IsText most s → is_trimmed most s ≡ true
IsText-is_trimmed most s t =
    rw
      (
        nonempty-of_ne s t.present,
        (str_eq_iff (strip s) s).1 t.trimmed,
        le→leb (length s) most t.short,
      )
      refl

pub IsText-is_stable_key : (most : ℕ) (s : Str) → IsText most s → is_stable_key most s ≡ true
IsText-is_stable_key most s t =
    rw
      (
        nonempty-of_ne s t.present,
        (str_eq_iff (strip s) s).1 t.trimmed,
        le→leb (length s) most t.short,
        no_nul-has_nul s t.no_nul,
      )
      refl

pub IsWellFormed-valid :
    (document_key title markdown source_uri : Str)
    → IsWellFormed document_key title markdown source_uri
    → valid_document_input document_key title markdown source_uri ≡ true
IsWellFormed-valid document_key title markdown source_uri w =
    rw
      (
        IsText-is_trimmed 160 document_key w.key_text,
        IsText-is_trimmed 300 title w.title_text,
        nonempty-of_ne (strip markdown) w.not_blank,
        IsText-is_trimmed 2048 source_uri w.uri_text,
        no_nul-has_nul document_key w.key_text.no_nul,
        no_nul-has_nul title w.title_text.no_nul,
        no_nul-has_nul markdown w.no_nul,
        no_nul-has_nul source_uri w.uri_text.no_nul,
      )
      refl

-- There is a chunk, no heading has more than 500 characters, and no key more than 200.
pub record IsWithinLimits (chunks : List PolicyChunk) : Type 0 where
  pub some_there : 1 ≤ length chunks
  pub headings : All (λ (c : PolicyChunk). length c.section ≤ 500) chunks
  pub keys : All (λ (c : PolicyChunk). length c.chunk_id ≤ 200) chunks

all_within :
    (size : PolicyChunk → ℕ) (most : ℕ) (chunks : List PolicyChunk)
    → (all (λ c. leb (size c) most) chunks ≡ true) ↔ All (λ c. size c ≤ most) chunks
all_within size most [] = (λ h. tt, λ h. refl)
all_within size most (c ∷ chunks) = (
  λ h. (
    leb→le (size c) most (ground (arith, h)),
    (all_within size most chunks).0 (ground (arith, h)),
  ),
  λ h. rw (le→leb (size c) most h.0, (all_within size most chunks).1 h.1) refl,
)

pub valid_chunks-IsWithinLimits :
    (chunks : List PolicyChunk) → (valid_chunks chunks ≡ true) ↔ IsWithinLimits chunks
valid_chunks-IsWithinLimits chunks = (
  λ h. record {
    some_there = ground (arith, h);
    headings = (all_within (λ c. length c.section) 500 chunks).0 (ground (arith, h));
    keys = (all_within (λ c. length c.chunk_id) 200 chunks).0 (ground (arith, h));
  },
  λ l.
      rw
        (
          le→leb 1 (length chunks) l.some_there,
          (all_within (λ c. length c.section) 500 chunks).1 l.headings,
          (all_within (λ c. length c.chunk_id) 200 chunks).1 l.keys,
        )
        refl,
)
