-- ===== src/Knowledge/Ingest/Keys.antt =====
-- The keys of a document's chunks are told apart.
use mathlib.Core.List.{append_assoc}
use mathlib.Core.Path.{subst}
use enterprise_work_order_ai.Prelude.{
  ℕ, suc, ◌≤◌, ◌≡◌, ◌≢◌, refl, sym, ap, ◌∙◌, Option, none, some, List, [], ◌∷◌, ◌++◌, map, arith,
  All, All-append, All-weaken,
}
use enterprise_work_order_ai.Prelude.Text.{Str, codes}
use enterprise_work_order_ai.Knowledge.Loader.{
  section_chunks, append_chunks, chunks_of_texts, chunks_from, split_text,
}
use enterprise_work_order_ai.Knowledge.Models.{PolicyChunk}

-- What `str` of an integer is relied on for: two integers have two texts, and no text has a colon.
pub record IsDecimal (decimal : ℕ → Str) : Type 0 where
  pub injective : (m n : ℕ) → decimal m ≡ decimal n → m ≡ n
  pub no_colon : (n : ℕ) → All (λ (c : ℕ). c ≢ 58) (decimal n)

-- No row of the list stands in it again.
abbrev pub Unique : List Str → Type 0
Unique [] = Unit
Unique (s ∷ keys) = All (λ (t : Str). s ≢ t) keys × Unique keys

tail_of : Str → Str
tail_of [] = []
tail_of (c ∷ s) = s

cons_inj : (a b : ℕ) (s t : Str) → ◌≡◌ {A = Str} (a ∷ s) (b ∷ t) → (a ≡ b) × (s ≡ t)
unfolding tail_of
cons_inj a b s t h = (cc, ap tail_of h)

append_cancel : (p s t : Str) → p ++ s ≡ p ++ t → s ≡ t
append_cancel [] s t h = h
append_cancel (c ∷ p) s t h = append_cancel p s t (cons_inj c c (p ++ s) (p ++ t) h).1

split_colon :
    (a b s t : Str)
    → All (λ (c : ℕ). c ≢ 58) a
    → All (λ (c : ℕ). c ≢ 58) b
    → a ++ 58 ∷ s ≡ b ++ 58 ∷ t
    → (a ≡ b) × (s ≡ t)
split_colon [] [] s t ha hb h = (refl, (cons_inj 58 58 s t h).1)
split_colon [] (c ∷ b) s t ha hb h = absurd (hb.0 (sym (cons_inj 58 c s (b ++ 58 ∷ t) h).0))
split_colon (c ∷ a) [] s t ha hb h = absurd (ha.0 (cons_inj c 58 (a ++ 58 ∷ s) t h).0)
split_colon (c ∷ a) (e ∷ b) s t ha hb h =
    let (first, rest) = cons_inj c e (a ++ 58 ∷ s) (b ++ 58 ∷ t) h in
    let (same, last) = split_colon a b s t ha.1 hb.1 rest in ((λ i. first i ∷ same i), last)

module _ (decimal : ℕ → Str) (document_id title : Str) (digits : IsDecimal decimal) where
  abbrev pub key_of : ℕ → ℕ → Str
  key_of i j = document_id ++ codes ":" ++ decimal i ++ codes ":" ++ decimal j

  key_of-shape : (i j : ℕ) → key_of i j ≡ document_id ++ (58 ∷ (decimal i ++ (58 ∷ decimal j)))
  key_of-shape i j =
      append_assoc (document_id ++ codes ":" ++ decimal i) (codes ":") (decimal j)
      ∙ append_assoc (document_id ++ codes ":") (decimal i) (58 ∷ decimal j)
      ∙ append_assoc document_id (codes ":") (decimal i ++ (58 ∷ decimal j))

  key_of_inj : (i j i' j' : ℕ) → key_of i j ≡ key_of i' j' → (i ≡ i') × (j ≡ j')
  key_of_inj i j i' j' h =
      let shaped = sym (key_of-shape i j) ∙ h ∙ key_of-shape i' j' in
      let (section, chunk) =
        split_colon (decimal i) (decimal i') (decimal j) (decimal j') (digits.no_colon i)
          (digits.no_colon i')
          (append_cancel (codes ":") (decimal i ++ (58 ∷ decimal j))
            (decimal i' ++ (58 ∷ decimal j'))
            (append_cancel document_id (58 ∷ (decimal i ++ (58 ∷ decimal j)))
              (58 ∷ (decimal i' ++ (58 ∷ decimal j'))) shaped)) in
      (digits.injective i i' section, digits.injective j j' chunk)

  abbrev keys_of : List PolicyChunk → List Str
  keys_of = map (λ (c : PolicyChunk). c.chunk_id)

  -- The key is that of a chunk of this section from this one on, or of a section from this one on.
  abbrev OfSection : ℕ → ℕ → Str → Type 0
  OfSection i j s = (k : ℕ) × (j ≤ k) × (s ≡ key_of i k)

  abbrev FromSection : ℕ → Str → Type 0
  FromSection i s = (m : ℕ) × (k : ℕ) × (i ≤ m) × (s ≡ key_of m k)

  section_keys :
      (i j : ℕ) (section : Str) (texts : List Str)
      → All (OfSection i j) (keys_of (section_chunks decimal document_id title i j section texts))
        × Unique (keys_of (section_chunks decimal document_id title i j section texts))
  unfolding section_chunks
  section_keys i j section [] = (tt, tt)
  section_keys i j section (t ∷ texts) =
      let (own, unique) = section_keys i (suc j) section texts in
      (
        (
          (j, omega arith, refl),
          All-weaken (OfSection i (suc j)) (OfSection i j) _ (λ s h. (h.0, omega (arith, h.1), h.2))
              own,
        ),
        (
          All-weaken (OfSection i (suc j)) _ _
              (λ s h e. omega (arith, h.1, (key_of_inj i j i h.0 (e ∙ h.2)).1)) own,
          unique,
        ),
      )

  OfSection-From : (i j : ℕ) (keys : List Str) → All (OfSection i j) keys → All (FromSection i) keys
  OfSection-From i j keys h =
      All-weaken (OfSection i j) (FromSection i) keys (λ s k. (i, k.0, omega arith, k.2)) h

  later_apart :
      (i j : ℕ) (keys : List Str) (s : Str)
      → OfSection i j s
      → All (FromSection (suc i)) keys
      → All (λ (t : Str). s ≢ t) keys
  later_apart i j keys s own h =
      All-weaken (FromSection (suc i)) (λ (t : Str). s ≢ t) keys
        (λ t k e. omega (arith, k.2, (key_of_inj i own.0 k.0 k.1 (sym own.2 ∙ e ∙ k.3)).0)) h

  Unique-append :
      (i j : ℕ) (xs ys : List Str)
      → All (OfSection i j) xs
      → Unique xs
      → All (FromSection (suc i)) ys
      → Unique ys
      → Unique (xs ++ ys)
  Unique-append i j [] ys own u from v = v
  Unique-append i j (x ∷ xs) ys own u from v = (
    All-append (λ (t : Str). x ≢ t) xs ys u.0 (later_apart i j ys x own.0 from),
    Unique-append i j xs ys own.1 u.1 from v,
  )

  keys_of-append : (xs ys : List PolicyChunk) → keys_of (xs ++ ys) ≡ keys_of xs ++ keys_of ys
  keys_of-append [] ys = refl
  keys_of-append (x ∷ xs) ys = ap (◌∷◌ x.chunk_id) (keys_of-append xs ys)

  -- The keys of the chunks of the sections from one on are told apart.
  pub chunks_from-Unique :
      (i : ℕ) (sections : List (Str × Str)) (chunks : List PolicyChunk)
      → chunks_from decimal document_id title i sections ≡ some chunks
      → All (FromSection i) (keys_of chunks) × Unique (keys_of chunks)
  unfolding chunks_from
  chunks_from-Unique i [] chunks h =
      subst (λ (x : List PolicyChunk). All (FromSection i) (keys_of x) × Unique (keys_of x)) (inj h)
        (tt, tt)
    where
      inj : ◌≡◌ {A = Option (List PolicyChunk)} (some []) (some chunks) → [] ≡ chunks
      inj k = cc
  chunks_from-Unique i (s ∷ sections) chunks h =
      split (split_text 500 50 s.1) (chunks_from decimal document_id title (suc i) sections)
        (chunks_from-Unique (suc i) sections) h
    where
      inj : {x y : List PolicyChunk} → ◌≡◌ {A = Option (List PolicyChunk)} (some x) (some y) → x ≡ y
      inj k = cc

      split :
          (texts : Option (List Str)) (later : Option (List PolicyChunk))
          → ((cs : List PolicyChunk)
              → later ≡ some cs
              → All (FromSection (suc i)) (keys_of cs) × Unique (keys_of cs))
          → append_chunks decimal document_id title
              (chunks_of_texts decimal document_id title i s.0 texts)
              later
            ≡ some chunks
          → All (FromSection i) (keys_of chunks) × Unique (keys_of chunks)
      split none later ih k = cc
      split (some texts) none ih k = cc
      split (some texts) (some cs) ih k =
          let (own, unique) = section_keys i 0 s.0 texts in
          let (from, others) = ih cs refl in
          let mine = section_chunks decimal document_id title i 0 s.0 texts in
          subst (λ (x : List PolicyChunk). All (FromSection i) (keys_of x) × Unique (keys_of x))
            (inj k)
            (subst (λ (x : List Str). All (FromSection i) x × Unique x)
              (sym (keys_of-append mine cs))
              (
                All-append (FromSection i) (keys_of mine) (keys_of cs)
                    (OfSection-From i 0 (keys_of mine) own)
                    (All-weaken (FromSection (suc i)) (FromSection i) (keys_of cs)
                      (λ t m. (m.0, m.1, omega (arith, m.2), m.3)) from),
                Unique-append i 0 (keys_of mine) (keys_of cs) own unique from others,
              ))
