-- ===== src/Knowledge/History/InStep.antt =====
-- A chunk is shown exactly when its document is.
use mathlib.Core.Path.{subst}
use enterprise_work_order_ai.Prelude.{
  ℕ, ◌≡◌, refl, sym, ◌∙◌, inl, inr, Bool, true, false, ◌&&◌, List, [], ◌∷◌, map, arith, any, All,
  All-weaken, ◌==◌, ==_refl, ==_iff, Bool-cases, if◌then◌else◌,
}
use enterprise_work_order_ai.Prelude.Sql.{update_where}
use enterprise_work_order_ai.Prelude.Sql.Pairs.{
  changed, Related, Pairwise-Related, update_where-map, update_where_twice-map, any-map,
}
use enterprise_work_order_ai.Knowledge.Embedding.{
  is_document, is_older, in_older, in_document, show_document, show_chunk, unfinished, is_newer,
  activate_latest, keep_stale_inactive, settle,
}
use enterprise_work_order_ai.Knowledge.Rows.{
  Visibility, active, inactive, DocumentRow, ChunkRow, KnowledgeDb,
}
use enterprise_work_order_ai.Knowledge.History.Activation.{activated, hidden, AnyRow, all_units}
use enterprise_work_order_ai.Knowledge.History.Sound.{apart, IsSound}

abbrev pub same_visibility : Visibility → Visibility → Bool
same_visibility Visibility.pending Visibility.pending = true
same_visibility active active = true
same_visibility inactive inactive = true
same_visibility _ _ = false

-- The document is the chunk's, and is shown if the chunk is.
abbrev pub carries : ChunkRow → DocumentRow → Bool
carries c e = is_document c.tenant_id c.document_id e && same_visibility e.status c.status

abbrev pub IsInStep : KnowledgeDb → Type 0
IsInStep db = All (λ c. any (carries c) db.documents ≡ true) db.chunks

same_refl : (v : Visibility) → same_visibility v v ≡ true
same_refl Visibility.pending = refl
same_refl active = refl
same_refl inactive = refl

module _ (tenant : ℕ) (d : DocumentRow) (now : ℕ) where
  abbrev hidden_chunk : ChunkRow → ChunkRow
  hidden_chunk c = if in_document tenant d.id c then show_chunk inactive now c else c

  abbrev activated_chunk : List DocumentRow → ChunkRow → ChunkRow
  activated_chunk documents c =
      let mid : ChunkRow =
        if in_older tenant d.document_key d.version documents c
        then show_chunk inactive now c
        else c in
      if in_document tenant d.id mid then show_chunk active now mid else mid

  -- The document is older exactly when one with its identifier is.
  abbrev KnowsOlder : List DocumentRow → DocumentRow → Type 0
  KnowsOlder documents e =
      e.tenant_id ≡ tenant
      → any (λ x. is_older tenant d.document_key d.version x && x.id == e.id) documents
        ≡ is_older tenant d.document_key d.version e

  Related-older :
      (e x : DocumentRow)
      → Related (λ a b. apart a b ≡ true) e x
      → e.tenant_id ≡ tenant
      → is_older tenant d.document_key d.version e ≡ false
      → (is_older tenant d.document_key d.version x && x.id == e.id) ≡ false
  Related-older e x (inl r) own h = ground (arith, r, own, h)
  Related-older e x (inr (inl r)) own h = ground (arith, r, own, h)
  Related-older e x (inr (inr same)) own h = rw (← same) (rw h refl)

  older_none :
      (e : DocumentRow) (rows : List DocumentRow)
      → All (Related (λ a b. apart a b ≡ true) e) rows
      → e.tenant_id ≡ tenant
      → is_older tenant d.document_key d.version e ≡ false
      → any (λ x. is_older tenant d.document_key d.version x && x.id == e.id) rows ≡ false
  older_none e [] r own h = refl
  older_none e (x ∷ rows) r own h = rw (Related-older e x r.0 own h) (older_none e rows r.1 own h)

  older_self :
      (rows : List DocumentRow)
      → All
          (λ e.
            is_older tenant d.document_key d.version e ≡ true
            → any (λ x. is_older tenant d.document_key d.version x && x.id == e.id) rows ≡ true)
          rows
  older_self [] = tt
  older_self (e ∷ rows) = (
    (λ h. rw (h, ==_refl e.id) refl),
    All-weaken _ _ rows (λ x k h. ground (arith, k h)) (older_self rows),
  )

  All-KnowsOlder :
      (rows others : List DocumentRow)
      → All (λ e. All (Related (λ a b. apart a b ≡ true) e) rows) others
      → All
          (λ e.
            is_older tenant d.document_key d.version e ≡ true
            → any (λ x. is_older tenant d.document_key d.version x && x.id == e.id) rows ≡ true)
          others
      → All (KnowsOlder rows) others
  All-KnowsOlder rows [] r h = tt
  All-KnowsOlder rows (e ∷ others) r h = (
    (λ own. elim (Bool-cases (is_older tenant d.document_key d.version e)) [
      | inl q ↦ h.0 q ∙ sym q
      | inr q ↦ older_none e rows r.0 own q ∙ sym q
    ]),
    All-KnowsOlder rows others r.1 h.1,
  )

  both-carry :
      (v : Visibility) (b b' : Bool) (c : ChunkRow) (e : DocumentRow)
      → b ≡ b'
      → carries c e ≡ true
      → carries (if b then show_chunk v now c else c) (if b' then show_document v now e else e)
        ≡ true
  both-carry v true true c e s h = ground (arith, h, same_refl v)
  both-carry v false false c e s h = h
  both-carry v true false c e s h = cc
  both-carry v false true c e s h = cc

  in_document-same :
      (c : ChunkRow) (e : DocumentRow)
      → carries c e ≡ true
      → in_document tenant d.id c ≡ is_document tenant d.id e
  in_document-same c e h = ground (arith, h)

  in_older-same :
      (documents : List DocumentRow) (c : ChunkRow) (e : DocumentRow)
      → KnowsOlder documents e
      → carries c e ≡ true
      → in_older tenant d.document_key d.version documents c
        ≡ is_older tenant d.document_key d.version e
  in_older-same documents c e k h =
      let its : c.document_id ≡ e.id = ground (arith, h) in
      let owner : c.tenant_id ≡ e.tenant_id = ground (arith, h) in
      elim (Bool-cases (e.tenant_id == tenant)) [
        | inr q ↦ other c.tenant_id owner q
        | inl q ↦
            (λ i.
              (owner i == tenant)
              && any (λ x. is_older tenant d.document_key d.version x && x.id == its i) documents)
            ∙ (λ i.
                (q i)
                && any (λ x. is_older tenant d.document_key d.version x && x.id == e.id) documents)
            ∙ k ((==_iff e.tenant_id tenant).0 q)
      ]
    where
      other :
          (t : ℕ)
          → t ≡ e.tenant_id
          → (e.tenant_id == tenant) ≡ false
          → (t == tenant
              && any
                  (λ x. is_older tenant d.document_key d.version x && x.id == c.document_id)
                  documents)
            ≡ is_older tenant d.document_key d.version e
      other t s q = ground (arith, s, q)

  hidden-carries :
      (c : ChunkRow) (e : DocumentRow)
      → carries c e ≡ true
      → carries (hidden_chunk c) (hidden tenant d now e) ≡ true
  hidden-carries c e h = both-carry inactive _ _ c e (in_document-same c e h) h

  activated-carries :
      (documents : List DocumentRow) (c : ChunkRow) (e : DocumentRow)
      → KnowsOlder documents e
      → carries c e ≡ true
      → carries (activated_chunk documents c) (activated tenant d now e) ≡ true
  activated-carries documents c e k h =
      let c' : ChunkRow =
        if in_older tenant d.document_key d.version documents c
        then show_chunk inactive now c
        else c in
      let e' : DocumentRow =
        changed (is_older tenant d.document_key d.version) (show_document inactive now) e in
      let mid : carries c' e' ≡ true =
        both-carry inactive _ _ c e (in_older-same documents c e k h) h in
      both-carry active _ _ c' e' (in_document-same c' e' mid) mid

  AllCarried : List DocumentRow → List ChunkRow → Type 0
  AllCarried documents = All (λ c. any (carries c) documents ≡ true)

  All-hidden_carried :
      (documents : List DocumentRow) (chunks : List ChunkRow)
      → AllCarried documents chunks
      → AllCarried (map (hidden tenant d now) documents) (map hidden_chunk chunks)
  unfolding AllCarried
  All-hidden_carried documents [] h = tt
  All-hidden_carried documents (c ∷ chunks) h = (
    any-map (AnyRow tenant d now) (carries c) (carries (hidden_chunk c)) (hidden tenant d now)
        (λ e _. hidden-carries c e) documents (all_units tenant d now documents) h.0,
    All-hidden_carried documents chunks h.1,
  )

  All-activated_carried :
      (documents : List DocumentRow) (chunks : List ChunkRow)
      → All (KnowsOlder documents) documents
      → AllCarried documents chunks
      → AllCarried (map (activated tenant d now) documents) (map (activated_chunk documents) chunks)
  unfolding AllCarried
  All-activated_carried documents [] k h = tt
  All-activated_carried documents (c ∷ chunks) k h = (
    any-map (KnowsOlder documents) (carries c) (carries (activated_chunk documents c))
        (activated tenant d now) (λ e. activated-carries documents c e) documents k h.0,
    All-activated_carried documents chunks k h.1,
  )

  pub settle-IsInStep :
      (db : KnowledgeDb) → IsSound db → IsInStep db → IsInStep (settle tenant d now db)
  unfolding settle activate_latest keep_stale_inactive AllCarried
  settle-IsInStep db s h = elim (Bool-cases (any (unfinished tenant d.id) db.jobs)) [
    | inl more ↦ rw more h
    | inr done ↦ elim (Bool-cases (any (is_newer tenant d.document_key d.version) db.documents)) [
      | inl stale ↦
          rw (done, stale)
            (subst
              (λ (x : List DocumentRow).
                AllCarried x
                  (update_where (in_document tenant d.id) (show_chunk inactive now) db.chunks))
              (sym (
                update_where-map (is_document tenant d.id) (show_document inactive now)
                  db.documents))
              (subst (AllCarried (map (hidden tenant d now) db.documents))
                (sym
                  (update_where-map (in_document tenant d.id) (show_chunk inactive now) db.chunks))
                (All-hidden_carried db.documents db.chunks h)))
      | inr latest ↦
          rw (done, latest)
            (subst
              (λ (x : List DocumentRow). AllCarried x (
                update_where (in_document tenant d.id) (show_chunk active now) (
                  update_where (in_older tenant d.document_key d.version db.documents)
                    (show_chunk inactive now) db.chunks)))
              (sym (
                update_where_twice-map (is_document tenant d.id)
                  (is_older tenant d.document_key d.version) (show_document active now)
                  (show_document inactive now) db.documents))
              (subst (AllCarried (map (activated tenant d now) db.documents))
                (sym (
                  update_where_twice-map (in_document tenant d.id)
                    (in_older tenant d.document_key d.version db.documents) (show_chunk active now)
                    (show_chunk inactive now) db.chunks))
                (All-activated_carried db.documents db.chunks
                  (All-KnowsOlder db.documents db.documents
                    (Pairwise-Related (λ a b. apart a b ≡ true) db.documents s.versions)
                    (older_self db.documents))
                  h)))
    ]
  ]
