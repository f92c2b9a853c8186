-- ===== src/Knowledge/History/Activation.antt =====
-- The change of the versions when the last job of a document is done.
use mathlib.Core.Path.{subst}
use enterprise_work_order_ai.Prelude.{
  ℕ, ◌≡◌, refl, sym, ◌∙◌, Bool, true, false, not, ◌&&◌, ◌||◌, Option, some, List, [], ◌∷◌, map,
  arith, any, All, ◌==◌, ==_refl, Bool-cases, inl, inr,
}
use enterprise_work_order_ai.Prelude.Sql.{first_where}
use enterprise_work_order_ai.Prelude.Sql.Pairs.{
  changed, Pairwise, Pairwise-map, update_where-map, update_where_twice-map, All-of_none,
}
use enterprise_work_order_ai.Prelude.Text.{Str, str_eq, str_eq_iff}
use enterprise_work_order_ai.Knowledge.Embedding.{
  unfinished, is_document, is_older, is_newer, show_document, activate_latest, keep_stale_inactive,
  settle,
}
use enterprise_work_order_ai.Knowledge.Rows.{
  active, inactive, DocumentRow, EmbeddingJobRow, KnowledgeDb,
}
use enterprise_work_order_ai.Knowledge.History.Sound.{apart, shows_unfinished, IsSound}

str_eq_trans : (a b c : Str) → str_eq a b ≡ true → str_eq b c ≡ true → str_eq a c ≡ true
str_eq_trans a b c h k = (str_eq_iff a c).1 ((str_eq_iff a b).0 h ∙ (str_eq_iff b c).0 k)

str_eq_sym : (a b : Str) → str_eq a b ≡ true → str_eq b a ≡ true
str_eq_sym a b h = (str_eq_iff b a).1 (sym ((str_eq_iff a b).0 h))

module _ (tenant : ℕ) (d : DocumentRow) (now : ℕ) where
  -- The row has the identifier of the document only if it is that version of that key.
  abbrev pub agrees : DocumentRow → Bool
  agrees e =
      not (is_document tenant d.id e)
      || (str_eq e.document_key d.document_key && e.version == d.version)

  -- The row is no newer version than the document.
  abbrev pub Known : DocumentRow → Type 0
  Known e = (agrees e ≡ true) × (is_newer tenant d.document_key d.version e ≡ false)

  abbrev pub activated : DocumentRow → DocumentRow
  activated e =
      changed (is_document tenant d.id) (show_document active now)
        (changed (is_older tenant d.document_key d.version) (show_document inactive now) e)

  abbrev pub hidden : DocumentRow → DocumentRow
  hidden e = changed (is_document tenant d.id) (show_document inactive now) e

  hidden-apart : (a b : DocumentRow) → apart a b ≡ true → apart (hidden a) (hidden b) ≡ true
  hidden-apart a b h = ground (arith, h)

  activated-apart :
      (a b : DocumentRow)
      → Known a
      → Known b
      → apart a b ≡ true
      → apart (activated a) (activated b) ≡ true
  activated-apart a b ka kb h = ground (
    arith,
    h,
    ka.0,
    ka.1,
    kb.0,
    kb.1,
    str_eq_trans a.document_key b.document_key d.document_key,
    str_eq_trans b.document_key a.document_key d.document_key,
    str_eq_sym a.document_key b.document_key,
  )

  agrees_self : agrees d ≡ true
  agrees_self = ground (arith, (str_eq_iff d.document_key d.document_key).1 refl, ==_refl d.version)

  agrees-apart : (e : DocumentRow) → d.tenant_id ≡ tenant → apart d e ≡ true → agrees e ≡ true
  agrees-apart e own h = ground (arith, h, own)

  All-agrees_later :
      (rows : List DocumentRow)
      → d.tenant_id ≡ tenant
      → All (λ e. apart d e ≡ true) rows
      → All (λ e. agrees e ≡ true) rows
  All-agrees_later [] own h = tt
  All-agrees_later (e ∷ rows) own h = (agrees-apart e own h.0, All-agrees_later rows own h.1)

  abbrev some_row : DocumentRow → Option DocumentRow
  some_row = some

  All-agrees :
      (id : ℕ) (rows : List DocumentRow)
      → Pairwise (λ a b. apart a b ≡ true) rows
      → first_where (is_document tenant id) rows ≡ some d
      → (d.tenant_id ≡ tenant) × (d.id ≡ id) × All (λ e. agrees e ≡ true) rows
  unfolding first_where
  All-agrees id [] s h = cc
  All-agrees id (e ∷ rows) s h = elim (Bool-cases (is_document tenant id e)) [
    | inl q ↦
        let same : e ≡ d = some_inj (rw q at h) in
        let own : d.tenant_id ≡ tenant =
          subst (λ (x : DocumentRow). x.tenant_id ≡ tenant) same (ground (arith, q)) in
        (
          own,
          subst (λ (x : DocumentRow). x.id ≡ id) same (ground (arith, q)),
          (
            subst (λ (x : DocumentRow). agrees x ≡ true) (sym same) agrees_self,
            All-agrees_later rows own
                (subst (λ (x : DocumentRow). All (λ y. apart x y ≡ true) rows) same s.0),
          ),
        )
    | inr q ↦
        let (own, its, rest) = All-agrees id rows s.1 (rw q at h) in
        (own, its, (other e (λ i. (e.tenant_id == tenant && e.id == its i)) q, rest))
  ]
    where
      some_inj : {x y : DocumentRow} → some_row x ≡ some_row y → x ≡ y
      some_inj k = cc

      other :
          (e : DocumentRow)
          → is_document tenant d.id e ≡ is_document tenant id e
          → is_document tenant id e ≡ false
          → agrees e ≡ true
      other e k q = rw (k ∙ q) refl

  All-Known :
      (rows : List DocumentRow)
      → All (λ e. agrees e ≡ true) rows
      → All (λ e. is_newer tenant d.document_key d.version e ≡ false) rows
      → All Known rows
  All-Known [] a n = tt
  All-Known (e ∷ rows) a n = ((a.0, n.0), All-Known rows a.1 n.1)

  hide_complete :
      (p : DocumentRow → Bool) (jobs : List EmbeddingJobRow) (e : DocumentRow)
      → shows_unfinished jobs e ≡ false
      → shows_unfinished jobs (changed p (show_document inactive now) e) ≡ false
  hide_complete p jobs e h = elim (Bool-cases (p e)) [ inl q ↦ rw q refl | inr q ↦ rw q h ]

  show_complete :
      (jobs : List EmbeddingJobRow) (e : DocumentRow)
      → any (unfinished tenant d.id) jobs ≡ false
      → shows_unfinished jobs e ≡ false
      → shows_unfinished jobs (changed (is_document tenant d.id) (show_document active now) e)
        ≡ false
  show_complete jobs e done h = elim (Bool-cases (is_document tenant d.id e)) [
    | inl q ↦
        let own : tenant ≡ e.tenant_id = ground (arith, q) in
        let its : d.id ≡ e.id = ground (arith, q) in
        let same : any (unfinished tenant d.id) jobs ≡ any (unfinished e.tenant_id e.id) jobs =
          λ i. any (unfinished (own i) (its i)) jobs in
        rw q (sym same ∙ done)
    | inr q ↦ rw q h
  ]

  All-activated :
      (jobs : List EmbeddingJobRow) (rows : List DocumentRow)
      → any (unfinished tenant d.id) jobs ≡ false
      → All (λ e. shows_unfinished jobs e ≡ false) rows
      → All (λ e. shows_unfinished jobs e ≡ false) (map activated rows)
  All-activated jobs [] done h = tt
  All-activated jobs (e ∷ rows) done h = (
    show_complete jobs _ done (hide_complete (is_older tenant d.document_key d.version) jobs e h.0),
    All-activated jobs rows done h.1,
  )

  All-hidden :
      (jobs : List EmbeddingJobRow) (rows : List DocumentRow)
      → All (λ e. shows_unfinished jobs e ≡ false) rows
      → All (λ e. shows_unfinished jobs e ≡ false) (map hidden rows)
  All-hidden jobs [] h = tt
  All-hidden jobs (e ∷ rows) h =
      (hide_complete (is_document tenant d.id) jobs e h.0, All-hidden jobs rows h.1)

  abbrev AreSound : List EmbeddingJobRow → List DocumentRow → Type 0
  AreSound jobs rows =
      Pairwise (λ a b. apart a b ≡ true) rows × All (λ e. shows_unfinished jobs e ≡ false) rows

  abbrev pub AnyRow : DocumentRow → Type 0
  AnyRow _ = Unit

  pub all_units : (rows : List DocumentRow) → All AnyRow rows
  all_units [] = tt
  all_units (e ∷ rows) = (tt, all_units rows)

  hidden-IsSound : (db : KnowledgeDb) → IsSound db → IsSound (keep_stale_inactive tenant d now db)
  unfolding keep_stale_inactive
  hidden-IsSound db s =
      let sound =
        subst (AreSound db.jobs)
          (sym
            (update_where-map (is_document tenant d.id) (show_document inactive now) db.documents))
          (
            Pairwise-map AnyRow _ _ hidden (λ a b _ _ h. hidden-apart a b h) db.documents
                (all_units db.documents) s.versions,
            All-hidden db.jobs db.documents s.complete,
          ) in
      record { versions = sound.0; complete = sound.1 }

  activated-IsSound :
      (id : ℕ) (db : KnowledgeDb)
      → IsSound db
      → first_where (is_document tenant id) db.documents ≡ some d
      → any (unfinished tenant d.id) db.jobs ≡ false
      → any (is_newer tenant d.document_key d.version) db.documents ≡ false
      → IsSound (activate_latest tenant d now db)
  unfolding activate_latest
  activated-IsSound id db s found done latest =
      let (_, _, agree) = All-agrees id db.documents s.versions found in
      let known =
        All-Known db.documents agree
          (All-of_none (is_newer tenant d.document_key d.version) db.documents latest) in
      let sound =
        subst (AreSound db.jobs)
          (sym (
            update_where_twice-map (is_document tenant d.id)
              (is_older tenant d.document_key d.version) (show_document active now)
              (show_document inactive now) db.documents))
          (
            Pairwise-map Known _ _ activated activated-apart db.documents known s.versions,
            All-activated db.jobs db.documents done s.complete,
          ) in
      record { versions = sound.0; complete = sound.1 }

  -- Whatever `succeed` does with the versions once its job is done keeps the tables sound.
  pub settle-IsSound :
      (id : ℕ) (db : KnowledgeDb)
      → IsSound db
      → first_where (is_document tenant id) db.documents ≡ some d
      → IsSound (settle tenant d now db)
  unfolding settle
  settle-IsSound id db s found = elim (Bool-cases (any (unfinished tenant d.id) db.jobs)) [
    | inl more ↦ rw more s
    | inr done ↦ elim (Bool-cases (any (is_newer tenant d.document_key d.version) db.documents)) [
      | inl stale ↦ rw (done, stale) (hidden-IsSound db s)
      | inr latest ↦ rw (done, latest) (activated-IsSound id db s found done latest)
    ]
  ]
