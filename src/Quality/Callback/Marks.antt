-- ===== src/Quality/Callback/Marks.antt =====
-- A result is marked as delivered only when the client has accepted it.
use enterprise_work_order_ai.Prelude.{
  ℕ, ◌≡◌, refl, ap, ◌∙◌, ◌⊎◌, inl, inr, Bool, true, false, ◌&&◌, Option, none, some, List, [], ◌∷◌,
  ◌==◌, any, arith, Bool-cases,
}
use enterprise_work_order_ai.Prelude.Sql.{update_where}
use enterprise_work_order_ai.Quality.Errors.{Exc}
use enterprise_work_order_ai.Quality.Models.{QualityResultRecord}
use enterprise_work_order_ai.Quality.Store.{Db, ResultRow}
use enterprise_work_order_ai.Quality.Worker.{valid_limit}
use enterprise_work_order_ai.Quality.Callback.{
  Delivery, accepted, callback_error, raised, pending_callbacks, to_mark, mark_row,
  mark_callback_delivered, deliver_all, run_callbacks, is_null,
}

abbrev pub is_accepted : Delivery → Bool
is_accepted accepted = true
is_accepted _ = false

null_none : (o : Option ℕ) → is_null o ≡ true → o ≡ none
null_none none h = refl
null_none (some t) h = cc

pub Delivery-cases :
    (d : Delivery) → (d ≡ accepted) ⊎ ((d ≡ callback_error) ⊎ ((e : Exc) × (d ≡ raised e)))
Delivery-cases accepted = inl refl
Delivery-cases callback_error = inr (inl refl)
Delivery-cases (raised e) = inr (inr (e, refl))

module _ (deliver : QualityResultRecord → Delivery) (db_now : ℕ → ℕ) (tenant : ℕ) where
  -- The client accepted a result with the row's key.
  abbrev pub was_accepted : List QualityResultRecord → ResultRow → Bool
  was_accepted results r =
      any (λ (x : QualityResultRecord). x.id == r.id && is_accepted (deliver x)) results

  -- The row is as it was, or it waited, was accepted, and is marked.
  abbrev pub RowMarked : List QualityResultRecord → ResultRow → ResultRow → Type 0
  RowMarked results r q =
      (q ≡ r)
      ⊎ ((r.tenant_id ≡ tenant)
          × (r.callback_at ≡ none)
          × (was_accepted results r ≡ true)
          × (q ≡ mark_row (db_now r.id) r))

  abbrev pub Marked : List QualityResultRecord → List ResultRow → List ResultRow → Type 0
  Marked results [] [] = Unit
  Marked results [] (q ∷ qs) = ⊥
  Marked results (r ∷ rs) [] = ⊥
  Marked results (r ∷ rs) (q ∷ qs) = RowMarked results r q × Marked results rs qs

  Marked-refl :
      (results : List QualityResultRecord) (rows : List ResultRow) → Marked results rows rows
  Marked-refl results [] = tt
  Marked-refl results (r ∷ rows) = (inl refl, Marked-refl results rows)

  row_more :
      (x : QualityResultRecord) (results : List QualityResultRecord) (r q : ResultRow)
      → RowMarked results r q
      → RowMarked (x ∷ results) r q
  row_more x results r q (inl same) = inl same
  row_more x results r q (inr (own, waiting, acc, marked)) =
      inr (own, waiting, ground arith, marked)

  marked_key :
      (x : QualityResultRecord) (r : ResultRow)
      → to_mark tenant x.id r ≡ true
      → mark_row (db_now x.id) r ≡ mark_row (db_now r.id) r
  marked_key x r m =
      let same : x.id ≡ r.id = ground arith in ap (λ (i : ℕ). mark_row (db_now i) r) same

  -- A result less.
  Marked-more :
      (x : QualityResultRecord) (results : List QualityResultRecord) (rs qs : List ResultRow)
      → Marked results rs qs
      → Marked (x ∷ results) rs qs
  Marked-more x results [] [] h = tt
  Marked-more x results [] (q ∷ qs) h = absurd h
  Marked-more x results (r ∷ rs) [] h = absurd h
  Marked-more x results (r ∷ rs) (q ∷ qs) h =
      (row_more x results r q h.0, Marked-more x results rs qs h.1)

  -- The mark of the first result, and then the others'.
  Marked-step :
      (x : QualityResultRecord) (results : List QualityResultRecord) (rs qs : List ResultRow)
      → deliver x ≡ accepted
      → Marked results (update_where (to_mark tenant x.id) (mark_row (db_now x.id)) rs) qs
      → Marked (x ∷ results) rs qs
  unfolding update_where
  Marked-step x results [] [] a h = tt
  Marked-step x results [] (q ∷ qs) a h = absurd h
  Marked-step x results (r ∷ rs) [] a h = absurd (ground arith)
  Marked-step x results (r ∷ rs) (q ∷ qs) a h = elim (Bool-cases (to_mark tenant x.id r)) [
    | inl m ↦
        let (row, rest) : RowMarked results (mark_row (db_now x.id) r) q
            × Marked results (update_where (to_mark tenant x.id) (mark_row (db_now x.id)) rs) qs =
          rw m at h in
        (
          elim row [
            | inl same ↦ inr (
              ground arith,
              null_none r.callback_at (ground arith),
              ground arith,
              same ∙ marked_key x r m,
            )
            | inr (own, waiting, acc, marked) ↦ absurd (ground arith)
          ],
          Marked-step x results rs qs a rest,
        )
    | inr m ↦
        let (row, rest) : RowMarked results r q
            × Marked results (update_where (to_mark tenant x.id) (mark_row (db_now x.id)) rs) qs =
          rw m at h in
        (row_more x results r q row, Marked-step x results rs qs a rest)
  ]

  deliver_all-Marked :
      (results : List QualityResultRecord) (delivered : ℕ) (db : Db)
      → Marked results db.results (deliver_all deliver db_now tenant results delivered db).1.results
  unfolding deliver_all mark_callback_delivered
  deliver_all-Marked [] delivered db = Marked-refl [] db.results
  deliver_all-Marked (x ∷ results) delivered db = elim (Bool-cases (x.tenant_id == tenant)) [
    | inl own ↦ elim (Delivery-cases (deliver x)) [
      | inl a ↦
          rw (own, a)
            (Marked-step x results db.results _ a (
              deliver_all-Marked results _
                (mark_callback_delivered tenant x.id (db_now x.id) db).1))
      | inr b ↦ elim b [
        | inl c ↦
            rw (own, c)
              (Marked-more x results db.results _ (deliver_all-Marked results delivered db))
        | inr (e, c) ↦ rw (own, c) (Marked-refl (x ∷ results) db.results)
      ]
    ]
    | inr foreign ↦ rw foreign (Marked-refl (x ∷ results) db.results)
  ]

  -- Row by row, what a run of the callback worker leaves of the results, whether it returns or
  -- raises: each row is as it was, or is one of the tenant's that waited, that the client accepted,
  -- and that is marked with the time of its mark.
  pub run_callbacks-Marked :
      (limit : ℕ) (db : Db)
      → Marked
          (pending_callbacks tenant limit db)
          db.results
          (run_callbacks deliver db_now tenant limit db).1.results
  unfolding run_callbacks
  run_callbacks-Marked limit db = elim (Bool-cases (valid_limit limit)) [
    | inl q ↦ rw q (deliver_all-Marked (pending_callbacks tenant limit db) 0 db)
    | inr q ↦ rw q (Marked-refl (pending_callbacks tenant limit db) db.results)
  ]
