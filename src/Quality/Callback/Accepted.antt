-- ===== src/Quality/Callback/Accepted.antt =====
-- A result that the client has accepted does not wait any longer.
use enterprise_work_order_ai.Prelude.{
  ℕ, ◌≡◌, refl, sym, ◌∙◌, ◌≢◌, ◌⊎◌, inl, inr, true, false, List, [], ◌∷◌, ◌==◌, any, arith,
  Bool-cases, All, length,
}
use mathlib.Core.Path.{subst}
use enterprise_work_order_ai.Prelude.Exec.{Outcome, ok, raise}
use enterprise_work_order_ai.Prelude.Sql.{update_where}
use enterprise_work_order_ai.Quality.Errors.{Exc}
use enterprise_work_order_ai.Quality.Models.{QualityResultRecord}
use enterprise_work_order_ai.Quality.Store.{Db, ResultRow}
use enterprise_work_order_ai.Quality.Worker.{valid_limit}
use enterprise_work_order_ai.Quality.Callback.{
  Delivery, accepted, callback_error, raised, pending_callbacks, to_mark, mark_row,
  mark_callback_delivered, QualityCallbackRunResult, add_marked, deliver_all, summary,
  run_callbacks,
}
use enterprise_work_order_ai.Quality.Callback.Marks.{Delivery-cases}

-- No row of the tenant with the id waits.
abbrev pub IsDone : ℕ → ℕ → List ResultRow → Type 0
IsDone tenant id rows = any (to_mark tenant id) rows ≡ false

marked-IsDone :
    (tenant i at : ℕ) (rows : List ResultRow)
    → IsDone tenant i (update_where (to_mark tenant i) (mark_row at) rows)
unfolding update_where
marked-IsDone tenant i at [] = refl
marked-IsDone tenant i at (r ∷ rows) = ground (arith, marked-IsDone tenant i at rows)

IsDone-update_where :
    (tenant i j at : ℕ) (rows : List ResultRow)
    → IsDone tenant j rows
    → IsDone tenant j (update_where (to_mark tenant i) (mark_row at) rows)
unfolding update_where
IsDone-update_where tenant i j at [] h = refl
IsDone-update_where tenant i j at (r ∷ rows) h =
    ground (arith, IsDone-update_where tenant i j at rows)

raise_not_ok : (e : Exc) (n : ℕ) → ◌≢◌ {A = Outcome Exc ℕ} (raise e) (ok n)
raise_not_ok e n h = cc

refused_not_accepted : callback_error ≢ accepted
refused_not_accepted h = cc

module _ (deliver : QualityResultRecord → Delivery) (db_now : ℕ → ℕ) (tenant : ℕ) where
  mark-IsDone :
      (j at : ℕ) (db : Db) → IsDone tenant j (mark_callback_delivered tenant j at db).1.results
  unfolding mark_callback_delivered
  mark-IsDone j at db = marked-IsDone tenant j at db.results

  deliver_all-IsDone :
      (j : ℕ) (results : List QualityResultRecord) (delivered : ℕ) (db : Db)
      → IsDone tenant j db.results
      → IsDone tenant j (deliver_all deliver db_now tenant results delivered db).1.results
  unfolding deliver_all mark_callback_delivered
  deliver_all-IsDone j [] delivered db h = h
  deliver_all-IsDone j (x ∷ results) delivered db h = elim (Bool-cases (x.tenant_id == tenant)) [
    | inl own ↦ elim (Delivery-cases (deliver x)) [
      | inl a ↦
          rw (own, a)
            (deliver_all-IsDone j results _ (mark_callback_delivered tenant x.id (db_now x.id) db).1
              (IsDone-update_where tenant x.id j (db_now x.id) db.results h))
      | inr b ↦ elim b [
        | inl c ↦ rw (own, c) (deliver_all-IsDone j results delivered db h)
        | inr (e, c) ↦ rw (own, c) h
      ]
    ]
    | inr foreign ↦ rw foreign h
  ]

  abbrev pub AllDone : List QualityResultRecord → Db → Type 0
  AllDone results db =
      All (λ (x : QualityResultRecord). deliver x ≡ accepted → IsDone tenant x.id db.results)
        results

  -- What the first result makes of the rest of the loop.
  accepted_step :
      (x : QualityResultRecord) (results : List QualityResultRecord) (delivered : ℕ) (db : Db)
      → (x.tenant_id == tenant) ≡ true
      → deliver x ≡ accepted
      → deliver_all deliver db_now tenant (x ∷ results) delivered db
        ≡ deliver_all deliver db_now tenant results
            (add_marked (mark_callback_delivered tenant x.id (db_now x.id) db).0 delivered)
            (mark_callback_delivered tenant x.id (db_now x.id) db).1
  unfolding deliver_all
  accepted_step x results delivered db own a = rw (own, a)

  refused_step :
      (x : QualityResultRecord) (results : List QualityResultRecord) (delivered : ℕ) (db : Db)
      → (x.tenant_id == tenant) ≡ true
      → deliver x ≡ callback_error
      → deliver_all deliver db_now tenant (x ∷ results) delivered db
        ≡ deliver_all deliver db_now tenant results delivered db
  unfolding deliver_all
  refused_step x results delivered db own c = rw (own, c)

  stopped_step :
      (x : QualityResultRecord) (results : List QualityResultRecord) (delivered n : ℕ) (db : Db)
      → ((x.tenant_id == tenant) ≡ false) ⊎ ((e : Exc) × (deliver x ≡ raised e))
      → (deliver_all deliver db_now tenant (x ∷ results) delivered db).0 ≢ ok n
  unfolding deliver_all
  stopped_step x results delivered n db (inl foreign) h = absurd (ground arith)
  stopped_step x results delivered n db (inr (e, c)) h = elim (Bool-cases (x.tenant_id == tenant)) [
    | inl own ↦ absurd (raise_not_ok e n (rw (own, c) at h))
    | inr foreign ↦ absurd (ground arith)
  ]

  AllDone-along :
      (results : List QualityResultRecord) {a b : Outcome Exc ℕ × Db}
      → a ≡ b
      → AllDone results a.1
      → AllDone results b.1
  AllDone-along results same = subst (λ (c : Outcome Exc ℕ × Db). AllDone results c.1) same

  deliver_all-AllDone :
      (results : List QualityResultRecord) (delivered n : ℕ) (db : Db)
      → (deliver_all deliver db_now tenant results delivered db).0 ≡ ok n
      → AllDone results (deliver_all deliver db_now tenant results delivered db).1
  deliver_all-AllDone [] delivered n db h = tt
  deliver_all-AllDone (x ∷ results) delivered n db h = elim (Bool-cases (x.tenant_id == tenant)) [
    | inl own ↦ elim (Delivery-cases (deliver x)) [
      | inl a ↦
          let marked : Db = (mark_callback_delivered tenant x.id (db_now x.id) db).1 in
          let same = accepted_step x results delivered db own a in
          AllDone-along (x ∷ results) (sym same) (
            λ accept. deliver_all-IsDone x.id results _ marked (mark-IsDone x.id (db_now x.id) db),
            deliver_all-AllDone results _ n marked (rw same at h),
          )
      | inr b ↦ elim b [
        | inl c ↦
            let same = refused_step x results delivered db own c in
            AllDone-along (x ∷ results) (sym same) (
              λ accept. absurd (refused_not_accepted (sym c ∙ accept)),
              deliver_all-AllDone results delivered n db (rw same at h),
            )
        | inr e ↦ absurd (stopped_step x results delivered n db (inr e) h)
      ]
    ]
    | inr foreign ↦ absurd (stopped_step x results delivered n db (inl foreign) h)
  ]

  summary-ok :
      (m : ℕ) (o : Outcome Exc ℕ) (result : QualityCallbackRunResult)
      → summary deliver db_now tenant m o ≡ ok result
      → (n : ℕ) × (o ≡ ok n)
  summary-ok m (ok n) result h = (n, refl)
  summary-ok m (raise e) result h = cc

  -- After a run that returns, no result that was selected and that the client accepted waits any
  -- longer: the next run does not select it again.
  pub run_callbacks-AllDone :
      (limit : ℕ) (db : Db) (result : QualityCallbackRunResult)
      → (run_callbacks deliver db_now tenant limit db).0 ≡ ok result
      → AllDone (pending_callbacks tenant limit db) (run_callbacks deliver db_now tenant limit db).1
  unfolding run_callbacks
  run_callbacks-AllDone limit db result h = elim (Bool-cases (valid_limit limit)) [
    | inl q ↦
        let (n, done) =
          summary-ok (length (pending_callbacks tenant limit db))
            (deliver_all deliver db_now tenant (pending_callbacks tenant limit db) 0 db).0 result
            (rw q at h) in
        rw q (deliver_all-AllDone (pending_callbacks tenant limit db) 0 n db done)
    | inr q ↦ absurd (ground arith)
  ]
