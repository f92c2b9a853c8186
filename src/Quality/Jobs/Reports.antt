-- ===== src/Quality/Jobs/Reports.antt =====
-- What a reported retry or failure makes of the row of the job's key.
use enterprise_work_order_ai.Prelude.{
  ℕ, ◌≤◌, ◌<◌, ◌≡◌, ◌↔◌, inl, inr, refl, sym, ap, ◌∙◌, String, Bool, true, false, not, ◌||◌, none,
  some, [], ◌∷◌, arith, any, keep_if, if◌then◌else◌,
}
use mathlib.Core.Option.{some-injective}
use enterprise_work_order_ai.Prelude.Sql.{update_where, first_where}
use enterprise_work_order_ai.Quality.Models.{
  QualityJobStatus, pending, running, retry_wait, succeeded, failed, skipped, ClaimedQualityJob,
}
use enterprise_work_order_ai.Quality.Jobs.{
  QualityJobRow, Table, is_running, is_job, holds_claim, may_retry, retry_row, retry_quality_job,
  fail_row, fail_quality_job,
}
use enterprise_work_order_ai.Quality.Jobs.Batch.{IsDue}
use enterprise_work_order_ai.Quality.Jobs.Fencing.{update_where_none}

-- The row of a primary key after an `UPDATE` that leaves keys alone.
first_where-update_where :
    (key p : QualityJobRow → Bool) (f : QualityJobRow → QualityJobRow)
    → ((r : QualityJobRow) → key (f r) ≡ key r)
    → (rows : Table) {r : QualityJobRow} → first_where key rows ≡ some r
    → first_where key (update_where p f rows) ≡ some (if p r then f r else r)
unfolding first_where update_where
first_where-update_where key p f same [] h = cc
first_where-update_where key p f same (q ∷ rows) {r} h =
    ground (arith, same q, first_where-update_where key p f same rows {r = r})

others-update_where :
    (key p : QualityJobRow → Bool) (f : QualityJobRow → QualityJobRow)
    → ((r : QualityJobRow) → key (f r) ≡ key r)
    → ((r : QualityJobRow) → p r ≡ true → key r ≡ true)
    → (rows : Table)
    → keep_if (λ r. not (key r)) (update_where p f rows) ≡ keep_if (λ r. not (key r)) rows
unfolding update_where
others-update_where key p f same within [] = refl
others-update_where key p f same within (r ∷ rows) =
    ground (arith, same r, within r, others-update_where key p f same within rows)

any_of_first :
    (key p : QualityJobRow → Bool)
    → ((r : QualityJobRow) → p r ≡ true → key r ≡ true)
    → (rows : Table) → any p (keep_if key rows) ≡ any p rows
any_of_first key p within [] = refl
any_of_first key p within (r ∷ rows) = ground (arith, within r, any_of_first key p within rows)

first_of_key :
    (key : QualityJobRow → Bool) (rows : Table) (r : QualityJobRow)
    → keep_if key rows ≡ r ∷ []
    → first_where key rows ≡ some r
unfolding first_where
first_of_key key [] r h = cc
first_of_key key (q ∷ rows) r h = ground (arith, first_of_key key rows r)

-- The row is the claim's, and runs the attempt that the claim is of.
pub record Holds (job : ClaimedQualityJob) (r : QualityJobRow) : Type 0 where
  pub of_tenant : r.tenant_id ≡ job.tenant_id
  pub same_job : r.id ≡ job.id
  pub runs : r.status ≡ running
  pub same_attempt : r.retry_count ≡ job.retry_count

-- The row as it was, but for its status, its times and its error.
pub record SameJob (r q : QualityJobRow) : Type 0 where
  pub id : q.id ≡ r.id
  pub tenant_id : q.tenant_id ≡ r.tenant_id
  pub business_key : q.business_key ≡ r.business_key
  pub trigger_payload : q.trigger_payload ≡ r.trigger_payload
  pub retry_count : q.retry_count ≡ r.retry_count
  pub max_retry_count : q.max_retry_count ≡ r.max_retry_count
  pub result_id : q.result_id ≡ r.result_id

-- The row waits for the given time: it is due from then on and not before.
pub record WaitsFor (code : String) (at : ℕ) (r q : QualityJobRow) : Type 0 where
  pub same : SameJob r q
  pub no_lease : q.started_at ≡ none
  pub error : q.last_error_code ≡ some code
  pub due_from : (t : ℕ) → IsDue r.tenant_id t q ↔ (at ≤ t)

-- The row has come to its end: it is due at no time.
pub record EndsAt (code : String) (now : ℕ) (r q : QualityJobRow) : Type 0 where
  pub same : SameJob r q
  pub failed' : q.status ≡ failed
  pub end : q.finished_at ≡ some now
  pub error : q.last_error_code ≡ some code
  pub never_due : (t : ℕ) → ¬ IsDue r.tenant_id t q

running_of : (s : QualityJobStatus) → is_running s ≡ true → s ≡ running
running_of running h = refl
running_of pending h = cc
running_of retry_wait h = cc
running_of succeeded h = cc
running_of failed h = cc
running_of skipped h = cc

holds_claim-Holds :
    (job : ClaimedQualityJob) (r : QualityJobRow) → (holds_claim job r ≡ true) ↔ Holds job r
holds_claim-Holds job r = (
  λ h. record {
    of_tenant = ground (arith, h);
    same_job = ground (arith, h);
    runs = running_of r.status (ground (arith, h));
    same_attempt = ground (arith, h);
  },
  λ h. rw h.runs (ground (arith, h.of_tenant, h.same_job, h.same_attempt)),
)

may_retry-Holds :
    (job : ClaimedQualityJob) (r : QualityJobRow)
    → (may_retry job r ≡ true) ↔ (Holds job r × (r.retry_count < r.max_retry_count))
may_retry-Holds job r = (
  λ h. ((holds_claim-Holds job r).0 (ground (arith, h)), ground (arith, h)),
  λ (h, left). ground (arith, (holds_claim-Holds job r).1 h, left),
)

retry_row-WaitsFor :
    (code : String) (at now : ℕ) (r : QualityJobRow)
    → r.retry_count < r.max_retry_count
    → WaitsFor code at r (retry_row code at now r)
retry_row-WaitsFor code at now r left = record {
  same = record {
    id = refl;
    tenant_id = refl;
    business_key = refl;
    trigger_payload = refl;
    retry_count = refl;
    max_retry_count = refl;
    result_id = refl;
  };
  no_lease = refl;
  error = refl;
  due_from = λ t. (
    λ d. elim (d.waits) [
      | inl first ↦ cc
      | inr (again, time, set, come) ↦ omega (arith, some-injective at time set, come)
    ],
    λ come. record { own = refl; attempt_left = left; waits = inr (refl, at, refl, come) },
  );
}

fail_row-EndsAt :
    (code : String) (now : ℕ) (r : QualityJobRow) → EndsAt code now r (fail_row code now r)
fail_row-EndsAt code now r = record {
  same = record {
    id = refl;
    tenant_id = refl;
    business_key = refl;
    trigger_payload = refl;
    retry_count = refl;
    max_retry_count = refl;
    result_id = refl;
  };
  failed' = refl;
  end = refl;
  error = refl;
  never_due = λ t d. elim (d.waits) [ inl first ↦ cc | inr (again, _, _, _) ↦ cc ];
}

module _ (job : ClaimedQualityJob) (rows : Table) (r : QualityJobRow) where
  abbrev own : QualityJobRow → Bool
  own = is_job job.tenant_id job.id

  -- An `UPDATE` of rows of the job's key, where that key has the one row `r`: whether it changes a
  -- row, what it makes of `r`, and that it leaves the table where it changes none.
  answered :
      (p : QualityJobRow → Bool)
      → ((q : QualityJobRow) → p q ≡ true → own q ≡ true)
      → keep_if own rows ≡ r ∷ []
      → any p rows ≡ p r
  answered p within only = sym (any_of_first own p within rows) ∙ ap (any p) only ∙ or_false (p r)
    where
      or_false : (b : Bool) → (b || false) ≡ b
      or_false b = ground arith

  changed :
      (p : QualityJobRow → Bool) (f : QualityJobRow → QualityJobRow)
      → ((q : QualityJobRow) → own (f q) ≡ own q)
      → ((q : QualityJobRow) → p q ≡ true → own q ≡ true)
      → keep_if own rows ≡ r ∷ []
      → any p rows ≡ true
      → (p r ≡ true) × (first_where own (update_where p f rows) ≡ some (f r))
  changed p f same within only h =
      let k : p r ≡ true = sym (answered p within only) ∙ h in
      (k, first_where-update_where own p f same rows (first_of_key own rows r only) ∙ rw k refl)

  -- Where the job's key has the one row `r`, a reported retry answers whether `r` runs the claim's
  -- attempt and has another one left. If so, the row keeps what it is of, has no lease, has the
  -- error's code, and is due from the given time on and not before; if not, the table stays as it
  -- is. No other row is touched.
  pub retry_quality_job-row :
      (code : String) (at now : ℕ)
      → keep_if own rows ≡ r ∷ []
      → (((retry_quality_job job code at now rows).0 ≡ true)
          ↔ (Holds job r × (r.retry_count < r.max_retry_count)))
        × ((retry_quality_job job code at now rows).0 ≡ true
            → (q : QualityJobRow) × (first_where own (retry_quality_job job code at now rows).1
                ≡ some q)
              × WaitsFor code at r q)
        × ((retry_quality_job job code at now rows).0 ≡ false
            → (retry_quality_job job code at now rows).1 ≡ rows)
        × (keep_if (λ q. not (own q)) (retry_quality_job job code at now rows).1
            ≡ keep_if (λ q. not (own q)) rows)
  unfolding retry_quality_job
  retry_quality_job-row code at now only =
      let within : (q : QualityJobRow) → may_retry job q ≡ true → own q ≡ true =
        λ q h. ground (arith, h) in
      let same : any (may_retry job) rows ≡ may_retry job r =
        answered (may_retry job) within only in
      (
        (λ h. (may_retry-Holds job r).0 (sym same ∙ h), λ h. same ∙ (may_retry-Holds job r).1 h),
        λ h.
            let (k, made) =
              changed (may_retry job) (retry_row code at now) (λ q. refl) within only h in
            (
              retry_row code at now r,
              made,
              retry_row-WaitsFor code at now r ((may_retry-Holds job r).0 k).1,
            ),
        update_where_none job (may_retry job) (retry_row code at now) rows,
        others-update_where own (may_retry job) (retry_row code at now) (λ q. refl) within rows,
      )

  -- Where the job's key has the one row `r`, a reported failure answers whether `r` runs the claim's
  -- attempt. If so, the row keeps what it is of, has failed with the error's code and an end, and is
  -- due at no time; if not, the table stays as it is. No other row is touched.
  pub fail_quality_job-row :
      (code : String) (now : ℕ)
      → keep_if own rows ≡ r ∷ []
      → (((fail_quality_job job code now rows).0 ≡ true) ↔ Holds job r)
        × ((fail_quality_job job code now rows).0 ≡ true
            → (q : QualityJobRow) × (first_where own (fail_quality_job job code now rows).1
                ≡ some q)
              × EndsAt code now r q)
        × ((fail_quality_job job code now rows).0 ≡ false
            → (fail_quality_job job code now rows).1 ≡ rows)
        × (keep_if (λ q. not (own q)) (fail_quality_job job code now rows).1
            ≡ keep_if (λ q. not (own q)) rows)
  unfolding fail_quality_job
  fail_quality_job-row code now only =
      let within : (q : QualityJobRow) → holds_claim job q ≡ true → own q ≡ true =
        λ q h. ground (arith, h) in
      let same : any (holds_claim job) rows ≡ holds_claim job r =
        answered (holds_claim job) within only in
      (
        (
          λ h. (holds_claim-Holds job r).0 (sym same ∙ h),
          λ h. same ∙ (holds_claim-Holds job r).1 h,
        ),
        λ h.
            let (_, made) =
              changed (holds_claim job) (fail_row code now) (λ q. refl) within only h in
            (fail_row code now r, made, fail_row-EndsAt code now r),
        update_where_none job (holds_claim job) (fail_row code now) rows,
        others-update_where own (holds_claim job) (fail_row code now) (λ q. refl) within rows,
      )
