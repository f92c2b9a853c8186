-- ===== src/Quality/Worker/Turns.antt =====
-- What a run of the worker does, job by job.
use mathlib.Core.Path.{subst}
use enterprise_work_order_ai.Prelude.{
  ℕ, suc, ◌+◌, ◌-◌, ◌≤◌, ◌<◌, ◌≡◌, refl, ap, String, Bool, true, false, some, none, List, [], ◌∷◌,
  Option, arith, Bool-cases, inl, inr, ltb, ◌==◌, length,
}
use enterprise_work_order_ai.Prelude.Exec.{Outcome, ok, raise, Exec, bind-ok}
use enterprise_work_order_ai.Llm.Errors.{ProviderError, code, retryable}
use enterprise_work_order_ai.Quality.Errors.{
  Exc, provider, quality_output, type_error, value_error, runtime_error, integrity_error, cancelled,
  other,
}
use enterprise_work_order_ai.Quality.Models.{ClaimedQualityJob, QualityResultRecord}
use enterprise_work_order_ai.Quality.Worker.{
  QualityWorkerRepository, QualityWorkerRunResult, Tally, retry_delay, valid_limit,
  max_model_attempts, count_failed, count_retried, fail_job, retry_job, handle, run_job, run_jobs,
  run_claimed, claim_and_run, run_at, run_once,
}
use enterprise_work_order_ai.Quality.Worker.Delay.{retry_delay-le}

-- The error ends the job's attempts: what a provider says for good or at the third attempt, an answer
-- out of the schema, or an input that cannot be inspected; with the code that is reported.
pub data IsFinal (job : ClaimedQualityJob) : Exc → String → Type 0 where
  permanent : (e : ProviderError) → retryable e ≡ false → IsFinal job (provider e) (code e)
  last_attempt : (e : ProviderError) → 3 ≤ job.retry_count → IsFinal job (provider e) (code e)
  bad_output : IsFinal job quality_output "QUALITY_OUTPUT_INVALID"
  bad_type : IsFinal job type_error "QUALITY_INPUT_INVALID"
  bad_value : IsFinal job value_error "QUALITY_INPUT_INVALID"

-- One more where the repository says that a row was changed.
abbrev pub if_changed : Bool → ℕ → ℕ
if_changed true n = suc n
if_changed false n = n

module _ {S : Type 0} (repository : QualityWorkerRepository S)
    (process : ClaimedQualityJob → Exec S Exc QualityResultRecord) (now : ℕ) where
  -- The turn of one job, from the counters `t` and the state `s` on.
  pub data Turn (job : ClaimedQualityJob) (t : Tally) (s : S) : Tally → S → Type 0 where
    inspected :
        (r : QualityResultRecord) {s' : S}
        → process job s ≡ (ok r, s')
        → Turn job t s (record t { succeeded = suc t.succeeded }) s'
    put_off :
        (e : ProviderError) (mid : S) (at : ℕ) (changed : Bool) {s' : S}
        → process job s ≡ (raise (provider e), mid)
        → retryable e ≡ true
        → job.retry_count < 3
        → now + 300 ≤ at
        → at ≤ now + 3600
        → repository.retry_quality_job job (code e) at now mid ≡ (ok changed, s')
        → Turn job t s (record t { retried = if_changed changed t.retried }) s'
    given_up :
        (e : Exc) (error_code : String) (mid : S) (changed : Bool) {s' : S}
        → process job s ≡ (raise e, mid)
        → IsFinal job e error_code
        → repository.fail_quality_job job error_code now mid ≡ (ok changed, s')
        → Turn job t s (record t { failed = if_changed changed t.failed }) s'

  -- A turn of each job, in their order, all of the one tenant.
  pub data Turns (tenant : ℕ) : List ClaimedQualityJob → Tally → S → Tally → S → Type 0 where
    no_more : {t : Tally} {s : S} → Turns tenant [] t s t s
    then_rest :
        {job : ClaimedQualityJob} {jobs : List ClaimedQualityJob} {t t' t'' : Tally} {s s' s'' : S}
        → job.tenant_id ≡ tenant
        → Turn job t s t' s'
        → Turns tenant jobs t' s' t'' s''
        → Turns tenant (job ∷ jobs) t s t'' s''

  tally_of : Tally → Outcome Exc Tally → Tally
  tally_of t (ok t') = t'
  tally_of t (raise e) = t

  raised_ne :
      {A : Type 0} {e : Exc} {a : A} {s s' : S}
      → ◌≡◌ {A = Outcome Exc A × S} (raise e, s) (ok a, s')
      → ⊥
  raised_ne {A} h = ne (ap (λ (x : Outcome Exc A × S). x.0) h)
    where
      ne : {e : Exc} {a : A} → raise e ≡ ok a → ⊥
      ne q = cc

  module _ (job : ClaimedQualityJob) (t : Tally) (s : S) where
    ends :
        {a t' : Tally} {b s' : S}
        → ◌≡◌ {A = Outcome Exc Tally × S} (ok a, b) (ok t', s')
        → Turn job t s a b
        → Turn job t s t' s'
    unfolding tally_of
    ends h turn = subst (λ (x : Outcome Exc Tally × S). Turn job t s (tally_of t x.0) x.1) h turn

    fail_job-Turn :
        (e : Exc) (error_code : String) (mid : S) {t' : Tally} {s' : S}
        → process job s ≡ (raise e, mid)
        → IsFinal job e error_code
        → fail_job repository now job error_code t mid ≡ (ok t', s')
        → Turn job t s t' s'
    fail_job-Turn e error_code mid raised final h =
        let (changed, after, called, done) =
          bind-ok (repository.fail_quality_job job error_code now) _ mid h in
        split changed called done
      where
        split :
            (changed : Bool) {after : S} {t' : Tally} {s' : S}
            → repository.fail_quality_job job error_code now mid ≡ (ok changed, after)
            → ◌≡◌ {A = Outcome Exc Tally × S} (ok (count_failed t changed), after) (ok t', s')
            → Turn job t s t' s'
        split true called done = ends done (given_up e error_code mid true raised final called)
        split false called done = ends done (given_up e error_code mid false raised final called)

    retry_job-Turn :
        (e : ProviderError) (mid : S) (delay : Option ℕ) {t' : Tally} {s' : S}
        → process job s ≡ (raise (provider e), mid)
        → retryable e ≡ true
        → job.retry_count < 3
        → retry_delay job.retry_count ≡ delay
        → retry_job repository now job e t delay mid ≡ (ok t', s')
        → Turn job t s t' s'
    retry_job-Turn e mid none raised again left d h = absurd (raised_ne h)
    retry_job-Turn e mid (some delay) raised again left d h =
        let (changed, after, called, done) =
          bind-ok (repository.retry_quality_job job (code e) (now + delay) now) _ mid h in
        split changed called done
      where
        put :
            (changed : Bool) {after : S}
            → repository.retry_quality_job job (code e) (now + delay) now mid ≡ (ok changed, after)
            → Turn job t s (record t { retried = if_changed changed t.retried }) after
        put changed called =
            put_off e mid (now + delay) changed raised again left
              (omega (arith, (retry_delay-le job.retry_count d).0))
              (omega (arith, (retry_delay-le job.retry_count d).1)) called

        split :
            (changed : Bool) {after : S} {t' : Tally} {s' : S}
            → repository.retry_quality_job job (code e) (now + delay) now mid ≡ (ok changed, after)
            → ◌≡◌ {A = Outcome Exc Tally × S} (ok (count_retried t changed), after) (ok t', s')
            → Turn job t s t' s'
        split true called done = ends done (put true called)
        split false called done = ends done (put false called)

    handle-Turn :
        (o : Outcome Exc QualityResultRecord) (mid : S) {t' : Tally} {s' : S}
        → process job s ≡ (o, mid)
        → handle repository now job t o mid ≡ (ok t', s')
        → Turn job t s t' s'
    unfolding handle
    handle-Turn (ok r) mid did h = ends h (inspected r did)
    handle-Turn (raise (provider e)) mid did h = elim (Bool-cases (retryable e)) [
      | inr q ↦ fail_job-Turn (provider e) (code e) mid did (permanent e q) (rw q at h)
      | inl q ↦ elim (Bool-cases (ltb job.retry_count max_model_attempts)) [
        | inl l ↦
            retry_job-Turn e mid (retry_delay job.retry_count) did q (ground (arith, l)) refl
              (rw (q, l) at h)
        | inr l ↦
            fail_job-Turn (provider e) (code e) mid did (last_attempt e (ground (arith, l)))
              (rw (q, l) at h)
      ]
    ]
    handle-Turn (raise quality_output) mid did h = fail_job-Turn _ _ mid did bad_output h
    handle-Turn (raise type_error) mid did h = fail_job-Turn _ _ mid did bad_type h
    handle-Turn (raise value_error) mid did h = fail_job-Turn _ _ mid did bad_value h
    handle-Turn (raise runtime_error) mid did h = absurd (raised_ne h)
    handle-Turn (raise integrity_error) mid did h = absurd (raised_ne h)
    handle-Turn (raise cancelled) mid did h = absurd (raised_ne h)
    handle-Turn (raise (other n)) mid did h = absurd (raised_ne h)

  run_jobs-Turns :
      (tenant : ℕ) (jobs : List ClaimedQualityJob) (t : Tally) (s : S) {t' : Tally} {s' : S}
      → run_jobs repository process tenant now jobs t s ≡ (ok t', s')
      → Turns tenant jobs t s t' s'
  unfolding run_jobs run_job tally_of
  run_jobs-Turns tenant [] t s h =
      subst (λ (x : Outcome Exc Tally × S). Turns tenant [] t s (tally_of t x.0) x.1) h no_more
  run_jobs-Turns tenant (job ∷ jobs) t s h =
      let (t1, s1, first, rest) = bind-ok (run_job repository process tenant now job t) _ s h in
      elim (Bool-cases (job.tenant_id == tenant)) [
        | inl own ↦
            then_rest (ground (arith, own))
              (handle-Turn job t s (process job s).0 (process job s).1 refl (rw own at first))
              (run_jobs-Turns tenant jobs t1 s1 rest)
        | inr foreign ↦ absurd (raised_ne (rw foreign at first))
      ]

  -- The course of a run that returns: the limit is from one to twenty; first the jobs are recovered
  -- whose lease ended `lease` seconds ago, then jobs are claimed, and then each of these has its turn
  -- with a tally that starts at zero, which with the two numbers is the result.
  pub record Course (lease tenant limit : ℕ) (s : S) (r : QualityWorkerRunResult) (end : S)
      : Type 0 where
    pub allowed : (1 ≤ limit) × (limit ≤ 20)
    pub recovered_state : S
    pub recovery :
        repository.recover_expired tenant now (now - lease) s ≡ (ok r.recovered, recovered_state)
    pub jobs : List ClaimedQualityJob
    pub claimed_state : S
    pub claims :
        repository.claim_quality_jobs tenant limit now recovered_state ≡ (ok jobs, claimed_state)
    pub turns :
        Turns tenant jobs
          (record { succeeded = 0; retried = 0; failed = 0 })
          claimed_state
          (record { succeeded = r.succeeded; retried = r.retried; failed = r.failed })
          end
    pub reported : (r.claimed ≡ length jobs) × (r.completed_at ≡ now)

  result_of : QualityWorkerRunResult → Outcome Exc QualityWorkerRunResult → QualityWorkerRunResult
  result_of r (ok r') = r'
  result_of r (raise e) = r

  -- A run that returns has this course, whatever the repository and the processor do: at most twenty
  -- jobs are asked for; the jobs whose lease has ended are recovered first; of the claimed jobs, each
  -- in turn is inspected once, and then left as it is if the inspection returned, retried from five
  -- minutes to an hour later if the provider's error may pass and fewer than three attempts are
  -- counted, and failed if the error is final; and the result counts the turns.
  pub run_once-Course :
      (lease tenant limit : ℕ) (s : S) (r : QualityWorkerRunResult) (end : S)
      → run_once repository process lease (some now) tenant limit s ≡ (ok r, end)
      → Course lease tenant limit s r end
  unfolding run_once run_at claim_and_run run_claimed result_of
  run_once-Course lease tenant limit s r end h = elim (Bool-cases (valid_limit limit)) [
    | inr refused ↦ absurd (raised_ne (rw refused at h))
    | inl accepted ↦
        let (n, s1, recovery, h1) =
          bind-ok (repository.recover_expired tenant now (now - lease))
            (claim_and_run repository process tenant limit now) s (rw accepted at h) in
        let (jobs, s2, claims, h2) =
          bind-ok (repository.claim_quality_jobs tenant limit now)
            (run_claimed repository process tenant now n) s1 h1 in
        let (t, s3, turns, done) =
          bind-ok
            (run_jobs repository process tenant now jobs
              (record { succeeded = 0; retried = 0; failed = 0 }))
            _ s2 h2 in
        let course : Course lease tenant limit s
            (record {
              claimed = length jobs;
              succeeded = t.succeeded;
              retried = t.retried;
              failed = t.failed;
              recovered = n;
              completed_at = now;
            })
            s3 =
          record {
            allowed = (ground (arith, accepted), ground (arith, accepted));
            recovered_state = s1;
            recovery = recovery;
            jobs = jobs;
            claimed_state = s2;
            claims = claims;
            turns = run_jobs-Turns tenant jobs _ s2 turns;
            reported = (refl, refl);
          } in
        subst
          (λ (x : Outcome Exc QualityWorkerRunResult × S).
            Course lease tenant limit s (result_of r x.0) x.1)
          done course
  ]
