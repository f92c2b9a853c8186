-- ===== src/Knowledge/Worker/Released.antt =====
-- What the embedding worker keeps of its claims.
use mathlib.Core.Path.{subst}
use enterprise_work_order_ai.Prelude.{
  ℕ, ◌≡◌, refl, sym, ap, ◌∙◌, Bool, true, false, not, ◌&&◌, Option, none, some, List, [], ◌∷◌, map,
  arith, ◌==◌, ==_refl, All, All-weaken, Bool-cases, inl, inr, ◌+◌,
}
use enterprise_work_order_ai.Prelude.Exec.{Outcome, ok, raise, Exec, bind-ok, ◌>>=◌, pure, ◌>>◌}
use enterprise_work_order_ai.Prelude.Text.{Str, str_eq, elem}
use enterprise_work_order_ai.Knowledge.Models.{ClaimedEmbeddingJob}
use enterprise_work_order_ai.Knowledge.Rows.{Failure}
use enterprise_work_order_ai.Knowledge.Worker.{
  EmbedError, embedding_error, other_error, interrupted, EmbeddingServices, Claims, WorkerState,
  WorkerRunResult, EmbeddingTally, find_claim, set_claim, pop_claim, conflicts, on_store, remember,
  claim_batch, with_claim, report_success, report_retry, report_failure, retry_later,
  handle_embedded, embed_job, embed_jobs, run_summary, run_embeddings,
}

-- Each claim is one of these jobs'.
OnlyFor : List ℕ → Claims → Type 0
OnlyFor ids = All (λ (c : ℕ × ClaimedEmbeddingJob). elem c.0 ids ≡ true)

job_ids : List ClaimedEmbeddingJob → List ℕ
job_ids = map (λ (j : ClaimedEmbeddingJob). j.id)

pop_claim-OnlyFor :
    (id : ℕ) (ids : List ℕ) (claims : Claims)
    → OnlyFor (id ∷ ids) claims
    → OnlyFor ids (pop_claim id claims)
unfolding OnlyFor pop_claim
pop_claim-OnlyFor id ids [] h = tt
pop_claim-OnlyFor id ids (c ∷ claims) h = elim (Bool-cases (c.0 == id)) [
  | inl q ↦ rw q (pop_claim-OnlyFor id ids claims h.1)
  | inr q ↦ rw q (kept c q h.0, pop_claim-OnlyFor id ids claims h.1)
]
  where
    kept :
        (c : ℕ × ClaimedEmbeddingJob)
        → (c.0 == id) ≡ false
        → elem c.0 (id ∷ ids) ≡ true
        → elem c.0 ids ≡ true
    kept c q k = ground (arith, q, k)

set_claim-OnlyFor :
    (job : ClaimedEmbeddingJob) (ids : List ℕ) (claims : Claims)
    → elem job.id ids ≡ true
    → OnlyFor ids claims
    → OnlyFor ids (set_claim job claims)
unfolding OnlyFor set_claim
set_claim-OnlyFor job ids [] m h = (m, tt)
set_claim-OnlyFor job ids (c ∷ claims) m h = elim (Bool-cases (c.0 == job.id)) [
  | inl q ↦ rw q (m, h.1)
  | inr q ↦ rw q (h.0, set_claim-OnlyFor job ids claims m h.1)
]

none_for_none : (claims : Claims) → OnlyFor [] claims → claims ≡ []
unfolding OnlyFor
none_for_none [] h = refl
none_for_none (c ∷ claims) h = cc

module _ {S : Type 0} (services : EmbeddingServices S) where
  -- Two answers that are equal, with the states they leave.
  state_of :
      {A : Type 0} {o o' : Outcome Failure A} {x y : WorkerState S}
      → ◌≡◌ {A = Outcome Failure A × WorkerState S} (o, x) (o', y)
      → x ≡ y
  state_of {A} h = ap (λ (x : Outcome Failure A × WorkerState S). x.1) h

  raise_ne :
      {A : Type 0} {e : Failure} {b : A} {x y : WorkerState S}
      → ◌≡◌ {A = Outcome Failure A × WorkerState S} (raise e, x) (ok b, y)
      → ⊥
  raise_ne {A} {e} {b} h = cannot (ap (λ (x : Outcome Failure A × WorkerState S). x.0) h)
    where
      cannot : ◌≡◌ {A = Outcome Failure A} (raise e) (ok b) → ⊥
      cannot k = cc

  with_claim-pop :
      (job_id : ℕ) (job : Option ClaimedEmbeddingJob)
      (call : ClaimedEmbeddingJob → Exec S Failure Bool) (w w' : WorkerState S) (b : Bool)
      → with_claim services job_id job call w ≡ (ok b, w')
      → pop_claim job_id w.1 ≡ w'.1
  with_claim-pop job_id none call w w' b h = absurd (raise_ne h)
  with_claim-pop job_id (some job) call w w' b h =
      let (changed, mid, called, popped) = bind-ok (on_store services (call job)) _ w h in
      ap (λ (x : Outcome Failure Bool × WorkerState S). pop_claim job_id x.1.1) called
      ∙ ap (λ (x : WorkerState S). x.1) (state_of popped)

  retry_later-pop :
      (job : ClaimedEmbeddingJob) (code : Str) (t t' : EmbeddingTally) (w w' : WorkerState S)
      → retry_later services job code t w ≡ (ok t', w')
      → pop_claim job.id w.1 ≡ w'.1
  retry_later-pop job code t t' w w' h =
      let (changed, mid, called, counted) =
        bind-ok
          (report_retry services job.id code (services.clock w.0 + services.retry_delay_seconds)) _
          w h in
      with_claim-pop job.id (find_claim job.id w.1) _ w mid changed called
      ∙ ap (λ (x : WorkerState S). x.1) (state_of counted)

  handle_embedded-pop :
      (job : ClaimedEmbeddingJob) (t t' : EmbeddingTally) (o : Outcome EmbedError (List (List ℕ)))
      (w w' : WorkerState S)
      → handle_embedded services job t o w ≡ (ok t', w')
      → pop_claim job.id w.1 ≡ w'.1
  unfolding handle_embedded
  handle_embedded-pop job t t' (ok []) w w' h = retry_later-pop job _ t t' w w' h
  handle_embedded-pop job t t' (ok (vector ∷ _)) w w' h =
      let (changed, mid, called, counted) = bind-ok (report_success services job.id vector) _ w h in
      with_claim-pop job.id (find_claim job.id w.1) _ w mid changed called
      ∙ ap (λ (x : WorkerState S). x.1) (state_of counted)
  handle_embedded-pop job t t' (raise (embedding_error code true)) w w' h =
      retry_later-pop job code t t' w w' h
  handle_embedded-pop job t t' (raise (embedding_error code false)) w w' h =
      let (changed, mid, called, counted) = bind-ok (report_failure services job.id code) _ w h in
      with_claim-pop job.id (find_claim job.id w.1) _ w mid changed called
      ∙ ap (λ (x : WorkerState S). x.1) (state_of counted)
  handle_embedded-pop job t t' (raise other_error) w w' h = retry_later-pop job _ t t' w w' h
  handle_embedded-pop job t t' (raise interrupted) w w' h = absurd (raise_ne h)

  embed_jobs-none_left :
      (jobs : List ClaimedEmbeddingJob) (t t' : EmbeddingTally) (w w' : WorkerState S)
      → OnlyFor (job_ids jobs) w.1
      → embed_jobs services jobs t w ≡ (ok t', w')
      → w'.1 ≡ []
  unfolding embed_jobs embed_job job_ids
  embed_jobs-none_left [] t t' w w' c h =
      ap (λ (x : WorkerState S). x.1) (sym (state_of h)) ∙ none_for_none w.1 c
  embed_jobs-none_left (job ∷ jobs) t t' w w' c h =
      let (t1, mid, handled, rest) = bind-ok (embed_job services job t) _ w h in
      embed_jobs-none_left jobs t1 t' mid w'
        (subst (OnlyFor (job_ids jobs)) (handle_embedded-pop job t t1 _ _ mid handled)
          (pop_claim-OnlyFor job.id (job_ids jobs) w.1 c))
        rest

  remember-OnlyFor :
      (tenant : ℕ) (ids : List ℕ) (jobs : List ClaimedEmbeddingJob) (w : WorkerState S)
      → All (λ (j : ClaimedEmbeddingJob). elem j.id ids ≡ true) jobs
      → OnlyFor ids w.1
      → OnlyFor ids (remember services tenant jobs w).1.1
  unfolding remember
  remember-OnlyFor tenant ids [] w m h = h
  remember-OnlyFor tenant ids (job ∷ jobs) w m h =
      elim (Bool-cases (
        job.tenant_id == tenant
        && str_eq job.model_key services.provider_model_key
        && not (conflicts job (find_claim job.id w.1)))) [
          | inl q ↦ rw q (
              remember-OnlyFor tenant ids jobs (w.0, set_claim job w.1) m.1
                (set_claim-OnlyFor job ids w.1 m.0 h))
          | inr q ↦ rw q h
        ]

own_ids :
    (jobs : List ClaimedEmbeddingJob)
    → All (λ (j : ClaimedEmbeddingJob). elem j.id (job_ids jobs) ≡ true) jobs
unfolding job_ids
own_ids [] = tt
own_ids (job ∷ jobs) =
    (rw (==_refl job.id) refl, All-weaken _ _ jobs (λ j k. ground (arith, k)) (own_ids jobs))

module _ {S : Type 0} (services : EmbeddingServices S) where
  claim_batch-OnlyFor :
      (tenant limit : ℕ) (w w' : WorkerState S) (jobs : List ClaimedEmbeddingJob)
      → w.1 ≡ []
      → claim_batch services tenant limit w ≡ (ok jobs, w')
      → OnlyFor (job_ids jobs) w'.1
  unfolding claim_batch OnlyFor
  claim_batch-OnlyFor tenant limit w w' jobs none_yet h =
      let (taken, mid, called, rest) =
        bind-ok
          (on_store services
            (services.claim_jobs tenant limit services.provider_model_key (services.clock w.0)))
          (λ jobs. remember services tenant jobs >> pure jobs) w h in
      let (done, last, remembered, answer) =
        bind-ok (remember services tenant taken) (λ _. pure taken) mid rest in
      let same : taken ≡ jobs =
        ok_inj
          (ap (λ (x : Outcome Failure (List ClaimedEmbeddingJob) × WorkerState S). x.0) answer) in
      let empty : OnlyFor (job_ids taken) mid.1 =
        subst (OnlyFor (job_ids taken))
          (sym none_yet
            ∙ ap (λ (x : Outcome Failure (List ClaimedEmbeddingJob) × WorkerState S). x.1.1) called)
          tt in
      let kept = remember-OnlyFor services tenant (job_ids taken) taken mid (own_ids taken) empty in
      subst (λ (x : List ClaimedEmbeddingJob). OnlyFor (job_ids x) w'.1) same
        (subst (OnlyFor (job_ids taken))
          (ap (λ (x : Outcome Failure Bool × WorkerState S). x.1.1) remembered
            ∙ ap (λ (x : Outcome Failure (List ClaimedEmbeddingJob) × WorkerState S). x.1.1) answer)
          kept)
    where
      ok_inj :
          {x y : List ClaimedEmbeddingJob}
          → ◌≡◌ {A = Outcome Failure (List ClaimedEmbeddingJob)} (ok x) (ok y)
          → x ≡ y
      ok_inj k = cc

  -- A worker that holds no claim holds none after a run that returns, whatever its repository and
  -- its provider answer: each job that the run claimed was reported, and its claim given up.
  pub run_embeddings-none_left :
      (tenant limit : ℕ) (w w' : WorkerState S) (r : WorkerRunResult)
      → w.1 ≡ []
      → run_embeddings services tenant limit w ≡ (ok r, w')
      → w'.1 ≡ []
  unfolding run_embeddings
  run_embeddings-none_left tenant limit w w' r none_yet h =
      let (jobs, mid, taken, rest) =
        bind-ok (claim_batch services tenant limit)
          (λ jobs.
            embed_jobs services jobs (record { succeeded = 0; retried = 0; failed = 0 }) >>= λ t.
            run_summary services jobs t)
          w h in
      let (t, last, reported, summed) =
        bind-ok (embed_jobs services jobs (record { succeeded = 0; retried = 0; failed = 0 }))
          (λ t. run_summary services jobs t) mid rest in
      ap (λ (x : Outcome Failure WorkerRunResult × WorkerState S). x.1.1) (sym summed)
      ∙ embed_jobs-none_left services jobs _ t mid last
          (claim_batch-OnlyFor tenant limit w mid jobs none_yet taken) reported
