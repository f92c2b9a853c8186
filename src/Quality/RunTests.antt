-- ===== src/Quality/RunTests.antt =====
-- The theorems about the workers at one inspection.
use enterprise_work_order_ai.Prelude.{
  ℕ, suc, ◌+◌, ◌≤◌, ◌≡◌, ◌≢◌, refl, map, Bool, true, false, some, List, [], ◌∷◌, ◌++◌, ◌==◌, arith,
  any, Bool-cases, inl, inr, if◌then◌else◌,
}
use enterprise_work_order_ai.Prelude.Exec.{ok, raise, Exec}
use enterprise_work_order_ai.Llm.Errors.{timeout}
use enterprise_work_order_ai.Quality.Callback.{
  deliver_all, mark_callback_delivered, read_pending, accepted, pending_callbacks, run_callbacks,
}
use enterprise_work_order_ai.Quality.Callback.Accepted.{AllDone, run_callbacks-AllDone}
use enterprise_work_order_ai.Quality.Callback.Marks.{Marked, run_callbacks-Marked}
use enterprise_work_order_ai.Quality.Errors.{Exc, provider, cancelled, other, runtime_error}
use enterprise_work_order_ai.Quality.Feed.{take_in}
use enterprise_work_order_ai.Quality.Feed.Delivered.{
  Feed, feed_source, Delivered, take_in-Delivered,
}
use enterprise_work_order_ai.Quality.Jobs.{
  recover_expired, complete_job, holds_claim, candidates, claim_quality_jobs,
}
use enterprise_work_order_ai.Quality.Intake.{create_from_event, quality_business_key}
use enterprise_work_order_ai.Prelude.Sql.{returning, update_where}
use enterprise_work_order_ai.Prelude.Text.{is_space, strip, ends_with}
use enterprise_work_order_ai.Quality.Models.{valid_claim, fields_forbidden, is_forbidden_key}
use enterprise_work_order_ai.Quality.Labels.{pass}
use enterprise_work_order_ai.Quality.Loops.{QualityLifecycle, WorkerLoop, visit, close, start}
use enterprise_work_order_ai.Quality.Loops.Shutdown.{
  run_latest_first, answers_latest_first, first_raised, closed_loops, close_complete,
}
use enterprise_work_order_ai.Quality.Loops.Visits.{after_all, visit-all}
use enterprise_work_order_ai.Quality.Models.{ClaimedQualityJob, QualityResultRecord}
use enterprise_work_order_ai.Quality.Samples.{db, runtime, event, claimed, result}
use enterprise_work_order_ai.Prelude.Sql.{order_by, first_where}
use enterprise_work_order_ai.Quality.Store.{Db, find_result, insert_findings}
use enterprise_work_order_ai.Quality.Tests.{
  pending_table, pending_reached, claimed_reached, saved_db,
}
use enterprise_work_order_ai.Quality.Worker.{QualityWorkerRunResult, handle, run_once}
use enterprise_work_order_ai.Quality.Worker.Release.{handle-released}
use enterprise_work_order_ai.Quality.Worker.Returns.{run_once_returns}
use enterprise_work_order_ai.Quality.Worker.Turns.{Course, run_once-Course}
use enterprise_work_order_ai.Quality.Worker.Runs.{repository, zero_tally}

abbrev free : ℕ → Bool
free _ = false

-- A processor that passes each job.
abbrev inspect : ClaimedQualityJob → Exec Db Exc QualityResultRecord
inspect job s =
    (ok result, record s { jobs = complete_job job.tenant_id job.id pass 77 150 s.jobs })

-- The tables once the event is taken in, and once its job is claimed.
pending_db : Db
pending_db = record { jobs = pending_table; audits = []; results = []; findings = [] }

run_once_returns_example :
    (r : QualityWorkerRunResult) × ((run_once
        (repository runtime free)
        inspect
        900
        (some 1000)
        1
        5
        pending_db).0
      ≡ ok r)
    × (r.succeeded + r.retried + r.failed ≤ r.claimed)
    × (r.recovered ≡ (recover_expired 1 1000 100 pending_db.jobs).0)
    × (r.completed_at ≡ 1000)
unfolding pending_db
run_once_returns_example =
    run_once_returns runtime free inspect (λ job db. tt) 900 1000 1 5 pending_db pending_reached
      refl

-- One job is claimed and inspected.
abbrev one_done : QualityWorkerRunResult
one_done = record {
  claimed = 1;
  succeeded = 1;
  retried = 0;
  failed = 0;
  recovered = 0;
  completed_at = 1000;
}

run_once-Course_example :
    Course
      (repository runtime free)
      inspect
      1000
      900
      1
      5
      pending_db
      one_done
      (run_once (repository runtime free) inspect 900 (some 1000) 1 5 pending_db).1
unfolding pending_db pending_table run_once create_from_event first_where quality_business_key
    claim_quality_jobs recover_expired candidates order_by returning update_where valid_claim
    fields_forbidden is_forbidden_key strip is_space ends_with
run_once-Course_example =
    run_once-Course (repository runtime free) inspect 1000 900 1 5 pending_db one_done
      (run_once (repository runtime free) inspect 900 (some 1000) 1 5 pending_db).1 refl

handle-released_example :
    any
      (holds_claim claimed)
      (handle (repository runtime free) 100 claimed zero_tally (raise (provider timeout)) db).1.jobs
    ≡ false
handle-released_example =
    handle-released claimed runtime free 100 zero_tally db (raise (provider timeout))
      claimed_reached (omega arith) tt

-- Tenant 2 always fails; the state is the tenants that were run.
abbrev flaky : ℕ → ℕ → Exec (List ℕ) Exc Bool
flaky t limit s = (if t == 2 then raise (other 0) else ok true, s ++ t ∷ [])

never_cancelled : (t : ℕ) (s : List ℕ) → (flaky t 20 s).0 ≢ raise cancelled
never_cancelled t s = elim (Bool-cases (t == 2)) [ inl q ↦ rw q (λ h. cc) | inr q ↦ rw q (λ h. cc) ]

visit-all_example :
    visit (λ (s : List ℕ). false) flaky 20 (1 ∷ 2 ∷ 3 ∷ []) []
    ≡ (ok true, after_all (λ (s : List ℕ). false) flaky 20 (1 ∷ 2 ∷ 3 ∷ []) [])
visit-all_example =
    visit-all (λ (s : List ℕ). false) flaky 20 (1 ∷ 2 ∷ 3 ∷ []) [] (λ t r h. refl) never_cancelled
      refl

-- Two loops, of which the second fails as it closes; the state counts the calls.
abbrev life : QualityLifecycle ℕ
life = record {
  worker_loops =
      record { start = λ s. (ok true, s); close = λ s. (ok true, suc s) }
      ∷ record { start = λ s. (ok true, s); close = λ s. (raise (other 4), suc s) }
      ∷ [];
  shutdown_callbacks = (λ s. (ok true, suc s)) ∷ [];
  started = true;
  closed = false;
  world = 0;
}

close_complete_example :
    ((close life).1.world
      ≡ run_latest_first life.shutdown_callbacks
          (run_latest_first (map (λ (l : WorkerLoop ℕ). l.close) life.worker_loops) 0))
    × ((close life).0
        ≡ first_raised (
            answers_latest_first (map (λ (l : WorkerLoop ℕ). l.close) life.worker_loops) 0
            ++ answers_latest_first life.shutdown_callbacks (closed_loops life)))
    × (close (close life).1 ≡ (ok true, (close life).1))
    × (start (close life).1 ≡ (raise runtime_error, (close life).1))
close_complete_example = close_complete life refl

abbrev nothing_told : Feed
nothing_told = record { jobs = []; told = [] }

take_in-Delivered_example :
    Delivered runtime 5 free
      (λ _. event ∷ [])
      (event ∷ [])
      nothing_told
      (take_in (feed_source runtime 5 free (λ _. event ∷ [])) (event ∷ []) 0 nothing_told).1
      (take_in (feed_source runtime 5 free (λ _. event ∷ [])) (event ∷ []) 0 nothing_told).0
take_in-Delivered_example =
    take_in-Delivered runtime 5 free (λ _. event ∷ []) (event ∷ []) 0 nothing_told

run_callbacks-Marked_example :
    Marked
      (λ _. accepted)
      (λ _. 300)
      1
      (pending_callbacks 1 5 saved_db)
      saved_db.results
      (run_callbacks (λ _. accepted) (λ _. 300) 1 5 saved_db).1.results
run_callbacks-Marked_example = run_callbacks-Marked (λ _. accepted) (λ _. 300) 1 5 saved_db

-- The saved result is selected and delivered.
delivered_run :
    (run_callbacks (λ _. accepted) (λ _. 300) 1 5 saved_db).0
    ≡ ok (record { selected = 1; delivered = 1; pending = 0 })
unfolding run_callbacks pending_callbacks deliver_all mark_callback_delivered read_pending saved_db
    order_by find_result first_where insert_findings
delivered_run = refl

run_callbacks-AllDone_example :
    AllDone
      (λ _. accepted)
      (λ _. 300)
      1
      (pending_callbacks 1 5 saved_db)
      (run_callbacks (λ _. accepted) (λ _. 300) 1 5 saved_db).1
run_callbacks-AllDone_example =
    run_callbacks-AllDone (λ _. accepted) (λ _. 300) 1 5 saved_db
      (record { selected = 1; delivered = 1; pending = 0 }) delivered_run
