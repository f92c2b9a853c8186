-- ===== src/Quality/Feed.antt =====
-- The worker that takes completion events in
-- (`QualityEventIntakeWorker` in apps/ai-service/app/quality/worker.py).
pub mod Delivered
use enterprise_work_order_ai.Prelude.{
  ℕ, suc, Bool, true, false, not, List, [], ◌∷◌, ◌==◌, any, length, if◌then◌else◌,
}
use enterprise_work_order_ai.Prelude.Exec.{Outcome, ok, raise, Exec, pure, throw, ◌>>=◌, ◌>>◌}
use enterprise_work_order_ai.Quality.Errors.{Exc, runtime_error}
use enterprise_work_order_ai.Quality.Models.{ClaimedQualityEvent, QualityJob}

-- `QualityEventSource` and `QualityEventRepository`; what `acknowledge` returns is not read.
pub record EventSource (S : Type 0) : Type 0 where
  pub claim_events : (limit : ℕ) → Exec S Exc (List ClaimedQualityEvent)
  pub acknowledge : (event_id : ℕ) → Exec S Exc Bool
  pub create_from_event : ClaimedQualityEvent → Exec S Exc QualityJob

pub record QualityEventRunResult : Type 0 where
  pub claimed : ℕ
  pub acknowledged : ℕ

module _ {S : Type 0} (source : EventSource S) where
  unfoldable pub take_in : List ClaimedQualityEvent → ℕ → Exec S Exc ℕ
  take_in [] acknowledged = pure acknowledged
  take_in (e ∷ events) acknowledged = source.create_from_event e >>= λ job.
      source.acknowledge e.event_id >>= λ answer. take_in events (suc acknowledged)

  unfoldable pub take_in_all : ℕ → List ClaimedQualityEvent → Exec S Exc QualityEventRunResult
  unfolding take_in
  take_in_all tenant events s =
      let run =
        (take_in events 0 >>= λ n. pure (record { claimed = length events; acknowledged = n })) s in
      if any (λ (e : ClaimedQualityEvent). not (e.tenant_id == tenant)) events
      then (raise runtime_error, s)
      else run

  -- `QualityEventIntakeWorker.run_once`
  unfoldable pub run_intake : ℕ → ℕ → Exec S Exc QualityEventRunResult
  unfolding take_in_all
  run_intake tenant limit = source.claim_events limit >>= take_in_all tenant
