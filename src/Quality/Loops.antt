-- ===== src/Quality/Loops.antt =====
-- The polling loop of a worker, and the start and the end of all loops
-- (`TenantWorkerLoop` and `QualityLifecycle` in apps/ai-service/app/quality/worker.py).
-- A call is an `Exec`; what other tasks do meanwhile is part of what the call does to the state.
pub mod Visits
pub mod Shutdown
use enterprise_work_order_ai.Prelude.{
  ℕ, zero, suc, Bool, true, false, not, ◌&&◌, ◌||◌, Option, none, some, List, [], ◌∷◌, ◌++◌, map,
  reverse, ltb, leb, ◌==◌, length, if◌then◌else◌,
}
use enterprise_work_order_ai.Prelude.Exec.{Outcome, ok, raise, Exec, pure, throw, after, ◌>>=◌}
use enterprise_work_order_ai.Prelude.Text.{Str, strip, nonempty, elem}
use enterprise_work_order_ai.Quality.Errors.{
  Exc, provider, quality_output, type_error, value_error, runtime_error, integrity_error, cancelled,
  other,
}
use enterprise_work_order_ai.Quality.Worker.{valid_limit}

-- `len(set(tenant_ids))`
abbrev pub distinct_ids : List ℕ → ℕ
distinct_ids [] = 0
distinct_ids (t ∷ ts) = let rest = distinct_ids ts in if elem t ts then rest else suc rest

-- `TenantWorkerLoop.__init__`: whether it returns. An interval that is not finite is `none`.
unfoldable pub valid_loop : List ℕ → Str → Option ℕ → ℕ → Bool
unfolding strip
valid_loop tenant_ids task_name none batch_limit = false
valid_loop tenant_ids task_name (some poll_interval) batch_limit =
    valid_limit batch_limit
    && ltb 0 poll_interval
    && distinct_ids tenant_ids == length tenant_ids
    && nonempty (strip task_name)

module _ {S A : Type 0} (stopped : S → Bool) (run_once : ℕ → ℕ → Exec S Exc A)
    (batch_limit : ℕ) where
  -- The `except` clauses around `run_once`: false where the exception goes on.
  abbrev pub is_swallowed : Outcome Exc A → Bool
  is_swallowed (raise cancelled) = false
  is_swallowed _ = true

  -- The `for` over the tenants; true where it comes to its end, false where it returns.
  unfoldable pub visit : List ℕ → Exec S Exc Bool
  visit [] s = (ok true, s)
  visit (t ∷ ts) s =
      let rest = visit ts (run_once t batch_limit s).1 in
      if stopped s
      then (ok false, s)
      else if is_swallowed (run_once t batch_limit s).0
      then rest
      else (raise cancelled, (run_once t batch_limit s).1)

  -- `_run` along the waits between the rounds, of which there are as many as `waits` tells; a wait
  -- that the stop ends or that times out is `ok`, a cancelled one raises. At the end of `waits` the
  -- loop is as far as it has come.
  unfoldable pub run : List (Exec S Exc Bool) → List ℕ → Exec S Exc Bool
  unfolding visit
  run [] tenants s = (ok (stopped s), s)
  run (wait ∷ waits) tenants s =
      let round =
        (visit tenants >>= λ finished t.
        if finished then (wait >>= λ _. run waits tenants) t else (ok true, t))
          s in
      if stopped s then (ok true, s) else round

-- A loop as the lifecycle uses it.
pub record WorkerLoop (S : Type 0) : Type 0 where
  pub start : Exec S Exc Bool
  pub close : Exec S Exc Bool

pub record QualityLifecycle (S : Type 0) : Type 0 where
  pub worker_loops : List (WorkerLoop S)
  pub shutdown_callbacks : List (Exec S Exc Bool)
  pub started : Bool
  pub closed : Bool
  pub world : S

abbrev pub first_error : Option Exc → Outcome Exc Bool → Option Exc
first_error (some e) o = some e
first_error none (ok _) = none
first_error none (raise e) = some e

abbrev pub is_ok : Outcome Exc Bool → Bool
is_ok (ok _) = true
is_ok (raise e) = false

abbrev pub reraise : Option Exc → Outcome Exc Bool
reraise none = ok true
reraise (some e) = raise e

module _ {S : Type 0} where
  -- The `except BaseException` of `start`; an error of a `close` takes the place of the first one.
  unfoldable pub close_started : List (WorkerLoop S) → Exc → Exec S Exc Bool
  close_started [] e = throw e
  close_started (l ∷ ls) e = l.close >>= λ _. close_started ls e

  unfoldable pub start_loops : List (WorkerLoop S) → List (WorkerLoop S) → Exec S Exc Bool
  unfolding close_started
  start_loops [] running s = (ok true, s)
  start_loops (l ∷ ls) running s = elim (l.start s).0 [
    | ok _ ↦ start_loops ls (l ∷ running) (l.start s).1
    | raise e ↦ close_started running e (l.start s).1
  ]

  -- `QualityLifecycle.start`
  unfoldable pub start : QualityLifecycle S → Outcome Exc Bool × QualityLifecycle S
  unfolding start_loops
  start life =
      let done = start_loops life.worker_loops [] life.world in
      if life.closed
      then (raise runtime_error, life)
      else if life.started
      then (ok true, life)
      else (done.0, record life { started = is_ok done.0; world = done.1 })

  -- The `try`s of `close`, with the first error so far.
  unfoldable pub close_all : List (Exec S Exc Bool) → Option Exc → S → Option Exc × S
  close_all [] e s = (e, s)
  close_all (m ∷ ms) e s = close_all ms (first_error e (m s).0) (m s).1

  -- The loops, the latest first, and the callbacks, the latest first.
  abbrev pub closing : QualityLifecycle S → List (Exec S Exc Bool)
  closing life =
      map (λ (l : WorkerLoop S). l.close) (reverse life.worker_loops)
      ++ reverse life.shutdown_callbacks

  -- `QualityLifecycle.close`
  unfoldable pub close : QualityLifecycle S → Outcome Exc Bool × QualityLifecycle S
  unfolding close_all
  close life =
      let done = close_all (closing life) none life.world in
      if life.closed
      then (ok true, life)
      else (reraise done.0, record life { closed = true; world = done.1 })
