-- ===== src/Quality/Loops/Visits.antt =====
-- No tenant's failure keeps the loop from the tenants after it.
use enterprise_work_order_ai.Prelude.{ℕ, ◌≡◌, ◌≢◌, refl, Bool, true, false, List, [], ◌∷◌}
use enterprise_work_order_ai.Prelude.Exec.{Outcome, ok, raise, Exec}
use enterprise_work_order_ai.Quality.Errors.{
  Exc, provider, quality_output, type_error, value_error, runtime_error, integrity_error, cancelled,
  other,
}
use enterprise_work_order_ai.Quality.Loops.{is_swallowed, visit}

module _ {S A : Type 0} (stopped : S → Bool) (run_once : ℕ → ℕ → Exec S Exc A)
    (batch_limit : ℕ) where
  -- Each tenant's run on the state that the runs before it have left.
  abbrev pub after_all : List ℕ → S → S
  after_all [] s = s
  after_all (t ∷ ts) s = after_all ts (run_once t batch_limit s).1

  swallowed :
      (o : Outcome Exc A) → o ≢ raise cancelled → is_swallowed stopped run_once batch_limit o ≡ true
  swallowed (ok a) h = refl
  swallowed (raise cancelled) h = absurd (h refl)
  swallowed (raise (provider e)) h = refl
  swallowed (raise quality_output) h = refl
  swallowed (raise type_error) h = refl
  swallowed (raise value_error) h = refl
  swallowed (raise runtime_error) h = refl
  swallowed (raise integrity_error) h = refl
  swallowed (raise (other code)) h = refl

  -- While nothing stops the loop and no run is cancelled, a round runs every tenant once, in order,
  -- whichever runs return and whichever raise, and comes to its end.
  pub visit-all :
      (tenants : List ℕ) (s : S)
      → ((t : ℕ) (r : S) → stopped r ≡ false → stopped (run_once t batch_limit r).1 ≡ false)
      → ((t : ℕ) (r : S) → (run_once t batch_limit r).0 ≢ raise cancelled)
      → stopped s ≡ false
      → visit stopped run_once batch_limit tenants s ≡ (ok true, after_all tenants s)
  unfolding visit
  visit-all [] s keeps kept h = refl
  visit-all (t ∷ ts) s keeps kept h =
      rw (h, swallowed _ (kept t s))
        (visit-all ts (run_once t batch_limit s).1 keeps kept (keeps t s h))
