-- ===== src/Quality/Loops/Shutdown.antt =====
-- The end of the quality loops is complete, whatever goes wrong in it.
use enterprise_work_order_ai.Prelude.{
  ◌≡◌, refl, ap, ◌∙◌, Bool, true, false, Option, none, some, List, [], ◌∷◌, ◌++◌, map, reverse,
  map-reverse,
}
use mathlib.Core.List.{reverse-cons}
use enterprise_work_order_ai.Prelude.Exec.{Outcome, ok, raise, Exec}
use enterprise_work_order_ai.Quality.Errors.{Exc, runtime_error}
use enterprise_work_order_ai.Quality.Loops.{
  QualityLifecycle, WorkerLoop, first_error, close_all, reraise, closing, close, start,
}

abbrev pub first_raised : List (Outcome Exc Bool) → Outcome Exc Bool
first_raised [] = ok true
first_raised (ok _ ∷ os) = first_raised os
first_raised (raise e ∷ os) = raise e

module _ {S : Type 0} where
  -- Each call on the state that the calls before it have left.
  abbrev pub run_all : List (Exec S Exc Bool) → S → S
  run_all [] s = s
  run_all (m ∷ ms) s = run_all ms (m s).1

  -- What the calls answered, in their order.
  abbrev pub answers : List (Exec S Exc Bool) → S → List (Outcome Exc Bool)
  answers [] s = []
  answers (m ∷ ms) s = (m s).0 ∷ answers ms (m s).1

  close_all-world :
      (ms : List (Exec S Exc Bool)) (e : Option Exc) (s : S) → (close_all ms e s).1 ≡ run_all ms s
  unfolding close_all
  close_all-world [] e s = refl
  close_all-world (m ∷ ms) e s = close_all-world ms (first_error e (m s).0) (m s).1

  close_all-some :
      (ms : List (Exec S Exc Bool)) (e : Exc) (s : S) → (close_all ms (some e) s).0 ≡ some e
  unfolding close_all
  close_all-some [] e s = refl
  close_all-some (m ∷ ms) e s = close_all-some ms e (m s).1

  close_all-first :
      (ms : List (Exec S Exc Bool)) (s : S)
      → reraise (close_all ms none s).0 ≡ first_raised (answers ms s)
  unfolding close_all
  close_all-first [] s = refl
  close_all-first (m ∷ ms) s = go (m s).0 (close_all-first ms (m s).1)
    where
      go :
          (o : Outcome Exc Bool)
          → reraise (close_all ms none (m s).1).0 ≡ first_raised (answers ms (m s).1)
          → reraise (close_all ms (first_error none o) (m s).1).0
            ≡ first_raised (o ∷ answers ms (m s).1)
      go (ok b) rest = rest
      go (raise e) rest = ap reraise (close_all-some ms e (m s).1)

  run_all-append :
      (ms ns : List (Exec S Exc Bool)) (s : S) → run_all (ms ++ ns) s ≡ run_all ns (run_all ms s)
  run_all-append [] ns s = refl
  run_all-append (m ∷ ms) ns s = run_all-append ms ns (m s).1

  answers-append :
      (ms ns : List (Exec S Exc Bool)) (s : S)
      → answers (ms ++ ns) s ≡ answers ms s ++ answers ns (run_all ms s)
  answers-append [] ns s = refl
  answers-append (m ∷ ms) ns s = ap (◌∷◌ (m s).0) (answers-append ms ns (m s).1)

  -- The state after the calls, of which the last in the list is made first.
  abbrev pub run_latest_first : List (Exec S Exc Bool) → S → S
  run_latest_first [] s = s
  run_latest_first (m ∷ ms) s = (m (run_latest_first ms s)).1

  -- What they answer, the call that is made first at the head.
  abbrev pub answers_latest_first : List (Exec S Exc Bool) → S → List (Outcome Exc Bool)
  answers_latest_first [] s = []
  answers_latest_first (m ∷ ms) s = answers_latest_first ms s ++ (m (run_latest_first ms s)).0 ∷ []

  run_all-reverse :
      (ms : List (Exec S Exc Bool)) (s : S) → run_all (reverse ms) s ≡ run_latest_first ms s
  run_all-reverse [] s = refl
  run_all-reverse (m ∷ ms) s =
      ap (λ l. run_all l s) (reverse-cons m ms)
      ∙ run_all-append (reverse ms) (m ∷ []) s
      ∙ ap (λ t. (m t).1) (run_all-reverse ms s)

  answers-reverse :
      (ms : List (Exec S Exc Bool)) (s : S) → answers (reverse ms) s ≡ answers_latest_first ms s
  answers-reverse [] s = refl
  answers-reverse (m ∷ ms) s =
      ap (λ l. answers l s) (reverse-cons m ms)
      ∙ answers-append (reverse ms) (m ∷ []) s
      ∙ ap (λ l. l ++ (m (run_all (reverse ms) s)).0 ∷ []) (answers-reverse ms s)
      ∙ ap (λ t. answers_latest_first ms s ++ (m t).0 ∷ []) (run_all-reverse ms s)

  abbrev pub closes : QualityLifecycle S → List (Exec S Exc Bool)
  closes life = map (λ (l : WorkerLoop S). l.close) life.worker_loops

  closing-eq :
      (life : QualityLifecycle S)
      → closing life ≡ reverse (closes life) ++ reverse life.shutdown_callbacks
  closing-eq life =
      ap (λ l. l ++ reverse life.shutdown_callbacks)
        (map-reverse (λ (l : WorkerLoop S). l.close) life.worker_loops)

  -- The state once every loop is closed, the latest first, and then once every callback has run,
  -- the latest first.
  abbrev pub closed_loops : QualityLifecycle S → S
  closed_loops life = run_latest_first (closes life) life.world

  closing-world :
      (life : QualityLifecycle S)
      → run_all (closing life) life.world
        ≡ run_latest_first life.shutdown_callbacks (closed_loops life)
  closing-world life =
      ap (λ l. run_all l life.world) (closing-eq life)
      ∙ run_all-append (reverse (closes life)) (reverse life.shutdown_callbacks) life.world
      ∙ ap (run_all (reverse life.shutdown_callbacks)) (run_all-reverse (closes life) life.world)
      ∙ run_all-reverse life.shutdown_callbacks (closed_loops life)

  closing-answers :
      (life : QualityLifecycle S)
      → answers (closing life) life.world
        ≡ answers_latest_first (closes life) life.world
          ++ answers_latest_first life.shutdown_callbacks (closed_loops life)
  closing-answers life =
      ap (λ l. answers l life.world) (closing-eq life)
      ∙ answers-append (reverse (closes life)) (reverse life.shutdown_callbacks) life.world
      ∙ ap
          (λ l.
            l
            ++ answers (reverse life.shutdown_callbacks)
                (run_all (reverse (closes life)) life.world))
          (answers-reverse (closes life) life.world)
      ∙ ap
          (λ t.
            answers_latest_first (closes life) life.world
            ++ answers (reverse life.shutdown_callbacks) t)
          (run_all-reverse (closes life) life.world)
      ∙ ap (λ l. answers_latest_first (closes life) life.world ++ l)
          (answers-reverse life.shutdown_callbacks (closed_loops life))

  -- The first close of a lifecycle closes every loop, the latest first, and then runs every callback,
  -- the latest first, though some of them raise, and raises the first of their errors; a close after
  -- it does nothing, and a start after it is refused.
  pub close_complete :
      (life : QualityLifecycle S)
      → life.closed ≡ false
      → ((close life).1.world
          ≡ run_latest_first life.shutdown_callbacks
              (run_latest_first (map (λ (l : WorkerLoop S). l.close) life.worker_loops) life.world))
        × ((close life).0
            ≡ first_raised (
                answers_latest_first
                  (map (λ (l : WorkerLoop S). l.close) life.worker_loops)
                  life.world
                ++ answers_latest_first life.shutdown_callbacks (closed_loops life)))
        × (close (close life).1 ≡ (ok true, (close life).1))
        × (start (close life).1 ≡ (raise runtime_error, (close life).1))
  unfolding close start
  close_complete life h = rw h (
    close_all-world (closing life) none life.world ∙ closing-world life,
    close_all-first (closing life) life.world ∙ ap first_raised (closing-answers life),
    refl,
    refl,
  )
