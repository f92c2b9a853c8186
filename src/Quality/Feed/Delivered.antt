-- ===== src/Quality/Feed/Delivered.antt =====
-- An event is acknowledged only when its job stands in the table.
use enterprise_work_order_ai.Prelude.{
  ℕ, suc, ◌≡◌, refl, ap, ◌∙◌, ◌⊎◌, inl, inr, Bool, true, List, [], ◌∷◌, ◌++◌, map, arith, All, any,
  Bool-cases, if◌then◌else◌,
}
use enterprise_work_order_ai.Prelude.Exec.{Outcome, ok, raise, Exec, after, ◌>>=◌}
use enterprise_work_order_ai.Quality.Errors.{Exc, other}
use enterprise_work_order_ai.Quality.Feed.{EventSource, take_in}
use enterprise_work_order_ai.Quality.Intake.{same_business, create_from_event}
use enterprise_work_order_ai.Quality.Intake.Idempotent.{any-first, create-found}
use enterprise_work_order_ai.Quality.Jobs.{QualityJobRow, Table}
use enterprise_work_order_ai.Quality.Lifecycle.Invariants.{create-table}
use enterprise_work_order_ai.Quality.Models.{Runtime, ClaimedQualityEvent, QualityJob}

append_nil : (xs : List ℕ) → xs ≡ xs ++ []
append_nil [] = refl
append_nil (x ∷ xs) = ap (λ (ys : List ℕ). x ∷ ys) (append_nil xs)

append_assoc : (xs ys zs : List ℕ) → (xs ++ ys) ++ zs ≡ xs ++ (ys ++ zs)
append_assoc [] ys zs = refl
append_assoc (x ∷ xs) ys zs = ap (λ (l : List ℕ). x ∷ l) (append_assoc xs ys zs)

Outcome-cases :
    (o : Outcome Exc QualityJob) → ((x : Exc) × (o ≡ raise x)) ⊎ ((job : QualityJob) × (o ≡ ok job))
Outcome-cases (raise x) = inl (x, refl)
Outcome-cases (ok job) = inr (job, refl)

-- The table of jobs, and the ids that the source has been told of, in order.
pub record Feed : Type 0 where
  pub jobs : Table
  pub told : List ℕ

-- The acknowledgement of an event can fail; then the source is not told.
abbrev pub tell : (ℕ → Bool) → ℕ → Exec Feed Exc Bool
tell refused id s =
    if refused id then (raise (other 0), s) else (ok true, record s { told = s.told ++ id ∷ [] })

module _ (rt : Runtime) (db_now : ℕ) (refused : ℕ → Bool)
    (events_of : ℕ → List ClaimedQualityEvent) where
  abbrev pub feed_source : EventSource Feed
  feed_source = record {
    claim_events = λ limit s. (ok (events_of limit), s);
    acknowledge = tell refused;
    create_from_event = λ e s. (
      (create_from_event rt db_now e s.jobs).0,
      record s { jobs = (create_from_event rt db_now e s.jobs).1 },
    );
  }

  abbrev pub HasJob : Table → ClaimedQualityEvent → Type 0
  HasJob rows e = any (same_business e) rows ≡ true

  any-more : (p : QualityJobRow → Bool) (xs ys : Table) → any p xs ≡ true → any p (xs ++ ys) ≡ true
  any-more p [] ys h = cc
  any-more p (x ∷ xs) ys h = ground (arith, any-more p xs ys)

  HasJob-create :
      (e d : ClaimedQualityEvent) (rows : Table)
      → HasJob rows d
      → HasJob (create_from_event rt db_now e rows).1 d
  HasJob-create e d rows h = elim (create-table rt db_now e rows) [
    | inl same ↦ rw same h
    | inr (added, fresh) ↦ rw added (any-more (same_business d) rows _ h)
  ]

  created-HasJob :
      (e : ClaimedQualityEvent) (rows : Table) (job : QualityJob)
      → (create_from_event rt db_now e rows).0 ≡ ok job
      → HasJob (create_from_event rt db_now e rows).1 e
  created-HasJob e rows job h =
      let (r, found, same) =
        create-found rt db_now e rows (create_from_event rt db_now e rows).1 job
          (ap (λ o. (o, (create_from_event rt db_now e rows).1)) h) in
      any-first (same_business e) (create_from_event rt db_now e rows).1 found

  -- The events of a first part of the list were told, each with its job in the table; all of them
  -- if the loop returned.
  pub record Delivered (events : List ClaimedQualityEvent) (s s' : Feed) (o : Outcome Exc ℕ)
      : Type 0 where
    pub first : List ClaimedQualityEvent
    pub rest : List ClaimedQualityEvent
    pub split : events ≡ first ++ rest
    pub told_first : s'.told ≡ s.told ++ map (λ (e : ClaimedQualityEvent). e.event_id) first
    pub have_jobs : All (HasJob s'.jobs) first
    pub all_told : (n : ℕ) → o ≡ ok n → rest ≡ []

  take_in-keeps :
      (events : List ClaimedQualityEvent) (n : ℕ) (s : Feed) (d : ClaimedQualityEvent)
      → HasJob s.jobs d
      → HasJob (take_in feed_source events n s).1.jobs d
  unfolding take_in
  take_in-keeps [] n s d h = h
  take_in-keeps (e ∷ events) n s d h =
      go (create_from_event rt db_now e s.jobs).0 (λ t. take_in-keeps events (suc n) t d)
        (HasJob-create e d s.jobs h)
    where
      rows : Table
      rows = (create_from_event rt db_now e s.jobs).1

      go :
          (o : Outcome Exc QualityJob)
          → ((t : Feed) → HasJob t.jobs d → HasJob (take_in feed_source events (suc n) t).1.jobs d)
          → HasJob rows d
          → HasJob
              (after o
                (λ job. tell refused e.event_id >>= λ answer. take_in feed_source events (suc n))
                (record s { jobs = rows })).1.jobs
              d
      go (raise x) rest k = k
      go (ok job) rest k = elim (Bool-cases (refused e.event_id)) [
        | inl q ↦ rw q k
        | inr q ↦ rw q (rest _ k)
      ]

  none_told :
      (events : List ClaimedQualityEvent) (s s' : Feed) (x : Exc)
      → s'.told ≡ s.told
      → Delivered events s s' (raise x)
  none_told events s s' x same = record {
    first = [];
    rest = events;
    split = refl;
    told_first = same ∙ append_nil s.told;
    have_jobs = tt;
    all_told = λ m h. cc;
  }

  -- The state after the event is taken in and told.
  abbrev told_of : ClaimedQualityEvent → Feed → Feed
  told_of e s = record {
    jobs = (create_from_event rt db_now e s.jobs).1;
    told = s.told ++ e.event_id ∷ [];
  }

  one_more :
      (e : ClaimedQualityEvent) (events : List ClaimedQualityEvent) (n : ℕ) (s : Feed)
      → HasJob (told_of e s).jobs e
      → Delivered events
          (told_of e s)
          (take_in feed_source events (suc n) (told_of e s)).1
          (take_in feed_source events (suc n) (told_of e s)).0
      → Delivered
          (e ∷ events)
          s
          (take_in feed_source events (suc n) (told_of e s)).1
          (take_in feed_source events (suc n) (told_of e s)).0
  one_more e events n s has d = record {
    first = e ∷ d.first;
    rest = d.rest;
    split = ap (λ (es : List ClaimedQualityEvent). e ∷ es) d.split;
    told_first = d.told_first ∙ append_assoc s.told (e.event_id ∷ []) _;
    have_jobs = (take_in-keeps events (suc n) (told_of e s) e has, d.have_jobs);
    all_told = d.all_told;
  }

  -- Whatever the source refuses and whatever the table answers, the ids that the source is told of
  -- are those of a first part of the events, in order, and each of these has its job in the table;
  -- where the loop returns, that part is all of them.
  pub take_in-Delivered :
      (events : List ClaimedQualityEvent) (n : ℕ) (s : Feed)
      → Delivered events s (take_in feed_source events n s).1 (take_in feed_source events n s).0
  unfolding take_in
  take_in-Delivered [] n s = record {
    first = [];
    rest = [];
    split = refl;
    told_first = append_nil s.told;
    have_jobs = tt;
    all_told = λ m h. refl;
  }
  take_in-Delivered (e ∷ events) n s =
      elim (Outcome-cases (create_from_event rt db_now e s.jobs).0) [
        | inl (x, q) ↦ rw q (
            none_told (e ∷ events) s (record s { jobs = (create_from_event rt db_now e s.jobs).1 })
              x refl)
        | inr (job, q) ↦ elim (Bool-cases (refused e.event_id)) [
          | inl no_answer ↦
              rw (q, no_answer)
                (none_told (e ∷ events) s
                  (record s { jobs = (create_from_event rt db_now e s.jobs).1 }) (other 0) refl)
          | inr answer ↦
              rw (q, answer)
                (one_more e events n s (created-HasJob e s.jobs job q) (
                  take_in-Delivered events (suc n) (record {
                    jobs = (create_from_event rt db_now e s.jobs).1;
                    told = s.told ++ e.event_id ∷ [];
                  })))
        ]
      ]
