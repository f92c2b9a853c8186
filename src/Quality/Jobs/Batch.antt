-- ===== src/Quality/Jobs/Batch.antt =====
-- Which jobs a claim takes, and how many.
use enterprise_work_order_ai.Prelude.{
  ℕ, ◌+◌, ◌≤◌, ◌<◌, ◌≡◌, refl, ◌⊎◌, inl, inr, Bool, true, false, not, ◌&&◌, some, List, [], ◌∷◌,
  map, arith, All, All-weaken, All-take, All-keep_if, All-of_keep_if, All-both, length, length-map,
  length-take, keep_if, Bool-cases, leb, ltb, ◌==◌, le→leb,
}
use enterprise_work_order_ai.Prelude.Exec.{ok}
use enterprise_work_order_ai.Prelude.Sql.{returning, order_by}
use enterprise_work_order_ai.Prelude.Sql.Order.{
  TakenOrAfter, All-order_by, All-of_order_by, order_by-IsSorted, All-take_or_after,
}
use enterprise_work_order_ai.Prelude.Text.{elem}
use enterprise_work_order_ai.Quality.Models.{Runtime, pending, retry_wait, ClaimedQualityJob}
use enterprise_work_order_ai.Quality.Jobs.{
  QualityJobRow, Table, eligible, claimed_before, candidates, row_ids, chosen, start_row,
  claimed_job, claim_quality_jobs, is_job,
}

-- The primary key: a tenant has no two rows with one id.
abbrev pub UniqueIds : ℕ → Table → Type 0
UniqueIds tenant rows = (id : ℕ) → length (keep_if (is_job tenant id) rows) ≤ 1

chosen_split :
    (i : ℕ) (ids : List ℕ) (tenant now : ℕ) (rows : Table)
    → length (keep_if (chosen (i ∷ ids) tenant now) rows)
      ≤ length (keep_if (is_job tenant i) rows) + length (keep_if (chosen ids tenant now) rows)
chosen_split i ids tenant now [] = omega arith
chosen_split i ids tenant now (r ∷ rows) = grind (arith, chosen_split i ids tenant now rows)

length-chosen :
    (ids : List ℕ) (tenant now : ℕ) (rows : Table)
    → UniqueIds tenant rows
    → length (keep_if (chosen ids tenant now) rows) ≤ length ids
length-chosen [] tenant now rows u = none_chosen rows
  where
    none_chosen : (rows : Table) → length (keep_if (chosen [] tenant now) rows) ≤ 0
    none_chosen [] = omega arith
    none_chosen (r ∷ rows) = none_chosen rows
length-chosen (i ∷ ids) tenant now rows u =
    omega (arith, chosen_split i ids tenant now rows, u i, length-chosen ids tenant now rows u)

claimed_before_total :
    (a b : QualityJobRow) → claimed_before a b ≡ false → claimed_before b a ≡ true
claimed_before_total a b h = ground arith

claimed_before_trans :
    (a b c : QualityJobRow)
    → claimed_before a b ≡ true
    → claimed_before b c ≡ true
    → claimed_before a c ≡ true
claimed_before_trans a b c h k = ground arith

own_ids : (xs : Table) → All (λ (r : QualityJobRow). elem r.id (row_ids xs) ≡ true) xs
own_ids [] = tt
own_ids (x ∷ xs) = (
  ground arith,
  All-weaken (λ (r : QualityJobRow). elem r.id (row_ids xs) ≡ true)
      (λ (r : QualityJobRow). elem r.id (row_ids (x ∷ xs)) ≡ true) xs (λ r h. ground arith)
      (own_ids xs),
)

-- The order of the claims: by priority, then by age, then by id.
abbrev pub Earlier : QualityJobRow → QualityJobRow → Type 0
Earlier a b =
    (a.priority < b.priority)
    ⊎ ((a.priority ≡ b.priority)
        × ((a.created_at < b.created_at) ⊎ ((a.created_at ≡ b.created_at) × (a.id ≤ b.id))))

-- The job is of the tenant, has an attempt left, and waits for its first attempt or for a retry whose
-- time has come.
pub record IsDue (tenant now : ℕ) (r : QualityJobRow) : Type 0 where
  pub own : r.tenant_id ≡ tenant
  pub attempt_left : r.retry_count < r.max_retry_count
  pub waits :
      (r.status ≡ pending)
      ⊎ ((r.status ≡ retry_wait) × (at : ℕ) × (r.next_retry_at ≡ some at) × (at ≤ now))

Earlier-of_before : (a b : QualityJobRow) → claimed_before a b ≡ true → Earlier a b
Earlier-of_before a b h = ground (arith, h)

IsDue-eligible :
    (tenant now : ℕ) (r : QualityJobRow) → IsDue tenant now r → eligible tenant now r ≡ true
IsDue-eligible tenant now r d = elim (d.waits) [
  | inl first ↦ rw first (waiting true refl)
  | inr (again, at, time, come) ↦ rw (again, time) (waiting (leb at now) (le→leb at now come))
]
  where
    waiting :
        (b : Bool)
        → b ≡ true
        → (r.tenant_id == tenant && ltb r.retry_count r.max_retry_count && b) ≡ true
    waiting b h = ground (arith, h, d.own, d.attempt_left)

abbrev pub job_ids : List ClaimedQualityJob → List ℕ
job_ids = map (λ (j : ClaimedQualityJob). j.id)

module _ (ids : List ℕ) (tenant now : ℕ) where
  -- The identifiers of the jobs that are handed out.
  abbrev given : Table → List ℕ
  given rows =
      job_ids (map claimed_job (map (start_row now) (keep_if (chosen ids tenant now) rows)))

  given_more :
      (id : ℕ) (q : QualityJobRow) (rows : Table)
      → elem id (given rows) ≡ true
      → elem id (given (q ∷ rows)) ≡ true
  given_more id q rows h = elim (Bool-cases (chosen ids tenant now q)) [
    | inl e ↦ rw e (ground (arith, h))
    | inr e ↦ rw e h
  ]

  given_first :
      (q : QualityJobRow) (rows : Table)
      → chosen ids tenant now q ≡ true
      → elem q.id (given (q ∷ rows)) ≡ true
  given_first q rows e = rw e (ground arith)

  -- Each row that is chosen is handed out.
  handed_out :
      (rows : Table)
      → All
          (λ (r : QualityJobRow).
            eligible tenant now r ≡ true → elem r.id ids ≡ true → elem r.id (given rows) ≡ true)
          rows
  handed_out [] = tt
  handed_out (q ∷ rows) = (
    λ due there. given_first q rows (rw (there, due) refl),
    All-weaken _ _ rows (λ r h due there. given_more r.id q rows (h due there)) (handed_out rows),
  )

module _ (locked : ℕ → Bool) (tenant limit now : ℕ) (rows : Table) where
  abbrev pub taken : Table
  taken = candidates locked tenant limit now rows

  abbrev is_candidate : QualityJobRow → Bool
  is_candidate r = eligible tenant now r && not (locked r.id)

  abbrev handed : List ℕ
  handed = given (row_ids taken) tenant now rows

  -- The claims are those of the rows that are taken.
  taken-handed : All (λ (q : QualityJobRow). elem q.id handed ≡ true) taken
  unfolding candidates
  taken-handed =
      let there : All
          (λ (r : QualityJobRow). (elem r.id (row_ids taken) ≡ true → elem r.id handed ≡ true))
          taken =
        All-take _ limit (order_by claimed_before (keep_if is_candidate rows)) (
          All-order_by claimed_before _ (keep_if is_candidate rows) (
            All-weaken _ _ (keep_if is_candidate rows)
              (λ r h there. h.0 (ground (arith, h.1)) there)
              (All-keep_if _ is_candidate rows (handed_out (row_ids taken) tenant now rows)))) in
      All-weaken _ _ taken (λ r h. h.0 h.1) (All-both _ _ taken there (own_ids taken))

  due_in_order :
      All
        (TakenOrAfter claimed_before
          (λ (r : QualityJobRow). elem r.id (row_ids taken) ≡ true)
          limit
          taken)
        (keep_if is_candidate rows)
  unfolding candidates
  due_in_order = All-of_order_by claimed_before _ (keep_if is_candidate rows) (
      All-take_or_after claimed_before (λ r. elem r.id (row_ids taken) ≡ true) limit
        (order_by claimed_before (keep_if is_candidate rows)) (own_ids taken)
        (order_by-IsSorted claimed_before claimed_before_total claimed_before_trans
          (keep_if is_candidate rows)))

  -- A job that is due and held by no other transaction is handed out, or as many rows as the limit
  -- tells are, each of them before it by priority, then age, then id.
  abbrev pub HandedOutOrLater : List ℕ → QualityJobRow → Type 0
  HandedOutOrLater ids r =
      (elem r.id ids ≡ true)
      ⊎ ((length taken ≡ limit)
          × All (λ (q : QualityJobRow). Earlier q r × (elem q.id ids ≡ true)) taken)

  at_most_limit :
      UniqueIds tenant rows
      → length
          (map claimed_job (map (start_row now) (keep_if (chosen (row_ids taken) tenant now) rows)))
        ≤ limit
  unfolding candidates
  at_most_limit u =
      let sel : Table = keep_if (chosen (row_ids taken) tenant now) rows in
      omega (
        arith,
        length-map claimed_job (map (start_row now) sel),
        length-map (start_row now) sel,
        length-chosen (row_ids taken) tenant now rows u,
        length-map (λ (r : QualityJobRow). r.id) taken,
        length-take limit (order_by claimed_before (keep_if is_candidate rows)),
      )

  later :
      (r : QualityJobRow)
      → (is_candidate r ≡ true
          → TakenOrAfter claimed_before
              (λ (r : QualityJobRow). elem r.id (row_ids taken) ≡ true)
              limit
              taken
              r)
        × (eligible tenant now r ≡ true
            → elem r.id (row_ids taken) ≡ true
            → elem r.id handed ≡ true)
      → IsDue tenant now r
      → locked r.id ≡ false
      → HandedOutOrLater handed r
  later r (placed, given) d free =
      let due : eligible tenant now r ≡ true = IsDue-eligible tenant now r d in
      elim (placed (rw (due, free) refl)) [
        | inl there ↦ inl (given due there)
        | inr (full, after) ↦ inr (
          full,
          All-weaken _ _ taken (λ q h. (Earlier-of_before q r h.0, h.1))
              (All-both _ _ taken after taken-handed),
        )
      ]

  -- A claim hands out no more jobs than it was asked for; and each job of the tenant that is due, has
  -- an attempt left and is held by no other transaction is handed out, or the limit is reached by
  -- jobs that are handed out and that are all before it, by priority, then age, then id.
  pub claims_in_order :
      (rt : Runtime) (jobs : List ClaimedQualityJob) (rows' : Table)
      → UniqueIds tenant rows
      → claim_quality_jobs rt locked tenant limit now rows ≡ (ok jobs, rows')
      → (length jobs ≤ limit)
        × All
            (λ (r : QualityJobRow).
              IsDue tenant now r → locked r.id ≡ false → HandedOutOrLater (job_ids jobs) r)
            rows
  unfolding claim_quality_jobs returning
  claims_in_order rt jobs rows' u h =
      let e : map claimed_job
            (map (start_row now) (keep_if (chosen (row_ids taken) tenant now) rows))
          ≡ jobs =
        ground arith in
      rw (← e) (
        at_most_limit u,
        All-weaken _ _ rows later (
            All-both _ _ rows (All-of_keep_if _ is_candidate rows due_in_order)
              (handed_out (row_ids taken) tenant now rows)),
      )
