-- ===== src/Quality/Store/RoundTrip.antt =====
-- What is read back of a saved result, and what a second save does.
use enterprise_work_order_ai.Prelude.{
  ℕ, ◌<◌, ◌≡◌, refl, ap, ◌∙◌, Bool, true, false, ◌&&◌, ◌||◌, Option, none, some, List, [], ◌∷◌,
  ◌++◌, map, arith, ◌==◌, any, All, keep_if, keep_if-append, Bool-cases, inl, inr, ==_refl,
}
use enterprise_work_order_ai.Prelude.Exec.{Outcome, ok}
use enterprise_work_order_ai.Prelude.Sql.{insert_by, order_by, first_where, update_where}
use enterprise_work_order_ai.Quality.Errors.{Exc}
use enterprise_work_order_ai.Quality.Jobs.{QualityJobRow, Table, is_job, complete_row, complete_job}
use enterprise_work_order_ai.Quality.Labels.{Label}
use enterprise_work_order_ai.Quality.Models.{
  Runtime, QualityFindingRecord, ModelCallAuditRecord, QualityResultRecord,
}
use enterprise_work_order_ai.Quality.Store.{
  AuditRow, FindingRow, ResultRow, Db, result_of_job, finding_of_result, by_ordinal, joined_call,
  read_result, read_found, find_result, stored_finding, stored_call, audit_row, audit_clash,
  insert_audit, call_id, result_row, result_clash, finding_row, finding_clash, insert_findings,
  finish_job, insert_unique, commit, write_result, save_result,
}

-- The ordinals grow, as those of a result that the processor makes do.
abbrev pub Ascending : List QualityFindingRecord → Type 0
Ascending [] = Unit
Ascending (f ∷ fs) = All (λ (g : QualityFindingRecord). f.ordinal < g.ordinal) fs × Ascending fs

insert_by-first :
    (f : QualityFindingRecord) (fs : List QualityFindingRecord)
    → All (λ (g : QualityFindingRecord). f.ordinal < g.ordinal) fs
    → insert_by by_ordinal f fs ≡ f ∷ fs
unfolding insert_by
insert_by-first f [] h = refl
insert_by-first f (g ∷ fs) h = ground arith

order_by-Ascending : (fs : List QualityFindingRecord) → Ascending fs → order_by by_ordinal fs ≡ fs
unfolding order_by
order_by-Ascending [] h = refl
order_by-Ascending (f ∷ fs) h = rw (order_by-Ascending fs h.1) (insert_by-first f fs h.0)

first_where-append :
    (p : ResultRow → Bool) (rows : List ResultRow) (r : ResultRow)
    → first_where p rows ≡ none
    → p r ≡ true
    → first_where p (rows ++ r ∷ []) ≡ some r
unfolding first_where
first_where-append p [] r h k = ground arith
first_where-append p (q ∷ rows) r h k = ground (arith, first_where-append p rows r)

any_job-update_where :
    (tenant job_id : ℕ) (p : QualityJobRow → Bool) (verdict : Label) (result_id now : ℕ)
    (rows : Table)
    → any (is_job tenant job_id) (update_where p (complete_row verdict result_id now) rows)
      ≡ any (is_job tenant job_id) rows
unfolding update_where
any_job-update_where tenant job_id p verdict result_id now [] = refl
any_job-update_where tenant job_id p verdict result_id now (r ∷ rows) =
    ground (arith, any_job-update_where tenant job_id p verdict result_id now rows)

append_assoc' :
    (xs : List FindingRow) (y : FindingRow) (ys : List FindingRow)
    → (xs ++ y ∷ []) ++ ys ≡ xs ++ y ∷ ys
append_assoc' [] y ys = refl
append_assoc' (x ∷ xs) y ys = ap (◌∷◌ x) (append_assoc' xs y ys)

append_nil' : (xs : List FindingRow) → xs ++ [] ≡ xs
append_nil' [] = refl
append_nil' (x ∷ xs) = ap (◌∷◌ x) (append_nil' xs)

or_false_left : (a b : Bool) → (a || b) ≡ false → a ≡ false
or_false_left a b h = ground arith

or_false_right : (a b : Bool) → (a || b) ≡ false → b ≡ false
or_false_right a b h = ground arith

no_clash : (a b c : Bool) → (a && (b || c)) ≡ false → (a && b) ≡ false
no_clash a b c h = ground arith

module _ (rt : Runtime) where
  insert_findings-append :
      (result : QualityResultRecord) (fs : List QualityFindingRecord) (rows rows' : List FindingRow)
      → insert_findings rt result fs rows ≡ some rows'
      → rows' ≡ rows ++ map (finding_row rt result) fs
  unfolding insert_findings
  insert_findings-append result [] rows rows' h = ground (arith, append_nil' rows)
  insert_findings-append result (f ∷ fs) rows rows' h =
      let row : FindingRow = finding_row rt result f in
      elim (Bool-cases (any (finding_clash rt row) rows)) [
        | inl clash ↦ absurd (ground arith)
        | inr free ↦
            insert_findings-append result fs (rows ++ row ∷ []) rows' (ground arith)
            ∙ append_assoc' rows row (map (finding_row rt result) fs)
      ]

  kept_findings :
      (result : QualityResultRecord) (fs : List QualityFindingRecord)
      → map
          (λ (f : FindingRow). f.finding)
          (keep_if (finding_of_result result.tenant_id result.id) (map (finding_row rt result) fs))
        ≡ map (stored_finding rt) fs
  kept_findings result [] = refl
  kept_findings result (f ∷ fs) = ground (arith, kept_findings result fs)

  Ascending-stored :
      (fs : List QualityFindingRecord) → Ascending fs → Ascending (map (stored_finding rt) fs)
  Ascending-stored [] h = tt
  Ascending-stored (f ∷ fs) h = (later fs h.0, Ascending-stored fs h.1)
    where
      later :
          (gs : List QualityFindingRecord)
          → All (λ (g : QualityFindingRecord). f.ordinal < g.ordinal) gs
          → All (λ (g : QualityFindingRecord). f.ordinal < g.ordinal) (map (stored_finding rt) gs)
      later [] k = tt
      later (g ∷ gs) k = (k.0, later gs k.1)

  joined_call-append :
      (result : QualityResultRecord) (call : ModelCallAuditRecord) (audits : List AuditRow)
      → any (audit_clash rt (audit_row rt result call)) audits ≡ false
      → joined_call result.tenant_id (some call.id) (audits ++ audit_row rt result call ∷ [])
        ≡ some (stored_call rt call)
  joined_call-append result call [] free = rw (==_refl result.tenant_id, ==_refl call.id)
  joined_call-append result call (a ∷ audits) free =
      let rest : any (audit_clash rt (audit_row rt result call)) audits ≡ false =
        or_false_right (audit_clash rt (audit_row rt result call) a) _ free in
      rw
        (no_clash (a.tenant_id == result.tenant_id) (a.call.id == call.id) _
          (or_false_left _ _ free))
        (joined_call-append result call audits rest)

  abbrev pub stored_model_call : Option ModelCallAuditRecord → Option ModelCallAuditRecord
  stored_model_call none = none
  stored_model_call (some call) = some (stored_call rt call)

  -- The record as the database gives it back: its numbers are those that the columns hold.
  abbrev pub as_stored : QualityResultRecord → QualityResultRecord
  as_stored result = record result {
    confidence = rt.numeric_5_4 result.confidence;
    findings = map (stored_finding rt) result.findings;
    model_call = stored_model_call result.model_call;
  }

  joined_call-insert :
      (result : QualityResultRecord) (call : Option ModelCallAuditRecord)
      (audits audits' : List AuditRow)
      → insert_audit rt result call audits ≡ some audits'
      → joined_call result.tenant_id (call_id rt call) audits' ≡ stored_model_call call
  joined_call-insert result none audits audits' h = refl
  joined_call-insert result (some call) audits audits' h =
      ground (arith, joined_call-append result call audits)

  -- The tables after a write whose inserts went through.
  record Written (db_now : ℕ) (result : QualityResultRecord) (db db' : Db) : Type 0 where
    audits : insert_audit rt result result.model_call db.audits ≡ some db'.audits
    results :
        insert_unique
          (result_clash rt (result_row rt db_now result))
          (result_row rt db_now result)
          db.results
        ≡ some db'.results
    findings : insert_findings rt result result.findings db.findings ≡ some db'.findings
    jobs :
        complete_job result.tenant_id result.quality_job_id result.verdict result.id db_now db.jobs
        ≡ db'.jobs

  finished :
      (db_now : ℕ) (result : QualityResultRecord) (rows rows' : Table)
      → finish_job rt db_now result rows ≡ some rows'
      → complete_job result.tenant_id result.quality_job_id result.verdict result.id db_now rows
        ≡ rows'
  finished db_now result rows rows' h = ground arith

  Written-of_commit :
      (db_now : ℕ) (result saved : QualityResultRecord) (db db' : Db) (a : Option (List AuditRow))
      (r : Option (List ResultRow)) (f : Option (List FindingRow)) (j : Option Table)
      → insert_audit rt result result.model_call db.audits ≡ a
      → insert_unique
          (result_clash rt (result_row rt db_now result))
          (result_row rt db_now result)
          db.results
        ≡ r
      → insert_findings rt result result.findings db.findings ≡ f
      → finish_job rt db_now result db.jobs ≡ j
      → commit rt db_now result a r f j db ≡ (ok saved, db')
      → Written db_now result db db'
  Written-of_commit db_now result saved db db' (some a) (some r) (some f) (some j) ea er ef ej h =
      let same : (commit rt db_now result (some a) (some r) (some f) (some j) db).1 ≡ db' =
        ap (λ (x : Outcome Exc QualityResultRecord × Db). x.1) h in
      record {
        audits = ea ∙ ap (λ (d : Db). some d.audits) same;
        results = er ∙ ap (λ (d : Db). some d.results) same;
        findings = ef ∙ ap (λ (d : Db). some d.findings) same;
        jobs = finished db_now result db.jobs _ (ej ∙ ap (λ (d : Db). some d.jobs) same);
      }
  Written-of_commit db_now result saved db db' none r f j ea er ef ej h = cc
  Written-of_commit db_now result saved db db' (some a) none f j ea er ef ej h = cc
  Written-of_commit db_now result saved db db' (some a) (some r) none j ea er ef ej h = cc
  Written-of_commit db_now result saved db db' (some a) (some r) (some f) none ea er ef ej h = cc

  write_result-Written :
      (db_now : ℕ) (result saved : QualityResultRecord) (db db' : Db)
      → write_result rt db_now result db ≡ (ok saved, db')
      → Written db_now result db db'
  unfolding write_result
  write_result-Written db_now result saved db db' h =
      Written-of_commit db_now result saved db db' _ _ _ _ refl refl refl refl h

  results-append :
      (row : ResultRow) (rows rows' : List ResultRow)
      → insert_unique (result_clash rt row) row rows ≡ some rows'
      → rows ++ row ∷ [] ≡ rows'
  results-append row rows rows' h = ground arith

  -- The result that a write leaves for the job, if the job had none.
  Written-result :
      (db_now : ℕ) (result : QualityResultRecord) (db db' : Db)
      → Written db_now result db db'
      → first_where (result_of_job result.tenant_id result.quality_job_id) db.results ≡ none
      → find_result result.tenant_id result.quality_job_id db'
        ≡ some (read_result db' (result_row rt db_now result))
  unfolding find_result
  Written-result db_now result db db' w absent =
      let row : ResultRow = result_row rt db_now result in
      rw (← results-append row db.results db'.results w.results) (
        ap (read_found db') (
          first_where-append (result_of_job result.tenant_id result.quality_job_id) db.results row
            absent (rw (==_refl result.tenant_id, ==_refl result.quality_job_id))))

  read_result-Written :
      (db_now : ℕ) (result : QualityResultRecord) (db db' : Db)
      → Written db_now result db db'
      → Ascending result.findings
      → keep_if (finding_of_result result.tenant_id result.id) db.findings ≡ []
      → read_result db' (result_row rt db_now result) ≡ as_stored result
  read_result-Written db_now result db db' w up orphans =
      let mine : FindingRow → Bool = finding_of_result result.tenant_id result.id in
      let fs : List QualityFindingRecord = result.findings in
      let added : List FindingRow = map (finding_row rt result) fs in
      let kept : keep_if mine db'.findings ≡ keep_if mine added =
        ap (keep_if mine) (insert_findings-append result fs db.findings db'.findings w.findings)
        ∙ keep_if-append mine db.findings added
        ∙ ap (λ (x : List FindingRow). x ++ keep_if mine added) orphans in
      let sorted : order_by by_ordinal
            (map (λ (f : FindingRow). f.finding) (keep_if mine db'.findings))
          ≡ map (stored_finding rt) fs =
        ap (λ (x : List FindingRow). order_by by_ordinal (map (λ (f : FindingRow). f.finding) x))
          kept
        ∙ ap (order_by by_ordinal) (kept_findings result fs)
        ∙ order_by-Ascending (map (stored_finding rt) fs) (Ascending-stored fs up) in
      let call = joined_call-insert result result.model_call db.audits db'.audits w.audits in
      λ i. record (as_stored result) { findings = sorted i; model_call = call i }

  -- A job without a result.
  pub record IsFirst (result : QualityResultRecord) (db : Db) : Type 0 where
    pub job_there : any (is_job result.tenant_id result.quality_job_id) db.jobs ≡ true
    pub no_result :
        first_where (result_of_job result.tenant_id result.quality_job_id) db.results ≡ none
    pub no_findings : keep_if (finding_of_result result.tenant_id result.id) db.findings ≡ []

  save_result-Written :
      (db_now : ℕ) (result saved : QualityResultRecord) (db db' : Db)
      → IsFirst result db
      → save_result rt db_now result db ≡ (ok saved, db')
      → Written db_now result db db'
  unfolding save_result find_result
  save_result-Written db_now result saved db db' first h =
      write_result-Written db_now result saved db db' (rw (first.job_there, first.no_result) at h)

  -- The first result of a job that is saved is read back as it was, its findings in their order and
  -- with its model call, but for the numbers that the columns round.
  pub find_result-save :
      (db_now : ℕ) (result saved : QualityResultRecord) (db db' : Db)
      → IsFirst result db
      → Ascending result.findings
      → save_result rt db_now result db ≡ (ok saved, db')
      → find_result result.tenant_id result.quality_job_id db' ≡ some (as_stored result)
  find_result-save db_now result saved db db' first up h =
      let w : Written db_now result db db' =
        save_result-Written db_now result saved db db' first h in
      Written-result db_now result db db' w first.no_result
      ∙ ap some (read_result-Written db_now result db db' w up first.no_findings)

  job_still_there :
      (db_now : ℕ) (result : QualityResultRecord) (db db' : Db)
      → Written db_now result db db'
      → any (is_job result.tenant_id result.quality_job_id) db'.jobs
        ≡ any (is_job result.tenant_id result.quality_job_id) db.jobs
  unfolding complete_job
  job_still_there db_now result db db' w = rw (← w.jobs) (
      any_job-update_where result.tenant_id result.quality_job_id
        (is_job result.tenant_id result.quality_job_id) result.verdict result.id db_now db.jobs)

  -- Once a job has its first result, every later save for the job, whatever it brings, changes no
  -- table and returns the result that was saved first, as it is stored.
  pub save_result_again :
      (db_now later : ℕ) (result saved other : QualityResultRecord) (db db' : Db)
      → IsFirst result db
      → Ascending result.findings
      → save_result rt db_now result db ≡ (ok saved, db')
      → other.tenant_id ≡ result.tenant_id
      → other.quality_job_id ≡ result.quality_job_id
      → save_result rt later other db' ≡ (ok (as_stored result), db')
  unfolding save_result
  save_result_again db_now later result saved other db db' first up h tenant job =
      let w : Written db_now result db db' =
        save_result-Written db_now result saved db db' first h in
      let there : any (is_job result.tenant_id result.quality_job_id) db'.jobs ≡ true =
        job_still_there db_now result db db' w ∙ first.job_there in
      rw (tenant, job, there, find_result-save db_now result saved db db' first up h)
