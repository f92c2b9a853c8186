-- ===== src/Quality/Callback.antt =====
-- The delivery of results to the work order service (apps/ai-service/app/quality/callback.py, and
-- `pending_callbacks` and `mark_callback_delivered` in apps/ai-service/app/quality/repository.py;
-- the database's function is that of
-- apps/ai-service/alembic/versions/20260720_03_quality_callback_delivery.py).
-- Each transaction runs under the tenant that it is called for, so the function's own check passes.
pub mod Marks
pub mod Accepted
use enterprise_work_order_ai.Prelude.{
  ℕ, suc, ◌-◌, Bool, true, false, not, ◌&&◌, ◌||◌, Option, none, some, List, [], ◌∷◌, ◌==◌, ltb,
  leb, any, length, take, keep_if, if◌then◌else◌,
}
use enterprise_work_order_ai.Prelude.Exec.{Outcome, ok, raise, Exec}
use enterprise_work_order_ai.Prelude.Sql.{update_where, order_by}
use enterprise_work_order_ai.Quality.Errors.{Exc, runtime_error, value_error}
use enterprise_work_order_ai.Quality.Models.{QualityResultRecord}
use enterprise_work_order_ai.Quality.Store.{Db, ResultRow, find_result}
use enterprise_work_order_ai.Quality.Worker.{valid_limit}

abbrev pub is_null : Option ℕ → Bool
is_null none = true
is_null (some _) = false

-- `ORDER BY generated_at, id`
abbrev pub generated_before : ResultRow → ResultRow → Bool
generated_before a b =
    ltb a.generated_at b.generated_at || (a.generated_at == b.generated_at && leb a.id b.id)

abbrev pub add_found :
    Option QualityResultRecord → List QualityResultRecord → List QualityResultRecord
add_found none results = results
add_found (some r) results = r ∷ results

unfoldable pub read_pending : ℕ → Db → List ResultRow → List QualityResultRecord
read_pending tenant db [] = []
read_pending tenant db (r ∷ rows) =
    add_found (find_result tenant r.quality_job_id db) (read_pending tenant db rows)

unfoldable pub pending_callbacks : ℕ → ℕ → Db → List QualityResultRecord
unfolding read_pending
pending_callbacks tenant limit db = read_pending tenant db (
    take limit (
      order_by generated_before
        (keep_if (λ (r : ResultRow). r.tenant_id == tenant && is_null r.callback_at) db.results)))

abbrev pub to_mark : ℕ → ℕ → ResultRow → Bool
to_mark tenant result_id r = r.tenant_id == tenant && r.id == result_id && is_null r.callback_at

abbrev pub mark_row : ℕ → ResultRow → ResultRow
mark_row delivered_at r = record r { callback_delivered = true; callback_at = some delivered_at }

unfoldable pub mark_callback_delivered : ℕ → ℕ → ℕ → Db → Bool × Db
mark_callback_delivered tenant result_id delivered_at db = (
  any (to_mark tenant result_id) db.results,
  record db {
    results = update_where (to_mark tenant result_id) (mark_row delivered_at) db.results;
  },
)

-- What `QualityCallbackClient.deliver` does: it returns, raises `QualityCallbackError`, or raises
-- something else.
pub data Delivery : Type 0 where
  accepted callback_error : Delivery
  raised : Exc → Delivery

pub record QualityCallbackRunResult : Type 0 where
  pub selected : ℕ
  pub delivered : ℕ
  pub pending : ℕ

abbrev pub add_marked : Bool → ℕ → ℕ
add_marked marked delivered = if marked then suc delivered else delivered

-- The client is an argument, and the database's time at the mark of a result.
module _ (deliver : QualityResultRecord → Delivery) (db_now : ℕ → ℕ) (tenant : ℕ) where
  unfoldable pub deliver_all : List QualityResultRecord → ℕ → Exec Db Exc ℕ
  unfolding mark_callback_delivered
  deliver_all [] delivered db = (ok delivered, db)
  deliver_all (r ∷ results) delivered db =
      let skipped = deliver_all results delivered db in
      let marked = mark_callback_delivered tenant r.id (db_now r.id) db in
      let went_on = deliver_all results (add_marked marked.0 delivered) marked.1 in
      if r.tenant_id == tenant
      then elim (deliver r) [
        | accepted ↦ went_on
        | callback_error ↦ skipped
        | raised e ↦ (raise e, db)
      ]
      else (raise runtime_error, db)

  abbrev pub summary : ℕ → Outcome Exc ℕ → Outcome Exc QualityCallbackRunResult
  summary selected (raise e) = raise e
  summary selected (ok delivered) =
      ok (record { selected = selected; delivered = delivered; pending = selected - delivered })

  -- `QualityCallbackWorker.run_once`
  unfoldable pub run_callbacks : ℕ → Exec Db Exc QualityCallbackRunResult
  unfolding deliver_all pending_callbacks
  run_callbacks limit db =
      let results = pending_callbacks tenant limit db in
      let done = deliver_all results 0 db in
      if valid_limit limit
      then (summary (length results) done.0, done.1)
      else (raise value_error, db)
