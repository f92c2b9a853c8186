-- ===== src/Quality/Processor/Tables.antt =====
-- The processor on the tables of the quality loop: its repository is that of
-- apps/ai-service/app/quality/repository.py. The database's clock reads the state.
use enterprise_work_order_ai.Prelude.{ℕ}
use enterprise_work_order_ai.Prelude.Exec.{ok, Exec}
use enterprise_work_order_ai.Prelude.Text.{Str}
use enterprise_work_order_ai.Knowledge.Models.{RetrievalResult}
use enterprise_work_order_ai.Llm.Contracts.{StructuredLlmRequest, StructuredLlmResult}
use enterprise_work_order_ai.Quality.Errors.{Exc}
use enterprise_work_order_ai.Quality.Models.{Runtime}
use enterprise_work_order_ai.Quality.Processor.{Services}
use enterprise_work_order_ai.Quality.Store.{Db, find_result, save_result}

abbrev pub Search : Type 0
Search = (tenant : ℕ) (query : Str) (limit : ℕ) → Exec Db Exc RetrievalResult

abbrev pub Generate : Type 0
Generate = StructuredLlmRequest → Exec Db Exc StructuredLlmResult

abbrev pub table_services : Runtime → (Db → ℕ) → Search → Generate → Services Db
table_services rt db_now search generate = record {
  find_result = λ tenant job_id db. (ok (find_result tenant job_id db), db);
  save_result = λ result db. save_result rt (db_now db) result db;
  search = search;
  generate_structured = generate;
}
