-- ===== src/Knowledge/Worker/Tables.antt =====
-- The tables of the knowledge base as the embedding worker sees them.
use enterprise_work_order_ai.Prelude.{ℕ, Bool, List}
use enterprise_work_order_ai.Prelude.Exec.{Exec}
use enterprise_work_order_ai.Prelude.Text.{Str}
use enterprise_work_order_ai.Knowledge.Embedding.{claim, succeed, retry, fail}
use enterprise_work_order_ai.Knowledge.Repository.{Primitives}
use enterprise_work_order_ai.Knowledge.Rows.{KnowledgeDb}
use enterprise_work_order_ai.Knowledge.Worker.{EmbedError, EmbeddingServices}

module _ (prim : Primitives) (locked : ℕ → Bool)
    (embed : Str → Exec KnowledgeDb EmbedError (List (List ℕ))) (model_key : Str)
    (clock : KnowledgeDb → ℕ) (delay : ℕ) where
  -- `PostgresKnowledgeRepository` as the worker sees it.
  abbrev pub table_services : EmbeddingServices KnowledgeDb
  table_services = record {
    claim_jobs = λ tenant limit key now. claim locked tenant limit key now;
    succeed_job = λ tenant job_id vector hash now. succeed prim tenant job_id vector hash now;
    retry_job = λ tenant job_id code at now. retry tenant job_id code at now;
    fail_job = λ tenant job_id code now. fail tenant job_id code now;
    embed = embed;
    provider_model_key = model_key;
    clock = clock;
    retry_delay_seconds = delay;
  }
