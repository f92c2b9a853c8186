-- ===== src/Knowledge/History.antt =====
-- The history of the knowledge base: each transaction of the repository is a step
-- (apps/ai-service/app/knowledge/repository.py).
pub mod Sound
pub mod Activation
pub mod Inserted
pub mod Reached
pub mod InStep
pub mod Shown
use enterprise_work_order_ai.Prelude.{ℕ, ◌≡◌, Bool, List, []}
use enterprise_work_order_ai.Prelude.Text.{Str}
use enterprise_work_order_ai.Knowledge.Embedding.{claim, retry, fail, succeed}
use enterprise_work_order_ai.Knowledge.Models.{DocumentDraft, ChunkDraft}
use enterprise_work_order_ai.Knowledge.Repository.{Primitives, create_version}
use enterprise_work_order_ai.Knowledge.Rows.{KnowledgeDb}

pub data Step (prim : Primitives) (db db' : KnowledgeDb) : Type 0 where
  created :
      (db_now tenant : ℕ) (document : DocumentDraft) (chunks : List ChunkDraft) (model_key : Str)
      → (create_version prim db_now tenant document chunks model_key db).1 ≡ db'
      → Step prim db db'
  claimed :
      (locked : ℕ → Bool) (tenant limit : ℕ) (model_key : Str) (now : ℕ)
      → (claim locked tenant limit model_key now db).1 ≡ db'
      → Step prim db db'
  retried :
      (tenant job_id : ℕ) (code : Str) (next_retry_at now : ℕ)
      → (retry tenant job_id code next_retry_at now db).1 ≡ db'
      → Step prim db db'
  failed :
      (tenant job_id : ℕ) (code : Str) (now : ℕ)
      → (fail tenant job_id code now db).1 ≡ db'
      → Step prim db db'
  embedded :
      (tenant job_id : ℕ) (vector : List ℕ) (hash : Str) (now : ℕ)
      → (succeed prim tenant job_id vector hash now db).1 ≡ db'
      → Step prim db db'

abbrev pub empty : KnowledgeDb
empty = record { documents = []; chunks = []; embeddings = []; jobs = [] }

pub data Reach (prim : Primitives) (start : KnowledgeDb) : KnowledgeDb → Type 0 where
  here : Reach prim start start
  next : {db db' : KnowledgeDb} → Reach prim start db → Step prim db db' → Reach prim start db'
