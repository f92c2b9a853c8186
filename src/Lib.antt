-- ===== src/Lib.antt =====
-- The Python service of the enterprise work order assistant (apps/ai-service/app), as far as it is
-- modelled here: the quality loop, which inspects each completed work order once per version and
-- inspection round, the gateway to the model providers that it asks, and the knowledge base of
-- policies, which ingests documents as versions, cuts them into chunks and shows a version once all
-- its chunks are embedded.
--
-- How the parts work together. The intake takes completion events from the work order service and
-- makes one job of each (create_from_event). A worker recovers expired leases, claims due jobs
-- (recover_expired, claim_quality_jobs), and gives each to the processor (process), which runs the
-- rules (rules.py), searches the policies, asks the model, checks what it answers against the
-- policies that were retrieved (schema.py), aggregates one verdict (aggregator.py) and saves it
-- with its findings and the audit of the model call (save_result). A job whose inspection fails is
-- retried or failed (retry_quality_job, fail_quality_job). A saved result is delivered to the work
-- order service until that service has accepted it (callback.py). In the knowledge base, ingest
-- cuts a document into chunks (loader.py), and create_version stores a version with its chunks and
-- one embedding job for each; the embedding worker (run_once of EmbeddingWorker) claims the jobs
-- and reports each vector (claim, succeed, retry, fail), and the last success activates the
-- version and hides older ones.
--
-- Which file models what (sources under apps/ai-service/app unless they say more):
--   Prelude, Prelude/*       Python truth tests, lists, text as code points, UTF-8, exceptions with a state
--                            that outlives them, and the SQL statements on a table as a list of rows
--   Llm/Errors, Gateway      llm/errors.py, llm/gateway.py
--   Llm/Contracts            llm/contracts.py
--   Llm/Tests                the theorems about the gateway at one provider
--   Quality/Labels, Rules    quality/rules.py; confidences are numbers whose unit 1 stands for 1.0
--   Quality/Schema           quality/schema.py
--   Quality/Aggregator       quality/aggregator.py
--   Quality/Models           quality/models.py
--   Quality/Errors           the exceptions that the quality code catches
--   Quality/Jobs, Intake     quality/repository.py, the statements on quality_job
--   Quality/Store            quality/repository.py, results, findings and model call audits, with the
--                            constraints of
--                            apps/ai-service/alembic/versions/20260718_02_quality_loop.py
--   Quality/Lifecycle        every statement on quality_job as a step, in any order and number
--   Quality/Samples, Tests   one inspection, and each theorem at it
--   Quality/Worker           quality/worker.py, QualityWorker over a record of the repository's
--                            operations, which Worker/Runs fills with those of Jobs
--   Quality/Feed, Loops      quality/worker.py, the intake worker; the polling loop and the lifecycle
--   Quality/Callback         quality/callback.py and its two repository methods
--   Quality/RunTests         the theorems about the workers at one inspection
--   Quality/Inputs           quality/processor.py, what of a job the rules and the model see
--   Quality/Request          quality/processor.py, the request to the model and the audit of the call
--   Quality/Results          quality/processor.py, the result record and its findings
--   Quality/Processor        quality/processor.py, QualityProcessor over records of its services, which
--                            Processor/Tables fills with the tables of Store
--   Quality/ProcessorTests   the theorems about the processor at one inspection
--   Knowledge/Models         knowledge/models.py
--   Knowledge/Loader         knowledge/loader.py, from the text of a document on
--   Knowledge/Rows           the tables of
--                            apps/ai-service/alembic/versions/20260718_01_knowledge_pgvector.py
--   Knowledge/Repository     knowledge/repository.py, create_version
--   Knowledge/Embedding      knowledge/repository.py, succeed; Embedding/Jobs has claim, retry and fail
--   Knowledge/History        every transaction of that repository as a step
--   Knowledge/Reingested     a second ingestion of a document
--   Knowledge/Ingest         knowledge/ingest.py, KnowledgeIngestor
--   Knowledge/Worker         knowledge/ingest.py, EmbeddingWorker over records of its services, which
--                            Worker/Tables fills with the tables
--   Knowledge/Tests          the theorems about the knowledge base at one document
--
-- How the code is read. One repository method is one transaction: it returns with its new tables, or
-- raises and leaves them. UUIDs and instants are natural numbers; a table is the list of its rows in
-- insertion order. What the code takes from Python and PostgreSQL and does not define (text of a UUID
-- or of an integer, lower casing, UUID hashes, the rounding of NUMERIC columns) are the fields of
-- the records Runtime, Toolkit (for the processor) and Primitives (for the knowledge base), of which
-- the theorems assume nothing but, where they say so, that no two integers have one text and that
-- no text of an integer has a colon. Row locks of other transactions are an
-- argument of the claim. Parsing a payload into the fields of a model class is a parameter, too.
--
-- Bounds and fuel. The loop that splits a text has fuel, one turn more than the text has characters,
-- and comes to its end within it. Nothing else needs fuel: each other loop of the source runs over a
-- finite list and is recursion on it, the gateway's is recursion on the retries that are left, and the
-- polling loop runs along a given list of waits. An attempt counter is a natural number; the theorems
-- bound it by three.
--
-- What is not modelled: row level security, CHECK constraints on texts and foreign keys to tables of
-- the work order service; the HTTP clients of providers and of that service, the embedding services,
-- process start and settings, which are I/O or glue; the Java service; and, of the Python service, the
-- ranking of policies (the index is an argument of the processor here), the analytics, the agent and
-- the check of access tokens.
pub mod Prelude
pub mod Llm
pub mod Knowledge
pub mod Quality
