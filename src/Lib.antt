-- ===== src/Lib.antt =====
-- Verification of ocr_service, a service that extracts fields from documents: an upload is validated
-- and queued, a graph of nodes parses, checks, extracts, scores and routes it, and the outcome is
-- delivered, put under review, or written to the dead-letter queue.
--
-- Files, and the code they are about:
--   Confidence         app/domain/confidence.py: the three signals, the penalty, the tiers.
--   Guardrails         app/domain/guardrails: injection patterns, text quality, aggregation. Regex is
--                      the part of Python's `re` that the patterns use; Text is the part of `str`.
--   Pipeline           app/pipeline: State is `ExtractionState`, Parsing the parse result, Nodes and
--                      Terminal the nodes of nodes.py, Graph the edges of graph.py.
--   CircuitBreaker     app/domain/circuit_breaker.py, on an explicit clock.
--   Encryption         app/domain/encryption.py: envelopes, and fields at dotted paths.
--   Store              app/db/models.py as lists of rows, and what a tenant's session sees of them.
--   Status, Json       the enumerations of app/api/schemas/common.py, and Python's JSON values.
--   Audit              app/services/audit.py.
--   Runner             app/worker/runner.py: Load is `_load_initial_state`, Persist is
--                      `_persist_outcome`, Process is `run_pipeline` on the state of the process.
--   RateLimit          app/services/rate_limit.py.
--   Ingest             app/services/ingest.py.
--   Api                the handlers of app/api/routers: Extract, Dlq, Reads, Reviews, Schemas,
--                      Erase, Export; Csv is what the export uses of Python's `csv`.
--   Auth               app/services/auth.py, app/api/context.py and app/api/dependencies.py: Cache is
--                      `_TTLCache`, Keys and Token the credentials, Guard what requests go through.
--   Extraction         app/pipeline/extraction.py and prompts.py: Prompt, Coercion, and Chain, which
--                      calls the models by way of CircuitBreaker.
--   Parsers            app/pipeline/parsers: Local, the calls of Cloud, and their attempts in Llama.
--   Storage            app/domain/storage.py, on the files under its root.
--   Webhook            app/domain/webhook.py; Runner/Webhook is `_deliver_webhook`.
--   Masking            app/observability/pii_filter.py: what is masked in a log event.
--   Trail              the audit log under all operations that commit.
--   Review             app/services/review.py, with the lock of the mapper of app/db/models.py.
--   WebhookDelivery    app/services/webhook_delivery.py.
--   SchemaRegistry     app/services/schema_registry.py.
--   WorkerPool         app/worker/pool.py: the semaphores, and the jobs inside them.
--   Qdrant             app/services/qdrant.py: the guard against leaks between tenants.
--   Erasure            app/services/erasure.py and app/worker/cancellation.py.
--   Prelude, Float     shared names and lemmas; doubles as an interface of the laws that are used,
--                      which Float/Scaled fills with steps of 1/10000.
--   Tests              runs at concrete inputs.
--
-- How they interact: `extract` takes a slot of RateLimit, creates a document by Ingest and enqueues a
-- run; `run_pipeline` loads the document, runs the graph of Pipeline on the services it is given,
-- persists the outcome in the tables of Store by way of Encryption and Audit, and releases the slot.
-- Review, WebhookDelivery, the retry of Api and Erasure act on the same tables; Erasure also marks the
-- document in the registry that the persistence asks.
--
-- State and errors: a table is a list of rows, a session of a tenant reads and writes the rows that
-- bear its id, and a transaction is one step that returns the new database, or `err` where an
-- exception rolls it back; only the review task that an action has loaded may be older than the
-- database, which is what its version is for. The process is the database with the slots, the running tasks and the
-- registry. The graph is run on fuel: six nodes, the longest way through it, are enough, since each
-- node leads to one that is nearer to the end. The loop of the deliveries recurs on the schedule.
--
-- The poll of a parse job is run on 31 turns: each takes a second or more of the 30 that it has. The
-- cache of API keys is changed by other requests while a query is awaited: a resolution is stated with
-- any list of such events before it and during it.
--
-- Parameters: language models, the embedder, pydantic, the readers of PDF, the HTTP clients, the JWT
-- library, the client of the vector store, the checkpointer's saved states, AES-GCM, SHA-256, HMAC and
-- the Unicode tables, each with the exceptions that the code handles. Ids are numbers, as they are only
-- compared, or the texts that a key is made of.
--
-- The database: the confidences and the thresholds are columns `NUMERIC(4, 3)`, so three decimals of
-- them are stored; the CHECK constraints on thresholds, the unique constraints, and its refusal of a
-- NUL character in what a run stores are exceptions that roll a transaction back.
--
-- Not modelled: the construction of clients of libraries, the set-up of logging, metrics, health
-- checks, migrations, and time stamps.
pub mod Prelude
pub mod Text
pub mod Json
pub mod Regex
pub mod Float
pub mod Confidence
pub mod Guardrails
pub mod Status
pub mod Pipeline
pub mod CircuitBreaker
pub mod Encryption
pub mod Audit
pub mod Runner
pub mod RateLimit
pub mod Ingest
pub mod Api
pub mod Review
pub mod WebhookDelivery
pub mod SchemaRegistry
pub mod Erasure
pub mod Qdrant
pub mod WorkerPool
pub mod Store
pub mod Auth
pub mod Webhook
pub mod Storage
pub mod Masking
pub mod Trail
pub mod Csv
pub mod Parsers
pub mod Extraction
mod Tests
