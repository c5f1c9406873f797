-- ===== src/Lib.antt =====
-- A verification library for the marketplace pipeline, src/marketplace_pipeline/. The program
-- collects products from a marketplace, classifies them with a language model, creates tasks for
-- them in a CRM and saves them; an HTTP interface takes jobs that do this, and a worker runs them.
--
-- The parts and their files. Paths on the right are under src/marketplace_pipeline/.
--   Domain/Entities            domain/entities, domain/value_objects, domain/models
--   Domain/Selection           domain/services/product_selection_service.py
--   Domain/TaskFactory         domain/services/crm_task_factory.py
--   Domain/IdempotencyPolicy   domain/services/idempotency_policy.py
--   Domain/Prerequisites       domain/services/pipeline_prerequisites.py, proxy_prerequisites.py
--   Parsers/Ozon               infrastructure/adapters/parsers/ozon_collector.py: collect, and in
--                              Parsers/Ozon/Page the reading of a page
--   Parsers/Mock               infrastructure/adapters/parsers/mock_collector.py
--   Llm/Classifier             infrastructure/adapters/llm/openai_classifier.py
--   Application/RunPipeline    application/use_cases/run_pipeline.py
--   Application/Assembly       infrastructure/composition/container.py, the pipeline's use case
--   Crm/Record                 domain/ports/idempotency_store.py
--   Crm/FileStore              infrastructure/adapters/crm/file_idempotency_store.py
--   Crm/RedisStore             infrastructure/adapters/crm/redis_idempotency_store.py
--   Crm/Gateway                infrastructure/adapters/crm/amocrm_gateway.py
--   Jobs/Repository            infrastructure/adapters/persistence/sqlite_job_repository.py and
--                              postgres_job_repository.py: the table; Jobs/Repository/Rows and
--                              Adapters, the rows that they write and read
--   Jobs/Keys                  infrastructure/adapters/persistence/memory_job_idempotency_store.py
--   Jobs/Keys/Port             domain/ports/job_idempotency_store.py, which that store fills, and
--                              infrastructure/adapters/persistence/redis_job_idempotency_store.py
--   Jobs/Submit                application/use_cases/pipeline_jobs.py and the runners' submit in
--                              infrastructure/services
--   Jobs/Executor              infrastructure/services/pipeline_job_executor.py
--   Jobs/Workers               infrastructure/services/pipeline_job_runner.py: requests and a pool of
--                              workers over one table, as steps in any order
--   Http/Headers, Environment, Profiles, OzonClient   infrastructure/http/ozon_http.py
--   Http/Client                infrastructure/http/http_client.py
--   Proxy/Quota                infrastructure/adapters/proxy/proxy_market_quota_checker.py
--   Api/PublicPaths, Auth, RateLimit        interfaces/api/middleware
--   Api/RateLimit/Redis        infrastructure/rate_limit/redis_sliding_window.py; Api/RateLimit/Replicas,
--                              several processes on one Redis
--   Api/App, Api/OpenApi       interfaces/api/app.py: the layers around the routes, and the document
--   Api/Jobs, Api/Health       interfaces/api/routes
--   Api/Metrics                infrastructure/observability/metrics.py; Api/Metrics/Finished, the
--                              callback of infrastructure/composition/factories.py, on the registry of
--                              the API's process or of a task of infrastructure/workers/tasks.py
--   Composition/Settings       infrastructure/config/settings.py
--   Composition/Factories      infrastructure/composition/factories.py and container.py: which adapter
--                              the settings stand for
--   Composition/Cli            interfaces/cli/main.py
--   Persistence/Files          infrastructure/io/atomic.py
--   Persistence/Datasets       infrastructure/adapters/persistence/json_enriched_product_repository.py and
--                              postgres_enriched_product_repository.py
--   Base                       texts, dictionaries, sorting, exceptions and the lemmas on them
--   Examples                   runs at concrete inputs
-- The module that has a component's name holds its state and its operations; the modules below it hold
-- what is proved of them.
--
-- How the parts interact. The run of the pipeline takes its four ports as calls that change a state
-- and may raise; the collector, the classifier and the gateway are such calls. The gateway takes a
-- store of records by the port of Crm/Record, whose promises are a record of laws that both stores
-- fill; the keys of requests have such a port too. A submission works on the job table, the queue of the runner and the keys of requests; the
-- executor works on the same table and runs the pipeline. The workers' steps are a submission's write and
-- its enqueueing, the taking of an id from the pool, and the executor's two writes, in any order, with
-- writes that fail. The layers of the application are put around routes that
-- are a parameter, with either of the two limiters.
--
-- How the code is modelled. A function of the source keeps its name. What raises returns a Result,
-- and what changes a state returns the state; what was done before an exception stays done. Texts
-- are lists of code points. Times are numbers of ticks and are arguments, or readings of the
-- environment. Locks, and the pipelines of Redis, are single steps; what
-- different processes or threads do in between is a relation of steps on a state.
--
-- Bounds and fuel. The rounds of the collector's loop are on fuel, and spent fuel is `none`: for a
-- finite catalogue one round more than it has pages is enough. The slices of the classifier's
-- batches have fuel for one slice for each product, which is enough since a slice is not empty. The attempts of the HTTP client and the five pages of
-- the CRM search are counted down as in the code. The digits of a number have fuel for as many
-- divisions as the number, which is enough since each one makes it smaller.
--
-- Parameters. Not under src/marketplace_pipeline/ and so arguments of the model: the SHA-256
-- digest, pydantic's reading and writing of JSON, json.loads, the regular expression of the
-- collector, httpx and the services behind it, tenacity, Redis, isoformat, the text of a Path, random
-- and time. Where a result relies on one of
-- them, the promise is a named hypothesis.
--
-- Not modelled: the connections, schemas and pings of the databases; the expiry of the limiter's keys in
-- Redis, which only frees memory; the reading of the environment by pydantic; the
-- start-up of the processes, Celery's own delivery and the migrations, which are calls of frameworks;
-- logging and tracing.
pub mod Base
pub mod Domain
pub mod Parsers
pub mod Application
pub mod Llm
pub mod Http
pub mod Jobs
pub mod Composition
pub mod Crm
pub mod Persistence
pub mod Proxy
pub mod Api
pub mod Examples
