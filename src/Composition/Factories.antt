-- ===== src/Composition/Factories.antt =====
-- infrastructure/composition/factories.py and container.py, the broker of
-- infrastructure/workers/celery_app.py and the limiter of interfaces/api/app.py: an adapter is the
-- class that is built and what its constructor is given.
use marketplace_pipeline.Base.{
  ℕ, Bool, not, Option, none, some, ◌++◌, Text, codes, is_empty, nat_eq, if◌then◌else◌,
}
use marketplace_pipeline.Composition.Settings.{
  Settings, is_postgres, is_celery, is_redis, is_blank, collection_target,
}

pub record ProxyMarketQuotaChecker : Type 0 where
  pub api_key : Text
  pub min_remaining_bytes : ℕ

unfoldable pub build_proxy_quota_checker : Settings → Option ProxyMarketQuotaChecker
build_proxy_quota_checker s =
    if is_blank s.proxy_market_api_key
    then none
    else some (record {
      api_key = s.proxy_market_api_key;
      min_remaining_bytes = s.proxy_market_min_traffic_bytes;
    })

pub data JobRepository : Type 0 where
  sqlite_job_repository : (path : Text) → JobRepository
  postgres_job_repository : (database_url : Text) → JobRepository

unfoldable pub build_job_repository : Settings → JobRepository
build_job_repository s =
    if is_postgres s.job_store_backend
    then postgres_job_repository s.database_url
    else sqlite_job_repository s.job_db_path

pub data EnrichedProductRepository : Type 0 where
  json_enriched_product_repository : (output_dir : Text) → EnrichedProductRepository
  postgres_enriched_product_repository : (database_url : Text) → EnrichedProductRepository

unfoldable pub build_enriched_product_repository : Settings → Text → EnrichedProductRepository
build_enriched_product_repository s output_dir =
    if is_postgres s.job_store_backend
    then postgres_enriched_product_repository s.database_url
    else json_enriched_product_repository output_dir

pub data JobIdempotencyStore : Type 0 where
  redis_job_idempotency_store : (redis_url : Text) (ttl_seconds : ℕ) → JobIdempotencyStore
  memory_job_idempotency_store : (ttl_seconds : ℕ) → JobIdempotencyStore

unfoldable pub build_job_idempotency_store : Settings → JobIdempotencyStore
build_job_idempotency_store s =
    if not (is_blank s.redis_url)
    then redis_job_idempotency_store s.redis_url s.job_idempotency_ttl_seconds
    else memory_job_idempotency_store s.job_idempotency_ttl_seconds

pub data CrmIdempotencyStore : Type 0 where
  redis_idempotency_store : (redis_url : Text) (enabled : Bool) → CrmIdempotencyStore
  file_idempotency_store : (path : Text) (enabled : Bool) → CrmIdempotencyStore

abbrev path_or : Option Text → Text → Text
path_or none path = path
path_or (some store_path) path = store_path

unfoldable pub build_idempotency_store : Settings → Option Text → CrmIdempotencyStore
build_idempotency_store s store_path =
    if is_redis s.crm_idempotency_backend
    then redis_idempotency_store s.redis_url s.crm_idempotency_enabled
    else file_idempotency_store (path_or store_path s.crm_idempotency_store_path)
        s.crm_idempotency_enabled

pub data JobRunner : Type 0 where
  celery_job_runner : JobRunner
  pipeline_job_runner : (output_dir : Text) (max_workers : ℕ) → JobRunner

unfoldable pub build_job_runner : Settings → Text → JobRunner
build_job_runner s output_dir =
    if is_celery s.job_runner_backend
    then celery_job_runner
    else pipeline_job_runner output_dir s.api_job_workers

-- The broker of `create_celery_app`.
unfoldable pub broker : Settings → Text
broker s = if is_empty s.celery_broker_url then s.redis_url else s.celery_broker_url

pub data RateLimiter : Type 0 where
  redis_rate_limit_middleware : (redis_url : Text) (limit_per_minute : ℕ) → RateLimiter
  rate_limit_middleware : (limit_per_minute : ℕ) → RateLimiter

-- The middleware that `create_app` adds.
unfoldable pub rate_limiter : Settings → RateLimiter
rate_limiter s =
    if not (is_blank s.redis_url)
    then redis_rate_limit_middleware s.redis_url s.api_rate_limit_per_minute
    else rate_limit_middleware s.api_rate_limit_per_minute

-- The Redis of the counters: that of `lifespan`, and that of `execute_pipeline_job_task`.
unfoldable pub api_metrics_redis : Settings → Option Text
api_metrics_redis s =
    if is_celery s.job_runner_backend
    then if is_empty s.redis_url then none else some s.redis_url
    else none

unfoldable pub worker_metrics_redis : Settings → Option Text
worker_metrics_redis s = if is_empty s.redis_url then none else some s.redis_url

-- `Container.__init__`
unfoldable pub container_output_dir : Option Text → Text
container_output_dir output_dir = path_or output_dir (codes "data")

pub data CatalogCollector : Type 0 where
  mock_catalog_collector : CatalogCollector
  ozon_catalog_collector : (has_own_client : Bool) → CatalogCollector

-- `Container.catalog_collector`, with whether the container was given a client for it.
unfoldable pub catalog_collector : Settings → Bool → CatalogCollector
catalog_collector s has_own_client =
    if s.mock_parser then mock_catalog_collector else ozon_catalog_collector has_own_client

-- The store that `Container.crm_gateway` gives to the gateway.
unfoldable pub container_crm_store : Settings → Text → CrmIdempotencyStore
unfolding build_idempotency_store
container_crm_store s output_dir =
    build_idempotency_store s (some (output_dir ++ codes "/crm_idempotency.json"))

-- `collection_target or settings.collection_target`
unfoldable pub target_or_default : Option ℕ → Settings → ℕ
unfolding collection_target
target_or_default none s = collection_target s
target_or_default (some target) s = if nat_eq target 0 then collection_target s else target
