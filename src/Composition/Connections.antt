-- ===== src/Composition/Connections.antt =====
-- What the settings' validator is for: each adapter that infrastructure/composition/factories.py
-- builds from accepted settings has the address it connects to.
use marketplace_pipeline.Base.{
  ◌≡◌, ◌↔◌, refl, [], ◌∷◌, lstrip, rstrip_by, Bool, true, false, not, ◌&&◌, ◌||◌, Text, strip,
  is_empty, ok, arith,
}
use marketplace_pipeline.Composition.Settings.{
  Settings, is_postgres, is_celery, is_redis, is_blank, validate_scale_backends, get_settings,
}
use marketplace_pipeline.Composition.Factories.{
  JobRepository, sqlite_job_repository, postgres_job_repository, EnrichedProductRepository,
  json_enriched_product_repository, postgres_enriched_product_repository, JobIdempotencyStore,
  redis_job_idempotency_store, memory_job_idempotency_store, CrmIdempotencyStore,
  redis_idempotency_store, file_idempotency_store, JobRunner, celery_job_runner,
  pipeline_job_runner, RateLimiter, redis_rate_limit_middleware, rate_limit_middleware,
  build_job_repository, build_enriched_product_repository, build_job_idempotency_store,
  container_crm_store, build_idempotency_store, build_job_runner, broker, rate_limiter,
}

abbrev job_repository_connects : JobRepository → Bool
job_repository_connects (sqlite_job_repository path) = true
job_repository_connects (postgres_job_repository url) = not (is_blank url)

abbrev products_connect : EnrichedProductRepository → Bool
products_connect (json_enriched_product_repository dir) = true
products_connect (postgres_enriched_product_repository url) = not (is_blank url)

abbrev keys_connect : JobIdempotencyStore → Bool
keys_connect (redis_job_idempotency_store url ttl) = not (is_blank url)
keys_connect (memory_job_idempotency_store ttl) = true

abbrev crm_store_connects : CrmIdempotencyStore → Bool
crm_store_connects (redis_idempotency_store url enabled) = not (is_blank url)
crm_store_connects (file_idempotency_store path enabled) = true

abbrev limiter_connects : RateLimiter → Bool
limiter_connects (redis_rate_limit_middleware url limit) = not (is_blank url)
limiter_connects (rate_limit_middleware limit) = true

-- Celery's `broker` is not blank, if the runner is Celery's.
abbrev runner_connects : JobRunner → Text → Bool
runner_connects celery_job_runner url = not (is_blank url)
runner_connects (pipeline_job_runner dir workers) url = true

-- Every adapter of the program has an address that is not blank, where it needs one.
unfoldable pub connected : Settings → Text → Bool
connected s output_dir =
    job_repository_connects (build_job_repository s)
    && products_connect (build_enriched_product_repository s output_dir)
    && keys_connect (build_job_idempotency_store s)
    && crm_store_connects (container_crm_store s output_dir)
    && limiter_connects (rate_limiter s)
    && runner_connects (build_job_runner s output_dir) (broker s)

-- CELERY_BROKER_URL holds white space and nothing else.
abbrev pub has_blank_broker : Settings → Bool
has_blank_broker s = is_blank s.celery_broker_url && not (is_empty s.celery_broker_url)

stores_connect :
    (s : Settings) (output_dir : Text)
    → (job_repository_connects (build_job_repository s)
        ≡ (not (is_postgres s.job_store_backend) || not (is_blank s.database_url)))
      × (products_connect (build_enriched_product_repository s output_dir)
          ≡ (not (is_postgres s.job_store_backend) || not (is_blank s.database_url)))
      × (crm_store_connects (container_crm_store s output_dir)
          ≡ (not (is_redis s.crm_idempotency_backend) || not (is_blank s.redis_url)))
unfolding build_job_repository build_enriched_product_repository container_crm_store
    build_idempotency_store
stores_connect s output_dir = (ground arith, ground arith, ground arith)

redis_connects :
    (s : Settings)
    → (keys_connect (build_job_idempotency_store s) ≡ true)
      × (limiter_connects (rate_limiter s) ≡ true)
unfolding build_job_idempotency_store rate_limiter
redis_connects s = (ground arith, ground arith)

blank_empty : (value : Text) → is_empty value ≡ true → is_blank value ≡ true
unfolding strip lstrip rstrip_by
blank_empty [] h = refl
blank_empty (c ∷ value) h = ground arith

broker_connects :
    (s : Settings) (output_dir : Text)
    → has_blank_broker s ≡ false
    → runner_connects (build_job_runner s output_dir) (broker s) ≡ (
        not (is_celery s.job_runner_backend)
        || not (is_blank s.celery_broker_url)
        || not (is_blank s.redis_url))
unfolding build_job_runner broker
broker_connects s output_dir h = ground (arith, h, blank_empty s.celery_broker_url)

-- Unless CELERY_BROKER_URL holds white space alone, the settings are accepted exactly when every
-- adapter that will be built from them (the two repositories, the keys of requests, the records of
-- the CRM, the rate limiter and the job runner's broker) has an address that is not blank, wherever
-- it needs one; and accepted settings are the ones that were read.
pub get_settings_iff :
    (s : Settings) (output_dir : Text)
    → has_blank_broker s ≡ false
    → ((get_settings (ok s) ≡ ok s) ↔ (connected s output_dir ≡ true))
      × ((t : Settings) → get_settings (ok s) ≡ ok t → t ≡ s)
unfolding get_settings validate_scale_backends connected
get_settings_iff s output_dir h =
    let (jobs, products, crm) = stores_connect s output_dir in
    let (keys, limiter) = redis_connects s in
    (
      ground (arith, jobs, products, crm, keys, limiter, broker_connects s output_dir h),
      λ t read. ground (arith, read),
    )
