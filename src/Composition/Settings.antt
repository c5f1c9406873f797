-- ===== src/Composition/Settings.antt =====
-- infrastructure/config/settings.py. What pydantic reads from the environment is a `Settings` whose
-- fields have passed its checks of types; a number of seconds is in thousandths,
-- and no number is negative.
use marketplace_pipeline.Base.{
  ℕ, Bool, true, false, not, ◌&&◌, ◌||◌, Option, none, [], Text, codes, strip, is_empty, Result, ok,
  err, other, ◌>>=◌, if◌then◌else◌,
}

pub data JobStoreBackend : Type 0 where
  sqlite postgres : JobStoreBackend

pub data JobRunnerBackend : Type 0 where
  thread celery : JobRunnerBackend

pub data CrmIdempotencyBackend : Type 0 where
  file redis : CrmIdempotencyBackend

pub record Settings : Type 0 where
  pub demo_mode : Bool
  pub mock_parser : Bool
  pub mock_llm : Bool
  pub mock_crm : Bool
  pub target_product_count : ℕ
  pub demo_product_count : ℕ
  pub ozon_category_path : Text
  pub ozon_api_base_url : Text
  pub ozon_page_size : ℕ
  pub ozon_request_timeout : ℕ
  pub ozon_request_delay_seconds : ℕ
  pub ozon_request_delay_min_seconds : Option ℕ
  pub ozon_request_delay_max_seconds : Option ℕ
  pub ozon_follow_redirects : Bool
  pub ozon_warmup_session : Bool
  pub ozon_rotate_user_agents : Bool
  pub ozon_proxy_list : Text
  pub ozon_cookie : Text
  pub proxy_market_api_key : Text
  pub proxy_market_min_traffic_bytes : ℕ
  pub llm_provider : Text
  pub openai_api_key : Text
  pub openai_model : Text
  pub openai_base_url : Text
  pub llm_batch_size : ℕ
  pub amocrm_subdomain : Text
  pub amocrm_access_token : Text
  pub amocrm_responsible_user_id : ℕ
  pub crm_idempotency_enabled : Bool
  pub crm_idempotency_store_path : Text
  pub crm_idempotency_backend : CrmIdempotencyBackend
  pub http_max_retries : ℕ
  pub http_retry_base_delay : ℕ
  pub job_store_backend : JobStoreBackend
  pub job_db_path : Text
  pub database_url : Text
  pub job_runner_backend : JobRunnerBackend
  pub api_job_workers : ℕ
  pub redis_url : Text
  pub celery_broker_url : Text
  pub log_level : Text
  pub log_json : Bool
  pub api_key : Text
  pub api_rate_limit_per_minute : ℕ
  pub job_idempotency_ttl_seconds : ℕ
  pub otel_enabled : Bool
  pub otel_service_name : Text
  pub otel_exporter_otlp_endpoint : Text
  pub sentry_dsn : Text
  pub sentry_environment : Text

-- An environment that says nothing.
abbrev pub default_settings : Settings
default_settings = record {
  demo_mode = false;
  mock_parser = false;
  mock_llm = false;
  mock_crm = false;
  target_product_count = 10000;
  demo_product_count = 100;
  ozon_category_path = codes "/category/smartfony-15502/";
  ozon_api_base_url = codes "https://www.ozon.ru/api/composer-api.bx/page/json/v2";
  ozon_page_size = 36;
  ozon_request_timeout = 30000;
  ozon_request_delay_seconds = 1000;
  ozon_request_delay_min_seconds = none;
  ozon_request_delay_max_seconds = none;
  ozon_follow_redirects = true;
  ozon_warmup_session = true;
  ozon_rotate_user_agents = true;
  ozon_proxy_list = [];
  ozon_cookie = [];
  proxy_market_api_key = [];
  proxy_market_min_traffic_bytes = 1048576;
  llm_provider = codes "openai";
  openai_api_key = [];
  openai_model = codes "gpt-4o-mini";
  openai_base_url = codes "https://api.openai.com/v1";
  llm_batch_size = 25;
  amocrm_subdomain = [];
  amocrm_access_token = [];
  amocrm_responsible_user_id = 0;
  crm_idempotency_enabled = true;
  crm_idempotency_store_path = codes "data/crm_idempotency.json";
  crm_idempotency_backend = file;
  http_max_retries = 5;
  http_retry_base_delay = 1000;
  job_store_backend = sqlite;
  job_db_path = codes "data/jobs.sqlite";
  database_url = [];
  job_runner_backend = thread;
  api_job_workers = 2;
  redis_url = [];
  celery_broker_url = [];
  log_level = codes "INFO";
  log_json = false;
  api_key = [];
  api_rate_limit_per_minute = 60;
  job_idempotency_ttl_seconds = 86400;
  otel_enabled = false;
  otel_service_name = codes "marketplace-pipeline";
  otel_exporter_otlp_endpoint = codes "http://localhost:4318/v1/traces";
  sentry_dsn = [];
  sentry_environment = codes "production";
}

abbrev pub is_postgres : JobStoreBackend → Bool
is_postgres sqlite = false
is_postgres postgres = true

abbrev pub is_celery : JobRunnerBackend → Bool
is_celery thread = false
is_celery celery = true

abbrev pub is_redis : CrmIdempotencyBackend → Bool
is_redis file = false
is_redis redis = true

-- `not value.strip()`
abbrev pub is_blank : Text → Bool
is_blank value = is_empty (strip value)

unfoldable pub validate_scale_backends : Settings → Result Settings
validate_scale_backends s =
    if is_postgres s.job_store_backend && is_blank s.database_url
    then err (other (codes "DATABASE_URL is required when JOB_STORE_BACKEND=postgres"))
    else if is_celery s.job_runner_backend
        && not (not (is_blank s.celery_broker_url) || not (is_blank s.redis_url))
    then err
        (other (codes "CELERY_BROKER_URL or REDIS_URL is required when JOB_RUNNER_BACKEND=celery"))
    else if is_redis s.crm_idempotency_backend && is_blank s.redis_url
    then err (other (codes "REDIS_URL is required when CRM_IDEMPOTENCY_BACKEND=redis"))
    else ok s

-- `collection_target`
unfoldable pub collection_target : Settings → ℕ
collection_target s = if s.demo_mode then s.demo_product_count else s.target_product_count

-- `api_auth_enabled`
unfoldable pub api_auth_enabled : Settings → Bool
api_auth_enabled s = not (is_blank s.api_key)

-- `job_store_label`
unfoldable pub job_store_label : Settings → Text
job_store_label s = if is_postgres s.job_store_backend then codes "postgres" else s.job_db_path

-- `get_settings`, from what the environment gives.
unfoldable pub get_settings : Result Settings → Result Settings
unfolding validate_scale_backends
get_settings read = read >>= validate_scale_backends
