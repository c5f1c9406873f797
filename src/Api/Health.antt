-- ===== src/Api/Health.antt =====
-- interfaces/api/routes/health.py: the readiness of a process. The pings and the calls of the file
-- system are parameters; what those calls raise is an OSError.
use marketplace_pipeline.Base.{
  ℕ, ◌≡◌, Bool, true, false, not, ◌&&◌, ◌||◌, Option, none, some, List, [], ◌∷◌, ◌++◌, Text,
  Text-Eq, ◌==◌, codes, if◌then◌else◌, arith, ◌↔◌, Result, ok, err, Exec, ◌>>>=◌,
}
use marketplace_pipeline.Composition.Settings.{
  Settings, JobRunnerBackend, thread, celery, CrmIdempotencyBackend, file, redis, job_store_label,
}

pub record ReadySettings : Type 0 where
  pub job_runner_backend : Text
  pub crm_idempotency_backend : Text
  pub job_store_label : Text

-- `_needs_redis`
unfoldable pub needs_redis : ReadySettings → Bool
needs_redis settings =
    settings.job_runner_backend == codes "celery"
    || settings.crm_idempotency_backend == codes "redis"

pub record ReadyResponse : Type 0 where
  pub status_code : ℕ
  pub ready : Bool
  pub job_store : Text
  pub job_db_ok : Bool
  pub data_dir_writable : Bool
  pub redis_ok : Option Bool
  pub checks : List Text

-- `redis_ok is not False`
abbrev is_not_false : Option Bool → Bool
is_not_false none = true
is_not_false (some answered) = answered

abbrev checks_of : Bool → Bool → Option Bool → List Text
checks_of job_db_ok data_dir_ok redis_ok =
    (if not job_db_ok then codes "job_store_unreachable" ∷ [] else [])
    ++ ((if not data_dir_ok then codes "data_dir_not_writable" ∷ [] else [])
        ++ (if is_not_false redis_ok then [] else codes "redis_unreachable" ∷ []))

-- `ready`
unfoldable pub readiness : ReadySettings → Bool → Bool → Bool → ReadyResponse
unfolding needs_redis
readiness settings job_db_ok data_dir_ok redis_answers =
    let redis_ok = if needs_redis settings then some redis_answers else none in
    let is_ready = job_db_ok && data_dir_ok && is_not_false redis_ok in
    record {
      status_code = if is_ready then 200 else 503;
      ready = is_ready;
      job_store = settings.job_store_label;
      job_db_ok = job_db_ok;
      data_dir_writable = data_dir_ok;
      redis_ok = redis_ok;
      checks = checks_of job_db_ok data_dir_ok redis_ok;
    }

-- A process reports that it is ready exactly when the status is 200, when no check is listed as
-- failed, and when its job store answers, its data directory is writable, and Redis answers if the
-- job runner or the CRM's records need it.
pub readiness_lem :
    (settings : ReadySettings) (job_db_ok data_dir_ok redis_answers : Bool)
    → let r = readiness settings job_db_ok data_dir_ok redis_answers in
      ((r.ready ≡ true) ↔ (r.status_code ≡ 200))
      × ((r.ready ≡ true) ↔ (r.checks ≡ []))
      × ((r.ready ≡ true) ↔ (
          (job_db_ok ≡ true)
          × (data_dir_ok ≡ true)
          × (needs_redis settings ≡ true → redis_answers ≡ true)))
unfolding readiness
readiness_lem settings job_db_ok data_dir_ok redis_answers =
    (ground arith, ground arith, ground arith)

abbrev is_ok : Result (Unit {0}) → Bool
is_ok (ok u) = true
is_ok (err e) = false

-- `_check_data_dir_writable`: the directory is made, and a probe is written and removed.
unfoldable pub check_data_dir_writable :
    {W : Type 0} → Exec W (Unit {0}) → Exec W (Unit {0}) → Exec W (Unit {0}) → W → Bool × W
check_data_dir_writable mkdir write_text unlink w =
    let (done, w') = (mkdir >>>= (λ made. write_text >>>= λ written. unlink)) w in (is_ok done, w')

abbrev runner_text : JobRunnerBackend → Text
runner_text thread = codes "thread"
runner_text celery = codes "celery"

abbrev crm_text : CrmIdempotencyBackend → Text
crm_text file = codes "file"
crm_text redis = codes "redis"

unfoldable pub ready_settings : Settings → ReadySettings
unfolding job_store_label
ready_settings s = record {
  job_runner_backend = runner_text s.job_runner_backend;
  crm_idempotency_backend = crm_text s.crm_idempotency_backend;
  job_store_label = job_store_label s;
}

module _ {W : Type 0} (ping_job_store : W → Bool × W) (check_data_dir : W → Bool × W)
    (ping_redis : W → Bool × W) where
  -- `ready`, with its calls in their order; Redis is asked only if it is needed.
  unfoldable pub ready : Settings → W → ReadyResponse × W
  unfolding readiness ready_settings needs_redis
  ready s w =
      let settings = ready_settings s in
      let (job_db_ok, w1) = ping_job_store w in
      let (data_dir_ok, w2) = check_data_dir w1 in
      let (redis_answers, w3) = ping_redis w2 in
      (
        readiness settings job_db_ok data_dir_ok redis_answers,
        if needs_redis settings then w3 else w2,
      )

-- `health`
pub record HealthResponse : Type 0 where
  pub status : Text
  pub service : Text
  pub version : Text

unfoldable pub health : HealthResponse
health = record {
  status = codes "ok";
  service = codes "marketplace-pipeline";
  version = codes "0.5.0";
}
