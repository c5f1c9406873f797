-- ===== src/Api/Jobs.antt =====
-- interfaces/api/routes/jobs.py. The checker of the proxy's quota is what `check_quota_available`
-- does, if there is one; closing it is left out. The new job is given with its id, its time and its
-- correlation id.
pub mod Counting
use marketplace_pipeline.Base.{
  ℕ, ◌+◌, Bool, true, false, Option, none, some, List, [], ◌∷◌, ◌++◌, Text, codes, nat_eq,
  if◌then◌else◌, Result, ok, err, Error, pipeline_configuration, proxy_quota_exhausted, Exec,
  length,
}
use marketplace_pipeline.Domain.Entities.{PipelineJob}
use marketplace_pipeline.Domain.Prerequisites.{
  PipelinePrerequisites, ProxyPrerequisites, validate_pipeline_prerequisites,
  validate_proxy_prerequisites,
}
use marketplace_pipeline.Jobs.Submit.{JobService, submit, get_job, list_jobs}

pub record ApiSettings : Type 0 where
  pub pipeline : PipelinePrerequisites
  pub proxy : ProxyPrerequisites
  pub collection_target : ℕ

-- The state of the application: the jobs, and the counter `jobs_submitted` of the metrics.
pub record ApiState : Type 0 where
  pub service : JobService
  pub submitted : ℕ

-- A response, by its status code.
pub data Reply : Type 0 where
  accepted : PipelineJob → Reply
  found : PipelineJob → Reply
  listed : List PipelineJob → ℕ → Reply
  payment_required : Text → Reply
  not_found : Text → Reply
  unprocessable : Text → Reply

-- `body.collection_target or settings.collection_target`
abbrev target_of : Option ℕ → ℕ → ℕ
target_of none default_target = default_target
target_of (some n) default_target = if nat_eq n 0 then default_target else n

abbrev reply_to_submission : Result (PipelineJob × Bool) × JobService → ℕ → Result Reply × ApiState
reply_to_submission (ok (job, is_replay), service) submitted = (
  ok (accepted job),
  record { service = service; submitted = if is_replay then submitted else submitted + 1 },
)
reply_to_submission (err e, service) submitted =
    (err e, record { service = service; submitted = submitted })

-- What follows the two checks.
unfoldable pub accept_job : ℕ → Option Text → PipelineJob → Exec ApiState Reply
accept_job now idempotency_key job s =
    reply_to_submission (submit now idempotency_key job s.service) s.submitted

-- The check of the quota. Only its own error becomes a response.
abbrev after_quota : Result (Unit {0}) → ℕ → Option Text → PipelineJob → Exec ApiState Reply
after_quota (ok u) now idempotency_key job s = accept_job now idempotency_key job s
after_quota (err (proxy_quota_exhausted m)) now idempotency_key job s = (ok (payment_required m), s)
after_quota (err e) now idempotency_key job s = (err e, s)

abbrev after_credentials :
    Result (Unit {0}) → Result (Unit {0}) → ℕ → Option Text → PipelineJob → Exec ApiState Reply
after_credentials (ok u) quota now idempotency_key job s =
    after_quota quota now idempotency_key job s
after_credentials (err (pipeline_configuration m)) quota now idempotency_key job s =
    (ok (unprocessable m), s)
after_credentials (err e) quota now idempotency_key job s = (err e, s)

-- `create_job`
unfoldable pub create_job :
    ApiSettings
    → Option (Result (Unit {0}))
    → ℕ
    → Option ℕ
    → Option Text
    → PipelineJob
    → Exec ApiState Reply
unfolding accept_job
create_job settings checker now target idempotency_key job s =
    after_credentials (validate_pipeline_prerequisites settings.pipeline)
      (validate_proxy_prerequisites settings.proxy checker) now idempotency_key
      (record job { collection_target = target_of target settings.collection_target }) s

abbrev found_or_not : Text → Option PipelineJob → Reply
found_or_not job_id none = not_found (codes "Job " ++ (job_id ++ codes " not found"))
found_or_not job_id (some job) = found job

-- `get_job` of the routes
unfoldable pub reply_to_get : ApiState → Text → Reply
reply_to_get s job_id = found_or_not job_id (get_job s.service job_id)

-- `list_jobs` of the routes
unfoldable pub reply_to_list : ApiState → ℕ → Reply
reply_to_list s limit = let jobs = list_jobs s.service limit in listed jobs (length jobs)
