-- ===== src/Api/Jobs/Counting.antt =====
-- The counter of submitted jobs of interfaces/api/routes/jobs.py against the queue of the runner.
use marketplace_pipeline.Base.{
  ℕ, ◌+◌, ◌≡◌, refl, Bool, true, false, Option, none, some, [], ◌∷◌, Text, is_empty, length,
  length-append, Bool-cases, inl, inr, Result, ok, err, pipeline_configuration,
  proxy_quota_exhausted, crm_configuration, ozon_anti_bot, http_status, transport, rate_limited,
  other, if◌then◌else◌, arith,
}
use marketplace_pipeline.Domain.Entities.{PipelineJob}
use marketplace_pipeline.Domain.Prerequisites.{
  validate_pipeline_prerequisites, validate_proxy_prerequisites,
}
use marketplace_pipeline.Jobs.Repository.{create, JobTable}
use marketplace_pipeline.Jobs.Keys.{reserve}
use marketplace_pipeline.Jobs.Submit.{
  JobService, enqueue, submitted, run_submit, submit_new, resolve, replay_or, reserve_and_submit,
  submit,
}
use marketplace_pipeline.Api.Jobs.{
  ApiSettings, ApiState, target_of, reply_to_submission, accept_job, after_quota, after_credentials,
  create_job,
}

-- How many jobs a submission has added to the queue, from what it returns.
abbrev added : Result (PipelineJob × Bool) → ℕ
added (ok (job, is_replay)) = if is_replay then 0 else 1
added (err e) = 0

enqueue-length :
    (created : Result JobTable) (job : PipelineJob) (service : JobService)
    → let (result, after) = submitted job (enqueue created job service) in
      length after.queue ≡ length service.queue + added result
enqueue-length (ok table) job service = omega (arith, length-append service.queue (job.id ∷ []))
enqueue-length (err e) job service = omega arith

submit_new-length :
    (job : PipelineJob) (service : JobService)
    → let (result, after) = submit_new job service in
      length after.queue ≡ length service.queue + added result
unfolding submit_new run_submit
submit_new-length job service = enqueue-length (create service.jobs job) job service

replay_or-length :
    (looked : Option PipelineJob × JobService)
    (otherwise : JobService → Result (PipelineJob × Bool) × JobService)
    → length (otherwise looked.1).1.queue ≡ length looked.1.queue + added (otherwise looked.1).0
    → length (replay_or looked otherwise).1.queue
      ≡ length looked.1.queue + added (replay_or looked otherwise).0
replay_or-length (some job, service) otherwise h = omega arith
replay_or-length (none, service) otherwise h = h

reserve_and_submit-length :
    (now : ℕ) (key : Text) (job : PipelineJob) (service : JobService)
    → let (result, after) = reserve_and_submit now key job service in
      length after.queue ≡ length service.queue + added result
unfolding reserve_and_submit resolve
reserve_and_submit-length now key job service =
    let reserved = reserve now key job.id service.keys in
    let service1 : JobService = record service { keys = reserved.1 } in
    elim (Bool-cases reserved.0) [
      | inl free ↦ rw free (submit_new-length job service1)
      | inr taken ↦ rw taken (
          replay_or-length (resolve now key service1) (submit_new job)
            (submit_new-length job (resolve now key service1).1))
    ]

-- A submission, with or without a key, adds its job's id to the queue exactly if it returns the job
-- as a new one.
submit-length :
    (now : ℕ) (key : Option Text) (job : PipelineJob) (service : JobService)
    → let (result, after) = submit now key job service in
      length after.queue ≡ length service.queue + added result
unfolding submit resolve
submit-length now none job service = submit_new-length job service
submit-length now (some key) job service = elim (Bool-cases (is_empty key)) [
  | inl empty ↦ rw empty (submit_new-length job service)
  | inr full ↦ rw full (
      replay_or-length (resolve now key service) (reserve_and_submit now key job)
        (reserve_and_submit-length now key job (resolve now key service).1))
]

reply-counts :
    (outcome : Result (PipelineJob × Bool) × JobService) (s : ApiState)
    → length outcome.1.queue ≡ length s.service.queue + added outcome.0
    → let after = (reply_to_submission outcome s.submitted).1 in
      length after.service.queue + s.submitted ≡ length s.service.queue + after.submitted
reply-counts (ok (job, true), service) s h = omega (arith, h)
reply-counts (ok (job, false), service) s h = omega (arith, h)
reply-counts (err e, service) s h = omega (arith, h)

after_quota-counts :
    (quota : Result (Unit {0})) (now : ℕ) (key : Option Text) (job : PipelineJob) (s : ApiState)
    → let after = (after_quota quota now key job s).1 in
      length after.service.queue + s.submitted ≡ length s.service.queue + after.submitted
unfolding accept_job
after_quota-counts (ok u) now key job s =
    reply-counts (submit now key job s.service) s (submit-length now key job s.service)
after_quota-counts (err (proxy_quota_exhausted m)) now key job s = refl
after_quota-counts (err (pipeline_configuration m)) now key job s = refl
after_quota-counts (err (crm_configuration m)) now key job s = refl
after_quota-counts (err (ozon_anti_bot code m)) now key job s = refl
after_quota-counts (err (http_status code body m)) now key job s = refl
after_quota-counts (err (rate_limited m)) now key job s = refl
after_quota-counts (err (transport m)) now key job s = refl
after_quota-counts (err (other m)) now key job s = refl

after_credentials-counts :
    (credentials quota : Result (Unit {0})) (now : ℕ) (key : Option Text) (job : PipelineJob)
    (s : ApiState)
    → let after = (after_credentials credentials quota now key job s).1 in
      length after.service.queue + s.submitted ≡ length s.service.queue + after.submitted
after_credentials-counts (ok u) quota now key job s = after_quota-counts quota now key job s
after_credentials-counts (err (proxy_quota_exhausted m)) quota now key job s = refl
after_credentials-counts (err (pipeline_configuration m)) quota now key job s = refl
after_credentials-counts (err (crm_configuration m)) quota now key job s = refl
after_credentials-counts (err (ozon_anti_bot code m)) quota now key job s = refl
after_credentials-counts (err (http_status code body m)) quota now key job s = refl
after_credentials-counts (err (rate_limited m)) quota now key job s = refl
after_credentials-counts (err (transport m)) quota now key job s = refl
after_credentials-counts (err (other m)) quota now key job s = refl

-- Whatever the request and its outcome, refusals, replays and errors included, the counter of
-- submitted jobs grows by exactly as much as the queue of the runner does.
pub create_job_counts :
    (settings : ApiSettings) (checker : Option (Result (Unit {0}))) (now : ℕ) (target : Option ℕ)
    (key : Option Text) (job : PipelineJob) (s : ApiState)
    → let after = (create_job settings checker now target key job s).1 in
      length after.service.queue + s.submitted ≡ length s.service.queue + after.submitted
unfolding create_job
create_job_counts settings checker now target key job s =
    after_credentials-counts (validate_pipeline_prerequisites settings.pipeline)
      (validate_proxy_prerequisites settings.proxy checker) now key
      (record job { collection_target = target_of target settings.collection_target }) s
