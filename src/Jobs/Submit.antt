-- ===== src/Jobs/Submit.antt =====
-- application/use_cases/pipeline_jobs.py, and `submit` of the two runners,
-- infrastructure/services/pipeline_job_runner.py and celery_job_runner.py. A request reads one clock
-- value, `now`, for its calls of the key store.
pub mod Replay
use marketplace_pipeline.Base.{
  ℕ, Bool, true, false, Option, none, some, List, [], ◌∷◌, ◌++◌, Text, is_empty, Result, ok, err,
  Error, Exec, if◌then◌else◌,
}
use marketplace_pipeline.Domain.Entities.{PipelineJob}
use marketplace_pipeline.Jobs.Repository.{JobTable, get, create, list_recent}
use marketplace_pipeline.Jobs.Keys.{KeyStore, get_key, reserve}

-- The job table, the ids that wait for a worker, and the keys of the requests.
pub record JobService : Type 0 where
  pub jobs : JobTable
  pub queue : List Text
  pub keys : KeyStore

-- `JobRunnerPort.submit`, in either runner: the row, then the task.
abbrev pub enqueue : Result JobTable → PipelineJob → Exec JobService (Unit {0})
enqueue (ok table) job service =
    (ok tt, record service { jobs = table; queue = service.queue ++ job.id ∷ [] })
enqueue (err e) job service = (err e, service)

unfoldable pub run_submit : PipelineJob → Exec JobService (Unit {0})
run_submit job service = enqueue (create service.jobs job) job service

abbrev pub submitted :
    PipelineJob → Result (Unit {0}) × JobService → Result (PipelineJob × Bool) × JobService
submitted job (ok u, service) = (ok (job, false), service)
submitted job (err e, service) = (err e, service)

-- The end of `execute`: no replay.
unfoldable pub submit_new : PipelineJob → Exec JobService (PipelineJob × Bool)
unfolding run_submit
submit_new job service = submitted job (run_submit job service)

abbrev found_job : JobTable → Option Text → Option PipelineJob
found_job table none = none
found_job table (some job_id) = get table job_id

-- `_resolve_idempotent`
unfoldable pub resolve : ℕ → Text → JobService → Option PipelineJob × JobService
resolve now key service =
    let (job_id, keys) = get_key now key service.keys in
    (found_job service.jobs job_id, record service { keys = keys })

abbrev pub replay_or :
    Option PipelineJob × JobService
    → Exec JobService (PipelineJob × Bool)
    → Result (PipelineJob × Bool) × JobService
replay_or (some job, service) otherwise = (ok (job, true), service)
replay_or (none, service) otherwise = otherwise service

-- Behind the first look-up: the reservation, and the second look-up if it fails.
unfoldable pub reserve_and_submit : ℕ → Text → PipelineJob → Exec JobService (PipelineJob × Bool)
unfolding submit_new resolve
reserve_and_submit now key job service =
    let (reserved, keys) = reserve now key job.id service.keys in
    let service' = record service { keys = keys } in
    if reserved
    then submit_new job service'
    else replay_or (resolve now key service') (submit_new job)

-- `SubmitPipelineJobUseCase.execute` with a key store.
unfoldable pub submit : ℕ → Option Text → PipelineJob → Exec JobService (PipelineJob × Bool)
unfolding reserve_and_submit
submit now none job service = submit_new job service
submit now (some key) job service =
    if is_empty key
    then submit_new job service
    else replay_or (resolve now key service) (reserve_and_submit now key job)

-- `GetPipelineJobUseCase.execute` and `ListPipelineJobsUseCase.execute`.
unfoldable pub get_job : JobService → Text → Option PipelineJob
get_job service job_id = get service.jobs job_id

unfoldable pub list_jobs : JobService → ℕ → List PipelineJob
list_jobs service limit = list_recent service.jobs limit
