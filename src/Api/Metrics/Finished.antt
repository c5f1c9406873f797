-- ===== src/Api/Metrics/Finished.antt =====
-- What `build_job_finished_callback` of infrastructure/composition/factories.py gives to the job
-- executor, over the counters of infrastructure/observability/metrics.py: with the thread pool, the
-- registry of the API's process (interfaces/api/lifecycle.py); with Celery, that of a task
-- (infrastructure/workers/tasks.py).
pub mod Pool
pub mod Tasks
pub mod Totals
use marketplace_pipeline.Base.{
  ℕ, ◌+◌, ◌*◌, ◌≤◌, ◌<◌, none, ◌≡◌, refl, Bool, true, false, is_some, List, [], ◌∷◌, length, All,
  ◌∙◌, sym, ap, Bool-cases, inl, inr, if◌then◌else◌, arith,
}
use marketplace_pipeline.Composition.Settings.{JobRunnerBackend, thread, celery, is_celery}
use marketplace_pipeline.Api.Metrics.{
  Metrics, inc_completed, inc_failed, observe_job_duration, average, job_counter, shown, shown-inc,
}

-- `on_job_finished(success, duration_seconds)`
unfoldable pub on_job_finished : Bool → ℕ → Metrics → Metrics
unfolding observe_job_duration inc_completed inc_failed
on_job_finished success duration m =
    let observed = observe_job_duration duration m in
    if success then inc_completed observed else inc_failed observed

abbrev pub no_metrics : Metrics
no_metrics = record {
  redis = none;
  jobs_submitted = 0;
  jobs_completed = 0;
  jobs_failed = 0;
  http_requests = 0;
  http_duration_sum = 0;
  http_duration_count = 0;
  job_duration_sum = 0;
  job_duration_count = 0;
}

-- What a task of infrastructure/workers/tasks.py does with a registry of its own, which has the API's
-- Redis and is dropped when the job has ended.
unfoldable pub task_finished : Bool → ℕ → Metrics → Metrics
unfolding on_job_finished
task_finished success duration m = record m {
  redis = (on_job_finished success duration (record no_metrics { redis = m.redis })).redis;
}

-- The end of a job, by the runner that ran it, as it changes the registry of the API's process.
abbrev ended_by : JobRunnerBackend → Bool → ℕ → Metrics → Metrics
ended_by thread success duration m = on_job_finished success duration m
ended_by celery success duration m = task_finished success duration m

-- The jobs that end, in their order.
unfoldable pub jobs_finished : JobRunnerBackend → List (Bool × ℕ) → Metrics → Metrics
unfolding on_job_finished task_finished
jobs_finished runner [] m = m
jobs_finished runner ((success, duration) ∷ jobs) m =
    jobs_finished runner jobs (ended_by runner success duration m)

abbrev pub successes : List (Bool × ℕ) → ℕ
successes [] = 0
successes ((success, duration) ∷ jobs) = if success then successes jobs + 1 else successes jobs

abbrev pub total : List (Bool × ℕ) → ℕ
total [] = 0
total ((success, duration) ∷ jobs) = duration + total jobs
