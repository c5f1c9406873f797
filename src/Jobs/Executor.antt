-- ===== src/Jobs/Executor.antt =====
-- infrastructure/services/pipeline_job_executor.py. `run` is the pipeline that the container builds,
-- given the job's target; the times are readings of the clock. Between the two writes of the job's
-- row other workers may write theirs, so the start and the end are steps of their own.
pub mod Rows
pub mod Again
use marketplace_pipeline.Base.{
  ℕ, Bool, true, false, Option, none, some, List, Text, Result, ok, err, Error, str_error, Exec,
  length, [], ◌∷◌, ◌++◌,
}
use marketplace_pipeline.Domain.Entities.{
  PipelineJob, JobStatus, pending, running, completed, failed,
}
use marketplace_pipeline.Application.RunPipeline.{PipelineResult}
use marketplace_pipeline.Jobs.Repository.{JobTable, get, update}

-- `job.status = RUNNING; job.started_at = now`
unfoldable pub started : ℕ → PipelineJob → PipelineJob
started now job = record job { status = running; started_at = some now }

-- The `try` and `except` blocks.
unfoldable pub concluded : PipelineJob → Result PipelineResult → PipelineJob
concluded job (ok result) = record job {
  status = completed;
  collected_count = some result.collection_result.collected_count;
  classified_count = some (length result.enriched_products);
  crm_tasks_count = some (length result.crm_tasks);
  output_path = result.output_path;
}
concluded job (err e) = record job { status = failed; error_message = some (str_error e) }

-- The `finally` block's write.
unfoldable pub finished : ℕ → PipelineJob → PipelineJob
finished now job = record job { finished_at = some now }

abbrev pub succeeded : Result PipelineResult → Bool
succeeded (ok r) = true
succeeded (err e) = false

-- The table and what the pipeline works on, with the calls of `on_job_finished`.
pub record Worker (W : Type 0) : Type 0 where
  pub jobs : JobTable
  pub world : W
  pub reports : List Bool

-- Up to the call of the pipeline: the job, as this worker holds it, if there is one.
unfoldable pub begin_job : ℕ → Text → JobTable → Option PipelineJob × JobTable
unfolding started
begin_job now job_id table = elim (get table job_id) [
  | none ↦ (none, table)
  | some job ↦ (some (started now job), update table (started now job))
]

-- From the pipeline's return on, with the job that the worker holds.
unfoldable pub end_job : ℕ → PipelineJob → Result PipelineResult → JobTable → JobTable
unfolding concluded finished
end_job now job result table = update table (finished now (concluded job result))

module _ {W : Type 0} (run : ℕ → Exec W PipelineResult) where
  abbrev proceed : ℕ → Worker W → Option PipelineJob × JobTable → Worker W
  proceed end_time worker (none, table) = worker
  proceed end_time worker (some job, table) =
      let (result, world') = run job.collection_target worker.world in
      record {
        jobs = end_job end_time job result table;
        world = world';
        reports = worker.reports ++ succeeded result ∷ [];
      }

  -- `execute_pipeline_job`, where no other worker writes in between.
  unfoldable pub execute_pipeline_job : ℕ → ℕ → Text → Worker W → Worker W
  unfolding begin_job end_job
  execute_pipeline_job start_time end_time job_id worker =
      proceed end_time worker (begin_job start_time job_id worker.jobs)
