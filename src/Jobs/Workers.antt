-- ===== src/Jobs/Workers.antt =====
-- The requests and the workers of infrastructure/services/pipeline_job_runner.py over one job table,
-- interleaved in any order. A request writes a row and then enqueues its id; a worker takes the oldest
-- id from the pool, reads the row and writes it as running, and when its pipeline has ended, with
-- whatever result, writes it again. Each write may fail; a request whose write fails changes nothing
-- and is no step. A worker's first read and first write are one step, since no one else writes the row
-- of an id that a worker has taken.
pub mod Placed
pub mod Around
pub mod Submitting
pub mod Running
pub mod Consistency
pub mod Draining
pub mod Stopping
use marketplace_pipeline.Base.{
  ℕ, ◌+◌, ◌<◌, ◌≡◌, Option, none, some, List, [], ◌∷◌, ◌++◌, length, Text, Result, ok,
}
use marketplace_pipeline.Domain.Entities.{PipelineJob, pending}
use marketplace_pipeline.Application.RunPipeline.{PipelineResult}
use marketplace_pipeline.Jobs.Repository.{JobTable, create}
use marketplace_pipeline.Jobs.Executor.{begin_job, end_job}

-- A job with the defaults of its model.
unfoldable pub new_job : Text → ℕ → ℕ → Option Text → PipelineJob
new_job id created_at target correlation_id = record {
  id = id;
  status = pending;
  created_at = created_at;
  started_at = none;
  finished_at = none;
  collection_target = target;
  collected_count = none;
  classified_count = none;
  crm_tasks_count = none;
  output_path = none;
  error_message = none;
  correlation_id = correlation_id;
}

-- The table, the ids whose row is written and that are not enqueued yet, those that wait in the pool,
-- those that a worker has taken and whose row it has not written yet, the jobs as the workers hold them
-- while their pipelines run, and the ids whose worker has ended at a write that failed.
pub record Workers : Type 0 where
  pub jobs : JobTable
  pub created : List Text
  pub queue : List Text
  pub taken : List Text
  pub held : List PipelineJob
  pub lost : List Text

abbrev pub held_with : Option PipelineJob → List PipelineJob → List PipelineJob
held_with none held = held
held_with (some job) held = held ++ job ∷ []

-- A worker that has taken an id reads the row and writes it as running. Without a row there is nothing
-- to run.
unfoldable pub start_job : ℕ → Text → List Text → Workers → Workers
unfolding begin_job
start_job now job_id taken s =
    let (job, jobs) = begin_job now job_id s.jobs in
    record s { jobs = jobs; taken = taken; held = held_with job s.held }

-- The steps, with a pool of so many workers.
pub data Step (max_workers : ℕ) (s : Workers) : Workers → Type 0 where
  creates :
      (id : Text) (created_at target : ℕ) (correlation_id : Option Text) (jobs : JobTable)
      → create s.jobs (new_job id created_at target correlation_id) ≡ ok jobs
      → Step max_workers s (record s { jobs = jobs; created = s.created ++ id ∷ [] })
  enqueues :
      (id : Text) (before after : List Text)
      → s.created ≡ before ++ id ∷ after
      → Step max_workers s (record s { created = before ++ after; queue = s.queue ++ id ∷ [] })
  takes :
      (id : Text) (rest : List Text)
      → s.queue ≡ id ∷ rest
      → length s.taken + length s.held < max_workers
      → Step max_workers s (record s { queue = rest; taken = s.taken ++ id ∷ [] })
  starts :
      (now : ℕ) (id : Text) (before after : List Text)
      → s.taken ≡ before ++ id ∷ after
      → Step max_workers s (start_job now id (before ++ after) s)
  -- The first read or the first write raises.
  start_fails :
      (id : Text) (before after : List Text)
      → s.taken ≡ before ++ id ∷ after
      → Step max_workers s (record s { taken = before ++ after; lost = s.lost ++ id ∷ [] })
  ends :
      (now : ℕ) (before after : List PipelineJob) (job : PipelineJob)
      (result : Result PipelineResult)
      → s.held ≡ before ++ job ∷ after
      → Step max_workers s
          (record s { jobs = end_job now job result s.jobs; held = before ++ after })
  -- The second write raises.
  end_fails :
      (before after : List PipelineJob) (job : PipelineJob)
      → s.held ≡ before ++ job ∷ after
      → Step max_workers s (record s { held = before ++ after; lost = s.lost ++ job.id ∷ [] })

abbrev pub idle : Workers
idle = record { jobs = []; created = []; queue = []; taken = []; held = []; lost = [] }

pub data Reach (max_workers : ℕ) : Workers → Type 0 where
  here : Reach max_workers idle
  next : {s t : Workers} → Reach max_workers s → Step max_workers s t → Reach max_workers t
