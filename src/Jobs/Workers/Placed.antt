-- ===== src/Jobs/Workers/Placed.antt =====
-- Where a job of the workers has to stand, by the status of its row.
use marketplace_pipeline.Base.{
  ℕ, ◌+◌, ◌≤◌, ◌≡◌, Bool, true, false, not, ◌&&◌, ◌||◌, Option, none, some, is_some, List, ◌++◌,
  map, length, Text, Text-Eq, contains, Distinct, All,
}
use marketplace_pipeline.Domain.Entities.{
  PipelineJob, JobStatus, pending, running, completed, failed,
}
use marketplace_pipeline.Jobs.Repository.{get}
use marketplace_pipeline.Jobs.Workers.{Workers}

abbrev pub is_pending : JobStatus → Bool
is_pending pending = true
is_pending _ = false

abbrev pub is_running : JobStatus → Bool
is_running running = true
is_running _ = false

-- No counts and no path.
abbrev no_counts : PipelineJob → Bool
no_counts row =
    not (is_some row.collected_count)
    && not (is_some row.classified_count)
    && not (is_some row.crm_tasks_count)
    && not (is_some row.output_path)

-- The columns that a row of each status has, and those that it has not.
abbrev pub has_columns : JobStatus → PipelineJob → Bool
has_columns pending row =
    not (is_some row.started_at)
    && not (is_some row.finished_at)
    && not (is_some row.error_message)
    && no_counts row
has_columns running row =
    is_some row.started_at
    && not (is_some row.finished_at)
    && not (is_some row.error_message)
    && no_counts row
has_columns completed row =
    is_some row.started_at
    && is_some row.finished_at
    && is_some row.collected_count
    && is_some row.classified_count
    && is_some row.crm_tasks_count
    && not (is_some row.error_message)
has_columns failed row =
    is_some row.started_at && is_some row.finished_at && is_some row.error_message && no_counts row

abbrev same : Bool → Bool → Bool
same true b = b
same false b = not b

-- What the row of an id says against whether the id waits to be started, whether a worker holds its
-- job, and whether its worker has ended at a write that failed.
abbrev pub placed : Option PipelineJob → Bool → Bool → Bool → Bool
placed none waits is_held is_lost = not waits && not is_held && not is_lost
placed (some row) waits is_held true =
    has_columns row.status row
    && not waits
    && not is_held
    && (is_pending row.status || is_running row.status)
placed (some row) waits is_held false =
    has_columns row.status row
    && same waits (is_pending row.status)
    && same is_held (is_running row.status)

abbrev pub ids : List PipelineJob → List Text
ids jobs = map (λ (job : PipelineJob). job.id) jobs

-- The ids that are not started yet.
abbrev pub waiting : Workers → List Text
waiting s = s.taken ++ (s.queue ++ s.created)

-- A job as a worker holds it.
abbrev pub is_held_job : PipelineJob → Bool
is_held_job job = is_running job.status && has_columns running job

-- Every id stands where the status of its row says, no worker and no place before it is shared, and
-- there are no more busy workers than the pool has.
pub record IsConsistent (max_workers : ℕ) (s : Workers) : Type 0 where
  pub well_placed :
      (id : Text)
      → placed
          (get s.jobs id)
          (contains id (waiting s))
          (contains id (ids s.held))
          (contains id s.lost)
        ≡ true
  pub waiting_distinct : Distinct (waiting s)
  pub held_distinct : Distinct (ids s.held)
  pub held_started : All (λ job. is_held_job job ≡ true) s.held
  pub few_busy : length s.taken + length s.held ≤ max_workers
