-- ===== src/Jobs/Repository/Rows.antt =====
-- The rows of `pipeline_jobs` as the two adapters of infrastructure/adapters/persistence write and
-- read them. A column of time holds a value of `T`: a text in SQLite, a moment in Postgres.
use marketplace_pipeline.Base.{
  ℕ, Bool, Option, none, some, List, [], ◌∷◌, ◌++◌, Text, Text-Eq, ◌==◌, codes, take, Result, ok,
  err, other, ◌>>=◌, if◌then◌else◌,
}
use marketplace_pipeline.Domain.Entities.{
  PipelineJob, JobStatus, pending, running, completed, failed,
}

pub record JobRow (T : Type 0) : Type 0 where
  pub id : Text
  pub status : Text
  pub created_at : T
  pub started_at : Option T
  pub finished_at : Option T
  pub collection_target : ℕ
  pub collected_count : Option ℕ
  pub classified_count : Option ℕ
  pub crm_tasks_count : Option ℕ
  pub output_path : Option Text
  pub error_message : Option Text
  pub correlation_id : Option Text

-- `status.value`
unfoldable pub status_value : JobStatus → Text
status_value pending = codes "pending"
status_value running = codes "running"
status_value completed = codes "completed"
status_value failed = codes "failed"

-- `JobStatus(value)`
unfoldable pub job_status : Text → Result JobStatus
job_status value =
    if value == codes "pending"
    then ok pending
    else if value == codes "running"
    then ok running
    else if value == codes "completed"
    then ok completed
    else if value == codes "failed"
    then ok failed
    else err (other (value ++ codes " is not a valid JobStatus"))

-- What an adapter does to its columns of time. `read_created` is given the clock's reading.
pub record Stamps (T : Type 0) : Type 0 where
  pub write : ℕ → T
  pub read_created : ℕ → T → Result ℕ
  pub read : Option T → Result (Option ℕ)
  -- The database's order of the column.
  pub less : T → T → Bool

abbrev pub write_optional : {T : Type 0} → Stamps T → Option ℕ → Option T
write_optional stamps none = none
write_optional stamps (some t) = some (stamps.write t)

module _ {T : Type 0} (stamps : Stamps T) where
  -- `_to_row`
  unfoldable pub to_row : PipelineJob → JobRow T
  unfolding status_value
  to_row job = record {
    id = job.id;
    status = status_value job.status;
    created_at = stamps.write job.created_at;
    started_at = write_optional stamps job.started_at;
    finished_at = write_optional stamps job.finished_at;
    collection_target = job.collection_target;
    collected_count = job.collected_count;
    classified_count = job.classified_count;
    crm_tasks_count = job.crm_tasks_count;
    output_path = job.output_path;
    error_message = job.error_message;
    correlation_id = job.correlation_id;
  }

  -- `_from_row`
  unfoldable pub from_row : ℕ → JobRow T → Result PipelineJob
  unfolding job_status
  from_row now row = do
    status ← job_status row.status
    created_at ← stamps.read_created now row.created_at
    started_at ← stamps.read row.started_at
    finished_at ← stamps.read row.finished_at
    ok (record {
      id = row.id;
      status = status;
      created_at = created_at;
      started_at = started_at;
      finished_at = finished_at;
      collection_target = row.collection_target;
      collected_count = row.collected_count;
      classified_count = row.classified_count;
      crm_tasks_count = row.crm_tasks_count;
      output_path = row.output_path;
      error_message = row.error_message;
      correlation_id = row.correlation_id;
    })

  abbrev pub read_one : ℕ → Option (JobRow T) → Result (Option PipelineJob)
  read_one now none = ok none
  read_one now (some row) = do job ← from_row now row; ok (some job)

  abbrev pub read_all : ℕ → List (JobRow T) → Result (List PipelineJob)
  read_all now [] = ok []
  read_all now (row ∷ rows) = do job ← from_row now row; jobs ← read_all now rows; ok (job ∷ jobs)

  -- `SELECT * FROM pipeline_jobs WHERE id = ?`
  abbrev pub select_by_id : Text → List (JobRow T) → Option (JobRow T)
  select_by_id job_id [] = none
  select_by_id job_id (row ∷ rows) = if row.id == job_id then some row else select_by_id job_id rows

  -- `get`
  unfoldable pub get_job_row : ℕ → List (JobRow T) → Text → Result (Option PipelineJob)
  unfolding from_row
  get_job_row now rows job_id = read_one now (select_by_id job_id rows)

  abbrev pub insert_row : JobRow T → Option (JobRow T) → List (JobRow T) → Result (List (JobRow T))
  insert_row row none rows = ok (rows ++ row ∷ [])
  insert_row row (some old) rows = err (other (codes "UNIQUE constraint failed: pipeline_jobs.id"))

  -- `create`: the insertion fails on a second row with the same primary key.
  unfoldable pub create_job_row : List (JobRow T) → PipelineJob → Result (List (JobRow T))
  unfolding to_row
  create_job_row rows job = insert_row (to_row job) (select_by_id job.id rows) rows

  -- The columns that `UPDATE` sets.
  unfoldable pub set_columns : JobRow T → PipelineJob → JobRow T
  unfolding status_value
  set_columns row job = record row {
    status = status_value job.status;
    started_at = write_optional stamps job.started_at;
    finished_at = write_optional stamps job.finished_at;
    collected_count = job.collected_count;
    classified_count = job.classified_count;
    crm_tasks_count = job.crm_tasks_count;
    output_path = job.output_path;
    error_message = job.error_message;
  }

  -- `update`
  unfoldable pub update_job_row : List (JobRow T) → PipelineJob → List (JobRow T)
  unfolding set_columns
  update_job_row [] job = []
  update_job_row (row ∷ rows) job =
      (if row.id == job.id then set_columns row job else row) ∷ update_job_row rows job

  abbrev pub insert_recent : JobRow T → List (JobRow T) → List (JobRow T)
  insert_recent row [] = row ∷ []
  insert_recent row (r ∷ rows) =
      let further = r ∷ insert_recent row rows in
      if stamps.less row.created_at r.created_at then further else row ∷ r ∷ rows

  -- `ORDER BY created_at DESC`
  abbrev pub order_by_created : List (JobRow T) → List (JobRow T)
  order_by_created [] = []
  order_by_created (row ∷ rows) = insert_recent row (order_by_created rows)

  -- `list_recent`
  unfoldable pub list_recent_rows : ℕ → List (JobRow T) → ℕ → Result (List PipelineJob)
  unfolding from_row
  list_recent_rows now rows limit = read_all now (take limit (order_by_created rows))
