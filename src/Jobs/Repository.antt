-- ===== src/Jobs/Repository.antt =====
-- The job tables of infrastructure/adapters/persistence/sqlite_job_repository.py and
-- postgres_job_repository.py: the rows of `pipeline_jobs` in insertion order. The two adapters
-- issue the same statements; what they do to a time stamp's text is not modelled.
pub mod Laws
pub mod Rows
pub mod Refinement
pub mod Adapters
use marketplace_pipeline.Base.{
  ℕ, Bool, true, false, Option, none, some, List, [], ◌∷◌, ◌++◌, Text, Text-Eq, ◌==◌, codes, sorted,
  take, Result, ok, err, other, if◌then◌else◌,
}
use marketplace_pipeline.Domain.Entities.{PipelineJob}

abbrev pub JobTable : Type 0
JobTable = List PipelineJob

-- `SELECT * FROM pipeline_jobs WHERE id = ?`
unfoldable pub get : JobTable → Text → Option PipelineJob
get [] job_id = none
get (row ∷ table) job_id = if row.id == job_id then some row else get table job_id

-- The insertion fails on a second row with the same primary key.
unfoldable pub create : JobTable → PipelineJob → Result JobTable
unfolding get
create table job = elim (get table job.id) [
  | none ↦ ok (table ++ job ∷ [])
  | some row ↦ err (other (codes "UNIQUE constraint failed: pipeline_jobs.id"))
]

-- The columns that `UPDATE` sets; the others keep their values.
unfoldable pub updated_row : PipelineJob → PipelineJob → PipelineJob
updated_row row job = record row {
  status = job.status;
  started_at = job.started_at;
  finished_at = job.finished_at;
  collected_count = job.collected_count;
  classified_count = job.classified_count;
  crm_tasks_count = job.crm_tasks_count;
  output_path = job.output_path;
  error_message = job.error_message;
}

-- `UPDATE pipeline_jobs SET ... WHERE id = ?`
unfoldable pub update : JobTable → PipelineJob → JobTable
unfolding updated_row
update [] job = []
update (row ∷ table) job =
    (if row.id == job.id then updated_row row job else row) ∷ update table job

abbrev pub created : PipelineJob → ℕ
created job = job.created_at

-- `SELECT * FROM pipeline_jobs ORDER BY created_at DESC LIMIT ?`; rows of one time stamp come in
-- the order of their insertion.
unfoldable pub list_recent : JobTable → ℕ → List PipelineJob
list_recent table limit = take limit (sorted created true table)
