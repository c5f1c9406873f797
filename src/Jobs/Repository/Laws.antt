-- ===== src/Jobs/Repository/Laws.antt =====
-- How the operations of the job tables interact.
use marketplace_pipeline.Base.{
  ◌≡◌, refl, Option, none, some, [], ◌∷◌, ◌++◌, Text, Text-Eq, ◌==◌, text_eq_iff, ok, if◌then◌else◌,
  arith,
}
use marketplace_pipeline.Domain.Entities.{PipelineJob}
use marketplace_pipeline.Jobs.Repository.{JobTable, get, create, updated_row, update}

id-updated_row : (row job : PipelineJob) → (updated_row row job).id ≡ row.id
unfolding updated_row
id-updated_row row job = refl

-- `updated_row` where there is a row.
abbrev pub updated_found : Option PipelineJob → PipelineJob → Option PipelineJob
updated_found none job = none
updated_found (some row) job = some (updated_row row job)

pub get-update :
    (table : JobTable) (job : PipelineJob) (job_id : Text)
    → get (update table job) job_id
      ≡ (if job.id == job_id then updated_found (get table job_id) job else get table job_id)
unfolding get update
get-update [] job job_id = ground arith
get-update (row ∷ table) job job_id = ground (
  arith,
  get-update table job job_id,
  text_eq_iff row.id job.id,
  text_eq_iff row.id job_id,
  text_eq_iff job.id job_id,
  id-updated_row row job,
)

get-append :
    (table : JobTable) (job : PipelineJob) (job_id : Text)
    → get table job.id ≡ none
    → get (table ++ job ∷ []) job_id ≡ (if job.id == job_id then some job else get table job_id)
unfolding get
get-append [] job job_id new = refl
get-append (row ∷ table) job job_id new = ground (
  arith,
  get-append table job job_id,
  text_eq_iff row.id job.id,
  text_eq_iff row.id job_id,
  text_eq_iff job.id job_id,
)

-- A job that is created is found by its id, and the other jobs are as they were.
pub get-create :
    (table later : JobTable) (job : PipelineJob) (job_id : Text)
    → create table job ≡ ok later
    → get later job_id ≡ (if job.id == job_id then some job else get table job_id)
unfolding create
get-create table later job job_id h = ground (arith, get-append table job job_id)
