-- ===== src/Jobs/Executor/Rows.antt =====
-- The rows that infrastructure/services/pipeline_job_executor.py writes.
use marketplace_pipeline.Base.{
  Exec, ℕ, ◌≡◌, refl, some, [], ◌∷◌, ◌++◌, Text, Text-Eq, ◌==◌, text_eq_iff, Result, ok, err,
  str_error, length, if◌then◌else◌, arith,
}
use marketplace_pipeline.Domain.Entities.{PipelineJob, completed, failed}
use marketplace_pipeline.Application.RunPipeline.{PipelineResult}
use marketplace_pipeline.Jobs.Repository.{JobTable, get, update, updated_row}
use marketplace_pipeline.Jobs.Repository.Laws.{get-update}
use marketplace_pipeline.Jobs.Executor.{
  started, concluded, finished, succeeded, Worker, end_job, execute_pipeline_job,
}

-- What the row says in the end, from what it said before and the pipeline's result.
unfoldable pub final_row : ℕ → ℕ → PipelineJob → Result PipelineResult → PipelineJob
final_row start_time end_time job (ok result) = record job {
  status = completed;
  started_at = some start_time;
  finished_at = some end_time;
  collected_count = some result.collection_result.collected_count;
  classified_count = some (length result.enriched_products);
  crm_tasks_count = some (length result.crm_tasks);
  output_path = result.output_path;
}
final_row start_time end_time job (err e) = record job {
  status = failed;
  started_at = some start_time;
  finished_at = some end_time;
  error_message = some (str_error e);
}

pub id-get :
    (table : JobTable) (job_id : Text) (job : PipelineJob)
    → get table job_id ≡ some job
    → job.id ≡ job_id
unfolding get
id-get [] job_id job h = cc
id-get (row ∷ table) job_id job h =
    ground (arith, text_eq_iff row.id job_id, id-get table job_id job)

updated_row-final :
    (start_time end_time : ℕ) (job : PipelineJob) (result : Result PipelineResult)
    → updated_row
        (updated_row job (started start_time job))
        (finished end_time (concluded (started start_time job) result))
      ≡ final_row start_time end_time job result
unfolding updated_row started concluded finished final_row
updated_row-final start_time end_time job (ok result) = refl
updated_row-final start_time end_time job (err e) = refl

pub id-finished :
    (start_time end_time : ℕ) (job : PipelineJob) (result : Result PipelineResult)
    → (finished end_time (concluded (started start_time job) result)).id ≡ job.id
unfolding started concluded finished
id-finished start_time end_time job (ok result) = refl
id-finished start_time end_time job (err e) = refl

pub id-started : (start_time : ℕ) (job : PipelineJob) → (started start_time job).id ≡ job.id
unfolding started
id-started start_time job = refl

target-started :
    (start_time : ℕ) (job : PipelineJob)
    → (started start_time job).collection_target ≡ job.collection_target
unfolding started
target-started start_time job = refl

get-written_rows :
    (start_time end_time : ℕ) (table : JobTable) (job : PipelineJob)
    (result : Result PipelineResult) (other_id : Text)
    → get table job.id ≡ some job
    → get
        (end_job end_time (started start_time job) result (update table (started start_time job)))
        other_id
      ≡ (if job.id == other_id
          then some (final_row start_time end_time job result)
          else get table other_id)
unfolding end_job
get-written_rows start_time end_time table job result other_id found = ground (
  arith,
  get-update (update table (started start_time job))
      (finished end_time (concluded (started start_time job) result)) other_id,
  get-update table (started start_time job) other_id,
  id-finished start_time end_time job result,
  id-started start_time job,
  updated_row-final start_time end_time job result,
  text_eq_iff job.id other_id,
)

module _ {W : Type 0} (run : ℕ → Exec W PipelineResult) (start_time end_time : ℕ) where
  -- A job that is in the table runs once, for its own target. Its row ends completed or failed,
  -- with the clock readings, and with the counts or the error of that run; no other row changes;
  -- the callback is told once whether the run succeeded.
  pub execute_pipeline_job_lem :
      (job_id other_id : Text) (worker : Worker W) (job : PipelineJob)
      → get worker.jobs job_id ≡ some job
      → let (result, world) = run job.collection_target worker.world in
        let after = execute_pipeline_job run start_time end_time job_id worker in
        (get after.jobs other_id ≡ (
          if job_id == other_id
          then some (final_row start_time end_time job result)
          else get worker.jobs other_id))
        × (after.world ≡ world)
        × (after.reports ≡ worker.reports ++ succeeded result ∷ [])
  unfolding execute_pipeline_job
  execute_pipeline_job_lem job_id other_id worker job found =
      let started_job = started start_time job in
      let result = (run job.collection_target worker.world).0 in
      (
        ground (
          arith,
          found,
          target-started start_time job,
          id-get worker.jobs job_id job found,
          get-written_rows start_time end_time worker.jobs job result other_id,
        ),
        ground (arith, found, target-started start_time job),
        ground (arith, found, target-started start_time job),
      )
