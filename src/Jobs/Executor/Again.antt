-- ===== src/Jobs/Executor/Again.antt =====
-- A job that infrastructure/services/pipeline_job_executor.py is given a second time: Celery delivers
-- a task again if its worker is lost before it is acknowledged, and the code has no test of the
-- job's status.
use marketplace_pipeline.Base.{
  Exec, ℕ, ◌≡◌, refl, ap, ap₂, ◌∙◌, Option, some, [], ◌∷◌, ◌++◌, Text, Text-Eq, text_eq_iff, Result,
  ok, err, str_error, length, arith,
}
use marketplace_pipeline.Domain.Entities.{PipelineJob, JobStatus, completed, failed}
use marketplace_pipeline.Application.RunPipeline.{PipelineResult}
use marketplace_pipeline.Jobs.Repository.{get}
use marketplace_pipeline.Jobs.Executor.{Worker, succeeded, execute_pipeline_job}
use marketplace_pipeline.Jobs.Executor.Rows.{final_row, execute_pipeline_job_lem}

target-final_row :
    (start_time end_time : ℕ) (job : PipelineJob) (result : Result PipelineResult)
    → (final_row start_time end_time job result).collection_target ≡ job.collection_target
unfolding final_row
target-final_row start_time end_time job (ok result) = refl
target-final_row start_time end_time job (err e) = refl

-- What a column is after a run: of the status, of the error and of the number of classified products.
abbrev pub status_after : Result PipelineResult → JobStatus
status_after (ok result) = completed
status_after (err e) = failed

abbrev pub error_after : Option Text → Result PipelineResult → Option Text
error_after message (ok result) = message
error_after message (err e) = some (str_error e)

abbrev pub classified_after : Option ℕ → Result PipelineResult → Option ℕ
classified_after count (ok result) = some (length result.enriched_products)
classified_after count (err e) = count

columns-final_row :
    (a b : ℕ) (job : PipelineJob) (result : Result PipelineResult)
    → let row = final_row a b job result in
      (row.status ≡ status_after result)
      × (row.error_message ≡ error_after job.error_message result)
      × (row.classified_count ≡ classified_after job.classified_count result)
unfolding final_row
columns-final_row a b job (ok result) = (refl, refl, refl)
columns-final_row a b job (err e) = (refl, refl, refl)

module _ {W : Type 0} (run : ℕ → Exec W PipelineResult) (a b c d : ℕ) where
  -- A job that is executed twice runs its pipeline twice, for its own target, whatever came of the
  -- first run, and the outcomes of both are reported. The row has the status of the second run. Its
  -- error message is that of the last run that failed, so that a second run that succeeds leaves the
  -- message of a first that failed, and its number of classified products is that of the last run
  -- that succeeded; with no such run they are what they were.
  pub executed_again :
      (job_id : Text) (worker : Worker W) (job : PipelineJob)
      → get worker.jobs job_id ≡ some job
      → let (first, world) = run job.collection_target worker.world in
        let (second, later) = run job.collection_target world in
        let after =
          execute_pipeline_job run c d job_id (execute_pipeline_job run a b job_id worker) in
        (after.world ≡ later)
        × (after.reports ≡ (worker.reports ++ succeeded first ∷ []) ++ succeeded second ∷ [])
        × ((row : PipelineJob) × (get after.jobs job_id ≡ some row)
            × (row.status ≡ status_after second)
            × (row.error_message ≡ error_after (error_after job.error_message first) second)
            × (row.classified_count
                ≡ classified_after (classified_after job.classified_count first) second))
  executed_again job_id worker job found =
      let once = execute_pipeline_job run a b job_id worker in
      let first = (run job.collection_target worker.world).0 in
      let second = (run job.collection_target (run job.collection_target worker.world).1).0 in
      let row = final_row a b job first in
      let (jobs1, world1, reports1) =
        execute_pipeline_job_lem run a b job_id job_id worker job found in
      let found1 : get once.jobs job_id ≡ some row =
        ground (arith, jobs1, text_eq_iff job_id job_id) in
      let (jobs2, world2, reports2) =
        execute_pipeline_job_lem run c d job_id job_id once row found1 in
      let (status1, message1, count1) = columns-final_row a b job first in
      let (status2, message2, count2) = columns-final_row c d row second in
      let same : run row.collection_target once.world
          ≡ run job.collection_target (run job.collection_target worker.world).1 =
        ap₂ (λ target w. run target w) (target-final_row a b job first) world1 in
      (
        world2 ∙ ap (λ r. r.1) same,
        ground (arith, reports1, reports2, ap (λ r. r.0) same),
        (
          final_row c d row second,
          ground (arith, jobs2, ap (λ r. r.0) same, text_eq_iff job_id job_id),
          status2,
          message2 ∙ ap (λ m. error_after m second) message1,
          count2 ∙ ap (λ n. classified_after n second) count1,
        ),
      )
