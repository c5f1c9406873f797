-- ===== src/Examples/Again.antt =====
-- A job whose first run fails, delivered a second time.
use marketplace_pipeline.Base.{
  ℕ, suc, zero, ◌≡◌, refl, true, false, none, some, [], ◌∷◌, codes, text_eq, Result, ok, err, Error,
  transport, str_error,
}
use marketplace_pipeline.Domain.Entities.{PipelineJob, completed}
use marketplace_pipeline.Application.RunPipeline.{PipelineResult}
use marketplace_pipeline.Jobs.Repository.{get}
use marketplace_pipeline.Jobs.Executor.{Worker, execute_pipeline_job}
use marketplace_pipeline.Jobs.Executor.Again.{executed_again}
use marketplace_pipeline.Examples.Jobs.{first_job}

abbrev lost : Error
lost = transport (codes "connection lost")

abbrev nothing : PipelineResult
nothing = record {
  collection_result = record {
    products = [];
    target_count = 2;
    collected_count = 0;
    exhausted = true;
    degraded = false;
    error_message = none;
  };
  enriched_products = [];
  crm_tasks = [];
  output_path = none;
}

-- The first run fails, the others do not.
abbrev run : ℕ → ℕ → Result PipelineResult × ℕ
run target zero = (err lost, 1)
run target (suc runs) = (ok nothing, suc (suc runs))

abbrev worker : Worker ℕ
worker = record { jobs = first_job ∷ []; world = 0; reports = [] }

executed_again_example :
    let after =
      execute_pipeline_job run 5 6 (codes "a") (execute_pipeline_job run 3 4 (codes "a") worker) in
    (after.world ≡ 2)
    × (after.reports ≡ false ∷ true ∷ [])
    × ((row : PipelineJob) × (get after.jobs (codes "a") ≡ some row)
        × (row.status ≡ completed)
        × (row.error_message ≡ some (str_error lost))
        × (row.classified_count ≡ some 0))
unfolding get text_eq
executed_again_example = executed_again run 3 4 5 6 (codes "a") worker first_job refl
