-- ===== src/Examples/Runs.antt =====
-- A run of run_pipeline.py, and a job of pipeline_job_executor.py that runs it.
use marketplace_pipeline.Base.{
  ℕ, suc, ◌≡◌, refl, ap, true, false, none, some, List, [], ◌∷◌, Text, Text-Eq, ◌==◌, codes,
  if◌then◌else◌, Result, ok, err, other, map, arith, sorted, filter,
}
use marketplace_pipeline.Domain.Entities.{
  Product, EnrichedProduct, CollectionResult, CrmTaskRequest, CrmTaskOutcome, premium,
}
use marketplace_pipeline.Domain.TaskFactory.{premium_title, build_tasks}
use marketplace_pipeline.Application.RunPipeline.{PipelineResult, Ports, create_tasks, run_pipeline}
use marketplace_pipeline.Application.RunPipeline.Outcome.{
  PortLaws, IsComplete, run_pipeline-IsComplete, run_pipeline_unsaved,
}
use marketplace_pipeline.Jobs.Repository.{get}
use marketplace_pipeline.Jobs.Executor.{execute_pipeline_job, succeeded}
use marketplace_pipeline.Jobs.Executor.Rows.{final_row, execute_pipeline_job_lem}
use marketplace_pipeline.Domain.Selection.{top_premium_by_price, top_economy_by_price}
use marketplace_pipeline.Examples.Jobs.{first_job, first_job_stored}

abbrev phone : Product
phone = record {
  id = codes "p";
  name = codes "Phone";
  price = 90000;
  currency = codes "RUB";
  url = codes "/p";
  category = codes "phones";
  collected_at = 1;
  description = [];
}

abbrev as_premium : Product → EnrichedProduct
as_premium p = record { product = p; segment = premium }

-- Ports that collect one phone; their state is the number of tasks in the CRM.
abbrev ports_with : (CrmTaskRequest → ℕ → Result CrmTaskOutcome × ℕ) → Ports ℕ
ports_with create_task = record {
  collect = λ target w. (
    ok (record {
      products = phone ∷ [];
      target_count = target;
      collected_count = 1;
      exhausted = true;
      degraded = false;
      error_message = none;
    }),
    w,
  );
  classify = λ products w. (ok (map as_premium products), w);
  create_task = create_task;
  save = λ enriched collection w. (ok (codes "out.json"), w);
}

abbrev ports : Ports ℕ
ports = ports_with (λ task w. (
  ok (record {
    task_id = codes "1";
    title = task.title;
    mocked = true;
    reused = false;
    idempotency_key = none;
  }),
  suc w,
))

abbrev run : ℕ → ℕ → Result PipelineResult × ℕ
run = run_pipeline ports

execute_pipeline_job_lem_example :
    (get
        (execute_pipeline_job run 5 9
          (codes "a")
          (record { jobs = first_job ∷ []; world = 0; reports = [] })).jobs
        (codes "a")
      ≡ (if codes "a" == codes "a"
          then some (final_row 5 9 first_job (run 2 0).0)
          else get (first_job ∷ []) (codes "a")))
    × ((execute_pipeline_job run 5 9
          (codes "a")
          (record { jobs = first_job ∷ []; world = 0; reports = [] })).world
        ≡ (run 2 0).1)
    × ((execute_pipeline_job run 5 9
          (codes "a")
          (record { jobs = first_job ∷ []; world = 0; reports = [] })).reports
        ≡ succeeded (run 2 0).0 ∷ [])
execute_pipeline_job_lem_example =
    execute_pipeline_job_lem run 5 9 (codes "a") (codes "a")
      (record { jobs = first_job ∷ []; world = 0; reports = [] }) first_job first_job_stored

map-as_premium :
    (products : List Product)
    → map (λ (e : EnrichedProduct). e.product) (map as_premium products) ≡ products
map-as_premium [] = refl
map-as_premium (p ∷ products) = ap (◌∷◌ p) (map-as_premium products)

ports_laws : PortLaws ports
ports_laws = record {
  classified = λ products w enriched h. ground (arith, map-as_premium products);
  created = λ asked w outcome h. ground arith;
}

abbrev full_result : PipelineResult
full_result = record {
  collection_result = record {
    products = phone ∷ [];
    target_count = 2;
    collected_count = 1;
    exhausted = true;
    degraded = false;
    error_message = none;
  };
  enriched_products = record { product = phone; segment = premium } ∷ [];
  crm_tasks =
      record {
        task_id = codes "1";
        title = premium_title;
        mocked = true;
        reused = false;
        idempotency_key = none;
      }
      ∷ [];
  output_path = some (codes "out.json");
}

run_returns : (run_pipeline ports 2 0).0 ≡ ok full_result
unfolding run_pipeline create_tasks build_tasks top_premium_by_price top_economy_by_price sorted
    filter
run_returns = refl

run_pipeline-IsComplete_example : IsComplete ports 2 0 (run_pipeline ports 2 0).1 full_result
run_pipeline-IsComplete_example =
    run_pipeline-IsComplete ports ports_laws 2 0 full_result run_returns

-- A CRM that fails.
abbrev failing_ports : Ports ℕ
failing_ports = ports_with (λ task w. (err (other (codes "down")), suc w))

failing_run : (run_pipeline failing_ports 2 0).0 ≡ err (other (codes "down"))
unfolding run_pipeline create_tasks build_tasks top_premium_by_price sorted filter
failing_run = refl

abbrev other_save : List EnrichedProduct → CollectionResult → ℕ → Result Text × ℕ
other_save enriched collection w = (ok (codes "elsewhere.json"), 0)

run_pipeline_unsaved_example :
    run_pipeline (record failing_ports { save = other_save }) 2 0 ≡ run_pipeline failing_ports 2 0
run_pipeline_unsaved_example =
    run_pipeline_unsaved failing_ports 2 0 (other (codes "down")) other_save
      (λ enriched collection v. (codes "out.json", refl)) failing_run
