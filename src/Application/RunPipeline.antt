-- ===== src/Application/RunPipeline.antt =====
-- application/use_cases/run_pipeline.py and application/dto/pipeline_result.py. The four ports are
-- calls that change a state `W` and may raise; the log lines are left out.
pub mod Outcome
use marketplace_pipeline.Base.{
  ℕ, List, [], ◌∷◌, Text, Option, some, Result, ok, err, Exec, exec_continue, ◌>>>=◌ as ◌>>=◌, pure,
}
use marketplace_pipeline.Domain.Entities.{
  Product, EnrichedProduct, CollectionResult, CrmTaskRequest, CrmTaskOutcome,
}
use marketplace_pipeline.Domain.TaskFactory.{build_tasks}

pub record PipelineResult : Type 0 where
  pub collection_result : CollectionResult
  pub enriched_products : List EnrichedProduct
  pub crm_tasks : List CrmTaskOutcome
  pub output_path : Option Text

pub record Ports (W : Type 0) : Type 0 where
  pub collect : ℕ → Exec W CollectionResult
  pub classify : List Product → Exec W (List EnrichedProduct)
  pub create_task : CrmTaskRequest → Exec W CrmTaskOutcome
  pub save : List EnrichedProduct → CollectionResult → Exec W Text

module _ {W : Type 0} (ports : Ports W) where
  -- `[self._crm_gateway.create_task(task) for task in task_requests]`
  unfoldable pub create_tasks : List CrmTaskRequest → Exec W (List CrmTaskOutcome)
  create_tasks [] = pure []
  create_tasks (task ∷ tasks) = do
    outcome ← ports.create_task task
    outcomes ← create_tasks tasks
    pure (outcome ∷ outcomes)

  unfoldable pub run_pipeline : ℕ → Exec W PipelineResult
  run_pipeline target = do
    collection ← ports.collect target
    enriched ← ports.classify collection.products
    outcomes ← create_tasks (build_tasks enriched)
    path ← ports.save enriched collection
    pure (record {
      collection_result = collection;
      enriched_products = enriched;
      crm_tasks = outcomes;
      output_path = some path;
    })
