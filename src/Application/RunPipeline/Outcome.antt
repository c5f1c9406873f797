-- ===== src/Application/RunPipeline/Outcome.antt =====
-- What a run of application/use_cases/run_pipeline.py produces, from what its ports promise.
use marketplace_pipeline.Base.{
  ℕ, ◌≡◌, ◌>>>=◌ as ◌>>=◌, pure, bind-ok, List, [], ◌∷◌, map, Exec, exec_continue, bind-err_cong,
  ap, ◌∙◌, Text, some, ok, err, Error, arith,
}
use marketplace_pipeline.Domain.Entities.{
  Product, EnrichedProduct, CollectionResult, CrmTaskRequest, CrmTaskOutcome,
}
use marketplace_pipeline.Domain.TaskFactory.{build_tasks}
use marketplace_pipeline.Application.RunPipeline.{PipelineResult, Ports, create_tasks, run_pipeline}

-- What the pipeline relies on: the classifier returns the products that it was given, and the
-- gateway's outcome carries the title of its request.
pub record PortLaws {W : Type 0} (ports : Ports W) : Type 0 where
  pub classified :
      (products : List Product) (w : W) (enriched : List EnrichedProduct)
      → (ports.classify products w).0 ≡ ok enriched
      → map (λ (e : EnrichedProduct). e.product) enriched ≡ products
  pub created :
      (task : CrmTaskRequest) (w : W) (outcome : CrmTaskOutcome)
      → (ports.create_task task w).0 ≡ ok outcome
      → outcome.title ≡ task.title

-- What a successful run for a target has done that started in the state `w` and left `after`.
pub record IsComplete {W : Type 0} (ports : Ports W) (target : ℕ) (w after : W)
    (result : PipelineResult) : Type 0 where
  pub collected : (ports.collect target w).0 ≡ ok result.collection_result
  pub classified :
      (ports.classify result.collection_result.products (ports.collect target w).1).0
      ≡ ok result.enriched_products
  pub all_classified :
      map (λ (e : EnrichedProduct). e.product) result.enriched_products
      ≡ result.collection_result.products
  pub all_created :
      map (λ (o : CrmTaskOutcome). o.title) result.crm_tasks
      ≡ map (λ (t : CrmTaskRequest). t.title) (build_tasks result.enriched_products)
  -- The state before the last call, the call and what it returned.
  pub saved :
      (before : W) × (path : Text) × (ports.save result.enriched_products result.collection_result
          before
        ≡ (ok path, after))
      × (result.output_path ≡ some path)

module _ {W : Type 0} (ports : Ports W) where
  create_tasks-titles :
      (law : PortLaws ports) (tasks : List CrmTaskRequest) (w : W) (outcomes : List CrmTaskOutcome)
      → (create_tasks ports tasks w).0 ≡ ok outcomes
      → map (λ (o : CrmTaskOutcome). o.title) outcomes ≡ map (λ (t : CrmTaskRequest). t.title) tasks
  unfolding create_tasks
  create_tasks-titles law [] w outcomes h = ground arith
  create_tasks-titles law (task ∷ tasks) w outcomes h =
      let (outcome, made, rest) =
        bind-ok (ports.create_task task)
          (λ outcome. create_tasks ports tasks >>= λ more. pure (outcome ∷ more)) w outcomes h in
      let (more, made_more, same) =
        bind-ok (create_tasks ports tasks) (λ more. pure (outcome ∷ more))
          (ports.create_task task w).1 outcomes rest in
      ground (
        arith,
        law.created task w outcome made,
        create_tasks-titles law tasks (ports.create_task task w).1 more made_more,
      )

  -- A run that returns has the collection for its target, and what the classifier then returned for
  -- the collected products; if the classifier returns the products that it was given and the
  -- gateway's outcomes carry their tasks' titles, it has classified exactly the collected products,
  -- in their order, and has an outcome for each task that the classified products ask for, with its
  -- title and in its order. Its last call has saved the classified products with the collection,
  -- and the state that this call left and the path that it returned are the run's.
  pub run_pipeline-IsComplete :
      (law : PortLaws ports) (target : ℕ) (w : W) (result : PipelineResult)
      → (run_pipeline ports target w).0 ≡ ok result
      → IsComplete ports target w (run_pipeline ports target w).1 result
  unfolding run_pipeline
  run_pipeline-IsComplete law target w result h =
      let (collection, collected, rest) = bind-ok (ports.collect target) _ w result h in
      let w1 = (ports.collect target w).1 in
      let (enriched, classified, rest2) =
        bind-ok (ports.classify collection.products) _ w1 result rest in
      let w2 = (ports.classify collection.products w1).1 in
      let (outcomes, created, rest3) =
        bind-ok (create_tasks ports (build_tasks enriched)) _ w2 result rest2 in
      let w3 = (create_tasks ports (build_tasks enriched) w2).1 in
      let (path, stored, same) = bind-ok (ports.save enriched collection) _ w3 result rest3 in
      record {
        all_classified =
            ground (arith, same, law.classified collection.products w1 enriched classified);
        all_created =
            ground
              (arith, same, create_tasks-titles law (build_tasks enriched) w2 outcomes created);
        collected = ground (arith, collected, same);
        classified = ground (arith, classified, same);
        saved = (
          w3,
          path,
          ground (arith, same, stored, collected, classified, created),
          ground (arith, same),
        );
      }

  create_tasks-save :
      (save' : List EnrichedProduct → CollectionResult → Exec W Text) (tasks : List CrmTaskRequest)
      (w : W)
      → create_tasks (record ports { save = save' }) tasks w ≡ create_tasks ports tasks w
  unfolding create_tasks
  create_tasks-save save' [] w = λ i. (ok [], w)
  create_tasks-save save' (task ∷ tasks) w =
      ground (arith, create_tasks-save save' tasks (ports.create_task task w).1)

  -- The end of a run: the save and its result.
  abbrev saving :
      (List EnrichedProduct → CollectionResult → Exec W Text)
      → CollectionResult
      → List EnrichedProduct
      → List CrmTaskOutcome
      → Exec W PipelineResult
  saving save collection enriched outcomes = save enriched collection >>= λ path. pure (record {
    collection_result = collection;
    enriched_products = enriched;
    crm_tasks = outcomes;
    output_path = some path;
  })

  tasks_unsaved :
      (collection : CollectionResult) (enriched : List EnrichedProduct) (v : W) (e : Error)
      (save' : List EnrichedProduct → CollectionResult → Exec W Text)
      → ((enriched : List EnrichedProduct) (collection : CollectionResult) (v : W)
          → (path : Text) × ((ports.save enriched collection v).0 ≡ ok path))
      → ((create_tasks ports (build_tasks enriched) >>= saving ports.save collection enriched) v).0
        ≡ err e
      → (create_tasks (record ports { save = save' }) (build_tasks enriched)
            >>= saving save' collection enriched)
          v
        ≡ (create_tasks ports (build_tasks enriched) >>= saving ports.save collection enriched) v
  tasks_unsaved collection enriched v e save' saves failed =
      ap (λ r. exec_continue r.0 (saving save' collection enriched) r.1)
        (create_tasks-save save' (build_tasks enriched) v)
      ∙ bind-err_cong (create_tasks ports (build_tasks enriched))
          (saving ports.save collection enriched) (saving save' collection enriched) v e
          (λ outcomes failed3.
            let last = (create_tasks ports (build_tasks enriched) v).1 in
            absurd (ground (arith, failed3, (saves enriched collection last).1)))
          failed

  -- A run that fails has saved nothing, if saving raises nothing: whichever call fails, be it the
  -- creation of the last task, the run ends with that error and in that state with every other way of
  -- saving too.
  pub run_pipeline_unsaved :
      (target : ℕ) (w : W) (e : Error)
      (save' : List EnrichedProduct → CollectionResult → Exec W Text)
      → ((enriched : List EnrichedProduct) (collection : CollectionResult) (v : W)
          → (path : Text) × ((ports.save enriched collection v).0 ≡ ok path))
      → (run_pipeline ports target w).0 ≡ err e
      → run_pipeline (record ports { save = save' }) target w ≡ run_pipeline ports target w
  unfolding run_pipeline
  run_pipeline_unsaved target w e save' saves failed =
      let w1 = (ports.collect target w).1 in
      bind-err_cong (ports.collect target) _ _ w e
        (λ collection failed1.
          bind-err_cong (ports.classify collection.products) _ _ w1 e
            (λ enriched failed2.
              tasks_unsaved collection enriched (ports.classify collection.products w1).1 e save'
                saves failed2)
            failed1)
        failed
