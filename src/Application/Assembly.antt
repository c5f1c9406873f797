-- ===== src/Application/Assembly.antt =====
-- The pipeline with the classifier of infrastructure/adapters/llm/openai_classifier.py and the gateway
-- of infrastructure/adapters/crm/amocrm_gateway.py at its ports, as
-- infrastructure/composition/container.py puts them together. The collector and the output are
-- parameters, and the tasks of a run share one reading of the clock, `now`. The state is that of the classifier's HTTP client and that of the gateway.
use marketplace_pipeline.Base.{ℕ, ◌<◌, List, Text, Result, Exec, arith}
use marketplace_pipeline.Domain.Entities.{EnrichedProduct, CollectionResult}
use marketplace_pipeline.Llm.Classifier.{Answer, LlmSettings, PayloadItem, classify}
use marketplace_pipeline.Llm.Classifier.Keeps.{classify_keeps}
use marketplace_pipeline.Crm.Record.{IdempotencyStore}
use marketplace_pipeline.Crm.Gateway.{CrmSettings, AmoCrm, GatewayState, create_task}
use marketplace_pipeline.Crm.Gateway.Titles.{create_task-title}
use marketplace_pipeline.Application.RunPipeline.{Ports}
use marketplace_pipeline.Application.RunPipeline.Outcome.{PortLaws}

-- A call that works on one half of a state.
abbrev on_first {ℓ} : {V G : Type 0} {A : Type ℓ} → Exec V A → Exec (V × G) A
on_first call w = let (r, v) = call w.0 in (r, (v, w.1))

abbrev on_second {ℓ} : {V G : Type 0} {A : Type ℓ} → Exec G A → Exec (V × G) A
on_second call w = let (r, g) = call w.1 in (r, (w.0, g))

module _ {V St R : Type 0} (post : List PayloadItem → Exec V Text)
    (json_loads : Text → Result Answer) (llm : LlmSettings) (sha256 : Text → Text)
    (settings : CrmSettings) (store : IdempotencyStore St) (crm : AmoCrm R) (now : ℕ)
    (collect : ℕ → Exec (V × GatewayState St R) CollectionResult)
    (save : List EnrichedProduct → CollectionResult → Exec (V × GatewayState St R) Text) where
  abbrev pub assembled : Ports (V × GatewayState St R)
  assembled = record {
    collect = collect;
    classify = λ products. on_first (classify post json_loads llm products);
    create_task = λ task. on_second (create_task sha256 settings store crm now task);
    save = save;
  }

  -- With a batch size that is not 0, the classifier and the gateway keep what the pipeline relies on
  -- at its ports, whatever the model, AmoCRM and the store do.
  pub assembled-PortLaws : 0 < llm.llm_batch_size → PortLaws assembled
  assembled-PortLaws pos = record {
    classified = λ products w enriched h.
        let (found, returned, kept) = classify_keeps post json_loads llm products w.0 pos in
        ground (arith, h, returned, kept);
    created =
        λ task w outcome h. (create_task-title sha256 settings store crm now task w.1 outcome h).0;
  }
