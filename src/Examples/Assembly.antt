-- ===== src/Examples/Assembly.antt =====
-- The assembled pipeline, with the adapters of the other examples.
use marketplace_pipeline.Base.{ℕ, List, Text, Result, ok, codes, arith}
use marketplace_pipeline.Domain.Entities.{EnrichedProduct, CollectionResult}
use marketplace_pipeline.Crm.Gateway.{GatewayState, RemoteTask}
use marketplace_pipeline.Crm.RedisStore.{Redis}
use marketplace_pipeline.Application.RunPipeline.Outcome.{PortLaws}
use marketplace_pipeline.Application.Assembly.{assembled, assembled-PortLaws}
use marketplace_pipeline.Examples.Catalogue.{post, loads, live_settings, found}
use marketplace_pipeline.Examples.Crm.{digest, settings, store, crm}

abbrev World : Type 0
World = ℕ × GatewayState Redis (List RemoteTask)

abbrev collect_found : ℕ → World → Result CollectionResult × World
collect_found target w = (ok found, w)

abbrev save_nothing : List EnrichedProduct → CollectionResult → World → Result Text × World
save_nothing enriched collection w = (ok (codes "out.json"), w)

assembled-PortLaws_example :
    PortLaws
      (assembled post loads live_settings digest settings store crm 5 collect_found save_nothing)
assembled-PortLaws_example =
    assembled-PortLaws post loads live_settings digest settings store crm 5 collect_found
      save_nothing (omega arith)
